-- ===== src/Masking/Engine/Woven.antt =====
-- The masked text is the text with each finding replaced, and nothing else changed.
use frostglass.Prelude.{
  ℕ, ◌+◌, ◌≡◌, ◌≢◌, refl, ap, ◌∙◌, ◌≤◌, false, ◌||◌, List, [], ◌∷◌, ◌++◌, append_assoc, append-nil,
  Str, str, ok, suc, filter, str_eq, ◌==◌, Bool-cases, inl, inr, ltb, length, take, drop, arith,
  pair_eq,
}
use frostglass.Prelude.Dict
use frostglass.Prelude.Dict.{Dict, get-put}
use frostglass.Detection.Hashing.{encode}
use frostglass.Detection.Models.{Finding}
use frostglass.Detection.Engine.{slice}
use frostglass.Detection.Engine.Chain.{IsChain}
use frostglass.Masking.Models.{
  MaskingMode, allow, pseudonymize, tag, hash, block, MaskingContext, scope_id,
}
use frostglass.Masking.Vault.{EncryptedVault, Crypto, IsCrypto}
use frostglass.Masking.Vault.Laws.{IsSound}
use frostglass.Masking.Consistency.{Generator, surrogate_for}
use frostglass.Masking.Consistency.Stable.{surrogate_for_total, err-ne-ok}
use frostglass.Masking.Engine.{
  Loop, MaskingResult, join, mode_for, replacement, appended, replaced, round, rounds, finished,
  mask, next_number, next_after, tag_text,
}

-- The text from `cursor` on, with the findings replaced by `news`.
pub weave : Str → ℕ → List Finding → List Str → Str
weave text cursor (f ∷ fs) (new ∷ news) =
    slice text cursor f.start ++ (new ++ weave text f.end fs news)
weave text cursor _ _ = drop cursor text

-- No finding is to be blocked.
abbrev pub NoneBlocked : Dict (ℕ × ℕ) MaskingMode → List Finding → Type 0
NoneBlocked modes [] = Unit
NoneBlocked modes (f ∷ fs) = (mode_for modes f ≢ block) × NoneBlocked modes fs

join-append : (ps qs : List Str) → join (ps ++ qs) ≡ join ps ++ join qs
unfolding join
join-append [] qs = refl
join-append (p ∷ ps) qs = simp (join-append ps qs, append_assoc)

join_two : (ps : List Str) (a b : Str) → join ((ps ++ a ∷ []) ++ b ∷ []) ≡ join ps ++ (a ++ b)
join_two ps a b = simp (join-append, append_assoc) (unfold join in simp append-nil)

-- The state after a round that returns.
abbrev next : Str → MaskingMode → Finding → Loop → Str → Dict Str ℕ → EncryptedVault → Loop
next text mode f l new counts v =
    appended text mode f new (record l { tag_counts = counts; vault = v })

join_last : (ps : List Str) (a : Str) → join (ps ++ a ∷ []) ≡ join ps ++ a
join_last ps a = simp join-append (unfold join in simp append-nil)

join-next :
    (text : Str) (mode : MaskingMode) (f : Finding) (l : Loop) (new : Str) (counts : Dict Str ℕ)
    (v : EncryptedVault) (rest : Str)
    → join (next text mode f l new counts v).output ++ rest
      ≡ join l.output ++ (slice text l.cursor f.start ++ (new ++ rest))
unfolding appended
join-next text mode f l new counts v rest =
    ap (λ p. p ++ rest) (join_two l.output (slice text l.cursor f.start) new)
    ∙ append_assoc (join l.output) (slice text l.cursor f.start ++ new) rest
    ∙ ap (λ p. join l.output ++ p) (append_assoc (slice text l.cursor f.start) new rest)

-- How many of the findings before had a type
unfoldable pub number_of : Str → List Str → ℕ
unfolding filter
number_of entity_type tagged = length (filter (λ t. t == entity_type) tagged)

-- The types that were tagged, after a finding
unfoldable pub tagged_after : MaskingMode → Finding → List Str → List Str
tagged_after tag f tagged = f.entity_type ∷ tagged
tagged_after _ f tagged = tagged

-- The counters of the loop are the numbers of the types that were tagged.
abbrev Counted : Dict Str ℕ → List Str → Type 0
Counted counts tagged = (t : Str) → next_number counts t ≡ suc (number_of t tagged)

put-Counted :
    (counts : Dict Str ℕ) (tagged : List Str) (t : Str)
    → Counted counts tagged
    → Counted (Dict.put counts t (next_number counts t)) (t ∷ tagged)
unfolding next_number next_after number_of filter
put-Counted counts tagged t h wanted = elim (Bool-cases (t == wanted)) [
  | inl same ↦
      let e = h wanted in
      rw (get-put counts t wanted (next_number counts t), same)
        (ap (λ w. next_number counts w + 1) ((str_eq.beq_iff t wanted).0 same) ∙ omega (arith, e))
  | inr differs ↦ rw (get-put counts t wanted (next_number counts t), differs) (h wanted)
]

module _ (c : Crypto) (generate : Generator) (sha : List ℕ → Str) (salt : Str) (now : ℕ)
    (text : Str) (context : MaskingContext) where
  -- What stands for a finding: with `allow` its own text; with `hash` the first sixteen digits of the
  -- digest of the salted text; with `tag` its type and number, one more than the tags of the type so far;
  -- with `pseudonymize` the surrogate that the vault at this point has or takes for it.
  unfoldable pub IsReplacement :
      MaskingMode → List Str → EncryptedVault → Finding → Str → EncryptedVault → Type 0
  IsReplacement allow tagged v f new v' = (new ≡ slice text f.start f.end) × (v' ≡ v)
  IsReplacement hash tagged v f new v' =
      (new ≡ str "sha256:" ++ take 16 (sha (encode (salt ++ str ":" ++ slice text f.start f.end))))
      × (v' ≡ v)
  IsReplacement tag tagged v f new v' =
      (new ≡ tag_text f.entity_type (suc (number_of f.entity_type tagged))) × (v' ≡ v)
  IsReplacement pseudonymize tagged v f new v' =
      surrogate_for c generate now v context f.entity_type (slice text f.start f.end) f.value_hash
      ≡ (ok new, v')
  IsReplacement block tagged v f new v' = ⊥

  module _ (modes : Dict (ℕ × ℕ) MaskingMode) where
    -- One replacement for each finding, from a vault to a vault
    abbrev pub AreReplacements :
        List Str → EncryptedVault → List Finding → List Str → EncryptedVault → Type 0
    AreReplacements tagged v [] [] v' = v' ≡ v
    AreReplacements tagged v (f ∷ fs) (new ∷ news) v' =
        (w : EncryptedVault) × IsReplacement (mode_for modes f) tagged v f new w
        × AreReplacements (tagged_after (mode_for modes f) f tagged) w fs news v'
    AreReplacements tagged v _ _ v' = ⊥

    -- The generator returns for each finding to be pseudonymized.
    abbrev pub Generates : List Finding → Type 0
    Generates [] = Unit
    Generates (f ∷ fs) =
        (mode_for modes f ≡ pseudonymize
          → (s : Str) × (generate (scope_id context) f.entity_type (slice text f.start f.end)
                f.value_hash
              ≡ ok s))
        × Generates fs

module _ (c : Crypto) (laws : IsCrypto c) (generate : Generator) (sha : List ℕ → Str)
    (salt : Str) where
  replacement_total :
      (mode : MaskingMode) (now : ℕ) (f : Finding) (text : Str) (context : MaskingContext)
      (l : Loop) (tagged : List Str)
      → mode ≢ block
      → (mode ≡ pseudonymize
          → (s : Str) × (generate
                (scope_id context)
                f.entity_type
                (slice text f.start f.end)
                f.value_hash
              ≡ ok s))
      → Counted l.tag_counts tagged
      → IsSound c l.vault
      → (new : Str) × (counts : Dict Str ℕ) × (v : EncryptedVault) × (replacement c generate sha
            salt mode now f
            (slice text f.start f.end)
            context
            l
          ≡ (ok new, counts, v))
        × IsSound c v
        × Counted counts (tagged_after mode f tagged)
        × IsReplacement c generate sha salt now text context mode tagged l.vault f new v
  unfolding replacement IsReplacement tagged_after
  replacement_total allow now f text context l tagged h g n s =
      (_, l.tag_counts, l.vault, refl, s, n, (refl, refl))
  replacement_total hash now f text context l tagged h g n s =
      (_, l.tag_counts, l.vault, refl, s, n, (refl, refl))
  replacement_total tag now f text context l tagged h g n s = (
    _,
    _,
    l.vault,
    refl,
    s,
    put-Counted l.tag_counts tagged f.entity_type n,
    (ap (tag_text f.entity_type) (n f.entity_type), refl),
  )
  replacement_total block now f text context l tagged h g n s = absurd (h refl)
  replacement_total pseudonymize now f text context l tagged h g n s =
      let original = slice text f.start f.end in
      let (s', given) =
        surrogate_for_total c laws generate now l.vault context f.entity_type original f.value_hash
          s in
      elim given [
        | inl (new, e) ↦
            let v =
              (surrogate_for c generate now l.vault context f.entity_type original
                f.value_hash).1 in
            (new, l.tag_counts, v, (λ i. (e i, l.tag_counts, v)), s', n, λ i. (e i, v))
        | inr (raised, missing, e, r) ↦ absurd (err-ne-ok _ e (g refl).1)
      ]

  round_ok :
      (now : ℕ) (text : Str) (context : MaskingContext) (mode : MaskingMode) (f : Finding)
      (l : Loop) (new : Str) (counts : Dict Str ℕ) (v : EncryptedVault)
      → l.cursor ≤ f.start
      → f.end ≤ length text
      → replacement c generate sha salt mode now f (slice text f.start f.end) context l
        ≡ (ok new, counts, v)
      → round c generate sha salt now text context mode f l
        ≡ (ok (next text mode f l new counts v), v)
  unfolding round replaced
  round_ok now text context mode f l new counts v h k e = rw (in_order, e)
    where
      in_order : (ltb f.start l.cursor || ltb (length text) f.end) ≡ false
      in_order = ground arith

  rounds_step :
      (now : ℕ) (text : Str) (context : MaskingContext) (modes : Dict (ℕ × ℕ) MaskingMode)
      (f : Finding) (fs : List Finding) (l l' : Loop) (v : EncryptedVault)
      → round c generate sha salt now text context (mode_for modes f) f l ≡ (ok l', v)
      → rounds c generate sha salt now text context modes (f ∷ fs) l
        ≡ rounds c generate sha salt now text context modes fs l'
  unfolding rounds
  rounds_step now text context modes f fs l l' v e = rw (e, rounds)

  -- The loop over a chain: it returns, and what it has appended with the rest of the text is the weave.
  rounds_woven :
      (now : ℕ) (text : Str) (context : MaskingContext) (modes : Dict (ℕ × ℕ) MaskingMode)
      (fs : List Finding) (l : Loop) (tagged : List Str)
      → IsChain l.cursor (length text) fs
      → NoneBlocked modes fs
      → Generates c generate sha salt now text context modes fs
      → Counted l.tag_counts tagged
      → IsSound c l.vault
      → (news : List Str) × (l' : Loop) × (v : EncryptedVault) × (rounds c generate sha salt now
            text context modes fs l
          ≡ (ok l', v))
        × AreReplacements c generate sha salt now text context modes tagged l.vault fs news v
        × (join l'.output ++ drop l'.cursor text ≡ join l.output ++ weave text l.cursor fs news)
        × IsSound c v
  unfolding rounds weave appended
  rounds_woven now text context modes [] l tagged chain free g n s =
      ([], l, l.vault, refl, refl, refl, s)
  rounds_woven now text context modes (f ∷ fs) l tagged chain free g n s =
      let (new, counts, v, e, s', n', is) =
        replacement_total (mode_for modes f) now f text context l tagged free.0 g.0 n s in
      let step = round_ok now text context (mode_for modes f) f l new counts v chain.0 chain.2 e in
      let (news, l', v', run, are, woven, sound) =
        rounds_woven now text context modes fs (next text (mode_for modes f) f l new counts v)
          (tagged_after (mode_for modes f) f tagged) (unfold appended in chain.3) free.1 g.1
          (unfold appended in n') (unfold appended in s') in
      (
        new ∷ news,
        l',
        v',
        rounds_step now text context modes f fs l _ v step ∙ run,
        (v, is, are),
        woven ∙ join-next text (mode_for modes f) f l new counts v (weave text f.end fs news),
        sound,
      )

  -- If the findings form a chain in the text, none of them is to be blocked, the generator returns for
  -- those to be pseudonymized, and the vault holds only what `put` stored, then `mask` returns. Its text is
  -- the given text with one replacement for each finding: the finding's own text, the digest of it, the
  -- next tag of its type or its surrogate, as its mode says.
  pub mask_woven :
      (now : ℕ) (v : EncryptedVault) (text : Str) (fs : List Finding) (context : MaskingContext)
      (modes : Dict (ℕ × ℕ) MaskingMode)
      → IsChain 0 (length text) fs
      → NoneBlocked modes fs
      → Generates c generate sha salt now text context modes fs
      → IsSound c v
      → (news : List Str) × (r : MaskingResult) × (v' : EncryptedVault) × (mask c generate sha salt
            now v text fs context modes
          ≡ (ok r, v'))
        × AreReplacements c generate sha salt now text context modes [] v fs news v'
        × (r.text ≡ weave text 0 fs news)
        × IsSound c v'
  unfolding mask finished
  mask_woven now v text fs context modes chain free g s =
      let start : Loop = record {
        output = [];
        immune_spans = [];
        cursor = 0;
        tag_counts = [];
        vault = v;
      } in
      let (news, l, v', run, are, woven, sound) =
        rounds_woven now text context modes fs start [] chain free g
          (λ t. unfold next_number next_after number_of filter Dict.get in refl) s in
      (
        news,
        record { text = join (l.output ++ drop l.cursor text ∷ []); immune_spans = l.immune_spans },
        v',
        rw run refl,
        are,
        join_last l.output (drop l.cursor text) ∙ woven,
        sound,
      )
