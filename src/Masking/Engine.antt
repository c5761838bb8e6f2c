-- ===== src/Masking/Engine.antt =====
-- frostglass/masking/engine.py. The digest of `hashlib.sha256` is a parameter; the vault that the
-- surrogates come from is passed along, also out of a call that raises.
pub mod Woven
use frostglass.Prelude.{
  ℕ, ◌+◌, ◌-◌, Bool, true, false, ◌||◌, Option, none, some, List, [], ◌∷◌, ◌++◌, Str, str, str_eq,
  ok, err, ltb, length, take, drop, if◌then◌else◌, nat_eq, pair_eq,
}
use frostglass.Prelude.Dict
use frostglass.Prelude.Dict.{Dict}
use frostglass.Prelude.Strings.{remove_suffix, replace, decimal}
use frostglass.Errors.{Py, PyError, value_error, blocked_content}
use frostglass.Detection.Models.{Finding}
use frostglass.Detection.Hashing.{encode}
use frostglass.Detection.Engine.{slice}
use frostglass.Masking.Models.{MaskingMode, allow, pseudonymize, tag, hash, block, MaskingContext}
use frostglass.Masking.Vault.{EncryptedVault, Crypto}
use frostglass.Masking.Consistency.{Generator, surrogate_for}

pub record MaskingResult : Type 0 where
  pub text : Str
  pub immune_spans : List (ℕ × ℕ)

-- The variables of the loop in `mask`
pub record Loop : Type 0 where
  pub output : List Str
  pub immune_spans : List (ℕ × ℕ)
  pub cursor : ℕ
  pub tag_counts : Dict Str ℕ
  pub vault : EncryptedVault

-- `"".join(parts)`
unfoldable pub join : List Str → Str
join [] = []
join (p ∷ ps) = p ++ join ps

-- `sum(len(part) for part in output)`
unfoldable pub total_length : List Str → ℕ
total_length [] = 0
total_length (p ∷ ps) = length p + total_length ps

-- `tag_counts.get(entity_type, 0) + 1`
unfoldable pub next_after : Option ℕ → ℕ
next_after none = 1
next_after (some n) = n + 1

unfoldable pub next_number : Dict Str ℕ → Str → ℕ
unfolding next_after
next_number counts t = next_after (Dict.get counts t)

-- `modes.get((finding.start, finding.end), MaskingMode.PSEUDONYMIZE)`
unfoldable pub mode_for : Dict (ℕ × ℕ) MaskingMode → Finding → MaskingMode
mode_for modes f = elim (Dict.get modes (f.start, f.end)) [ none ↦ pseudonymize | some m ↦ m ]

-- `mode in {MaskingMode.PSEUDONYMIZE, MaskingMode.TAG}`
unfoldable pub is_immune : MaskingMode → Bool
is_immune pseudonymize = true
is_immune tag = true
is_immune _ = false

unfoldable pub tag_text : Str → ℕ → Str
tag_text entity_type number =
    str "<"
    ++ (replace (remove_suffix entity_type (str "_ADDRESS")) (str "CREDIT_") []
        ++ (str "_" ++ (decimal number ++ str ">")))

-- What one round appends once it has its replacement
unfoldable pub appended : Str → MaskingMode → Finding → Str → Loop → Loop
unfolding is_immune total_length
appended text mode f new l =
    let output = l.output ++ slice text l.cursor f.start ∷ [] in
    let start = total_length output in
    record l {
      output = output ++ new ∷ [];
      immune_spans =
          if is_immune mode
          then l.immune_spans ++ (start, start + length new) ∷ []
          else l.immune_spans;
      cursor = f.end;
    }

-- The end of a round, from what `_replacement` gives
unfoldable pub replaced :
    Str
    → MaskingMode
    → Finding
    → Loop
    → Py Str × Dict Str ℕ × EncryptedVault
    → Py Loop × EncryptedVault
unfolding appended
replaced text mode f l (err e, counts, v) = (err e, v)
replaced text mode f l (ok new, counts, v) =
    (ok (appended text mode f new (record l { tag_counts = counts; vault = v })), v)

-- `output.append(text[cursor:])` and the result
unfoldable pub finished : Str → Py Loop × EncryptedVault → Py MaskingResult × EncryptedVault
unfolding join
finished text (err e, v) = (err e, v)
finished text (ok l, v) = (
  ok (record { text = join (l.output ++ drop l.cursor text ∷ []); immune_spans = l.immune_spans }),
  v,
)

module _ (c : Crypto) (generate : Generator) (sha256_hexdigest : List ℕ → Str)
    (tenant_salt : Str) where
  -- `_replacement`, with the counts and the vault after the call
  unfoldable pub replacement :
      MaskingMode → ℕ → Finding → Str → MaskingContext → Loop → Py Str × Dict Str ℕ × EncryptedVault
  unfolding next_number tag_text
  replacement allow now f original context l = (ok original, l.tag_counts, l.vault)
  replacement block now f original context l =
      (err (blocked_content (str "blocked " ++ f.entity_type)), l.tag_counts, l.vault)
  replacement hash now f original context l = (
    ok (str "sha256:" ++ take 16 (sha256_hexdigest (encode (tenant_salt ++ str ":" ++ original)))),
    l.tag_counts,
    l.vault,
  )
  replacement tag now f original context l =
      let number = next_number l.tag_counts f.entity_type in
      (ok (tag_text f.entity_type number), Dict.put l.tag_counts f.entity_type number, l.vault)
  replacement pseudonymize now f original context l =
      let (r, v) =
        surrogate_for c generate now l.vault context f.entity_type original f.value_hash in
      (r, l.tag_counts, v)

  -- One round: a check, and the text with its replacement
  unfoldable pub round :
      ℕ → Str → MaskingContext → MaskingMode → Finding → Loop → Py Loop × EncryptedVault
  unfolding replacement replaced
  round now text context mode f l =
      if ltb f.start l.cursor || ltb (length text) f.end
      then (err (value_error (str "findings must be sorted, disjoint, and in range")), l.vault)
      else replaced text mode f l (replacement mode now f (slice text f.start f.end) context l)

  -- The loop
  unfoldable pub rounds :
      ℕ
      → Str
      → MaskingContext
      → Dict (ℕ × ℕ) MaskingMode
      → List Finding
      → Loop
      → Py Loop × EncryptedVault
  unfolding round mode_for
  rounds now text context modes [] l = (ok l, l.vault)
  rounds now text context modes (f ∷ fs) l =
      let (r, v) = round now text context (mode_for modes f) f l in
      elim r [ err e ↦ (err e, v) | ok l' ↦ rounds now text context modes fs l' ]

  -- `MaskingEngine.mask`
  unfoldable pub mask :
      ℕ
      → EncryptedVault
      → Str
      → List Finding
      → MaskingContext
      → Dict (ℕ × ℕ) MaskingMode
      → Py MaskingResult × EncryptedVault
  unfolding rounds finished
  mask now v text findings context modes = finished text (
      rounds now text context modes findings
        (record { output = []; immune_spans = []; cursor = 0; tag_counts = []; vault = v }))
