-- ===== src/Masking/Restore/Cut.antt =====
-- frostglass/masking/restore.py, `feed`: with one surrogate, no occurrence of it has the cut inside, and
-- the text can be restored in two parts there.
use frostglass.Prelude.{
  ℕ, zero, suc, ◌+◌, ◌-◌, ◌<◌, ◌≤◌, ◌≡◌, ◌⊎◌, inl, inr, refl, sym, ap, ◌∙◌, Bool, true, false, ◌&&◌,
  [], ◌∷◌, ◌++◌, Str, arith, length, take, drop, ltb, leb, nat_beq, Bool-cases, append_assoc,
  nat_eq, leb→le, leb→lt, lt→ltb, drop-drop, false≢true,
}
use frostglass.Masking.Restore.{adjust}
use frostglass.Prelude.Strings.{starts_with, replace_from}

-- No occurrence in the text has the cut inside.
unfoldable pub Clear : Str → ℕ → Str → Type 0
Clear s k b = (p : ℕ) → p < k → k < p + length s → starts_with s (drop p b) ≡ false

and_false : (b : Bool) → b && false ≡ false
and_false true = refl
and_false false = refl

take_le : (k : ℕ) (b : Str) → length (take k b) ≤ k
take_le zero b = omega arith
take_le (suc k) [] = omega arith
take_le (suc k) (c ∷ b) = omega (arith, take_le k b)

starts_with_short : (s b : Str) → length b < length s → starts_with s b ≡ false
unfolding starts_with
starts_with_short [] b h = ground arith
starts_with_short (c ∷ s) [] h = refl
starts_with_short (c ∷ s) (d ∷ b) h =
    rw (starts_with_short s b (omega (arith, h))) (and_false (nat_beq c d))

starts_with-take : (s b : Str) (k : ℕ) → length s ≤ k → starts_with s (take k b) ≡ starts_with s b
unfolding starts_with
starts_with-take [] b k h = refl
starts_with-take (c ∷ s) b zero h = ground arith
starts_with-take (c ∷ s) [] (suc k) h = refl
starts_with-take (c ∷ s) (d ∷ b) (suc k) h = rw (starts_with-take s b k (omega (arith, h))) refl

module _ (o : ℕ) (old new : Str) where
  -- A cut that no occurrence contains splits the replacement.
  pub replace_from-split :
      (skip k : ℕ) (b : Str)
      → skip ≤ k
      → ((p : ℕ)
          → skip ≤ p
          → p < k
          → k < p + length (o ∷ old)
          → starts_with (o ∷ old) (drop p b) ≡ false)
      → replace_from (o ∷ old) new skip b
        ≡ replace_from (o ∷ old) new skip (take k b) ++ replace_from (o ∷ old) new 0 (drop k b)
  unfolding replace_from
  replace_from-split zero zero b h clear = refl
  replace_from-split (suc skip) zero b h clear = ground arith
  replace_from-split skip (suc k) [] h clear = refl
  replace_from-split (suc skip) (suc k) (c ∷ b) h clear =
      replace_from-split skip k b (omega (arith, h))
        (λ p a d e. clear (suc p) (omega (arith, a)) (omega (arith, d)) (omega (arith, e)))
  replace_from-split zero (suc k) (c ∷ b) h clear =
      elim (Bool-cases (leb (length (o ∷ old)) (suc k))) [
        | inl e ↦
            let fits : length (o ∷ old) ≤ suc k = leb→le _ _ e in
            let later : (skip : ℕ)
                → skip ≤ k
                → replace_from (o ∷ old) new skip b
                  ≡ replace_from (o ∷ old) new skip (take k b)
                    ++ replace_from (o ∷ old) new 0 (drop k b) =
              λ skip below.
                replace_from-split skip k b below
                  (λ p a d e. clear (suc p) (omega arith) (omega (arith, d)) (omega (arith, e))) in
            let agree = starts_with-take (o ∷ old) (c ∷ b) (suc k) fits in
            elim (Bool-cases (starts_with (o ∷ old) (c ∷ b))) [
              | inl hit ↦
                  rw (agree, hit)
                    (ap (λ r. new ++ r) (later (suc (length old) - 1) (omega (arith, fits)))
                      ∙ sym (append_assoc new _ _))
              | inr miss ↦ rw (agree, miss) (ap (λ r. c ∷ r) (later 0 (omega arith)))
            ]
        | inr e ↦
            let long : suc k < length (o ∷ old) = leb→lt _ _ e in
            let short : length (c ∷ take k b) < length (o ∷ old) =
              omega (arith, long, take_le k b) in
            rw
              (
                clear 0 (omega arith) (omega arith) (omega (arith, long)),
                starts_with_short (o ∷ old) (c ∷ take k b) short,
              )
              (ap (λ r. c ∷ r)
                (replace_from-split 0 k b (omega arith)
                  (λ p a d e. clear (suc p) (omega arith) (omega (arith, d)) (omega (arith, e)))))
      ]

-- The cut that is left alone has no occurrence inside, or it is moved to an occurrence.
unfoldable pub Adjusted : Str → ℕ → ℕ → Str → Type 0
Adjusted s offset cut b =
    ((adjust s offset cut b ≡ cut)
      × ((p : ℕ)
          → offset + p < cut
          → cut < offset + p + length s
          → starts_with s (drop p b) ≡ false))
    ⊎ ((q : ℕ) × (adjust s offset cut b ≡ offset + q)
        × (offset + q < cut)
        × (starts_with s (drop q b) ≡ true))

adjust_stays : (s : Str) (offset cut : ℕ) (b : Str) → cut ≤ offset → adjust s offset cut b ≡ cut
unfolding adjust
adjust_stays s offset cut [] h = refl
adjust_stays s offset cut (c ∷ b) h =
    let idle : (starts_with s (c ∷ b) && ltb offset cut && ltb cut (offset + length s)) ≡ false =
      ground (arith, h) in
    rw idle (adjust_stays s (offset + 1) cut b (omega (arith, h)))

empty_miss : (s : Str) (p : ℕ) → 0 < length s → starts_with s (drop p []) ≡ false
empty_miss s zero h = starts_with_short s [] h
empty_miss s (suc p) h = starts_with_short s [] h

module _ (s : Str) (filled : 0 < length s) where
  pub adjust-Adjusted : (offset cut : ℕ) (b : Str) → Adjusted s offset cut b
  unfolding adjust Adjusted
  adjust-Adjusted offset cut [] = inl (refl, λ p a d. empty_miss s p filled)
  adjust-Adjusted offset cut (c ∷ b) =
      elim (Bool-cases (starts_with s (c ∷ b) && ltb offset cut && ltb cut (offset + length s))) [
        | inl hit ↦ inr (
          0,
          rw hit (adjust_stays s (offset + 1) offset b (omega arith) ∙ omega arith),
          ground (arith, hit),
          ground (arith, hit),
        )
        | inr miss ↦ elim (adjust-Adjusted (offset + 1) cut b) [
          | inl (e, clear) ↦ inl (rw miss e, no_hit offset cut c b miss clear)
          | inr (q, e, below, at) ↦ inr (suc q, rw miss (e ∙ omega arith), omega (arith, below), at)
        ]
      ]
    where
      no_hit :
          (offset cut c : ℕ) (b : Str)
          → (starts_with s (c ∷ b) && ltb offset cut && ltb cut (offset + length s)) ≡ false
          → ((p : ℕ)
              → offset + 1 + p < cut
              → cut < offset + 1 + p + length s
              → starts_with s (drop p b) ≡ false)
          → (p : ℕ) → offset + p < cut
          → cut < offset + p + length s
          → starts_with s (drop p (c ∷ b)) ≡ false
      no_hit offset cut c b miss clear zero a d =
          let first : ltb offset cut ≡ true = lt→ltb _ _ (omega (arith, a)) in
          let second : ltb cut (offset + length s) ≡ true = lt→ltb _ _ (omega (arith, d)) in
          ground (arith, miss, first, second)
      no_hit offset cut c b miss clear (suc p) a d = clear p (omega (arith, a)) (omega (arith, d))

-- No two occurrences of the surrogate overlap, in any text.
unfoldable pub NoOverlap : Str → Type 0
NoOverlap s =
    (b : Str) (p : ℕ)
    → 0 < p
    → p < length s
    → starts_with s b ≡ true
    → starts_with s (drop p b) ≡ false

pub cut-Clear :
    (s : Str) (cut : ℕ) (b : Str)
    → NoOverlap s
    → Adjusted s 0 cut b
    → (adjust s 0 cut b ≤ cut) × Clear s (adjust s 0 cut b) b
unfolding Clear Adjusted NoOverlap
cut-Clear s cut b apart (inl (e, clear)) =
    (rw e (omega arith), rw e (λ p a d. clear p (omega (arith, a)) (omega (arith, d))))
cut-Clear s cut b apart (inr (q, e, below, at)) = (
  rw e (omega (arith, below)),
  rw e (λ p a d. elim (Bool-cases (starts_with s (drop p b))) [
    | inl overlaps ↦
        let moved : drop (0 + q - p) (drop p b) ≡ drop q b =
          drop-drop (0 + q - p) p b ∙ ap (λ n. drop n b) (omega (arith, a)) in
        absurd (
          false≢true (
            sym (apart (drop p b) (0 + q - p) (omega (arith, a)) (omega (arith, d)) overlaps)
            ∙ ap (starts_with s) moved
            ∙ at))
    | inr fine ↦ fine
  ]),
)

starts_with-append :
    (s b rest : Str) → length s ≤ length b → starts_with s (b ++ rest) ≡ starts_with s b
unfolding starts_with
starts_with-append [] b rest h = refl
starts_with-append (c ∷ s) [] rest h = ground arith
starts_with-append (c ∷ s) (d ∷ b) rest h = rw (starts_with-append s b rest (omega (arith, h))) refl

starts_with-drop :
    (s : Str) (p : ℕ) (b rest : Str)
    → p + length s ≤ length b
    → starts_with s (drop p (b ++ rest)) ≡ starts_with s (drop p b)
starts_with-drop s zero b rest h = starts_with-append s b rest (omega (arith, h))
starts_with-drop s (suc p) [] rest h = ground arith
starts_with-drop s (suc p) (c ∷ b) rest h = starts_with-drop s p b rest (omega (arith, h))

pub Clear-append :
    (s : Str) (k : ℕ) (b rest : Str) → k + length s ≤ length b → Clear s k b → Clear s k (b ++ rest)
unfolding Clear
Clear-append s k b rest h clear p a d =
    starts_with-drop s p b rest (omega (arith, h, a)) ∙ clear p a d

pub take-before : (k : ℕ) (b rest : Str) → k ≤ length b → take k (b ++ rest) ≡ take k b
take-before zero b rest h = refl
take-before (suc k) [] rest h = ground arith
take-before (suc k) (c ∷ b) rest h = ap (◌∷◌ c) (take-before k b rest (omega (arith, h)))

pub drop-before : (k : ℕ) (b rest : Str) → k ≤ length b → drop k (b ++ rest) ≡ drop k b ++ rest
drop-before zero b rest h = refl
drop-before (suc k) [] rest h = ground arith
drop-before (suc k) (c ∷ b) rest h = drop-before k b rest (omega (arith, h))
