-- ===== src/Masking/Surrogates/Shape.antt =====
-- frostglass/masking/surrogates.py: which characters the replacements of a phone number, a card and an
-- identifier may change.
use frostglass.Prelude.{
  ℕ, zero, suc, ◌+◌, ◌-◌, ◌<◌, ◌≤◌, ◌≡◌, refl, ap, ap₂, true, false, [], ◌∷◌, map, Str, str,
  nat_beq, leb, ltb, ltb→lt, leb→le, ◌||◌, ◌/◌, length, All-drop, filter, All, All-append,
  if◌then◌else◌, arith, ok, all, ◌&&◌, and_left, and_right, Bool-cases, inl, inr, length-drop,
  length-append,
}
use frostglass.Prelude.Strings.{decimal, digits_from}
use frostglass.Prelude.Unicode.{Unicode, IsUnicode}
use frostglass.Masking.Surrogates.{
  fill_digits, indexed, identifier_from, identifier, stable_index, phone, phone_digits, zfill,
  padded, zeros, last_part,
}

-- What a surrogate keeps of a character: that it is a digit, that it is a letter, or all of it
pub data CharClass : Type 0 where
  a_digit : CharClass
  a_letter : CharClass
  other : ℕ → CharClass

abbrev pub IsDigits : Str → Type 0
IsDigits = All (λ c. (48 ≤ c) × (c < 58))

-- A literal of digits
pub IsDigits-of : (s : Str) → all (λ c. leb 48 c && ltb c 58) s ≡ true → IsDigits s
unfolding all
IsDigits-of [] h = tt
IsDigits-of (c ∷ s) h =
    let low : (leb 48 c && ltb c 58) ≡ true = and_left _ _ h in
    (
      (leb→le _ _ (and_left _ _ low), ltb→lt _ _ (and_right _ _ low)),
      IsDigits-of s (and_right _ _ h),
    )

IsDigits-digits_from : (fuel n : ℕ) → IsDigits (digits_from fuel n)
unfolding digits_from
IsDigits-digits_from zero n = tt
IsDigits-digits_from (suc fuel) n = elim (Bool-cases (ltb n 10)) [
  | inl e ↦ rw e ((omega arith, ltb→58 e), tt)
  | inr e ↦ rw e (
      All-append _ (digits_from fuel (n / 10)) _ (IsDigits-digits_from fuel (n / 10))
        ((omega arith, omega arith), tt))
]
  where
    ltb→58 : ltb n 10 ≡ true → 48 + n < 58
    ltb→58 e = let h : n < 10 = ltb→lt n 10 e in omega (arith, h)

pub IsDigits-decimal : (n : ℕ) → IsDigits (decimal n)
unfolding decimal
IsDigits-decimal n = IsDigits-digits_from (suc n) n

IsDigits-zeros : (n : ℕ) → IsDigits (zeros n)
unfolding zeros
IsDigits-zeros zero = tt
IsDigits-zeros (suc n) = ((omega arith, omega arith), IsDigits-zeros n)

length-zeros : (n : ℕ) → length (zeros n) ≡ n
unfolding zeros
length-zeros zero = refl
length-zeros (suc n) = ap suc (length-zeros n)

IsDigits-padded : (n : ℕ) (s : Str) → IsDigits s → IsDigits (padded n s)
unfolding padded
IsDigits-padded n [] h = IsDigits-zeros n
IsDigits-padded n (c ∷ s) h =
    let e : nat_beq c 43 ≡ false = ground (arith, h.0.0) in
    let f : nat_beq c 45 ≡ false = ground (arith, h.0.0) in
    rw (e, f) (All-append _ (zeros n) (c ∷ s) (IsDigits-zeros n) h)

length-padded : (n : ℕ) (s : Str) → length (padded n s) ≡ n + length s
unfolding padded
length-padded n [] = rw length-zeros (omega arith)
length-padded n (c ∷ s) = elim (Bool-cases (nat_beq c 43 || nat_beq c 45)) [
  | inl e ↦ rw (e, length-append, length-zeros) (omega arith)
  | inr e ↦ rw (e, length-append, length-zeros) refl
]

IsDigits-zfill : (s : Str) (width : ℕ) → IsDigits s → IsDigits (zfill s width)
unfolding zfill
IsDigits-zfill s width h = elim (Bool-cases (leb width (length s))) [
  | inl e ↦ rw e h
  | inr e ↦ rw e (IsDigits-padded _ s h)
]

length-zfill : (s : Str) (width : ℕ) → length s ≤ width → length (zfill s width) ≡ width
unfolding zfill
length-zfill s width h = elim (Bool-cases (leb width (length s))) [
  | inl e ↦ let k : width ≤ length s = leb→le _ _ e in rw e (omega (arith, h, k))
  | inr e ↦ rw (e, length-padded) (omega (arith, h))
]

module _ (u : Unicode) where
  abbrev pub class_of : ℕ → CharClass
  class_of c = if u.is_digit c then a_digit else if u.is_alpha c then a_letter else other c

module _ (u : Unicode) (laws : IsUnicode u) where
  pub digit-is_digit : (c : ℕ) → (48 ≤ c) × (c < 58) → u.is_digit c ≡ true
  digit-is_digit c h =
      let e : c ≡ 48 + (c - 48) = omega (arith, h.0) in
      rw e (laws.digit (c - 48) (omega (arith, h.0, h.1)))

  -- What `fill_digits` gives: the classes of the original, and the digits of the replacement
  pub record Filled (replacement original : Str) : Type 0 where
    pub text : Str
    pub fills : fill_digits u replacement original ≡ ok text
    pub shape : map (class_of u) text ≡ map (class_of u) original
    pub digits : filter u.is_digit text ≡ replacement

  pub filled :
      (replacement original : Str)
      → IsDigits replacement
      → length replacement ≡ length (filter u.is_digit original)
      → Filled replacement original
  unfolding fill_digits filter
  filled [] [] h e = record { text = []; fills = refl; shape = refl; digits = refl }
  filled (d ∷ replacement) [] h e = ground arith
  filled [] (c ∷ original) h e = elim (Bool-cases (u.is_digit c)) [
    | inl p ↦ ground arith
    | inr p ↦
        let r = filled [] original h (rw p at e) in
        record {
          text = c ∷ r.text;
          fills = rw (p, r.fills) refl;
          shape = rw (r.shape) refl;
          digits = rw (p, r.digits) refl;
        }
  ]
  filled (d ∷ replacement) (c ∷ original) h e = elim (Bool-cases (u.is_digit c)) [
    | inl p ↦
        let r = filled replacement original h.1 (ground arith) in
        record {
          text = d ∷ r.text;
          fills = rw (p, r.fills) refl;
          shape = rw (p, digit-is_digit d h.0, r.shape) refl;
          digits = rw (digit-is_digit d h.0, r.digits) refl;
        }
    | inr p ↦
        let r = filled (d ∷ replacement) original h (rw p at e) in
        record {
          text = c ∷ r.text;
          fills = rw (p, r.fills) refl;
          shape = rw (r.shape) refl;
          digits = rw (p, r.digits) refl;
        }
  ]

  digit-class : (c : ℕ) → (48 ≤ c) × (c < 58) → class_of u c ≡ a_digit
  digit-class c h = rw (digit-is_digit c h) refl

  letter-class : (c : ℕ) → (u.is_digit c ≡ false) × (u.is_alpha c ≡ true) → class_of u c ≡ a_letter
  letter-class c h = rw (h.0, h.1) refl

pub stable_index-lt :
    (first_word : Str → ℕ) (seed : Str) (n : ℕ) → stable_index first_word seed (suc n) < suc n
unfolding stable_index
stable_index-lt first_word seed n = omega arith

module _ (first_word : Str → ℕ) (u : Unicode) (laws : IsUnicode u) where
  -- The letters from `letter` on
  abbrev IsAlphabet : ℕ → Type 0
  IsAlphabet letter =
      (l : ℕ) → l < 26 → (u.is_digit (letter + l) ≡ false) × (u.is_alpha (letter + l) ≡ true)

  identifier_from-shape :
      (letter : ℕ) (seed : Str) (index : ℕ) (original : Str)
      → IsAlphabet letter
      → map (class_of u) (identifier_from first_word u letter seed index original)
        ≡ map (class_of u) original
  unfolding identifier_from
  identifier_from-shape letter seed index [] alphabet = refl
  identifier_from-shape letter seed index (c ∷ original) alphabet =
      ap₂ ◌∷◌ first (identifier_from-shape letter seed (index + 1) original alphabet)
    where
      first :
          class_of u (
            if u.is_digit c
            then 48 + stable_index first_word (indexed seed index) 10
            else if u.is_alpha c
            then letter + stable_index first_word (indexed seed index) 26
            else c)
          ≡ class_of u c
      first = elim (Bool-cases (u.is_digit c)) [
        | inl p ↦ rw p (
            digit-class u laws _
              (omega arith, omega (arith, stable_index-lt first_word (indexed seed index) 9)))
        | inr p ↦ elim (Bool-cases (u.is_alpha c)) [
          | inl q ↦
              rw (p, q)
                (letter-class u laws _
                  (alphabet _ (stable_index-lt first_word (indexed seed index) 25)))
          | inr q ↦ rw (p, q, p, q) refl
        ]
      ]

  pub identifier-shape :
      (original seed : Str)
      → map (class_of u) (identifier first_word u original seed) ≡ map (class_of u) original
  unfolding identifier
  identifier-shape original seed = elim (Bool-cases (u.is_upper original)) [
    | inl e ↦ rw e (identifier_from-shape 65 seed 0 original laws.capital)
    | inr e ↦ rw e (identifier_from-shape 97 seed 0 original laws.small)
  ]

  IsDigits-phone_digits : (seed : Str) → IsDigits (phone_digits first_word seed)
  unfolding phone_digits str all
  IsDigits-phone_digits seed =
      let n = 100 + stable_index first_word seed 900 in
      All-append _ (str "55501") _ (IsDigits-of (str "55501") refl)
        (IsDigits-zfill (decimal n) 3 (IsDigits-decimal n))

  -- The digits that `_phone` writes are as many as the original has.
  phone-Filled :
      (original seed : Str)
      → let n = length (filter u.is_digit original) in
        Filled u laws (zfill (last_part n (phone_digits first_word seed)) n) original
  unfolding last_part
  phone-Filled original seed =
      let n = length (filter u.is_digit original) in
      let few : length (last_part n (phone_digits first_word seed)) ≤ n =
        rw length-drop (omega arith) in
      filled u laws _ original (IsDigits-zfill _ n (All-drop _ _ _ (IsDigits-phone_digits seed)))
        (length-zfill _ n few)

  -- `_phone` returns, and what it returns has the shape of the original.
  pub phone-shape :
      (original seed : Str)
      → (r : Str) × (phone first_word u original seed ≡ ok r)
        × (map (class_of u) r ≡ map (class_of u) original)
  unfolding phone
  phone-shape original seed = elim (Bool-cases (ltb (length (filter u.is_digit original)) 7)) [
    | inl few ↦ (identifier first_word u original seed, rw few refl, identifier-shape original seed)
    | inr many ↦ let f = phone-Filled original seed in (f.text, rw many f.fills, f.shape)
  ]
