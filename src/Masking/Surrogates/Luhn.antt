-- ===== src/Masking/Surrogates/Luhn.antt =====
-- The check digit that frostglass/masking/surrogates.py computes is the one that the test of
-- frostglass/detection/structural.py accepts.
use frostglass.Prelude.{
  ℕ, suc, ◌+◌, ◌-◌, ◌%◌, ◌<◌, ◌≤◌, ◌≡◌, refl, ap, Bool, true, false, List, [], ◌∷◌, ◌++◌, map, Str,
  str, nat_beq, length, reversed, reversed-snoc, lt→ltb, length-append, length-map, if◌then◌else◌,
  arith, Bool-cases, inl, inr,
}
use frostglass.Prelude.Strings.{decimal, digits_from}
use frostglass.Detection.Structural.{luhn_sum, luhn_digits}
use frostglass.Masking.Surrogates.{luhn_total, luhn_check_digit, negated_mod_10, ascii_value}

-- The number that an index odd or not stands for
abbrev is_odd : ℕ → Bool
is_odd index = if nat_beq (index % 2) 0 then false else true

pub luhn_sum-eq-luhn_total :
    (index : ℕ) (digits : List ℕ) → luhn_sum index digits ≡ luhn_total (is_odd index) digits
unfolding luhn_sum luhn_total
luhn_sum-eq-luhn_total index [] = refl
luhn_sum-eq-luhn_total index (d ∷ ds) = elim (Bool-cases (nat_beq (index % 2) 0)) [
  | inl e ↦
      let o : is_odd (suc index) ≡ true = ground arith in
      rw (e, luhn_sum-eq-luhn_total (suc index) ds, o) refl
  | inr e ↦
      let o : is_odd (suc index) ≡ false = ground arith in
      rw (e, luhn_sum-eq-luhn_total (suc index) ds, o) refl
]

module _ {ℓ κ} {A : Type ℓ} {B : Type κ} (f : A → B) where
  map-append : (xs ys : List A) → map f (xs ++ ys) ≡ map f xs ++ map f ys
  map-append [] ys = refl
  map-append (x ∷ xs) ys = ap (◌∷◌ (f x)) (map-append xs ys)

-- The check digit of a prefix, as a number
abbrev pub check_of : Str → ℕ
check_of prefix = negated_mod_10 (luhn_total true (reversed (map ascii_value prefix)))

negated_mod_10-lt : (n : ℕ) → negated_mod_10 n < 10
unfolding negated_mod_10
negated_mod_10-lt n = omega arith

negated_mod_10_sum : (n : ℕ) → (negated_mod_10 n + n) % 10 ≡ 0
unfolding negated_mod_10
negated_mod_10_sum n = omega arith

pub decimal_digit : (n : ℕ) → n < 10 → decimal n ≡ (48 + n) ∷ []
unfolding decimal digits_from
decimal_digit n h = rw (lt→ltb n 10 h) refl

luhn_total-zero : (ds : List ℕ) → luhn_total false (0 ∷ ds) ≡ luhn_total true ds
unfolding luhn_total
luhn_total-zero ds = omega arith

pub luhn_check_digit-eq : (prefix : Str) → luhn_check_digit prefix ≡ (48 + check_of prefix) ∷ []
unfolding luhn_check_digit ascii_value str
luhn_check_digit-eq prefix =
    rw (map-append ascii_value prefix, reversed-snoc, luhn_total-zero)
      (decimal_digit _ (negated_mod_10-lt _))

luhn_digits-intro :
    (ds : List ℕ)
    → 13 ≤ length ds
    → length ds ≤ 19
    → luhn_sum 0 (reversed ds) % 10 ≡ 0
    → luhn_digits ds ≡ true
unfolding luhn_digits
luhn_digits-intro ds low high e = ground arith

luhn_total-first : (d : ℕ) (es : List ℕ) → luhn_total false (d ∷ es) ≡ d + luhn_total true es
unfolding luhn_total
luhn_total-first d es = refl

luhn_sum-check :
    (ds : List ℕ) (c : ℕ) → luhn_sum 0 (reversed (ds ++ c ∷ [])) ≡ c + luhn_total true (reversed ds)
luhn_sum-check ds c = rw (reversed-snoc, luhn_sum-eq-luhn_total) (luhn_total-first c (reversed ds))

-- The digits of a prefix and of its check digit
pub check-values :
    (prefix : Str)
    → map ascii_value (prefix ++ luhn_check_digit prefix)
      ≡ map ascii_value prefix ++ check_of prefix ∷ []
unfolding ascii_value
check-values prefix =
    let e : 48 + check_of prefix - 48 ≡ check_of prefix = omega arith in
    rw (luhn_check_digit-eq, map-append ascii_value prefix, e) refl

-- A prefix of 12 to 18 digits, followed by its check digit, passes the Luhn test.
pub luhn_digits-check :
    (prefix : Str)
    → 12 ≤ length prefix
    → length prefix ≤ 18
    → luhn_digits (map ascii_value (prefix ++ luhn_check_digit prefix)) ≡ true
luhn_digits-check prefix low high =
    let n : length (map ascii_value prefix ++ check_of prefix ∷ []) ≡ length prefix + 1 =
      rw (length-append, length-map) refl in
    let s = negated_mod_10_sum (luhn_total true (reversed (map ascii_value prefix))) in
    rw check-values
      (luhn_digits-intro _ (omega (arith, n)) (omega (arith, n)) (rw luhn_sum-check s))
