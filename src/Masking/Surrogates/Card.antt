-- ===== src/Masking/Surrogates/Card.antt =====
-- frostglass/masking/surrogates.py, `_card`: a replacement that frostglass/detection/structural.py takes
-- for a card number.
use frostglass.Prelude.{
  ℕ, zero, suc, ◌+◌, ◌-◌, ◌<◌, ◌≤◌, ◌≡◌, refl, true, [], ◌∷◌, ◌++◌, map, Str, str, length, filter,
  all, All-take, All-append, arith, ok, some, max, length-take, length-append, take_all, ◌∙◌, ap,
}
use frostglass.Prelude.Strings.{decimal}
use frostglass.Prelude.Unicode.{Unicode, IsUnicode}
use frostglass.Detection.Structural.{luhn, ints_of, int_of, or_value_error, luhn_digits}
use frostglass.Masking.Surrogates.{
  card, card_digits, card_body, card_prefix, card_prefixes, luhn_check_digit, ascii_value,
  stable_index, indexed,
}
use frostglass.Masking.Surrogates.Luhn.{luhn_digits-check, luhn_check_digit-eq, decimal_digit}
use frostglass.Masking.Surrogates.Shape.{
  IsDigits, IsDigits-of, IsDigits-decimal, class_of, Filled, filled, stable_index-lt,
}

abbrev IsPrefix : Str → Type 0
IsPrefix p = IsDigits p × (length p ≡ 6)

card_prefix-IsPrefix : (digits : Str) → IsPrefix (card_prefix card_prefixes digits)
unfolding card_prefix str all
card_prefix-IsPrefix digits = ground (arith, IsDigits-of (str "378282") refl)

IsDigits-luhn_check_digit : (prefix : Str) → IsDigits (luhn_check_digit prefix)
unfolding luhn_check_digit
IsDigits-luhn_check_digit prefix = IsDigits-decimal _

module _ (first_word : Str → ℕ) where
  length-card_body : (seed : Str) (index n : ℕ) → length (card_body first_word seed index n) ≡ n
  unfolding card_body
  length-card_body seed index zero = refl
  length-card_body seed index (suc n) =
      rw
        (decimal_digit (stable_index first_word (indexed seed index) 10)
          (stable_index-lt first_word (indexed seed index) 9))
        (ap suc (length-card_body seed (index + 1) n))

  IsDigits-card_body : (seed : Str) (index n : ℕ) → IsDigits (card_body first_word seed index n)
  unfolding card_body
  IsDigits-card_body seed index zero = tt
  IsDigits-card_body seed index (suc n) =
      All-append _ (decimal (stable_index first_word (indexed seed index) 10)) _
        (IsDigits-decimal (stable_index first_word (indexed seed index) 10))
        (IsDigits-card_body seed (index + 1) n)

  -- The digits before the check digit
  abbrev body_of : Str → Str → Str
  body_of digits seed =
      let prefix = card_prefix card_prefixes digits in
      prefix ++ card_body first_word seed 0 (max (length digits - length prefix - 1) 1)

  length-body_of :
      (digits seed : Str) → length (body_of digits seed) ≡ 6 + max (length digits - 7) 1
  length-body_of digits seed =
      let p = (card_prefix-IsPrefix digits).1 in
      rw (length-append, length-card_body, p) (omega arith)

  IsDigits-card_digits : (digits seed : Str) → IsDigits (card_digits first_word digits seed)
  unfolding card_digits
  IsDigits-card_digits digits seed =
      All-take _ (length digits) (body_of digits seed ++ luhn_check_digit (body_of digits seed)) (
        All-append _ (body_of digits seed) _
          (All-append _ (card_prefix card_prefixes digits) _ (card_prefix-IsPrefix digits).0
            (IsDigits-card_body seed 0 _))
          (IsDigits-luhn_check_digit (body_of digits seed)))

  length-card_digits :
      (digits seed : Str) → length (card_digits first_word digits seed) ≡ length digits
  unfolding card_digits
  length-card_digits digits seed =
      let n = length-body_of digits seed in
      rw (length-take, length-append, luhn_check_digit-eq) (omega (arith, n))

  -- A card number keeps its check digit.
  card_digits-whole :
      (digits seed : Str)
      → 8 ≤ length digits
      → card_digits first_word digits seed
        ≡ body_of digits seed ++ luhn_check_digit (body_of digits seed)
  unfolding card_digits
  card_digits-whole digits seed long =
      let n = length-body_of digits seed in
      take_all (length digits) (body_of digits seed ++ luhn_check_digit (body_of digits seed))
        (rw (length-append, luhn_check_digit-eq) (omega (arith, n, long)))

  card_digits-luhn :
      (digits seed : Str)
      → 13 ≤ length digits
      → length digits ≤ 19
      → luhn_digits (map ascii_value (card_digits first_word digits seed)) ≡ true
  card_digits-luhn digits seed low high =
      let n = length-body_of digits seed in
      rw (card_digits-whole digits seed (omega (arith, low))) (
        luhn_digits-check (body_of digits seed) (omega (arith, n, low))
          (omega (arith, n, low, high)))

module _ (u : Unicode) (laws : IsUnicode u) where
  digit_int-ascii : (c : ℕ) → (48 ≤ c) × (c < 58) → u.digit_int c ≡ some (ascii_value c)
  unfolding ascii_value
  digit_int-ascii c h =
      let e : c ≡ 48 + (c - 48) = omega (arith, h.0) in
      ap u.digit_int e ∙ laws.digit_value (c - 48) (omega (arith, h.0, h.1))

  ints_of-digits : (s : Str) → IsDigits s → ints_of u s ≡ ok (map ascii_value s)
  unfolding ints_of int_of or_value_error
  ints_of-digits [] h = refl
  ints_of-digits (c ∷ s) h = rw (digit_int-ascii c h.0, ints_of-digits s h.1) refl

module _ (first_word : Str → ℕ) (u : Unicode) (laws : IsUnicode u) where
  card-Filled :
      (original seed : Str)
      → Filled u laws (card_digits first_word (filter u.is_digit original) seed) original
  card-Filled original seed =
      filled u laws _ original (IsDigits-card_digits first_word _ seed)
        (length-card_digits first_word _ seed)

  -- For an original of 13 to 19 digits, `_card` returns a text of the same shape: the same length, a
  -- digit where the original has one, a letter where it has one, and every other character as it was.
  -- The text passes the Luhn test of the structural detector.
  pub card-luhn :
      (original seed : Str)
      → 13 ≤ length (filter u.is_digit original)
      → length (filter u.is_digit original) ≤ 19
      → (r : Str) × (card first_word u original seed ≡ ok r)
        × (map (class_of u) r ≡ map (class_of u) original)
        × (luhn u r ≡ ok true)
  unfolding card luhn
  card-luhn original seed low high =
      let f = card-Filled original seed in
      (
        f.text,
        f.fills,
        f.shape,
        rw
            (
              f.digits,
              ints_of-digits u laws _ (IsDigits-card_digits first_word _ seed),
              card_digits-luhn first_word _ seed low high,
            )
            refl,
      )
