-- ===== src/Masking/Surrogates.antt =====
-- frostglass/masking/surrogates.py: the replacements that keep the shape of a value. SHA-256 and the
-- Unicode methods of `str` are parameters.
pub mod Card
pub mod Dates
pub mod Luhn
pub mod Shape
mod Tests
pub mod Values
use frostglass.Prelude.{
  ℕ, zero, suc, ◌+◌, ◌-◌, ◌*◌, ◌%◌, Bool, true, false, ◌&&◌, ◌||◌, Option, none, some, List, [],
  ◌∷◌, ◌++◌, map, Str, str, str_eq, ◌==◌, nat_beq, ltb, leb, length, take, drop, filter, any,
  if◌then◌else◌, ok, err, ◌>>=◌, max, reversed,
}
use frostglass.Prelude.Int.{ℤ, ◌-ℤ◌, pos}
use frostglass.Prelude.Unicode.{Unicode}
use frostglass.Prelude.Strings.{starts_with, decimal}
use frostglass.Errors.{Py, runtime_error}

abbrev pub name_pairs : List (Str × Str)
name_pairs =
    (str "Marcus", str "Feld") ∷ (str "Sofia", str "Ivanova") ∷ (str "Priya", str "Patel") ∷ []

abbrev pub cities : List Str
cities = str "Denver" ∷ str "Madison" ∷ str "Portland" ∷ []

abbrev pub companies : List Str
companies = str "Northstar" ∷ str "Bluehaven" ∷ str "Cedarpoint" ∷ []

abbrev pub visa_test_prefix : Str
visa_test_prefix = str "411111"

abbrev pub card_prefixes : List (Str × Str)
card_prefixes = (str "3", str "378282") ∷ (str "4", visa_test_prefix) ∷ (str "5", str "555555") ∷ []

-- `xs[i]`, with a value for an index out of range
unfoldable pub at_or {ℓ} : {A : Type ℓ} → A → List A → ℕ → A
at_or d [] i = d
at_or d (x ∷ xs) zero = x
at_or d (x ∷ xs) (suc i) = at_or d xs i

-- `int(character)`, of an ASCII digit
unfoldable pub ascii_value : ℕ → ℕ
ascii_value character = character - 48

-- The loop of the Luhn sum over the digits from the right; `odd` is `index % 2 == 1`.
unfoldable pub luhn_total : Bool → List ℕ → ℕ
luhn_total odd [] = 0
luhn_total false (digit ∷ digits) = digit + luhn_total true digits
luhn_total true (digit ∷ digits) =
    (if ltb 9 (digit * 2) then digit * 2 - 9 else digit * 2) + luhn_total false digits

-- `(-total) % 10`
unfoldable pub negated_mod_10 : ℕ → ℕ
negated_mod_10 total = (10 - total % 10) % 10

-- `_luhn_check_digit`
unfoldable pub luhn_check_digit : Str → Str
unfolding luhn_total reversed ascii_value negated_mod_10
luhn_check_digit prefix =
    decimal (negated_mod_10 (luhn_total false (reversed (map ascii_value (prefix ++ str "0")))))

-- `s.zfill(width)`
unfoldable pub zeros : ℕ → Str
zeros zero = []
zeros (suc n) = 48 ∷ zeros n

unfoldable pub padded : ℕ → Str → Str
unfolding zeros
padded n [] = zeros n
padded n (c ∷ s) = if nat_beq c 43 || nat_beq c 45 then c ∷ (zeros n ++ s) else zeros n ++ c ∷ s

unfoldable pub zfill : Str → ℕ → Str
unfolding padded
zfill s width = if leb width (length s) then s else padded (width - length s) s

-- `s[-n:]`, for `n` that is not zero
unfoldable pub last_part {ℓ} : {A : Type ℓ} → ℕ → List A → List A
last_part n s = drop (length s - n) s

module _ (u : Unicode) where
  -- `next(iterator) if character.isdigit() else character`, joined; an iterator that has ended makes
  -- the generator raise.
  unfoldable pub fill_digits : Str → Str → Py Str
  fill_digits replacement [] = ok []
  fill_digits [] (character ∷ original) =
      if u.is_digit character
      then err (runtime_error (str "generator raised StopIteration"))
      else (fill_digits [] original >>= λ rest. ok (character ∷ rest))
  fill_digits (digit ∷ replacement) (character ∷ original) =
      if u.is_digit character
      then (fill_digits replacement original >>= λ rest. ok (digit ∷ rest))
      else (fill_digits (digit ∷ replacement) original >>= λ rest. ok (character ∷ rest))

  -- `_apply_case`
  unfoldable pub apply_case : Str → Str → Str
  apply_case value template =
      if u.is_upper template
      then u.to_upper value
      else if u.is_lower template
      then u.to_lower value
      else value

-- `text.partition("@")[0]`, with the separator as an argument
unfoldable pub before_separator : ℕ → Str → Str
before_separator separator [] = []
before_separator separator (c ∷ s) =
    let rest = before_separator separator s in if nat_beq c separator then [] else c ∷ rest

-- `text.endswith(suffix)`
unfoldable pub ends_with : Str → Str → Bool
ends_with suffix s = leb (length suffix) (length s) && (drop (length s - length suffix) s == suffix)

-- `next((item for item in suffixes if original.endswith(item)), "")`
unfoldable pub first_suffix : List Str → Str → Str
unfolding ends_with
first_suffix [] original = []
first_suffix (item ∷ items) original =
    if ends_with item original then item else first_suffix items original

-- `next((p for marker, p in _CARD_PREFIXES if digits.startswith(marker)), _VISA_TEST_PREFIX)`
unfoldable pub card_prefix : List (Str × Str) → Str → Str
card_prefix [] digits = visa_test_prefix
card_prefix ((marker, test_prefix) ∷ rest) digits =
    if starts_with marker digits then test_prefix else card_prefix rest digits

-- `f"{name} {suffix}".strip()`: a company's name has no spaces at its ends, and no suffix has.
unfoldable pub joined_suffix : Str → Str → Str
joined_suffix name [] = name
joined_suffix name (c ∷ suffix) = name ++ str " " ++ c ∷ suffix

-- `f"{seed}:{index}"`
unfoldable pub indexed : Str → ℕ → Str
indexed seed index = seed ++ str ":" ++ decimal index

module _ (first_word : Str → ℕ) where
  -- `_stable_index`: `first_word` is the number that the first four bytes of SHA-256 write
  unfoldable pub stable_index : Str → ℕ → ℕ
  stable_index seed zero = 0
  stable_index seed (suc size) = first_word seed % suc size

  -- `_date_offset`
  unfoldable pub date_offset : Str → ℤ
  unfolding stable_index
  date_offset session_id = pos (stable_index (str "date:" ++ session_id) 181) -ℤ pos 90

  -- `_organization`
  unfoldable pub organization : Str → Str → Str
  unfolding stable_index at_or first_suffix joined_suffix
  organization original seed =
      joined_suffix (at_or [] companies (stable_index seed (length companies)))
        (first_suffix (str "Ltd" ∷ str "Inc" ∷ str "LLC" ∷ str "Corp" ∷ []) original)

  -- The three digits after 55501
  unfoldable pub phone_digits : Str → Str
  unfolding stable_index zfill
  phone_digits seed = str "55501" ++ zfill (decimal (100 + stable_index seed 900)) 3

  -- The digits `_stable_index(f"{seed}:{index}", 10)`, from `index` on
  unfoldable pub card_body : Str → ℕ → ℕ → Str
  unfolding stable_index indexed
  card_body seed index zero = []
  card_body seed index (suc n) =
      decimal (stable_index (indexed seed index) 10) ++ card_body seed (index + 1) n

  -- The replacement for the digits of a card, cut to their number
  unfoldable pub card_digits : Str → Str → Str
  unfolding card_prefix card_body luhn_check_digit
  card_digits digits seed =
      let prefix = card_prefix card_prefixes digits in
      let replacement = prefix ++ card_body seed 0 (max (length digits - length prefix - 1) 1) in
      take (length digits) (replacement ++ luhn_check_digit replacement)

module _ (first_word : Str → ℕ) (u : Unicode) where
  -- `_person`
  unfoldable pub person : Str → Str → Str
  unfolding stable_index at_or apply_case
  person original seed =
      let pair = at_or ([], []) name_pairs (stable_index first_word seed (length name_pairs)) in
      apply_case u
        (if nat_beq (length (u.split original)) 1 then pair.0 else pair.0 ++ str " " ++ pair.1)
        original

  -- `_email`
  unfoldable pub email : Str → Str → Str
  unfolding stable_index at_or before_separator any
  email original seed =
      let pair = at_or ([], []) name_pairs (stable_index first_word seed (length name_pairs)) in
      u.to_lower (
        if any (λ c. nat_beq c 46) (before_separator 64 original)
        then pair.0 ++ str "." ++ pair.1
        else pair.0)
      ++ str "@example-corp.com"

  -- The loop of `_identifier`; the letters of the alphabet follow `letter`
  unfoldable pub identifier_from : ℕ → Str → ℕ → Str → Str
  unfolding stable_index indexed
  identifier_from letter seed index [] = []
  identifier_from letter seed index (character ∷ original) =
      (if u.is_digit character
        then 48 + stable_index first_word (indexed seed index) 10
        else if u.is_alpha character
        then letter + stable_index first_word (indexed seed index) 26
        else character)
      ∷ identifier_from letter seed (index + 1) original

  -- `_identifier`
  unfoldable pub identifier : Str → Str → Str
  unfolding identifier_from
  identifier original seed =
      identifier_from (if u.is_upper original then 65 else 97) seed 0 original

  -- `_phone`
  unfoldable pub phone : Str → Str → Py Str
  unfolding identifier fill_digits phone_digits zfill last_part filter
  phone original seed =
      let n = length (filter u.is_digit original) in
      if ltb n 7
      then ok (identifier original seed)
      else fill_digits u (zfill (last_part n (phone_digits first_word seed)) n) original

  -- `_card`
  unfoldable pub card : Str → Str → Py Str
  unfolding card_digits fill_digits filter
  card original seed =
      fill_digits u (card_digits first_word (filter u.is_digit original) seed) original
