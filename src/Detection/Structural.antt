-- ===== src/Detection/Structural.antt =====
-- frostglass/detection/structural.py. The matches of its regular expressions, the packages `ipaddress`
-- and `phonenumbers`, and the Unicode methods of `str` are parameters.
pub mod Spans
pub mod Made
pub mod Exact
mod Tests
use frostglass.Prelude.{
  ℕ, suc, ◌+◌, ◌-◌, ◌*◌, ◌%◌, Bool, true, false, ◌&&◌, ◌||◌, not, Option, none, some, List, [], ◌∷◌,
  ◌++◌, Str, str, str_eq, ◌==◌, nat_beq, ltb, leb, length, take, drop, filter, all, if◌then◌else◌,
  ok, err, ◌>>=◌, reversed,
}
use frostglass.Prelude.Int.{ℤ, pos}
use frostglass.Prelude.Strings.{replace, starts_with, decimal}
use frostglass.Prelude.Unicode.{Unicode}
use frostglass.Errors.{Py, value_error}
use frostglass.Detection.Models.{CandidateSpan}
use frostglass.Detection.Engine.{slice}

-- The loop of `_luhn` over the digits from the right
unfoldable pub luhn_sum : ℕ → List ℕ → ℕ
luhn_sum index [] = 0
luhn_sum index (digit ∷ digits) =
    (if nat_beq (index % 2) 0
      then digit
      else if ltb 9 (digit * 2)
      then digit * 2 - 9
      else digit * 2)
    + luhn_sum (suc index) digits

-- `digits[:3] not in {"000", "666"} and not digits.startswith("9") and digits[3:5] != "00"`
unfoldable pub ssn_digits_valid : Str → Bool
ssn_digits_valid digits =
    not (take 3 digits == str "000" || take 3 digits == str "666")
    && not (starts_with (str "9") digits)
    && not (take 2 (drop 3 digits) == str "00")

-- `_valid_ssn`
unfoldable pub valid_ssn : Str → Bool
unfolding ssn_digits_valid
valid_ssn value = ssn_digits_valid (replace value (str "-") [])

unfoldable pub or_value_error : Option ℕ → Py ℕ
or_value_error none = err (value_error (str "invalid literal for int() with base 10"))
or_value_error (some value) = ok value

-- The tests of `_luhn` on its digits
unfoldable pub luhn_digits : List ℕ → Bool
unfolding luhn_sum reversed
luhn_digits digits =
    if leb 13 (length digits) && leb (length digits) 19
    then nat_beq (luhn_sum 0 (reversed digits) % 10) 0
    else false

-- The value that decimal digits write
unfoldable pub value_of : ℕ → List ℕ → ℕ
value_of high [] = high
value_of high (digit ∷ digits) = value_of (high * 10 + digit) digits

module _ (u : Unicode) where
  -- `int(character)`
  unfoldable pub int_of : ℕ → Py ℕ
  unfolding or_value_error
  int_of character = or_value_error (u.digit_int character)

  -- `[int(char) for char in ...]`
  unfoldable pub ints_of : Str → Py (List ℕ)
  unfolding int_of
  ints_of [] = ok []
  ints_of (character ∷ text) = do value ← int_of character; rest ← ints_of text; ok (value ∷ rest)

  -- `_luhn`
  unfoldable pub luhn : Str → Py Bool
  unfolding ints_of luhn_digits filter
  luhn value = ints_of (filter u.is_digit value) >>= λ digits. ok (luhn_digits digits)

  -- `"".join(str(ord(char) - 55) if char.isalpha() else char for char in rearranged)`; a letter is
  -- not below 65.
  unfoldable pub iban_digits : Str → Str
  iban_digits [] = []
  iban_digits (char ∷ rest) =
      (if u.is_alpha char then decimal (char - 55) else char ∷ []) ++ iban_digits rest

  -- The tests of `_iban_valid` on the compact text
  unfoldable pub compact_valid : Str → Py Bool
  unfolding ints_of iban_digits value_of all
  compact_valid compact =
      if not (leb 15 (length compact) && leb (length compact) 34) || not (all u.is_alnum compact)
      then ok false
      else (ints_of (iban_digits (drop 4 compact ++ take 4 compact)) >>= λ digits.
          ok (nat_beq (value_of 0 digits % 97) 1))

  -- `_iban_valid`
  unfoldable pub iban_valid : Str → Py Bool
  unfolding compact_valid
  iban_valid value = compact_valid (u.to_upper (replace value (str " ") []))

-- `match.start()` and `match.end()`
abbrev pub Match : Type 0
Match = ℕ × ℕ

-- The regular expressions, as their `finditer`, and the two packages. `parse_phone` gives, for a
-- number that `phonenumbers.parse` reads, `is_valid_number` and `is_possible_number`.
pub record Recognizers : Type 0 where
  pub card : Str → List Match
  pub iban : Str → List Match
  pub email : Str → List Match
  pub ssn : Str → List Match
  pub ip : Str → List Match
  pub mac : Str → List Match
  pub phone : Str → List Match
  pub money : Str → List Match
  pub is_ip_address : Str → Bool
  pub parse_phone : Str → Option (Bool × Bool)

-- A span over a match, its confidence in steps of 1/10000
unfoldable pub span_at : Str → ℕ → Str → ℕ → Match → CandidateSpan
span_at entity_type confidence detector specificity m = record {
  entity_type = entity_type;
  start = pos m.0;
  end = pos m.1;
  confidence = pos confidence;
  detector = detector;
  specificity = specificity;
}

abbrev pub card_span : Match → CandidateSpan
card_span = span_at (str "CREDIT_CARD") 9500 (str "structural.luhn") 9

abbrev pub iban_span : Match → CandidateSpan
iban_span = span_at (str "IBAN") 9500 (str "structural.iban") 8

abbrev pub email_span : Match → CandidateSpan
email_span = span_at (str "EMAIL_ADDRESS") 9500 (str "structural.email") 7

abbrev pub ip_span : Match → CandidateSpan
ip_span = span_at (str "IP_ADDRESS") 9500 (str "structural.ip") 5

abbrev pub mac_span : Match → CandidateSpan
mac_span = span_at (str "MAC_ADDRESS") 9500 (str "structural.mac") 5

abbrev pub money_span : Match → CandidateSpan
money_span = span_at (str "MONEY") 6000 (str "structural.money") 2

-- A span for each match that a test accepts
unfoldable pub tested :
    (Str → Py Bool) → Str → (Match → CandidateSpan) → List Match → Py (List CandidateSpan)
unfolding slice
tested test text span [] = ok []
tested test text span (m ∷ ms) = do
  valid ← test (slice text m.0 m.1)
  rest ← tested test text span ms
  ok (if valid then span m ∷ rest else rest)

-- A span for each match
unfoldable pub spans_of : (Match → CandidateSpan) → List Match → List CandidateSpan
spans_of span [] = []
spans_of span (m ∷ ms) = span m ∷ spans_of span ms

-- The confidence that a test decides: 0.95, or 0.6
unfoldable pub graded : Bool → ℕ
graded valid = if valid then 9500 else 6000

unfoldable pub ssn_span : Str → Match → CandidateSpan
unfolding valid_ssn graded span_at slice
ssn_span text m =
    span_at (str "US_SSN") (graded (valid_ssn (slice text m.0 m.1))) (str "structural.ssn") 8 m

-- The span for a number, if it is possible
unfoldable pub phone_found : Option (Bool × Bool) → Match → List CandidateSpan
unfolding graded span_at
phone_found none m = []
phone_found (some (valid, possible)) m =
    if possible
    then span_at (str "PHONE_NUMBER") (graded valid) (str "structural.phone") 6 m ∷ []
    else []

-- The loop over the matches of `_PHONE`
unfoldable pub phone_spans : (Str → Option (Bool × Bool)) → Str → List Match → List CandidateSpan
unfolding phone_found slice
phone_spans parse text [] = []
phone_spans parse text (m ∷ ms) =
    phone_found (parse (slice text m.0 m.1)) m ++ phone_spans parse text ms

-- `StructuralDetector.detect`
module _ (u : Unicode) (r : Recognizers) where
  unfoldable pub detect : Str → Py (List CandidateSpan)
  unfolding luhn iban_valid tested span_at spans_of ssn_span phone_spans
  detect text = do
    cards ← tested (luhn u) text card_span (r.card text)
    ibans ← tested (iban_valid u) text iban_span (r.iban text)
    ips ← tested (λ address. ok (r.is_ip_address address)) text ip_span (r.ip text)
    ok (
        cards
        ++ ibans
        ++ spans_of email_span (r.email text)
        ++ spans_of (ssn_span text) (r.ssn text)
        ++ ips
        ++ spans_of mac_span (r.mac text)
        ++ phone_spans r.parse_phone text (r.phone text)
        ++ spans_of money_span (r.money text))
