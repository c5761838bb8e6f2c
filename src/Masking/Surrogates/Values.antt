-- ===== src/Masking/Surrogates/Values.antt =====
-- frostglass/masking/surrogates.py: dates, numbers and the choice of a replacement. The packages
-- `datetime`, `decimal` and `re` are parameters. Arithmetic on `Decimal` that signals is not modelled.
use frostglass.Prelude.{
  ℕ, Bool, ◌&&◌, Option, none, some, List, [], ◌∷◌, ◌++◌, Str, str, str_eq, ◌==◌, length, take,
  contains, leb, if◌then◌else◌, ok, err, ◌>>=◌,
}
use frostglass.Prelude.Int.{ℤ, pos, negsuc, ◌-ℤ◌, ◌+ℤ◌, pos_part, neg_part}
use frostglass.Prelude.Strings.{replace}
use frostglass.Prelude.Unicode.{Unicode}
use frostglass.Errors.{Py, overflow_error}
use frostglass.Masking.Surrogates.{
  stable_index, date_offset, at_or, cities, person, email, phone, card, organization, identifier,
}

-- A date is its proleptic Gregorian ordinal; a datetime is that of its day and the rest of it, its
-- time and its zone. What does not parse is `ValueError`.
pub record Calendar : Type 0 where
  pub strptime_date : Str → Str → Option ℕ
  pub strftime : Str → ℕ → Str
  pub fromisoformat : Str → Option (ℕ × Str)
  pub isoformat : ℕ × Str → Str

-- `date.max.toordinal()`
abbrev pub max_ordinal : ℕ
max_ordinal = 3_652_059

-- A day in the range of `date`, or OverflowError
unfoldable pub in_calendar : ℤ → Py ℕ
in_calendar (negsuc n) = err overflow_error
in_calendar (pos n) = if leb 1 n && leb n max_ordinal then ok n else err overflow_error

-- `day + timedelta(days=shift)`
unfoldable pub shifted : ℕ → ℤ → Py ℕ
unfolding in_calendar
shifted day shift = in_calendar (pos day +ℤ shift)

module _ (c : Calendar) (shift : ℤ) where
  -- The last attempt of `_date`
  unfoldable pub shifted_datetime : Str → Option (ℕ × Str) → Py Str
  unfolding shifted
  shifted_datetime original none = ok original
  shifted_datetime original (some (day, rest)) = do
    moved ← shifted day shift
    ok (replace (c.isoformat (moved, rest)) (str "+00:00") (str "Z"))

  -- What one format gives, and what follows when it does not fit
  unfoldable pub with_format : Str → Option ℕ → Py Str → Py Str
  unfolding shifted
  with_format format none later = later
  with_format format (some day) later = do moved ← shifted day shift; ok (c.strftime format moved)

  -- The loop over the formats
  unfoldable pub shifted_date : Str → List Str → Py Str
  unfolding shifted_datetime with_format
  shifted_date original [] =
      shifted_datetime original (c.fromisoformat (replace original (str "Z") (str "+00:00")))
  shifted_date original (format ∷ formats) =
      with_format format (c.strptime_date original format) (shifted_date original formats)

  -- `_date`
  unfoldable pub date : Str → Py Str
  unfolding shifted_date
  date original = shifted_date original (str "%Y-%m-%d" ∷ str "%Y/%m/%d" ∷ [])

-- `Decimal`, and the regular expression of `_number`, which gives a prefix, a number and a suffix
pub record Decimals : Type 1 where
  pub Decimal : Type 0
  pub fullmatch : Str → Option (Str × Str × Str)
  pub parse : Str → Option Decimal
  pub is_finite : Decimal → Bool
  pub exponent : Decimal → Option ℤ
  pub of_int : ℤ → Decimal
  pub plus : Decimal → Decimal → Decimal
  pub minus : Decimal → Decimal → Decimal
  pub times : Decimal → Decimal → Decimal
  pub divide : Decimal → Decimal → Decimal
  pub negate : Decimal → Decimal
  pub power : Decimal → ℕ → Decimal
  pub scaleb : Decimal → ℤ → Decimal
  pub is_less : Decimal → Decimal → Bool
  pub is_zero : Decimal → Bool
  pub adjusted : Decimal → ℤ
  pub format_fixed : Decimal → ℕ → Str

module _ (d : Decimals) where
  -- `max(a, b)` and `min(a, b)`
  unfoldable pub max_of : d.Decimal → d.Decimal → d.Decimal
  max_of a b = if d.is_less a b then b else a

  unfoldable pub min_of : d.Decimal → d.Decimal → d.Decimal
  min_of a b = if d.is_less b a then b else a

  -- The bounds for a value that is not zero: those of its sign and its number of digits
  unfoldable pub lower_bound : d.Decimal → d.Decimal → d.Decimal
  lower_bound value bucket =
      if d.is_less (d.of_int (pos 0)) value
      then bucket
      else d.times (d.negate bucket) (d.of_int (pos 10))

  unfoldable pub upper_bound : d.Decimal → d.Decimal → d.Decimal
  upper_bound value bucket =
      if d.is_less (d.of_int (pos 0)) value
      then d.times bucket (d.of_int (pos 10))
      else d.negate bucket

  -- `min(max(replacement, lower + epsilon), upper - epsilon)`, for a value that is not zero
  unfoldable pub bounded : d.Decimal → ℕ → d.Decimal → d.Decimal
  unfolding max_of min_of lower_bound upper_bound
  bounded value precision replacement =
      if d.is_zero value
      then replacement
      else (let bucket = d.power (d.of_int (pos 10)) (pos_part (d.adjusted value)) in
          let epsilon = d.scaleb (d.of_int (pos 1)) (pos 0 -ℤ pos precision) in
          min_of (max_of replacement (d.plus (lower_bound value bucket) epsilon))
            (d.minus (upper_bound value bucket) epsilon))

  -- The replacement of a value, `index` being `_stable_index(seed, 19)`
  unfoldable pub varied : ℕ → d.Decimal → ℕ → d.Decimal
  unfolding bounded
  varied index value precision = bounded value precision (
      d.times value
        (d.plus (d.of_int (pos 1)) (d.divide (d.of_int (pos index -ℤ pos 9)) (d.of_int (pos 100)))))

  -- `_number`, from the value on
  unfoldable pub number_text : ℕ → Str → Str → Str → d.Decimal → Str
  unfolding varied
  number_text index original prefix suffix value =
      if d.is_finite value
      then elim (d.exponent value) [
        | none ↦ original
        | some exponent ↦
            prefix
            ++ d.format_fixed (varied index value (neg_part exponent)) (neg_part exponent)
            ++ suffix
      ]
      else original

  -- `_number`
  unfoldable pub number : (Str → ℕ) → Str → Str → Str
  unfolding stable_index number_text
  number first_word original seed = elim (d.fullmatch original) [
    | none ↦ original
    | some (prefix, digits, suffix) ↦ elim (d.parse (replace digits (str ",") [])) [
      | none ↦ original
      | some value ↦ number_text (stable_index first_word seed 19) original prefix suffix value
    ]
  ]

-- `SurrogateGenerator(session_id).generate`
unfoldable pub generate : (Str → ℕ) → Unicode → Calendar → Decimals → Str → Str → Str → Str → Py Str
unfolding person email phone card date number stable_index at_or organization identifier date_offset
generate first_word u c d session_id entity_type original value_hash =
    let seed = entity_type ++ str ":" ++ value_hash in
    if contains entity_type (str "PERSON" ∷ str "CUSTOMER_NAME" ∷ [])
    then ok (person first_word u original seed)
    else if entity_type == str "EMAIL_ADDRESS"
    then ok (email first_word u original seed)
    else if entity_type == str "PHONE_NUMBER"
    then phone first_word u original seed
    else if entity_type == str "CREDIT_CARD"
    then card first_word u original seed
    else if contains entity_type (str "DATE" ∷ str "DATE_TIME" ∷ [])
    then date c (date_offset first_word session_id) original
    else if contains entity_type (str "MONEY" ∷ str "NUMBER" ∷ [])
    then ok (number d first_word original seed)
    else if entity_type == str "LOCATION"
    then ok (at_or [] cities (stable_index first_word seed (length cities)))
    else if entity_type == str "ORGANIZATION"
    then ok (organization first_word original seed)
    else if contains entity_type (str "ACCOUNT" ∷ str "ID" ∷ [])
    then ok (identifier first_word u original seed)
    else ok (str "TOKEN-" ++ u.to_upper (take 10 value_hash))
