-- ===== src/Masking/Surrogates/Tests.antt =====
-- The surrogates of texts of ASCII characters, with a hash that counts characters.
use frostglass.Prelude.{
  ℕ, ◌+◌, ◌≡◌, ◌≤◌, refl, none, some, [], ◌∷◌, map, Str, str, str_eq, ◌==◌, length, filter,
  if◌then◌else◌, ok, arith, true, str_beq,
}
use frostglass.Prelude.Strings.{replace, starts_with, decimal}
use frostglass.Prelude.Unicode.Ascii.{ascii, ascii-IsUnicode}
use frostglass.Detection.Structural.{luhn}
use frostglass.Masking.Surrogates.{card, phone, date_offset}
use frostglass.Masking.Surrogates.Card.{card-luhn}
use frostglass.Masking.Surrogates.Shape.{class_of, phone-shape}
use frostglass.Masking.Surrogates.Values.{Calendar, date}
use frostglass.Masking.Surrogates.Dates.{Reads, dashed, timed, written, date-distance}

abbrev count : Str → ℕ
count = length

abbrev card_text : Str
card_text = str "4242 4242-4242 4242"

abbrev phone_text : Str
phone_text = str "(555) 123-4567 x"

card_of_test : card count ascii card_text (str "s") ≡ ok (str "4111 1133-3333 3333")
unfolding card ascii str starts_with decimal
card_of_test = refl

card-luhn_example :
    (r : Str) × (card count ascii card_text (str "s") ≡ ok r)
    × (map (class_of ascii) r ≡ map (class_of ascii) card_text)
    × (luhn ascii r ≡ ok true)
unfolding filter ascii str
card-luhn_example =
    card-luhn count ascii ascii-IsUnicode card_text (str "s") (omega arith) (omega arith)

phone-shape_example :
    (r : Str) × (phone count ascii phone_text (str "s") ≡ ok r)
    × (map (class_of ascii) r ≡ map (class_of ascii) phone_text)
phone-shape_example = phone-shape count ascii ascii-IsUnicode phone_text (str "s")

-- A calendar that reads a date and a datetime
abbrev two_dates : Calendar
two_dates = record {
  strptime_date = λ s format. if s == str "2024-03-01" then some 738_946 else none;
  strftime = λ format day. day ∷ [];
  fromisoformat =
      λ s. if s == str "2024-02-01T10:00+00:00" then some (738_917, str "T10:00+00:00") else none;
  isoformat = λ d. d.0 ∷ d.1;
}

one_reads : Reads two_dates (str "2024-03-01") 738_946
unfolding str str_beq
one_reads = dashed refl

two_reads : Reads two_dates (str "2024-02-01T10:00Z") 738_917
unfolding str str_beq replace starts_with
two_reads = timed (str "T10:00+00:00") refl refl refl

date-distance_example :
    (moved1 moved2 : ℕ) × (date two_dates (date_offset count (str "session")) (str "2024-03-01")
      ≡ ok (written two_dates (str "2024-03-01") 738_946 one_reads moved1))
    × (date two_dates (date_offset count (str "session")) (str "2024-02-01T10:00Z")
        ≡ ok (written two_dates (str "2024-02-01T10:00Z") 738_917 two_reads moved2))
    × (moved1 + 738_917 ≡ moved2 + 738_946)
    × (moved1 ≤ 738_946 + 90)
    × (738_946 ≤ moved1 + 90)
date-distance_example =
    date-distance two_dates count (str "session") (str "2024-03-01") (str "2024-02-01T10:00Z")
      738_946 738_917 one_reads two_reads (omega arith) (omega arith) (omega arith) (omega arith)
