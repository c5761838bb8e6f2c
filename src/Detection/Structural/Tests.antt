-- ===== src/Detection/Structural/Tests.antt =====
-- The structural detector on a text with a card number and an address.
use mathlib.Core.List.{Memᴰ}
use frostglass.Prelude.{
  ◌↔◌, ◌≡◌, refl, true, none, List, [], ◌∷◌, Str, str, ok, All, filter, arith, false, str_beq,
}
use frostglass.Prelude.Strings.{replace, starts_with, decimal}
use frostglass.Prelude.Unicode.Ascii.{ascii, ascii-IsUnicode}
use frostglass.Detection.Models.{CandidateSpan}
use frostglass.Detection.Engine.{is_valid, slice}
use frostglass.Detection.Structural.{Recognizers, detect, luhn, valid_ssn, iban_valid}
use frostglass.Detection.Structural.Spans.{IsMatching}
use frostglass.Detection.Structural.Exact.{IsFound, detect-exact}

abbrev sample : Str
sample = str "4111111111111111 a@b.co"

abbrev matches : Recognizers
matches = record {
  card = λ text. (0, 16) ∷ [];
  iban = λ text. [];
  email = λ text. (17, 23) ∷ [];
  ssn = λ text. [];
  ip = λ text. [];
  mac = λ text. [];
  phone = λ text. (0, 16) ∷ [];
  money = λ text. [];
  is_ip_address = λ text. true;
  parse_phone = λ text. none;
}

luhn_test : luhn ascii (str "4111 1111 1111 1111") ≡ ok true
unfolding luhn ascii str
luhn_test = refl

iban_test : iban_valid ascii (str "GB82 WEST 1234 5698 7654 32") ≡ ok true
unfolding iban_valid ascii str replace starts_with decimal
iban_test = refl

ssn_test : valid_ssn (str "123-00-4567") ≡ false
unfolding valid_ssn str str_beq replace starts_with
ssn_test = refl

matches-IsMatching : IsMatching ascii matches sample
unfolding ascii str filter slice
matches-IsMatching = record {
  cards = ((omega arith, omega arith), tt);
  ibans = tt;
  emails = ((omega arith, omega arith), tt);
  ssns = tt;
  ips = tt;
  macs = tt;
  phones = ((omega arith, omega arith), tt);
  amounts = tt;
  card_digits = (
    (
      (4, refl),
      (
        (1, refl),
        (
          (1, refl),
          (
            (1, refl),
            (
              (1, refl),
              (
                (1, refl),
                (
                  (1, refl),
                  (
                    (1, refl),
                    (
                      (1, refl),
                      (
                        (1, refl),
                        (
                          (1, refl),
                          ((1, refl), ((1, refl), ((1, refl), ((1, refl), ((1, refl), tt))))),
                        ),
                      ),
                    ),
                  ),
                ),
              ),
            ),
          ),
        ),
      ),
    ),
    tt,
  );
  iban_chars = tt;
}

detect-exact_example :
    (spans : List CandidateSpan) × (detect ascii matches sample ≡ ok spans)
    × ((s : CandidateSpan) → Memᴰ s spans ↔ IsFound ascii matches sample s)
    × All (λ s. is_valid sample s ≡ true) spans
detect-exact_example = detect-exact ascii ascii-IsUnicode matches sample matches-IsMatching
