-- ===== src/Detection/Structural/Exact.antt =====
-- frostglass/detection/structural.py, `detect`: the spans are those of the matches that pass their test.
use mathlib.Core.List.{Memᴰ}
use frostglass.Prelude.{
  All, ℕ, ◌%◌, ◌≤◌, ◌≡◌, ◌⊎◌, ◌↔◌, inl, inr, refl, ap, subst, Bool, true, false, ◌&&◌, ◌||◌, not,
  List, [], ◌++◌, Str, str, str_eq, length, take, drop, filter, all, arith, ok, >>=-eq-ok, leb,
  nat_beq, if◌then◌else◌, Bool-cases, reversed,
}
use frostglass.Prelude.Strings.{replace}
use frostglass.Prelude.Unicode.{Unicode, IsUnicode}
use frostglass.Errors.{Py}
use frostglass.Detection.Models.{CandidateSpan}
use frostglass.Detection.Engine.{slice, is_valid}
use frostglass.Detection.Structural.Spans.{IsMatching, detect-IsKept}
use frostglass.Detection.Structural.{
  Recognizers, detect, luhn, iban_valid, compact_valid, iban_digits, ints_of, tested, spans_of,
  ssn_span, span_at, graded, card_span, iban_span, email_span, ip_span, mac_span, money_span,
  luhn_digits, luhn_sum, value_of, valid_ssn,
}
use frostglass.Detection.Structural.Made.{
  Exactly, IsMade, Passes, IsNumber, append-Exactly, ok-injective, not_both, spans_of-Exactly,
  tested-Exactly, phone_spans-Exactly,
}

module _ (u : Unicode) where
  -- Thirteen to nineteen digits whose Luhn sum is a multiple of ten
  abbrev pub IsCard : Str → Type 0
  IsCard value =
      (digits : List ℕ) × (ints_of u (filter u.is_digit value) ≡ ok digits)
      × (13 ≤ length digits)
      × (length digits ≤ 19)
      × (luhn_sum 0 (reversed digits) % 10 ≡ 0)

  luhn-IsCard : (value : Str) → (luhn u value ≡ ok true) ↔ IsCard value
  unfolding luhn luhn_digits
  luhn-IsCard value = (
    (λ h.
        let (digits, e, tested) = >>=-eq-ok (ints_of u (filter u.is_digit value)) _ h in
        let passed : luhn_digits digits ≡ true = ok-injective _ refl tested in
        (digits, e, ground (arith, passed), ground (arith, passed), ground (arith, passed))),
    λ (digits, e, least, most, sum). rw e (ap ok (passes digits least most sum)),
  )
    where
      passes :
          (digits : List ℕ)
          → 13 ≤ length digits
          → length digits ≤ 19
          → luhn_sum 0 (reversed digits) % 10 ≡ 0
          → luhn_digits digits ≡ true
      passes digits least most sum = ground arith

  -- Fifteen to thirty-four letters and digits whose number, the first four moved to the end, is 1
  -- modulo 97
  abbrev pub IsIban : Str → Type 0
  IsIban value =
      let compact = u.to_upper (replace value (str " ") []) in
      (15 ≤ length compact)
      × (length compact ≤ 34)
      × (all u.is_alnum compact ≡ true)
      × (digits : List ℕ) × (ints_of u (iban_digits u (drop 4 compact ++ take 4 compact))
          ≡ ok digits)
      × (value_of 0 digits % 97 ≡ 1)

  iban_valid-IsIban : (value : Str) → (iban_valid u value ≡ ok true) ↔ IsIban value
  unfolding iban_valid compact_valid
  iban_valid-IsIban value = (forth, back)
    where
      compact : Str
      compact = u.to_upper (replace value (str " ") [])

      refuses : Bool
      refuses =
          not (leb 15 (length compact) && leb (length compact) 34) || not (all u.is_alnum compact)

      forth : iban_valid u value ≡ ok true → IsIban value
      forth h = elim (Bool-cases refuses) [
        | inl refused ↦ absurd (not_both (iban_valid u value) (rw refused refl) h)
        | inr accepted ↦
            let (digits, e, tested) =
              >>=-eq-ok (ints_of u (iban_digits u (drop 4 compact ++ take 4 compact))) _
                (rw accepted at h) in
            let passed : nat_beq (value_of 0 digits % 97) 1 ≡ true = ok-injective _ refl tested in
            (
              ground (arith, accepted),
              ground (arith, accepted),
              ground (arith, accepted),
              digits,
              e,
              ground (arith, passed),
            )
      ]

      accepts :
          15 ≤ length compact
          → length compact ≤ 34
          → all u.is_alnum compact ≡ true
          → refuses ≡ false
      accepts least most letters = ground (arith, least, most, letters)

      is_one : (n : ℕ) → n ≡ 1 → nat_beq n 1 ≡ true
      is_one n e = ground arith

      back : IsIban value → iban_valid u value ≡ ok true
      back (least, most, letters, digits, e, one) =
          rw (accepts least most letters, e) (ap ok (is_one _ one))

module _ (u : Unicode) (r : Recognizers) (text : Str) where
  -- A span that the detector is to find: a card number, an IBAN, an address of e-mail, a social security
  -- number, graded by whether it is valid, an IP or MAC address, a possible phone number or an amount
  abbrev pub IsFound : CandidateSpan → Type 0
  IsFound s =
      ((((((IsMade (Passes text (IsCard u) card_span) (r.card text) s
                  ⊎ IsMade (Passes text (IsIban u) iban_span) (r.iban text) s)
                ⊎ IsMade (λ m s. s ≡ email_span m) (r.email text) s)
              ⊎ IsMade
                  (λ m s.
                    s
                    ≡ span_at (str "US_SSN") (if valid_ssn (slice text m.0 m.1) then 9500 else 6000)
                        (str "structural.ssn") 8 m)
                  (r.ssn text) s)
            ⊎ IsMade (Passes text (λ value. r.is_ip_address value ≡ true) ip_span) (r.ip text) s)
          ⊎ IsMade (λ m s. s ≡ mac_span m) (r.mac text) s)
        ⊎ IsMade (IsNumber text r.parse_phone) (r.phone text) s)
      ⊎ IsMade (λ m s. s ≡ money_span m) (r.money text) s

  -- Whenever the detector returns, its spans are those that it is to find.
  detect-IsFound :
      (spans : List CandidateSpan)
      → detect u r text ≡ ok spans
      → (s : CandidateSpan) → Memᴰ s spans ↔ IsFound s
  unfolding detect ssn_span graded
  detect-IsFound spans returned =
      let (cards, c, more) = >>=-eq-ok (tested (luhn u) text card_span (r.card text)) _ returned in
      let (ibans, i, most) =
        >>=-eq-ok (tested (iban_valid u) text iban_span (r.iban text)) _ more in
      let (ips, p, last) =
        >>=-eq-ok (tested (λ address. ok (r.is_ip_address address)) text ip_span (r.ip text)) _
          most in
      subst (Exactly IsFound) (ok-injective _ refl last) (
        append-Exactly _ _ _ _
          (append-Exactly _ _ _ _
            (append-Exactly _ _ _ _
              (append-Exactly _ _ _ _
                (append-Exactly _ _ _ _
                  (append-Exactly _ _ _ _
                    (append-Exactly _ _ cards ibans
                      (tested-Exactly text (luhn u) (IsCard u) (luhn-IsCard u) card_span
                        (r.card text) cards c)
                      (tested-Exactly text (iban_valid u) (IsIban u) (iban_valid-IsIban u) iban_span
                        (r.iban text) ibans i))
                    (spans_of-Exactly text email_span (r.email text)))
                  ssns)
                (tested-Exactly text is_ip (λ value. r.is_ip_address value ≡ true) says_ip ip_span
                  (r.ip text) ips p))
              (spans_of-Exactly text mac_span (r.mac text)))
            (phone_spans-Exactly text r.parse_phone (r.phone text)))
          (spans_of-Exactly text money_span (r.money text)))
    where
      is_ip : Str → Py Bool
      is_ip value = ok (r.is_ip_address value)

      says_ip : (value : Str) → (is_ip value ≡ ok true) ↔ (r.is_ip_address value ≡ true)
      says_ip value = (ok-injective _ refl, ap ok)

      ssns :
          Exactly
            (IsMade
              (λ m s.
                s
                ≡ span_at
                    (str "US_SSN")
                    (if valid_ssn (slice text m.0 m.1) then 9500 else 6000)
                    (str "structural.ssn")
                    8
                    m)
              (r.ssn text))
            (spans_of (ssn_span text) (r.ssn text))
      ssns = spans_of-Exactly text (ssn_span text) (r.ssn text)

-- Where the matches are in the text and the digits of cards and IBANs are those that `int` reads, the
-- structural detector returns; the engine keeps every span; and the spans are these and no others: a
-- match of the card pattern with 13 to 19 digits that pass the Luhn test; one of the IBAN pattern with 15
-- to 34 letters and digits that are 1 modulo 97; every match of the patterns for e-mail, MAC addresses
-- and amounts; every match of the pattern for social security numbers, with 0.95 if the number is valid
-- and 0.6 if not; a match that is an IP address; and one that is a possible phone number, with 0.95 if it
-- is valid and 0.6 if not.
pub detect-exact :
    (u : Unicode) (laws : IsUnicode u) (r : Recognizers) (text : Str)
    → IsMatching u r text
    → (spans : List CandidateSpan) × (detect u r text ≡ ok spans)
      × ((s : CandidateSpan) → Memᴰ s spans ↔ IsFound u r text s)
      × All (λ s. is_valid text s ≡ true) spans
detect-exact u laws r text h =
    let (spans, returned, kept) = detect-IsKept u laws r text h in
    (spans, returned, detect-IsFound u r text spans returned, kept)
