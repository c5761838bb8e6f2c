-- ===== src/Detection/Structural/Spans.antt =====
-- frostglass/detection/structural.py, `detect`: it returns, and the engine drops none of its spans.
use frostglass.Prelude.{
  ℕ, zero, suc, ◌-◌, ◌%◌, ◌/◌, ◌<◌, ◌≤◌, ◌≡◌, ◌⊎◌, refl, Bool, true, false, ◌&&◌, not, Option, none,
  some, List, [], ◌∷◌, ◌++◌, Str, str, length, take, drop, filter, all, All, All-append, All-take,
  All-drop, All-map, arith, ok, ◌>>=◌, ltb, leb, nat_beq, ltb→lt, Bool-cases, inl, inr, ◌||◌,
}
use frostglass.Prelude.Strings.{decimal, digits_from, replace}
use frostglass.Prelude.Unicode.{Unicode, IsUnicode}
use frostglass.Errors.{Py}
use frostglass.Detection.Models.{CandidateSpan}
use frostglass.Detection.Engine.{is_valid, slice}
use frostglass.Detection.Structural.{
  Match, Recognizers, detect, luhn, iban_valid, compact_valid, iban_digits, ints_of, int_of,
  or_value_error, tested, spans_of, phone_spans, phone_found, ssn_span, span_at, graded, card_span,
  iban_span, email_span, ip_span, mac_span, money_span, luhn_digits, value_of,
}

-- A call that returns
abbrev pub IsTotal : {A : Type 0} → Py A → Type 0
IsTotal {A} call = (a : A) × (call ≡ ok a)

IsTotal-bind :
    {A B : Type 0} (m : Py A) (f : A → Py B)
    → IsTotal m
    → ((a : A) → IsTotal (f a))
    → IsTotal (m >>= f)
IsTotal-bind m f (a, e) h = rw e (h a)

-- `match.start() < match.end() <= len(text)`
abbrev pub IsMatch : Str → Match → Type 0
IsMatch text m = (m.0 < m.1) × (m.1 ≤ length text)

-- A span that the engine keeps
abbrev pub IsKept : Str → CandidateSpan → Type 0
IsKept text s = is_valid text s ≡ true

module _ (u : Unicode) where
  -- A character that `int` reads
  abbrev pub IsReadable : ℕ → Type 0
  IsReadable c = (n : ℕ) × (u.digit_int c ≡ some n)

  -- A letter, or a character that `int` reads
  abbrev pub IsIbanChar : ℕ → Type 0
  IsIbanChar c = (u.is_alpha c ≡ true) ⊎ IsReadable c

  ints_of_total : (s : Str) → All IsReadable s → IsTotal (ints_of u s)
  unfolding ints_of int_of or_value_error
  ints_of_total [] h = ([], refl)
  ints_of_total (c ∷ s) ((n, e), h) =
      let (rest, r) = ints_of_total s h in (n ∷ rest, rw (e, r) refl)

  luhn_total : (value : Str) → All IsReadable (filter u.is_digit value) → IsTotal (luhn u value)
  unfolding luhn
  luhn_total value h =
      let (digits, e) = ints_of_total (filter u.is_digit value) h in (luhn_digits digits, rw e refl)

module _ (u : Unicode) (laws : IsUnicode u) where
  digits_from-IsReadable : (fuel n : ℕ) → All (IsReadable u) (digits_from fuel n)
  unfolding digits_from
  digits_from-IsReadable zero n = tt
  digits_from-IsReadable (suc fuel) n = elim (Bool-cases (ltb n 10)) [
    | inl e ↦ rw e ((n, laws.digit_value n (ltb→lt n 10 e)), tt)
    | inr e ↦ rw e (
        All-append _ (digits_from fuel (n / 10)) _ (digits_from-IsReadable fuel (n / 10))
          ((n % 10, laws.digit_value (n % 10) (omega arith)), tt))
  ]

  decimal-IsReadable : (n : ℕ) → All (IsReadable u) (decimal n)
  unfolding decimal
  decimal-IsReadable n = digits_from-IsReadable (suc n) n

  iban_digits-IsReadable : (s : Str) → All (IsIbanChar u) s → All (IsReadable u) (iban_digits u s)
  unfolding iban_digits
  iban_digits-IsReadable [] h = tt
  iban_digits-IsReadable (c ∷ s) h = elim (Bool-cases (u.is_alpha c)) [
    | inl a ↦ rw a (
        All-append _ (decimal (c - 55)) _ (decimal-IsReadable (c - 55))
          (iban_digits-IsReadable s h.1))
    | inr a ↦ rw a (elim h.0 [ inl b ↦ cc | inr r ↦ (r, iban_digits-IsReadable s h.1) ])
  ]

  compact_valid_total :
      (compact : Str) → All (IsIbanChar u) compact → IsTotal (compact_valid u compact)
  unfolding compact_valid
  compact_valid_total compact h =
      elim (Bool-cases (
        not (leb 15 (length compact) && leb (length compact) 34) || not (all u.is_alnum compact))) [
          | inl refused ↦ (false, rw refused refl)
          | inr accepted ↦
              let readable = iban_digits-IsReadable _ (
                All-append (IsIbanChar u) (drop 4 compact) (take 4 compact)
                  (All-drop (IsIbanChar u) 4 compact h) (All-take (IsIbanChar u) 4 compact h)) in
              let (digits, e) =
                ints_of_total u (iban_digits u (drop 4 compact ++ take 4 compact)) readable in
              (nat_beq (value_of 0 digits % 97) 1, rw (accepted, e) refl)
        ]

  iban_valid_total :
      (value : Str)
      → All (IsIbanChar u) (u.to_upper (replace value (str " ") []))
      → IsTotal (iban_valid u value)
  unfolding iban_valid
  iban_valid_total value h = compact_valid_total _ h

module _ (text : Str) where
  span_at-IsKept :
      (entity_type detector : Str) (confidence specificity : ℕ) (m : Match)
      → confidence ≤ 10000
      → IsMatch text m
      → IsKept text (span_at entity_type confidence detector specificity m)
  unfolding is_valid span_at
  span_at-IsKept entity_type detector confidence specificity m c h =
      let a = h.0 in let b = h.1 in ground (arith, c)

  spans_of-IsKept :
      (span : Match → CandidateSpan)
      → ((m : Match) → IsMatch text m → IsKept text (span m))
      → (ms : List Match) → All (IsMatch text) ms
      → All (IsKept text) (spans_of span ms)
  unfolding spans_of
  spans_of-IsKept span kept [] h = tt
  spans_of-IsKept span kept (m ∷ ms) h = (kept m h.0, spans_of-IsKept span kept ms h.1)

  -- A call that returns spans that the engine keeps
  abbrev pub GivesKept : Py (List CandidateSpan) → Type 0
  GivesKept call = (spans : List CandidateSpan) × (call ≡ ok spans) × All (IsKept text) spans

  tested-IsKept :
      (test : Str → Py Bool) (span : Match → CandidateSpan)
      → ((m : Match) → IsMatch text m → IsKept text (span m))
      → (ms : List Match) → All (IsMatch text) ms
      → All (λ m. IsTotal (test (slice text m.0 m.1))) ms
      → GivesKept (tested test text span ms)
  unfolding tested
  tested-IsKept test span kept [] h t = ([], refl, tt)
  tested-IsKept test span kept (m ∷ ms) h ((true, e), t) =
      let (rest, r, k) = tested-IsKept test span kept ms h.1 t in
      (span m ∷ rest, rw (e, r) refl, (kept m h.0, k))
  tested-IsKept test span kept (m ∷ ms) h ((false, e), t) =
      let (rest, r, k) = tested-IsKept test span kept ms h.1 t in (rest, rw (e, r) refl, k)

  graded-le : (valid : Bool) → graded valid ≤ 10000
  unfolding graded
  graded-le true = omega arith
  graded-le false = omega arith

  phone_found-IsKept :
      (found : Option (Bool × Bool)) (m : Match)
      → IsMatch text m
      → All (IsKept text) (phone_found found m)
  unfolding phone_found
  phone_found-IsKept none m h = tt
  phone_found-IsKept (some (valid, true)) m h =
      (span_at-IsKept _ _ (graded valid) 6 m (graded-le valid) h, tt)
  phone_found-IsKept (some (valid, false)) m h = tt

  phone_spans-IsKept :
      (parse : Str → Option (Bool × Bool)) (ms : List Match)
      → All (IsMatch text) ms
      → All (IsKept text) (phone_spans parse text ms)
  unfolding phone_spans
  phone_spans-IsKept parse [] h = tt
  phone_spans-IsKept parse (m ∷ ms) h =
      All-append _ (phone_found (parse (slice text m.0 m.1)) m) _ (phone_found-IsKept _ m h.0)
        (phone_spans-IsKept parse ms h.1)

  ssn_span-IsKept : (m : Match) → IsMatch text m → IsKept text (ssn_span text m)
  unfolding ssn_span
  ssn_span-IsKept m h = span_at-IsKept _ _ (graded _) 8 m (graded-le _) h

-- What the regular expressions promise: matches lie in the text and are not empty, a card's digits are
-- those that `int` reads, and so is each character of an IBAN that is not a letter.
pub record IsMatching (u : Unicode) (r : Recognizers) (text : Str) : Type 0 where
  pub cards : All (IsMatch text) (r.card text)
  pub ibans : All (IsMatch text) (r.iban text)
  pub emails : All (IsMatch text) (r.email text)
  pub ssns : All (IsMatch text) (r.ssn text)
  pub ips : All (IsMatch text) (r.ip text)
  pub macs : All (IsMatch text) (r.mac text)
  pub phones : All (IsMatch text) (r.phone text)
  pub amounts : All (IsMatch text) (r.money text)
  pub card_digits :
      All (λ m. All (IsReadable u) (filter u.is_digit (slice text m.0 m.1))) (r.card text)
  pub iban_chars :
      All
        (λ m. All (IsIbanChar u) (u.to_upper (replace (slice text m.0 m.1) (str " ") [])))
        (r.iban text)

-- The structural detector returns, and every span that it returns passes the engine's check: its
-- offsets are in the text, the first below the second, and its confidence is at most 1.
pub detect-IsKept :
    (u : Unicode) (laws : IsUnicode u) (r : Recognizers) (text : Str)
    → IsMatching u r text
    → (spans : List CandidateSpan) × (detect u r text ≡ ok spans)
      × All (λ s. is_valid text s ≡ true) spans
unfolding detect
detect-IsKept u laws r text h =
    let full : 9500 ≤ 10000 = omega arith in
    let part : 6000 ≤ 10000 = omega arith in
    let (cards, c, ck) =
      tested-IsKept text (luhn u) card_span (λ m i. span_at-IsKept text _ _ 9500 9 m full i)
        (r.card text) h.cards
        (All-map (λ m. luhn_total u (slice text m.0 m.1)) (r.card text) h.card_digits) in
    let (ibans, i, ik) =
      tested-IsKept text (iban_valid u) iban_span (λ m i. span_at-IsKept text _ _ 9500 8 m full i)
        (r.iban text) h.ibans
        (All-map (λ m. iban_valid_total u laws (slice text m.0 m.1)) (r.iban text) h.iban_chars) in
    let (ips, p, pk) =
      tested-IsKept text (λ address. ok (r.is_ip_address address)) ip_span
        (λ m i. span_at-IsKept text _ _ 9500 5 m full i) (r.ip text) h.ips
        (All-map (λ m _. (r.is_ip_address (slice text m.0 m.1), refl)) (r.ip text) h.ips) in
    let kept = All-append (IsKept text) in
    (
      _,
      rw (c, i, p) refl,
      kept _ _
          (kept _ _
            (kept _ _
              (kept _ _
                (kept _ _
                  (kept _ _ (kept cards ibans ck ik) (
                    spans_of-IsKept text email_span (λ m i. span_at-IsKept text _ _ 9500 7 m full i)
                      _ h.emails))
                  (spans_of-IsKept text (ssn_span text) (ssn_span-IsKept text) _ h.ssns))
                pk)
              (spans_of-IsKept text mac_span (λ m i. span_at-IsKept text _ _ 9500 5 m full i) _
                h.macs))
            (phone_spans-IsKept text r.parse_phone _ h.phones))
          (spans_of-IsKept text money_span (λ m i. span_at-IsKept text _ _ 6000 2 m part i) _
            h.amounts),
    )
