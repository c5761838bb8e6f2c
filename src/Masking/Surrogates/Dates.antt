-- ===== src/Masking/Surrogates/Dates.antt =====
-- frostglass/masking/surrogates.py, `_date`: how far a date moves.
use frostglass.Prelude.{
  ℕ, ◌+◌, ◌-◌, ◌≡◌, ◌≤◌, ◌<◌, refl, Str, str, ok, some, none, arith, leb, ◌++◌, leb→le, leb→lt, ap,
  ◌∙◌, Bool-cases, inl, inr, true, le→leb,
}
use frostglass.Prelude.Int.{pos, sub_ℕ, ◌-ℤ◌, ◌+ℤ◌}
use frostglass.Prelude.Strings.{replace}
use frostglass.Masking.Surrogates.{stable_index, date_offset}
use frostglass.Masking.Surrogates.Shape.{stable_index-lt}
use frostglass.Masking.Surrogates.Values.{
  Calendar, max_ordinal, date, shifted_date, with_format, shifted, shifted_datetime, in_calendar,
}

-- A number that is at least the one that it is reduced by
sub_ℕ-pos : (a b : ℕ) → b ≤ a → sub_ℕ a b ≡ pos (a - b)
sub_ℕ-pos a b h = rw (le→leb b a h) refl

plus_offset : (day k : ℕ) → 90 < day → pos day +ℤ (pos k -ℤ pos 90) ≡ pos (day + k - 90)
unfolding ◌-ℤ◌ ◌+ℤ◌
plus_offset day k low = elim (Bool-cases (leb (0 + 90) (k + 0))) [
  | inl e ↦
      let h = leb→le _ _ e in
      let p : day + (k + 0 - 90) - (0 + 0) ≡ day + k - 90 = omega (arith, h) in
      rw e (sub_ℕ-pos (day + (k + 0 - 90)) (0 + 0) (omega arith) ∙ ap pos p)
  | inr e ↦
      let h = leb→lt _ _ e in
      let p : day + 0 - (0 + (0 + 90 - (k + 0) - 1 + 1)) ≡ day + k - 90 = omega (arith, h, low) in
      rw e (sub_ℕ-pos (day + 0) (0 + (0 + 90 - (k + 0) - 1 + 1)) (omega (arith, low, h)) ∙ ap pos p)
]

-- A day that is at least 91 days from both ends of the calendar moves by the offset of the session.
shifted-offset :
    (first_word : Str → ℕ) (session_id : Str) (day : ℕ)
    → 90 < day
    → day + 90 ≤ max_ordinal
    → shifted day (date_offset first_word session_id)
      ≡ ok (day + stable_index first_word (str "date:" ++ session_id) 181 - 90)
unfolding shifted in_calendar date_offset
shifted-offset first_word session_id day low high =
    let k = stable_index first_word (str "date:" ++ session_id) 181 in
    let small : k < 181 = stable_index-lt first_word (str "date:" ++ session_id) 180 in
    let first : leb 1 (day + k - 90) ≡ true = le→leb _ _ (omega (arith, low)) in
    let last : leb (day + k - 90) max_ordinal ≡ true = le→leb _ _ (omega (arith, high, small)) in
    rw (plus_offset day k low, first, last) refl

-- The offset of a session, counted from -90
abbrev offset_of : (Str → ℕ) → Str → ℕ
offset_of first_word session_id = stable_index first_word (str "date:" ++ session_id) 181

-- How `_date` reads a text as a date of a day: by the first format that fits, or as an ISO datetime
pub data Reads (c : Calendar) (text : Str) (day : ℕ) : Type 0 where
  dashed : c.strptime_date text (str "%Y-%m-%d") ≡ some day → Reads c text day
  slashed :
      c.strptime_date text (str "%Y-%m-%d") ≡ none
      → c.strptime_date text (str "%Y/%m/%d") ≡ some day
      → Reads c text day
  timed :
      (rest : Str)
      → c.strptime_date text (str "%Y-%m-%d") ≡ none
      → c.strptime_date text (str "%Y/%m/%d") ≡ none
      → c.fromisoformat (replace text (str "Z") (str "+00:00")) ≡ some (day, rest)
      → Reads c text day

-- A day, written the way that the text was read
unfoldable pub written : (c : Calendar) (text : Str) (day : ℕ) → Reads c text day → ℕ → Str
written c text day (dashed p) moved = c.strftime (str "%Y-%m-%d") moved
written c text day (slashed p q) moved = c.strftime (str "%Y/%m/%d") moved
written c text day (timed rest p q r) moved =
    replace (c.isoformat (moved, rest)) (str "+00:00") (str "Z")

date-offset :
    (c : Calendar) (first_word : Str → ℕ) (session_id original : Str) (day : ℕ)
    (reads : Reads c original day)
    → 90 < day
    → day + 90 ≤ max_ordinal
    → date c (date_offset first_word session_id) original
      ≡ ok (written c original day reads (day + offset_of first_word session_id - 90))
unfolding date shifted_date with_format shifted_datetime written
date-offset c first_word session_id original day (dashed p) low high =
    rw (p, shifted-offset first_word session_id day low high) refl
date-offset c first_word session_id original day (slashed p q) low high =
    rw (p, q, shifted-offset first_word session_id day low high) refl
date-offset c first_word session_id original day (timed rest p q r) low high =
    rw (p, q, r, shifted-offset first_word session_id day low high) refl

-- Two texts of one session that `_date` reads as dates or datetimes, in any of its three ways, each at
-- least 91 days from both ends of the calendar, are replaced by texts of the same two ways whose days
-- are as far apart as theirs, and neither day moves by more than 90.
pub date-distance :
    (c : Calendar) (first_word : Str → ℕ) (session_id one two : Str) (day1 day2 : ℕ)
    (reads1 : Reads c one day1) (reads2 : Reads c two day2)
    → 90 < day1
    → 90 < day2
    → day1 + 90 ≤ max_ordinal
    → day2 + 90 ≤ max_ordinal
    → (moved1 moved2 : ℕ) × (date c (date_offset first_word session_id) one
        ≡ ok (written c one day1 reads1 moved1))
      × (date c (date_offset first_word session_id) two ≡ ok (written c two day2 reads2 moved2))
      × (moved1 + day2 ≡ moved2 + day1)
      × (moved1 ≤ day1 + 90)
      × (day1 ≤ moved1 + 90)
date-distance c first_word session_id one two day1 day2 reads1 reads2 low1 low2 high1 high2 =
    let small : offset_of first_word session_id < 181 =
      stable_index-lt first_word (str "date:" ++ session_id) 180 in
    (
      _,
      _,
      date-offset c first_word session_id one day1 reads1 low1 high1,
      date-offset c first_word session_id two day2 reads2 low2 high2,
      omega (arith, low1, low2),
      omega (arith, small),
      omega (arith, low1),
    )
