-- ===== src/Audit/Stats/Sums.antt =====
-- frostglass/audit/store.py: the counts of the dashboard are those of the rows in the window.
use frostglass.Prelude.{
  ℕ, ◌+◌, ◌-◌, ◌*◌, ◌<◌, ok, err, take, ◌≡◌, ◌≤◌, refl, ap, Bool, Option, List, [], ◌∷◌, Str,
  str_eq, ◌==◌, filter, any, length, if◌then◌else◌, Bool-cases, inl, inr, arith,
}
use frostglass.Prelude.Dict
use frostglass.Prelude.Dict.{Dict, get-put}
use frostglass.Prelude.Sort.{sorted_by}
use frostglass.Errors.{overflow_error}
use frostglass.Audit.Store.{AuditStore}
use frostglass.Audit.Stats.{
  Clock, Overview, Tally, day_microseconds, overview_of, top_users, most_flagged, tallies, or_zero,
  number_of, stats_overview, added, grouped, sum_of, window_rows, since_days, range_days, sensitive,
}

number_of-added :
    (groups : Dict Str ℕ) (key wanted : Str) (n : ℕ)
    → number_of (added groups key n) wanted
      ≡ number_of groups wanted + (if key == wanted then n else 0)
unfolding number_of or_zero added
number_of-added groups key wanted n = elim (Bool-cases (key == wanted)) [
  | inl same ↦
      rw (get-put groups key wanted (number_of groups key + n), same)
        (ap (λ k. number_of groups k + n) ((str_eq.beq_iff key wanted).0 same))
  | inr other ↦ rw (get-put groups key wanted (number_of groups key + n), other) (omega arith)
]

sum_of-added :
    (groups : Dict Str ℕ) (key : Str) (n : ℕ) → sum_of (added groups key n) ≡ sum_of groups + n
unfolding sum_of added number_of or_zero Dict.put Dict.get
sum_of-added [] key n = omega arith
sum_of-added ((k, m) ∷ groups) key n = elim (Bool-cases (k == key)) [
  | inl same ↦ rw same (omega arith)
  | inr other ↦ rw other (omega (arith, sum_of-added groups key n))
]

module _ {A : Type 0} (key : A → Str) where
  number_of-grouped :
      (wanted : Str) (groups : Dict Str ℕ) (rows : List A)
      → number_of (grouped key (λ r. 1) groups rows) wanted
        ≡ number_of groups wanted + length (filter (λ r. key r == wanted) rows)
  unfolding grouped filter
  number_of-grouped wanted groups [] = omega arith
  number_of-grouped wanted groups (row ∷ rows) =
      let rest = number_of-grouped wanted (added groups (key row) 1) rows in
      let here = number_of-added groups (key row) wanted 1 in
      elim (Bool-cases (key row == wanted)) [
        | inl same ↦ let h = rw same at here in rw same (omega (arith, rest, h))
        | inr other ↦ let h = rw other at here in rw other (omega (arith, rest, h))
      ]

  sum_of-grouped :
      (groups : Dict Str ℕ) (rows : List A)
      → sum_of (grouped key (λ r. 1) groups rows) ≡ sum_of groups + length rows
  unfolding grouped
  sum_of-grouped groups [] = omega arith
  sum_of-grouped groups (row ∷ rows) =
      omega (arith, sum_of-grouped (added groups (key row) 1) rows, sum_of-added groups (key row) 1)

length-filter_le : {A : Type 0} (p : A → Bool) (xs : List A) → length (filter p xs) ≤ length xs
unfolding filter
length-filter_le p [] = omega arith
length-filter_le p (x ∷ xs) = elim (Bool-cases (p x)) [
  | inl e ↦ rw e (omega (arith, length-filter_le p xs))
  | inr e ↦ rw e (omega (arith, length-filter_le p xs))
]

pub since_days-eq :
    (c : Clock) (moment days : ℕ)
    → days * day_microseconds ≤ moment
    → since_days c moment days ≡ ok (c.isoformat (moment - days * day_microseconds))
unfolding since_days
since_days-eq c moment days late = ground arith

since_days-err :
    (c : Clock) (moment days : ℕ)
    → moment < days * day_microseconds
    → since_days c moment days ≡ err overflow_error
unfolding since_days
since_days-err c moment days early = ground arith

module _ (s : AuditStore) (tenant_id : Str) (team : Option Str) (since : Str) where
  -- An overview counts the rows of its window
  unfoldable pub Counts : Overview → Type 0
  Counts overview =
      let rows = window_rows s tenant_id team since in
      ((action : Str)
        → number_of overview.by_action action ≡ length (filter (λ r. r.action == action) rows))
      × (overview.windowed_total ≡ length rows)
      × (overview.sensitive_requests ≤ overview.windowed_total)

  overview_of-Counts :
      (today week month : Str) (users : List Tally)
      → Counts (overview_of s tenant_id team today week month since users)
  unfolding Counts overview_of sensitive number_of or_zero Dict.get sum_of
  overview_of-Counts today week month users =
      let rows = window_rows s tenant_id team since in
      let total = sum_of-grouped (λ r. r.action) [] rows in
      (
        λ action. omega (arith, number_of-grouped (λ r. r.action) action [] rows),
        omega (arith, total),
        omega
            (arith, total, length-filter_le (λ r. any (λ f. f.request_id == r.id) s.findings) rows),
      )

-- At a time that has the window and a month before it, the overview is returned, and it counts what is
-- in the window: the number that it gives for an action is that of the rows with the action, the total
-- is the number of all rows, and the requests with findings are at most the total. With less than the
-- window before it, the overview raises.
pub stats_overview-exact :
    (c : Clock) (s : AuditStore) (tenant_id : Str) (team : Option Str) (range : Str) (moment : ℕ)
    → 30 * day_microseconds ≤ moment
    → let days = range_days c range in
      (moment < days * day_microseconds
        → stats_overview c s tenant_id team range moment ≡ err overflow_error)
      × (days * day_microseconds ≤ moment
          → (overview : Overview) × (stats_overview c s tenant_id team range moment ≡ ok overview)
            × Counts s tenant_id team (c.isoformat (moment - days * day_microseconds)) overview)
unfolding stats_overview top_users
stats_overview-exact c s tenant_id team range moment month =
    let enough = since_days-eq c moment in
    (
      λ early.
          rw
            (
              enough 7 (omega (arith, month)),
              enough 30 month,
              since_days-err c moment (range_days c range) early,
            )
            refl,
      λ late.
          let since = c.isoformat (moment - range_days c range * day_microseconds) in
          let users =
            take 10 (
              sorted_by most_flagged
                (tallies (λ r. r.user) (window_rows s tenant_id team since))) in
          (
            overview_of s tenant_id team (c.isoformat (c.midnight moment))
                (c.isoformat (moment - 7 * day_microseconds))
                (c.isoformat (moment - 30 * day_microseconds)) since users,
            rw (enough 7 (omega (arith, month)), enough 30 month, enough (range_days c range) late)
                refl,
            overview_of-Counts s tenant_id team _ _ _ _ _,
          ),
    )
