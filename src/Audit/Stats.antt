-- ===== src/Audit/Stats.antt =====
-- frostglass/audit/store.py: the aggregates of the dashboard. A time is a number of microseconds, and its
-- ISO text is a parameter, as are the reading of an integer and `strip().lower()`. A GROUP BY is the
-- list of its groups; a quotient is its two numbers.
pub mod Findings
pub mod Estimates
pub mod Sums
pub mod Tests
use frostglass.Prelude.{
  ℕ, suc, ◌+◌, ◌-◌, ◌*◌, ◌/◌, ◌≤◌, ◌≡◌, Bool, true, false, ◌&&◌, ◌||◌, not, Option, none, some,
  List, [], ◌∷◌, map, Str, str, str_eq, str_leb, ◌==◌, filter, any, take, drop, length, ltb, leb,
  nat_beq, max, if◌then◌else◌, ok, err, ◌>>=◌,
}
use frostglass.Prelude.Dict
use frostglass.Prelude.Dict.{Dict}
use frostglass.Prelude.Int.{ℤ, pos, negsuc, ◌+ℤ◌, pos_part}
use frostglass.Prelude.Sort.{sorted_by}
use frostglass.Errors.{Py, overflow_error}
use frostglass.Audit.Models.{RequestRecord}
use frostglass.Audit.Store.{AuditStore, FindingRow, is_scoped}

-- What the aggregates read from outside
pub record Clock : Type 0 where
  pub isoformat : ℕ → Str
  pub midnight : ℕ → ℕ
  pub strip_lower : Str → Str
  pub int_text : Str → Option ℤ

abbrev pub day_microseconds : ℕ
day_microseconds = 86_400_000_000

-- `int(...)` with what is made of it, at least 1; a ValueError gives 7
unfoldable pub days_or_week : (ℤ → ℕ) → Option ℤ → ℕ
days_or_week days none = 7
days_or_week days (some n) = max 1 (days n)

-- `_range_days` by the last character of the token and what is before it
unfoldable pub days_of_unit : Clock → Option ℕ → Str → ℕ
unfolding days_or_week
days_of_unit c none front = 7
days_of_unit c (some unit) front =
    if nat_beq unit 104
    then days_or_week (λ hours. pos_part (hours +ℤ pos 23) / 24) (c.int_text front)
    else if nat_beq unit 100
    then days_or_week pos_part (c.int_text front)
    else if nat_beq unit 119
    then days_or_week (λ weeks. pos_part weeks * 7) (c.int_text front)
    else 7

unfoldable pub last_char : Str → Option ℕ
last_char [] = none
last_char (c ∷ []) = some c
last_char (c ∷ d ∷ s) = last_char (d ∷ s)

-- `_range_days`
unfoldable pub range_days : Clock → Str → ℕ
unfolding days_of_unit last_char
range_days c range =
    let token = c.strip_lower range in
    days_of_unit c (last_char token) (take (length token - 1) token)

-- `tenant_id = ? AND team = ? AND ts >= ?`
unfoldable pub in_window : Str → Option Str → Str → RequestRecord → Bool
unfolding is_scoped
in_window tenant_id team since r = is_scoped tenant_id team r && str_leb since r.ts

unfoldable pub window_rows : AuditStore → Str → Option Str → Str → List RequestRecord
unfolding filter in_window
window_rows s tenant_id team since = filter (in_window tenant_id team since) s.requests

-- The findings of the requests in the window
unfoldable pub window_findings : AuditStore → Str → Option Str → Str → List FindingRow
unfolding filter any in_window
window_findings s tenant_id team since =
    filter (λ f. any (λ r. r.id == f.request_id && in_window tenant_id team since r) s.requests)
      s.findings

-- `(moment - timedelta(days=days)).isoformat()`; a date before year 1 raises.
unfoldable pub since_days : Clock → ℕ → ℕ → Py Str
since_days c moment days =
    if leb (days * day_microseconds) moment
    then ok (c.isoformat (moment - days * day_microseconds))
    else err overflow_error

-- `int(row["n"] or 0)`
unfoldable pub or_zero : Option ℕ → ℕ
or_zero none = 0
or_zero (some n) = n

-- The number of a group, 0 for a group that is not there
unfoldable pub number_of : Dict Str ℕ → Str → ℕ
unfolding or_zero
number_of groups key = or_zero (Dict.get groups key)

-- A number added to a group's
unfoldable pub added : Dict Str ℕ → Str → ℕ → Dict Str ℕ
unfolding number_of
added groups key n = Dict.put groups key (number_of groups key + n)

-- `GROUP BY key` with the sum of a number of each row, from the groups so far
unfoldable pub grouped {ℓ} : {A : Type ℓ} → (A → Str) → (A → ℕ) → Dict Str ℕ → List A → Dict Str ℕ
unfolding added
grouped key number groups [] = groups
grouped key number groups (row ∷ rows) =
    grouped key number (added groups (key row) (number row)) rows

-- `CASE WHEN action != 'allowed' THEN 1 ELSE 0 END`
unfoldable pub is_flagged : RequestRecord → ℕ
is_flagged r = if r.action == str "allowed" then 0 else 1

unfoldable pub sum_of : Dict Str ℕ → ℕ
sum_of [] = 0
sum_of ((key, n) ∷ groups) = n + sum_of groups

-- `ORDER BY n DESC, key`
unfoldable pub most_first : Str × ℕ → Str × ℕ → Bool
most_first x y = ltb y.1 x.1 || (nat_beq x.1 y.1 && str_leb x.0 y.0)

pub record Tally : Type 0 where
  pub name : Str
  pub count : ℕ
  pub flagged : ℕ

-- The groups of a key with their counts and their flagged counts
unfoldable pub tally : Dict Str ℕ → Str × ℕ → Tally
unfolding number_of
tally flagged (name, n) = record { name = name; count = n; flagged = number_of flagged name }

unfoldable pub tallies : (RequestRecord → Str) → List RequestRecord → List Tally
unfolding grouped tally is_flagged
tallies key rows = map (tally (grouped key is_flagged [] rows)) (grouped key (λ r. 1) [] rows)

-- `ORDER BY flagged DESC, n DESC, user_id`
unfoldable pub most_flagged : Tally → Tally → Bool
most_flagged x y =
    ltb y.flagged x.flagged
    || (nat_beq x.flagged y.flagged
        && (ltb y.count x.count || (nat_beq x.count y.count && str_leb x.name y.name)))

-- `ORDER BY n DESC, team`
unfoldable pub largest : Tally → Tally → Bool
largest x y = ltb y.count x.count || (nat_beq x.count y.count && str_leb x.name y.name)

-- `cost_cents`, None as 0
unfoldable pub cost_of : RequestRecord → ℕ
unfolding or_zero
cost_of r = or_zero r.cost_cents

-- `(a / b) if b else 0.0`
unfoldable pub quotient : ℕ → ℕ → ℕ × ℕ
quotient a b = if nat_beq b 0 then (0, 1) else (a, b)

-- `top_users`
unfoldable pub top_users : Clock → AuditStore → Str → Option Str → Str → ℕ → ℕ → Py (List Tally)
unfolding range_days since_days window_rows tallies most_flagged
top_users c s tenant_id team range limit moment = do
  since ← since_days c moment (range_days c range)
  ok (
      take limit
        (sorted_by most_flagged (tallies (λ r. r.user) (window_rows s tenant_id team since))))

pub record Overview : Type 0 where
  pub today : ℕ
  pub last_7d : ℕ
  pub last_30d : ℕ
  pub by_action : Dict Str ℕ
  pub windowed_total : ℕ
  pub sensitive_requests : ℕ
  pub sensitive_pct : ℕ × ℕ
  pub sparkline : Dict Str ℕ
  pub top_entity_types : Dict Str ℕ
  pub top_teams : List Tally
  pub users : List Tally
  pub spend_by_provider : Dict Str ℕ
  pub spend_by_model : Dict Str ℕ

-- `COUNT(DISTINCT requests.id)` of the join: the requests that have a finding
unfoldable pub sensitive : AuditStore → List RequestRecord → ℕ
unfolding filter any
sensitive s rows = length (filter (λ r. any (λ f. f.request_id == r.id) s.findings) rows)

-- The record that `stats_overview` returns, from the starts of its windows and the users; the keys
-- `range` and `sampled` are the argument and `windowed_total`.
unfoldable pub overview_of :
    AuditStore → Str → Option Str → Str → Str → Str → Str → List Tally → Overview
unfolding window_rows window_findings grouped sum_of most_first tallies largest cost_of quotient
    sensitive
overview_of s tenant_id team today week month since users =
    let rows = window_rows s tenant_id team since in
    let total = sum_of (grouped (λ r. r.action) (λ r. 1) [] rows) in
    record {
      today = length (window_rows s tenant_id team today);
      last_7d = length (window_rows s tenant_id team week);
      last_30d = length (window_rows s tenant_id team month);
      by_action = grouped (λ r. r.action) (λ r. 1) [] rows;
      windowed_total = total;
      sensitive_requests = sensitive s rows;
      sensitive_pct = quotient (sensitive s rows) total;
      sparkline = sorted_by (λ x y. str_leb x.0 y.0) (grouped (λ r. take 10 r.ts) (λ r. 1) [] rows);
      top_entity_types = take 10 (
          sorted_by most_first (
            grouped (λ f. f.entry.entity_type) (λ f. 1) []
              (window_findings s tenant_id team since)));
      top_teams = take 10 (sorted_by largest (tallies (λ r. r.team) rows));
      users = users;
      spend_by_provider = sorted_by most_first (grouped (λ r. r.provider) cost_of [] rows);
      spend_by_model = sorted_by most_first (grouped (λ r. r.model) cost_of [] rows);
    }

-- `stats_overview`
unfoldable pub stats_overview : Clock → AuditStore → Str → Option Str → Str → ℕ → Py Overview
unfolding range_days since_days top_users overview_of
stats_overview c s tenant_id team range moment = do
  week ← since_days c moment 7
  month ← since_days c moment 30
  since ← since_days c moment (range_days c range)
  users ← top_users c s tenant_id team range 10 moment
  ok (overview_of s tenant_id team (c.isoformat (c.midnight moment)) week month since users)
