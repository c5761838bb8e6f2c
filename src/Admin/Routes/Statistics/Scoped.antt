-- ===== src/Admin/Routes/Statistics/Scoped.antt =====
-- frostglass/admin/routes_admin.py: the statistics are of the caller's tenant and team.
use frostglass.Prelude.{
  ℕ, ◌≡◌, refl, sym, take, length, Bool, true, false, ◌&&◌, Option, List, [], ◌∷◌, Str, str_eq,
  ◌==◌, filter, any, and_left, Bool-cases, inl, inr, ok, ◌>>=◌,
}
use frostglass.Prelude.Sort.{sorted_by}
use frostglass.Audit.Models.{RequestRecord}
use frostglass.Audit.Store.{AuditStore, is_scoped}
use frostglass.Audit.Stats
use frostglass.Audit.Stats.Findings
use frostglass.Audit.Stats.{
  Clock, Overview, Tally, in_window, window_rows, window_findings, since_days, range_days,
  most_flagged, tallies, quotient, overview_of, sensitive,
}
use frostglass.Audit.Stats.Findings.{estimates}
use frostglass.Admin.Rbac.{AdminIdentity, require, read_stats}
use frostglass.Admin.Store.{Sources, AdminStore}
use frostglass.Admin.Store.Tables.{filter-filter}
use frostglass.Admin.Routes.{identify, scope_team}
use frostglass.Admin.Routes.Statistics.{
  stats_overview, stats_top_users, stats_detections, stats_false_positives,
}

module _ {A : Type 0} (p q : A → Bool) (weaker : (x : A) → q x ≡ false → p x ≡ false) where
  any-filter : (xs : List A) → any p (filter q xs) ≡ any p xs
  unfolding filter any
  any-filter [] = refl
  any-filter (x ∷ xs) = elim (Bool-cases (q x)) [
    | inl e ↦ rw (e, any-filter xs) refl
    | inr e ↦ rw (e, weaker x e) (any-filter xs)
  ]

and_false : (b : Bool) → b && false ≡ false
and_false true = refl
and_false false = refl

module _ (tenant_id : Str) (team : Option Str) where
  -- The audit store with no other request than those of the tenant and the team
  unfoldable pub only : AuditStore → AuditStore
  unfolding filter is_scoped
  only s = record {
    requests = filter (is_scoped tenant_id team) s.requests;
    findings = s.findings;
    captured = s.captured;
    drawn = s.drawn;
  }

  in_scope :
      (since : Str) (r : RequestRecord)
      → in_window tenant_id team since r ≡ true
      → is_scoped tenant_id team r ≡ true
  unfolding in_window
  in_scope since r h = and_left _ _ h

  out_of_scope :
      (since : Str) (r : RequestRecord)
      → is_scoped tenant_id team r ≡ false
      → in_window tenant_id team since r ≡ false
  unfolding in_window
  out_of_scope since r e = rw e refl

  any-only :
      (id since : Str) (rows : List RequestRecord)
      → any
          (λ r. r.id == id && in_window tenant_id team since r)
          (filter (is_scoped tenant_id team) rows)
        ≡ any (λ r. r.id == id && in_window tenant_id team since r) rows
  any-only id since rows =
      any-filter (λ r. r.id == id && in_window tenant_id team since r) (is_scoped tenant_id team)
        (λ r e. rw (out_of_scope since r e) (and_false (r.id == id))) rows

  module _ (s : AuditStore) where
    window_rows-only :
        (since : Str)
        → window_rows (only s) tenant_id team since ≡ window_rows s tenant_id team since
    unfolding window_rows only
    window_rows-only since =
        filter-filter (in_window tenant_id team since) (is_scoped tenant_id team) (in_scope since)
          s.requests

    window_findings-only :
        (since : Str)
        → window_findings (only s) tenant_id team since ≡ window_findings s tenant_id team since
    unfolding window_findings only
    window_findings-only since =
        λ i. filter (λ f. any-only f.request_id since s.requests i) s.findings

    overview_of-only :
        (today week month since : Str) (users : List Tally)
        → overview_of (only s) tenant_id team today week month since users
          ≡ overview_of s tenant_id team today week month since users
    unfolding overview_of only
    overview_of-only today week month since users =
        rw
          (
            window_rows-only today,
            window_rows-only week,
            window_rows-only month,
            window_rows-only since,
            window_findings-only since,
          )
          refl

    module _ (c : Clock) (range : Str) (moment : ℕ) where
      top_users-only :
          (limit : ℕ)
          → Stats.top_users c (only s) tenant_id team range limit moment
            ≡ Stats.top_users c s tenant_id team range limit moment
      unfolding Stats.top_users
      top_users-only limit = λ i. do
        since ← since_days c moment (range_days c range)
        ok (take limit (sorted_by most_flagged (tallies (λ r. r.user) (window_rows-only since i))))

      stats_overview-only :
          Stats.stats_overview c (only s) tenant_id team range moment
          ≡ Stats.stats_overview c s tenant_id team range moment
      unfolding Stats.stats_overview
      stats_overview-only = λ i. do
        week ← since_days c moment 7
        month ← since_days c moment 30
        since ← since_days c moment (range_days c range)
        users ← top_users-only 10 i
        ok (overview_of-only (c.isoformat (c.midnight moment)) week month since users i)

      detection_estimates-only :
          Findings.detection_estimates c (only s) tenant_id team range moment
          ≡ Findings.detection_estimates c s tenant_id team range moment
      unfolding Findings.detection_estimates
      detection_estimates-only = λ i. do
        since ← since_days c moment (range_days c range)
        ok (estimates [] (window_findings-only since i))

      false_positive_rate-only :
          Findings.false_positive_rate c (only s) tenant_id team range moment
          ≡ Findings.false_positive_rate c s tenant_id team range moment
      unfolding Findings.false_positive_rate
      false_positive_rate-only = λ i. do
        since ← since_days c moment (range_days c range)
        let rows = window_findings-only since i in
            let reports = length (filter (λ f. f.false_positive_reported) rows) in
            ok (length rows, reports, quotient reports (length rows))

-- The four routes of the statistics answer as if the audit store held no request but those of the
-- caller's tenant and, for a role that sees one team, of that team.
pub stats-scoped :
    (e : Sources) (a : AdminStore) (c : Clock) (moment : ℕ) (authorization : Option Str)
    (range : Str) (s : AuditStore) (identity : AdminIdentity)
    → identify e a authorization ≡ ok identity
    → let seen = only identity.tenant_id (scope_team identity) s in
      (stats_overview e a c moment authorization range s
        ≡ stats_overview e a c moment authorization range seen)
      × ((limit : ℕ)
          → stats_top_users e a c moment authorization range s limit
            ≡ stats_top_users e a c moment authorization range seen limit)
      × (stats_detections e a c moment authorization range s
          ≡ stats_detections e a c moment authorization range seen)
      × (stats_false_positives e a c moment authorization range s
          ≡ stats_false_positives e a c moment authorization range seen)
unfolding stats_overview stats_top_users stats_detections stats_false_positives
stats-scoped e a c moment authorization range s identity known =
    let tenant_id = identity.tenant_id in
    let team = scope_team identity in
    rw known (
      λ i. require identity read_stats >>= λ done.
          sym (stats_overview-only tenant_id team s c range moment) i,
      (λ limit. λ i. require identity read_stats >>= λ done.
          sym (top_users-only tenant_id team s c range moment limit) i >>= λ users.
          ok (range, users)),
      (λ i. require identity read_stats >>= λ done.
          sym (detection_estimates-only tenant_id team s c range moment) i),
      λ i. require identity read_stats >>= λ done.
          sym (false_positive_rate-only tenant_id team s c range moment) i,
    )
