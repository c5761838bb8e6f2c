-- ===== src/Admin/Routes/Statistics.antt =====
-- frostglass/admin/routes_admin.py: the routes of the dashboard's aggregates. The time at which a route
-- runs is an argument.
pub mod Scoped
use frostglass.Prelude.{ℕ, Option, List, Str, str, ok, ◌>>=◌}
use frostglass.Prelude.Dict.{Dict}
use frostglass.Errors.{Py}
use frostglass.Admin.Rbac.{require, read_stats}
use frostglass.Admin.Store.{Sources, AdminStore}
use frostglass.Audit.Store.{AuditStore}
use frostglass.Audit.Stats
use frostglass.Audit.Stats.Findings
use frostglass.Audit.Stats.{Clock, Overview, Tally}
use frostglass.Audit.Stats.Findings.{Bucket}
use frostglass.Admin.Routes.{identify, scope_team}

module _ (e : Sources) (a : AdminStore) (c : Clock) (moment : ℕ) (authorization : Option Str)
    (range : Str) (s : AuditStore) where
  -- `stats_overview`
  unfoldable pub stats_overview : Py Overview
  unfolding identify require scope_team Stats.stats_overview
  stats_overview = do
    identity ← identify e a authorization
    done ← require identity read_stats
    Stats.stats_overview c s identity.tenant_id (scope_team identity) range moment

  -- `stats_top_users`
  unfoldable pub stats_top_users : ℕ → Py (Str × List Tally)
  unfolding identify require scope_team Stats.top_users
  stats_top_users limit = do
    identity ← identify e a authorization
    done ← require identity read_stats
    users ← Stats.top_users c s identity.tenant_id (scope_team identity) range limit moment
    ok (range, users)

  -- `stats_detections`
  unfoldable pub stats_detections : Py (Dict Str Bucket)
  unfolding identify require scope_team Findings.detection_estimates
  stats_detections = do
    identity ← identify e a authorization
    done ← require identity read_stats
    Findings.detection_estimates c s identity.tenant_id (scope_team identity) range moment

  -- `stats_false_positives`
  unfoldable pub stats_false_positives : Py (ℕ × ℕ × (ℕ × ℕ))
  unfolding identify require scope_team Findings.false_positive_rate
  stats_false_positives = do
    identity ← identify e a authorization
    done ← require identity read_stats
    Findings.false_positive_rate c s identity.tenant_id (scope_team identity) range moment
