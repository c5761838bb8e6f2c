-- ===== src/Admin/Routes/Tests.antt =====
-- The routes of the admin API for an owner and a viewer of one tenant.
use frostglass.Prelude.{
  ℕ, ◌≡◌, ◌⊎◌, refl, true, Option, none, some, List, [], ◌∷◌, ◌++◌, Str, str, str_beq, str_eq, ◌==◌,
  ok, length, if◌then◌else◌,
}
use frostglass.Prelude.Int.{pos}
use frostglass.Prelude.Strings.{starts_with, remove_prefix}
use frostglass.Admin.Rbac.{AdminIdentity, owner, viewer, can, holds, role_permissions, ordinal}
use frostglass.Admin.Store.{Sources, AdminStore, EventRow, new_admin_store}
use frostglass.Admin.Store.Access.{create_session, resolve_session}
use frostglass.Admin.Store.Sessions.{resolve_session-create_session}
use frostglass.Audit.Models.{RequestRecord}
use frostglass.Audit.Store.{AuditStore}
use frostglass.Audit.Stats.Tests.{clock, store, moment}
use frostglass.Admin.Routes
use frostglass.Admin.Routes.Audited.{Outcome, serve-audited}
use frostglass.Admin.Routes.History.{Call, replay, changes, replay-append_only}
use frostglass.Admin.Routes.Tenants.Rows.{rows_of}
use frostglass.Admin.Routes.Tenants.{serve-other_tenant}
use frostglass.Admin.Routes.Statistics.{
  stats_overview, stats_top_users, stats_detections, stats_false_positives,
}
use frostglass.Admin.Routes.Statistics.Scoped.{only, stats-scoped}
use frostglass.Admin.Routes.Requests.{get_trace}
use frostglass.Admin.Routes.Requests.Hidden.{
  IsElsewhere, IsNotFound, IsForbidden, get_trace-distinguishes,
}

abbrev sources : Sources
sources = record {
  uuid4_hex = λ n. n ∷ [];
  token_urlsafe = λ n. n ∷ n ∷ [];
  now = str "2026-01-01";
  sha256_hexdigest = λ s. s;
}

abbrev owner_identity : AdminIdentity
owner_identity = record { user_id = str "o"; tenant_id = str "t"; team = str "a"; role = owner }

abbrev viewer_identity : AdminIdentity
viewer_identity = record { user_id = str "v"; tenant_id = str "t"; team = str "b"; role = viewer }

-- A store with a session of each
abbrev opened : AdminStore
opened =
    create_session sources
      (create_session sources new_admin_store (str "ot") (str "o") (str "t") (str "a") owner)
      (str "vt") (str "v") (str "t") (str "b") viewer

abbrev new_team : Routes.Request
new_team = Routes.post_team (record {
  name = str "research";
  shadow_mode = true;
  monthly_budget_cents = pos 10;
  rate_limit_rpm = pos 60;
  allowed_models = [];
})

abbrev by_owner : Option Str
by_owner = some (str "Bearer ot")

abbrev by_viewer : Option Str
by_viewer = some (str "Bearer vt")

owner_is_identified : Routes.identify sources opened by_owner ≡ ok owner_identity
unfolding Routes.identify create_session str str_beq starts_with remove_prefix
owner_is_identified = refl

viewer_is_identified : Routes.identify sources opened by_viewer ≡ ok viewer_identity
unfolding Routes.identify create_session str str_beq starts_with remove_prefix
viewer_is_identified = refl

resolve_session-create_session_example :
    resolve_session sources
      (create_session sources opened (str "nt") (str "n") (str "t") (str "a") viewer)
      (str "nt")
    ≡ (if str "nt" == str "nt"
        then ok (
            some (record { user_id = str "n"; tenant_id = str "t"; team = str "a"; role = viewer }))
        else resolve_session sources opened (str "nt"))
resolve_session-create_session_example =
    resolve_session-create_session sources opened (str "nt") (str "nt") (str "n") (str "t")
      (str "a") viewer

serve-audited_example :
    Outcome sources opened by_owner new_team (Routes.serve sources opened by_owner new_team)
serve-audited_example = serve-audited sources opened by_owner new_team

abbrev calls : List Call
calls =
    (sources, by_owner, new_team)
    ∷ (sources, by_viewer, new_team)
    ∷ (sources, by_owner, Routes.post_vault_rotate)
    ∷ (sources, by_viewer, Routes.get_settings_page)
    ∷ []

changes_of_calls : changes opened calls ≡ 2
unfolding changes Routes.serve create_session str str_beq starts_with remove_prefix
changes_of_calls = refl

replay-append_only_example :
    (new : List EventRow) × ((replay opened calls).audit_events ≡ opened.audit_events ++ new)
    × (length new ≡ changes opened calls)
replay-append_only_example = replay-append_only calls opened

serve-other_tenant_example :
    rows_of (str "u") (Routes.serve sources opened by_owner new_team).1 ≡ rows_of (str "u") opened
unfolding str str_beq
serve-other_tenant_example =
    serve-other_tenant sources opened by_owner new_team owner_identity (str "u") owner_is_identified
      refl

-- A request of the owner's team
abbrev a_request : RequestRecord
a_request = record {
  id = str "r";
  tenant_id = str "t";
  team = str "a";
  user = [];
  ts = [];
  model = [];
  provider = [];
  action = [];
  policy_version = 1;
  shadow = true;
  blocked_reason = none;
  prompt_tokens = none;
  completion_tokens = none;
  cost_cents = none;
  latency_ms = none;
  provider_latency_ms = none;
  status_code = none;
  fallback_used = none;
  trace = [];
}

abbrev audited : AuditStore
audited = record { requests = a_request ∷ []; findings = []; captured = []; drawn = 0 }

-- The viewer is told of the other team's request by the status.
get_trace-distinguishes_example :
    (IsElsewhere audited viewer_identity (str "r")
      × IsNotFound (get_trace sources opened audited by_viewer (str "r")))
    ⊎ ((¬ IsElsewhere audited viewer_identity (str "r"))
        × IsForbidden (get_trace sources opened audited by_viewer (str "r")))
unfolding can holds role_permissions ordinal
get_trace-distinguishes_example =
    get_trace-distinguishes sources opened audited by_viewer (str "r") viewer_identity
      viewer_is_identified refl

stats-scoped_example :
    let seen = only (str "t") (Routes.scope_team viewer_identity) store in
    (stats_overview sources opened clock moment by_viewer (str "2d") store
      ≡ stats_overview sources opened clock moment by_viewer (str "2d") seen)
    × ((limit : ℕ)
        → stats_top_users sources opened clock moment by_viewer (str "2d") store limit
          ≡ stats_top_users sources opened clock moment by_viewer (str "2d") seen limit)
    × (stats_detections sources opened clock moment by_viewer (str "2d") store
        ≡ stats_detections sources opened clock moment by_viewer (str "2d") seen)
    × (stats_false_positives sources opened clock moment by_viewer (str "2d") store
        ≡ stats_false_positives sources opened clock moment by_viewer (str "2d") seen)
stats-scoped_example =
    stats-scoped sources opened clock moment by_viewer (str "2d") store viewer_identity
      viewer_is_identified
