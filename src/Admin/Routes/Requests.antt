-- ===== src/Admin/Routes/Requests.antt =====
-- frostglass/admin/routes_admin.py: the routes on the audited requests and on policies.
pub mod Hidden
use frostglass.Prelude.{
  ℕ, Bool, true, false, not, Option, none, some, List, [], ◌∷◌, map, Str, str, ok, err, ◌>>=◌, ◌>>◌,
  if◌then◌else◌,
}
use frostglass.Prelude.Strings.{decimal}
use frostglass.Errors.{PyError, Py, gateway_error, value_error, key_error}
use frostglass.Json.{Value, text, boolean, null, array, float}
use frostglass.Prelude.Int.{pos}
use frostglass.Policy.Models.{RuleSet, Rule}
use frostglass.Policy.Loader.Serial.{sorted_names, action_value}
use frostglass.Policy.Engine
use frostglass.Policy.Engine.{PolicyEngine, active_ruleset}
use frostglass.Admin.Rbac.{
  AdminIdentity, require, read_requests, read_trace, report_false_positive, read_policy,
  write_policy,
}
use frostglass.Admin.Cursor.{Codec, encode_cursor, paginate}
use frostglass.Admin.Store.{Sources, AdminStore}
use frostglass.Admin.Store.Access.{record_event}
use frostglass.Audit.Models.{RequestRecord}
use frostglass.Audit.Store
use frostglass.Audit.Store.{AuditStore}
use frostglass.Admin.Routes.{identify, scope_team}
use frostglass.Admin.Routes.Views.{dict, items_of, number, or_null, request_view, finding_view}

-- A page of requests and its cursor, as the answer
unfoldable pub page_view : Codec → List RequestRecord × Option (Str × Str) → Value
unfolding dict items_of request_view encode_cursor
page_view c (rows, next_cursor) = dict (
    (str "items", array (items_of (map request_view rows)))
    ∷ (str "next_cursor", or_null (λ position. text (encode_cursor c position)) next_cursor)
    ∷ [])

unfoldable pub request_found : Option RequestRecord → Py Value
unfolding request_view
request_found none = err (gateway_error 404 (str "Request not found") (str "not_found"))
request_found (some row) = ok (request_view row)

module _ (e : Sources) (a : AdminStore) (s : AuditStore) (authorization : Option Str) where
  -- `list_requests`
  unfoldable pub list_requests : Codec → Option Str → Option Str → ℕ → Py Value
  unfolding identify require scope_team paginate page_view Store.list_requests
  list_requests c action cursor limit = do
    identity ← identify e a authorization
    done ← require identity read_requests
    position ← paginate c cursor
    page ← Store.list_requests s identity.tenant_id (scope_team identity) action limit position
    ok (page_view c page)

  -- `get_request`
  unfoldable pub get_request : Str → Py Value
  unfolding identify require scope_team request_found Store.get_request
  get_request request_id = do
    identity ← identify e a authorization
    done ← require identity read_requests
    request_found (Store.get_request s identity.tenant_id request_id (scope_team identity))

-- `get_trace` where the request is not in the scope, by what the tenant has under the identifier
unfoldable pub trace_hidden : AdminIdentity → Option RequestRecord → Py Value
unfolding require
trace_hidden identity (some elsewhere) =
    err (gateway_error 404 (str "Request not found") (str "not_found"))
trace_hidden identity none =
    require identity read_trace
    >> err (gateway_error 404 (str "Request not found") (str "not_found"))

-- `get_trace` past `identify`, by what the scope has under the identifier
unfoldable pub trace_of : AuditStore → AdminIdentity → Str → Option RequestRecord → Py Value
unfolding trace_hidden require dict items_of finding_view Store.request_trace Store.get_request
    scope_team
trace_of s identity request_id none =
    trace_hidden identity (Store.get_request s identity.tenant_id request_id none)
trace_of s identity request_id (some row) =
    require identity read_trace
    >> ok (
        dict (
          (str "request_id", text request_id)
          ∷ (
            str "trace",
            array (
                items_of (
                  map finding_view
                    (Store.request_trace s identity.tenant_id request_id (scope_team identity)))),
          )
          ∷ []))

-- `get_trace`
unfoldable pub get_trace : Sources → AdminStore → AuditStore → Option Str → Str → Py Value
unfolding identify trace_of scope_team Store.get_request
get_trace e a s authorization request_id = do
  identity ← identify e a authorization
  trace_of s identity request_id
      (Store.get_request s identity.tenant_id request_id (scope_team identity))

-- The end of `report_false_positive`: the answer and the two stores
unfoldable pub finding_reported :
    Sources
    → AdminStore
    → AdminIdentity
    → Str
    → Bool × AuditStore
    → Py Value × AdminStore × AuditStore
unfolding record_event dict
finding_reported e a identity finding_id (false, s) =
    (err (gateway_error 404 (str "Finding not found") (str "not_found")), a, s)
finding_reported e a identity finding_id (true, s) = (
  ok (
      dict
        ((str "finding_id", text finding_id) ∷ (str "false_positive_reported", boolean true) ∷ [])),
  record_event e a identity (str "finding.false_positive") finding_id none none,
  s,
)

unfoldable pub report_as :
    Sources → AdminStore → AuditStore → Str → Py AdminIdentity → Py Value × AdminStore × AuditStore
unfolding finding_reported Store.report_false_positive scope_team
report_as e a s finding_id (err x) = (err x, a, s)
report_as e a s finding_id (ok identity) =
    finding_reported e a identity finding_id
      (Store.report_false_positive s identity.tenant_id finding_id (scope_team identity))

-- `report_false_positive`
unfoldable pub report_finding :
    Sources → AdminStore → AuditStore → Option Str → Str → Py Value × AdminStore × AuditStore
unfolding identify require report_as
report_finding e a s authorization finding_id =
    report_as e a s finding_id
      (identify e a authorization >>= λ i. require i report_false_positive >> ok i)

-- A rule of `_ruleset_view`
unfoldable pub rule_view : Rule → Value
unfolding dict items_of sorted_names action_value
rule_view rule = dict (
    (str "id", text rule.id)
    ∷ (str "entity_types", sorted_names rule.entity_types)
    ∷ (str "action", text (action_value rule.action))
    ∷ (str "min_confidence", float (pos rule.min_confidence))
    ∷ (str "reason", text rule.reason)
    ∷ [])

-- `_ruleset_view`
unfoldable pub ruleset_view : RuleSet → Value
unfolding dict items_of rule_view action_value
ruleset_view rs = dict (
    (str "version", number rs.version)
    ∷ (str "default_action", text (action_value rs.default_action))
    ∷ (str "shadow_mode", boolean rs.shadow_mode)
    ∷ (str "rules", array (items_of (map rule_view rs.rules)))
    ∷ [])

-- `create_policy`: what `add_version` returned or raised. A ValueError is answered with 400.
unfoldable pub policy_written :
    Sources
    → AdminStore
    → AdminIdentity
    → Py RuleSet × PolicyEngine
    → Py Value × AdminStore × PolicyEngine
unfolding record_event dict ruleset_view
policy_written e a identity (ok written, engine) = (
  ok (ruleset_view written),
  record_event e a identity (str "policy.create") (decimal written.version) none
      (some (dict ((str "version", number written.version) ∷ []))),
  engine,
)
policy_written e a identity (err (value_error message), engine) =
    (err (gateway_error 400 message (str "invalid_request_error")), a, engine)
policy_written e a identity (err x, engine) = (err x, a, engine)

-- `activate_policy`: a KeyError is answered with 404.
unfoldable pub policy_activated :
    Sources
    → AdminStore
    → AdminIdentity
    → ℕ
    → Py RuleSet × PolicyEngine
    → Py Value × AdminStore × PolicyEngine
unfolding record_event ruleset_view
policy_activated e a identity version (ok activated, engine) = (
  ok (ruleset_view activated),
  record_event e a identity (str "policy.activate") (decimal version) none none,
  engine,
)
policy_activated e a identity version (err key_error, engine) =
    (err (gateway_error 404 (str "Policy version not found") (str "not_found")), a, engine)
policy_activated e a identity version (err x, engine) = (err x, a, engine)

-- A route on policies past its guards
unfoldable pub policy_as :
    AdminStore
    → PolicyEngine
    → (AdminIdentity → Py Value × AdminStore × PolicyEngine)
    → Py AdminIdentity
    → Py Value × AdminStore × PolicyEngine
policy_as a engine body (err x) = (err x, a, engine)
policy_as a engine body (ok identity) = body identity

module _ (e : Sources) (a : AdminStore) (engine : PolicyEngine) (authorization : Option Str) where
  -- `create_policy`, of the parsed document
  unfoldable pub create_policy : Value → Py Value × AdminStore × PolicyEngine
  unfolding identify require policy_written policy_as Engine.add_version
  create_policy document =
      policy_as a engine (λ i. policy_written e a i (Engine.add_version engine document))
        (identify e a authorization >>= λ i. require i write_policy >> ok i)

  -- `activate_policy`
  unfoldable pub activate_policy : ℕ → Py Value × AdminStore × PolicyEngine
  unfolding identify require policy_activated policy_as Engine.activate
  activate_policy version =
      policy_as a engine (λ i. policy_activated e a i version (Engine.activate engine version))
        (identify e a authorization >>= λ i. require i write_policy >> ok i)

  -- `get_policies`
  unfoldable pub get_policies : Py Value
  unfolding identify require ruleset_view active_ruleset
  get_policies = do
    identity ← identify e a authorization
    done ← require identity read_policy
    rules ← active_ruleset engine
    ok (ruleset_view rules)

  -- `list_policy_versions`
  unfoldable pub list_policy_versions : Py Value
  unfolding identify require ruleset_view dict items_of Engine.version Engine.versions
  list_policy_versions = do
    identity ← identify e a authorization
    done ← require identity read_policy
    active ← Engine.version engine
    rulesets ← Engine.versions engine
    ok (
        dict (
          (str "active_version", number active)
          ∷ (str "versions", array (items_of (map ruleset_view rulesets)))
          ∷ []))
