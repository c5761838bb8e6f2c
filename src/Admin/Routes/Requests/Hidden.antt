-- ===== src/Admin/Routes/Requests/Hidden.antt =====
-- frostglass/admin/routes_admin.py, `get_trace`: what a caller without the permission can tell apart.
use frostglass.Prelude.{◌≡◌, refl, false, Option, none, some, Str, str, ok, err, inl, inr, ◌⊎◌}
use frostglass.Errors.{Py, gateway_error}
use frostglass.Json.{Value}
use frostglass.Admin.Rbac.{AdminIdentity, require, can, read_trace}
use frostglass.Admin.Store.{Sources, AdminStore}
use frostglass.Audit.Models.{RequestRecord}
use frostglass.Audit.Store
use frostglass.Audit.Store.{AuditStore}
use frostglass.Admin.Routes.{identify, scope_team}
use frostglass.Admin.Routes.Requests.{get_trace, trace_of, trace_hidden}

-- The answer is "Request not found", with status 404.
abbrev pub IsNotFound : Py Value → Type 0
IsNotFound result = result ≡ err (gateway_error 404 (str "Request not found") (str "not_found"))

-- The answer is "Insufficient role for this action", with status 403.
abbrev pub IsForbidden : Py Value → Type 0
IsForbidden result =
    result
    ≡ err (gateway_error 403 (str "Insufficient role for this action") (str "permission_error"))

-- The tenant has the request, and the caller's scope has not.
abbrev pub IsElsewhere : AuditStore → AdminIdentity → Str → Type 0
IsElsewhere s i request_id =
    (Store.get_request s i.tenant_id request_id (scope_team i) ≡ none)
    × ((row : RequestRecord) × (Store.get_request s i.tenant_id request_id none ≡ some row))

module _ (s : AuditStore) (i : AdminIdentity) (request_id : Str)
    (may_not : can i read_trace ≡ false) where
  trace_hidden-cases :
      (found : Option RequestRecord)
      → Store.get_request s i.tenant_id request_id none ≡ found
      → Store.get_request s i.tenant_id request_id (scope_team i) ≡ none
      → (IsElsewhere s i request_id × IsNotFound (trace_hidden i found))
        ⊎ ((¬ IsElsewhere s i request_id) × IsForbidden (trace_hidden i found))
  unfolding trace_hidden require
  trace_hidden-cases none h scoped = inr (λ (a, (row, b)). cc, rw may_not refl)
  trace_hidden-cases (some row) h scoped = inl ((scoped, (row, h)), refl)

  trace_of-cases :
      (found : Option RequestRecord)
      → Store.get_request s i.tenant_id request_id (scope_team i) ≡ found
      → (IsElsewhere s i request_id × IsNotFound (trace_of s i request_id found))
        ⊎ ((¬ IsElsewhere s i request_id) × IsForbidden (trace_of s i request_id found))
  unfolding trace_of require
  trace_of-cases none scoped = trace_hidden-cases _ refl scoped
  trace_of-cases (some row) scoped = inr (λ (a, b). cc, rw may_not refl)

-- For a caller without the permission to read traces, a request that the tenant has outside the caller's
-- scope is answered with 404, and any other identifier, in the scope or unknown, with 403.
pub get_trace-distinguishes :
    (e : Sources) (a : AdminStore) (s : AuditStore) (authorization : Option Str) (request_id : Str)
    (i : AdminIdentity)
    → identify e a authorization ≡ ok i
    → can i read_trace ≡ false
    → (IsElsewhere s i request_id × IsNotFound (get_trace e a s authorization request_id))
      ⊎ ((¬ IsElsewhere s i request_id) × IsForbidden (get_trace e a s authorization request_id))
unfolding get_trace
get_trace-distinguishes e a s authorization request_id i identified may_not =
    rw identified (trace_of-cases s i request_id may_not _ refl)
