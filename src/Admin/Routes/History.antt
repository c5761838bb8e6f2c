-- ===== src/Admin/Routes/History.antt =====
-- frostglass/admin/routes_admin.py: calls of the routes one after the other, and the audit log that they
-- leave.
use frostglass.Prelude.{
  ℕ, ◌+◌, ◌≡◌, inl, inr, refl, ap, ap₂, sym, ◌∙◌, Bool, true, false, ◌&&◌, Option, List, [], ◌∷◌,
  ◌++◌, Str, ok, err, length, length-append, append-nil, append_assoc, if◌then◌else◌,
}
use frostglass.Errors.{Py}
use frostglass.Json.{Value}
use frostglass.Admin.Rbac.{AdminIdentity}
use frostglass.Admin.Store.{Sources, AdminStore, EventRow}
use frostglass.Admin.Routes
use frostglass.Admin.Routes.Audited.{Refused, Performed, Outcome, is_write, serve-audited}

-- A call: what it draws from outside, its header and its request
abbrev pub Call : Type 0
Call = Sources × Option Str × Routes.Request

-- The store after calls, one after the other
unfoldable pub replay : AdminStore → List Call → AdminStore
unfolding Routes.serve
replay s [] = s
replay s ((e, authorization, request) ∷ calls) =
    replay (Routes.serve e s authorization request).1 calls

unfoldable pub is_ok : Py Value → Bool
is_ok (ok v) = true
is_ok (err x) = false

-- How many of the calls write and answer
unfoldable pub changes : AdminStore → List Call → ℕ
unfolding Routes.serve is_write is_ok
changes s [] = 0
changes s ((e, authorization, request) ∷ calls) =
    let result = Routes.serve e s authorization request in
    (if is_ok result.0 && is_write request then 1 else 0) + changes result.1 calls

-- The events that one call appends are one if it writes and answers, and none otherwise.
Appends : AdminStore → Bool → Py Value × AdminStore → Type 0
Appends s writes result =
    (new : List EventRow) × (result.1.audit_events ≡ s.audit_events ++ new)
    × (length new ≡ (if is_ok result.0 && writes then 1 else 0))

module _ (s : AdminStore) where
  Refused-Appends :
      (writes : Bool) (result : Py Value × AdminStore) → Refused s result → Appends s writes result
  unfolding Appends is_ok
  Refused-Appends writes result (x, h) = rw h ([], sym (append-nil s.audit_events), refl)

  Performed-Appends :
      (e : Sources) (i : AdminIdentity) (writes : Bool) (result : Py Value × AdminStore)
      → Performed s e i writes result
      → Appends s writes result
  unfolding Appends is_ok
  Performed-Appends e i true result (inl refused) = Refused-Appends true result refused
  Performed-Appends e i true result (inr (v, after, event, h, same, named)) =
      rw h (event ∷ [], same, refl)
  Performed-Appends e i false result (inl refused) = Refused-Appends false result refused
  Performed-Appends e i false result (inr (v, rows, h)) =
      rw h ([], sym (append-nil s.audit_events), refl)

  Outcome-Appends :
      (e : Sources) (authorization : Option Str) (request : Routes.Request)
      (result : Py Value × AdminStore)
      → Outcome e s authorization request result
      → Appends s (is_write request) result
  Outcome-Appends e authorization request result (inl refused) = Refused-Appends _ result refused
  Outcome-Appends e authorization request result (inr (i, h, may, done)) =
      Performed-Appends e i _ result done

-- Whatever calls are made, the audit log is only appended to, and it grows by as many events as there
-- are calls that write and answer.
pub replay-append_only :
    (calls : List Call) (s : AdminStore)
    → (new : List EventRow) × ((replay s calls).audit_events ≡ s.audit_events ++ new)
      × (length new ≡ changes s calls)
unfolding replay changes Appends
replay-append_only [] s = ([], sym (append-nil s.audit_events), refl)
replay-append_only ((e, authorization, request) ∷ calls) s =
    let (here, h, n) =
      Outcome-Appends s e authorization request _ (serve-audited e s authorization request) in
    let (later, k, m) = replay-append_only calls (Routes.serve e s authorization request).1 in
    (
      here ++ later,
      k ∙ ap (λ l. l ++ later) h ∙ append_assoc s.audit_events here later,
      length-append here later ∙ ap₂ ◌+◌ n m,
    )
