-- ===== src/Admin/Rbac/Privilege.antt =====
-- The roles in increasing order of privilege.
use frostglass.Prelude.{All, leb, ℕ, ◌≡◌, ◌≤◌, refl, sym, ◌∙◌, true, List, [], ◌∷◌, ok, arith}
use frostglass.Admin.Rbac.{
  Role, viewer, auditor, admin, owner, Permission, read_stats, read_requests, read_trace,
  read_captured_content, read_policy, write_policy, read_detectors, write_detectors,
  read_dictionaries, write_dictionaries, read_suggestions, write_suggestions, report_false_positive,
  read_access, write_access, read_settings, write_settings, role_permissions, holds, AdminIdentity,
  can, require,
}

unfoldable pub rank : Role → ℕ
rank viewer = 0
rank auditor = 1
rank admin = 2
rank owner = 3

-- The least rank of a role with the permission.
unfoldable pub least : Permission → ℕ
least read_trace = 1
least read_captured_content = 1
least report_false_positive = 1
least write_policy = 2
least write_detectors = 2
least write_dictionaries = 2
least write_suggestions = 2
least write_settings = 2
least write_access = 3
least _ = 0

abbrev roles : List Role
roles = viewer ∷ auditor ∷ admin ∷ owner ∷ []

table : (p : Permission) → All (λ r. holds (role_permissions r) p ≡ leb (least p) (rank r)) roles
unfolding holds role_permissions least rank
table read_stats = (refl, (refl, (refl, (refl, tt))))
table read_requests = (refl, (refl, (refl, (refl, tt))))
table read_trace = (refl, (refl, (refl, (refl, tt))))
table read_captured_content = (refl, (refl, (refl, (refl, tt))))
table read_policy = (refl, (refl, (refl, (refl, tt))))
table write_policy = (refl, (refl, (refl, (refl, tt))))
table read_detectors = (refl, (refl, (refl, (refl, tt))))
table write_detectors = (refl, (refl, (refl, (refl, tt))))
table read_dictionaries = (refl, (refl, (refl, (refl, tt))))
table write_dictionaries = (refl, (refl, (refl, (refl, tt))))
table read_suggestions = (refl, (refl, (refl, (refl, tt))))
table write_suggestions = (refl, (refl, (refl, (refl, tt))))
table report_false_positive = (refl, (refl, (refl, (refl, tt))))
table read_access = (refl, (refl, (refl, (refl, tt))))
table write_access = (refl, (refl, (refl, (refl, tt))))
table read_settings = (refl, (refl, (refl, (refl, tt))))
table write_settings = (refl, (refl, (refl, (refl, tt))))

-- A permission is granted to exactly the roles whose rank is its least rank or above.
pub can-least : (i : AdminIdentity) (p : Permission) → can i p ≡ leb (least p) (rank i.role)
unfolding can
can-least i p = by_role i.role p
  where
    by_role : (r : Role) (p : Permission) → holds (role_permissions r) p ≡ leb (least p) (rank r)
    by_role viewer p = (table p).0
    by_role auditor p = (table p).1.0
    by_role admin p = (table p).1.1.0
    by_role owner p = (table p).1.1.1.0

require-can : (i : AdminIdentity) (p : Permission) → require i p ≡ ok tt → can i p ≡ true
unfolding require
require-can i p h = ground arith

can-require : (i : AdminIdentity) (p : Permission) → can i p ≡ true → require i p ≡ ok tt
unfolding require
can-require i p h = rw h refl

-- What one identity may do, any identity of the same or a higher rank may do.
require-rank :
    (i j : AdminIdentity) (p : Permission)
    → rank i.role ≤ rank j.role
    → require i p ≡ ok tt
    → require j p ≡ ok tt
require-rank i j p le h =
    let mine : leb (least p) (rank i.role) ≡ true = sym (can-least i p) ∙ require-can i p h in
    can-require j p (can-least j p ∙ ground arith)
