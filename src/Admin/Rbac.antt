-- ===== src/Admin/Rbac.antt =====
-- frostglass/admin/rbac.py. A set of permissions is the list of its members.
pub mod Privilege
use frostglass.Prelude.{
  ℕ, ◌≡◌, refl, ◌↔◌, Bool, true, false, ◌||◌, List, [], ◌∷◌, ◌++◌, Str, str, ok, err, Eq, nat_beq,
  nat_beq_iff, contains, if◌then◌else◌,
}
use frostglass.Errors.{Py, gateway_error}

pub data Role : Type 0 where
  viewer auditor admin owner : Role

pub data Permission : Type 0 where
  read_stats read_requests read_trace read_captured_content read_policy write_policy read_detectors
        write_detectors read_dictionaries write_dictionaries read_suggestions write_suggestions
        report_false_positive read_access write_access read_settings write_settings :
      Permission

-- The position of a permission in the enumeration, by which permissions are compared
unfoldable pub ordinal : Permission → ℕ
ordinal read_stats = 0
ordinal read_requests = 1
ordinal read_trace = 2
ordinal read_captured_content = 3
ordinal read_policy = 4
ordinal write_policy = 5
ordinal read_detectors = 6
ordinal write_detectors = 7
ordinal read_dictionaries = 8
ordinal write_dictionaries = 9
ordinal read_suggestions = 10
ordinal write_suggestions = 11
ordinal report_false_positive = 12
ordinal read_access = 13
ordinal write_access = 14
ordinal read_settings = 15
ordinal write_settings = 16

unfoldable pub holds : List Permission → Permission → Bool
unfolding ordinal
holds [] p = false
holds (q ∷ qs) p = nat_beq (ordinal q) (ordinal p) || holds qs p

-- `_READS`
abbrev pub reads : List Permission
reads =
    read_stats ∷ read_requests ∷ read_policy ∷ read_detectors ∷ read_dictionaries ∷ read_suggestions
    ∷ read_access ∷ read_settings ∷ []

abbrev pub all_permissions : List Permission
all_permissions =
    read_stats ∷ read_requests ∷ read_trace ∷ read_captured_content ∷ read_policy ∷ write_policy
    ∷ read_detectors ∷ write_detectors ∷ read_dictionaries ∷ write_dictionaries ∷ read_suggestions
    ∷ write_suggestions ∷ report_false_positive ∷ read_access ∷ write_access ∷ read_settings
    ∷ write_settings ∷ []

-- `_MATRIX[role]`, which `role_permissions` gives
unfoldable pub role_permissions : Role → List Permission
role_permissions viewer = reads
role_permissions auditor = reads ++ read_trace ∷ read_captured_content ∷ report_false_positive ∷ []
role_permissions admin =
    reads
    ++ read_trace ∷ read_captured_content ∷ report_false_positive ∷ write_policy ∷ write_detectors
      ∷ write_dictionaries ∷ write_suggestions ∷ write_settings ∷ []
role_permissions owner = all_permissions

pub record AdminIdentity : Type 0 where
  pub user_id : Str
  pub tenant_id : Str
  pub team : Str
  pub role : Role

unfoldable pub is_tenant_role : Role → Bool
is_tenant_role owner = true
is_tenant_role admin = true
is_tenant_role _ = false

-- the property `tenant_wide`
unfoldable pub tenant_wide : AdminIdentity → Bool
unfolding is_tenant_role
tenant_wide i = is_tenant_role i.role

-- `can`
unfoldable pub can : AdminIdentity → Permission → Bool
unfolding holds role_permissions
can i p = holds (role_permissions i.role) p

-- `require`
unfoldable pub require : AdminIdentity → Permission → Py (Unit {0})
unfolding can
require i p =
    if can i p
    then ok tt
    else err (gateway_error 403 (str "Insufficient role for this action") (str "permission_error"))
