-- ===== src/Admin/Tests.antt =====
-- The permissions' theorems for concrete identities.
use frostglass.Prelude.{◌≡◌, leb, []}
use frostglass.Admin.Rbac.{AdminIdentity, auditor, read_trace, can}
use frostglass.Admin.Rbac.Privilege.{rank, least, can-least}

abbrev an_auditor : AdminIdentity
an_auditor = record { user_id = []; tenant_id = []; team = []; role = auditor }

can-least_example : can an_auditor read_trace ≡ leb (least read_trace) (rank auditor)
can-least_example = can-least an_auditor read_trace
