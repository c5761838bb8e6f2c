-- ===== src/Masking/Models.antt =====
-- frostglass/masking/models.py
use frostglass.Prelude.{◌++◌, Option, none, some, Str, str}
use frostglass.Policy.Models.{Action}

pub data MaskingMode : Type 0 where
  allow pseudonymize tag hash block : MaskingMode

-- `MaskingMode(action)`: the values of the two enumerations have the same spelling.
unfoldable pub mode_of : Action → MaskingMode
mode_of Action.allow = allow
mode_of Action.pseudonymize = pseudonymize
mode_of Action.hash = hash
mode_of Action.tag = tag
mode_of Action.block = block

pub data ConsistencyScope : Type 0 where
  request session tenant : ConsistencyScope

pub record MaskingContext : Type 0 where
  pub tenant_id : Str
  pub request_id : Str
  pub session_id : Option Str
  pub scope : ConsistencyScope

-- The scope's session branch
unfoldable pub session_scope : Str → Str → Option Str → Str
session_scope tenant_id request_id none = str "request:" ++ request_id
session_scope tenant_id request_id (some session_id) =
    str "session:" ++ tenant_id ++ str ":" ++ session_id

unfoldable pub scope_id_of : ConsistencyScope → Str → Str → Option Str → Str
unfolding session_scope
scope_id_of request tenant_id request_id session_id = str "request:" ++ request_id
scope_id_of tenant tenant_id request_id session_id = str "tenant:" ++ tenant_id
scope_id_of session tenant_id request_id session_id = session_scope tenant_id request_id session_id

-- `MaskingContext.scope_id`
unfoldable pub scope_id : MaskingContext → Str
unfolding scope_id_of
scope_id c = scope_id_of c.scope c.tenant_id c.request_id c.session_id

pub record VaultMapping : Type 0 where
  pub value_hash : Str
  pub original : Str
  pub surrogate : Str
  pub entity_type : Str
