-- ===== src/Admin/Store.antt =====
-- frostglass/admin/store.py: the tables of the admin store. A table is the list of its rows; SQLite's
-- integers for flags are Booleans, and a column of JSON text is the value that it writes. `uuid4` gives new
-- identifiers. Opening the file and SQLite's own failures are not modelled.
pub mod Access
pub mod Config
pub mod Sessions
pub mod Tables
use frostglass.Prelude.{
  ℕ, suc, Bool, true, false, ◌&&◌, ◌||◌, not, Option, none, some, List, [], ◌∷◌, ◌++◌, map, Str,
  str, str_eq, str_leb, ◌==◌, filter, head?, length, leb, if◌then◌else◌,
}
use frostglass.Prelude.Int.{ℤ, pos}
use frostglass.Json.{Value}
use frostglass.Admin.Rbac.{Role, viewer, auditor, admin, owner, AdminIdentity}

-- What a call draws from outside: identifiers, secrets, the clock, and SHA-256 of a text
pub record Sources : Type 0 where
  pub uuid4_hex : ℕ → Str
  pub token_urlsafe : ℕ → Str
  pub now : Str
  pub sha256_hexdigest : Str → Str

pub record SessionRow : Type 0 where
  pub token_hash : Str
  pub user_id : Str
  pub tenant_id : Str
  pub team : Str
  pub role : Str

pub record UserRow : Type 0 where
  pub id : Str
  pub tenant_id : Str
  pub email : Str
  pub name : Str
  pub role : Str
  pub created_at : Str
  pub disabled_at : Option Str

pub record TeamRow : Type 0 where
  pub id : Str
  pub tenant_id : Str
  pub name : Str
  pub shadow_mode : Bool
  pub monthly_budget_cents : ℤ
  pub rate_limit_rpm : ℤ
  pub allowed_models : List Str
  pub content_capture_enabled : Bool

pub record KeyRow : Type 0 where
  pub id : Str
  pub tenant_id : Str
  pub team : Str
  pub user_id : Option Str
  pub key_prefix : Str
  pub key_hash : Str
  pub name : Str
  pub created_at : Str
  pub revoked_at : Option Str

pub record DetectorRow : Type 0 where
  pub id : Str
  pub tenant_id : Str
  pub name : Str
  pub kind : Str
  pub enabled : Bool
  pub min_confidence : ℕ

pub record DictionaryRow : Type 0 where
  pub id : Str
  pub tenant_id : Str
  pub name : Str
  pub match_mode : Str
  pub action : Str
  pub replacement : Option Str
  pub term_count : ℕ
  pub updated_at : Str

pub record SuggestionRow : Type 0 where
  pub id : Str
  pub tenant_id : Str
  pub kind : Str
  pub evidence_json : Value
  pub proposed_rule_json : Value
  pub status : Str
  pub created_at : Str
  pub resolved_at : Option Str

pub record SettingsRow : Type 0 where
  pub tenant_id : Str
  pub audit_retention_days : ℕ
  pub capture_retention_days : ℕ
  pub content_capture_enabled : Bool
  pub sso_enabled : Bool
  pub sso_provider : Option Str
  pub sso_client_id : Option Str
  pub vault_key_rotated_at : Option Str

pub record CredentialRow : Type 0 where
  pub tenant_id : Str
  pub provider : Str
  pub key_last4 : Str
  pub key_hash : Str
  pub updated_at : Str

pub record EventRow : Type 0 where
  pub id : Str
  pub tenant_id : Str
  pub actor_user_id : Str
  pub action : Str
  pub target : Str
  pub before_json : Option Value
  pub after_json : Option Value
  pub ts : Str

-- `drawn` counts the identifiers that have been drawn.
pub record AdminStore : Type 0 where
  pub admin_sessions : List SessionRow
  pub users : List UserRow
  pub teams : List TeamRow
  pub api_keys : List KeyRow
  pub detectors : List DetectorRow
  pub dictionaries : List DictionaryRow
  pub suggestions : List SuggestionRow
  pub settings : List SettingsRow
  pub provider_credentials : List CredentialRow
  pub audit_events : List EventRow
  pub drawn : ℕ

abbrev pub new_admin_store : AdminStore
new_admin_store = record {
  admin_sessions = [];
  users = [];
  teams = [];
  api_keys = [];
  detectors = [];
  dictionaries = [];
  suggestions = [];
  settings = [];
  provider_credentials = [];
  audit_events = [];
  drawn = 0;
}

module _ {ℓ} {A : Type ℓ} where
  -- `SELECT * ... WHERE`, its first row
  unfoldable pub fetchone : (A → Bool) → List A → Option A
  unfolding filter
  fetchone condition rows = head? (filter condition rows)

  -- `UPDATE ... SET ... WHERE`
  unfoldable pub update : (A → Bool) → (A → A) → List A → List A
  update condition change rows = map (λ row. if condition row then change row else row) rows

  -- `rowcount > 0` after it
  unfoldable pub has_row : (A → Bool) → List A → Bool
  unfolding filter
  has_row condition rows = leb 1 (length (filter condition rows))

-- `value if given is None else given`
abbrev pub or_current {ℓ} : {A : Type ℓ} → Option A → A → A
or_current none current = current
or_current (some given) current = given

-- `str(role)`
unfoldable pub role_text : Role → Str
role_text viewer = str "viewer"
role_text auditor = str "auditor"
role_text admin = str "admin"
role_text owner = str "owner"

-- `Role(text)`, where it does not raise
unfoldable pub role_named : Str → Option Role
role_named s =
    if s == str "viewer"
    then some viewer
    else if s == str "auditor"
    then some auditor
    else if s == str "admin"
    then some admin
    else if s == str "owner"
    then some owner
    else none

-- The order of two keys, the first one first
unfoldable pub by_two : Str → Str → Str → Str → Bool
by_two a b c d = not (str_leb c a) || (a == c && str_leb b d)
