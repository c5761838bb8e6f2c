-- ===== src/Admin/Routes.antt =====
-- frostglass/admin/routes_admin.py: the routes that act on the admin store. A body is what pydantic has
-- accepted. A route gives its answer, or the exception, and the store after the call.
pub mod Statistics
pub mod Views
pub mod Requests
pub mod Audited
pub mod History
pub mod Tenants
mod Tests
use frostglass.Prelude.{
  ℕ, Bool, true, false, not, Option, none, some, List, [], ◌∷◌, Str, str, str_eq, ◌==◌, length, map,
  ok, err, ◌>>=◌, ◌>>◌, if◌then◌else◌,
}
use frostglass.Prelude.Int.{ℤ}
use frostglass.Prelude.Strings.{starts_with, remove_prefix}
use frostglass.Errors.{Py, gateway_error, type_error}
use frostglass.Json.{Value, text, boolean, integer, array}
use frostglass.Admin.Rbac.{
  Role, AdminIdentity, tenant_wide, Permission, require, read_access, write_access, read_detectors,
  write_detectors, read_dictionaries, write_dictionaries, read_suggestions, write_suggestions,
  read_settings, write_settings,
}
use frostglass.Admin.Store.{Sources, AdminStore, TeamRow, DetectorRow, role_named}
use frostglass.Admin.Store.Access.{
  resolve_session, record_event, upsert_team, update_team, get_team, list_teams, create_user,
  list_users, issue_key, revoke_key, list_keys, list_events,
}
use frostglass.Admin.Store.Config.{
  list_detectors, get_detector, update_detector, create_dictionary, list_dictionaries,
  list_suggestions, resolve_suggestion, get_settings, update_settings, rotate_vault_key,
  set_provider_credential, list_provider_credentials, SettingsChange, last_four,
}
use Views.{
  dict, listed, number, or_null, team_view, settings_view, settings_dict, user_dict, key_dict,
  detector_dict, dictionary_dict, suggestion_dict, event_dict, items_of,
}

pub record TeamCreate : Type 0 where
  pub name : Str
  pub shadow_mode : Bool
  pub monthly_budget_cents : ℤ
  pub rate_limit_rpm : ℤ
  pub allowed_models : List Str

pub record TeamUpdate : Type 0 where
  pub shadow_mode : Option Bool
  pub monthly_budget_cents : Option ℤ
  pub rate_limit_rpm : Option ℤ
  pub allowed_models : Option (List Str)

pub record UserCreate : Type 0 where
  pub email : Str
  pub name : Str
  pub role : Str

pub record KeyCreate : Type 0 where
  pub team : Str
  pub name : Str

pub record DetectorPatch : Type 0 where
  pub enabled : Option Bool
  pub min_confidence : Option ℕ

pub record DictionaryCreate : Type 0 where
  pub name : Str
  pub match_mode : Str
  pub action : Str
  pub replacement : Option Str
  pub terms : List Str

pub record ProviderCredentialSet : Type 0 where
  pub provider : Str
  pub secret : Str

-- The end of `identify`
unfoldable pub identified : Option AdminIdentity → Py AdminIdentity
identified none = err (gateway_error 401 (str "Invalid admin session") (str "authentication_error"))
identified (some identity) = ok identity

-- `identify`
unfoldable pub identify : Sources → AdminStore → Option Str → Py AdminIdentity
unfolding identified resolve_session
identify e s none =
    err (gateway_error 401 (str "Admin session required") (str "authentication_error"))
identify e s (some authorization) =
    if starts_with (str "Bearer ") authorization
    then (resolve_session e s (remove_prefix authorization (str "Bearer ")) >>= identified)
    else err (gateway_error 401 (str "Admin session required") (str "authentication_error"))

-- `scope_team`
unfoldable pub scope_team : AdminIdentity → Option Str
unfolding tenant_wide
scope_team identity = if tenant_wide identity then none else some identity.team

-- `identity.require(permission)`, and the identity
unfoldable pub allowed : Permission → AdminIdentity → Py AdminIdentity
unfolding require
allowed permission identity = require identity permission >> ok identity

-- What follows the two guards of a route
unfoldable pub continue_as :
    AdminStore → Py AdminIdentity → (AdminIdentity → Py Value × AdminStore) → Py Value × AdminStore
continue_as s (err e) body = (err e, s)
continue_as s (ok identity) body = body identity

-- `POST /teams`, past its guards; the routes below alike
module _ (e : Sources) (s : AdminStore) (i : AdminIdentity) where
  unfoldable pub team_create_value : TeamCreate → Value
  unfolding dict items_of
  team_create_value body = dict (
      (str "name", text body.name)
      ∷ (str "shadow_mode", boolean body.shadow_mode)
      ∷ (str "monthly_budget_cents", integer body.monthly_budget_cents)
      ∷ (str "rate_limit_rpm", integer body.rate_limit_rpm)
      ∷ (str "allowed_models", array (items_of (map text body.allowed_models)))
      ∷ [])

  -- `create_team`
  unfoldable pub create_team : TeamCreate → Py Value × AdminStore
  unfolding upsert_team record_event team_create_value dict
  create_team body =
      let made =
        upsert_team e s i.tenant_id body.name body.shadow_mode body.monthly_budget_cents
          body.rate_limit_rpm body.allowed_models in
      (
        ok (dict ((str "id", text made.0) ∷ [])),
        record_event e made.1 i (str "team.create") made.0 none (some (team_create_value body)),
      )

  -- The end of `update_team`; `_team_view(None)` raises.
  unfoldable pub team_updated : Str → TeamRow → Option TeamRow × AdminStore → Py Value × AdminStore
  unfolding record_event team_view
  team_updated team_id before (none, changed) =
      (err (type_error (str "'NoneType' object is not subscriptable")), changed)
  team_updated team_id before (some updated, changed) = (
    ok (team_view updated),
    record_event e changed i (str "team.update") team_id (some (team_view before))
        (some (team_view updated)),
  )

  -- `update_team`
  unfoldable pub update_team_found : Str → TeamUpdate → Option TeamRow → Py Value × AdminStore
  unfolding team_updated update_team
  update_team_found team_id body none =
      (err (gateway_error 404 (str "Team not found") (str "not_found")), s)
  update_team_found team_id body (some before) = team_updated team_id before (
      update_team s i.tenant_id team_id body.shadow_mode body.monthly_budget_cents
        body.rate_limit_rpm body.allowed_models)

  -- `create_user`
  unfoldable pub create_user_as : UserCreate → Option Role → Py Value × AdminStore
  unfolding create_user record_event dict
  create_user_as body none =
      (err (gateway_error 400 (str "Unknown role") (str "invalid_request_error")), s)
  create_user_as body (some role) =
      let made = create_user e s i.tenant_id body.email body.name role in
      (
        ok (dict ((str "id", text made.0) ∷ [])),
        record_event e made.1 i (str "user.create") made.0 none
            (some (dict ((str "email", text body.email) ∷ (str "role", text body.role) ∷ []))),
      )

  -- `create_key`
  unfoldable pub create_key : KeyCreate → Py Value × AdminStore
  unfolding issue_key record_event dict
  create_key body =
      let issued = issue_key e s i.tenant_id body.team body.name in
      (
        ok (
            dict (
              (str "id", text issued.0.id)
              ∷ (str "key", text issued.0.full_key)
              ∷ (str "key_prefix", text issued.0.key_prefix)
              ∷ [])),
        record_event e issued.1 i (str "key.issue") issued.0.id none (
            some (
              dict ((str "team", text body.team) ∷ (str "prefix", text issued.0.key_prefix) ∷ []))),
      )

  -- `revoke_key`, from the result of the store
  unfoldable pub key_revoked : Str → Bool × AdminStore → Py Value × AdminStore
  unfolding record_event dict
  key_revoked key_id (false, changed) =
      (err (gateway_error 404 (str "Key not found") (str "not_found")), changed)
  key_revoked key_id (true, changed) = (
    ok (dict ((str "id", text key_id) ∷ (str "revoked", boolean true) ∷ [])),
    record_event e changed i (str "key.revoke") key_id none none,
  )

  -- `patch_detector`; `dict(None)` raises.
  unfoldable pub detector_updated :
      Str → DetectorRow → Option DetectorRow × AdminStore → Py Value × AdminStore
  unfolding record_event detector_dict
  detector_updated detector_id before (none, changed) =
      (err (type_error (str "'NoneType' object is not iterable")), changed)
  detector_updated detector_id before (some updated, changed) = (
    ok (detector_dict updated),
    record_event e changed i (str "detector.update") detector_id (some (detector_dict before))
        (some (detector_dict updated)),
  )

  unfoldable pub patch_detector_found :
      Str → DetectorPatch → Option DetectorRow → Py Value × AdminStore
  unfolding detector_updated update_detector
  patch_detector_found detector_id body none =
      (err (gateway_error 404 (str "Detector not found") (str "not_found")), s)
  patch_detector_found detector_id body (some before) =
      detector_updated detector_id before
        (update_detector s i.tenant_id detector_id body.enabled body.min_confidence)

  -- `create_dictionary`
  unfoldable pub add_dictionary : DictionaryCreate → Py Value × AdminStore
  unfolding create_dictionary record_event dict
  add_dictionary body =
      let made =
        create_dictionary e s i.tenant_id body.name body.match_mode body.action body.replacement
          (length body.terms) in
      (
        ok (dict ((str "id", text made.0) ∷ (str "term_count", number (length body.terms)) ∷ [])),
        record_event e made.1 i (str "dictionary.create") made.0 none
            (some (dict ((str "name", text body.name) ∷ []))),
      )

  -- `apply_suggestion` and `dismiss_suggestion`, by the event and the status
  unfoldable pub suggestion_resolved : Str → Str → Str → Bool × AdminStore → Py Value × AdminStore
  unfolding record_event dict
  suggestion_resolved event status suggestion_id (false, changed) =
      (err (gateway_error 404 (str "Suggestion not found") (str "not_found")), changed)
  suggestion_resolved event status suggestion_id (true, changed) = (
    ok (dict ((str "id", text suggestion_id) ∷ (str "status", text status) ∷ [])),
    record_event e changed i event suggestion_id none none,
  )

  -- `patch_settings`
  unfoldable pub patch_settings : SettingsChange → Py Value × AdminStore
  unfolding get_settings update_settings record_event settings_view settings_dict
      list_provider_credentials
  patch_settings body =
      let before = get_settings s i.tenant_id in
      let updated = update_settings before.1 i.tenant_id body in
      let recorded =
        record_event e updated.1 i (str "settings.update") i.tenant_id
          (some (settings_dict before.0)) (some (settings_dict updated.0)) in
      (ok (settings_view updated.0 (list_provider_credentials recorded i.tenant_id)), recorded)

  -- `set_provider_credential`
  unfoldable pub set_credential : ProviderCredentialSet → Py Value × AdminStore
  unfolding set_provider_credential record_event dict last_four
  set_credential body = (
    ok (
        dict (
          (str "provider", text body.provider)
          ∷ (str "key_last4", text (last_four body.secret))
          ∷ (str "stored", boolean true)
          ∷ [])),
    record_event e (set_provider_credential e s i.tenant_id body.provider body.secret) i
        (str "settings.provider_credential") body.provider none
        (some (dict ((str "provider", text body.provider) ∷ []))),
  )

  -- `rotate_vault_key`
  unfoldable pub rotate : Py Value × AdminStore
  unfolding rotate_vault_key record_event dict
  rotate =
      let updated = rotate_vault_key s i.tenant_id e.now in
      (
        ok (dict ((str "vault_key_rotated_at", or_null text updated.0.vault_key_rotated_at) ∷ [])),
        record_event e updated.1 i (str "settings.vault_rotate") i.tenant_id none none,
      )

  -- `get_settings`
  unfoldable pub read_settings_view : Py Value × AdminStore
  unfolding get_settings settings_view list_provider_credentials
  read_settings_view =
      let row = get_settings s i.tenant_id in
      (ok (settings_view row.0 (list_provider_credentials row.1 i.tenant_id)), row.1)

-- The requests to these routes
pub data Request : Type 0 where
  get_teams get_users get_keys get_detectors get_dictionaries get_suggestions : Request
  get_settings_page get_events post_vault_rotate : Request
  post_team : TeamCreate → Request
  patch_team : Str → TeamUpdate → Request
  post_user : UserCreate → Request
  post_key : KeyCreate → Request
  post_key_revoke : Str → Request
  patch_detector : Str → DetectorPatch → Request
  post_dictionary : DictionaryCreate → Request
  post_suggestion_apply : Str → Request
  post_suggestion_dismiss : Str → Request
  patch_settings_page : SettingsChange → Request
  post_provider : ProviderCredentialSet → Request

-- The permission that each route requires
unfoldable pub permission_of : Request → Permission
permission_of get_teams = read_access
permission_of get_users = read_access
permission_of get_keys = read_access
permission_of get_detectors = read_detectors
permission_of get_dictionaries = read_dictionaries
permission_of get_suggestions = read_suggestions
permission_of get_settings_page = read_settings
permission_of get_events = read_access
permission_of post_vault_rotate = write_settings
permission_of (post_team body) = write_access
permission_of (patch_team team_id body) = write_access
permission_of (post_user body) = write_access
permission_of (post_key body) = write_access
permission_of (post_key_revoke key_id) = write_access
permission_of (patch_detector detector_id body) = write_detectors
permission_of (post_dictionary body) = write_dictionaries
permission_of (post_suggestion_apply suggestion_id) = write_suggestions
permission_of (post_suggestion_dismiss suggestion_id) = write_suggestions
permission_of (patch_settings_page body) = write_settings
permission_of (post_provider body) = write_settings

-- What a route does past its guards
unfoldable pub perform : Sources → AdminStore → Request → AdminIdentity → Py Value × AdminStore
unfolding listed team_view user_dict key_dict detector_dict dictionary_dict suggestion_dict
    event_dict list_teams list_users list_keys list_detectors list_dictionaries list_suggestions
    list_events read_settings_view rotate create_team update_team_found get_team create_user_as
    role_named create_key key_revoked revoke_key patch_detector_found get_detector add_dictionary
    suggestion_resolved resolve_suggestion patch_settings set_credential
perform e s get_teams i = (ok (listed team_view (list_teams s i.tenant_id)), s)
perform e s get_users i = (ok (listed user_dict (list_users s i.tenant_id)), s)
perform e s get_keys i = (ok (listed key_dict (list_keys s i.tenant_id)), s)
perform e s get_detectors i = (ok (listed detector_dict (list_detectors s i.tenant_id)), s)
perform e s get_dictionaries i = (ok (listed dictionary_dict (list_dictionaries s i.tenant_id)), s)
perform e s get_suggestions i = (ok (listed suggestion_dict (list_suggestions s i.tenant_id)), s)
perform e s get_settings_page i = read_settings_view e s i
perform e s get_events i = (ok (listed event_dict (list_events s i.tenant_id)), s)
perform e s post_vault_rotate i = rotate e s i
perform e s (post_team body) i = create_team e s i body
perform e s (patch_team team_id body) i =
    update_team_found e s i team_id body (get_team s i.tenant_id team_id)
perform e s (post_user body) i = create_user_as e s i body (role_named body.role)
perform e s (post_key body) i = create_key e s i body
perform e s (post_key_revoke key_id) i =
    key_revoked e s i key_id (revoke_key e s i.tenant_id key_id)
perform e s (patch_detector detector_id body) i =
    patch_detector_found e s i detector_id body (get_detector s i.tenant_id detector_id)
perform e s (post_dictionary body) i = add_dictionary e s i body
perform e s (post_suggestion_apply suggestion_id) i =
    suggestion_resolved e s i (str "suggestion.apply") (str "applied") suggestion_id
      (resolve_suggestion e s i.tenant_id suggestion_id (str "applied"))
perform e s (post_suggestion_dismiss suggestion_id) i =
    suggestion_resolved e s i (str "suggestion.dismiss") (str "dismissed") suggestion_id
      (resolve_suggestion e s i.tenant_id suggestion_id (str "dismissed"))
perform e s (patch_settings_page body) i = patch_settings e s i body
perform e s (post_provider body) i = set_credential e s i body

-- A call of a route
unfoldable pub serve : Sources → AdminStore → Option Str → Request → Py Value × AdminStore
unfolding identify allowed continue_as perform permission_of
serve e s authorization request =
    continue_as s (identify e s authorization >>= allowed (permission_of request))
      (perform e s request)
