-- ===== src/Admin/Routes/Tenants.antt =====
-- frostglass/admin/routes_admin.py: a route leaves the rows of every other tenant as they are.
pub mod Rows
use frostglass.Prelude.{
  ℕ, ◌≡◌, refl, ap, sym, ◌∙◌, Bool, true, false, ◌&&◌, not, Option, none, some, List, Str, str_eq,
  ◌==◌, ok, filter, and_left, Bool-cases, inl, inr, false≢true,
}
use frostglass.Errors.{Py}
use frostglass.Json.{Value}
use frostglass.Admin.Rbac.{AdminIdentity, Role, can, require}
use frostglass.Admin.Store.{
  Sources, AdminStore, SettingsRow, TeamRow, DetectorRow, UserRow, KeyRow, DictionaryRow,
  SuggestionRow, CredentialRow, EventRow,
}
use frostglass.Admin.Store.Access.{
  record_event, event_row, get_team, update_team, update_found, team_is, team_changed, revoke_key,
  is_active_key, upsert_team, create_user, issue_key,
}
use frostglass.Admin.Store.Config.{
  with_settings, get_settings, default_settings, settings_of, settings_after, update_settings,
  rotate_vault_key, settings_changed, get_detector, update_detector, update_detector_found,
  detector_is, detector_changed, suggestion_is, resolve_suggestion, create_dictionary,
  set_provider_credential,
}
use frostglass.Admin.Store.Tables.{filter-update, filter-snoc, filter-filter}
use frostglass.Admin.Routes
use frostglass.Admin.Routes.Tenants.Rows.{
  rows_of, record_event-rows, get_settings-rows, settings_after-rows, update_found-rows,
  update_detector_found-rows, revoke_key-rows, resolve_suggestion-rows, upsert_team-rows,
  issue_key-rows, create_dictionary-rows, create_user-rows, credential-rows,
}

module _ (e : Sources) (i : AdminIdentity) (t : Str) (other : (i.tenant_id == t) ≡ false) where
  -- What a route past its guards leaves of another tenant
  abbrev Keeps : Py Value × AdminStore → AdminStore → Type 0
  Keeps result s = rows_of t result.1 ≡ rows_of t s

  team_updated-Keeps :
      (s : AdminStore) (team_id : Str) (before : TeamRow) (result : Option TeamRow × AdminStore)
      → rows_of t result.1 ≡ rows_of t s
      → Keeps (Routes.team_updated e s i team_id before result) s
  unfolding Routes.team_updated
  team_updated-Keeps s team_id before (none, changed) h = h
  team_updated-Keeps s team_id before (some updated, changed) h =
      record_event-rows e i t other changed _ _ _ _ ∙ h

  update_team-Keeps :
      (s : AdminStore) (team_id : Str) (body : Routes.TeamUpdate) (found : Option TeamRow)
      → Keeps (Routes.update_team_found e s i team_id body found) s
  unfolding Routes.update_team_found update_team
  update_team-Keeps s team_id body none = refl
  update_team-Keeps s team_id body (some row) =
      team_updated-Keeps s team_id row _
        (update_found-rows e i t other s team_id body (get_team s i.tenant_id team_id))

  detector_updated-Keeps :
      (s : AdminStore) (detector_id : Str) (before : DetectorRow)
      (result : Option DetectorRow × AdminStore)
      → rows_of t result.1 ≡ rows_of t s
      → Keeps (Routes.detector_updated e s i detector_id before result) s
  unfolding Routes.detector_updated
  detector_updated-Keeps s detector_id before (none, changed) h = h
  detector_updated-Keeps s detector_id before (some updated, changed) h =
      record_event-rows e i t other changed _ _ _ _ ∙ h

  patch_detector-Keeps :
      (s : AdminStore) (detector_id : Str) (body : Routes.DetectorPatch)
      (found : Option DetectorRow)
      → Keeps (Routes.patch_detector_found e s i detector_id body found) s
  unfolding Routes.patch_detector_found update_detector
  patch_detector-Keeps s detector_id body none = refl
  patch_detector-Keeps s detector_id body (some row) = detector_updated-Keeps s detector_id row _ (
      update_detector_found-rows e i t other s detector_id body
        (get_detector s i.tenant_id detector_id))

  key_revoked-Keeps :
      (s : AdminStore) (key_id : Str) (result : Bool × AdminStore)
      → rows_of t result.1 ≡ rows_of t s
      → Keeps (Routes.key_revoked e s i key_id result) s
  unfolding Routes.key_revoked
  key_revoked-Keeps s key_id (false, changed) h = h
  key_revoked-Keeps s key_id (true, changed) h = record_event-rows e i t other changed _ _ _ _ ∙ h

  resolved-Keeps :
      (s : AdminStore) (event status suggestion_id : Str) (result : Bool × AdminStore)
      → rows_of t result.1 ≡ rows_of t s
      → Keeps (Routes.suggestion_resolved e s i event status suggestion_id result) s
  unfolding Routes.suggestion_resolved
  resolved-Keeps s event status suggestion_id (false, changed) h = h
  resolved-Keeps s event status suggestion_id (true, changed) h =
      record_event-rows e i t other changed _ _ _ _ ∙ h

  create_user-Keeps :
      (s : AdminStore) (body : Routes.UserCreate) (role : Option Role)
      → Keeps (Routes.create_user_as e s i body role) s
  unfolding Routes.create_user_as
  create_user-Keeps s body none = refl
  create_user-Keeps s body (some role) =
      record_event-rows e i t other (create_user e s i.tenant_id body.email body.name role).1 _ _ _
        _
      ∙ create_user-rows e i t other s body.email body.name role

  perform-Keeps :
      (s : AdminStore) (request : Routes.Request) → Keeps (Routes.perform e s request i) s
  unfolding Routes.perform Routes.rotate Routes.create_team Routes.create_key Routes.add_dictionary
      Routes.set_credential Routes.patch_settings rotate_vault_key update_settings settings_changed
  perform-Keeps s Routes.get_teams = refl
  perform-Keeps s Routes.get_users = refl
  perform-Keeps s Routes.get_keys = refl
  perform-Keeps s Routes.get_detectors = refl
  perform-Keeps s Routes.get_dictionaries = refl
  perform-Keeps s Routes.get_suggestions = refl
  perform-Keeps s Routes.get_settings_page = get_settings-rows e i t other s
  perform-Keeps s Routes.get_events = refl
  perform-Keeps s Routes.post_vault_rotate =
      record_event-rows e i t other _ _ _ _ _
      ∙ settings_after-rows e i t other _ (λ row. refl) _
      ∙ get_settings-rows e i t other s
  perform-Keeps s (Routes.post_team body) =
      record_event-rows e i t other _ _ _ _ _ ∙ upsert_team-rows e i t other s body
  perform-Keeps s (Routes.patch_team team_id body) = update_team-Keeps s team_id body _
  perform-Keeps s (Routes.post_user body) = create_user-Keeps s body _
  perform-Keeps s (Routes.post_key body) =
      record_event-rows e i t other _ _ _ _ _ ∙ issue_key-rows e i t other s _ _
  perform-Keeps s (Routes.post_key_revoke key_id) =
      key_revoked-Keeps s key_id _ (revoke_key-rows e i t other s key_id)
  perform-Keeps s (Routes.patch_detector detector_id body) =
      patch_detector-Keeps s detector_id body _
  perform-Keeps s (Routes.post_dictionary body) =
      record_event-rows e i t other _ _ _ _ _ ∙ create_dictionary-rows e i t other s _ _ _ _ _
  perform-Keeps s (Routes.post_suggestion_apply suggestion_id) =
      resolved-Keeps s _ _ suggestion_id _ (resolve_suggestion-rows e i t other s suggestion_id _)
  perform-Keeps s (Routes.post_suggestion_dismiss suggestion_id) =
      resolved-Keeps s _ _ suggestion_id _ (resolve_suggestion-rows e i t other s suggestion_id _)
  perform-Keeps s (Routes.patch_settings_page body) =
      record_event-rows e i t other _ _ _ _ _
      ∙ settings_after-rows e i t other _ (λ row. refl) _
      ∙ get_settings-rows e i t other _
      ∙ get_settings-rows e i t other s
  perform-Keeps s (Routes.post_provider body) =
      record_event-rows e i t other _ _ _ _ _
      ∙ credential-rows e i t other s body.provider body.secret

  identified-Keeps :
      (s : AdminStore) (request : Routes.Request)
      → Keeps
          (Routes.continue_as s
            (Routes.allowed (Routes.permission_of request) i)
            (Routes.perform e s request))
          s
  unfolding Routes.continue_as Routes.allowed require
  identified-Keeps s request = elim (Bool-cases (can i (Routes.permission_of request))) [
    | inl may ↦ rw may (perform-Keeps s request)
    | inr may_not ↦ rw may_not refl
  ]

-- A call of a route by an identity of one tenant, allowed or not, leaves the rows of every other tenant
-- in all nine tables as they are.
pub serve-other_tenant :
    (e : Sources) (s : AdminStore) (authorization : Option Str) (request : Routes.Request)
    (i : AdminIdentity) (t : Str)
    → Routes.identify e s authorization ≡ ok i
    → (i.tenant_id == t) ≡ false
    → rows_of t (Routes.serve e s authorization request).1 ≡ rows_of t s
unfolding Routes.serve
serve-other_tenant e s authorization request i t identified other =
    rw identified (identified-Keeps e i t other s request)
