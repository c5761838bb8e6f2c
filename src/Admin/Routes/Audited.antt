-- ===== src/Admin/Routes/Audited.antt =====
-- frostglass/admin/routes_admin.py: every change that a route makes is in the audit log, under the name of
-- the one who made it.
use frostglass.Prelude.{
  ◌≡◌, ◌⊎◌, inl, inr, refl, ap, ◌∙◌, Bool, true, false, Option, none, some, List, [], ◌∷◌, ◌++◌,
  Str, ok, err, ◌>>=◌, Bool-cases,
}
use frostglass.Errors.{PyError, Py}
use frostglass.Json.{Value}
use frostglass.Admin.Rbac.{AdminIdentity, can, require, Role}
use frostglass.Admin.Store.{
  Sources, AdminStore, SettingsRow, EventRow, TeamRow, DetectorRow, has_row,
}
use frostglass.Admin.Store.Access.{
  team_is, team_changed, get_team, update_team, update_found, is_active_key, event_row,
  record_event, revoke_key,
}
use frostglass.Admin.Store.Config.{
  detector_is, detector_changed, get_detector, update_detector, update_detector_found,
  suggestion_is, resolve_suggestion, get_settings, with_settings, update_settings, SettingsChange,
  settings_after, rotate_vault_key, list_provider_credentials,
}
use frostglass.Admin.Store.Tables.{update_none, fetchone-update}
use frostglass.Admin.Routes

-- The requests that change more than the row of default settings
unfoldable pub is_write : Routes.Request → Bool
is_write Routes.get_teams = false
is_write Routes.get_users = false
is_write Routes.get_keys = false
is_write Routes.get_detectors = false
is_write Routes.get_dictionaries = false
is_write Routes.get_suggestions = false
is_write Routes.get_settings_page = false
is_write Routes.get_events = false
is_write _ = true

-- An event that names the actor, the tenant and the time
abbrev pub IsEventOf : Sources → AdminIdentity → EventRow → Type 0
IsEventOf e i event =
    (event.actor_user_id ≡ i.user_id) × (event.tenant_id ≡ i.tenant_id) × (event.ts ≡ e.now)

module _ (s : AdminStore) where
  -- The call raised and changed nothing.
  abbrev pub Refused : Py Value × AdminStore → Type 0
  Refused result = (x : PyError) × (result ≡ (err x, s))

  -- The call answered and changed at most the table of settings.
  abbrev pub Answered : Py Value × AdminStore → Type 0
  Answered result =
      (v : Value) × (rows : List SettingsRow) × (result ≡ (ok v, record s { settings = rows }))

  -- The call answered and appended one event to the audit log, under the actor's name.
  abbrev pub Logged : Sources → AdminIdentity → Py Value × AdminStore → Type 0
  Logged e i result =
      (v : Value) × (after : AdminStore) × (event : EventRow) × (result ≡ (ok v, after))
      × (after.audit_events ≡ s.audit_events ++ event ∷ [])
      × IsEventOf e i event

  -- What a request past its guards does
  abbrev pub Performed : Sources → AdminIdentity → Bool → Py Value × AdminStore → Type 0
  Performed e i true result = Refused result ⊎ Logged e i result
  Performed e i false result = Refused result ⊎ Answered result

  with_settings-only :
      (tenant_id : Str) (found : Option SettingsRow)
      → (rows : List SettingsRow) × ((with_settings s tenant_id found).1
          ≡ record s { settings = rows })
  unfolding with_settings
  with_settings-only tenant_id none = (_, refl)
  with_settings-only tenant_id (some row) = (s.settings, refl)

  -- Reading the settings changes at most that table.
  pub get_settings-only :
      (tenant_id : Str)
      → (rows : List SettingsRow) × ((get_settings s tenant_id).1 ≡ record s { settings = rows })
  unfolding get_settings
  get_settings-only tenant_id = with_settings-only tenant_id _

pub get_settings-events :
    (s : AdminStore) (tenant_id : Str) → (get_settings s tenant_id).1.audit_events ≡ s.audit_events
get_settings-events s tenant_id = ap (λ t. t.audit_events) (get_settings-only s tenant_id).1

settings_after-events :
    (tenant_id : Str) (change : SettingsRow → SettingsRow) (s : AdminStore)
    → (settings_after tenant_id change s).1.audit_events ≡ s.audit_events
unfolding settings_after
settings_after-events tenant_id change s = get_settings-events _ tenant_id

update_settings-events :
    (s : AdminStore) (tenant_id : Str) (c : SettingsChange)
    → (update_settings s tenant_id c).1.audit_events ≡ s.audit_events
unfolding update_settings
update_settings-events s tenant_id c =
    settings_after-events tenant_id _ _ ∙ get_settings-events s tenant_id

rotate_vault_key-events :
    (s : AdminStore) (tenant_id when : Str)
    → (rotate_vault_key s tenant_id when).1.audit_events ≡ s.audit_events
unfolding rotate_vault_key
rotate_vault_key-events s tenant_id when =
    settings_after-events tenant_id _ _ ∙ get_settings-events s tenant_id

module _ (e : Sources) (s : AdminStore) (i : AdminIdentity) where
  -- An event recorded on a store with the log of `s`
  event-Logged :
      (v : Value) (t : AdminStore) (action target : Str) (before after : Option Value)
      → t.audit_events ≡ s.audit_events
      → Logged s e i (ok v, record_event e t i action target before after)
  unfolding record_event
  event-Logged v t action target before after same =
      let event = event_row e t i action target before after in
      (v, _, event, refl, ap (λ l. l ++ event ∷ []) same, (refl, refl, refl))

  update_team-Logged :
      (team_id : Str) (body : Routes.TeamUpdate) (found : Option TeamRow)
      → get_team s i.tenant_id team_id ≡ found
      → Performed s e i true (Routes.update_team_found e s i team_id body found)
  unfolding Routes.update_team_found Routes.team_updated update_team update_found get_team
  update_team-Logged team_id body none h = inl (_, refl)
  update_team-Logged team_id body (some row) h =
      let there =
        fetchone-update (team_is i.tenant_id team_id)
          (team_changed body.shadow_mode body.monthly_budget_cents body.rate_limit_rpm
            body.allowed_models row)
          (λ x. refl) s.teams row h in
      rw (h, there) (inr (event-Logged _ _ _ _ _ _ refl))

  patch_detector-Logged :
      (detector_id : Str) (body : Routes.DetectorPatch) (found : Option DetectorRow)
      → get_detector s i.tenant_id detector_id ≡ found
      → Performed s e i true (Routes.patch_detector_found e s i detector_id body found)
  unfolding Routes.patch_detector_found Routes.detector_updated update_detector
      update_detector_found get_detector
  patch_detector-Logged detector_id body none h = inl (_, refl)
  patch_detector-Logged detector_id body (some row) h =
      let there =
        fetchone-update (detector_is i.tenant_id detector_id)
          (detector_changed body.enabled body.min_confidence row) (λ x. refl) s.detectors row h in
      rw (h, there) (inr (event-Logged _ _ _ _ _ _ refl))

  create_user-Logged :
      (body : Routes.UserCreate) (role : Option Role)
      → Performed s e i true (Routes.create_user_as e s i body role)
  unfolding Routes.create_user_as
  create_user-Logged body none = inl (_, refl)
  create_user-Logged body (some role) = inr (event-Logged _ _ _ _ _ _ refl)

  revoke_key-Logged :
      (key_id : Str)
      → Performed s e i true (Routes.key_revoked e s i key_id (revoke_key e s i.tenant_id key_id))
  unfolding Routes.key_revoked revoke_key
  revoke_key-Logged key_id =
      elim (Bool-cases (has_row (is_active_key i.tenant_id key_id) s.api_keys)) [
        | inl there ↦ rw there (inr (event-Logged _ _ _ _ _ _ refl))
        | inr absent ↦ rw (absent, update_none _ _ s.api_keys absent) (inl (_, refl))
      ]

  resolve-Logged :
      (event status suggestion_id : Str)
      → Performed s e i true (
          Routes.suggestion_resolved e s i event status suggestion_id
            (resolve_suggestion e s i.tenant_id suggestion_id status))
  unfolding Routes.suggestion_resolved resolve_suggestion
  resolve-Logged event status suggestion_id =
      elim (Bool-cases (has_row (suggestion_is i.tenant_id suggestion_id) s.suggestions)) [
        | inl there ↦ rw there (inr (event-Logged _ _ _ _ _ _ refl))
        | inr absent ↦ rw (absent, update_none _ _ s.suggestions absent) (inl (_, refl))
      ]

  settings_view-Answered : Performed s e i false (Routes.read_settings_view e s i)
  unfolding Routes.read_settings_view
  settings_view-Answered =
      let (rows, only) = get_settings-only s i.tenant_id in
      inr (
        _,
        rows,
        ap
            (λ t. (
              ok (
                  Routes.Views.settings_view (get_settings s i.tenant_id).0
                    (list_provider_credentials (get_settings s i.tenant_id).1 i.tenant_id)),
              t,
            ))
            only,
      )

  pub perform-Performed :
      (request : Routes.Request) → Performed s e i (is_write request) (Routes.perform e s request i)
  unfolding Routes.perform is_write Routes.rotate Routes.create_team Routes.create_key
      Routes.add_dictionary Routes.set_credential Routes.patch_settings
  perform-Performed Routes.get_teams = inr (_, s.settings, refl)
  perform-Performed Routes.get_users = inr (_, s.settings, refl)
  perform-Performed Routes.get_keys = inr (_, s.settings, refl)
  perform-Performed Routes.get_detectors = inr (_, s.settings, refl)
  perform-Performed Routes.get_dictionaries = inr (_, s.settings, refl)
  perform-Performed Routes.get_suggestions = inr (_, s.settings, refl)
  perform-Performed Routes.get_settings_page = settings_view-Answered
  perform-Performed Routes.get_events = inr (_, s.settings, refl)
  perform-Performed Routes.post_vault_rotate =
      inr (event-Logged _ _ _ _ _ _ (rotate_vault_key-events s _ _))
  perform-Performed (Routes.post_team body) = inr (event-Logged _ _ _ _ _ _ refl)
  perform-Performed (Routes.patch_team team_id body) = update_team-Logged team_id body _ refl
  perform-Performed (Routes.post_user body) = create_user-Logged body _
  perform-Performed (Routes.post_key body) = inr (event-Logged _ _ _ _ _ _ refl)
  perform-Performed (Routes.post_key_revoke key_id) = revoke_key-Logged key_id
  perform-Performed (Routes.patch_detector detector_id body) =
      patch_detector-Logged detector_id body _ refl
  perform-Performed (Routes.post_dictionary body) = inr (event-Logged _ _ _ _ _ _ refl)
  perform-Performed (Routes.post_suggestion_apply suggestion_id) = resolve-Logged _ _ suggestion_id
  perform-Performed (Routes.post_suggestion_dismiss suggestion_id) =
      resolve-Logged _ _ suggestion_id
  perform-Performed (Routes.patch_settings_page body) = inr (
      event-Logged _ _ _ _ _ _
        (update_settings-events _ _ body ∙ get_settings-events s i.tenant_id))
  perform-Performed (Routes.post_provider body) = inr (event-Logged _ _ _ _ _ _ refl)

-- What a call does: it is refused, or the caller's role has the permission of the route.
abbrev pub Outcome :
    Sources → AdminStore → Option Str → Routes.Request → Py Value × AdminStore → Type 0
Outcome e s authorization request result =
    Refused s result
    ⊎ ((i : AdminIdentity) × (Routes.identify e s authorization ≡ ok i)
        × (can i (Routes.permission_of request) ≡ true)
        × Performed s e i (is_write request) result)

module _ (e : Sources) (s : AdminStore) (authorization : Option Str)
    (request : Routes.Request) where
  identified-Outcome :
      (identity : Py AdminIdentity)
      → Routes.identify e s authorization ≡ identity
      → Outcome e s authorization request (
          Routes.continue_as s
            (identity >>= Routes.allowed (Routes.permission_of request))
            (Routes.perform e s request))
  unfolding Routes.continue_as Routes.allowed require
  identified-Outcome (err x) h = inl (x, refl)
  identified-Outcome (ok i) h = elim (Bool-cases (can i (Routes.permission_of request))) [
    | inl may ↦ rw may (inr (i, h, may, perform-Performed e s i request))
    | inr may_not ↦ rw may_not (inl (_, refl))
  ]

  -- A call of a route raises and changes nothing; or it is that of an identity whose role has the
  -- route's permission. Then a route that only reads changes at most the settings, where it inserts the
  -- default ones, and a route that writes raises and changes nothing, or answers and appends one event
  -- to the audit log, with the caller's user and tenant and the time.
  pub serve-audited : Outcome e s authorization request (Routes.serve e s authorization request)
  unfolding Routes.serve
  serve-audited = identified-Outcome (Routes.identify e s authorization) refl
