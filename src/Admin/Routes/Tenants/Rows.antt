-- ===== src/Admin/Routes/Tenants/Rows.antt =====
-- frostglass/admin/store.py: a statement of one tenant leaves the rows of every other tenant as they are.
use frostglass.Prelude.{
  ℕ, ◌≡◌, refl, ap, sym, ◌∙◌, true, false, ◌&&◌, not, Option, none, some, List, Str, str_eq, ◌==◌,
  filter, and_left, Bool-cases, inl, inr, false≢true,
}
use frostglass.Json.{Value}
use frostglass.Admin.Rbac.{AdminIdentity, Role}
use frostglass.Admin.Store.{
  Sources, AdminStore, SettingsRow, TeamRow, DetectorRow, UserRow, KeyRow, DictionaryRow,
  SuggestionRow, CredentialRow, EventRow,
}
use frostglass.Admin.Store.Access.{
  record_event, event_row, update_found, team_is, team_changed, revoke_key, is_active_key,
  upsert_team, create_user, issue_key,
}
use frostglass.Admin.Store.Config.{
  with_settings, get_settings, default_settings, settings_of, settings_after, update_detector_found,
  detector_is, detector_changed, suggestion_is, resolve_suggestion, create_dictionary,
  set_provider_credential,
}
use frostglass.Admin.Store.Tables.{filter-update, filter-snoc, filter-filter}
use frostglass.Admin.Routes

-- A tenant's part of the store
pub record TenantRows : Type 0 where
  pub users : List UserRow
  pub teams : List TeamRow
  pub api_keys : List KeyRow
  pub detectors : List DetectorRow
  pub dictionaries : List DictionaryRow
  pub suggestions : List SuggestionRow
  pub settings : List SettingsRow
  pub provider_credentials : List CredentialRow
  pub audit_events : List EventRow

-- The rows of a tenant in each table
unfoldable pub rows_of : Str → AdminStore → TenantRows
unfolding filter
rows_of t s = record {
  users = filter (λ row. row.tenant_id == t) s.users;
  teams = filter (λ row. row.tenant_id == t) s.teams;
  api_keys = filter (λ row. row.tenant_id == t) s.api_keys;
  detectors = filter (λ row. row.tenant_id == t) s.detectors;
  dictionaries = filter (λ row. row.tenant_id == t) s.dictionaries;
  suggestions = filter (λ row. row.tenant_id == t) s.suggestions;
  settings = filter (λ row. row.tenant_id == t) s.settings;
  provider_credentials = filter (λ row. row.tenant_id == t) s.provider_credentials;
  audit_events = filter (λ row. row.tenant_id == t) s.audit_events;
}

-- A row of one tenant is not one of another.
other_tenant : (mine t row : Str) → (mine == t) ≡ false → (row == mine) ≡ true → (row == t) ≡ false
other_tenant mine t row other same = rw ((str_eq.beq_iff row mine).0 same) other

module _ (e : Sources) (i : AdminIdentity) (t : Str) (other : (i.tenant_id == t) ≡ false) where
  pub record_event-rows :
      (s : AdminStore) (action target : Str) (before after : Option Value)
      → rows_of t (record_event e s i action target before after) ≡ rows_of t s
  unfolding rows_of record_event
  record_event-rows s action target before after =
      ap (λ r. record (rows_of t s) { audit_events = r })
        (filter-snoc (λ row. row.tenant_id == t) s.audit_events
          (event_row e s i action target before after) other)

  with_settings-rows :
      (s : AdminStore) (found : Option SettingsRow)
      → rows_of t (with_settings s i.tenant_id found).1 ≡ rows_of t s
  unfolding with_settings rows_of default_settings
  with_settings-rows s (some row) = refl
  with_settings-rows s none =
      ap (λ r. record (rows_of t s) { settings = r })
        (filter-snoc (λ row. row.tenant_id == t) s.settings (default_settings i.tenant_id) other)

  pub get_settings-rows : (s : AdminStore) → rows_of t (get_settings s i.tenant_id).1 ≡ rows_of t s
  unfolding get_settings
  get_settings-rows s = with_settings-rows s _

  pub settings_after-rows :
      (change : SettingsRow → SettingsRow)
      → ((row : SettingsRow) → (change row).tenant_id ≡ row.tenant_id)
      → (s : AdminStore) → rows_of t (settings_after i.tenant_id change s).1 ≡ rows_of t s
  unfolding settings_after rows_of
  settings_after-rows change keeps s =
      get_settings-rows _
      ∙ ap (λ r. record (rows_of t s) { settings = r })
          (filter-update (settings_of i.tenant_id) change (λ row. row.tenant_id == t)
            (λ row. other_tenant i.tenant_id t row.tenant_id other)
            (λ row. ap (λ x. x == t) (keeps row)) s.settings)

  pub update_found-rows :
      (s : AdminStore) (team_id : Str) (body : Routes.TeamUpdate) (found : Option TeamRow)
      → rows_of t
          (update_found s i.tenant_id team_id body.shadow_mode body.monthly_budget_cents
            body.rate_limit_rpm body.allowed_models found).1
        ≡ rows_of t s
  unfolding update_found rows_of team_is team_changed
  update_found-rows s team_id body none = refl
  update_found-rows s team_id body (some current) =
      ap (λ r. record (rows_of t s) { teams = r })
        (filter-update (team_is i.tenant_id team_id) _ (λ row. row.tenant_id == t)
          (λ row h. other_tenant i.tenant_id t row.tenant_id other (and_left _ _ h)) (λ row. refl)
          s.teams)

  pub update_detector_found-rows :
      (s : AdminStore) (detector_id : Str) (body : Routes.DetectorPatch)
      (found : Option DetectorRow)
      → rows_of t
          (update_detector_found s i.tenant_id detector_id body.enabled body.min_confidence found).1
        ≡ rows_of t s
  unfolding update_detector_found rows_of detector_is detector_changed
  update_detector_found-rows s detector_id body none = refl
  update_detector_found-rows s detector_id body (some current) =
      ap (λ r. record (rows_of t s) { detectors = r })
        (filter-update (detector_is i.tenant_id detector_id) _ (λ row. row.tenant_id == t)
          (λ row h. other_tenant i.tenant_id t row.tenant_id other (and_left _ _ h)) (λ row. refl)
          s.detectors)

  pub revoke_key-rows :
      (s : AdminStore) (key_id : Str)
      → rows_of t (revoke_key e s i.tenant_id key_id).1 ≡ rows_of t s
  unfolding revoke_key rows_of is_active_key
  revoke_key-rows s key_id =
      ap (λ r. record (rows_of t s) { api_keys = r })
        (filter-update (is_active_key i.tenant_id key_id) _ (λ row. row.tenant_id == t)
          (λ row h. other_tenant i.tenant_id t row.tenant_id other (and_left _ _ (and_left _ _ h)))
          (λ row. refl) s.api_keys)

  pub resolve_suggestion-rows :
      (s : AdminStore) (suggestion_id status : Str)
      → rows_of t (resolve_suggestion e s i.tenant_id suggestion_id status).1 ≡ rows_of t s
  unfolding resolve_suggestion rows_of suggestion_is
  resolve_suggestion-rows s suggestion_id status =
      ap (λ r. record (rows_of t s) { suggestions = r })
        (filter-update (suggestion_is i.tenant_id suggestion_id) _ (λ row. row.tenant_id == t)
          (λ row h. other_tenant i.tenant_id t row.tenant_id other (and_left _ _ h)) (λ row. refl)
          s.suggestions)

  pub upsert_team-rows :
      (s : AdminStore) (body : Routes.TeamCreate)
      → rows_of t
          (upsert_team e s i.tenant_id body.name body.shadow_mode body.monthly_budget_cents
            body.rate_limit_rpm body.allowed_models).1
        ≡ rows_of t s
  unfolding rows_of upsert_team
  upsert_team-rows s body =
      ap (λ r. record (rows_of t s) { teams = r })
        (filter-snoc (λ row. row.tenant_id == t) s.teams _ other)

  pub issue_key-rows :
      (s : AdminStore) (team name : Str)
      → rows_of t (issue_key e s i.tenant_id team name).1 ≡ rows_of t s
  unfolding rows_of issue_key
  issue_key-rows s team name =
      ap (λ r. record (rows_of t s) { api_keys = r })
        (filter-snoc (λ row. row.tenant_id == t) s.api_keys _ other)

  pub create_dictionary-rows :
      (s : AdminStore) (name mode action : Str) (replacement : Option Str) (n : ℕ)
      → rows_of t (create_dictionary e s i.tenant_id name mode action replacement n).1 ≡ rows_of t s
  unfolding rows_of create_dictionary
  create_dictionary-rows s name mode action replacement n =
      ap (λ r. record (rows_of t s) { dictionaries = r })
        (filter-snoc (λ row. row.tenant_id == t) s.dictionaries _ other)

  pub create_user-rows :
      (s : AdminStore) (email name : Str) (role : Role)
      → rows_of t (create_user e s i.tenant_id email name role).1 ≡ rows_of t s
  unfolding rows_of create_user
  create_user-rows s email name role =
      ap (λ r. record (rows_of t s) { users = r })
        (filter-snoc (λ row. row.tenant_id == t) s.users _ other)

  credential-apart :
      (provider : Str) (row : CredentialRow)
      → (row.tenant_id == t) ≡ true
      → not (row.tenant_id == i.tenant_id && row.provider == provider) ≡ true
  credential-apart provider row mine = elim (Bool-cases (row.tenant_id == i.tenant_id)) [
    | inl same ↦
        absurd (false≢true (sym (other_tenant i.tenant_id t row.tenant_id other same) ∙ mine))
    | inr differs ↦ rw differs refl
  ]

  pub credential-rows :
      (s : AdminStore) (provider secret : Str)
      → rows_of t (set_provider_credential e s i.tenant_id provider secret) ≡ rows_of t s
  unfolding set_provider_credential rows_of
  credential-rows s provider secret =
      ap (λ r. record (rows_of t s) { provider_credentials = r })
        (filter-snoc (λ row. row.tenant_id == t) (filter _ s.provider_credentials) _ other
          ∙ filter-filter (λ row. row.tenant_id == t) _ (credential-apart provider)
              s.provider_credentials)
