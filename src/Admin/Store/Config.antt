-- ===== src/Admin/Store/Config.antt =====
-- frostglass/admin/store.py: detectors, dictionaries, suggestions, settings and provider credentials.
use frostglass.Prelude.{
  ℕ, suc, ◌-◌, Bool, true, false, ◌&&◌, Option, none, some, List, [], ◌∷◌, ◌++◌, map, Str, str,
  str_eq, ◌==◌, filter, drop, length, not, str_leb,
}
use frostglass.Prelude.Sort.{sorted_by}
use frostglass.Json.{Value}
use frostglass.Admin.Store.{
  Sources, AdminStore, DetectorRow, DictionaryRow, SuggestionRow, SettingsRow, CredentialRow,
  fetchone, update, has_row, or_current, by_two,
}

unfoldable pub detector_is : Str → Str → DetectorRow → Bool
detector_is tenant_id detector_id row = row.tenant_id == tenant_id && row.id == detector_id

unfoldable pub suggestion_is : Str → Str → SuggestionRow → Bool
suggestion_is tenant_id suggestion_id row = row.tenant_id == tenant_id && row.id == suggestion_id

unfoldable pub settings_of : Str → SettingsRow → Bool
settings_of tenant_id row = row.tenant_id == tenant_id

-- The defaults of a row of `settings`
unfoldable pub default_settings : Str → SettingsRow
default_settings tenant_id = record {
  tenant_id = tenant_id;
  audit_retention_days = 90;
  capture_retention_days = 7;
  content_capture_enabled = false;
  sso_enabled = false;
  sso_provider = none;
  sso_client_id = none;
  vault_key_rotated_at = none;
}

-- A row of `provider_credentials` as it is listed, without its hash
pub record CredentialView : Type 0 where
  pub provider : Str
  pub key_last4 : Str
  pub updated_at : Str

unfoldable pub credential_view : CredentialRow → CredentialView
credential_view row = record {
  provider = row.provider;
  key_last4 = row.key_last4;
  updated_at = row.updated_at;
}

module _ (s : AdminStore) where
  -- `list_detectors`
  unfoldable pub list_detectors : Str → List DetectorRow
  unfolding filter by_two
  list_detectors tenant_id =
      sorted_by (λ x y. by_two x.name x.id y.name y.id)
        (filter (λ row. row.tenant_id == tenant_id) s.detectors)

  -- `get_detector`
  unfoldable pub get_detector : Str → Str → Option DetectorRow
  unfolding fetchone detector_is
  get_detector tenant_id detector_id = fetchone (detector_is tenant_id detector_id) s.detectors

  -- `list_dictionaries`
  unfoldable pub list_dictionaries : Str → List DictionaryRow
  unfolding filter by_two
  list_dictionaries tenant_id =
      sorted_by (λ x y. by_two x.name x.id y.name y.id)
        (filter (λ row. row.tenant_id == tenant_id) s.dictionaries)

  -- `list_suggestions`
  unfoldable pub list_suggestions : Str → List SuggestionRow
  unfolding filter by_two
  list_suggestions tenant_id =
      sorted_by (λ x y. by_two y.created_at y.id x.created_at x.id)
        (filter (λ row. row.tenant_id == tenant_id) s.suggestions)

  -- `list_provider_credentials`
  unfoldable pub list_provider_credentials : Str → List CredentialView
  unfolding filter credential_view
  list_provider_credentials tenant_id = map credential_view (
      sorted_by (λ x y. str_leb x.provider y.provider)
        (filter (λ row. row.tenant_id == tenant_id) s.provider_credentials))

  -- The row that `get_settings` reads, inserted if it was not there
  unfoldable pub with_settings : Str → Option SettingsRow → SettingsRow × AdminStore
  unfolding default_settings
  with_settings tenant_id (some row) = (row, s)
  with_settings tenant_id none = (
    default_settings tenant_id,
    record s { settings = s.settings ++ default_settings tenant_id ∷ [] },
  )

  -- `get_settings`
  unfoldable pub get_settings : Str → SettingsRow × AdminStore
  unfolding with_settings fetchone settings_of
  get_settings tenant_id = with_settings tenant_id (fetchone (settings_of tenant_id) s.settings)

-- The keyword arguments of `update_settings`
pub record SettingsChange : Type 0 where
  pub audit_retention_days : Option ℕ
  pub capture_retention_days : Option ℕ
  pub content_capture_enabled : Option Bool
  pub sso_enabled : Option Bool
  pub sso_provider : Option Str
  pub sso_client_id : Option Str

-- The values that `update_settings` writes
unfoldable pub settings_changed : SettingsChange → SettingsRow → SettingsRow → SettingsRow
settings_changed c current row = record row {
  audit_retention_days = or_current c.audit_retention_days current.audit_retention_days;
  capture_retention_days = or_current c.capture_retention_days current.capture_retention_days;
  content_capture_enabled = or_current c.content_capture_enabled current.content_capture_enabled;
  sso_enabled = or_current c.sso_enabled current.sso_enabled;
  sso_provider = elim c.sso_provider [ none ↦ current.sso_provider | some p ↦ some p ];
  sso_client_id = elim c.sso_client_id [ none ↦ current.sso_client_id | some p ↦ some p ];
}

-- The values that `update_detector` writes
unfoldable pub detector_changed : Option Bool → Option ℕ → DetectorRow → DetectorRow → DetectorRow
detector_changed enabled min_confidence current row = record row {
  enabled = or_current enabled current.enabled;
  min_confidence = or_current min_confidence current.min_confidence;
}

-- `update_detector`, from the row that is there
unfoldable pub update_detector_found :
    AdminStore
    → Str
    → Str
    → Option Bool
    → Option ℕ
    → Option DetectorRow
    → Option DetectorRow × AdminStore
unfolding update detector_is detector_changed get_detector
update_detector_found s tenant_id detector_id enabled min_confidence none = (none, s)
update_detector_found s tenant_id detector_id enabled min_confidence (some current) =
    let changed = record s {
      detectors =
          update (detector_is tenant_id detector_id)
            (detector_changed enabled min_confidence current) s.detectors;
    } in
    (get_detector changed tenant_id detector_id, changed)

-- `update_detector`
unfoldable pub update_detector :
    AdminStore → Str → Str → Option Bool → Option ℕ → Option DetectorRow × AdminStore
unfolding update_detector_found get_detector
update_detector s tenant_id detector_id enabled min_confidence =
    update_detector_found s tenant_id detector_id enabled min_confidence
      (get_detector s tenant_id detector_id)

-- `secret[-4:]`
unfoldable pub last_four : Str → Str
last_four secret = drop (length secret - 4) secret

module _ (e : Sources) (s : AdminStore) where
  -- `seed_detector`; the other columns have their defaults
  unfoldable pub seed_detector : Str → Str → Str → Str × AdminStore
  seed_detector tenant_id name kind = (
    e.uuid4_hex s.drawn,
    record s {
      detectors =
          s.detectors
          ++ record {
            id = e.uuid4_hex s.drawn;
            tenant_id = tenant_id;
            name = name;
            kind = kind;
            enabled = true;
            min_confidence = 5000;
          }
            ∷ [];
      drawn = suc s.drawn;
    },
  )

  -- `create_dictionary`
  unfoldable pub create_dictionary : Str → Str → Str → Str → Option Str → ℕ → Str × AdminStore
  create_dictionary tenant_id name match_mode action replacement term_count = (
    e.uuid4_hex s.drawn,
    record s {
      dictionaries =
          s.dictionaries
          ++ record {
            id = e.uuid4_hex s.drawn;
            tenant_id = tenant_id;
            name = name;
            match_mode = match_mode;
            action = action;
            replacement = replacement;
            term_count = term_count;
            updated_at = e.now;
          }
            ∷ [];
      drawn = suc s.drawn;
    },
  )

  -- `create_suggestion`
  unfoldable pub create_suggestion : Str → Str → Value → Value → Str × AdminStore
  create_suggestion tenant_id kind evidence proposed_rule = (
    e.uuid4_hex s.drawn,
    record s {
      suggestions =
          s.suggestions
          ++ record {
            id = e.uuid4_hex s.drawn;
            tenant_id = tenant_id;
            kind = kind;
            evidence_json = evidence;
            proposed_rule_json = proposed_rule;
            status = str "open";
            created_at = e.now;
            resolved_at = none;
          }
            ∷ [];
      drawn = suc s.drawn;
    },
  )

  -- `resolve_suggestion`
  unfoldable pub resolve_suggestion : Str → Str → Str → Bool × AdminStore
  unfolding has_row suggestion_is update
  resolve_suggestion tenant_id suggestion_id status = (
    has_row (suggestion_is tenant_id suggestion_id) s.suggestions,
    record s {
      suggestions =
          update (suggestion_is tenant_id suggestion_id)
            (λ row. record row { status = status; resolved_at = some e.now }) s.suggestions;
    },
  )

  -- `set_provider_credential`: INSERT OR REPLACE by tenant and provider
  unfoldable pub set_provider_credential : Str → Str → Str → AdminStore
  unfolding filter last_four
  set_provider_credential tenant_id provider secret = record s {
    provider_credentials =
        filter (λ row. not (row.tenant_id == tenant_id && row.provider == provider))
          s.provider_credentials
        ++ record {
          tenant_id = tenant_id;
          provider = provider;
          key_last4 = last_four secret;
          key_hash = e.sha256_hexdigest secret;
          updated_at = e.now;
        }
          ∷ [];
  }

-- The `UPDATE` of `update_settings` and of `rotate_vault_key`, and the row that is then read
unfoldable pub settings_after :
    Str → (SettingsRow → SettingsRow) → AdminStore → SettingsRow × AdminStore
unfolding update settings_of get_settings
settings_after tenant_id change s =
    get_settings (record s { settings = update (settings_of tenant_id) change s.settings })
      tenant_id

-- `update_settings`
unfoldable pub update_settings : AdminStore → Str → SettingsChange → SettingsRow × AdminStore
unfolding settings_after settings_changed get_settings
update_settings s tenant_id c =
    let current = get_settings s tenant_id in
    settings_after tenant_id (settings_changed c current.0) current.1

-- `rotate_vault_key`
unfoldable pub rotate_vault_key : AdminStore → Str → Str → SettingsRow × AdminStore
unfolding settings_after get_settings
rotate_vault_key s tenant_id when =
    let current = get_settings s tenant_id in
    settings_after tenant_id (λ row. record row { vault_key_rotated_at = some when }) current.1
