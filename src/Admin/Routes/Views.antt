-- ===== src/Admin/Routes/Views.antt =====
-- frostglass/admin/routes_admin.py: what the routes answer with, as JSON values. A column of
-- JSON text appears as the value that the text writes.
use frostglass.Prelude.{ℕ, Bool, Option, none, some, List, [], ◌∷◌, map, Str, str, if◌then◌else◌}
use frostglass.Prelude.Int.{pos}
use frostglass.Json.{
  Value, Items, Fields, null, boolean, integer, float, text, array, object, nil, cons, end, field,
}
use frostglass.Audit.Models.{RequestRecord}
use frostglass.Audit.Store.{FindingRow}
use frostglass.Admin.Store.{
  UserRow, TeamRow, KeyRow, DetectorRow, DictionaryRow, SuggestionRow, SettingsRow, EventRow,
}
use frostglass.Admin.Store.Config.{CredentialView}

-- None as null
abbrev pub or_null {ℓ} : {A : Type ℓ} → (A → Value) → Option A → Value
or_null f none = null
or_null f (some a) = f a

abbrev pub number : ℕ → Value
number n = integer (pos n)

unfoldable pub items_of : List Value → Items
items_of [] = nil
items_of (v ∷ vs) = cons v (items_of vs)

unfoldable pub fields_of : List (Str × Value) → Fields
fields_of [] = end
fields_of ((k, v) ∷ rest) = field k v (fields_of rest)

-- A dict by its entries
unfoldable pub dict : List (Str × Value) → Value
unfolding fields_of
dict entries = object (fields_of entries)

-- `{"items": [view(row) for row in rows]}`
unfoldable pub listed {ℓ} : {A : Type ℓ} → (A → Value) → List A → Value
unfolding dict items_of
listed view rows = dict ((str "items", array (items_of (map view rows))) ∷ [])

-- `_team_view`
unfoldable pub team_view : TeamRow → Value
unfolding dict items_of
team_view row = dict (
    (str "id", text row.id)
    ∷ (str "name", text row.name)
    ∷ (str "shadow_mode", boolean row.shadow_mode)
    ∷ (str "monthly_budget_cents", integer row.monthly_budget_cents)
    ∷ (str "rate_limit_rpm", integer row.rate_limit_rpm)
    ∷ (str "allowed_models", array (items_of (map text row.allowed_models)))
    ∷ (str "content_capture_enabled", boolean row.content_capture_enabled)
    ∷ [])

unfoldable pub credential_dict : CredentialView → Value
unfolding dict
credential_dict item = dict (
    (str "provider", text item.provider)
    ∷ (str "key_last4", text item.key_last4)
    ∷ (str "updated_at", text item.updated_at)
    ∷ [])

-- `_settings_view`
unfoldable pub settings_view : SettingsRow → List CredentialView → Value
unfolding dict items_of credential_dict
settings_view row providers = dict (
    (str "audit_retention_days", number row.audit_retention_days)
    ∷ (str "capture_retention_days", number row.capture_retention_days)
    ∷ (str "content_capture_enabled", boolean row.content_capture_enabled)
    ∷ (str "sso_enabled", boolean row.sso_enabled)
    ∷ (str "sso_provider", or_null text row.sso_provider)
    ∷ (str "sso_client_id", or_null text row.sso_client_id)
    ∷ (str "vault_key_rotated_at", or_null text row.vault_key_rotated_at)
    ∷ (str "provider_credentials", array (items_of (map credential_dict providers)))
    ∷ [])

-- `dict(row)` of each table; the flags are SQLite's integers
unfoldable pub flag : Bool → Value
flag b = number (if b then 1 else 0)

unfoldable pub settings_dict : SettingsRow → Value
unfolding dict flag
settings_dict row = dict (
    (str "tenant_id", text row.tenant_id)
    ∷ (str "audit_retention_days", number row.audit_retention_days)
    ∷ (str "capture_retention_days", number row.capture_retention_days)
    ∷ (str "content_capture_enabled", flag row.content_capture_enabled)
    ∷ (str "sso_enabled", flag row.sso_enabled)
    ∷ (str "sso_provider", or_null text row.sso_provider)
    ∷ (str "sso_client_id", or_null text row.sso_client_id)
    ∷ (str "vault_key_rotated_at", or_null text row.vault_key_rotated_at)
    ∷ [])

unfoldable pub user_dict : UserRow → Value
unfolding dict
user_dict row = dict (
    (str "id", text row.id)
    ∷ (str "tenant_id", text row.tenant_id)
    ∷ (str "email", text row.email)
    ∷ (str "name", text row.name)
    ∷ (str "role", text row.role)
    ∷ (str "created_at", text row.created_at)
    ∷ (str "disabled_at", or_null text row.disabled_at)
    ∷ [])

-- The columns that `list_keys` selects: neither the hash nor the user
unfoldable pub key_dict : KeyRow → Value
unfolding dict
key_dict row = dict (
    (str "id", text row.id)
    ∷ (str "tenant_id", text row.tenant_id)
    ∷ (str "team", text row.team)
    ∷ (str "key_prefix", text row.key_prefix)
    ∷ (str "name", text row.name)
    ∷ (str "created_at", text row.created_at)
    ∷ (str "revoked_at", or_null text row.revoked_at)
    ∷ [])

unfoldable pub detector_dict : DetectorRow → Value
unfolding dict flag
detector_dict row = dict (
    (str "id", text row.id)
    ∷ (str "tenant_id", text row.tenant_id)
    ∷ (str "name", text row.name)
    ∷ (str "kind", text row.kind)
    ∷ (str "enabled", flag row.enabled)
    ∷ (str "min_confidence", float (pos row.min_confidence))
    ∷ [])

unfoldable pub dictionary_dict : DictionaryRow → Value
unfolding dict
dictionary_dict row = dict (
    (str "id", text row.id)
    ∷ (str "tenant_id", text row.tenant_id)
    ∷ (str "name", text row.name)
    ∷ (str "match_mode", text row.match_mode)
    ∷ (str "action", text row.action)
    ∷ (str "replacement", or_null text row.replacement)
    ∷ (str "term_count", number row.term_count)
    ∷ (str "updated_at", text row.updated_at)
    ∷ [])

unfoldable pub suggestion_dict : SuggestionRow → Value
unfolding dict
suggestion_dict row = dict (
    (str "id", text row.id)
    ∷ (str "tenant_id", text row.tenant_id)
    ∷ (str "kind", text row.kind)
    ∷ (str "evidence_json", row.evidence_json)
    ∷ (str "proposed_rule_json", row.proposed_rule_json)
    ∷ (str "status", text row.status)
    ∷ (str "created_at", text row.created_at)
    ∷ (str "resolved_at", or_null text row.resolved_at)
    ∷ [])

unfoldable pub event_dict : EventRow → Value
unfolding dict
event_dict row = dict (
    (str "id", text row.id)
    ∷ (str "tenant_id", text row.tenant_id)
    ∷ (str "actor_user_id", text row.actor_user_id)
    ∷ (str "action", text row.action)
    ∷ (str "target", text row.target)
    ∷ (str "before_json", or_null (λ v. v) row.before_json)
    ∷ (str "after_json", or_null (λ v. v) row.after_json)
    ∷ (str "ts", text row.ts)
    ∷ [])

-- `_request_view`
unfoldable pub request_view : RequestRecord → Value
unfolding dict
request_view row = dict (
    (str "id", text row.id)
    ∷ (str "team", text row.team)
    ∷ (str "user", text row.user)
    ∷ (str "ts", text row.ts)
    ∷ (str "model", text row.model)
    ∷ (str "provider", text row.provider)
    ∷ (str "action", text row.action)
    ∷ (str "policy_version", number row.policy_version)
    ∷ (str "shadow", boolean row.shadow)
    ∷ (str "blocked_reason", or_null text row.blocked_reason)
    ∷ (str "prompt_tokens", or_null number row.prompt_tokens)
    ∷ (str "completion_tokens", or_null number row.completion_tokens)
    ∷ (str "cost_cents", or_null number row.cost_cents)
    ∷ (str "latency_ms", or_null number row.latency_ms)
    ∷ (str "provider_latency_ms", or_null number row.provider_latency_ms)
    ∷ (str "status_code", or_null number row.status_code)
    ∷ (str "fallback_used", or_null boolean row.fallback_used)
    ∷ [])

-- `_finding_view`
unfoldable pub finding_view : FindingRow → Value
unfolding dict items_of
finding_view row = dict (
    (str "id", text row.id)
    ∷ (str "entity_type", text row.entry.entity_type)
    ∷ (str "detector", text row.entry.detector)
    ∷ (str "confidence", float (pos row.entry.confidence))
    ∷ (str "span", array (items_of (number row.entry.span.0 ∷ number row.entry.span.1 ∷ [])))
    ∷ (str "matched_rule_id", or_null text row.entry.matched_rule_id)
    ∷ (str "action", text row.entry.action)
    ∷ (str "was_shadow", boolean row.entry.was_shadow)
    ∷ (str "reason", text row.entry.reason)
    ∷ (str "false_positive_reported", boolean row.false_positive_reported)
    ∷ [])
