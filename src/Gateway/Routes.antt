-- ===== src/Gateway/Routes.antt =====
-- frostglass/gateway/routes_openai.py: the check of the model, the headers, and the record of a request.
-- `json.dumps` of a list of texts is a parameter.
use frostglass.Prelude.{
  ℕ, Bool, true, false, not, ◌&&◌, Option, none, some, List, [], ◌∷◌, map, Str, str, str_eq,
  str_leb, ok, err, contains, if◌then◌else◌,
}
use frostglass.Prelude.Sort.{sorted_by}
use frostglass.Prelude.Strings.{decimal}
use frostglass.Errors.{Py, gateway_error}
use frostglass.Json.{Value, text, Fields, get}
use frostglass.Policy.Loader.{frozenset}
use frostglass.Gateway.Auth.{Principal}
use frostglass.Gateway.Pipeline.{GatewayRequestContext, action}
use frostglass.Audit.Recorder.{Call}

-- `str(fallback_used).lower()`
unfoldable pub lower_flag : Bool → Str
lower_flag true = str "true"
lower_flag false = str "false"

-- `_headers`
unfoldable pub headers : (List Str → Str) → Str → Bool → GatewayRequestContext → List (Str × Str)
unfolding lower_flag action
headers dumps request_id fallback_used rc =
    (str "X-Frostglass-Request-Id", request_id)
    ∷ (str "X-Frostglass-Action", action rc)
    ∷ (
      str "X-Frostglass-Entities",
      dumps (sorted_by str_leb (frozenset (map (λ l. l.finding.entity_type) rc.findings))),
    )
    ∷ (str "X-Frostglass-Policy-Version", decimal rc.policy_version)
    ∷ (str "X-Frostglass-Fallback-Used", lower_flag fallback_used)
    ∷ []

-- `_validate_model`, for the model that the payload names
unfoldable pub validate_named : Value → List Str → Py (Unit {0})
validate_named (text model) allowed_models =
    if not (contains (str "*") allowed_models) && not (contains model allowed_models)
    then err (gateway_error 403 (str "Model is not allowed for this key") (str "permission_error"))
    else ok tt
validate_named _ allowed_models =
    err (gateway_error 400 (str "'model' is required") (str "invalid_request_error"))

-- `_validate_model`
unfoldable pub validate_model : Fields → List Str → Py (Unit {0})
unfolding validate_named get
validate_model payload allowed_models = validate_named (get payload (str "model")) allowed_models

unfoldable pub model_name : Value → Str
model_name (text model) = model
model_name _ = str "unknown"

-- `record_request`'s call of the recorder
unfoldable pub call_of :
    Str → Principal → Fields → ℕ → ℕ → Option Str → Option Bool → Option Value → Call
unfolding model_name get
call_of provider principal payload latency_ms status_code blocked_reason fallback_used
      masked_payload =
    record {
      user = principal.user;
      team = principal.team;
      model = model_name (get payload (str "model"));
      provider = provider;
      status_code = status_code;
      blocked_reason = blocked_reason;
      latency_ms = some latency_ms;
      provider_latency_ms = none;
      fallback_used = fallback_used;
      prompt_tokens = none;
      completion_tokens = none;
      cost_cents = none;
      masked_payload = masked_payload;
    }
