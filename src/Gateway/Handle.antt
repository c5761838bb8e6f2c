-- ===== src/Gateway/Handle.antt =====
-- frostglass/gateway/routes_openai.py and routes_anthropic.py: a request through the gateway. `handle` of
-- the first and `messages` of the second differ in the protocol and in where the key stands. What the
-- instance is made of is in `Instance`; the clocks at a call are in `Moment`. There is a recorder, as in
-- main.py.
pub mod Recorded
pub mod Settled
mod Tests
use frostglass.Prelude.{
  ℕ, Bool, true, false, Option, none, some, List, [], ◌∷◌, ◌++◌, Str, str, ok, err, ◌>>=◌, ◌>>◌,
  if◌then◌else◌,
}
use frostglass.Errors.{PyError, Py, gateway_error, blocked_content}
use frostglass.Json.{Value, Fields, object, boolean, get}
use frostglass.Detection.Models.{DetectionContext}
use frostglass.Detection.Engine.{Detector}
use frostglass.Policy.Engine.{PolicyEngine, shadow_for_team}
use frostglass.Masking.Models.{MaskingContext, session}
use frostglass.Masking.Vault.{Crypto, EncryptedVault}
use frostglass.Masking.Consistency.{Generator}
use frostglass.Gateway.Auth.{Principal, VirtualKeyStore, resolve}
use frostglass.Gateway.Budget.{Limits, check, record_spend}
use frostglass.Gateway.Pipeline
use frostglass.Gateway.Pipeline.{ProviderResult, GatewayRequestContext, Providers}
use frostglass.Gateway.Routes.{headers, validate_model, call_of}
use frostglass.Audit.Store.{AuditStore}
use frostglass.Audit.Recorder.{record_call}

-- What `create_router` is given, but the parts that change
pub record Instance : Type 0 where
  pub keys : VirtualKeyStore
  pub detectors : List Detector
  pub engine : PolicyEngine
  pub providers : Providers
  pub tenant_salt : Str
  pub default_tenant : Str
  pub capture : Option (Value → List ℕ × Str)
  pub crypto : Crypto
  pub generate : Generator
  pub sha256_hexdigest : List ℕ → Str
  pub key_digest : Str → Str
  pub uuid4_hex : ℕ → Str
  pub dumps : List Str → Str

-- The clocks: microseconds, the text of the time, and the milliseconds since the start of the call
pub record Moment : Type 0 where
  pub now : ℕ
  pub ts : Str
  pub latency_ms : ℕ

-- The parts that a call changes
pub record Gateway : Type 0 where
  pub limits : Limits
  pub vault : EncryptedVault
  pub audit : AuditStore

pub data Response : Type 0 where
  json_response : Value → List (Str × Str) → Response
  streaming_response : List Str → List (Str × Str) → Response

-- `payload.get("stream") is True`
unfoldable pub is_streamed : Value → Bool
is_streamed (boolean true) = true
is_streamed _ = false

-- `request.headers.get("X-Request-Id", "fg-m5-request")`
unfoldable pub request_id_of : Option Str → Str
request_id_of none = str "fg-m5-request"
request_id_of (some id) = id

module _ (a : Instance) (m : Moment) (protocol : Str) (payload : Fields) where
  -- `record_request`
  unfoldable pub record_request :
      AuditStore
      → Principal
      → GatewayRequestContext
      → ℕ
      → Option Str
      → Option Bool
      → Option Value
      → Py Str × AuditStore
  unfolding record_call call_of
  record_request s p rc status_code blocked_reason fallback_used masked_payload =
      record_call a.uuid4_hex a.capture a.default_tenant m.ts s
        (call_of protocol p payload m.latency_ms status_code blocked_reason fallback_used
          masked_payload)
        rc

  module _ (p : Principal) (rc : GatewayRequestContext) where
    -- The answer, once the request is recorded
    unfoldable pub answered :
        Gateway → (Str → Response) → Limits → Py Str × AuditStore → Py Response × Gateway
    answered g response limits (err e, s) = (err e, record g { audit = s })
    answered g response limits (ok id, s) =
        (ok (response id), record g { audit = s; limits = limits })

    -- What follows `providers.stream`: the record, then the spend
    unfoldable pub streamed : Gateway → Value → Py (List Str × Bool) → Py Response × Gateway
    unfolding answered record_request headers record_spend
    streamed g masked (err e) = (err e, g)
    streamed g masked (ok (events, fallback_used)) =
        answered g (λ id. streaming_response events (headers a.dumps id fallback_used rc))
          (record_spend g.limits p 1)
          (record_request g.audit p rc 200 none (some fallback_used) (some masked))

    -- What follows `providers.complete`: the spend, then the record
    unfoldable pub completed :
        Gateway → Value → Py ProviderResult × EncryptedVault → Py Response × Gateway
    unfolding answered record_request headers record_spend
    completed g masked (err e, v) = (err e, record g { vault = v })
    completed g masked (ok result, v) =
        let spent = record g { vault = v; limits = record_spend g.limits p 1 } in
        answered spent
          (λ id. json_response result.payload (headers a.dumps id result.fallback_used rc))
          spent.limits
          (record_request g.audit p rc 200 none (some result.fallback_used) (some masked))

    -- The call of the provider
    unfoldable pub send : Gateway → Value → Py Response × Gateway
    unfolding is_streamed streamed completed Pipeline.stream Pipeline.complete get
    send g masked =
        if is_streamed (get payload (str "stream"))
        then streamed g masked (Pipeline.stream a.providers protocol masked)
        else completed g masked
            (Pipeline.complete a.crypto m.now a.providers protocol masked rc g.vault)

    -- The refusal of a blocked request, once it is recorded
    unfoldable pub refused : Gateway → Str → Py Str × AuditStore → Py Response × Gateway
    refused g message (err e, s) = (err e, record g { audit = s })
    refused g message (ok id, s) =
        (err (gateway_error 403 message (str "policy_blocked")), record g { audit = s })

    -- What follows `providers.mask`
    unfoldable pub masked : Gateway → Py Value × EncryptedVault → Py Response × Gateway
    unfolding send refused record_request
    masked g (ok value, v) = send (record g { vault = v }) value
    masked g (err (blocked_content message), v) =
        refused (record g { vault = v }) message
          (record_request g.audit p rc 403 (some message) none none)
    masked g (err e, v) = (err e, record g { vault = v })

  -- What follows `providers.detect`
  unfoldable pub detected : Gateway → Principal → Py GatewayRequestContext → Py Response × Gateway
  unfolding masked Pipeline.mask
  detected g p (err e) = (err e, g)
  detected g p (ok rc) = masked p rc g (
      Pipeline.mask a.crypto a.generate a.sha256_hexdigest a.tenant_salt m.now (object payload) rc
        g.vault)

  -- What follows `limits.check`
  unfoldable pub checked :
      Gateway → Str → Principal → Py (Unit {0}) × Limits → Py Response × Gateway
  unfolding detected Pipeline.detect shadow_for_team
  checked g request_id p (err e, l) = (err e, record g { limits = l })
  checked g request_id p (ok _, l) =
      detected (record g { limits = l }) p
        (Pipeline.detect a.sha256_hexdigest a.detectors a.engine (object payload)
          (record { tenant_id = p.team; tenant_salt = a.tenant_salt; ner_confidence_floor = 6000 })
          (record {
            tenant_id = p.team;
            request_id = request_id;
            session_id = some request_id;
            scope = session;
          })
          p.user p.team (shadow_for_team a.engine p.team))

  -- What follows the key and the model
  unfoldable pub admitted : Gateway → Str → Py Principal → Py Response × Gateway
  unfolding checked check
  admitted g request_id (err e) = (err e, g)
  admitted g request_id (ok p) = checked g request_id p (check g.limits p m.now)

  -- `handle`, and `messages` from the key on
  unfoldable pub handle : Gateway → Option Str → Option Str → Py Response × Gateway
  unfolding admitted resolve validate_model request_id_of
  handle g authorization request_id_header = admitted g (request_id_of request_id_header) (
      resolve a.key_digest a.keys authorization >>= λ p.
      validate_model payload p.allowed_models >> ok p)

-- The routes: a body that is not an object is refused.
unfoldable pub chat_completions :
    Instance → Moment → Gateway → Value → Option Str → Option Str → Py Response × Gateway
unfolding handle
chat_completions a m g (object payload) authorization request_id =
    handle a m (str "openai") payload g authorization request_id
chat_completions a m g _ authorization request_id = (
  err (gateway_error 400 (str "Request body must be an object") (str "invalid_request_error")),
  g,
)

-- `f"Bearer {x_api_key}" if x_api_key else None`
unfoldable pub bearer : Option Str → Option Str
bearer none = none
bearer (some []) = none
bearer (some (c ∷ key)) = some (str "Bearer " ++ c ∷ key)

-- `messages`
unfoldable pub messages :
    Instance → Moment → Gateway → Value → Option Str → Option Str → Py Response × Gateway
unfolding handle bearer
messages a m g (object payload) x_api_key request_id =
    handle a m (str "anthropic") payload g (bearer x_api_key) request_id
messages a m g _ x_api_key request_id = (
  err (gateway_error 400 (str "Request body must be an object") (str "invalid_request_error")),
  g,
)
