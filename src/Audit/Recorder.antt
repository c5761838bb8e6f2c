-- ===== src/Audit/Recorder.antt =====
-- frostglass/audit/recorder.py and frostglass/audit/retention.py. `uuid4` is a parameter; the time of
-- the record and the sealed capture, which `ContentCapture.seal` gives, are arguments.
use frostglass.Prelude.{ℕ, suc, ◌-◌, Bool, false, Option, none, some, List, Str, ok, err, map}
use frostglass.Errors.{Py}
use frostglass.Json.{Value}
use frostglass.Policy.Engine.{FindingDecision}
use frostglass.Policy.Loader.Serial.{action_value}
use frostglass.Gateway.Pipeline.{LocatedFinding, GatewayRequestContext, action, zip_strict}
use frostglass.Audit.Models.{DecisionTraceEntry, RequestRecord}
use frostglass.Audit.Store
use frostglass.Audit.Store.{AuditStore}

-- The arguments of `record` but the request context
pub record Call : Type 0 where
  pub user : Str
  pub team : Str
  pub model : Str
  pub provider : Str
  pub status_code : ℕ
  pub blocked_reason : Option Str
  pub latency_ms : Option ℕ
  pub provider_latency_ms : Option ℕ
  pub fallback_used : Option Bool
  pub prompt_tokens : Option ℕ
  pub completion_tokens : Option ℕ
  pub cost_cents : Option ℕ
  pub masked_payload : Option Value

unfoldable pub trace_entry : Bool → LocatedFinding × FindingDecision → DecisionTraceEntry
unfolding action_value
trace_entry shadow (located, evaluated) = record {
  entity_type = located.finding.entity_type;
  detector = located.finding.detector;
  confidence = located.finding.confidence;
  span = (located.finding.start, located.finding.end);
  matched_rule_id = evaluated.decision.rule_id;
  action = action_value evaluated.decision.action;
  was_shadow = shadow;
  reason = evaluated.decision.reason;
  value_hash = located.finding.value_hash;
}

unfoldable pub request_record :
    Str → Str → Str → Call → GatewayRequestContext → List DecisionTraceEntry → RequestRecord
unfolding action
request_record request_id tenant_id ts c rc trace = record {
  id = request_id;
  tenant_id = tenant_id;
  team = c.team;
  user = c.user;
  ts = ts;
  model = c.model;
  provider = c.provider;
  action = action rc;
  policy_version = rc.policy_version;
  shadow = rc.shadow;
  blocked_reason = c.blocked_reason;
  prompt_tokens = c.prompt_tokens;
  completion_tokens = c.completion_tokens;
  cost_cents = c.cost_cents;
  latency_ms = c.latency_ms;
  provider_latency_ms = c.provider_latency_ms;
  status_code = some c.status_code;
  fallback_used = c.fallback_used;
  trace = trace;
}

-- The capture, if there is one and a masked payload, outside shadow
unfoldable pub sealed_capture :
    Option (Value → List ℕ × Str) → Option Value → Bool → Option (List ℕ × Str)
sealed_capture (some seal) (some masked_payload) false = some (seal masked_payload)
sealed_capture _ _ _ = none

-- The end of `record`, for the identifier that was drawn
unfoldable pub stored_as : Str → Py (Unit {0}) × AuditStore → Py Str × AuditStore
stored_as request_id (ok _, s) = (ok request_id, s)
stored_as request_id (err e, s) = (err e, s)

unfoldable pub with_trace :
    Py (List (LocatedFinding × FindingDecision))
    → AuditStore
    → (List (LocatedFinding × FindingDecision) → Py Str × AuditStore)
    → Py Str × AuditStore
with_trace (ok pairs) s later = later pairs
with_trace (err e) s later = (err e, s)

-- `AuditRecorder.record`
unfoldable pub record_call :
    (ℕ → Str)
    → Option (Value → List ℕ × Str)
    → Str
    → Str
    → AuditStore
    → Call
    → GatewayRequestContext
    → Py Str × AuditStore
unfolding zip_strict trace_entry request_record sealed_capture stored_as with_trace
record_call uuid4_hex capture tenant_id ts s c rc =
    let request_id = uuid4_hex s.drawn in
    let drawn = record s { drawn = suc s.drawn } in
    with_trace (zip_strict rc.findings rc.decisions) drawn (λ pairs. stored_as request_id (
      Store.record_request uuid4_hex drawn
        (request_record request_id tenant_id ts c rc (map (trace_entry rc.shadow) pairs))
        (sealed_capture capture c.masked_payload rc.shadow)))

-- `RetentionPurger.purge` at a time, from the text of a time and the number of microseconds in a day
unfoldable pub purge_at : (ℕ → Str) → ℕ → AuditStore → ℕ → AuditStore
purge_at isoformat audit_retention s moment =
    Store.purge s (isoformat (moment - audit_retention)) (isoformat moment)
