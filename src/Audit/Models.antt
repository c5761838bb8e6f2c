-- ===== src/Audit/Models.antt =====
-- frostglass/audit/models.py. A time is its ISO text, which the store keeps and compares. Confidence is
-- counted in steps of 1/10000.
use frostglass.Prelude.{ℕ, Bool, Option, List, Str}

pub record DecisionTraceEntry : Type 0 where
  pub entity_type : Str
  pub detector : Str
  pub confidence : ℕ
  pub span : ℕ × ℕ
  pub matched_rule_id : Option Str
  pub action : Str
  pub was_shadow : Bool
  pub reason : Str
  pub value_hash : Str

pub record RequestRecord : Type 0 where
  pub id : Str
  pub tenant_id : Str
  pub team : Str
  pub user : Str
  pub ts : Str
  pub model : Str
  pub provider : Str
  pub action : Str
  pub policy_version : ℕ
  pub shadow : Bool
  pub blocked_reason : Option Str
  pub prompt_tokens : Option ℕ
  pub completion_tokens : Option ℕ
  pub cost_cents : Option ℕ
  pub latency_ms : Option ℕ
  pub provider_latency_ms : Option ℕ
  pub status_code : Option ℕ
  pub fallback_used : Option Bool
  pub trace : List DecisionTraceEntry
