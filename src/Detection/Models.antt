-- ===== src/Detection/Models.antt =====
-- frostglass/detection/models.py. A detector's offsets may be any integers; a finding's offsets are
-- those that the engine has checked. Confidence is counted in steps of 1/10000.
use frostglass.Prelude.{ℕ, Str}
use frostglass.Prelude.Int.{ℤ}

pub record CandidateSpan : Type 0 where
  pub entity_type : Str
  pub start : ℤ
  pub end : ℤ
  pub confidence : ℤ
  pub detector : Str
  pub specificity : ℕ

pub record Finding : Type 0 where
  pub entity_type : Str
  pub start : ℕ
  pub end : ℕ
  pub confidence : ℕ
  pub detector : Str
  pub value_hash : Str

pub record DetectionContext : Type 0 where
  pub tenant_id : Str
  pub tenant_salt : Str
  pub ner_confidence_floor : ℕ
