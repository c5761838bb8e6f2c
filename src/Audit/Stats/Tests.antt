-- ===== src/Audit/Stats/Tests.antt =====
-- The dashboard's theorems at two requests, one of them blocked and with two findings.
use frostglass.Prelude.{
  ℕ, ◌≡◌, ◌≤◌, ◌<◌, ◌-◌, ◌*◌, ◌/◌, true, false, refl, some, none, [], ◌∷◌, map, Str, str, ok, err,
  arith, length, str_beq, str_leb, str_eq,
}
use frostglass.Prelude.Dict
use frostglass.Prelude.Dict.{Dict}
use frostglass.Prelude.Int.{pos}
use frostglass.Errors.{overflow_error}
use frostglass.Audit.Models.{RequestRecord}
use frostglass.Audit.Store.{AuditStore, FindingRow}
use frostglass.Audit.Stats.{
  Clock, Overview, stats_overview, day_microseconds, range_days, window_findings,
}
use frostglass.Audit.Stats.Findings.{Bucket, detection_estimates, bucket_of, confidence_thresholds}
use frostglass.Audit.Stats.Sums.{Counts, stats_overview-exact}
use frostglass.Audit.Stats.Estimates.{of_type, number_at, detection_estimates-exact}

abbrev pub clock : Clock
clock = record {
  isoformat = λ moment. moment / day_microseconds ∷ [];
  midnight = λ moment. moment / day_microseconds * day_microseconds;
  strip_lower = λ text. text;
  int_text = λ text. some (pos 2);
}

abbrev call : Str → Str → Str → RequestRecord
call id ts action = record {
  id = id;
  tenant_id = str "t";
  team = str "b";
  user = str "ann";
  ts = ts;
  model = str "m";
  provider = str "mock";
  action = action;
  policy_version = 1;
  shadow = true;
  blocked_reason = none;
  prompt_tokens = none;
  completion_tokens = none;
  cost_cents = some 1;
  latency_ms = none;
  provider_latency_ms = none;
  status_code = some 200;
  fallback_used = none;
  trace = [];
}

abbrev finding_of : Str → ℕ → FindingRow
finding_of id confidence = record {
  id = id;
  request_id = str "b";
  entry = record {
    entity_type = str "EMAIL";
    detector = str "regex";
    confidence = confidence;
    span = (0, 4);
    matched_rule_id = none;
    action = str "blocked";
    was_shadow = false;
    reason = [];
    value_hash = [];
  };
  false_positive_reported = false;
}

abbrev pub store : AuditStore
store = record {
  requests =
      call (str "a") (39 ∷ []) (str "allowed") ∷ call (str "b") (39 ∷ []) (str "blocked") ∷ [];
  findings = finding_of (str "x") 9500 ∷ finding_of (str "y") 6000 ∷ [];
  captured = [];
  drawn = 2;
}

-- 40 days, and a range of two days
abbrev pub moment : ℕ
moment = 3_456_000_000_000

two_days : range_days clock (str "2d") ≡ 2
unfolding range_days str
two_days = refl

in_calendar : range_days clock (str "2d") * day_microseconds ≤ moment
in_calendar = rw two_days (omega arith)

stats_overview-exact_example :
    (moment < range_days clock (str "2d") * day_microseconds
      → stats_overview clock store (str "t") none (str "2d") moment ≡ err overflow_error)
    × (range_days clock (str "2d") * day_microseconds ≤ moment
        → (overview : Overview) × (stats_overview clock store (str "t") none (str "2d") moment
            ≡ ok overview)
          × Counts store
              (str "t")
              none
              (clock.isoformat (moment - range_days clock (str "2d") * day_microseconds))
              overview)
stats_overview-exact_example =
    stats_overview-exact clock store (str "t") none (str "2d") moment (omega arith)

detection_estimates-exact_example :
    let since = clock.isoformat (moment - range_days clock (str "2d") * day_microseconds) in
    (buckets : Dict Str Bucket) × (detection_estimates clock store (str "t") none (str "2d") moment
      ≡ ok buckets)
    × ((entity_type : Str)
        → let found = of_type entity_type (window_findings store (str "t") none since) in
          let bucket = bucket_of (Dict.get buckets entity_type) in
          (bucket.total ≡ length found)
          × (bucket.at_confidence ≡ map (λ t. (t, number_at found t)) confidence_thresholds))
detection_estimates-exact_example =
    detection_estimates-exact clock store (str "t") none (str "2d") moment in_calendar

email_estimate :
    detection_estimates clock store (str "t") none (str "2d") moment
    ≡ ok (
        (
          str "EMAIL",
          record {
            total = 2;
            at_confidence = (5000, 2) ∷ (6000, 2) ∷ (7000, 1) ∷ (8000, 1) ∷ (9000, 1) ∷ [];
          },
        )
        ∷ [])
unfolding detection_estimates str str_beq str_leb Dict.put Dict.get
email_estimate = refl
