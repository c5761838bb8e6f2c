-- ===== src/Audit/Stats/Findings.antt =====
-- frostglass/audit/store.py: the aggregates over the findings of the window.
use frostglass.Prelude.{
  ℕ, ◌+◌, Option, none, some, List, [], ◌∷◌, map, Str, str_eq, filter, length, leb, if◌then◌else◌,
  ok, ◌>>=◌,
}
use frostglass.Prelude.Dict
use frostglass.Prelude.Dict.{Dict}
use frostglass.Errors.{Py}
use frostglass.Audit.Store.{AuditStore, FindingRow}
use frostglass.Audit.Stats.{Clock, range_days, since_days, window_findings, quotient}

-- The thresholds 0.5 to 0.9, in steps of 1/10000
abbrev pub confidence_thresholds : List ℕ
confidence_thresholds = 5000 ∷ 6000 ∷ 7000 ∷ 8000 ∷ 9000 ∷ []

pub record Bucket : Type 0 where
  pub total : ℕ
  pub at_confidence : List (ℕ × ℕ)

-- The bucket that `setdefault` puts
unfoldable pub new_bucket : List ℕ → Bucket
new_bucket thresholds = record { total = 0; at_confidence = map (λ t. (t, 0)) thresholds }

unfoldable pub bucket_of : Option Bucket → Bucket
unfolding new_bucket
bucket_of none = new_bucket confidence_thresholds
bucket_of (some bucket) = bucket

-- The thresholds that a confidence meets, counted
unfoldable pub met : ℕ → List (ℕ × ℕ) → List (ℕ × ℕ)
met confidence [] = []
met confidence ((t, n) ∷ counts) =
    (t, if leb t confidence then n + 1 else n) ∷ met confidence counts

unfoldable pub counted : ℕ → Bucket → Bucket
unfolding met
counted confidence bucket = record {
  total = bucket.total + 1;
  at_confidence = met confidence bucket.at_confidence;
}

-- The loop of `detection_estimates` over its rows
unfoldable pub estimates : Dict Str Bucket → List FindingRow → Dict Str Bucket
unfolding bucket_of counted
estimates buckets [] = buckets
estimates buckets (row ∷ rows) =
    let entity_type = row.entry.entity_type in
    estimates
      (Dict.put buckets entity_type
        (counted row.entry.confidence (bucket_of (Dict.get buckets entity_type))))
      rows

-- `detection_estimates`
unfoldable pub detection_estimates :
    Clock → AuditStore → Str → Option Str → Str → ℕ → Py (Dict Str Bucket)
unfolding range_days since_days window_findings estimates
detection_estimates c s tenant_id team range moment = do
  since ← since_days c moment (range_days c range)
  ok (estimates [] (window_findings s tenant_id team since))

-- `false_positive_rate`: the findings, those reported, and the rate
unfoldable pub false_positive_rate :
    Clock → AuditStore → Str → Option Str → Str → ℕ → Py (ℕ × ℕ × (ℕ × ℕ))
unfolding range_days since_days window_findings quotient filter
false_positive_rate c s tenant_id team range moment = do
  since ← since_days c moment (range_days c range)
  let rows = window_findings s tenant_id team since in
      let reports = length (filter (λ f. f.false_positive_reported) rows) in
      ok (length rows, reports, quotient reports (length rows))
