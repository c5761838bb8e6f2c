-- ===== src/Audit/Stats/Estimates.antt =====
-- frostglass/audit/store.py: what the policy editor's slider shows is the number of findings that meet a
-- threshold.
use frostglass.Prelude.{
  ℕ, ◌+◌, ◌-◌, ◌*◌, ◌≡◌, ◌≤◌, ok, refl, sym, ◌∙◌, ap, Option, none, List, [], ◌∷◌, map, Str, str_eq,
  ◌==◌, leb, filter, length, Bool-cases, inl, inr, arith,
}
use frostglass.Prelude.Dict
use frostglass.Prelude.Dict.{Dict, get-put}
use frostglass.Audit.Store.{AuditStore, FindingRow}
use frostglass.Audit.Stats.{Clock, day_microseconds, range_days, window_findings}
use frostglass.Audit.Stats.Findings.{
  Bucket, new_bucket, bucket_of, met, counted, estimates, detection_estimates,
  confidence_thresholds,
}
use frostglass.Audit.Stats.Sums.{since_days-eq}

-- The findings of a type
unfoldable pub of_type : Str → List FindingRow → List FindingRow
unfolding filter
of_type entity_type rows = filter (λ f. f.entry.entity_type == entity_type) rows

-- How many findings meet a threshold
unfoldable pub number_at : List FindingRow → ℕ → ℕ
unfolding filter
number_at rows t = length (filter (λ f. leb t f.entry.confidence) rows)

-- A threshold's count with that of findings
adds : List FindingRow → ℕ × ℕ → ℕ × ℕ
unfolding number_at
adds rows p = (p.0, p.1 + number_at rows p.0)

-- A bucket to which findings are added, all at once
all_counted : Bucket → List FindingRow → Bucket
unfolding adds
all_counted b rows = record {
  total = b.total + length rows;
  at_confidence = map (adds rows) b.at_confidence;
}

cons_eq : (t : ℕ) {m n : ℕ} {xs ys : List (ℕ × ℕ)} → m ≡ n → xs ≡ ys → (t, m) ∷ xs ≡ (t, n) ∷ ys
cons_eq t p q = λ i. (t, p i) ∷ q i

met-adds :
    (row : FindingRow) (rows : List FindingRow) (counts : List (ℕ × ℕ))
    → map (adds rows) (met row.entry.confidence counts) ≡ map (adds (row ∷ rows)) counts
unfolding met adds number_at filter
met-adds row rows [] = refl
met-adds row rows ((t, n) ∷ counts) =
    cons_eq t
      (elim (Bool-cases (leb t row.entry.confidence)) [
        | inl e ↦ rw e (omega arith)
        | inr e ↦ rw e refl
      ])
      (met-adds row rows counts)

counted-all_counted :
    (b : Bucket) (row : FindingRow) (rows : List FindingRow)
    → all_counted (counted row.entry.confidence b) rows ≡ all_counted b (row ∷ rows)
unfolding all_counted counted
counted-all_counted b row rows =
    let sum : b.total + 1 + length rows ≡ b.total + length (row ∷ rows) = omega arith in
    λ i. record { total = sum i; at_confidence = met-adds row rows b.at_confidence i }

adds_none : (counts : List (ℕ × ℕ)) → map (adds []) counts ≡ counts
unfolding adds number_at filter
adds_none [] = refl
adds_none ((t, n) ∷ counts) = cons_eq t (omega arith) (adds_none counts)

estimates-all_counted :
    (buckets : Dict Str Bucket) (rows : List FindingRow) (entity_type : Str)
    → bucket_of (Dict.get (estimates buckets rows) entity_type)
      ≡ all_counted (bucket_of (Dict.get buckets entity_type)) (of_type entity_type rows)
unfolding estimates of_type filter all_counted bucket_of
estimates-all_counted buckets [] entity_type =
    let bucket = bucket_of (Dict.get buckets entity_type) in
    let sum : bucket.total ≡ bucket.total + 0 = omega arith in
    λ i. record { total = sum i; at_confidence = sym (adds_none bucket.at_confidence) i }
estimates-all_counted buckets (row ∷ rows) entity_type =
    let own = row.entry.entity_type in
    let bucket = counted row.entry.confidence (bucket_of (Dict.get buckets own)) in
    let rest = estimates-all_counted (Dict.put buckets own bucket) rows entity_type in
    let put = get-put buckets own entity_type bucket in
    elim (Bool-cases (own == entity_type)) [
      | inl same ↦
          rest
          ∙ rw (put, same)
              (ap
                  (λ own.
                    all_counted (counted row.entry.confidence (bucket_of (Dict.get buckets own)))
                      (of_type entity_type rows))
                  ((str_eq.beq_iff own entity_type).0 same)
                ∙ counted-all_counted (bucket_of (Dict.get buckets entity_type)) row
                    (of_type entity_type rows))
      | inr other ↦ rest ∙ rw (put, other) refl
    ]

zero_adds :
    (rows : List FindingRow) (thresholds : List ℕ)
    → map (adds rows) (new_bucket thresholds).at_confidence
      ≡ map (λ t. (t, number_at rows t)) thresholds
unfolding new_bucket adds
zero_adds rows [] = refl
zero_adds rows (t ∷ thresholds) = cons_eq t (omega arith) (zero_adds rows thresholds)

from_none :
    (rows : List FindingRow) (bucket : Bucket)
    → bucket ≡ all_counted (bucket_of none) rows
    → (bucket.total ≡ length rows)
      × (bucket.at_confidence ≡ map (λ t. (t, number_at rows t)) confidence_thresholds)
unfolding all_counted bucket_of new_bucket
from_none rows bucket e =
    let sum : 0 + length rows ≡ length rows = omega arith in
    (ap (λ b. b.total) e ∙ sum, ap (λ b. b.at_confidence) e ∙ zero_adds rows confidence_thresholds)

-- In a window that the calendar has, the estimates are returned, and for each type the bucket holds the
-- number of the findings of the type in the window and, at each of the five thresholds, the number of
-- those that meet it. A type without a bucket has no finding there.
pub detection_estimates-exact :
    (c : Clock) (s : AuditStore) (tenant_id : Str) (team : Option Str) (range : Str) (moment : ℕ)
    → range_days c range * day_microseconds ≤ moment
    → let since = c.isoformat (moment - range_days c range * day_microseconds) in
      (buckets : Dict Str Bucket) × (detection_estimates c s tenant_id team range moment
        ≡ ok buckets)
      × ((entity_type : Str)
          → let found = of_type entity_type (window_findings s tenant_id team since) in
            let bucket = bucket_of (Dict.get buckets entity_type) in
            (bucket.total ≡ length found)
            × (bucket.at_confidence ≡ map (λ t. (t, number_at found t)) confidence_thresholds))
unfolding detection_estimates Dict.get
detection_estimates-exact c s tenant_id team range moment late =
    let since = c.isoformat (moment - range_days c range * day_microseconds) in
    let rows = window_findings s tenant_id team since in
    (
      estimates [] rows,
      rw (since_days-eq c moment (range_days c range) late) refl,
      λ entity_type.
          from_none (of_type entity_type rows) _ (estimates-all_counted [] rows entity_type),
    )
