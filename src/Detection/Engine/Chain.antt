-- ===== src/Detection/Engine/Chain.antt =====
-- The findings of one text are disjoint, in order and in range, whatever the detectors return.
use mathlib.Core.List.{Memᴰ}
use frostglass.Prelude.{
  ℕ, ◌≡◌, ◌≤◌, ◌<◌, true, List, [], ◌∷◌, map, Str, length, All, Pairs, filter, All-of_Memᴰ,
  Memᴰ-of_filter, arith,
}
use frostglass.Prelude.Int.{pos_part}
use frostglass.Detection.Models.{CandidateSpan, Finding, DetectionContext}
use frostglass.Detection.Merge.{merge_spans}
use frostglass.Detection.Merge.Ordered.{IsProper, Precedes, merge_spans-All, merge_spans-Precedes}
use frostglass.Detection.Engine.{Detector, is_valid, all_candidates, to_finding, detect}

-- From `cursor` on: each finding is not empty, lies in a text of `n` code points, and the next ones
-- start where it ends or later.
abbrev pub IsChain : ℕ → ℕ → List Finding → Type 0
IsChain cursor n [] = cursor ≤ n
IsChain cursor n (f ∷ fs) =
    (cursor ≤ f.start) × (f.start < f.end) × (f.end ≤ n) × IsChain f.end n fs

abbrev IsValidSpan : Str → CandidateSpan → Type 0
IsValidSpan text s = is_valid text s ≡ true

IsProper-valid : (text : Str) (s : CandidateSpan) → IsValidSpan text s → IsProper s
unfolding is_valid
IsProper-valid text s h = ground arith

valid_bounds :
    (text : Str) (s : CandidateSpan)
    → IsValidSpan text s
    → (pos_part s.start < pos_part s.end) × (pos_part s.end ≤ length text)
unfolding is_valid
valid_bounds text s h = ground arith

Precedes-bound :
    (text : Str) (a b : CandidateSpan)
    → IsValidSpan text a
    → IsValidSpan text b
    → Precedes a b
    → pos_part a.end ≤ pos_part b.start
unfolding is_valid
Precedes-bound text a b va vb h = ground arith

module _ (sha256_hexdigest : List ℕ → Str) where
  IsChain-of_spans :
      (text : Str) (context : DetectionContext) (cursor : ℕ) (spans : List CandidateSpan)
      → cursor ≤ length text
      → All (λ s. cursor ≤ pos_part s.start) spans
      → All (IsValidSpan text) spans
      → Pairs Precedes spans
      → IsChain cursor (length text) (map (to_finding sha256_hexdigest text context) spans)
  unfolding to_finding
  IsChain-of_spans text context cursor [] c h v p = c
  IsChain-of_spans text context cursor (s ∷ spans) c h v p =
      let (nonempty, inside) = valid_bounds text s v.0 in
      (
        h.0,
        nonempty,
        inside,
        IsChain-of_spans text context (pos_part s.end) spans inside (after spans v.1 p.0) v.1 p.1,
      )
    where
      after :
          (ys : List CandidateSpan)
          → All (IsValidSpan text) ys
          → All (Precedes s) ys
          → All (λ y. pos_part s.end ≤ pos_part y.start) ys
      after [] k q = tt
      after (y ∷ ys) k q = (Precedes-bound text s y v.0 k.0 q.0, after ys k.1 q.1)

  -- Whatever spans the detectors return, the findings are not empty, lie within the text, and each
  -- starts where the one before it ends or later.
  pub detect-IsChain :
      (detectors : List Detector) (text : Str) (context : DetectionContext)
      → IsChain 0 (length text) (detect sha256_hexdigest detectors text context)
  unfolding detect
  detect-IsChain detectors text context =
      IsChain-of_spans text context 0 (merge_spans valid) (omega arith) at_zero
        (merge_spans-All (IsValidSpan text) valid all_valid)
        (merge_spans-Precedes valid
          (All-of_Memᴰ IsProper valid λ s m. IsProper-valid text s (is_kept s m)))
    where
      valid : List CandidateSpan
      valid = filter (is_valid text) (all_candidates detectors text context)

      is_kept : (s : CandidateSpan) → Memᴰ s valid → IsValidSpan text s
      is_kept s m = (Memᴰ-of_filter (is_valid text) (all_candidates detectors text context) m).1

      all_valid : All (IsValidSpan text) valid
      all_valid = All-of_Memᴰ (IsValidSpan text) valid is_kept

      at_zero : All (λ s. 0 ≤ pos_part s.start) (merge_spans valid)
      at_zero = All-of_Memᴰ (λ s. 0 ≤ pos_part s.start) (merge_spans valid) (λ s m. omega arith)
