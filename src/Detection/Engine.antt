-- ===== src/Detection/Engine.antt =====
-- frostglass/detection/engine.py. A detector is a function from the text; SHA-256 is a parameter.
pub mod Chain
use frostglass.Prelude.{
  ℕ, ◌-◌, Bool, ◌&&◌, List, [], ◌∷◌, ◌++◌, map, Str, length, take, drop, filter,
}
use frostglass.Prelude.Int.{ℤ, pos, leb_ℤ, ltb_ℤ, pos_part}
use frostglass.Detection.Models.{CandidateSpan, Finding, DetectionContext}
use frostglass.Detection.Hashing.{value_hash}
use frostglass.Detection.Merge.{merge_spans}

-- `Detector.detect`
abbrev pub Detector : Type 0
Detector = Str → DetectionContext → List CandidateSpan

-- `text[start:end]`, for offsets that are not negative
unfoldable pub slice : Str → ℕ → ℕ → Str
slice text start stop = take (stop - start) (drop start text)

-- `0 <= span.start < span.end <= len(text) and 0.0 <= span.confidence <= 1.0`
unfoldable pub is_valid : Str → CandidateSpan → Bool
is_valid text span =
    leb_ℤ (pos 0) span.start
    && ltb_ℤ span.start span.end
    && leb_ℤ span.end (pos (length text))
    && leb_ℤ (pos 0) span.confidence
    && leb_ℤ span.confidence (pos 10000)

-- The candidates of all detectors, in their order
unfoldable pub all_candidates : List Detector → Str → DetectionContext → List CandidateSpan
all_candidates [] text context = []
all_candidates (d ∷ ds) text context = d text context ++ all_candidates ds text context

module _ (sha256_hexdigest : List ℕ → Str) where
  unfoldable pub to_finding : Str → DetectionContext → CandidateSpan → Finding
  to_finding text context span = record {
    entity_type = span.entity_type;
    start = pos_part span.start;
    end = pos_part span.end;
    confidence = pos_part span.confidence;
    detector = span.detector;
    value_hash =
        value_hash sha256_hexdigest (slice text (pos_part span.start) (pos_part span.end))
          context.tenant_salt;
  }

  -- `DetectionEngine.detect`
  unfoldable pub detect : List Detector → Str → DetectionContext → List Finding
  detect detectors text context =
      map (to_finding text context)
        (merge_spans (filter (is_valid text) (all_candidates detectors text context)))
