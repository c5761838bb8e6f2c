-- ===== src/Detection/Tests.antt =====
-- The detection theorems at concrete candidates.
use frostglass.Prelude.{ℕ, List, [], ◌∷◌, Str, All, Pairs, length}
use frostglass.Prelude.Int.{pos}
use frostglass.Detection.Models.{CandidateSpan, DetectionContext}
use frostglass.Detection.Merge.{merge_spans}
use frostglass.Detection.Merge.Kept.{IsApart, merge_spans-IsApart}
use frostglass.Detection.Merge.Covered.{IsCovered, merge_spans-covers}
use frostglass.Detection.Engine.{Detector, detect}
use frostglass.Detection.Engine.Chain.{IsChain, detect-IsChain}

-- Two spans that overlap, and one after them
abbrev long_span : CandidateSpan
long_span = record {
  entity_type = 1 ∷ [];
  start = pos 0;
  end = pos 4;
  confidence = pos 9000;
  detector = 1 ∷ [];
  specificity = 1;
}

abbrev short_span : CandidateSpan
short_span = record {
  entity_type = 2 ∷ [];
  start = pos 3;
  end = pos 5;
  confidence = pos 8000;
  detector = 2 ∷ [];
  specificity = 3;
}

abbrev late_span : CandidateSpan
late_span = record {
  entity_type = 2 ∷ [];
  start = pos 5;
  end = pos 6;
  confidence = pos 5000;
  detector = 2 ∷ [];
  specificity = 3;
}

abbrev three_spans : List CandidateSpan
three_spans = late_span ∷ short_span ∷ long_span ∷ []

merge_spans-IsApart_example : Pairs IsApart (merge_spans three_spans)
merge_spans-IsApart_example = merge_spans-IsApart three_spans

merge_spans-covers_example : All (IsCovered (merge_spans three_spans)) three_spans
merge_spans-covers_example = merge_spans-covers three_spans

abbrev three_detector : Detector
three_detector text context = three_spans

abbrev plain_digest : List ℕ → Str
plain_digest bytes = bytes

abbrev some_context : DetectionContext
some_context = record { tenant_id = 3 ∷ []; tenant_salt = 4 ∷ []; ner_confidence_floor = 5000 }

abbrev some_text : Str
some_text = 97 ∷ 98 ∷ 99 ∷ 100 ∷ 101 ∷ 102 ∷ []

detect-IsChain_example :
    IsChain 0 (length some_text) (detect plain_digest (three_detector ∷ []) some_text some_context)
detect-IsChain_example = detect-IsChain plain_digest (three_detector ∷ []) some_text some_context
