-- ===== src/Detection/Merge.antt =====
-- frostglass/detection/merge.py
pub mod Kept
pub mod Covered
pub mod Ordered
use frostglass.Prelude.{
  Bool, true, ◌&&◌, ◌||◌, List, [], ◌∷◌, ◌++◌, str_leb, str_beq, ltb, leb, all, if◌then◌else◌,
}
use frostglass.Prelude.Int.{ℤ, leb_ℤ, ltb_ℤ, ◌-ℤ◌}
use frostglass.Prelude.Sort.{sorted_by}
use frostglass.Detection.Models.{CandidateSpan}

-- `_rank(a) <= _rank(b)`, compared as tuples are: a component decides where it is less, and the next
-- one is read where it is equal.
unfoldable pub rank_le : CandidateSpan → CandidateSpan → Bool
rank_le a b =
    ltb_ℤ a.confidence b.confidence
    || (leb_ℤ a.confidence b.confidence
        && (ltb a.specificity b.specificity
            || (leb a.specificity b.specificity
                && (ltb_ℤ (a.end -ℤ a.start) (b.end -ℤ b.start)
                    || (leb_ℤ (a.end -ℤ a.start) (b.end -ℤ b.start)
                        && str_leb a.detector b.detector)))))

-- `key=lambda span: (-span.start, span.end)`
unfoldable pub latest_first : CandidateSpan → CandidateSpan → Bool
latest_first a b = ltb_ℤ b.start a.start || (leb_ℤ b.start a.start && leb_ℤ a.end b.end)

-- `key=_rank, reverse=True`
unfoldable pub best_first : CandidateSpan → CandidateSpan → Bool
best_first a b = rank_le b a

-- `key=lambda span: (span.start, span.end)`
unfoldable pub in_text_order : CandidateSpan → CandidateSpan → Bool
in_text_order a b = ltb_ℤ a.start b.start || (leb_ℤ a.start b.start && leb_ℤ a.end b.end)

-- `candidate.end <= span.start or candidate.start >= span.end`
unfoldable pub apart : CandidateSpan → CandidateSpan → Bool
apart candidate span = leb_ℤ candidate.end span.start || leb_ℤ span.end candidate.start

-- The loop, `selected` so far
unfoldable pub select_apart : List CandidateSpan → List CandidateSpan → List CandidateSpan
select_apart selected [] = selected
select_apart selected (candidate ∷ rest) =
    select_apart (if all (apart candidate) selected then selected ++ candidate ∷ [] else selected)
      rest

unfoldable pub merge_spans : List CandidateSpan → List CandidateSpan
merge_spans candidates =
    sorted_by in_text_order
      (select_apart [] (sorted_by best_first (sorted_by latest_first candidates)))
