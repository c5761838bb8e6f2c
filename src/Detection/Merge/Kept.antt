-- ===== src/Detection/Merge/Kept.antt =====
-- What the merge keeps: disjoint spans in text order, and every other candidate overlaps a kept span
-- of at least its rank.
use frostglass.Prelude.{
  ◌≡◌, Bool, true, false, ◌⊎◌, inl, inr, List, [], ◌∷◌, ◌++◌, all, All, Pairs, Bool-cases, arith,
  if◌then◌else◌, All-append,
}
use frostglass.Prelude.Sort.{sorted_by, sorted_by-Pairs}
use frostglass.Detection.Models.{CandidateSpan}
use frostglass.Detection.Merge.{
  latest_first, best_first, in_text_order, apart, select_apart, merge_spans,
}

-- Two spans share no position.
abbrev pub IsApart : CandidateSpan → CandidateSpan → Type 0
IsApart a b = apart a b ≡ true

IsApart-comm : (a b : CandidateSpan) → IsApart a b → IsApart b a
unfolding apart
IsApart-comm a b h = ground arith

all→All : {A : Type 0} (p : A → Bool) (xs : List A) → all p xs ≡ true → All (λ x. p x ≡ true) xs
unfolding all
all→All p [] h = tt
all→All p (x ∷ xs) h = ground (arith, all→All p xs)

Pairs-snoc :
    (xs : List CandidateSpan) (c : CandidateSpan)
    → Pairs IsApart xs
    → All (λ x. IsApart x c) xs
    → Pairs IsApart (xs ++ c ∷ [])
Pairs-snoc [] c h k = (tt, tt)
Pairs-snoc (x ∷ xs) c h k =
    (All-append (IsApart x) xs (c ∷ []) h.0 (k.0, tt), Pairs-snoc xs c h.1 k.1)

All-flip :
    (xs : List CandidateSpan) (c : CandidateSpan) → All (IsApart c) xs → All (λ x. IsApart x c) xs
All-flip [] c h = tt
All-flip (x ∷ xs) c h = (IsApart-comm c x h.0, All-flip xs c h.1)

select_apart-Pairs :
    (selected cs : List CandidateSpan)
    → Pairs IsApart selected
    → Pairs IsApart (select_apart selected cs)
unfolding select_apart
select_apart-Pairs selected [] h = h
select_apart-Pairs selected (c ∷ cs) h =
    select_apart-Pairs (if all (apart c) selected then selected ++ c ∷ [] else selected) cs
      (added (Bool-cases (all (apart c) selected)))
  where
    added :
        (all (apart c) selected ≡ true) ⊎ (all (apart c) selected ≡ false)
        → Pairs IsApart (if all (apart c) selected then selected ++ c ∷ [] else selected)
    added (inl e) =
        rw e (Pairs-snoc selected c h (All-flip selected c (all→All (apart c) selected e)))
    added (inr e) = rw e h

-- No two kept spans overlap.
pub merge_spans-IsApart : (cs : List CandidateSpan) → Pairs IsApart (merge_spans cs)
unfolding merge_spans
merge_spans-IsApart cs =
    sorted_by-Pairs in_text_order IsApart IsApart-comm
      (select_apart [] (sorted_by best_first (sorted_by latest_first cs)))
      (select_apart-Pairs [] (sorted_by best_first (sorted_by latest_first cs)) tt)
