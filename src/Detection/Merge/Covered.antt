-- ===== src/Detection/Merge/Covered.antt =====
-- Why a candidate is dropped: it overlaps a kept span of at least its rank.
use mathlib.Core.List.{Memᴰ}
use mathlib.Core.List.Memᴰ.{head, tail}
use frostglass.Prelude.{
  ◌≡◌, refl, true, false, ◌⊎◌, inl, inr, List, [], ◌∷◌, ◌++◌, all, All, Pairs, Bool-cases, arith,
  str_leb_refl, str_leb_total, str_leb_trans, if◌then◌else◌, All-at, All-append, All-of_Memᴰ,
  Memᴰ-append_left, Memᴰ-append_right,
}
use frostglass.Prelude.Sort.{sorted_by, sorted_by-IsOrdered, All-sorted_by, Memᴰ-sorted_by}
use frostglass.Detection.Models.{CandidateSpan}
use frostglass.Detection.Merge.{
  rank_le, latest_first, best_first, in_text_order, apart, select_apart, merge_spans,
}

rank_le_refl : (a : CandidateSpan) → rank_le a a ≡ true
unfolding rank_le
rank_le_refl a = ground (arith, str_leb_refl a.detector)

rank_le_total : (a b : CandidateSpan) → rank_le a b ≡ false → rank_le b a ≡ true
unfolding rank_le
rank_le_total a b h = ground (arith, str_leb_total a.detector b.detector)

rank_le_trans :
    (a b c : CandidateSpan) → rank_le a b ≡ true → rank_le b c ≡ true → rank_le a c ≡ true
unfolding rank_le
rank_le_trans a b c h k = ground (arith, str_leb_trans a.detector b.detector c.detector)

best_first_total : (a b : CandidateSpan) → best_first a b ≡ false → best_first b a ≡ true
unfolding best_first
best_first_total a b = rank_le_total b a

best_first_trans :
    (a b c : CandidateSpan) → best_first a b ≡ true → best_first b c ≡ true → best_first a c ≡ true
unfolding best_first
best_first_trans a b c h k = rank_le_trans c b a k h

-- A kept span that stands for the candidate `c`: `c` itself, or one that overlaps `c` and has at least
-- its rank.
abbrev pub Covers : CandidateSpan → CandidateSpan → Type 0
Covers c s = ((s ≡ c) ⊎ (apart c s ≡ false)) × (rank_le c s ≡ true)

abbrev pub IsCovered : List CandidateSpan → CandidateSpan → Type 0
IsCovered kept c = (s : CandidateSpan) × Memᴰ s kept × Covers c s

keeps_selected :
    {s : CandidateSpan} (selected cs : List CandidateSpan)
    → Memᴰ s selected
    → Memᴰ s (select_apart selected cs)
unfolding select_apart
keeps_selected selected [] m = m
keeps_selected {s} selected (c ∷ cs) m =
    keeps_selected (if all (apart c) selected then selected ++ c ∷ [] else selected) cs
      (still (Bool-cases (all (apart c) selected)))
  where
    still :
        (all (apart c) selected ≡ true) ⊎ (all (apart c) selected ≡ false)
        → Memᴰ s (if all (apart c) selected then selected ++ c ∷ [] else selected)
    still (inl e) = rw e (Memᴰ-append_left (c ∷ []) m)
    still (inr e) = rw e m

overlapped :
    (c : CandidateSpan) (selected : List CandidateSpan)
    → all (apart c) selected ≡ false
    → (s : CandidateSpan) × Memᴰ s selected × (apart c s ≡ false)
unfolding all
overlapped c [] h = cc
overlapped c (x ∷ xs) h = elim (Bool-cases (apart c x)) [
  | inl e ↦ let (s, m, o) = overlapped c xs (ground arith) in (s, tail m, o)
  | inr e ↦ (x, head refl, e)
]

select_apart-covers :
    (selected cs : List CandidateSpan)
    → ((s : CandidateSpan) → Memᴰ s selected → All (λ c. rank_le c s ≡ true) cs)
    → Pairs (λ a b. best_first a b ≡ true) cs
    → All (IsCovered (select_apart selected cs)) cs
unfolding select_apart best_first
select_apart-covers selected [] above ordered = tt
select_apart-covers selected (c ∷ cs) above ordered = (
  first (Bool-cases (all (apart c) selected)),
  select_apart-covers selected' cs (λ s m. later s (Bool-cases (all (apart c) selected)) m)
      ordered.1,
)
  where
    selected' : List CandidateSpan
    selected' = if all (apart c) selected then selected ++ c ∷ [] else selected

    first :
        (all (apart c) selected ≡ true) ⊎ (all (apart c) selected ≡ false)
        → IsCovered (select_apart selected' cs) c
    first (inl e) = (
      c,
      keeps_selected selected' cs (rw e (Memᴰ-append_right selected (head refl))),
      (inl refl, rank_le_refl c),
    )
    first (inr e) =
        let (s, m, o) = overlapped c selected e in
        (s, keeps_selected selected' cs (rw e m), (inr o, (above s m).0))

    later :
        (s : CandidateSpan)
        → (all (apart c) selected ≡ true) ⊎ (all (apart c) selected ≡ false)
        → Memᴰ s selected'
        → All (λ d. rank_le d s ≡ true) cs
    later s (inl e) m =
        All-at (λ t. All (λ d. rank_le d t ≡ true) cs)
          (All-append (λ t. All (λ d. rank_le d t ≡ true) cs) selected (c ∷ [])
            (All-of_Memᴰ (λ t. All (λ d. rank_le d t ≡ true) cs) selected (λ t k. (above t k).1))
            (ordered.0, tt))
          (rw e at m)
    later s (inr e) m = (above s (rw e at m)).1

-- Every candidate is kept, or overlaps a kept span of at least its rank.
pub merge_spans-covers : (cs : List CandidateSpan) → All (IsCovered (merge_spans cs)) cs
unfolding merge_spans
merge_spans-covers cs = All-sorted_by latest_first Kept cs (
    All-sorted_by best_first Kept latest
      (All-of_Memᴰ Kept best (λ c m. in_order c (All-at (IsCovered chosen) covered m))))
  where
    latest : List CandidateSpan
    latest = sorted_by latest_first cs

    best : List CandidateSpan
    best = sorted_by best_first latest

    chosen : List CandidateSpan
    chosen = select_apart [] best

    Kept : CandidateSpan → Type 0
    Kept = IsCovered (sorted_by in_text_order chosen)

    covered : All (IsCovered chosen) best
    covered =
        select_apart-covers [] best (λ s m. elim m [ ])
          (sorted_by-IsOrdered best_first best_first_total best_first_trans latest)

    in_order : (c : CandidateSpan) → IsCovered chosen c → Kept c
    in_order c (s, m, k) = (s, Memᴰ-sorted_by in_text_order chosen m, k)
