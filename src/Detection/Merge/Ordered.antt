-- ===== src/Detection/Merge/Ordered.antt =====
-- The kept spans stand in text order.
use frostglass.Prelude.{
  ◌≡◌, true, false, List, [], ◌∷◌, All, Pairs, arith, ◌++◌, ◌⊎◌, inl, inr, all, All-append,
  Bool-cases, if◌then◌else◌,
}
use frostglass.Prelude.Int.{leb_ℤ, ltb_ℤ}
use frostglass.Prelude.Sort.{sorted_by-IsOrdered}
use frostglass.Detection.Models.{CandidateSpan}
use frostglass.Detection.Merge.{
  in_text_order, apart, select_apart, merge_spans, best_first, latest_first,
}
use frostglass.Prelude.Sort.{sorted_by, sorted_by-All}
use frostglass.Detection.Merge.Kept.{IsApart, merge_spans-IsApart}

in_text_order_total : (a b : CandidateSpan) → in_text_order a b ≡ false → in_text_order b a ≡ true
unfolding in_text_order
in_text_order_total a b h = ground arith

in_text_order_trans :
    (a b c : CandidateSpan)
    → in_text_order a b ≡ true
    → in_text_order b c ≡ true
    → in_text_order a c ≡ true
unfolding in_text_order
in_text_order_trans a b c h k = ground arith

-- The kept spans are ordered by their offsets.
pub merge_spans-ordered :
    (cs : List CandidateSpan) → Pairs (λ a b. in_text_order a b ≡ true) (merge_spans cs)
unfolding merge_spans
merge_spans-ordered cs =
    sorted_by-IsOrdered in_text_order in_text_order_total in_text_order_trans
      (select_apart [] (sorted_by best_first (sorted_by latest_first cs)))

select_apart-All :
    (P : CandidateSpan → Type 0) (selected cs : List CandidateSpan)
    → All P selected
    → All P cs
    → All P (select_apart selected cs)
unfolding select_apart
select_apart-All P selected [] h k = h
select_apart-All P selected (c ∷ cs) h k =
    select_apart-All P (if all (apart c) selected then selected ++ c ∷ [] else selected) cs
      (added (Bool-cases (all (apart c) selected))) k.1
  where
    added :
        (all (apart c) selected ≡ true) ⊎ (all (apart c) selected ≡ false)
        → All P (if all (apart c) selected then selected ++ c ∷ [] else selected)
    added (inl e) = rw e (All-append P selected (c ∷ []) h (k.0, tt))
    added (inr e) = rw e h

-- What holds of all candidates holds of all kept spans.
pub merge_spans-All :
    (P : CandidateSpan → Type 0) (cs : List CandidateSpan) → All P cs → All P (merge_spans cs)
unfolding merge_spans
merge_spans-All P cs h =
    sorted_by-All in_text_order P _ (
      select_apart-All P [] _ tt (sorted_by-All best_first P _ (sorted_by-All latest_first P cs h)))

-- A span that is not empty.
abbrev pub IsProper : CandidateSpan → Type 0
IsProper s = ltb_ℤ s.start s.end ≡ true

-- The first span ends before the second one starts.
abbrev pub Precedes : CandidateSpan → CandidateSpan → Type 0
Precedes a b = leb_ℤ a.end b.start ≡ true

precedes :
    (a b : CandidateSpan)
    → IsProper a
    → IsProper b
    → IsApart a b
    → in_text_order a b ≡ true
    → Precedes a b
unfolding apart in_text_order
precedes a b pa pb h k = ground arith

Pairs-Precedes :
    (xs : List CandidateSpan)
    → All IsProper xs
    → Pairs IsApart xs
    → Pairs (λ a b. in_text_order a b ≡ true) xs
    → Pairs Precedes xs
Pairs-Precedes [] p h k = tt
Pairs-Precedes (x ∷ xs) p h k = (below xs p.1 h.0 k.0, Pairs-Precedes xs p.1 h.1 k.1)
  where
    below :
        (ys : List CandidateSpan)
        → All IsProper ys
        → All (IsApart x) ys
        → All (λ b. in_text_order x b ≡ true) ys
        → All (Precedes x) ys
    below [] q a o = tt
    below (y ∷ ys) q a o = (precedes x y p.0 q.0 a.0 o.0, below ys q.1 a.1 o.1)

-- From candidates that are not empty, each kept span ends before the next ones start.
pub merge_spans-Precedes :
    (cs : List CandidateSpan) → All IsProper cs → Pairs Precedes (merge_spans cs)
merge_spans-Precedes cs p =
    Pairs-Precedes (merge_spans cs) (merge_spans-All IsProper cs p) (merge_spans-IsApart cs)
      (merge_spans-ordered cs)
