-- ===== src/Policy/Precedence/Winner.antt =====
-- What the winning rule is: a block rule first, then the most specific scope, then the most
-- restrictive action.
use mathlib.Core.List.{Memᴰ}
use mathlib.Core.List.Memᴰ.{head}
use frostglass.Prelude.{
  ◌≡◌, refl, ap, ◌≤◌, ◌<◌, ◌⊎◌, inl, inr, Bool, true, false, some, List, [], ◌∷◌, arith, All,
  All-at, All-of_Memᴰ, filter, Memᴰ-filter, Memᴰ-of_filter, Bool-cases, or_list,
}
use frostglass.Prelude.Sort.{sorted_by, sorted_by-All, All-sorted_by, sorted_by-IsOrdered}
use frostglass.Policy.Models.{Rule, RuleSet, Query, Decision, rule_matches, is_block}
use frostglass.Policy.Precedence.{
  key_scope, key_action, ranks_before, candidates, matching, decision_of, decide,
}

ranks_before_total : (x y : Rule) → ranks_before x y ≡ false → ranks_before y x ≡ true
unfolding ranks_before
ranks_before_total x y h = ground arith

ranks_before_trans :
    (x y z : Rule) → ranks_before x y ≡ true → ranks_before y z ≡ true → ranks_before x z ≡ true
unfolding ranks_before
ranks_before_trans x y z h k = ground arith

ranks_before_refl : (x : Rule) → ranks_before x x ≡ true
unfolding ranks_before
ranks_before_refl x = ground arith

-- The key of `w` is at least that of `s`.
abbrev pub KeyAtLeast : Rule → Rule → Type 0
KeyAtLeast w s =
    (key_scope s < key_scope w) ⊎ ((key_scope s ≡ key_scope w) × (key_action s ≤ key_action w))

KeyAtLeast-of_ranks : (w s : Rule) → ranks_before w s ≡ true → KeyAtLeast w s
unfolding ranks_before
KeyAtLeast-of_ranks w s h = ground arith

-- `w` beats `s`: it blocks and `s` does not, or both do or neither does and its key is as great.
abbrev pub Beats : Rule → Rule → Type 0
Beats w s =
    ((is_block w.action ≡ true) × (is_block s.action ≡ false))
    ⊎ ((is_block w.action ≡ is_block s.action) × KeyAtLeast w s)

abbrev pub decided_by : RuleSet → Rule → Decision
decided_by rs w = record {
  action = w.action;
  rule_id = some w.id;
  reason = w.reason;
  policy_version = rs.version;
}

-- The head of the sorted candidates is one of them, and no key is greater.
sorted_head :
    (xs : List Rule) {w : Rule} {rest : List Rule}
    → sorted_by ranks_before xs ≡ w ∷ rest
    → Memᴰ w xs × ((s : Rule) → Memᴰ s xs → KeyAtLeast w s)
sorted_head xs {w} {rest} e = (member, λ s m. KeyAtLeast-of_ranks w s (All-at beaten key_order m))
  where
    beaten : Rule → Type 0
    beaten s = ranks_before w s ≡ true

    member : Memᴰ w xs
    member =
        let all =
          sorted_by-All ranks_before (λ s. Memᴰ s xs) xs
            (All-of_Memᴰ (λ s. Memᴰ s xs) xs (λ s m. m)) in
        (rw e at all).0

    key_order : All beaten xs
    key_order =
        let ordered = sorted_by-IsOrdered ranks_before ranks_before_total ranks_before_trans xs in
        All-sorted_by ranks_before beaten xs (rw e (ranks_before_refl w, (rw e at ordered).0))

sorted_nil : (xs : List Rule) → sorted_by ranks_before xs ≡ [] → (s : Rule) → ¬ Memᴰ s xs
sorted_nil xs e s m = All-at (λ _. ⊥) (All-sorted_by ranks_before (λ _. ⊥) xs (rw e tt)) m

-- The winner among the candidates beats every matched rule.
candidates_winner :
    (matched : List Rule) (w : Rule)
    → Memᴰ w (candidates matched)
    → ((s : Rule) → Memᴰ s (candidates matched) → KeyAtLeast w s)
    → Memᴰ w matched × ((s : Rule) → Memᴰ s matched → Beats w s)
unfolding candidates
candidates_winner matched w m best = go (filter blocks matched) refl m best
  where
    blocks : Rule → Bool
    blocks r = is_block r.action

    go :
        (bs : List Rule)
        → filter blocks matched ≡ bs
        → Memᴰ w (or_list bs matched)
        → ((s : Rule) → Memᴰ s (or_list bs matched) → KeyAtLeast w s)
        → Memᴰ w matched × ((s : Rule) → Memᴰ s matched → Beats w s)
    go [] e m best = (m, λ s k. inr (ground (arith, no_block w m, no_block s k), best s k))
      where
        no_block : (s : Rule) → Memᴰ s matched → is_block s.action ≡ false
        no_block s k = elim (Bool-cases (is_block s.action)) [
          | inl h ↦ elim (rw e at (Memᴰ-filter blocks matched k h)) [ ]
          | inr h ↦ h
        ]
    go (b ∷ bs) e m best =
        let found = Memᴰ-of_filter blocks matched (rw (← e) at m) in
        (
          found.0,
          λ s k. elim (Bool-cases (is_block s.action)) [
            | inl h ↦
                inr (ground (arith, found.1), best s (rw e at (Memᴰ-filter blocks matched k h)))
            | inr h ↦ inl (found.1, h)
          ],
        )

candidates_nonempty :
    (matched : List Rule)
    → ((s : Rule) → ¬ Memᴰ s (candidates matched))
    → (s : Rule) → ¬ Memᴰ s matched
unfolding candidates
candidates_nonempty matched none_left s m = go (filter (λ r. is_block r.action) matched) none_left
  where
    go : (bs : List Rule) → ((s : Rule) → ¬ Memᴰ s (or_list bs matched)) → ⊥
    go [] h = h s m
    go (b ∷ bs) h = h b (head refl)

-- If some rule matches the query, the decision is that of a matching rule which beats every
-- matching rule: a block rule beats the others, and otherwise the more specific scope and then the
-- more restrictive action.
pub decide_winner :
    (rs : RuleSet) (q : Query) {r : Rule}
    → Memᴰ r rs.rules
    → rule_matches r q ≡ true
    → (w : Rule) × Memᴰ w rs.rules
      × (rule_matches w q ≡ true)
      × (decide rs q ≡ decided_by rs w)
      × ((s : Rule) → Memᴰ s rs.rules → rule_matches s q ≡ true → Beats w s)
unfolding decide matching decision_of
decide_winner rs q {r} m h = go (sorted_by ranks_before cands) refl
  where
    matched : List Rule
    matched = matching rs q

    cands : List Rule
    cands = candidates matched

    go :
        (sorted : List Rule)
        → sorted_by ranks_before cands ≡ sorted
        → (w : Rule) × Memᴰ w rs.rules
          × (rule_matches w q ≡ true)
          × (decision_of rs (sorted_by ranks_before cands) ≡ decided_by rs w)
          × ((s : Rule) → Memᴰ s rs.rules → rule_matches s q ≡ true → Beats w s)
    go [] e =
        absurd (candidates_nonempty matched (sorted_nil cands e) r (Memᴰ-filter _ rs.rules m h))
    go (w ∷ rest) e =
        let top = sorted_head cands e in
        let won = candidates_winner matched w top.0 top.1 in
        let found = Memᴰ-of_filter (λ s. rule_matches s q) rs.rules won.0 in
        (
          w,
          found.0,
          found.1,
          ap (decision_of rs) e,
          λ s k hs. won.1 s (Memᴰ-filter _ rs.rules k hs),
        )
