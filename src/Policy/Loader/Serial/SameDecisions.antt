-- ===== src/Policy/Loader/Serial/SameDecisions.antt =====
-- Storing a policy does not change what it decides.
use frostglass.Prelude.{
  ◌≡◌, refl, true, not, ◌||◌, List, [], ◌∷◌, map, Str, str_leb, str_eq, contains, arith, filter-map,
  or_list, Bool-cases, inl, inr, if◌then◌else◌, ok, ◌∙◌,
}
use frostglass.Prelude.Sort.{sorted_by, insert_sorted, contains-sorted_by, sorted_by-map}
use frostglass.Policy.Models.{
  Rule, RuleSet, Query, selects, scope_matches, is_nonempty, specificity, rule_matches, is_block,
}
use frostglass.Policy.Precedence.{
  key_scope, key_action, ranks_before, candidates, matching, decision_of, decide,
}
use frostglass.Policy.Loader.{frozenset}
use frostglass.Policy.Loader.Valid.{IsValid}
use frostglass.Policy.Loader.Serial.{serialize, deserialize}
use frostglass.Policy.Loader.Serial.RoundTrip.{
  stored_names, stored_rule, stored, deserialize-serialize,
}

contains-frozenset : (a : Str) (xs : List Str) → contains a (frozenset xs) ≡ contains a xs
unfolding frozenset contains
contains-frozenset a [] = refl
contains-frozenset a (x ∷ xs) =
    ground (arith, str_eq.beq_iff a x, contains-frozenset a xs, contains-frozenset x xs)

contains-stored : (a : Str) (xs : List Str) → contains a (stored_names xs) ≡ contains a xs
contains-stored a xs = contains-frozenset a (sorted_by str_leb xs) ∙ contains-sorted_by str_leb a xs

frozenset-nonempty : (xs : List Str) → is_nonempty (frozenset xs) ≡ is_nonempty xs
unfolding frozenset is_nonempty contains
frozenset-nonempty [] = refl
frozenset-nonempty (x ∷ xs) = go (frozenset xs)
  where
    go : (ys : List Str) → is_nonempty (if contains x ys then ys else x ∷ ys) ≡ true
    go [] = refl
    go (y ∷ ys) = elim (Bool-cases (contains x (y ∷ ys))) [ inl e ↦ rw e | inr e ↦ rw e ]

sorted-nonempty : (xs : List Str) → is_nonempty (sorted_by str_leb xs) ≡ is_nonempty xs
unfolding sorted_by is_nonempty insert_sorted
sorted-nonempty [] = refl
sorted-nonempty (x ∷ xs) = go (sorted_by str_leb xs)
  where
    go : (ys : List Str) → is_nonempty (insert_sorted str_leb x ys) ≡ true
    go [] = refl
    go (y ∷ ys) = elim (Bool-cases (str_leb x y)) [ inl e ↦ rw e | inr e ↦ rw e ]

stored-nonempty : (xs : List Str) → is_nonempty (stored_names xs) ≡ is_nonempty xs
stored-nonempty xs = frozenset-nonempty (sorted_by str_leb xs) ∙ sorted-nonempty xs

selects-eq : (xs : List Str) (n : Str) → selects xs n ≡ (not (is_nonempty xs) || contains n xs)
unfolding selects is_nonempty
selects-eq [] n = refl
selects-eq (x ∷ xs) n = refl

selects-stored : (xs : List Str) (n : Str) → selects (stored_names xs) n ≡ selects xs n
selects-stored xs n = simp (selects-eq, stored-nonempty, contains-stored)

matches-stored : (q : Query) (r : Rule) → rule_matches (stored_rule r) q ≡ rule_matches r q
unfolding rule_matches scope_matches
matches-stored q r = simp (contains-stored, selects-stored)

key_scope-stored : (r : Rule) → key_scope (stored_rule r) ≡ key_scope r
unfolding key_scope specificity
key_scope-stored r = simp stored-nonempty

ranks-stored : (x y : Rule) → ranks_before (stored_rule x) (stored_rule y) ≡ ranks_before x y
unfolding ranks_before key_action
ranks-stored x y = simp key_scope-stored

or_list-map :
    (xs ys : List Rule)
    → or_list (map stored_rule xs) (map stored_rule ys) ≡ map stored_rule (or_list xs ys)
or_list-map [] ys = refl
or_list-map (x ∷ xs) ys = refl

decision-stored :
    (rs : RuleSet) (rules : List Rule)
    → decision_of (stored rs) (map stored_rule rules) ≡ decision_of rs rules
unfolding decision_of
decision-stored rs [] = refl
decision-stored rs (r ∷ rules) = refl

-- The stored form of a rule set decides every query as the rule set does.
pub decide-stored : (rs : RuleSet) (q : Query) → decide (stored rs) q ≡ decide rs q
unfolding decide matching candidates
decide-stored rs q = simp (
  filter-map (λ r. rule_matches r q) (λ r. rule_matches r q) stored_rule (matches-stored q),
  filter-map (λ r. is_block r.action) (λ r. is_block r.action) stored_rule (λ r. refl),
  or_list-map,
  sorted_by-map ranks_before ranks_before stored_rule ranks-stored,
  decision-stored,
)

-- A valid rule set that was stored and read back decides every query as before.
pub decide-deserialize-serialize :
    (rs : RuleSet)
    → IsValid rs
    → (back : RuleSet) × (deserialize (serialize rs) ≡ ok back)
      × ((q : Query) → decide back q ≡ decide rs q)
decide-deserialize-serialize rs v = (stored rs, deserialize-serialize rs v, decide-stored rs)
