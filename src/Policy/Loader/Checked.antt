-- ===== src/Policy/Loader/Checked.antt =====
-- The loader's validation: every rule set that it returns is valid.
use frostglass.Prelude.{
  ◌≡◌, ◌≤◌, refl, Bool, true, false, some, List, [], ◌∷◌, Str, str, NonEmpty, All, ok, arith,
  Returns, Returns-ok, Returns-err, Returns-bind, Bool-cases, Option-cases, str_eq, subst, inl, inr,
  contains, raise_if,
}
use mathlib.Core.Option.{some-injective, none-ne-some}
use frostglass.Prelude.Int.{pos}
use frostglass.Errors.{Py, value_error}
use frostglass.Json.{
  Value, null, boolean, float, text, array, object, Items, nil, cons, Fields, get, get_default, end,
}
use frostglass.Policy.Models.{RuleSet}
use frostglass.Policy.Loader.{
  frozenset, nonempty_strings, names, rule_id, rule_entity_types, in_unit, rule_confidence,
  rule_scope, rule_reason, rule_consistency, rule, rule_list, policy_version, policy_rules,
  shadow_flag, repeats_id, ruleset_from_raw, load_yaml, action,
}
use frostglass.Policy.Loader.Valid.{AreNames, IsConsistency, IsValidRule, IsValid}

frozenset-All : (xs : List Str) → AreNames xs → AreNames (frozenset xs)
unfolding frozenset
frozenset-All [] h = tt
frozenset-All (x ∷ xs) h = elim (Bool-cases (contains x (frozenset xs))) [
  | inl old ↦ rw old (frozenset-All xs h.1)
  | inr new ↦ rw new (h.0, frozenset-All xs h.1)
]

nonempty_strings-named : (vs : Items) (xs : List Str) → nonempty_strings vs ≡ some xs → AreNames xs
unfolding nonempty_strings
nonempty_strings-named nil xs h = ground arith
nonempty_strings-named (cons (text (c ∷ s)) vs) xs h = elim (Option-cases (nonempty_strings vs)) [
  | inl e ↦ absurd (none-ne-some xs (rw e at h))
  | inr (rest, e) ↦
      let p : some ((c ∷ s) ∷ rest) ≡ some xs = rw e at h in
      subst AreNames (some-injective _ _ p) (tt, nonempty_strings-named vs rest e)
]
nonempty_strings-named (cons _ vs) xs h = absurd (none-ne-some xs h)

pub names-named : (v : Value) (n : Str) → Returns AreNames (names v n)
unfolding names
names-named null n = Returns-ok tt
names-named (array vs) n = elim (Option-cases (nonempty_strings vs)) [
  | inl e ↦ rw (e, names) (Returns-err _)
  | inr (xs, e) ↦ rw (e, names) (Returns-ok (frozenset-All xs (nonempty_strings-named vs xs e)))
]
names-named _ n = Returns-err _

id-named : (v : Value) → Returns NonEmpty (rule_id v)
unfolding rule_id
id-named (text (c ∷ s)) = Returns-ok tt
id-named _ = Returns-err _

reason-named : (v : Value) → Returns NonEmpty (rule_reason v)
unfolding rule_reason
reason-named (text (c ∷ s)) = Returns-ok tt
reason-named _ = Returns-err _

types-named : (v : Value) → Returns AreNames (rule_entity_types v)
unfolding rule_entity_types
types-named (array vs) = elim (Option-cases (nonempty_strings vs)) [
  | inl e ↦ rw (e, rule_entity_types) (Returns-err _)
  | inr (xs, e) ↦ rw (e, rule_entity_types) (Returns-ok (nonempty_strings-named vs xs e))
]
types-named _ = Returns-err _

confidence-bounded : (v : Value) → Returns (λ n. n ≤ 10000) (rule_confidence v)
unfolding rule_confidence in_unit
confidence-bounded v = record { at = λ n h. ground arith }

IsConsistency-known : (v : Value) → Returns IsConsistency (rule_consistency v)
unfolding rule_consistency
IsConsistency-known null = Returns-ok tt
IsConsistency-known (text s) =
    elim (Bool-cases (contains s (str "request" ∷ str "session" ∷ str "tenant" ∷ []))) [
      | inl e ↦ rw e (Returns-ok e)
      | inr e ↦ rw e (Returns-err _)
    ]
IsConsistency-known _ = Returns-err _

version-positive : (v : Value) → Returns (λ n. 1 ≤ n) (policy_version v)
unfolding policy_version
version-positive v = record { at = λ n h. ground arith }

any_value : {A : Type 0} (m : Py A) → Returns (λ _. Unit {0}) m
any_value m = record { at = λ _ _. tt }

rule-IsValid : (v : Value) → Returns IsValidRule (rule v)
unfolding rule
rule-IsValid (object raw) = Returns-bind {m = rule_id (get raw (str "id"))} _ (id-named _) λ id h1.
    Returns-bind {m = rule_entity_types (get raw (str "entity_types"))} _ (types-named _)
      λ types h2.
        Returns-bind {m = rule_confidence (get_default raw (str "min_confidence") (float (pos 0)))}
          _ (confidence-bounded (get_default raw (str "min_confidence") (float (pos 0))))
          λ confidence h3.
            Returns-bind {m = rule_scope (get_default raw (str "scope") (object end))} _
              (any_value _)
              λ scope_raw _.
                Returns-bind
                  {m = rule_reason
                    (get_default raw (str "reason") (text (str "Matched policy rule.")))}
                  _ (reason-named _)
                  λ reason h4.
                    Returns-bind {m = rule_consistency (get raw (str "consistency"))} _
                      (IsConsistency-known _)
                      λ consistency h5.
                        Returns-bind
                          {m = action (get_default raw (str "action") (text (str "pseudonymize")))}
                          _ (any_value _)
                          λ act _.
                            Returns-bind {m = names (get scope_raw (str "users")) (str "users")} _
                              (names-named _ _)
                              λ users h6.
                                Returns-bind {m = names (get scope_raw (str "teams")) (str "teams")}
                                  _ (names-named _ _)
                                  λ teams h7.
                                    Returns-bind
                                      {m = names (get scope_raw (str "models")) (str "models")} _
                                      (names-named _ _)
                                      λ models h8. Returns-ok (record {
                                        id_named = h1;
                                        types_named = frozenset-All types h2;
                                        confidence_bounded = h3;
                                        users_named = h6;
                                        teams_named = h7;
                                        models_named = h8;
                                        reason_given = h4;
                                        consistency_known = h5;
                                      })
rule-IsValid _ = Returns-err _

rule_list-IsValid : (vs : Items) → Returns (All IsValidRule) (rule_list vs)
unfolding rule_list
rule_list-IsValid nil = Returns-ok tt
rule_list-IsValid (cons v vs) =
    Returns-bind {m = rule v} _ (rule-IsValid v)
      λ r h. Returns-bind {m = rule_list vs} _ (rule_list-IsValid vs) λ rest k. Returns-ok (h, k)

rules-IsValid : (v : Value) → Returns (All IsValidRule) (policy_rules v)
unfolding policy_rules
rules-IsValid (array vs) = rule_list-IsValid vs
rules-IsValid _ = Returns-err _

ruleset-IsValid : (raw : Fields) → Returns IsValid (ruleset_from_raw raw)
unfolding ruleset_from_raw
ruleset-IsValid raw =
    Returns-bind {m = policy_version (get raw (str "version"))} _ (version-positive _) λ version h1.
      Returns-bind {m = policy_rules (get_default raw (str "rules") (array nil))} _
        (rules-IsValid _)
        λ rules h2.
          Returns-bind
            {m = raise_if (repeats_id rules) (value_error (str "policy rule IDs must be unique"))} _
            (not_raised (repeats_id rules))
            λ _ h3.
              Returns-bind {m = shadow_flag (get_default raw (str "shadow_mode") (boolean false))} _
                (any_value _)
                λ shadow _.
                  Returns-bind
                    {m = action
                      (get_default raw (str "default_action") (text (str "pseudonymize")))}
                    _ (any_value _)
                    λ default _.
                      Returns-ok
                        (record { version_positive = h1; rules_valid = h2; ids_distinct = h3 })
  where
    not_raised :
        (b : Bool)
        → Returns (λ _. b ≡ false) (raise_if b (value_error (str "policy rule IDs must be unique")))
    not_raised true = Returns-err _
    not_raised false = Returns-ok refl

-- Every rule set that the YAML loader returns is valid: its version is positive, its rule ids are
-- distinct, and in each rule the names, the reason, the confidence and the consistency are in range.
pub load_yaml-IsValid : (document : Value) (rs : RuleSet) → load_yaml document ≡ ok rs → IsValid rs
unfolding load_yaml
load_yaml-IsValid (object raw) rs h = (ruleset-IsValid raw).at rs h
load_yaml-IsValid null rs h = cc
load_yaml-IsValid _ rs h = cc
