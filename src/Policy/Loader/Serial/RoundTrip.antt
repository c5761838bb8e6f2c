-- ===== src/Policy/Loader/Serial/RoundTrip.antt =====
-- A valid rule set comes back from its stored document, with its sets sorted.
use frostglass.Prelude.{
  ℕ, suc, ◌≡◌, ◌≤◌, refl, ap, Option, none, some, List, [], ◌∷◌, map, Str, str, str_beq, str_eq,
  zero, NonEmpty, All, length-map, str_leb, ok, arith,
}
use frostglass.Prelude.Int.{pos}
use frostglass.Prelude.Sort.{sorted_by, sorted_by-All}
use frostglass.Json.{Value, text, object, float, integer, of_list, get, get_default, find}
use frostglass.Policy.Models.{Action, allow, pseudonymize, hash, tag, block, Rule, RuleSet, Scope}
use frostglass.Policy.Loader.{
  frozenset, action, action_named, nonempty_strings, names, rule_id, rule_entity_types, in_unit,
  rule_confidence, rule_reason, rule_consistency, rule, rule_list, policy_version, policy_rules,
  shadow_flag, repeats_id, ruleset_from_raw,
}
use frostglass.Policy.Loader.Valid.{AreNames, IsConsistency, IsValidRule, IsValid}
use frostglass.Policy.Loader.Serial.{
  action_value, sorted_names, optional_text, scope_document, rule_document, serialize, deserialize,
}

abbrev pub stored_names : List Str → List Str
stored_names xs = frozenset (sorted_by str_leb xs)

abbrev pub stored_rule : Rule → Rule
stored_rule r = record r {
  entity_types = stored_names r.entity_types;
  scope = record {
    users = stored_names r.scope.users;
    teams = stored_names r.scope.teams;
    models = stored_names r.scope.models;
  };
}

abbrev pub stored : RuleSet → RuleSet
stored rs = record rs { rules = map stored_rule rs.rules }

action_text : (a : Action) → action (text (action_value a)) ≡ ok a
unfolding action action_named action_value str str_beq
action_text allow = refl
action_text pseudonymize = refl
action_text hash = refl
action_text tag = refl
action_text block = refl

nonempty_texts : (xs : List Str) → AreNames xs → nonempty_strings (of_list (map text xs)) ≡ some xs
unfolding nonempty_strings
nonempty_texts [] h = refl
nonempty_texts ([] ∷ xs) h = absurd h.0
nonempty_texts ((c ∷ s) ∷ xs) h = rw (nonempty_texts xs h.1)

names_sorted :
    (xs : List Str) (n : Str) → AreNames xs → names (sorted_names xs) n ≡ ok (stored_names xs)
unfolding names sorted_names
names_sorted xs n h =
    rw (nonempty_texts (sorted_by str_leb xs) (sorted_by-All str_leb NonEmpty xs h), names)

types_sorted :
    (xs : List Str) → AreNames xs → rule_entity_types (sorted_names xs) ≡ ok (sorted_by str_leb xs)
unfolding rule_entity_types sorted_names
types_sorted xs h =
    rw (
      nonempty_texts (sorted_by str_leb xs) (sorted_by-All str_leb NonEmpty xs h),
      rule_entity_types,
    )

id_text : (s : Str) → NonEmpty s → rule_id (text s) ≡ ok s
unfolding rule_id
id_text [] h = absurd h
id_text (c ∷ s) h = refl

reason_text : (s : Str) → NonEmpty s → rule_reason (text s) ≡ ok s
unfolding rule_reason
reason_text [] h = absurd h
reason_text (c ∷ s) h = refl

confidence_float : (n : ℕ) → n ≤ 10000 → rule_confidence (float (pos n)) ≡ ok n
unfolding rule_confidence in_unit
confidence_float n h = ground arith

consistency_text : (o : Option Str) → IsConsistency o → rule_consistency (optional_text o) ≡ ok o
unfolding rule_consistency optional_text
consistency_text none h = refl
consistency_text (some s) h = rw h

module _ (r : Rule) where
  get_id : get (rule_document r) (str "id") ≡ text r.id
  unfolding get find rule_document str str_beq
  get_id = refl

  get_types : get (rule_document r) (str "entity_types") ≡ sorted_names r.entity_types
  unfolding get find rule_document str str_beq
  get_types = refl

  get_confidence :
      (d : Value)
      → get_default (rule_document r) (str "min_confidence") d ≡ float (pos r.min_confidence)
  unfolding get_default find rule_document str str_beq
  get_confidence d = refl

  get_scope :
      (d : Value) → get_default (rule_document r) (str "scope") d ≡ object (scope_document r.scope)
  unfolding get_default find rule_document str str_beq
  get_scope d = refl

  get_reason : (d : Value) → get_default (rule_document r) (str "reason") d ≡ text r.reason
  unfolding get_default find rule_document str str_beq
  get_reason d = refl

  get_consistency : get (rule_document r) (str "consistency") ≡ optional_text r.consistency
  unfolding get find rule_document str str_beq
  get_consistency = refl

  get_action :
      (d : Value) → get_default (rule_document r) (str "action") d ≡ text (action_value r.action)
  unfolding get_default find rule_document str str_beq
  get_action d = refl

module _ (s : Scope) where
  get_users : get (scope_document s) (str "users") ≡ sorted_names s.users
  unfolding get find scope_document str str_beq
  get_users = refl

  get_teams : get (scope_document s) (str "teams") ≡ sorted_names s.teams
  unfolding get find scope_document str str_beq
  get_teams = refl

  get_models : get (scope_document s) (str "models") ≡ sorted_names s.models
  unfolding get find scope_document str str_beq
  get_models = refl

rule_of_document : (r : Rule) → IsValidRule r → rule (object (rule_document r)) ≡ ok (stored_rule r)
unfolding rule
rule_of_document r v = simp (
  get_id,
  get_types,
  get_confidence,
  get_scope,
  get_reason,
  get_consistency,
  get_action,
  get_users,
  get_teams,
  get_models,
  id_text r.id v.id_named,
  types_sorted r.entity_types v.types_named,
  confidence_float r.min_confidence v.confidence_bounded,
  reason_text r.reason v.reason_given,
  consistency_text r.consistency v.consistency_known,
  action_text r.action,
  names_sorted r.scope.users (str "users") v.users_named,
  names_sorted r.scope.teams (str "teams") v.teams_named,
  names_sorted r.scope.models (str "models") v.models_named,
)

rules_of_documents :
    (rules : List Rule)
    → All IsValidRule rules
    → rule_list (of_list (map (λ r. object (rule_document r)) rules)) ≡ ok (map stored_rule rules)
unfolding rule_list
rules_of_documents [] v = refl
rules_of_documents (r ∷ rules) v = simp (rule_of_document r v.0, rules_of_documents rules v.1)

stored_ids :
    (rules : List Rule)
    → map (λ (r : Rule). r.id) (map stored_rule rules) ≡ map (λ (r : Rule). r.id) rules
stored_ids [] = refl
stored_ids (r ∷ rules) = ap (◌∷◌ r.id) (stored_ids rules)

stored-distinct : (rules : List Rule) → repeats_id (map stored_rule rules) ≡ repeats_id rules
unfolding repeats_id
stored-distinct rules = rw (stored_ids rules, length-map rules stored_rule)

version_integer : (n : ℕ) → 1 ≤ n → policy_version (integer (pos n)) ≡ ok n
unfolding policy_version
version_integer zero h = absurd (omega arith)
version_integer (suc n) h = refl

-- A rule set that passes the loader's checks comes back from the document that is stored for it,
-- each of its sets sorted and without repetition.
pub deserialize-serialize :
    (rs : RuleSet) → IsValid rs → deserialize (serialize rs) ≡ ok (stored rs)
unfolding deserialize serialize ruleset_from_raw policy_rules shadow_flag get get_default find str
    str_beq
deserialize-serialize rs v = simp (
  version_integer rs.version v.version_positive,
  rules_of_documents rs.rules v.rules_valid,
  stored-distinct rs.rules,
  v.ids_distinct,
  action_text rs.default_action,
)
