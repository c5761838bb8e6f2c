-- ===== src/Policy/Loader.antt =====
-- frostglass/policy/loader.py, the functions: a rule set from the value that the YAML or JSON parser
-- gives, and the document that is stored. `yaml.safe_load` and the JSON text are not modelled.
pub mod Serial
pub mod Valid
pub mod Checked
use frostglass.Prelude.{
  ℕ, zero, suc, ◌*◌, ◌≡◌, Bool, true, false, Option, none, some, List, [], ◌∷◌, ◌++◌, map, Str, str,
  str_eq, ◌==◌, ◌||◌, ◌&&◌, not, if◌then◌else◌, ok, err, ◌>>=◌, ◌>>◌, raise_if, contains, length,
  leb, nat_eq,
}
use frostglass.Prelude.Int.{ℤ, pos, negsuc}
use frostglass.Errors.{Py, value_error, type_error}
use frostglass.Json.{
  Value, null, boolean, integer, float, text, array, object, Items, nil, cons, Fields, get,
  get_default, end,
}
use frostglass.Policy.Models.{Action, allow, pseudonymize, hash, tag, block, Rule, RuleSet, Scope}

-- `frozenset(xs)`
unfoldable pub frozenset : List Str → List Str
frozenset [] = []
frozenset (x ∷ xs) = let rest = frozenset xs in if contains x rest then rest else x ∷ rest

-- `Action(value)`
unfoldable pub action_named : Str → Option Action
action_named s =
    if s == str "allow"
    then some allow
    else if s == str "pseudonymize"
    then some pseudonymize
    else if s == str "hash"
    then some hash
    else if s == str "tag"
    then some tag
    else if s == str "block"
    then some block
    else none

-- `_action`
unfoldable pub action : Value → Py Action
action (text s) = elim (action_named s) [
  | some a ↦ ok a
  | none ↦ err (value_error (str "unsupported policy action: " ++ s))
]
action _ = err (value_error (str "policy action must be a string"))

-- `all(isinstance(item, str) and item for item in value)`, with the strings
unfoldable pub nonempty_strings : Items → Option (List Str)
nonempty_strings nil = some []
nonempty_strings (cons (text (c ∷ s)) vs) = elim (nonempty_strings vs) [
  | some rest ↦ some ((c ∷ s) ∷ rest)
  | none ↦ none
]
nonempty_strings (cons _ vs) = none

-- `_names`
unfoldable pub names : Value → Str → Py (List Str)
names null name = ok []
names (array vs) name = elim (nonempty_strings vs) [
  | some xs ↦ ok (frozenset xs)
  | none ↦ err (value_error (str "scope." ++ name ++ str " must be a list of non-empty strings"))
]
names _ name =
    err (value_error (str "scope." ++ name ++ str " must be a list of non-empty strings"))

-- The checks of `_rule`, one field each.
unfoldable pub rule_id : Value → Py Str
rule_id (text (c ∷ s)) = ok (c ∷ s)
rule_id _ = err (value_error (str "rule id must be a non-empty string"))

unfoldable pub rule_entity_types : Value → Py (List Str)
rule_entity_types (array vs) = elim (nonempty_strings vs) [
  | some xs ↦ ok xs
  | none ↦ err (value_error (str "rule entity_types must be a non-empty string list"))
]
rule_entity_types _ = err (value_error (str "rule entity_types must be a non-empty string list"))

unfoldable pub in_unit : ℤ → Py ℕ
in_unit (pos n) =
    if leb n 10000
    then ok n
    else err (value_error (str "min_confidence must be between zero and one"))
in_unit (negsuc n) = err (value_error (str "min_confidence must be between zero and one"))

unfoldable pub rule_confidence : Value → Py ℕ
unfolding in_unit
rule_confidence (float x) = in_unit x
rule_confidence (integer (pos n)) = in_unit (pos (n * 10000))
rule_confidence _ = err (value_error (str "min_confidence must be between zero and one"))

unfoldable pub rule_scope : Value → Py Fields
rule_scope (object fs) = ok fs
rule_scope _ = err (value_error (str "rule scope must be a mapping"))

unfoldable pub rule_reason : Value → Py Str
rule_reason (text (c ∷ s)) = ok (c ∷ s)
rule_reason _ = err (value_error (str "rule reason must be a non-empty string"))

-- A list or a dict cannot be looked up in a set.
unfoldable pub rule_consistency : Value → Py (Option Str)
rule_consistency null = ok none
rule_consistency (text s) =
    if contains s (str "request" ∷ str "session" ∷ str "tenant" ∷ [])
    then ok (some s)
    else err (value_error (str "consistency must be request, session, or tenant"))
rule_consistency (array vs) = err (type_error (str "unhashable type: 'list'"))
rule_consistency (object fs) = err (type_error (str "unhashable type: 'dict'"))
rule_consistency _ = err (value_error (str "consistency must be request, session, or tenant"))

-- `_rule`
unfoldable pub rule : Value → Py Rule
unfolding rule_id rule_entity_types rule_confidence rule_scope rule_reason rule_consistency action
    names
rule (object raw) = do
  id ← rule_id (get raw (str "id"))
  types ← rule_entity_types (get raw (str "entity_types"))
  confidence ← rule_confidence (get_default raw (str "min_confidence") (float (pos 0)))
  scope_raw ← rule_scope (get_default raw (str "scope") (object end))
  reason ← rule_reason (get_default raw (str "reason") (text (str "Matched policy rule.")))
  consistency ← rule_consistency (get raw (str "consistency"))
  act ← action (get_default raw (str "action") (text (str "pseudonymize")))
  users ← names (get scope_raw (str "users")) (str "users")
  teams ← names (get scope_raw (str "teams")) (str "teams")
  models ← names (get scope_raw (str "models")) (str "models")
  ok (record {
    id = id;
    entity_types = frozenset types;
    action = act;
    min_confidence = confidence;
    scope = record { users = users; teams = teams; models = models };
    reason = reason;
    consistency = consistency;
  })
rule _ = err (value_error (str "each policy rule must be a mapping"))

-- `tuple(_rule(item) for item in rules_value)`
unfoldable pub rule_list : Items → Py (List Rule)
rule_list nil = ok []
rule_list (cons v vs) = do r ← rule v; rest ← rule_list vs; ok (r ∷ rest)

unfoldable pub policy_version : Value → Py ℕ
policy_version (integer (pos (suc n))) = ok (suc n)
policy_version _ = err (value_error (str "policy version must be a positive integer"))

unfoldable pub policy_rules : Value → Py (List Rule)
unfolding rule_list
policy_rules (array vs) = rule_list vs
policy_rules _ = err (value_error (str "policy rules must be a list"))

unfoldable pub shadow_flag : Value → Py Bool
shadow_flag (boolean b) = ok b
shadow_flag _ = err (value_error (str "shadow_mode must be boolean"))

-- `len({rule.id for rule in rules}) != len(rules)`
unfoldable pub repeats_id : List Rule → Bool
repeats_id rules = not (length (frozenset (map (λ (r : Rule). r.id) rules)) == length rules)

-- `_ruleset_from_raw`
unfoldable pub ruleset_from_raw : Fields → Py RuleSet
unfolding policy_version policy_rules repeats_id shadow_flag action
ruleset_from_raw raw = do
  version ← policy_version (get raw (str "version"))
  rules ← policy_rules (get_default raw (str "rules") (array nil))
  raise_if (repeats_id rules) (value_error (str "policy rule IDs must be unique"))
  shadow ← shadow_flag (get_default raw (str "shadow_mode") (boolean false))
  default ← action (get_default raw (str "default_action") (text (str "pseudonymize")))
  ok (record { version = version; default_action = default; rules = rules; shadow_mode = shadow })

-- `load_yaml`, of the parsed document
unfoldable pub load_yaml : Value → Py RuleSet
unfolding ruleset_from_raw
load_yaml (object raw) = ruleset_from_raw raw
load_yaml _ = err (value_error (str "policy YAML must be a mapping"))
