-- ===== src/Policy/Loader/Serial.antt =====
-- frostglass/policy/loader.py, `_serialize` and `_deserialize`: the document that is stored. Its JSON
-- text is not modelled. `json.dumps` writes the keys in order (`sort_keys=True`).
pub mod RoundTrip
pub mod SameDecisions
use frostglass.Prelude.{Option, none, some, List, [], ◌∷◌, map, Str, str, str_leb, err}
use frostglass.Prelude.Int.{pos}
use frostglass.Prelude.Sort.{sorted_by}
use frostglass.Errors.{Py, value_error}
use frostglass.Json.{
  Value, null, boolean, integer, float, text, array, object, Fields, end, field, of_list,
}
use frostglass.Policy.Models.{Action, allow, pseudonymize, hash, tag, block, Rule, RuleSet, Scope}
use frostglass.Policy.Loader.{ruleset_from_raw}

-- `action.value`
unfoldable pub action_value : Action → Str
action_value allow = str "allow"
action_value pseudonymize = str "pseudonymize"
action_value hash = str "hash"
action_value tag = str "tag"
action_value block = str "block"

-- `sorted(names)`, as a JSON array
unfoldable pub sorted_names : List Str → Value
sorted_names xs = array (of_list (map text (sorted_by str_leb xs)))

unfoldable pub optional_text : Option Str → Value
optional_text none = null
optional_text (some s) = text s

unfoldable pub scope_document : Scope → Fields
scope_document s =
    field (str "models") (sorted_names s.models)
      (field (str "teams") (sorted_names s.teams) (field (str "users") (sorted_names s.users) end))

unfoldable pub rule_document : Rule → Fields
rule_document r = field (str "action") (text (action_value r.action)) (
    field (str "consistency") (optional_text r.consistency) (
      field (str "entity_types") (sorted_names r.entity_types) (
        field (str "id") (text r.id) (
          field (str "min_confidence") (float (pos r.min_confidence)) (
            field (str "reason") (text r.reason)
              (field (str "scope") (object (scope_document r.scope)) end))))))

-- `_serialize`, of the document under the JSON text
unfoldable pub serialize : RuleSet → Value
unfolding rule_document scope_document sorted_names optional_text action_value
serialize rs = object (
    field (str "default_action") (text (action_value rs.default_action)) (
      field (str "rules") (array (of_list (map (λ r. object (rule_document r)) rs.rules))) (
        field (str "shadow_mode") (boolean rs.shadow_mode)
          (field (str "version") (integer (pos rs.version)) end))))

-- `_deserialize`
unfoldable pub deserialize : Value → Py RuleSet
unfolding ruleset_from_raw
deserialize (object raw) = ruleset_from_raw raw
deserialize _ = err (value_error (str "stored policy payload must be an object"))
