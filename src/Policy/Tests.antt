-- ===== src/Policy/Tests.antt =====
-- The policy's theorems at concrete rule sets and stores.
use mathlib.Core.List.{Memᴰ}
use mathlib.Core.List.Memᴰ.{head}
use frostglass.Prelude.{
  ◌≡◌, refl, some, none, true, false, [], ◌∷◌, str, str_beq, ok, arith, leb, ◌&&◌, if◌then◌else◌,
  contains, str_eq,
}
use frostglass.Prelude.Dict
use frostglass.Prelude.Int.{pos}
use frostglass.Json.{Value, text, integer, array, object, nil, field, end, get, get_default, find}
use frostglass.Policy.Models.{
  allow, Rule, RuleSet, Query, block, pseudonymize, rule_matches, scope_matches, selects,
}
use frostglass.Policy.Precedence.{decide}
use frostglass.Policy.Precedence.Winner.{decide_winner, decided_by, Beats}
use frostglass.Policy.Defaults.{default_ruleset, block_secrets, secret_types, default_decision}
use frostglass.Policy.Loader.{
  load_yaml, repeats_id, ruleset_from_raw, policy_rules, rule_list, policy_version, shadow_flag,
  action, action_named, frozenset,
}
use frostglass.Policy.Loader.Valid.{IsValid}
use frostglass.Policy.Loader.Checked.{load_yaml-IsValid}
use frostglass.Policy.Loader.Serial.{serialize, deserialize}
use frostglass.Policy.Loader.Serial.SameDecisions.{decide-deserialize-serialize}
use frostglass.Policy.Store.{
  PolicyStore, insert_or_ignore, open_store, empty_tables, active, activate, write, is_stale,
  max_version,
}
use frostglass.Policy.Store.Sound.{active_total, write-activate}
use frostglass.Policy.Store.Versions.{
  row, Reach, here, next, writes, activates, Reach_keeps_versions,
}

abbrev secret_query : Query
secret_query = record {
  entity_type = str "JWT";
  confidence = 9000;
  user = str "u";
  team = str "t";
  model = str "m";
}

secret-matches : rule_matches block_secrets secret_query ≡ true
unfolding rule_matches scope_matches selects contains block_secrets secret_types str str_beq
secret-matches = refl

rule-held : Memᴰ block_secrets default_ruleset.rules
unfolding default_ruleset
rule-held = head refl

decide_winner_example :
    (w : Rule) × Memᴰ w default_ruleset.rules
    × (rule_matches w secret_query ≡ true)
    × (decide default_ruleset secret_query ≡ decided_by default_ruleset w)
    × ((s : Rule) → Memᴰ s default_ruleset.rules → rule_matches s secret_query ≡ true → Beats w s)
decide_winner_example =
    decide_winner default_ruleset secret_query {r = block_secrets} rule-held secret-matches

default_decision_example :
    (decide default_ruleset secret_query).action
    ≡ (if contains (str "JWT") secret_types && leb 7000 9000 then block else pseudonymize)
default_decision_example = default_decision secret_query

-- A rule set, and a version that would follow it.
abbrev first_ruleset : RuleSet
first_ruleset = record {
  version = 1;
  default_action = pseudonymize;
  rules =
      record {
        id = 1 ∷ [];
        entity_types = (7 ∷ []) ∷ [];
        action = block;
        min_confidence = 7000;
        scope = record { users = []; teams = (9 ∷ []) ∷ []; models = [] };
        reason = 2 ∷ [];
        consistency = none;
      }
      ∷ [];
  shadow_mode = false;
}

abbrev second_ruleset : RuleSet
second_ruleset = record { version = 2; default_action = block; rules = []; shadow_mode = true }

first_ruleset-IsValid : IsValid first_ruleset
unfolding repeats_id frozenset contains
first_ruleset-IsValid = record {
  version_positive = omega arith;
  rules_valid = (
    record {
      id_named = tt;
      types_named = (tt, tt);
      confidence_bounded = omega arith;
      users_named = tt;
      teams_named = (tt, tt);
      models_named = tt;
      reason_given = tt;
      consistency_known = tt;
    },
    tt,
  );
  ids_distinct = refl;
}

second_ruleset-IsValid : IsValid second_ruleset
unfolding repeats_id frozenset contains
second_ruleset-IsValid = record {
  version_positive = omega arith;
  rules_valid = tt;
  ids_distinct = refl;
}

decide-deserialize-serialize_example :
    (back : RuleSet) × (deserialize (serialize first_ruleset) ≡ ok back)
    × ((q : Query) → decide back q ≡ decide first_ruleset q)
decide-deserialize-serialize_example =
    decide-deserialize-serialize first_ruleset first_ruleset-IsValid

-- A YAML document of one version without rules
abbrev small_document : Value
small_document = object (
    field (str "version") (integer (pos 3))
      (field (str "default_action") (text (str "allow")) (field (str "rules") (array nil) end)))

abbrev small_ruleset : RuleSet
small_ruleset = record { version = 3; default_action = allow; rules = []; shadow_mode = false }

small_document-loads : load_yaml small_document ≡ ok small_ruleset
unfolding load_yaml ruleset_from_raw policy_version policy_rules rule_list repeats_id frozenset
    contains shadow_flag action action_named get get_default find str str_beq
small_document-loads = refl

load_yaml-IsValid_example : IsValid small_ruleset
load_yaml-IsValid_example = load_yaml-IsValid small_document small_ruleset small_document-loads

abbrev opened : PolicyStore
opened = open_store empty_tables first_ruleset

abbrev written : PolicyStore
written = (write opened second_ruleset).1

abbrev in_use : PolicyStore
in_use = (activate written 2).1

in_use-Reach : Reach opened in_use
in_use-Reach =
    next (next here (writes opened second_ruleset second_ruleset-IsValid)) (activates written 2)

first-held : row opened 1 ≡ some (serialize first_ruleset)
unfolding open_store insert_or_ignore Dict.put Dict.get
first-held = refl

Reach_keeps_versions_example : row in_use 1 ≡ some (serialize first_ruleset)
Reach_keeps_versions_example =
    Reach_keeps_versions 1 (serialize first_ruleset) in_use-Reach first-held

active_total_example :
    (rs : RuleSet) × (active in_use ≡ ok rs) × (in_use.active_version ≡ some rs.version)
active_total_example = active_total first_ruleset in_use first_ruleset-IsValid in_use-Reach

second-fresh : is_stale 2 (max_version opened.policy_versions) ≡ false
unfolding open_store insert_or_ignore Dict.put Dict.get max_version is_stale
second-fresh = refl

write-activate_example :
    (back : RuleSet) × ((write opened second_ruleset).0 ≡ ok second_ruleset)
    × ((activate (write opened second_ruleset).1 2).0 ≡ ok back)
    × (back.version ≡ 2)
    × ((q : Query) → decide back q ≡ decide second_ruleset q)
write-activate_example =
    write-activate first_ruleset opened second_ruleset first_ruleset-IsValid here
      second_ruleset-IsValid second-fresh
