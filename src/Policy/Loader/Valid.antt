-- ===== src/Policy/Loader/Valid.antt =====
-- What a valid rule set is: what frostglass/policy/loader.py checks.
use frostglass.Prelude.{
  ◌≡◌, ◌≤◌, true, false, Option, none, some, List, [], ◌∷◌, Str, str, str_eq, NonEmpty, All,
  contains,
}
use frostglass.Policy.Models.{Rule, RuleSet}
use frostglass.Policy.Loader.{repeats_id}

-- The names that a scope or a rule may hold: no empty string.
abbrev pub AreNames : List Str → Type 0
AreNames = All NonEmpty

abbrev pub IsConsistency : Option Str → Type 0
IsConsistency none = Unit
IsConsistency (some s) = contains s (str "request" ∷ str "session" ∷ str "tenant" ∷ []) ≡ true

-- What the loader checks of a rule.
pub record IsValidRule (r : Rule) : Type 0 where
  pub id_named : NonEmpty r.id
  pub types_named : AreNames r.entity_types
  pub confidence_bounded : r.min_confidence ≤ 10000
  pub users_named : AreNames r.scope.users
  pub teams_named : AreNames r.scope.teams
  pub models_named : AreNames r.scope.models
  pub reason_given : NonEmpty r.reason
  pub consistency_known : IsConsistency r.consistency

-- What the loader checks of a rule set.
pub record IsValid (rs : RuleSet) : Type 0 where
  pub version_positive : 1 ≤ rs.version
  pub rules_valid : All IsValidRule rs.rules
  pub ids_distinct : repeats_id rs.rules ≡ false
