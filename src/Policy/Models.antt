-- ===== src/Policy/Models.antt =====
-- frostglass/policy/models.py. A frozenset is the list of its members, and a confidence (a Python
-- float between 0 and 1) is counted in steps of 1/10000.
use frostglass.Prelude.{
  ℕ, ◌&&◌, Bool, true, false, Option, List, [], ◌∷◌, Str, str_eq, leb, contains, if◌then◌else◌,
}

pub data Action : Type 0 where
  allow pseudonymize hash tag block : Action

pub data ScopeKind : Type 0 where
  global model team user : ScopeKind

-- `int(kind)`
unfoldable pub scope_value : ScopeKind → ℕ
scope_value global = 0
scope_value model = 1
scope_value team = 2
scope_value user = 3

pub record Scope : Type 0 where
  pub users : List Str
  pub teams : List Str
  pub models : List Str

-- `not names or name in names`
unfoldable pub selects : List Str → Str → Bool
selects [] name = true
selects (n ∷ ns) name = contains name (n ∷ ns)

unfoldable pub scope_matches : Scope → Str → Str → Str → Bool
unfolding selects
scope_matches s u t m = selects s.users u && selects s.teams t && selects s.models m

unfoldable pub is_nonempty : List Str → Bool
is_nonempty [] = false
is_nonempty (n ∷ ns) = true

unfoldable pub specificity : Scope → ScopeKind
unfolding is_nonempty
specificity s =
    if is_nonempty s.users
    then user
    else if is_nonempty s.teams
    then team
    else if is_nonempty s.models
    then model
    else global

pub record Rule : Type 0 where
  pub id : Str
  pub entity_types : List Str
  pub action : Action
  pub min_confidence : ℕ
  pub scope : Scope
  pub reason : Str
  pub consistency : Option Str

-- What a rule is matched against: a finding's type and confidence, and the caller.
pub record Query : Type 0 where
  pub entity_type : Str
  pub confidence : ℕ
  pub user : Str
  pub team : Str
  pub model : Str

unfoldable pub rule_matches : Rule → Query → Bool
rule_matches r q =
    contains q.entity_type r.entity_types
    && leb r.min_confidence q.confidence
    && scope_matches r.scope q.user q.team q.model

pub record RuleSet : Type 0 where
  pub version : ℕ
  pub default_action : Action
  pub rules : List Rule
  pub shadow_mode : Bool

pub record Decision : Type 0 where
  pub action : Action
  pub rule_id : Option Str
  pub reason : Str
  pub policy_version : ℕ

unfoldable pub action_restrictiveness : Action → ℕ
action_restrictiveness allow = 0
action_restrictiveness pseudonymize = 1
action_restrictiveness hash = 2
action_restrictiveness tag = 3
action_restrictiveness block = 4

-- `action is Action.BLOCK`
unfoldable pub is_block : Action → Bool
is_block block = true
is_block _ = false
