-- ===== src/Policy/Precedence.antt =====
-- frostglass/policy/precedence.py
pub mod Winner
use frostglass.Prelude.{
  ℕ, Bool, Option, none, some, List, [], ◌∷◌, Str, str, ltb, leb, ◌==◌, nat_eq, ◌&&◌, ◌||◌, filter,
  or_list,
}
use frostglass.Prelude.Sort.{sorted_by}
use frostglass.Policy.Models.{
  Rule, RuleSet, Query, Decision, rule_matches, specificity, scope_value, action_restrictiveness,
  is_block,
}

-- The sort key: the rank of the scope, then that of the action.
unfoldable pub key_scope : Rule → ℕ
key_scope r = scope_value (specificity r.scope)

unfoldable pub key_action : Rule → ℕ
key_action r = action_restrictiveness r.action

-- `sort(key=…, reverse=True)` keeps the order of equal keys: `x` may stand before `y` when the key
-- of `y` is no greater, as tuples are compared.
unfoldable pub ranks_before : Rule → Rule → Bool
ranks_before x y =
    ltb (key_scope y) (key_scope x)
    || (key_scope y == key_scope x && leb (key_action y) (key_action x))

-- `block_rules or matched`
unfoldable pub candidates : List Rule → List Rule
candidates matched = or_list (filter (λ r. is_block r.action) matched) matched

unfoldable pub matching : RuleSet → Query → List Rule
matching rs q = filter (λ r. rule_matches r q) rs.rules

-- The decision for the sorted candidates; there are none exactly when no rule matched.
unfoldable pub decision_of : RuleSet → List Rule → Decision
decision_of rs [] = record {
  action = rs.default_action;
  rule_id = none;
  reason = str "No matching policy rule; applied default action.";
  policy_version = rs.version;
}
decision_of rs (winner ∷ rest) = record {
  action = winner.action;
  rule_id = some winner.id;
  reason = winner.reason;
  policy_version = rs.version;
}

unfoldable pub decide : RuleSet → Query → Decision
decide rs q = decision_of rs (sorted_by ranks_before (candidates (matching rs q)))
