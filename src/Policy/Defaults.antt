-- ===== src/Policy/Defaults.antt =====
-- frostglass/policy/defaults.py
use frostglass.Prelude.{
  ◌≡◌, false, ◌&&◌, none, List, [], ◌∷◌, Str, str, str_eq, contains, leb, arith, filter,
  if◌then◌else◌,
}
use frostglass.Prelude.Sort.{sorted_by}
use frostglass.Policy.Models.{
  Rule, RuleSet, Query, pseudonymize, block, rule_matches, scope_matches, is_block,
}
use frostglass.Policy.Precedence.{decide, matching, candidates, decision_of}
use frostglass.Policy.Store.{PolicyStore, open_store}
use frostglass.Policy.Engine.{PolicyEngine, stored}

-- `_SECRET_TYPES`
unfoldable pub secret_types : List Str
secret_types =
    str "AWS_ACCESS_KEY"
    ∷ str "GITHUB_TOKEN"
    ∷ str "SLACK_TOKEN"
    ∷ str "STRIPE_KEY"
    ∷ str "OPENAI_KEY"
    ∷ str "ANTHROPIC_KEY"
    ∷ str "JWT"
    ∷ str "PRIVATE_KEY"
    ∷ str "HIGH_ENTROPY_TOKEN"
    ∷ str "PASSWORD"
    ∷ []

unfoldable pub block_secrets : Rule
block_secrets = record {
  id = str "block-secrets";
  entity_types = secret_types;
  action = block;
  min_confidence = 7000;
  scope = record { users = []; teams = []; models = [] };
  reason = str "Credentials must never leave the network.";
  consistency = none;
}

unfoldable pub default_ruleset : RuleSet
unfolding block_secrets
default_ruleset = record {
  version = 1;
  default_action = pseudonymize;
  rules = block_secrets ∷ [];
  shadow_mode = false;
}

-- `build_policy_engine`, on the tables that the database file holds
unfoldable pub build_policy_engine : PolicyStore → PolicyEngine
build_policy_engine tables = stored (open_store tables default_ruleset)

-- Under the default policy a finding is blocked exactly when its type is one of the secret types and
-- its confidence is at least 0.7; every other finding is pseudonymized, whoever the caller is.
pub default_decision :
    (q : Query)
    → (decide default_ruleset q).action ≡ (
        if contains q.entity_type secret_types && leb 7000 q.confidence
        then block
        else pseudonymize)
unfolding decide matching candidates decision_of default_ruleset rule_matches scope_matches is_block
    filter sorted_by
default_decision q = ground arith
