-- ===== src/Policy/Engine.antt =====
-- frostglass/policy/engine.py. The source is a static rule set or a store; the calls that write give
-- the engine after the call.
use frostglass.Prelude.{ℕ, Bool, true, List, [], ◌∷◌, map, Str, str, ok, err, ◌>>=◌}
use frostglass.Errors.{Py, runtime_error}
use frostglass.Json.{Value}
use frostglass.Detection.Models.{Finding}
use frostglass.Policy.Models.{RuleSet, Decision}
use frostglass.Policy.Precedence.{decide}
use frostglass.Policy.Loader.{load_yaml}
use frostglass.Policy.Store
use frostglass.Policy.Store.{PolicyStore}

pub record FindingDecision : Type 0 where
  pub finding : Finding
  pub decision : Decision
  pub policy_version : ℕ

pub data PolicyEngine : Type 0 where
  static : RuleSet → PolicyEngine
  stored : PolicyStore → PolicyEngine

-- the property `ruleset`
unfoldable pub active_ruleset : PolicyEngine → Py RuleSet
active_ruleset (static rs) = ok rs
active_ruleset (stored s) = Store.active s

unfoldable pub version : PolicyEngine → Py ℕ
unfolding active_ruleset
version e = do rs ← active_ruleset e; ok rs.version

unfoldable pub shadow_for_team : PolicyEngine → Str → Bool
shadow_for_team (static rs) team = true
shadow_for_team (stored s) team = Store.shadow_for_team s team

unfoldable pub versions : PolicyEngine → Py (List RuleSet)
versions (static rs) = ok (rs ∷ [])
versions (stored s) = Store.versions s

-- `add_version`, of the parsed YAML document
unfoldable pub add_version : PolicyEngine → Value → Py RuleSet × PolicyEngine
add_version (static rs) document =
    (err (runtime_error (str "policy versions are read-only for a static ruleset")), static rs)
add_version (stored s) document = elim (load_yaml document) [
  | ok candidate ↦ let (r, s') = Store.write s candidate in (r, stored s')
  | err e ↦ (err e, stored s)
]

unfoldable pub activate : PolicyEngine → ℕ → Py RuleSet × PolicyEngine
activate (static rs) v =
    (err (runtime_error (str "policy activation is unavailable for a static ruleset")), static rs)
activate (stored s) v = let (r, s') = Store.activate s v in (r, stored s')

unfoldable pub decide_finding : RuleSet → Str → Str → Str → Finding → FindingDecision
decide_finding rs user team model finding = record {
  finding = finding;
  decision = decide rs (record {
    entity_type = finding.entity_type;
    confidence = finding.confidence;
    user = user;
    team = team;
    model = model;
  });
  policy_version = rs.version;
}

unfoldable pub evaluate : PolicyEngine → List Finding → Str → Str → Str → Py (List FindingDecision)
unfolding active_ruleset decide_finding
evaluate e findings user team model = do
  rs ← active_ruleset e
  ok (map (decide_finding rs user team model) findings)
