-- ===== src/Policy/Store.antt =====
-- frostglass/policy/loader.py, `PolicyStore`: the three SQLite tables and the statements on them. A
-- row of `policy_versions` holds the stored document; `created_at` is not modelled. Opening the file and
-- SQLite's own failures are not modelled.
pub mod Sound
pub mod Versions
use frostglass.Prelude.{
  ℕ, zero, ◌≤◌, Bool, true, false, Option, none, some, List, [], ◌∷◌, map, Str, str, str_eq, nat_eq,
  ok, err, ◌>>=◌, leb, if◌then◌else◌, max,
}
use frostglass.Prelude.Dict
use frostglass.Prelude.Dict.{Dict}
use frostglass.Prelude.Sort.{sorted_by}
use frostglass.Errors.{Py, value_error, runtime_error, key_error}
use frostglass.Json.{Value}
use frostglass.Policy.Models.{RuleSet}
use frostglass.Policy.Loader.Serial.{serialize, deserialize}

pub record PolicyStore : Type 0 where
  pub policy_versions : Dict ℕ Value
  pub active_version : Option ℕ
  pub team_policy_settings : Dict Str Bool

-- The tables of a new database.
abbrev pub empty_tables : PolicyStore
empty_tables = record { policy_versions = []; active_version = none; team_policy_settings = [] }

-- `INSERT OR IGNORE INTO policy_versions`
unfoldable pub insert_or_ignore : Dict ℕ Value → ℕ → Value → Dict ℕ Value
insert_or_ignore rows version payload = elim (Dict.get rows version) [
  | none ↦ Dict.put rows version payload
  | some _ ↦ rows
]

-- `PolicyStore.__init__`, on the tables that the file holds
unfoldable pub open_store : PolicyStore → RuleSet → PolicyStore
unfolding insert_or_ignore
open_store s initial = record s {
  policy_versions = insert_or_ignore s.policy_versions initial.version (serialize initial);
  active_version = elim s.active_version [ none ↦ some initial.version | some v ↦ some v ];
}

-- The row of the join in `active`
unfoldable pub active_row : PolicyStore → Option Value
active_row s = elim s.active_version [ none ↦ none | some v ↦ Dict.get s.policy_versions v ]

-- `PolicyStore.active`
unfoldable pub active : PolicyStore → Py RuleSet
unfolding active_row
active s = elim (active_row s) [
  | none ↦ err (runtime_error (str "policy store has no active policy"))
  | some payload ↦ deserialize payload
]

-- `_deserialize` of each row
unfoldable pub deserialize_rows : List (ℕ × Value) → Py (List RuleSet)
deserialize_rows [] = ok []
deserialize_rows ((v, payload) ∷ rows) = do
  rs ← deserialize payload
  rest ← deserialize_rows rows
  ok (rs ∷ rest)

-- `ORDER BY version`
unfoldable pub by_version : ℕ × Value → ℕ × Value → Bool
by_version a b = leb a.0 b.0

-- `PolicyStore.versions`
unfoldable pub versions : PolicyStore → Py (List RuleSet)
unfolding deserialize_rows by_version
versions s = deserialize_rows (sorted_by by_version s.policy_versions)

-- `SELECT MAX(version)`
unfoldable pub max_version : Dict ℕ Value → Option ℕ
max_version [] = none
max_version ((v, payload) ∷ rows) = elim (max_version rows) [
  | none ↦ some v
  | some w ↦ some (if leb w v then v else w)
]

-- `latest is not None and candidate.version <= latest`
unfoldable pub is_stale : ℕ → Option ℕ → Bool
is_stale version none = false
is_stale version (some latest) = leb version latest

-- `PolicyStore.write`: the candidate, and the store after the call
unfoldable pub write : PolicyStore → RuleSet → Py RuleSet × PolicyStore
unfolding max_version is_stale
write s candidate =
    if is_stale candidate.version (max_version s.policy_versions)
    then (err (value_error (str "policy versions must increase and cannot be overwritten")), s)
    else (
      ok candidate,
      record s {
        policy_versions = Dict.put s.policy_versions candidate.version (serialize candidate);
      },
    )

-- `UPDATE policy_state SET active_version = ? WHERE id = 1`, which needs the row
unfoldable pub set_active : PolicyStore → ℕ → PolicyStore
set_active s version = record s {
  active_version = elim s.active_version [ none ↦ none | some _ ↦ some version ];
}

-- `PolicyStore.activate`
unfoldable pub activate : PolicyStore → ℕ → Py RuleSet × PolicyStore
unfolding set_active active
activate s version = elim (Dict.get s.policy_versions version) [
  | none ↦ (err key_error, s)
  | some _ ↦ (active (set_active s version), set_active s version)
]

-- `PolicyStore.shadow_for_team`
unfoldable pub shadow_for_team : PolicyStore → Str → Bool
shadow_for_team s team = elim (Dict.get s.team_policy_settings team) [ none ↦ true | some b ↦ b ]

-- `PolicyStore.set_shadow_for_team`
unfoldable pub set_shadow_for_team : PolicyStore → Str → Bool → PolicyStore
set_shadow_for_team s team enabled = record s {
  team_policy_settings = Dict.put s.team_policy_settings team enabled;
}
