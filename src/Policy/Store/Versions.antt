-- ===== src/Policy/Store/Versions.antt =====
-- The versions that a policy store holds are never overwritten.
use mathlib.Core.Option.{none-ne-some}
use frostglass.Prelude.{
  ℕ, ◌≡◌, ◌≤◌, ◌<◌, Bool, true, false, Option, none, some, [], ◌∷◌, Str, str, nat_eq, nat_beq, ok,
  err, arith, leb, if◌then◌else◌, Bool-cases, Option-cases, inl, inr,
}
use frostglass.Prelude.Dict
use frostglass.Prelude.Dict.{Dict, get-put}
use frostglass.Errors.{value_error}
use frostglass.Json.{Value}
use frostglass.Policy.Models.{RuleSet}
use frostglass.Policy.Loader.Valid.{IsValid}
use frostglass.Policy.Loader.Serial.{serialize}
use frostglass.Policy.Store.{
  PolicyStore, insert_or_ignore, open_store, max_version, is_stale, write, set_active, activate,
  set_shadow_for_team,
}

-- The document that a store holds for a version.
abbrev pub row : PolicyStore → ℕ → Option Value
row s v = Dict.get s.policy_versions v

pub max_of : ℕ → Option ℕ → ℕ
max_of w none = w
max_of w (some m) = if leb m w then w else m

max_version-cons :
    (w : ℕ) (q : Value) (rows : Dict ℕ Value)
    → max_version ((w, q) ∷ rows) ≡ some (max_of w (max_version rows))
unfolding max_version max_of
max_version-cons w q rows = ground arith

max_version-bound :
    (rows : Dict ℕ Value) (v : ℕ) (p : Value)
    → Dict.get rows v ≡ some p
    → (m : ℕ) × (max_version rows ≡ some m) × (v ≤ m)
unfolding Dict.get max_of
max_version-bound [] v p h = absurd (none-ne-some p h)
max_version-bound ((w, q) ∷ rows) v p h = (
  max_of w (max_version rows),
  max_version-cons w q rows,
  elim (Bool-cases (nat_beq w v)) [
    | inl e ↦ ground arith
    | inr e ↦
        let (m, top, bound) = max_version-bound rows v p (rw e at h) in ground (arith, top, bound)
  ],
)

-- A version that is not stale is above every version of the store.
fresh_above :
    (rows : Dict ℕ Value) (n v : ℕ) (p : Value)
    → is_stale n (max_version rows) ≡ false
    → Dict.get rows v ≡ some p
    → v < n
unfolding is_stale
fresh_above rows n v p fresh h =
    let (m, top, bound) = max_version-bound rows v p h in ground (arith, top, bound)

pub write_stale :
    (s : PolicyStore) (c : RuleSet)
    → is_stale c.version (max_version s.policy_versions) ≡ true
    → write s c
      ≡ (err (value_error (str "policy versions must increase and cannot be overwritten")), s)
unfolding write
write_stale s c e = rw e

pub write_fresh :
    (s : PolicyStore) (c : RuleSet)
    → is_stale c.version (max_version s.policy_versions) ≡ false
    → write s c
      ≡ (ok c, record s { policy_versions = Dict.put s.policy_versions c.version (serialize c) })
unfolding write
write_fresh s c e = rw e

pub write_keeps_active :
    (s : PolicyStore) (c : RuleSet) → (write s c).1.active_version ≡ s.active_version
unfolding write
write_keeps_active s c = ground arith

-- A write, accepted or refused, changes no version that the store holds.
pub write_keeps_versions :
    (s : PolicyStore) (c : RuleSet) (v : ℕ) (p : Value)
    → row s v ≡ some p
    → row (write s c).1 v ≡ some p
unfolding write
write_keeps_versions s c v p h =
    elim (Bool-cases (is_stale c.version (max_version s.policy_versions))) [
      | inl stale ↦ rw stale h
      | inr fresh ↦
          rw (fresh, get-put) (ground (arith, fresh_above s.policy_versions c.version v p fresh h))
    ]

pub activate_keeps_versions :
    (s : PolicyStore) (n : ℕ) → (activate s n).1.policy_versions ≡ s.policy_versions
unfolding activate set_active
activate_keeps_versions s n = ground arith

-- What a program does with a store, one call at a time: it writes valid candidates.
pub data Step : PolicyStore → PolicyStore → Type 0 where
  writes : (s : PolicyStore) (c : RuleSet) → IsValid c → Step s (write s c).1
  activates : (s : PolicyStore) (n : ℕ) → Step s (activate s n).1
  sets_shadow : (s : PolicyStore) (team : Str) (b : Bool) → Step s (set_shadow_for_team s team b)
  reopens : (s : PolicyStore) (initial : RuleSet) → IsValid initial → Step s (open_store s initial)

pub data Reach (s : PolicyStore) : PolicyStore → Type 0 where
  here : Reach s s
  next : {t u : PolicyStore} → Reach s t → Step t u → Reach s u

pub insert_new :
    (rows : Dict ℕ Value) (n : ℕ) (q : Value)
    → Dict.get rows n ≡ none
    → insert_or_ignore rows n q ≡ Dict.put rows n q
unfolding insert_or_ignore
insert_new rows n q e = rw (e, insert_or_ignore)

pub insert_held :
    (rows : Dict ℕ Value) (n : ℕ) (q w : Value)
    → Dict.get rows n ≡ some w
    → insert_or_ignore rows n q ≡ rows
unfolding insert_or_ignore
insert_held rows n q w e = rw (e, insert_or_ignore)

pub insert_or_ignore-get :
    (rows : Dict ℕ Value) (n v : ℕ) (q p : Value)
    → Dict.get rows v ≡ some p
    → Dict.get (insert_or_ignore rows n q) v ≡ some p
insert_or_ignore-get rows n v q p h = elim (Option-cases (Dict.get rows n)) [
  | inl e ↦ rw (insert_new rows n q e, get-put) (ground (arith, absent e))
  | inr (w, e) ↦ rw (insert_held rows n q w e) h
]
  where
    absent : Dict.get rows n ≡ none → nat_beq n v ≡ false
    absent e = elim (Bool-cases (nat_beq n v)) [
      | inl same ↦ let k : n ≡ v = ground arith in absurd (none-ne-some p (rw (← k, e) at h))
      | inr other ↦ other
    ]

Step-keeps :
    {s t : PolicyStore} (v : ℕ) (p : Value) → Step s t → row s v ≡ some p → row t v ≡ some p
Step-keeps v p (writes s c _) h = write_keeps_versions s c v p h
Step-keeps v p (activates s n) h = rw (activate_keeps_versions s n) h
Step-keeps v p (sets_shadow s team b) h = unfold set_shadow_for_team in h
Step-keeps v p (reopens s initial _) h =
    unfold open_store in
    insert_or_ignore-get s.policy_versions initial.version v (serialize initial) p h

-- Whatever calls are made, a version that the store holds keeps its document.
pub Reach_keeps_versions :
    {s t : PolicyStore} (v : ℕ) (p : Value) → Reach s t → row s v ≡ some p → row t v ≡ some p
Reach_keeps_versions v p here h = h
Reach_keeps_versions v p (next r st) h = Step-keeps v p st (Reach_keeps_versions v p r h)
