-- ===== src/Policy/Store/Sound.antt =====
-- One version is always active, and its document is that of a valid rule set.
use mathlib.Core.Option.{some-injective}
use frostglass.Prelude.{
  ℕ, ◌≡◌, refl, sym, ap, Bool, false, none, some, Str, nat_eq, nat_beq, nat_beq_iff, ok, err, arith,
  Bool-cases, Option-cases, inl, inr, ◌∙◌,
}
use frostglass.Prelude.Dict
use frostglass.Prelude.Dict.{Dict, get-put}
use frostglass.Errors.{key_error}
use frostglass.Json.{Value}
use frostglass.Policy.Models.{RuleSet, Query}
use frostglass.Policy.Precedence.{decide}
use frostglass.Policy.Loader.Valid.{IsValid}
use frostglass.Policy.Loader.Serial.{serialize, deserialize}
use frostglass.Policy.Loader.Serial.RoundTrip.{stored, deserialize-serialize}
use frostglass.Policy.Loader.Serial.SameDecisions.{decide-stored}
use frostglass.Policy.Store.{
  PolicyStore, empty_tables, insert_or_ignore, open_store, active_row, active, max_version,
  is_stale, write, set_active, activate, set_shadow_for_team,
}
use frostglass.Policy.Store.Versions.{
  row, write_stale, write_fresh, write_keeps_active, write_keeps_versions, Step, writes, activates,
  sets_shadow, reopens, Reach, here, next, insert_new, insert_held, insert_or_ignore-get,
}

-- What the loader and the writers keep: the active version is there, and each version's document
-- is that of a valid rule set with that version.
pub record IsSound (s : PolicyStore) : Type 0 where
  pub active_held : (v : ℕ) × (p : Value) × (s.active_version ≡ some v) × (row s v ≡ some p)
  pub documents :
      (v : ℕ) (p : Value)
      → row s v ≡ some p
      → (rs : RuleSet) × (p ≡ serialize rs) × IsValid rs × (rs.version ≡ v)

open_store-IsSound :
    (initial : RuleSet) → IsValid initial → IsSound (open_store empty_tables initial)
unfolding open_store insert_or_ignore Dict.get Dict.put
open_store-IsSound initial valid = record {
  active_held = (initial.version, serialize initial, refl, ground arith);
  documents = λ v p h. (initial, ground arith, valid, ground arith);
}

-- The documents of a table to which a valid candidate is added.
abbrev AreDocuments : Dict ℕ Value → Type 0
AreDocuments rows =
    (v : ℕ) (p : Value)
    → Dict.get rows v ≡ some p
    → (rs : RuleSet) × (p ≡ serialize rs) × IsValid rs × (rs.version ≡ v)

put-AreDocuments :
    (rows : Dict ℕ Value) (c : RuleSet)
    → IsValid c
    → AreDocuments rows
    → AreDocuments (Dict.put rows c.version (serialize c))
put-AreDocuments rows c valid old v p h = elim (Bool-cases (nat_beq c.version v)) [
  | inl same ↦
      let e : some (serialize c) ≡ some p = rw (get-put, same) at h in
      (c, sym (some-injective _ _ e), valid, (nat_beq_iff c.version v).0 same)
  | inr other ↦ old v p (rw (get-put, other) at h)
]

write-IsSound : (s : PolicyStore) (c : RuleSet) → IsValid c → IsSound s → IsSound (write s c).1
write-IsSound s c valid sound = record {
  active_held =
      let (v, p, e, h) = sound.active_held in
      (v, p, write_keeps_active s c ∙ e, write_keeps_versions s c v p h);
  documents = elim (Bool-cases (is_stale c.version (max_version s.policy_versions))) [
    | inl stale ↦ rw (write_stale s c stale) sound.documents
    | inr fresh ↦
        rw (write_fresh s c fresh) (put-AreDocuments s.policy_versions c valid sound.documents)
  ];
}

activate_missing : (s : PolicyStore) (n : ℕ) → row s n ≡ none → activate s n ≡ (err key_error, s)
unfolding activate
activate_missing s n e = rw (e, activate)

activate_held :
    (s : PolicyStore) (n : ℕ) (p : Value)
    → row s n ≡ some p
    → activate s n ≡ (active (set_active s n), set_active s n)
unfolding activate
activate_held s n p e = rw (e, activate)

activate-IsSound : (s : PolicyStore) (n : ℕ) → IsSound s → IsSound (activate s n).1
activate-IsSound s n sound = elim (Option-cases (row s n)) [
  | inl e ↦ rw (activate_missing s n e) sound
  | inr (p, e) ↦ rw (activate_held s n p e) (record {
    active_held =
        let (v, _, held, _) = sound.active_held in
        (n, p, unfold set_active in rw held, unfold set_active in e);
    documents = unfold set_active in sound.documents;
  })
]

set_shadow-IsSound :
    (s : PolicyStore) (team : Str) (b : Bool) → IsSound s → IsSound (set_shadow_for_team s team b)
unfolding set_shadow_for_team
set_shadow-IsSound s team b sound = record {
  active_held = sound.active_held;
  documents = sound.documents;
}

insert_or_ignore-AreDocuments :
    (rows : Dict ℕ Value) (c : RuleSet)
    → IsValid c
    → AreDocuments rows
    → AreDocuments (insert_or_ignore rows c.version (serialize c))
insert_or_ignore-AreDocuments rows c valid old = elim (Option-cases (Dict.get rows c.version)) [
  | inl e ↦ rw (insert_new rows c.version _ e) (put-AreDocuments rows c valid old)
  | inr (w, e) ↦ rw (insert_held rows c.version _ w e) old
]

open_store-keeps :
    (s : PolicyStore) (initial : RuleSet)
    → IsValid initial
    → IsSound s
    → IsSound (open_store s initial)
unfolding open_store
open_store-keeps s initial valid h = record {
  active_held =
      let (v, p, held, there) = h.active_held in
      (v, p, ground arith, insert_or_ignore-get s.policy_versions initial.version v _ p there);
  documents = insert_or_ignore-AreDocuments s.policy_versions initial valid h.documents;
}

Step-IsSound : {s t : PolicyStore} → Step s t → IsSound s → IsSound t
Step-IsSound (writes s c valid) h = write-IsSound s c valid h
Step-IsSound (activates s n) h = activate-IsSound s n h
Step-IsSound (sets_shadow s team b) h = set_shadow-IsSound s team b h
Step-IsSound (reopens s initial valid) h = open_store-keeps s initial valid h

Reach-IsSound : {s t : PolicyStore} → IsSound s → Reach s t → IsSound t
Reach-IsSound h here = h
Reach-IsSound h (next r st) = Step-IsSound st (Reach-IsSound h r)

active_row_held :
    (s : PolicyStore) (v : ℕ) (p : Value)
    → s.active_version ≡ some v
    → row s v ≡ some p
    → active_row s ≡ some p
unfolding active_row
active_row_held s v p held there = ground arith

active_held_row :
    (s : PolicyStore) (v : ℕ) (p : Value)
    → s.active_version ≡ some v
    → row s v ≡ some p
    → active s ≡ deserialize p
unfolding active
active_held_row s v p held there = rw (active_row_held s v p held there, active)

set_active_version :
    (s : PolicyStore) (n : ℕ) {v : ℕ}
    → s.active_version ≡ some v
    → (set_active s n).active_version ≡ some n
unfolding set_active
set_active_version s n e = rw e

active_sound :
    (s : PolicyStore)
    → IsSound s
    → (rs : RuleSet) × (active s ≡ ok rs) × (s.active_version ≡ some rs.version)
active_sound s sound =
    let (v, p, held, there) = sound.active_held in
    let (rs, e, valid, version) = sound.documents v p there in
    (
      stored rs,
      active_held_row s v p held there ∙ ap deserialize e ∙ deserialize-serialize rs valid,
      held ∙ ap some (sym version),
    )

-- From a new database opened with a valid rule set, whatever calls follow, `active` returns a rule
-- set, and it has the version that the state names as active.
pub active_total :
    (initial : RuleSet) (s : PolicyStore)
    → IsValid initial
    → Reach (open_store empty_tables initial) s
    → (rs : RuleSet) × (active s ≡ ok rs) × (s.active_version ≡ some rs.version)
active_total initial s valid r = active_sound s (Reach-IsSound (open_store-IsSound initial valid) r)

-- A valid rule set that is newer than all versions of a store in use can be written and activated;
-- the rule set that is then active has its version and decides every query as it does.
pub write-activate :
    (initial : RuleSet) (s : PolicyStore) (c : RuleSet)
    → IsValid initial
    → Reach (open_store empty_tables initial) s
    → IsValid c
    → is_stale c.version (max_version s.policy_versions) ≡ false
    → (back : RuleSet) × ((write s c).0 ≡ ok c)
      × ((activate (write s c).1 c.version).0 ≡ ok back)
      × (back.version ≡ c.version)
      × ((q : Query) → decide back q ≡ decide c q)
write-activate initial s c vi r vc fresh = (
  stored c,
  rw (write_fresh s c fresh),
  rw (write_fresh s c fresh, activate_held t c.version (serialize c) there) now,
  refl,
  decide-stored c,
)
  where
    t : PolicyStore
    t = record s { policy_versions = Dict.put s.policy_versions c.version (serialize c) }

    there : row t c.version ≡ some (serialize c)
    there = rw (get-put, (nat_beq_iff c.version c.version).1 refl)

    held : (set_active t c.version).active_version ≡ some c.version
    held =
        let (_, _, e, _) = (Reach-IsSound (open_store-IsSound initial vi) r).active_held in
        set_active_version t c.version e

    now : active (set_active t c.version) ≡ ok (stored c)
    now =
        active_held_row (set_active t c.version) c.version (serialize c) held
          (unfold set_active in there)
        ∙ deserialize-serialize c vc
