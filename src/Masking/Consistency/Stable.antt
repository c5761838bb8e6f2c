-- ===== src/Masking/Consistency/Stable.antt =====
-- A value keeps its surrogate within a scope.
use mathlib.Core.Option.{some-injective}
use frostglass.Prelude.{
  ℕ, ◌+◌, ◌≡◌, ◌≢◌, ◌⊎◌, refl, ap, ◌∙◌, ◌<◌, Bool, true, Option, none, some, List, [], ◌∷◌, Str,
  str_eq, ok, err, arith, ◌==◌, filter, Bool-cases, inl, inr, pair_eq, All,
}
use frostglass.Prelude.Dict
use frostglass.Prelude.Dict.{Dict, get-put}
use frostglass.Errors.{Py, PyError}
use frostglass.Masking.Models.{MaskingContext, VaultMapping, scope_id}
use frostglass.Masking.Vault.{
  EncryptedVault, Crypto, IsCrypto, get, put, encode, purge_expired, reverse_map, is_live,
}
use frostglass.Masking.Vault.Laws.{IsSound, get_total, put-IsSound, get-eq-fetched, decode-encode}
use frostglass.Masking.Consistency.{Generator, new_surrogate, surrogate_for}

ok_none-ne-ok_some :
    (m : VaultMapping) (r : Py (Option VaultMapping)) → r ≡ ok none → r ≢ ok (some m)
ok_none-ne-ok_some m r none_found found = cc

ok-injective : (a : Py Str) {x y : Str} → a ≡ ok x → a ≡ ok y → x ≡ y
ok-injective a p q = cc

pub err-ne-ok : (r : Py Str) {e : PyError} {a : Str} → r ≡ err e → r ≢ ok a
err-ne-ok r h k = cc

-- A filter on the values keeps an entry whose value passes.
get-filter :
    {V : Type 0} (p : V → Bool) (d : Dict (Str × Str) V) (k : Str × Str) (s : V)
    → Dict.get d k ≡ some s
    → p s ≡ true
    → Dict.get (filter (λ e. p e.1) d) k ≡ some s
unfolding Dict.get filter
get-filter p [] k s h passes = cc
get-filter p ((j, v) ∷ d) k s h passes = elim (Bool-cases (j == k)) [
  | inl same ↦
      let e : some v ≡ some s = rw same at h in
      let keep : p v ≡ true = ap p (some-injective _ _ e) ∙ passes in rw (keep, same) e
  | inr differs ↦
      let later = get-filter p d k s (rw differs at h) passes in
      elim (Bool-cases (p v)) [ inl keep ↦ rw (keep, differs) later | inr drop ↦ rw drop later ]
]

-- The mapping of a surrogate
abbrev pub mapping_of : Str → Str → Str → Str → VaultMapping
mapping_of t original hash surrogate = record {
  value_hash = hash;
  original = original;
  surrogate = surrogate;
  entity_type = t;
}

-- What the gateway does with a vault: a request for a surrogate, or the reading of a scope's mappings
pub data Step : Type 0 where
  requested : ℕ → MaskingContext → Str → Str → Str → Step
  mappings_read : ℕ → Str → Step

unfoldable pub time_of : Step → ℕ
time_of (requested now context t original hash) = now
time_of (mappings_read now scope) = now

module _ (c : Crypto) (generate : Generator) where
  pub after_step : Step → EncryptedVault → EncryptedVault
  after_step (requested now context t original hash) v =
      (surrogate_for c generate now v context t original hash).1
  after_step (mappings_read now scope) v = (reverse_map c now v scope).1

  pub after : List Step → EncryptedVault → EncryptedVault
  after [] v = v
  after (step ∷ steps) v = after steps (after_step step v)

module _ (c : Crypto) (laws : IsCrypto c) (generate : Generator) where
  surrogate_found :
      (now : ℕ) (v : EncryptedVault) (context : MaskingContext) (t original hash : Str)
      (m : VaultMapping)
      → get c now v (scope_id context) hash ≡ ok (some m)
      → surrogate_for c generate now v context t original hash ≡ (ok m.surrogate, v)
  unfolding surrogate_for
  surrogate_found now v context t original hash m e = rw (e, surrogate_for)

  surrogate_new :
      (now : ℕ) (v : EncryptedVault) (context : MaskingContext) (t original hash : Str)
      → get c now v (scope_id context) hash ≡ ok none
      → surrogate_for c generate now v context t original hash
        ≡ new_surrogate c generate now v (scope_id context) t original hash
  unfolding surrogate_for
  surrogate_new now v context t original hash e = rw (e, surrogate_for)

  surrogate_err :
      (now : ℕ) (v : EncryptedVault) (context : MaskingContext) (t original hash : Str)
      (e : PyError)
      → get c now v (scope_id context) hash ≡ err e
      → surrogate_for c generate now v context t original hash ≡ (err e, v)
  unfolding surrogate_for
  surrogate_err now v context t original hash e h = rw (h, surrogate_for)

  new_ok :
      (now : ℕ) (v : EncryptedVault) (scope t original hash s : Str)
      → generate scope t original hash ≡ ok s
      → new_surrogate c generate now v scope t original hash
        ≡ (ok s, put c now v scope (mapping_of t original hash s))
  unfolding new_surrogate
  new_ok now v scope t original hash s e = rw (e, new_surrogate)

  new_err :
      (now : ℕ) (v : EncryptedVault) (scope t original hash : Str) (e : PyError)
      → generate scope t original hash ≡ err e
      → new_surrogate c generate now v scope t original hash ≡ (err e, v)
  unfolding new_surrogate
  new_err now v scope t original hash e h = rw (h, new_surrogate)

  -- A request in a sound vault leaves it sound. It gives a surrogate, or it raises what the generator
  -- raises for a value that the scope does not have, and leaves the vault as it was.
  pub surrogate_for_total :
      (now : ℕ) (v : EncryptedVault) (context : MaskingContext) (t original hash : Str)
      → IsSound c v
      → IsSound c (surrogate_for c generate now v context t original hash).1
        × (((s : Str) × ((surrogate_for c generate now v context t original hash).0 ≡ ok s))
            ⊎ ((e : PyError) × (get c now v (scope_id context) hash ≡ ok none)
                × (generate (scope_id context) t original hash ≡ err e)
                × (surrogate_for c generate now v context t original hash ≡ (err e, v))))
  surrogate_for_total now v context t original hash sound =
      go (get_total c laws now v (scope_id context) hash sound)
        (generate (scope_id context) t original hash) refl
    where
      go :
          (o : Option VaultMapping) × (get c now v (scope_id context) hash ≡ ok o)
          → (made : Py Str) → generate (scope_id context) t original hash ≡ made
          → IsSound c (surrogate_for c generate now v context t original hash).1
            × (((s : Str) × ((surrogate_for c generate now v context t original hash).0 ≡ ok s))
                ⊎ ((e : PyError) × (get c now v (scope_id context) hash ≡ ok none)
                    × (generate (scope_id context) t original hash ≡ err e)
                    × (surrogate_for c generate now v context t original hash ≡ (err e, v))))
      go (some m, e) made g =
          let r = surrogate_found now v context t original hash m e in
          (rw (ap (λ q. q.1) r) sound, inl (m.surrogate, ap (λ q. q.0) r))
      go (none, e) (ok s) g =
          let r =
            surrogate_new now v context t original hash e
            ∙ new_ok now v (scope_id context) t original hash s g in
          (
            rw (ap (λ q. q.1) r) (put-IsSound c now v (scope_id context) _ sound),
            inl (s, ap (λ q. q.0) r),
          )
      go (none, e) (err raised) g =
          let r =
            surrogate_new now v context t original hash e
            ∙ new_err now v (scope_id context) t original hash raised g in
          (rw (ap (λ q. q.1) r) sound, inr (raised, e, g, r))

  -- A request leaves the vault as it was, or puts a mapping for a value that the scope does not have.
  surrogate_for_vault :
      (now : ℕ) (v : EncryptedVault) (context : MaskingContext) (t original hash : Str)
      → ((surrogate_for c generate now v context t original hash).1 ≡ v)
        ⊎ ((s : Str) × (get c now v (scope_id context) hash ≡ ok none)
            × ((surrogate_for c generate now v context t original hash).1
                ≡ put c now v (scope_id context) (mapping_of t original hash s)))
  surrogate_for_vault now v context t original hash =
      go (get c now v (scope_id context) hash) refl (generate (scope_id context) t original hash)
        refl
    where
      go :
          (r : Py (Option VaultMapping))
          → get c now v (scope_id context) hash ≡ r
          → (made : Py Str) → generate (scope_id context) t original hash ≡ made
          → ((surrogate_for c generate now v context t original hash).1 ≡ v)
            ⊎ ((s : Str) × (get c now v (scope_id context) hash ≡ ok none)
                × ((surrogate_for c generate now v context t original hash).1
                    ≡ put c now v (scope_id context) (mapping_of t original hash s)))
      go (err raised) e made g =
          inl (ap (λ q. q.1) (surrogate_err now v context t original hash raised e))
      go (ok (some m)) e made g =
          inl (ap (λ q. q.1) (surrogate_found now v context t original hash m e))
      go (ok none) e (ok s) g = inr (
        s,
        e,
        ap (λ q. q.1)
            (surrogate_new now v context t original hash e
              ∙ new_ok now v (scope_id context) t original hash s g),
      )
      go (ok none) e (err raised) g = inl (
          ap (λ q. q.1)
            (surrogate_new now v context t original hash e
              ∙ new_err now v (scope_id context) t original hash raised g))

  -- The entry of a value that expires at `deadline`
  module _ (scope hash : Str) (m : VaultMapping) (stored_at : ℕ) (w : EncryptedVault) where
    Held : EncryptedVault → Type 0
    Held v = Dict.get v.forward (scope, hash) ≡ some (encode c stored_at w m)

    get-Held :
        (now : ℕ) (v : EncryptedVault)
        → Held v
        → now < stored_at + w.ttl
        → get c now v scope hash ≡ ok (some m)
    unfolding Held
    get-Held now v held h =
        get-eq-fetched c now v scope hash held
        ∙ decode-encode c laws stored_at now w m
        ∙ ground arith

    after_step-Held :
        (step : Step) (v : EncryptedVault)
        → time_of step < stored_at + w.ttl
        → Held v
        → Held (after_step c generate step v)
    unfolding after_step Held time_of
    after_step-Held (requested now context t original other) v h held =
        elim (surrogate_for_vault now v context t original other) [
          | inl same ↦ rw same held
          | inr (s, missing, stored) ↦
              let written : Str × Str = (scope_id context, other) in
              let key : Str × Str = (scope, hash) in
              elim (Bool-cases (written == key)) [
                | inl mine ↦
                    let same : written ≡ key = (pair_eq.beq_iff written key).0 mine in
                    absurd (
                      ok_none-ne-ok_some m _ missing
                        (ap (λ k. get c now v k.0 k.1) same ∙ get-Held now v held h))
                | inr differs ↦ rw stored (unfold put in rw (get-put, differs) held)
              ]
        ]
    after_step-Held (mappings_read now other) v h held =
        unfold reverse_map purge_expired in
        get-filter (is_live now) v.forward (scope, hash) _ held
          (unfold encode is_live in ground arith)

    after-Held :
        (steps : List Step) (v : EncryptedVault)
        → All (λ step. time_of step < stored_at + w.ttl) steps
        → Held v
        → Held (after c generate steps v)
    unfolding after
    after-Held [] v h held = held
    after-Held (step ∷ steps) v h held =
        after-Held steps (after_step c generate step v) h.1 (after_step-Held step v h.0 held)

  first_stored :
      (now : ℕ) (v : EncryptedVault) (context : MaskingContext) (t original hash s : Str)
      → get c now v (scope_id context) hash ≡ ok none
      → (surrogate_for c generate now v context t original hash).0 ≡ ok s
      → (surrogate_for c generate now v context t original hash).1
        ≡ put c now v (scope_id context) (mapping_of t original hash s)
  first_stored now v context t original hash s missing given =
      go (generate (scope_id context) t original hash) refl
    where
      go :
          (made : Py Str)
          → generate (scope_id context) t original hash ≡ made
          → (surrogate_for c generate now v context t original hash).1
            ≡ put c now v (scope_id context) (mapping_of t original hash s)
      go (ok made) g =
          let r =
            surrogate_new now v context t original hash missing
            ∙ new_ok now v (scope_id context) t original hash made g in
          ap (λ q. q.1) r
          ∙ ap (λ a. put c now v (scope_id context) (mapping_of t original hash a))
              (ok-injective _ (ap (λ q. q.0) r) given)
      go (err e) g =
          let r =
            surrogate_new now v context t original hash missing
            ∙ new_err now v (scope_id context) t original hash e g in
          absurd (err-ne-ok _ (ap (λ q. q.0) r) given)

  -- If a value is new to the scope and is given a surrogate, then until the time to live has passed,
  -- whatever requests for this and other values and readings of mappings the vault serves between, a
  -- request for the value gives that surrogate and leaves the vault as it is, with any type and original.
  pub surrogate_for_stable :
      (now later : ℕ) (v : EncryptedVault) (context : MaskingContext)
      (t original hash s t' original' : Str) (steps : List Step)
      → get c now v (scope_id context) hash ≡ ok none
      → (surrogate_for c generate now v context t original hash).0 ≡ ok s
      → All (λ step. time_of step < now + v.ttl) steps
      → later < now + v.ttl
      → surrogate_for c generate later
          (after c generate steps (surrogate_for c generate now v context t original hash).1)
          context
          t'
          original'
          hash
        ≡ (ok s, after c generate steps (surrogate_for c generate now v context t original hash).1)
  surrogate_for_stable now later v context t original hash s t' original' steps missing given
        between h =
      let m = mapping_of t original hash s in
      let first = (surrogate_for c generate now v context t original hash).1 in
      let scope = scope_id context in
      let held : Dict.get first.forward (scope, hash) ≡ some (encode c now v m) =
        rw (first_stored now v context t original hash s missing given)
          (unfold put in Dict.get_own v.forward (scope, hash) (encode c now v m)) in
      surrogate_found later (after c generate steps first) context t' original' hash m (
        get-Held scope hash m now v later (after c generate steps first)
          (after-Held scope hash m now v steps first between (unfold Held in held)) h)
