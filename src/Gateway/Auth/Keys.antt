-- ===== src/Gateway/Auth/Keys.antt =====
-- Which keys resolve to a principal.
use frostglass.Prelude.{
  ◌≡◌, refl, ap, true, Option, none, some, [], ◌∷◌, ◌++◌, Str, str, str_eq, ok, err, take, arith,
  ◌==◌, Bool-cases, inl, inr, ==_refl, length, drop, nat_beq_iff, and_left, and_right, List, All,
  false, ◌>>=◌, >>=-eq-ok,
}
use frostglass.Prelude.Dict
use frostglass.Prelude.Dict.{get-put}
use frostglass.Prelude.Strings.{starts_with, remove_prefix}
use frostglass.Errors.{Py}
use frostglass.Gateway.Auth.{Principal, VirtualKeyStore, register, check_entry, resolve}

prefix_append : (p s : Str) → starts_with p (p ++ s) ≡ true
unfolding starts_with
prefix_append [] s = refl
prefix_append (c ∷ p) s = ground (arith, prefix_append p s)

drop_prefix : (p s : Str) → drop (length p) (p ++ s) ≡ s
drop_prefix [] s = refl
drop_prefix (c ∷ p) s = drop_prefix p s

remove_prefix-append : (p s : Str) → remove_prefix (p ++ s) p ≡ s
unfolding remove_prefix
remove_prefix-append p s = rw (prefix_append p s) (drop_prefix p s)

prefix_split : (p s : Str) → starts_with p s ≡ true → s ≡ p ++ drop (length p) s
unfolding starts_with
prefix_split [] s h = refl
prefix_split (c ∷ p) [] h = cc
prefix_split (c ∷ p) (d ∷ s) h =
    let same : c ≡ d = (nat_beq_iff c d).0 (and_left _ _ h) in
    rw same (ap (◌∷◌ d) (prefix_split p s (and_right _ _ h)))

remove_prefix-split : (p s : Str) → starts_with p s ≡ true → s ≡ p ++ remove_prefix s p
unfolding remove_prefix
remove_prefix-split p s h = rw h (prefix_split p s h)

-- The keys are apart from a key in their first twelve characters.
abbrev pub AreApart : Str → List (Str × Principal) → Type 0
AreApart key later = All (λ r. (take 12 r.0 == take 12 key) ≡ false) later

module _ (digest : Str → Str) where
  check_entry-own :
      (key : Str) (principal : Principal)
      → check_entry digest key (some (digest key, principal)) ≡ ok principal
  unfolding check_entry
  check_entry-own key principal = rw (==_refl (digest key)) refl

  check_entry-ok :
      (key : Str) (entry : Option (Str × Principal)) (principal : Principal)
      → check_entry digest key entry ≡ ok principal
      → entry ≡ some (digest key, principal)
  unfolding check_entry
  check_entry-ok key none principal h = cc
  check_entry-ok key (some (stored, other)) principal h = elim (Bool-cases (stored == digest key)) [
    | inl e ↦
        let same : stored ≡ digest key = (str_eq.beq_iff stored (digest key)).0 e in
        let mine : ok other ≡ ok principal = rw e at h in ground arith
    | inr e ↦ let no : err _ ≡ ok principal = rw e at h in cc
  ]

  register-ok :
      (keys keys' : VirtualKeyStore) (key : Str) (principal : Principal)
      → register digest keys key principal ≡ ok keys'
      → keys' ≡ Dict.put keys (take 12 key) (digest key, principal)
  unfolding register
  register-ok keys keys' key principal h = ground arith

  -- Registrations one after the other; the first that is refused ends them.
  unfoldable pub register_all : VirtualKeyStore → List (Str × Principal) → Py VirtualKeyStore
  register_all keys [] = ok keys
  register_all keys ((key, principal) ∷ later) = do
    registered ← register digest keys key principal
    register_all registered later

  register_all-get :
      (key : Str) (entry : Str × Principal) (keys keys' : VirtualKeyStore)
      (later : List (Str × Principal))
      → AreApart key later
      → Dict.get keys (take 12 key) ≡ some entry
      → register_all keys later ≡ ok keys'
      → Dict.get keys' (take 12 key) ≡ some entry
  unfolding register_all
  register_all-get key entry keys keys' [] apart held h = ground (arith, held, h)
  register_all-get key entry keys keys' ((other, principal) ∷ later) (differs, apart) held h =
      let (registered, e, rest) = >>=-eq-ok (register digest keys other principal) _ h in
      register_all-get key entry registered keys' later apart
        (rw (register-ok keys registered other principal e, get-put, differs) held) rest

  -- A key that was registered resolves, sent as a bearer token, to the principal it was registered for,
  -- also after further keys were registered that are apart from it in their first twelve characters.
  pub resolve-register :
      (keys keys' keys'' : VirtualKeyStore) (key : Str) (principal : Principal)
      (later : List (Str × Principal))
      → register digest keys key principal ≡ ok keys'
      → register_all keys' later ≡ ok keys''
      → AreApart key later
      → resolve digest keys'' (some (str "Bearer " ++ key)) ≡ ok principal
  unfolding resolve
  resolve-register keys keys' keys'' key principal later h more apart =
      let first : Dict.get keys' (take 12 key) ≡ some (digest key, principal) =
        rw (register-ok keys keys' key principal h)
          (Dict.get_own keys (take 12 key) (digest key, principal)) in
      rw
        (
          prefix_append (str "Bearer ") key,
          remove_prefix-append (str "Bearer ") key,
          register_all-get key (digest key, principal) keys' keys'' later apart first more,
        )
        (check_entry-own key principal)

  -- Whatever the header, a principal that is resolved is that of a stored entry whose digest is the
  -- digest of the key in the header.
  pub resolve_sound :
      (keys : VirtualKeyStore) (header : Option Str) (principal : Principal)
      → resolve digest keys header ≡ ok principal
      → (key : Str) × (header ≡ some (str "Bearer " ++ key))
        × (Dict.get keys (take 12 key) ≡ some (digest key, principal))
  unfolding resolve
  resolve_sound keys none principal h = cc
  resolve_sound keys (some authorization) principal h =
      elim (Bool-cases (starts_with (str "Bearer ") authorization)) [
        | inl e ↦ (
          remove_prefix authorization (str "Bearer "),
          ap some (remove_prefix-split (str "Bearer ") authorization e),
          check_entry-ok _ _ principal (rw e at h),
        )
        | inr e ↦ let no : err _ ≡ ok principal = rw e at h in cc
      ]
