-- ===== src/Masking/Vault/Laws.antt =====
-- What the vault promises: a mapping comes back until it expires, and every entry can be decoded.
use mathlib.Core.Option.{none-ne-some, some-injective}
use frostglass.Prelude.{
  ℕ, ◌+◌, ◌≡◌, refl, sym, ap, ◌∙◌, false, Option, none, some, List, ◌++◌, Str, str_eq, ◌==◌, ok,
  leb, take, drop, take-append, drop-append, Option-cases, ◌&&◌, if◌then◌else◌, pair_eq, ==_refl,
  Bool-cases, inl, inr,
}
use frostglass.Prelude.Dict
use frostglass.Prelude.Dict.{Dict, get-put}
use frostglass.Errors.{Py}
use frostglass.Masking.Models.{VaultMapping}
use frostglass.Masking.Vault.{
  Crypto, IsCrypto, StoredValue, EncryptedVault, encode, parse_plain, decode, get, put, new_vault,
}

-- What `get` makes of the entry that it finds.
abbrev pub fetched : Crypto → ℕ → Option StoredValue → Py (Option VaultMapping)
fetched c now none = ok none
fetched c now (some s) = decode c now s

pub get-eq-fetched :
    (c : Crypto) (now : ℕ) (v : EncryptedVault) (scope hash : Str) {o : Option StoredValue}
    → Dict.get v.forward (scope, hash) ≡ o
    → get c now v scope hash ≡ fetched c now o
unfolding get
get-eq-fetched c now v scope hash {o = none} e = rw (e, get)
get-eq-fetched c now v scope hash {o = some s} e = rw (e, get)

module _ (c : Crypto) (laws : IsCrypto c) where
  nonce_back : (i : ℕ) (cipher : List ℕ) → take 12 (c.urandom i ++ cipher) ≡ c.urandom i
  nonce_back i cipher = take-append 12 (c.urandom i) cipher (laws.length-urandom i)

  cipher_back : (i : ℕ) (cipher : List ℕ) → drop 12 (c.urandom i ++ cipher) ≡ cipher
  cipher_back i cipher = drop-append 12 (c.urandom i) cipher (laws.length-urandom i)

  parse_back :
      (i : ℕ) (m : VaultMapping)
      → parse_plain c (
          c.decrypt
            (take 12 (c.urandom i ++ c.encrypt (c.urandom i) (c.dumps m)))
            (drop 12 (c.urandom i ++ c.encrypt (c.urandom i) (c.dumps m))))
        ≡ ok (some m)
  unfolding parse_plain
  parse_back i m =
      simp (nonce_back, cipher_back, laws.decrypt-encrypt) (rw (laws.loads-dumps m, parse_plain))

  -- Decoding what was encoded gives the mapping before the expiry and None from then on.
  pub decode-encode :
      (now later : ℕ) (v : EncryptedVault) (m : VaultMapping)
      → decode c later (encode c now v m) ≡ ok (if leb (now + v.ttl) later then none else some m)
  unfolding decode encode
  decode-encode now later v m = elim (Bool-cases (leb (now + v.ttl) later)) [
    | inl e ↦ rw e
    | inr e ↦ rw e (parse_back v.drawn m)
  ]

  -- A mapping that is put is found by its scope and hash until its time to live has passed, and from
  -- then on `get` returns None.
  pub get-put_self :
      (now later : ℕ) (v : EncryptedVault) (scope : Str) (m : VaultMapping)
      → get c later (put c now v scope m) scope m.value_hash
        ≡ ok (if leb (now + v.ttl) later then none else some m)
  get-put_self now later v scope m =
      get-eq-fetched c later (put c now v scope m) scope m.value_hash {o = some (encode c now v m)}
        (unfold put in found)
      ∙ decode-encode now later v m
    where
      found :
          Dict.get
            (Dict.put v.forward (scope, m.value_hash) (encode c now v m))
            (scope, m.value_hash)
          ≡ some (encode c now v m)
      found = rw (get-put, ==_refl {A = Str × Str} (scope, m.value_hash))

  pub get-put_other :
      (now later : ℕ) (v : EncryptedVault) (scope other hash : Str) (m : VaultMapping)
      → (scope == other && m.value_hash == hash) ≡ false
      → get c later (put c now v scope m) other hash ≡ get c later v other hash
  get-put_other now later v scope other hash m differ =
      get-eq-fetched c later (put c now v scope m) other hash {o = Dict.get v.forward (other, hash)}
        (unfold put in kept)
      ∙ sym (get-eq-fetched c later v other hash refl)
    where
      kept :
          Dict.get (Dict.put v.forward (scope, m.value_hash) (encode c now v m)) (other, hash)
          ≡ Dict.get v.forward (other, hash)
      kept = rw (get-put, differ)

-- Every stored value is the encoding of some mapping, at some time, under some nonce of the source.
abbrev pub IsEncoded : Crypto → StoredValue → Type 0
IsEncoded c s = (now : ℕ) × (v : EncryptedVault) × (m : VaultMapping) × (s ≡ encode c now v m)

pub record IsSound (c : Crypto) (v : EncryptedVault) : Type 0 where
  pub forward_encoded :
      (k : Str × Str) (s : StoredValue) → Dict.get v.forward k ≡ some s → IsEncoded c s

pub new_vault-IsSound : (c : Crypto) (ttl : ℕ) → IsSound c (new_vault ttl)
unfolding Dict.get
new_vault-IsSound c ttl = record { forward_encoded = λ k s h. absurd (none-ne-some s h) }

pub put-IsSound :
    (c : Crypto) (now : ℕ) (v : EncryptedVault) (scope : Str) (m : VaultMapping)
    → IsSound c v
    → IsSound c (put c now v scope m)
unfolding put
put-IsSound c now v scope m sound = record {
  forward_encoded = λ k s h. elim (Bool-cases ((scope, m.value_hash) == k)) [
    | inl same ↦ (now, v, m, sym (some-injective _ _ (rw (get-put, same) at h)))
    | inr other ↦ sound.forward_encoded k s (rw (get-put, other) at h)
  ];
}

-- In a vault that was filled by `put`, `get` never raises.
pub get_total :
    (c : Crypto)
    → IsCrypto c
    → (now : ℕ) (v : EncryptedVault) (scope hash : Str) → IsSound c v
    → (o : Option VaultMapping) × (get c now v scope hash ≡ ok o)
get_total c laws now v scope hash sound = elim (Option-cases (Dict.get v.forward (scope, hash))) [
  | inl e ↦ (none, get-eq-fetched c now v scope hash e)
  | inr (s, e) ↦
      let (stored_at, w, m, d) = sound.forward_encoded (scope, hash) s e in
      (
        _,
        get-eq-fetched c now v scope hash e
            ∙ ap (decode c now) d
            ∙ decode-encode c laws stored_at now w m,
      )
]
