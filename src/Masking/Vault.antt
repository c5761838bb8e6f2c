-- ===== src/Masking/Vault.antt =====
-- frostglass/masking/vault.py. The cipher (AES-GCM) and the JSON text of a mapping are parameters.
-- Time is a number of microseconds; within one call the clock is read once. `drawn` counts the nonces
-- that were drawn from the random source.
pub mod Laws
use frostglass.Prelude.{
  ℕ, suc, ◌+◌, ◌≡◌, Bool, not, Option, none, some, List, [], ◌∷◌, ◌++◌, Str, str, str_eq, ◌==◌, ok,
  err, ◌>>=◌, leb, ltb, take, drop, length, filter, if◌then◌else◌, pair_eq,
}
use frostglass.Prelude.Dict
use frostglass.Prelude.Dict.{Dict}
use frostglass.Errors.{Py, invalid_tag}
use frostglass.Masking.Models.{VaultMapping}

-- What the vault calls: `AESGCM.encrypt` and `decrypt` under its key, `json.dumps` and `loads` of a
-- mapping, and `os.urandom(12)`.
pub record Crypto : Type 0 where
  pub encrypt : List ℕ → List ℕ → List ℕ
  pub decrypt : List ℕ → List ℕ → Option (List ℕ)
  pub dumps : VaultMapping → List ℕ
  pub loads : List ℕ → Option VaultMapping
  pub urandom : ℕ → List ℕ

-- What these functions promise: decryption and parsing undo encryption and printing, and a nonce has
-- twelve bytes.
pub record IsCrypto (c : Crypto) : Type 0 where
  pub decrypt-encrypt :
      (nonce plain : List ℕ) → c.decrypt nonce (c.encrypt nonce plain) ≡ some plain
  pub loads-dumps : (m : VaultMapping) → c.loads (c.dumps m) ≡ some m
  pub length-urandom : (i : ℕ) → length (c.urandom i) ≡ 12

-- `_StoredValue`
pub record StoredValue : Type 0 where
  pub ciphertext : List ℕ
  pub expires_at : ℕ

pub record EncryptedVault : Type 0 where
  pub ttl : ℕ
  pub forward : Dict (Str × Str) StoredValue
  pub reverse : Dict (Str × Str) StoredValue
  pub drawn : ℕ

-- `EncryptedVault.__init__`
abbrev pub new_vault : ℕ → EncryptedVault
new_vault ttl = record { ttl = ttl; forward = []; reverse = []; drawn = 0 }

-- `value.expires_at > now`
unfoldable pub is_live : ℕ → StoredValue → Bool
is_live now v = ltb now v.expires_at

-- `purge_expired`
unfoldable pub purge_expired : ℕ → EncryptedVault → EncryptedVault
purge_expired now v = record v {
  forward = filter (λ e. is_live now e.1) v.forward;
  reverse = filter (λ e. is_live now e.1) v.reverse;
}

module _ (c : Crypto) where
  -- `_encode`, with the nonce that is drawn
  unfoldable pub encode : ℕ → EncryptedVault → VaultMapping → StoredValue
  encode now v mapping = record {
    ciphertext = c.urandom v.drawn ++ c.encrypt (c.urandom v.drawn) (c.dumps mapping);
    expires_at = now + v.ttl;
  }

  -- `json.loads` of what was decrypted
  unfoldable pub parse_plain : Option (List ℕ) → Py (Option VaultMapping)
  parse_plain none = err invalid_tag
  parse_plain (some plain) = elim (c.loads plain) [ none ↦ err invalid_tag | some m ↦ ok (some m) ]

  -- `_decode`
  unfoldable pub decode : ℕ → StoredValue → Py (Option VaultMapping)
  unfolding parse_plain
  decode now stored =
      if leb stored.expires_at now
      then ok none
      else parse_plain (c.decrypt (take 12 stored.ciphertext) (drop 12 stored.ciphertext))

  -- `get`
  unfoldable pub get : ℕ → EncryptedVault → Str → Str → Py (Option VaultMapping)
  unfolding decode
  get now v scope_id value_hash = elim (Dict.get v.forward (scope_id, value_hash)) [
    | none ↦ ok none
    | some stored ↦ decode now stored
  ]

  -- `put`
  unfoldable pub put : ℕ → EncryptedVault → Str → VaultMapping → EncryptedVault
  unfolding encode
  put now v scope_id mapping = record v {
    forward = Dict.put v.forward (scope_id, mapping.value_hash) (encode now v mapping);
    reverse = Dict.put v.reverse (scope_id, mapping.surrogate) (encode now v mapping);
    drawn = suc v.drawn;
  }

  -- `if mapping is not None: mappings[surrogate] = mapping.original`
  unfoldable pub add_mapping : Dict Str Str → Str → Option VaultMapping → Dict Str Str
  add_mapping mappings surrogate none = mappings
  add_mapping mappings surrogate (some m) = Dict.put mappings surrogate m.original

  -- The loop of `reverse_map`, `mappings` so far
  unfoldable pub collect : ℕ → Str → Dict Str Str → Dict (Str × Str) StoredValue → Py (Dict Str Str)
  unfolding add_mapping
  collect now scope_id mappings [] = ok mappings
  collect now scope_id mappings (((stored_scope, surrogate), stored) ∷ rest) =
      let skipped = collect now scope_id mappings rest in
      let taken = (do
        found ← decode now stored
        collect now scope_id (add_mapping mappings surrogate found) rest) in
      if stored_scope == scope_id then taken else skipped

  -- `reverse_map`: the mappings, and the vault after the purge
  unfoldable pub reverse_map : ℕ → EncryptedVault → Str → Py (Dict Str Str) × EncryptedVault
  unfolding collect purge_expired
  reverse_map now v scope_id =
      (collect now scope_id [] (purge_expired now v).reverse, purge_expired now v)
