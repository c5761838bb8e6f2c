-- ===== src/Masking/Consistency.antt =====
-- frostglass/masking/consistency.py. The generator of masking/surrogates.py is the argument
-- `generate`, of the scope, the entity type, the original and its hash; `generate` of
-- Masking/Surrogates/Values is one. It may raise.
pub mod Stable
use frostglass.Prelude.{ℕ, Option, none, some, Str, ok, err}
use frostglass.Errors.{Py}
use frostglass.Masking.Models.{MaskingContext, VaultMapping, scope_id}
use frostglass.Masking.Vault.{EncryptedVault, Crypto, get, put}

abbrev pub Generator : Type 0
Generator = Str → Str → Str → Str → Py Str

module _ (c : Crypto) (generate : Generator) where
  -- A surrogate that is new is stored in both directions; what the generator raises is passed on.
  unfoldable pub new_surrogate :
      ℕ → EncryptedVault → Str → Str → Str → Str → Py Str × EncryptedVault
  new_surrogate now v scope entity_type original value_hash =
      elim (generate scope entity_type original value_hash) [
        | err e ↦ (err e, v)
        | ok surrogate ↦ (
          ok surrogate,
          put c now v scope (record {
            value_hash = value_hash;
            original = original;
            surrogate = surrogate;
            entity_type = entity_type;
          }),
        )
      ]

  -- `surrogate_for`
  unfoldable pub surrogate_for :
      ℕ → EncryptedVault → MaskingContext → Str → Str → Str → Py Str × EncryptedVault
  unfolding new_surrogate
  surrogate_for now v context entity_type original value_hash =
      elim (get c now v (scope_id context) value_hash) [
        | err e ↦ (err e, v)
        | ok (some existing) ↦ (ok existing.surrogate, v)
        | ok none ↦ new_surrogate now v (scope_id context) entity_type original value_hash
      ]
