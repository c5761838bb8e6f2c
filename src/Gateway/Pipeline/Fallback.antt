-- ===== src/Gateway/Pipeline/Fallback.antt =====
-- Which provider answers.
use frostglass.Prelude.{
  ℕ, suc, ◌+◌, ◌≡◌, refl, Bool, List, [], ◌∷◌, ◌++◌, Str, ok, err, ◌>>=◌, All, length, ltb, arith,
}
use frostglass.Errors.{Py, timeout_error}
use frostglass.Json.{Value}
use frostglass.Masking.Vault.{Crypto, EncryptedVault}
use frostglass.Gateway.Pipeline.{
  Provider, Providers, ProviderResult, GatewayRequestContext, restore, first_call, attempt,
  complete_from, complete, chain, model_of,
}

module _ (c : Crypto) (now : ℕ) (protocol : Str) (payload : Value)
    (rc : GatewayRequestContext) where
  -- The provider raises `TimeoutError` or `OSError`.
  unfoldable pub TimesOut : Provider → Type 0
  TimesOut p = p.complete protocol payload ≡ err timeout_error

  -- A response, restored, with whether it is a fallback's
  abbrev pub answer : Value → Bool → EncryptedVault → Py ProviderResult × EncryptedVault
  answer response fallback_used v = (
    (restore c now response rc v).0 >>= λ restored.
        ok (record { payload = restored; fallback_used = fallback_used }),
    (restore c now response rc v).1,
  )

  first_answer :
      (front back : List Provider) (i : ℕ) (p : Provider) (response : Value) (v : EncryptedVault)
      → All TimesOut front
      → p.complete protocol payload ≡ ok response
      → complete_from c now protocol payload rc i (front ++ p ∷ back) v
        ≡ answer response (ltb 0 (i + length front)) v
  unfolding complete_from attempt TimesOut
  first_answer [] back i p response v down up =
      let same : i + 0 ≡ i = omega arith in rw (up, same) refl
  first_answer (q ∷ front) back i p response v down up =
      let same : suc i + length front ≡ i + suc (length front) = omega arith in
      rw (down.0, ← same) (first_answer front back (suc i) p response v down.1 up)

  All-down :
      (ps : List Provider) (i : ℕ) (v : EncryptedVault)
      → All TimesOut ps
      → complete_from c now protocol payload rc i ps v ≡ (err timeout_error, v)
  unfolding complete_from attempt TimesOut
  All-down [] i v down = refl
  All-down (p ∷ ps) i v down = rw down.0 (All-down ps (suc i) v down.1)

  -- A request goes down the chain of its model until a provider neither times out nor fails to
  -- connect. If that provider answers, the result is its answer, restored, and says whether it was not
  -- the first of the chain.
  pub complete-first_answer :
      (providers : Providers) (model : Str) (front back : List Provider) (p : Provider)
      (response : Value) (v : EncryptedVault)
      → model_of payload ≡ ok model
      → chain providers model ≡ front ++ p ∷ back
      → All TimesOut front
      → p.complete protocol payload ≡ ok response
      → complete c now providers protocol payload rc v ≡ answer response (ltb 0 (length front)) v
  unfolding complete first_call
  complete-first_answer providers model front back p response v named line down up =
      let same : 0 + length front ≡ length front = omega arith in
      rw (named, line, ← same) (first_answer front back 0 p response v down up)

  -- If all providers of the chain time out, so does the request, and the vault is as it was.
  pub complete-All_down :
      (providers : Providers) (model : Str) (v : EncryptedVault)
      → model_of payload ≡ ok model
      → All TimesOut (chain providers model)
      → complete c now providers protocol payload rc v ≡ (err timeout_error, v)
  unfolding complete first_call
  complete-All_down providers model v named down =
      rw named (All-down (chain providers model) 0 v down)
