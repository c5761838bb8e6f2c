-- ===== src/Gateway/Auth.antt =====
-- frostglass/gateway/auth.py. The hexadecimal digest of SHA-256, of a text under UTF-8, is a parameter.
pub mod Keys
use frostglass.Prelude.{
  ℕ, Bool, true, false, not, ◌||◌, Option, none, some, List, [], ◌∷◌, Str, str, str_eq, ◌==◌, ok,
  err, ◌>>=◌, take, if◌then◌else◌,
}
use frostglass.Prelude.Dict
use frostglass.Prelude.Dict.{Dict}
use frostglass.Prelude.Strings.{starts_with, remove_prefix}
use frostglass.Errors.{Py, value_error, gateway_error}

pub record Principal : Type 0 where
  pub user : Str
  pub team : Str
  pub allowed_models : List Str
  pub monthly_budget_cents : ℕ
  pub rate_limit_rpm : ℕ
  pub shadow_mode : Bool

-- `VirtualKeyStore._keys`: by the first twelve characters of a key, its digest and its principal
abbrev pub VirtualKeyStore : Type 0
VirtualKeyStore = Dict Str (Str × Principal)

module _ (digest : Str → Str) where
  -- `VirtualKeyStore.register`
  unfoldable pub register : VirtualKeyStore → Str → Principal → Py VirtualKeyStore
  register keys key principal =
      if starts_with (str "fg-live-") key
      then ok (Dict.put keys (take 12 key) (digest key, principal))
      else err (value_error (str "virtual keys must use the fg-live- prefix"))

  -- The entry of a key, if its digest agrees
  unfoldable pub check_entry : Str → Option (Str × Principal) → Py Principal
  check_entry key none =
      err (gateway_error 401 (str "Invalid Frostglass virtual key") (str "authentication_error"))
  check_entry key (some (stored, principal)) =
      if stored == digest key
      then ok principal
      else err
          (gateway_error 401 (str "Invalid Frostglass virtual key") (str "authentication_error"))

  -- `VirtualKeyStore.resolve`
  unfoldable pub resolve : VirtualKeyStore → Option Str → Py Principal
  unfolding check_entry
  resolve keys none =
      err (gateway_error 401 (str "Missing Frostglass virtual key") (str "authentication_error"))
  resolve keys (some authorization) =
      if starts_with (str "Bearer ") authorization
      then (let key = remove_prefix authorization (str "Bearer ") in
          check_entry key (Dict.get keys (take 12 key)))
      else err
          (gateway_error 401 (str "Missing Frostglass virtual key") (str "authentication_error"))

  -- `default_key_store`
  unfoldable pub default_key_store : Py VirtualKeyStore
  unfolding register
  default_key_store = do
    one ← register [] (str "fg-live-test-key") (record {
      user = str "test-user";
      team = str "test-team";
      allowed_models = str "*" ∷ [];
      monthly_budget_cents = 100_000;
      rate_limit_rpm = 60;
      shadow_mode = false;
    })
    two ← register one (str "fg-live-budget-key") (record {
      user = str "budget-user";
      team = str "budget-team";
      allowed_models = str "*" ∷ [];
      monthly_budget_cents = 0;
      rate_limit_rpm = 60;
      shadow_mode = false;
    })
    register two (str "fg-live-rate-key") (record {
      user = str "rate-user";
      team = str "rate-team";
      allowed_models = str "*" ∷ [];
      monthly_budget_cents = 100_000;
      rate_limit_rpm = 1;
      shadow_mode = false;
    })
