-- ===== src/Gateway/Handle/Tests.antt =====
-- A request through an instance with one key, no detectors and providers that answer.
use frostglass.Prelude.{refl, false, Option, none, some, [], ◌∷◌, Str, str, str_eq, ok, any}
use frostglass.Json.{Fields, text, end, field}
use frostglass.Policy.Models.{RuleSet, Action}
use frostglass.Policy.Engine.{static}
use frostglass.Masking.Vault.{new_vault}
use frostglass.Gateway.Auth.{Principal}
use frostglass.Gateway.Budget.{new_limits}
use frostglass.Gateway.Pipeline.{Provider}
use frostglass.Gateway.Handle.{Instance, Moment, Gateway, handle}
use frostglass.Gateway.Handle.Settled.{Accounted, handle-settled}

abbrev caller : Principal
caller = record {
  user = str "u";
  team = str "team";
  allowed_models = str "*" ∷ [];
  monthly_budget_cents = 10;
  rate_limit_rpm = 5;
  shadow_mode = false;
}

abbrev echo : Provider
echo = record {
  complete = λ protocol payload. ok payload;
  stream = λ protocol payload. ok ([], []);
}

abbrev allow_all : RuleSet
allow_all = record { version = 1; default_action = Action.allow; rules = []; shadow_mode = false }

abbrev instance_a : Instance
instance_a = record {
  keys = (str "fg-live-key1", (str "fg-live-key1", caller)) ∷ [];
  detectors = [];
  engine = static allow_all;
  providers = record { primary = echo; fallback = echo; failing_primary = echo };
  tenant_salt = [];
  default_tenant = str "default";
  capture = none;
  crypto = record {
    encrypt = λ nonce plain. plain;
    decrypt = λ nonce sealed. some sealed;
    dumps = λ m. m.original;
    loads = λ s. none;
    urandom = λ i. 0 ∷ [];
  };
  generate = λ scope entity_type original value_hash. ok original;
  sha256_hexdigest = λ bytes. bytes;
  key_digest = λ key. key;
  uuid4_hex = λ n. n ∷ [];
  dumps = λ names. [];
}

abbrev moment_a : Moment
moment_a = record { now = 5; ts = str "2026"; latency_ms = 1 }

abbrev fresh_gateway : Gateway
fresh_gateway = record {
  limits = new_limits;
  vault = new_vault 1000;
  audit = record { requests = []; findings = []; captured = []; drawn = 0 };
}

abbrev payload_a : Fields
payload_a = field (str "model") (text (str "m")) end

abbrev bearer_a : Option Str
bearer_a = some (str "Bearer fg-live-key1")

handle-settled_example :
    Accounted instance_a moment_a
      (str "openai")
      payload_a
      fresh_gateway
      bearer_a
      (handle instance_a moment_a (str "openai") payload_a fresh_gateway bearer_a none)
unfolding any
handle-settled_example =
    handle-settled instance_a moment_a (str "openai") payload_a fresh_gateway bearer_a none refl
