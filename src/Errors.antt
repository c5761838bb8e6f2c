-- ===== src/Errors.antt =====
-- frostglass/errors.py, and the exceptions that the modelled code raises, as values.
use frostglass.Prelude.{ℕ, List, [], Option, none, some, Str, Result, or_list}

pub record ErrorBody : Type 0 where
  pub message : Str
  pub type : Str
  pub code : Str

pub record GatewayError : Type 0 where
  pub status_code : ℕ
  pub body : ErrorBody
  pub headers : List (Str × Str)

-- `GatewayError.__init__`
unfoldable pub new_gateway_error : ℕ → Str → Str → Option (List (Str × Str)) → GatewayError
new_gateway_error status message error_type none = record {
  status_code = status;
  body = record { message = message; type = error_type; code = error_type };
  headers = [];
}
new_gateway_error status message error_type (some headers) = record {
  status_code = status;
  body = record { message = message; type = error_type; code = error_type };
  headers = or_list headers [];
}

pub data PyError : Type 0 where
  value_error : Str → PyError
  type_error : Str → PyError
  runtime_error : Str → PyError
  key_error : PyError
  index_error : PyError
  integrity_error : PyError
  timeout_error : PyError
  overflow_error : PyError
  invalid_tag : PyError
  blocked_content : Str → PyError
  gateway : GatewayError → PyError

-- `gateway_error`, raised
unfoldable pub gateway_error : ℕ → Str → Str → PyError
unfolding new_gateway_error
gateway_error status message error_type = gateway (new_gateway_error status message error_type none)

abbrev pub Py : Type 0 → Type 0
Py A = Result PyError A
