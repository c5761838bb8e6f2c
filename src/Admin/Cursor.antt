-- ===== src/Admin/Cursor.antt =====
-- frostglass/admin/pagination.py, and `paginate` of routes_admin.py. Base64 and JSON are parameters.
use frostglass.Prelude.{
  Bool, true, false, Option, none, some, Str, str, str_eq, ok, err, ◌>>=◌, if◌then◌else◌,
}
use frostglass.Errors.{Py, value_error, gateway_error}
use frostglass.Json.{Value, Fields, text, object, end, field, find}

-- `urlsafe_b64encode` of `json.dumps(..., sort_keys=True)`, and `json.loads` of `urlsafe_b64decode`,
-- with None where one of them raises ValueError
pub record Codec : Type 0 where
  pub encode : Value → Str
  pub decode : Str → Option Value

-- `all(isinstance(value, str) for value in payload.values())`; the keys are texts.
unfoldable pub are_texts : Fields → Bool
are_texts end = true
are_texts (field k (text s) rest) = are_texts rest
are_texts (field k v rest) = false

-- The checks of `decode_cursor` on what was read
unfoldable pub cursor_payload : Option Value → Py Fields
unfolding are_texts
cursor_payload (some (object fields)) =
    if are_texts fields then ok fields else err (value_error (str "invalid cursor"))
cursor_payload _ = err (value_error (str "invalid cursor"))

unfoldable pub position_at : Option Value → Option Value → Py (Str × Str)
position_at (some (text ts)) (some (text id)) = ok (ts, id)
position_at _ _ = err (gateway_error 400 (str "Invalid cursor") (str "invalid_request_error"))

module _ (c : Codec) where
  -- `encode_cursor`, of a position
  unfoldable pub encode_cursor : Str × Str → Str
  encode_cursor (ts, id) =
      c.encode (object (field (str "id") (text id) (field (str "ts") (text ts) end)))

  -- `decode_cursor`
  unfoldable pub decode_cursor : Str → Py Fields
  unfolding cursor_payload
  decode_cursor cursor = cursor_payload (c.decode cursor)

  -- `paginate`
  unfoldable pub paginate : Option Str → Py (Option (Str × Str))
  unfolding decode_cursor position_at
  paginate none = ok none
  paginate (some cursor) = do
    position ← decode_cursor cursor
    at ← position_at (find position (str "ts")) (find position (str "id"))
    ok (some at)
