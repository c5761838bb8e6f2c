-- ===== src/Gateway/Extract/Located/Reached.antt =====
-- `extract_text`, part by part.
use frostglass.Prelude.{
  ℕ, suc, ◌≡◌, refl, List, ◌++◌, Str, str_eq, All-append, drop, Bool-cases, inl, inr, contains,
}
use frostglass.Json.{
  Value, null, boolean, integer, float, text, array, object, Items, nil, cons, Fields, end, field,
  get, to_list,
}
use frostglass.Gateway.Extract.{
  key, index, PayloadPath, ◌▹◌, TextLocation, schema_text_keys, schema_list_keys, if_text,
  collect_json, collect_json_items, collect_json_fields, schema_entry, collect_schema,
  collect_schema_items, collect_schema_fields, if_nested_json,
}
use frostglass.Gateway.Extract.Located.{
  IsDict, AreDicts, HoldDicts, Held, IsLocated, Ok, found_at-Ok, if_text-Ok, items-Ok, get-Ok,
  into_field, into_item, drop_head,
}

module _ (root : Value) where
  pub append-Ok :
      (v : Value) (path : PayloadPath) (xs ys : List TextLocation)
      → Ok root v path xs
      → Ok root v path ys
      → Ok root v path (xs ++ ys)
  append-Ok v path xs ys h k at = All-append (IsLocated root) xs ys (h at) (k at)

  mutual
    unfolding collect_json IsDict

    json-Ok : (v : Value) (path : PayloadPath) → IsDict v → Ok root v path (collect_json v path)
    json-Ok (text s) path d at = found_at-Ok root s path at
    json-Ok null path d at = tt
    json-Ok (boolean b) path d at = tt
    json-Ok (integer n) path d at = tt
    json-Ok (float n) path d at = tt
    json-Ok (array vs) path d at = json_items-Ok vs vs 0 path d refl at
    json-Ok (object fs) path d at = json_fields-Ok fs fs path d.1 d.0 at

    json_items-Ok :
        (vs whole : Items) (i : ℕ) (path : PayloadPath)
        → AreDicts vs
        → drop i (to_list whole) ≡ to_list vs
        → Ok root (array whole) path (collect_json_items vs i path)
    json_items-Ok nil whole i path d h at = tt
    json_items-Ok (cons v vs) whole i path d h at =
        All-append (IsLocated root) _ _
          (json-Ok v (path ▹ index i) d.0 (into_item root whole vs v i path h at))
          (json_items-Ok vs whole (suc i) path d.1 (drop_head i (to_list whole) v (to_list vs) h).1
            at)

    json_fields-Ok :
        (fs whole : Fields) (path : PayloadPath)
        → HoldDicts fs
        → Held fs whole
        → Ok root (object whole) path (collect_json_fields fs path)
    json_fields-Ok end whole path d h at = tt
    json_fields-Ok (field k v fs) whole path d h at =
        All-append (IsLocated root) _ _
          (json-Ok v (path ▹ key k) d.0 (into_field root whole k v path h.0 at))
          (json_fields-Ok fs whole path d.1 h.1 at)

  schema_entry-Ok :
      (k : Str) (v : Value) (path : PayloadPath) (otherwise : List TextLocation)
      → IsDict v
      → Ok root v path otherwise
      → Ok root v path (schema_entry k v path otherwise)
  unfolding schema_entry IsDict
  schema_entry-Ok k (text s) path otherwise d h at =
      elim (Bool-cases (contains k schema_text_keys)) [
        | inl e ↦ rw e (found_at-Ok root s path at)
        | inr e ↦ rw e (h at)
      ]
  schema_entry-Ok k (array vs) path otherwise d h at =
      elim (Bool-cases (contains k schema_list_keys)) [
        | inl e ↦ rw e (items-Ok root if_text (λ v p _. if_text-Ok root v p) vs vs 0 path d refl at)
        | inr e ↦ rw e (h at)
      ]
  schema_entry-Ok k null path otherwise d h at = h at
  schema_entry-Ok k (boolean b) path otherwise d h at = h at
  schema_entry-Ok k (integer n) path otherwise d h at = h at
  schema_entry-Ok k (float n) path otherwise d h at = h at
  schema_entry-Ok k (object fs) path otherwise d h at = h at

  mutual
    unfolding collect_schema IsDict

    pub schema-Ok :
        (v : Value) (path : PayloadPath) → IsDict v → Ok root v path (collect_schema v path)
    schema-Ok (text s) path d at = tt
    schema-Ok null path d at = tt
    schema-Ok (boolean b) path d at = tt
    schema-Ok (integer n) path d at = tt
    schema-Ok (float n) path d at = tt
    schema-Ok (array vs) path d at = schema_items-Ok vs vs 0 path d refl at
    schema-Ok (object fs) path d at = schema_fields-Ok fs fs path d.1 d.0 at

    schema_items-Ok :
        (vs whole : Items) (i : ℕ) (path : PayloadPath)
        → AreDicts vs
        → drop i (to_list whole) ≡ to_list vs
        → Ok root (array whole) path (collect_schema_items vs i path)
    schema_items-Ok nil whole i path d h at = tt
    schema_items-Ok (cons v vs) whole i path d h at =
        All-append (IsLocated root) _ _
          (schema-Ok v (path ▹ index i) d.0 (into_item root whole vs v i path h at))
          (schema_items-Ok vs whole (suc i) path d.1
            (drop_head i (to_list whole) v (to_list vs) h).1 at)

    schema_fields-Ok :
        (fs whole : Fields) (path : PayloadPath)
        → HoldDicts fs
        → Held fs whole
        → Ok root (object whole) path (collect_schema_fields fs path)
    schema_fields-Ok end whole path d h at = tt
    schema_fields-Ok (field k v fs) whole path d h at =
        All-append (IsLocated root) _ _
          (schema_entry-Ok k v (path ▹ key k) _ d.0 (schema-Ok v (path ▹ key k) d.0)
            (into_field root whole k v path h.0 at))
          (schema_fields-Ok fs whole path d.1 h.1 at)

  if_nested_json-Ok :
      (v : Value) (path : PayloadPath) → IsDict v → Ok root v path (if_nested_json v path)
  unfolding if_nested_json
  if_nested_json-Ok (array vs) path d at = json-Ok (array vs) path d at
  if_nested_json-Ok (object fs) path d at = json-Ok (object fs) path d at
  if_nested_json-Ok (text s) path d at = tt
  if_nested_json-Ok null path d at = tt
  if_nested_json-Ok (boolean b) path d at = tt
  if_nested_json-Ok (integer n) path d at = tt
  if_nested_json-Ok (float n) path d at = tt

  pub get_text-Ok :
      (fs : Fields) (k : Str) (path : PayloadPath)
      → HoldDicts fs
      → Ok root (object fs) path (if_text (get fs k) (path ▹ key k))
  unfolding if_text
  get_text-Ok fs k path d =
      get-Ok root fs k path if_text (λ v p _. if_text-Ok root v p) d (λ p. refl)

  pub get_json-Ok :
      (fs : Fields) (k : Str) (path : PayloadPath)
      → HoldDicts fs
      → Ok root (object fs) path (if_nested_json (get fs k) (path ▹ key k))
  unfolding if_nested_json
  get_json-Ok fs k path d = get-Ok root fs k path if_nested_json if_nested_json-Ok d (λ p. refl)
