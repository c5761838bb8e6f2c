-- ===== src/Gateway/Extract/Located/Whole.antt =====
-- `extract_text` as a whole.
use frostglass.Prelude.{
  ℕ, suc, ◌≡◌, refl, List, [], Str, str, str_eq, ◌==◌, All, All-append, drop, Bool-cases, inl, inr,
}
use frostglass.Json.{
  Value, null, boolean, integer, float, text, array, object, Items, nil, cons, Fields, end, field,
  get, to_list,
}
use frostglass.Gateway.Extract.{
  key, index, PayloadPath, ◌▹◌, TextLocation, if_text, collect_content, collect_blocks,
  collect_block, collect_block_content, call_arguments, collect_tool_call, if_list, if_object,
  collect_tool_calls, extract_fields, collect_message, collect_function, collect_tool,
  collect_input, extract_text, collect_schema,
}
use frostglass.Gateway.Extract.Located.{
  IsDict, AreDicts, HoldDicts, Held, IsLocated, Ok, found_at-Ok, if_text-Ok, items-Ok, get-Ok,
  into_field, into_item, drop_head, follow,
}
use frostglass.Gateway.Extract.Located.Reached.{append-Ok, get_text-Ok, get_json-Ok, schema-Ok}

module _ (root : Value) where
  mutual
    unfolding collect_content IsDict

    content-Ok :
        (v : Value) (path : PayloadPath) → IsDict v → Ok root v path (collect_content v path)
    content-Ok (text s) path d at = found_at-Ok root s path at
    content-Ok null path d at = tt
    content-Ok (boolean b) path d at = tt
    content-Ok (integer n) path d at = tt
    content-Ok (float n) path d at = tt
    content-Ok (array vs) path d at = blocks-Ok vs vs 0 path d refl at
    content-Ok (object fs) path d at = tt

    blocks-Ok :
        (vs whole : Items) (i : ℕ) (path : PayloadPath)
        → AreDicts vs
        → drop i (to_list whole) ≡ to_list vs
        → Ok root (array whole) path (collect_blocks vs i path)
    blocks-Ok nil whole i path d h at = tt
    blocks-Ok (cons v vs) whole i path d h at =
        All-append (IsLocated root) _ _
          (block-Ok v (path ▹ index i) d.0 (into_item root whole vs v i path h at))
          (blocks-Ok vs whole (suc i) path d.1 (drop_head i (to_list whole) v (to_list vs) h).1 at)

    block-Ok : (v : Value) (path : PayloadPath) → IsDict v → Ok root v path (collect_block v path)
    block-Ok (object fs) path d at =
        append-Ok root (object fs) path _ _ (get_text-Ok root fs (str "text") path d.1)
          (append-Ok root (object fs) path _ _ (get_json-Ok root fs (str "input") path d.1)
            (block_content-Ok fs fs path d.1 d.0))
          at
    block-Ok (text s) path d at = tt
    block-Ok null path d at = tt
    block-Ok (boolean b) path d at = tt
    block-Ok (integer n) path d at = tt
    block-Ok (float n) path d at = tt
    block-Ok (array vs) path d at = tt

    block_content-Ok :
        (fs whole : Fields) (path : PayloadPath)
        → HoldDicts fs
        → Held fs whole
        → Ok root (object whole) path (collect_block_content fs (path ▹ key (str "content")))
    block_content-Ok end whole path d h at = tt
    block_content-Ok (field k v fs) whole path d h at = elim (Bool-cases (k == str "content")) [
      | inl e ↦
          let same : k ≡ str "content" = (str_eq.beq_iff k (str "content")).0 e in
          rw e (
            content-Ok v (path ▹ key (str "content")) d.0
              (into_field root whole (str "content") v path (rw same at h.0) at))
      | inr e ↦ rw e (block_content-Ok fs whole path d.1 h.1 at)
    ]

  -- The loop over a list, where every element's part leads to its texts.
  list-Ok :
      (collect : Value → PayloadPath → List TextLocation)
      → ((v : Value) (path : PayloadPath) → IsDict v → Ok root v path (collect v path))
      → (v : Value) (path : PayloadPath) → IsDict v
      → Ok root v path (if_list collect v path)
  unfolding if_list IsDict
  list-Ok collect ok (array vs) path d at = items-Ok root collect ok vs vs 0 path d refl at
  list-Ok collect ok (text s) path d at = tt
  list-Ok collect ok null path d at = tt
  list-Ok collect ok (boolean b) path d at = tt
  list-Ok collect ok (integer n) path d at = tt
  list-Ok collect ok (float n) path d at = tt
  list-Ok collect ok (object fs) path d at = tt

  Parts : (Fields → PayloadPath → List TextLocation) → Type 0
  Parts collect =
      (fs : Fields) (path : PayloadPath)
      → HoldDicts fs
      → Held fs fs
      → Ok root (object fs) path (collect fs path)

  object-Ok :
      (collect : Fields → PayloadPath → List TextLocation)
      → Parts collect
      → (v : Value) (path : PayloadPath) → IsDict v
      → Ok root v path (if_object collect v path)
  unfolding if_object IsDict Parts
  object-Ok collect ok (object fs) path d at = ok fs path d.1 d.0 at
  object-Ok collect ok (text s) path d at = tt
  object-Ok collect ok null path d at = tt
  object-Ok collect ok (boolean b) path d at = tt
  object-Ok collect ok (integer n) path d at = tt
  object-Ok collect ok (float n) path d at = tt
  object-Ok collect ok (array vs) path d at = tt

  call_arguments-ok : Parts call_arguments
  unfolding call_arguments Parts
  call_arguments-ok fs path d _ = get_text-Ok root fs (str "arguments") path d

  tool_call-ok : Parts collect_tool_call
  unfolding collect_tool_call if_object Parts
  tool_call-ok fs path d _ =
      append-Ok root (object fs) path _ _
        (get-Ok root fs (str "function") path (if_object call_arguments)
          (object-Ok call_arguments call_arguments-ok) d (λ p. refl))
        (get_json-Ok root fs (str "input") path d)

  message-ok : Parts collect_message
  unfolding collect_message collect_content collect_tool_calls if_list Parts
  message-ok fs path d _ =
      append-Ok root (object fs) path _ _
        (get-Ok root fs (str "content") path collect_content content-Ok d (λ p. refl))
        (append-Ok root (object fs) path _ _
          (get-Ok root fs (str "tool_calls") path collect_tool_calls
            (list-Ok (if_object collect_tool_call) (object-Ok collect_tool_call tool_call-ok)) d
            (λ p. refl))
          (get_text-Ok root fs (str "tool_result") path d))

  get_schema-Ok :
      (fs : Fields) (k : Str) (path : PayloadPath)
      → HoldDicts fs
      → Ok root (object fs) path (collect_schema (get fs k) (path ▹ key k))
  unfolding collect_schema
  get_schema-Ok fs k path d = get-Ok root fs k path collect_schema (schema-Ok root) d (λ p. refl)

  function-ok : Parts collect_function
  unfolding collect_function Parts
  function-ok fs path d _ =
      append-Ok root (object fs) path _ _ (get_text-Ok root fs (str "description") path d)
        (get_schema-Ok fs (str "parameters") path d)

  tool-ok : Parts collect_tool
  unfolding collect_tool if_object Parts
  tool-ok fs path d _ =
      append-Ok root (object fs) path _ _ (get_text-Ok root fs (str "description") path d) (
        append-Ok root (object fs) path _ _ (get_schema-Ok fs (str "input_schema") path d) (
          get-Ok root fs (str "function") path (if_object collect_function)
            (object-Ok collect_function function-ok) d (λ p. refl)))

  input-Ok : (v : Value) (path : PayloadPath) → IsDict v → Ok root v path (collect_input v path)
  unfolding collect_input if_list IsDict
  input-Ok (text s) path d at = found_at-Ok root s path at
  input-Ok (array vs) path d at =
      items-Ok root if_text (λ v p _. if_text-Ok root v p) vs vs 0 path d refl at
  input-Ok null path d at = tt
  input-Ok (boolean b) path d at = tt
  input-Ok (integer n) path d at = tt
  input-Ok (float n) path d at = tt
  input-Ok (object fs) path d at = tt

  fields-ok : Parts extract_fields
  unfolding extract_fields collect_content if_list collect_input Parts
  fields-ok fs path d _ =
      append-Ok root (object fs) path _ _
        (get-Ok root fs (str "system") path collect_content content-Ok d (λ p. refl))
        (append-Ok root (object fs) path _ _
          (get-Ok root fs (str "messages") path (if_list (if_object collect_message))
            (list-Ok (if_object collect_message) (object-Ok collect_message message-ok)) d
            (λ p. refl))
          (append-Ok root (object fs) path _ _
            (get-Ok root fs (str "tools") path (if_list (if_object collect_tool))
              (list-Ok (if_object collect_tool) (object-Ok collect_tool tool-ok)) d (λ p. refl))
            (get-Ok root fs (str "input") path collect_input input-Ok d (λ p. refl))))

-- Every text that is extracted of a payload, none of whose objects has a key twice, stands in the
-- payload at the path it is extracted with.
pub extract_text-IsLocated :
    (payload : Value) → IsDict payload → All (IsLocated payload) (extract_text payload)
unfolding extract_text follow
extract_text-IsLocated payload d =
    object-Ok payload extract_fields (fields-ok payload) payload [] d refl
