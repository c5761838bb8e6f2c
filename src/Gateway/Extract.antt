-- ===== src/Gateway/Extract.antt =====
-- frostglass/gateway/extract.py: the prompt texts of a payload, with their paths.
pub mod Located
pub mod Replaced
use frostglass.Prelude.{
  ℕ, zero, suc, ◌≡◌, refl, ap, subst, ◌↔◌, Bool, true, false, ◌&&◌, Eq, str_beq, nat_beq,
  nat_beq_iff, and_left, and_right, and_intro, Option, none, some, List, [], ◌∷◌, ◌++◌, Str, str,
  str_eq, ◌==◌, contains, if◌then◌else◌,
}
use frostglass.Json.{Value, text, array, object, Items, nil, cons, Fields, end, field, find, get}

-- A step of a path: a key of an object or an index of a list
pub data Segment : Type 0 where
  key : Str → Segment
  index : ℕ → Segment

abbrev pub PayloadPath : Type 0
PayloadPath = List Segment

unfoldable pub segment_beq : Segment → Segment → Bool
segment_beq (key a) (key b) = str_beq a b
segment_beq (index i) (index j) = nat_beq i j
segment_beq _ _ = false

key_injective : (a b : Str) → key a ≡ key b → a ≡ b
key_injective a b h = cc

index_injective : (i j : ℕ) → index i ≡ index j → i ≡ j
index_injective i j h = cc

pub segment_beq_iff : (a b : Segment) → (segment_beq a b ≡ true) ↔ (a ≡ b)
unfolding segment_beq
segment_beq_iff (key a) (key b) =
    (λ h. ap key ((str_eq.beq_iff a b).0 h), λ h. (str_eq.beq_iff a b).1 (key_injective a b h))
segment_beq_iff (index i) (index j) =
    (λ h. ap index ((nat_beq_iff i j).0 h), λ h. (nat_beq_iff i j).1 (index_injective i j h))
segment_beq_iff (key a) (index j) = (λ h. cc, λ h. cc)
segment_beq_iff (index i) (key b) = (λ h. cc, λ h. cc)

instance abbrev pub segment_eq : Eq Segment
segment_eq = record { beq = segment_beq; beq_iff = segment_beq_iff }

unfoldable pub path_beq : PayloadPath → PayloadPath → Bool
path_beq [] [] = true
path_beq (a ∷ p) (b ∷ q) = a == b && path_beq p q
path_beq _ _ = false

pub path_beq_to : (p q : PayloadPath) → path_beq p q ≡ true → p ≡ q
unfolding path_beq
path_beq_to [] [] h = refl
path_beq_to [] (b ∷ q) h = cc
path_beq_to (a ∷ p) [] h = cc
path_beq_to (a ∷ p) (b ∷ q) h =
    λ i. (segment_eq.beq_iff a b).0 (and_left _ _ h) i ∷ path_beq_to p q (and_right _ _ h) i

pub path_beq_same : (p : PayloadPath) → path_beq p p ≡ true
unfolding path_beq
path_beq_same [] = refl
path_beq_same (a ∷ p) = and_intro _ _ ((segment_eq.beq_iff a a).1 refl) (path_beq_same p)

instance abbrev pub path_eq : Eq PayloadPath
path_eq = record {
  beq = path_beq;
  beq_iff = λ p q. (path_beq_to p q, λ e. subst (λ r. path_beq p r ≡ true) e (path_beq_same p));
}

pub record TextLocation : Type 0 where
  pub path : PayloadPath
  pub text : Str

unfoldable pub found_at : PayloadPath → Str → List TextLocation
found_at path s = record { path = path; text = s } ∷ []

-- `path + (segment,)`
infixl 80 ◌▹◌
abbrev pub ◌▹◌ : PayloadPath → Segment → PayloadPath
path ▹ segment = path ++ segment ∷ []

abbrev pub schema_text_keys : List Str
schema_text_keys = str "description" ∷ str "default" ∷ str "const" ∷ str "title" ∷ []

abbrev pub schema_list_keys : List Str
schema_list_keys = str "enum" ∷ str "examples" ∷ []

-- `if isinstance(value, str): found.append(...)`
unfoldable pub if_text : Value → PayloadPath → List TextLocation
unfolding found_at
if_text (text s) path = found_at path s
if_text _ path = []

-- A loop over a list, with the index
unfoldable pub each :
    (Value → PayloadPath → List TextLocation) → Items → ℕ → PayloadPath → List TextLocation
each collect nil i path = []
each collect (cons v vs) i path = collect v (path ▹ index i) ++ each collect vs (suc i) path

-- `collect_json`
unfoldable mutual
  unfolding found_at

  pub collect_json : Value → PayloadPath → List TextLocation
  collect_json (text s) path = found_at path s
  collect_json (array vs) path = collect_json_items vs 0 path
  collect_json (object fs) path = collect_json_fields fs path
  collect_json _ path = []

  pub collect_json_items : Items → ℕ → PayloadPath → List TextLocation
  collect_json_items nil i path = []
  collect_json_items (cons v vs) i path =
      collect_json v (path ▹ index i) ++ collect_json_items vs (suc i) path

  pub collect_json_fields : Fields → PayloadPath → List TextLocation
  collect_json_fields end path = []
  collect_json_fields (field k v fs) path =
      collect_json v (path ▹ key k) ++ collect_json_fields fs path

-- One entry of a schema object; `otherwise` is what its value gives as a schema
unfoldable pub schema_entry : Str → Value → PayloadPath → List TextLocation → List TextLocation
unfolding found_at each if_text
schema_entry k (text s) path otherwise =
    if contains k schema_text_keys then found_at path s else otherwise
schema_entry k (array vs) path otherwise =
    if contains k schema_list_keys then each if_text vs 0 path else otherwise
schema_entry k v path otherwise = otherwise

-- `collect_schema`
unfoldable mutual
  unfolding schema_entry

  pub collect_schema : Value → PayloadPath → List TextLocation
  collect_schema (array vs) path = collect_schema_items vs 0 path
  collect_schema (object fs) path = collect_schema_fields fs path
  collect_schema _ path = []

  pub collect_schema_items : Items → ℕ → PayloadPath → List TextLocation
  collect_schema_items nil i path = []
  collect_schema_items (cons v vs) i path =
      collect_schema v (path ▹ index i) ++ collect_schema_items vs (suc i) path

  pub collect_schema_fields : Fields → PayloadPath → List TextLocation
  collect_schema_fields end path = []
  collect_schema_fields (field k v fs) path =
      schema_entry k v (path ▹ key k) (collect_schema v (path ▹ key k))
      ++ collect_schema_fields fs path

-- `if isinstance(value, dict | list): collect_json(...)`
unfoldable pub if_nested_json : Value → PayloadPath → List TextLocation
unfolding collect_json
if_nested_json (array vs) path = collect_json (array vs) path
if_nested_json (object fs) path = collect_json (object fs) path
if_nested_json _ path = []

-- `collect_content` and `collect_block`
unfoldable mutual
  unfolding found_at if_text if_nested_json get

  pub collect_content : Value → PayloadPath → List TextLocation
  collect_content (text s) path = found_at path s
  collect_content (array vs) path = collect_blocks vs 0 path
  collect_content _ path = []

  pub collect_blocks : Items → ℕ → PayloadPath → List TextLocation
  collect_blocks nil i path = []
  collect_blocks (cons v vs) i path =
      collect_block v (path ▹ index i) ++ collect_blocks vs (suc i) path

  pub collect_block : Value → PayloadPath → List TextLocation
  collect_block (object fs) path =
      if_text (get fs (str "text")) (path ▹ key (str "text"))
      ++ (if_nested_json (get fs (str "input")) (path ▹ key (str "input"))
          ++ collect_block_content fs (path ▹ key (str "content")))
  collect_block _ path = []

  -- `if "content" in block: collect_content(block["content"], path)`
  pub collect_block_content : Fields → PayloadPath → List TextLocation
  collect_block_content end path = []
  collect_block_content (field k v fs) path =
      let found = collect_content v path in
      let later = collect_block_content fs path in if k == str "content" then found else later

-- `if isinstance(value, list): for index, item in enumerate(value): ...`
unfoldable pub if_list :
    (Value → PayloadPath → List TextLocation) → Value → PayloadPath → List TextLocation
unfolding each
if_list collect (array vs) path = each collect vs 0 path
if_list collect _ path = []

-- `if isinstance(value, dict): ...`
unfoldable pub if_object :
    (Fields → PayloadPath → List TextLocation) → Value → PayloadPath → List TextLocation
if_object collect (object fs) path = collect fs path
if_object collect _ path = []

-- The arguments of a call's function
unfoldable pub call_arguments : Fields → PayloadPath → List TextLocation
unfolding if_text get
call_arguments fs path = if_text (get fs (str "arguments")) (path ▹ key (str "arguments"))

-- One round of `collect_tool_calls`
unfoldable pub collect_tool_call : Fields → PayloadPath → List TextLocation
unfolding get if_object call_arguments if_nested_json
collect_tool_call fs path =
    if_object call_arguments (get fs (str "function")) (path ▹ key (str "function"))
    ++ if_nested_json (get fs (str "input")) (path ▹ key (str "input"))

-- `collect_tool_calls`
unfoldable pub collect_tool_calls : Value → PayloadPath → List TextLocation
unfolding if_list if_object collect_tool_call
collect_tool_calls = if_list (if_object collect_tool_call)

-- One message
unfoldable pub collect_message : Fields → PayloadPath → List TextLocation
unfolding collect_content collect_tool_calls if_text get
collect_message fs path =
    collect_content (get fs (str "content")) (path ▹ key (str "content"))
    ++ (collect_tool_calls (get fs (str "tool_calls")) (path ▹ key (str "tool_calls"))
        ++ if_text (get fs (str "tool_result")) (path ▹ key (str "tool_result")))

-- The `function` of a tool
unfoldable pub collect_function : Fields → PayloadPath → List TextLocation
unfolding if_text get collect_schema
collect_function fs path =
    if_text (get fs (str "description")) (path ▹ key (str "description"))
    ++ collect_schema (get fs (str "parameters")) (path ▹ key (str "parameters"))

-- One tool
unfoldable pub collect_tool : Fields → PayloadPath → List TextLocation
unfolding if_text get collect_schema if_object collect_function
collect_tool fs path =
    if_text (get fs (str "description")) (path ▹ key (str "description"))
    ++ (collect_schema (get fs (str "input_schema")) (path ▹ key (str "input_schema"))
        ++ if_object collect_function (get fs (str "function")) (path ▹ key (str "function")))

-- The `input` of an embeddings request
unfoldable pub collect_input : Value → PayloadPath → List TextLocation
unfolding found_at if_list if_text
collect_input (text s) path = found_at path s
collect_input v path = if_list if_text v path

-- The four parts of a payload
unfoldable pub extract_fields : Fields → PayloadPath → List TextLocation
unfolding get collect_content if_list if_object collect_message collect_tool collect_input
extract_fields fs path =
    collect_content (get fs (str "system")) (path ▹ key (str "system"))
    ++ (if_list (if_object collect_message) (get fs (str "messages")) (path ▹ key (str "messages"))
        ++ (if_list (if_object collect_tool) (get fs (str "tools")) (path ▹ key (str "tools"))
            ++ collect_input (get fs (str "input")) (path ▹ key (str "input"))))

-- `extract_text`
unfoldable pub extract_text : Value → List TextLocation
unfolding extract_fields if_object
extract_text v = if_object extract_fields v []

unfoldable mutual
  -- The value after `target[...] = s`, where `target` is reached by the path but its last segment
  pub assign : Value → PayloadPath → Str → Value
  assign v [] s = text s
  assign (object fs) (key k ∷ path) s = object (assign_field fs k path s)
  assign (array vs) (index i ∷ path) s = array (assign_item vs i path s)
  assign v path s = v

  pub assign_field : Fields → Str → PayloadPath → Str → Fields
  assign_field end k path s = end
  assign_field (field j v fs) k path s =
      let changed = assign v path s in
      let later = assign_field fs k path s in if j == k then field j changed fs else field j v later

  pub assign_item : Items → ℕ → PayloadPath → Str → Items
  assign_item nil i path s = nil
  assign_item (cons v vs) zero path s = cons (assign v path s) vs
  assign_item (cons v vs) (suc i) path s = cons v (assign_item vs i path s)

unfoldable pub assign_all : (Str → Str) → List TextLocation → Value → Value
unfolding assign
assign_all transform [] v = v
assign_all transform (l ∷ ls) v = assign_all transform ls (assign v l.path (transform l.text))

-- `replace_text`
unfoldable pub replace_text : Value → (Str → Str) → Value
unfolding extract_text assign_all
replace_text v transform = assign_all transform (extract_text v) v
