-- ===== src/Gateway/Extract/Located.antt =====
-- The path of every extracted text leads to that text.
pub mod Reached
pub mod Whole
use mathlib.Core.Option.{some-injective}
use frostglass.Prelude.{
  ℕ, suc, zero, ◌+◌, ◌≡◌, refl, sym, ap, ◌∙◌, Bool, true, false, Option, none, some, List, [], ◌∷◌,
  ◌++◌, Str, str, str_eq, ◌==◌, arith, All, All-append, drop, get_elem?, Bool-cases, Option-cases,
  inl, inr, contains, if◌then◌else◌, drop-drop, ==_refl,
}
use frostglass.Json.{
  Value, null, boolean, integer, float, text, array, object, Items, nil, cons, Fields, end, field,
  find, get, to_list,
}
use frostglass.Gateway.Extract.{
  Segment, key, index, PayloadPath, ◌▹◌, TextLocation, found_at, schema_text_keys, schema_list_keys,
  if_text, collect_json, collect_json_items, collect_json_fields, schema_entry, collect_schema,
  collect_schema_items, collect_schema_fields, if_nested_json, collect_content, collect_blocks,
  collect_block, collect_block_content, call_arguments, collect_tool_call, each, if_list, if_object,
  collect_tool_calls, extract_fields, collect_message, collect_function, collect_tool,
  collect_input, extract_text,
}

-- `v[segment]`
unfoldable pub step : Value → Segment → Option Value
unfolding find
step (object fs) (key k) = find fs k
step (array vs) (index i) = get_elem? (to_list vs) i
step _ _ = none

-- `v[path[0]][path[1]]...`
unfoldable pub follow : PayloadPath → Value → Option Value
unfolding step
follow [] v = some v
follow (s ∷ path) v = elim (step v s) [ none ↦ none | some w ↦ follow path w ]

-- Each field of `fs` is what the object gives for its key, as in a Python `dict`.
abbrev pub Held : Fields → Fields → Type 0
Held end whole = Unit
Held (field k v fs) whole = (find whole k ≡ some v) × Held fs whole

-- No object within a value has a key twice.
unfoldable mutual
  pub IsDict : Value → Type 0
  IsDict (array vs) = AreDicts vs
  IsDict (object fs) = Held fs fs × HoldDicts fs
  IsDict _ = Unit

  pub AreDicts : Items → Type 0
  AreDicts nil = Unit
  AreDicts (cons v vs) = IsDict v × AreDicts vs

  pub HoldDicts : Fields → Type 0
  HoldDicts end = Unit
  HoldDicts (field k v fs) = IsDict v × HoldDicts fs

unfoldable pub IsLocated : Value → TextLocation → Type 0
unfolding follow
IsLocated root l = follow l.path root ≡ some (text l.text)

follow_next :
    (s : Segment) (path : PayloadPath) (v : Value)
    → follow (s ∷ path) v ≡ elim (step v s) [ none ↦ none | some w ↦ follow path w ]
unfolding follow
follow_next s path v = refl

pub follow-some :
    (s : Segment) (path : PayloadPath) (v w : Value)
    → step v s ≡ some w
    → follow (s ∷ path) v ≡ follow path w
follow-some s path v w e =
    follow_next s path v ∙ ap (λ o. elim o [ none ↦ none | some w ↦ follow path w ]) e

pub follow-none :
    (s : Segment) (path : PayloadPath) (v : Value) → step v s ≡ none → follow (s ∷ path) v ≡ none
follow-none s path v e =
    follow_next s path v ∙ ap (λ o. elim o [ none ↦ none | some w ↦ follow path w ]) e

follow-snoc :
    (path : PayloadPath) (v w x : Value) (s : Segment)
    → follow path v ≡ some w
    → step w s ≡ some x
    → follow (path ▹ s) v ≡ some x
unfolding follow
follow-snoc [] v w x s h k = ground arith
follow-snoc (r ∷ path) v w x s h k = elim (Option-cases (step v r)) [
  | inl e ↦ let no : none ≡ some w = sym (follow-none r path v e) ∙ h in cc
  | inr (u, e) ↦
      follow-some r (path ▹ s) v u e
      ∙ follow-snoc path u w x s (sym (follow-some r path v u e) ∙ h) k
]

pub drop_head :
    (i : ℕ) (xs : List Value) (v : Value) (vs : List Value)
    → drop i xs ≡ v ∷ vs
    → (get_elem? xs i ≡ some v) × (drop (suc i) xs ≡ vs)
drop_head zero [] v vs h = cc
drop_head (suc i) [] v vs h = cc
drop_head zero (x ∷ xs) v vs h = (cc, cc)
drop_head (suc i) (x ∷ xs) v vs h = drop_head i xs v vs h

pub get-none : (fs : Fields) (k : Str) → find fs k ≡ none → get fs k ≡ null
unfolding get
get-none fs k e = ap (λ o. elim o [ none ↦ null | some v ↦ v ]) e

get-some : (fs : Fields) (k : Str) (v : Value) → find fs k ≡ some v → get fs k ≡ v
unfolding get
get-some fs k v e = ap (λ o. elim o [ none ↦ null | some v ↦ v ]) e

find-IsDict : (fs : Fields) (k : Str) (v : Value) → HoldDicts fs → find fs k ≡ some v → IsDict v
unfolding find IsDict
find-IsDict end k v d h = cc
find-IsDict (field j w fs) k v d h = elim (Bool-cases (j == k)) [
  | inl e ↦ let same : some w ≡ some v = rw e at h in rw (← some-injective w v same) d.0
  | inr e ↦ find-IsDict fs k v d.1 (rw e at h)
]

module _ (root : Value) where
  -- All of the locations lead to their texts, whenever `path` leads to `v`.
  abbrev pub Ok : Value → PayloadPath → List TextLocation → Type 0
  Ok v path ls = follow path root ≡ some v → All (IsLocated root) ls

  pub into_field :
      (fs : Fields) (k : Str) (v : Value) (path : PayloadPath)
      → find fs k ≡ some v
      → follow path root ≡ some (object fs)
      → follow (path ▹ key k) root ≡ some v
  unfolding step
  into_field fs k v path h at = follow-snoc path root (object fs) v (key k) at h

  pub into_item :
      (whole vs : Items) (v : Value) (i : ℕ) (path : PayloadPath)
      → drop i (to_list whole) ≡ v ∷ to_list vs
      → follow path root ≡ some (array whole)
      → follow (path ▹ index i) root ≡ some v
  unfolding step
  into_item whole vs v i path h at =
      follow-snoc path root (array whole) v (index i) at
        (drop_head i (to_list whole) v (to_list vs) h).0

  pub found_at-Ok : (s : Str) (path : PayloadPath) → Ok (text s) path (found_at path s)
  unfolding found_at IsLocated
  found_at-Ok s path at = (at, tt)

  pub if_text-Ok : (v : Value) (path : PayloadPath) → Ok v path (if_text v path)
  unfolding if_text
  if_text-Ok (text s) path at = found_at-Ok s path at
  if_text-Ok null path at = tt
  if_text-Ok (boolean b) path at = tt
  if_text-Ok (integer n) path at = tt
  if_text-Ok (float n) path at = tt
  if_text-Ok (array vs) path at = tt
  if_text-Ok (object fs) path at = tt

  -- The loops over a list share this.
  pub items-Ok :
      (collect : Value → PayloadPath → List TextLocation)
      → ((v : Value) (path : PayloadPath) → IsDict v → Ok v path (collect v path))
      → (whole vs : Items) (i : ℕ) (path : PayloadPath) → AreDicts vs
      → drop i (to_list whole) ≡ to_list vs
      → Ok (array whole) path (each collect vs i path)
  unfolding each IsDict
  items-Ok collect each_ok whole nil i path d h at = tt
  items-Ok collect each_ok whole (cons v vs) i path d h at =
      All-append (IsLocated root) _ _
        (each_ok v (path ▹ index i) d.0 (into_item whole vs v i path h at))
        (items-Ok collect each_ok whole vs (suc i) path d.1
          (drop_head i (to_list whole) v (to_list vs) h).1 at)

  -- What `fs.get(k)` gives: a value that the path leads to, or None.
  pub get-Ok :
      (fs : Fields) (k : Str) (path : PayloadPath)
      (collect : Value → PayloadPath → List TextLocation)
      → ((v : Value) (path : PayloadPath) → IsDict v → Ok v path (collect v path))
      → HoldDicts fs
      → ((path : PayloadPath) → collect null path ≡ [])
      → Ok (object fs) path (collect (get fs k) (path ▹ key k))
  get-Ok fs k path collect ok d empty at = elim (Option-cases (find fs k)) [
    | inl e ↦ rw (get-none fs k e, empty) tt
    | inr (v, e) ↦
        rw (get-some fs k v e)
          (ok v (path ▹ key k) (find-IsDict fs k v d e) (into_field fs k v path e at))
  ]
