-- ===== src/Gateway/Extract/Replaced.antt =====
-- What `replace_text` leaves as it is.
use mathlib.Core.Option.{some-injective}
use frostglass.Prelude.{
  ℕ, zero, suc, ◌≡◌, refl, sym, ap, ◌∙◌, none, some, List, [], ◌∷◌, Str, str, str_eq, ◌==◌, All,
  Bool-cases, Option-cases, inl, inr, get_elem?,
}
use frostglass.Json.{
  Value, null, boolean, integer, float, text, array, object, Items, nil, cons, Fields, end, field,
  find, to_list,
}
use frostglass.Gateway.Extract.{
  Segment, key, index, PayloadPath, TextLocation, assign, assign_field, assign_item, assign_all,
  extract_text, extract_fields, if_object, collect_content, if_list, collect_input, replace_text,
}
use frostglass.Gateway.Extract.Located.{
  IsDict, IsLocated, step, follow, follow-none, follow-some, get-none,
}
use frostglass.Gateway.Extract.Located.Whole.{extract_text-IsLocated}

assign_field-same :
    (fs : Fields) (k : Str) (w : Value) (path : PayloadPath) (s : Str)
    → find fs k ≡ some w
    → assign w path s ≡ w
    → assign_field fs k path s ≡ fs
unfolding assign find
assign_field-same end k w path s h same = refl
assign_field-same (field j v fs) k w path s h same = elim (Bool-cases (j == k)) [
  | inl e ↦
      let here : v ≡ w = some-injective v w (rw e at h) in
      let fixed : assign v path s ≡ v = rw here same in rw e (ap (λ x. field j x fs) fixed)
  | inr e ↦ rw e (ap (field j v) (assign_field-same fs k w path s (rw e at h) same))
]

assign_item-same :
    (vs : Items) (i : ℕ) (w : Value) (path : PayloadPath) (s : Str)
    → get_elem? (to_list vs) i ≡ some w
    → assign w path s ≡ w
    → assign_item vs i path s ≡ vs
unfolding assign
assign_item-same nil i w path s h same = refl
assign_item-same (cons v vs) zero w path s h same =
    let here : v ≡ w = some-injective v w h in
    let fixed : assign v path s ≡ v = rw here same in ap (λ x. cons x vs) fixed
assign_item-same (cons v vs) (suc i) w path s h same =
    ap (cons v) (assign_item-same vs i w path s h same)

step-assign :
    (v w : Value) (r : Segment) (path : PayloadPath) (s : Str)
    → step v r ≡ some w
    → assign w path s ≡ w
    → assign v (r ∷ path) s ≡ v
unfolding assign step
step-assign (object fs) w (key k) path s h same = ap object (assign_field-same fs k w path s h same)
step-assign (array vs) w (index i) path s h same = ap array (assign_item-same vs i w path s h same)
step-assign (object fs) w (index i) path s h same = refl
step-assign (array vs) w (key k) path s h same = refl
step-assign (text t) w r path s h same = refl
step-assign null w r path s h same = refl
step-assign (boolean b) w r path s h same = refl
step-assign (integer n) w r path s h same = refl
step-assign (float n) w r path s h same = refl

assign_end : (v : Value) (s : Str) → assign v [] s ≡ text s
unfolding assign
assign_end v s = refl

-- Putting the text that stands at a path there changes nothing.
assign-same :
    (path : PayloadPath) (v : Value) (s : Str) → follow path v ≡ some (text s) → assign v path s ≡ v
unfolding follow
assign-same [] v s h = assign_end v s ∙ sym (some-injective v (text s) h)
assign-same (r ∷ path) v s h = elim (Option-cases (step v r)) [
  | inl e ↦ let no : none ≡ some (text s) = sym (follow-none r path v e) ∙ h in cc
  | inr (w, e) ↦
      step-assign v w r path s e (assign-same path w s (sym (follow-some r path v w e) ∙ h))
]

assign_all-same :
    (f : Str → Str) (ls : List TextLocation) (v : Value)
    → All (λ l. f l.text ≡ l.text) ls
    → All (IsLocated v) ls
    → assign_all f ls v ≡ v
unfolding assign_all IsLocated
assign_all-same f [] v fixed located = refl
assign_all-same f (l ∷ ls) v fixed located =
    let same : assign v l.path l.text ≡ v = assign-same l.path v l.text located.0 in
    rw (fixed.0, same) (assign_all-same f ls v fixed.1 located.1)

assigned : (f : Str → Str) (v : Value) → assign_all f [] v ≡ v
unfolding assign_all
assigned f v = refl

unread :
    (fs : Fields)
    → find fs (str "system") ≡ none
    → find fs (str "messages") ≡ none
    → find fs (str "tools") ≡ none
    → find fs (str "input") ≡ none
    → extract_text (object fs) ≡ []
unfolding extract_text extract_fields if_object collect_content if_list collect_input
unread fs system messages tools input =
    rw (get-none fs _ system, get-none fs _ messages, get-none fs _ tools, get-none fs _ input) refl

-- Replacing by a function that fixes every extracted text gives back the payload, if none of its
-- objects has a key twice.
pub replace_text-fixed :
    (payload : Value) (f : Str → Str)
    → IsDict payload
    → All (λ l. f l.text ≡ l.text) (extract_text payload)
    → replace_text payload f ≡ payload
unfolding replace_text
replace_text-fixed payload f dict fixed =
    assign_all-same f (extract_text payload) payload fixed (extract_text-IsLocated payload dict)

-- An object with none of the keys "system", "messages", "tools" and "input", as a provider's
-- response is, is left as it is whatever the function.
pub replace_text-unread :
    (fs : Fields) (f : Str → Str)
    → find fs (str "system") ≡ none
    → find fs (str "messages") ≡ none
    → find fs (str "tools") ≡ none
    → find fs (str "input") ≡ none
    → replace_text (object fs) f ≡ object fs
unfolding replace_text
replace_text-unread fs f system messages tools input =
    rw (unread fs system messages tools input) (assigned f (object fs))
