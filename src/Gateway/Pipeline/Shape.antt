-- ===== src/Gateway/Pipeline/Shape.antt =====
-- What masking a payload leaves as it is.
use frostglass.Prelude.{
  ℕ, suc, ◌≡◌, refl, ap, List, [], ◌∷◌, Str, str_eq, ok, err, Returns, Returns-ok, Returns-err,
  Returns-bind, Bool-cases, inl, inr, any, ◌⊎◌,
}
use frostglass.Prelude.Dict.{Dict}
use frostglass.Errors.{Py, PyError}
use frostglass.Json.{
  Value, null, boolean, integer, float, text, array, object, Items, nil, cons, Fields, end, field,
}
use frostglass.Masking.Models.{MaskingContext}
use frostglass.Masking.Engine.{MaskingResult}
use frostglass.Masking.Vault.{Crypto, EncryptedVault}
use frostglass.Masking.Consistency.{Generator}
use frostglass.Gateway.Extract.{PayloadPath, ◌▹◌, key, index}
use frostglass.Gateway.Pipeline.{
  Entries, GatewayRequestContext, is_block, mask_entries, text_of, and_items, and_fields, walk,
  walk_items, walk_fields, mask_located, must_be_object, first_call, mask, zip_strict, group,
}

-- A value with its texts, but not its keys, taken out
unfoldable mutual
  pub skeleton : Value → Value
  skeleton (text s) = text []
  skeleton (array vs) = array (skeleton_items vs)
  skeleton (object fs) = object (skeleton_fields fs)
  skeleton null = null
  skeleton (boolean b) = boolean b
  skeleton (integer n) = integer n
  skeleton (float n) = float n

  skeleton_items : Items → Items
  skeleton_items nil = nil
  skeleton_items (cons v vs) = cons (skeleton v) (skeleton_items vs)

  skeleton_fields : Fields → Fields
  skeleton_fields end = end
  skeleton_fields (field k v fs) = field k (skeleton v) (skeleton_fields fs)

SameShape : Value → Value → Type 0
SameShape v w = skeleton w ≡ skeleton v

text_of-SameShape :
    (s : Str) (r : Py MaskingResult × EncryptedVault) → Returns (SameShape (text s)) (text_of r).0
unfolding text_of SameShape skeleton
text_of-SameShape s (ok result, v) = Returns-ok refl
text_of-SameShape s (err e, v) = Returns-err e

must_be_object-SameShape :
    (payload v : Value) → SameShape payload v → Returns (SameShape payload) (must_be_object v)
unfolding must_be_object
must_be_object-SameShape payload (object fs) h = Returns-ok h
must_be_object-SameShape payload (text s) h = Returns-err _
must_be_object-SameShape payload (array vs) h = Returns-err _
must_be_object-SameShape payload null h = Returns-err _
must_be_object-SameShape payload (boolean b) h = Returns-err _
must_be_object-SameShape payload (integer n) h = Returns-err _
must_be_object-SameShape payload (float n) h = Returns-err _

Result-cases : {A : Type 0} (m : Py A) → ((a : A) × (m ≡ ok a)) ⊎ ((e : PyError) × (m ≡ err e))
Result-cases (ok a) = inl (a, refl)
Result-cases (err e) = inr (e, refl)

module _ (c : Crypto) (generate : Generator) (digest : List ℕ → Str) (salt : Str) (now : ℕ) where
  mask_entries-SameShape :
      (context : MaskingContext) (entries : Entries) (s : Str) (v : EncryptedVault)
      → Returns (SameShape (text s)) (mask_entries c generate digest salt now context entries s v).0
  unfolding mask_entries SameShape skeleton
  mask_entries-SameShape context [] s v = Returns-ok refl
  mask_entries-SameShape context (e ∷ entries) s v = text_of-SameShape s _

  module _ (context : MaskingContext) (by_path : Dict PayloadPath Entries) where
    items_step :
        (child : Value) (vs : Items) (rest : EncryptedVault → Py Items × EncryptedVault)
        (r : Py Value × EncryptedVault)
        → Returns (SameShape child) r.0
        → ((v : EncryptedVault) → Returns (λ ws. skeleton_items ws ≡ skeleton_items vs) (rest v).0)
        → Returns (λ ws. skeleton_items ws ≡ skeleton_items (cons child vs)) (and_items r rest).0
    unfolding SameShape skeleton and_items
    items_step child vs rest (err e, v) h k = Returns-err e
    items_step child vs rest (ok w, v) h k =
        Returns-bind {m = (rest v).0} (λ ws. ok (cons w ws)) (k v)
          (λ ws e. Returns-ok (λ i. cons (h.at w refl i) (e i)))

    fields_step :
        (name : Str) (child : Value) (fs : Fields)
        (rest : EncryptedVault → Py Fields × EncryptedVault) (r : Py Value × EncryptedVault)
        → Returns (SameShape child) r.0
        → ((v : EncryptedVault)
            → Returns (λ gs. skeleton_fields gs ≡ skeleton_fields fs) (rest v).0)
        → Returns
            (λ gs. skeleton_fields gs ≡ skeleton_fields (field name child fs))
            (and_fields name r rest).0
    unfolding SameShape skeleton and_fields
    fields_step name child fs rest (err e, v) h k = Returns-err e
    fields_step name child fs rest (ok w, v) h k =
        Returns-bind {m = (rest v).0} (λ gs. ok (field name w gs)) (k v)
          (λ gs e. Returns-ok (λ i. field name (h.at w refl i) (e i)))

    mutual
      unfolding walk SameShape skeleton

      walk-SameShape :
          (value : Value) (path : PayloadPath) (v : EncryptedVault)
          → Returns
              (SameShape value)
              (walk c generate digest salt now context by_path value path v).0
      walk-SameShape (text s) path v = mask_entries-SameShape context _ s v
      walk-SameShape (array vs) path v =
          Returns-bind (λ ws. ok (array ws)) (walk_items-same vs 0 path v)
            (λ ws e. Returns-ok (ap array e))
      walk-SameShape (object fs) path v =
          Returns-bind (λ gs. ok (object gs)) (walk_fields-same fs path v)
            (λ gs e. Returns-ok (ap object e))
      walk-SameShape null path v = Returns-ok refl
      walk-SameShape (boolean b) path v = Returns-ok refl
      walk-SameShape (integer n) path v = Returns-ok refl
      walk-SameShape (float n) path v = Returns-ok refl

      walk_items-same :
          (vs : Items) (i : ℕ) (path : PayloadPath) (v : EncryptedVault)
          → Returns
              (λ ws. skeleton_items ws ≡ skeleton_items vs)
              (walk_items c generate digest salt now context by_path vs i path v).0
      walk_items-same nil i path v = Returns-ok refl
      walk_items-same (cons child vs) i path v =
          items_step child vs
            (walk_items c generate digest salt now context by_path vs (suc i) path)
            (walk c generate digest salt now context by_path child (path ▹ index i) v)
            (walk-SameShape child (path ▹ index i) v) (walk_items-same vs (suc i) path)

      walk_fields-same :
          (fs : Fields) (path : PayloadPath) (v : EncryptedVault)
          → Returns
              (λ gs. skeleton_fields gs ≡ skeleton_fields fs)
              (walk_fields c generate digest salt now context by_path fs path v).0
      walk_fields-same end path v = Returns-ok refl
      walk_fields-same (field k child fs) path v =
          fields_step k child fs (walk_fields c generate digest salt now context by_path fs path)
            (walk c generate digest salt now context by_path child (path ▹ key k) v)
            (walk-SameShape child (path ▹ key k) v) (walk_fields-same fs path)

  mask_located-SameShape :
      (payload : Value) (rc : GatewayRequestContext) (v : EncryptedVault)
      → Returns (SameShape payload) (mask_located c generate digest salt now payload rc v).0
  unfolding mask_located first_call
  mask_located-SameShape payload rc v = elim (Result-cases (zip_strict rc.findings rc.decisions)) [
    | inl (pairs, e) ↦ rw e (
        Returns-bind must_be_object
          (walk-SameShape rc.masking_context (group [] pairs) payload [] v)
          (λ w same. must_be_object-SameShape payload w same))
    | inr (e, raised) ↦ rw raised (Returns-err e)
  ]

  -- Masking changes nothing of a payload but texts: if it returns, taking the texts out of its result
  -- leaves what taking them out of the payload leaves, with the same keys, in the same places.
  pub mask-SameShape :
      (payload result : Value) (rc : GatewayRequestContext) (v : EncryptedVault)
      → (mask c generate digest salt now payload rc v).0 ≡ ok result
      → skeleton result ≡ skeleton payload
  unfolding mask SameShape
  mask-SameShape payload result rc v = by_case.at result
    where
      by_case : Returns (SameShape payload) (mask c generate digest salt now payload rc v).0
      by_case = elim (Bool-cases rc.shadow) [
        | inl shadow ↦ rw shadow (Returns-ok refl)
        | inr live ↦ elim (Bool-cases (any is_block rc.decisions)) [
          | inl blocks ↦ rw (live, blocks) (Returns-err _)
          | inr passes ↦ rw (live, passes) (mask_located-SameShape payload rc v)
        ]
      ]
