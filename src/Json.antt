-- ===== src/Json.antt =====
-- The values that `json.loads`, `yaml.safe_load` and `request.json()` give. A float is counted in
-- steps of 1/10000. A dict keeps its keys in order; a look-up finds the first entry of a key.
use frostglass.Prelude.{
  ◌≡◌, refl, ap, Bool, Option, none, some, List, [], ◌∷◌, Str, str_eq, ◌==◌, if◌then◌else◌,
}
use frostglass.Prelude.Int.{ℤ}

mutual
  pub data Value : Type 0 where
    null : Value
    boolean : Bool → Value
    integer : ℤ → Value
    float : ℤ → Value
    text : Str → Value
    array : Items → Value
    object : Fields → Value

  pub data Items : Type 0 where
    nil : Items
    cons : Value → Items → Items

  pub data Fields : Type 0 where
    end : Fields
    field : Str → Value → Fields → Fields

-- `d.get(key)`, with a missing key told apart from None
unfoldable pub find : Fields → Str → Option Value
find end k = none
find (field j v fs) k = if j == k then some v else find fs k

-- `d.get(key)`
unfoldable pub get : Fields → Str → Value
unfolding find
get fs k = elim (find fs k) [ none ↦ null | some v ↦ v ]

-- `d.get(key, default)`
unfoldable pub get_default : Fields → Str → Value → Value
unfolding find
get_default fs k d = elim (find fs k) [ none ↦ d | some v ↦ v ]

abbrev pub of_list : List Value → Items
of_list [] = nil
of_list (v ∷ vs) = cons v (of_list vs)

abbrev pub to_list : Items → List Value
to_list nil = []
to_list (cons v vs) = v ∷ to_list vs

pub to_list-of_list : (vs : List Value) → to_list (of_list vs) ≡ vs
to_list-of_list [] = refl
to_list-of_list (v ∷ vs) = ap (◌∷◌ v) (to_list-of_list vs)
