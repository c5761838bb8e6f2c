-- ===== src/Audit/Store/Order.antt =====
-- The order of the rows, newest first, is total, and strict where identifiers differ.
use frostglass.Prelude.{
  ◌≡◌, ◌≢◌, refl, sym, ◌∙◌, true, false, [], ◌∷◌, Str, str_eq, str_leb, str_leb_refl, str_leb_total,
  str_leb_trans, ◌==◌, arith, Bool-cases, inl, inr,
}
use frostglass.Audit.Models.{RequestRecord}
use frostglass.Audit.Store.{str_ltb, position, is_below, newest}

str_leb_antisym : (a b : Str) → str_leb a b ≡ true → str_leb b a ≡ true → a ≡ b
unfolding str_leb
str_leb_antisym [] [] h k = refl
str_leb_antisym [] (y ∷ b) h k = cc
str_leb_antisym (x ∷ a) [] h k = cc
str_leb_antisym (x ∷ a) (y ∷ b) h k =
    let same : x ≡ y = ground arith in
    let left : str_leb a b ≡ true = ground arith in
    let right : str_leb b a ≡ true = ground arith in
    let rest : a ≡ b = str_leb_antisym a b left right in λ i. same i ∷ rest i

-- `p` is not below `c` in words of the two orders.
unfoldable AtLeast : Str × Str → Str × Str → Type 0
AtLeast p c = (str_leb c.0 p.0 ≡ true) × (p.0 ≡ c.0 → str_leb c.1 p.1 ≡ true)

below_false : (c p : Str × Str) → is_below c p ≡ false → AtLeast p c
unfolding is_below str_ltb AtLeast
below_false c p h =
    (ground arith, λ e. let s : (p.0 == c.0) ≡ true = (str_eq.beq_iff p.0 c.0).1 e in ground arith)

AtLeast-below : (c p : Str × Str) → AtLeast p c → is_below c p ≡ false
unfolding is_below str_ltb AtLeast
AtLeast-below c p h = elim (Bool-cases (p.0 == c.0)) [
  | inl e ↦
      let k : str_leb c.1 p.1 ≡ true = h.1 ((str_eq.beq_iff p.0 c.0).0 e) in ground (arith, h.0)
  | inr e ↦ ground (arith, h.0)
]

AtLeast-trans : (a b c : Str × Str) → AtLeast a b → AtLeast b c → AtLeast a c
unfolding AtLeast
AtLeast-trans a b c h k = (
  str_leb_trans c.0 b.0 a.0 k.0 h.0,
  λ e.
      let ab : str_leb a.0 b.0 ≡ true = rw e k.0 in
      let same : a.0 ≡ b.0 = str_leb_antisym a.0 b.0 ab h.0 in
      str_leb_trans c.1 b.1 a.1 (k.1 (sym same ∙ e)) (h.1 same),
)

newest-AtLeast : (x y : RequestRecord) → newest x y ≡ true → AtLeast (position x) (position y)
unfolding newest
newest-AtLeast x y h = below_false (position y) (position x) (ground arith)

AtLeast-newest : (x y : RequestRecord) → AtLeast (position x) (position y) → newest x y ≡ true
unfolding newest
AtLeast-newest x y h = rw (AtLeast-below (position y) (position x) h) refl

pub newest_trans :
    (x y z : RequestRecord) → newest x y ≡ true → newest y z ≡ true → newest x z ≡ true
newest_trans x y z h k = AtLeast-newest x z (
    AtLeast-trans (position x) (position y) (position z) (newest-AtLeast x y h)
      (newest-AtLeast y z k))

-- Two positions compare one way at most.
pub is_below-asym : (c p : Str × Str) → is_below c p ≡ true → is_below p c ≡ false
unfolding is_below str_ltb
is_below-asym c p h = elim (Bool-cases (str_leb c.0 p.0)) [
  | inl le ↦
      let e : (p.0 == c.0) ≡ true = ground arith in
      let same : p.0 ≡ c.0 = (str_eq.beq_iff p.0 c.0).0 e in
      let back : str_leb p.0 c.0 ≡ true = rw same (str_leb_refl c.0) in
      let small : str_leb c.1 p.1 ≡ false = ground arith in
      let more : str_leb p.1 c.1 ≡ true = str_leb_total c.1 p.1 small in ground arith
  | inr gt ↦
      let back : str_leb p.0 c.0 ≡ true = str_leb_total c.0 p.0 gt in
      let other : (c.0 == p.0) ≡ false = elim (Bool-cases (c.0 == p.0)) [
        | inl e ↦
            let same : c.0 ≡ p.0 = (str_eq.beq_iff c.0 p.0).0 e in
            let yes : str_leb c.0 p.0 ≡ true = rw same (str_leb_refl p.0) in cc
        | inr e ↦ e
      ] in
      ground arith
]

pub is_below_irrefl : (c : Str × Str) → is_below c c ≡ false
unfolding is_below str_ltb
is_below_irrefl c = ground (arith, str_leb_refl c.0, str_leb_refl c.1)

pub newest-total : (x y : RequestRecord) → newest x y ≡ false → newest y x ≡ true
unfolding newest
newest-total x y h = rw (is_below-asym (position y) (position x) (ground arith)) refl

same_id :
    (x y : RequestRecord)
    → AtLeast (position x) (position y)
    → AtLeast (position y) (position x)
    → x.id ≡ y.id
unfolding AtLeast position
same_id x y h k =
    let times : x.ts ≡ y.ts = str_leb_antisym x.ts y.ts k.0 h.0 in
    str_leb_antisym x.id y.id (k.1 (sym times)) (h.1 times)

-- Of two rows in order with different identifiers, the second is below the first.
pub newest-strict :
    (x y : RequestRecord)
    → newest x y ≡ true
    → x.id ≢ y.id
    → is_below (position x) (position y) ≡ true
newest-strict x y h differ = elim (Bool-cases (is_below (position x) (position y))) [
  | inl e ↦ e
  | inr e ↦ absurd (differ (ids e))
]
  where
    ids : is_below (position x) (position y) ≡ false → x.id ≡ y.id
    ids e = same_id x y (newest-AtLeast x y h) (below_false (position x) (position y) e)
