-- ===== src/Prelude/Sort.antt =====
-- Python's `sorted`: stable. `before x y` says that `x` may stand before `y`.
use mathlib.Core.Path.{◌≡◌, refl}
use mathlib.Core.Bool.{Bool, true, false, ◌||◌}
use native.Mathlib.Omega.{arith}
use mathlib.Core.Logic.{inl, inr}
use mathlib.Core.List.{List, [], ◌∷◌, map, Perm, Memᴰ}
use mathlib.Core.List.Perm
use frostglass.Prelude.Tests.{if◌then◌else◌, Bool-cases, Eq, ◌==◌}
use frostglass.Prelude.Lists.{All, All-at, All-of_Memᴰ, Pairs, contains}

module _ {ℓ} {A : Type ℓ} (before : A → A → Bool) where
  unfoldable pub insert_sorted : A → List A → List A
  insert_sorted x [] = x ∷ []
  insert_sorted x (y ∷ ys) =
      let rest = insert_sorted x ys in if before x y then x ∷ y ∷ ys else y ∷ rest

  unfoldable pub sorted_by : List A → List A
  unfolding insert_sorted
  sorted_by [] = []
  sorted_by (x ∷ xs) = insert_sorted x (sorted_by xs)

  insert_sorted-perm : (x : A) (ys : List A) → Perm (insert_sorted x ys) (x ∷ ys)
  unfolding insert_sorted
  insert_sorted-perm x [] = Perm.refl (x ∷ [])
  insert_sorted-perm x (y ∷ ys) = elim (Bool-cases (before x y)) [
    | inl first ↦ rw first (Perm.refl (x ∷ y ∷ ys))
    | inr later ↦ rw later (Perm.trans (Perm.cons y (insert_sorted-perm x ys)) (Perm.swap x y ys))
  ]

  pub sorted_by-perm : (xs : List A) → Perm (sorted_by xs) xs
  unfolding sorted_by
  sorted_by-perm [] = Perm.refl []
  sorted_by-perm (x ∷ xs) =
      Perm.trans (insert_sorted-perm x (sorted_by xs)) (Perm.cons x (sorted_by-perm xs))

  insert_sorted-All {κ} :
      (P : A → Type κ) (x : A) (ys : List A) → P x → All P ys → All P (insert_sorted x ys)
  unfolding insert_sorted
  insert_sorted-All P x [] px h = (px, tt)
  insert_sorted-All P x (y ∷ ys) px h = elim (Bool-cases (before x y)) [
    | inl first ↦ rw first (px, h)
    | inr later ↦ rw later (h.0, insert_sorted-All P x ys px h.1)
  ]

  -- What holds of every entry holds of every entry of the sorted list.
  pub sorted_by-All {κ} : (P : A → Type κ) (xs : List A) → All P xs → All P (sorted_by xs)
  unfolding sorted_by
  sorted_by-All P [] h = h
  sorted_by-All P (x ∷ xs) h = insert_sorted-All P x (sorted_by xs) h.0 (sorted_by-All P xs h.1)

  All-insert_sorted {κ} :
      (P : A → Type κ) (x : A) (ys : List A) → All P (insert_sorted x ys) → P x × All P ys
  unfolding insert_sorted
  All-insert_sorted P x [] h = h
  All-insert_sorted P x (y ∷ ys) h = elim (Bool-cases (before x y)) [
    | inl first ↦ rw first at h
    | inr later ↦
        let h' : P y × All P (insert_sorted x ys) = rw later at h in
        let r = All-insert_sorted P x ys h'.1 in (r.0, (h'.0, r.1))
  ]

  -- And back.
  pub All-sorted_by {κ} : (P : A → Type κ) (xs : List A) → All P (sorted_by xs) → All P xs
  unfolding sorted_by
  All-sorted_by P [] h = h
  All-sorted_by P (x ∷ xs) h =
      let r = All-insert_sorted P x (sorted_by xs) h in (r.0, All-sorted_by P xs r.1)

  -- Sorting drops nothing.
  pub Memᴰ-sorted_by : {a : A} (xs : List A) → Memᴰ a xs → Memᴰ a (sorted_by xs)
  Memᴰ-sorted_by {a} xs m =
      All-at (λ x. Memᴰ x (sorted_by xs))
        (All-sorted_by (λ x. Memᴰ x (sorted_by xs)) xs
          (All-of_Memᴰ (λ x. Memᴰ x (sorted_by xs)) (sorted_by xs) (λ x k. k)))
        m

  abbrev pub IsOrdered : List A → Type 0
  IsOrdered = Pairs (λ x y. before x y ≡ true)

  module _ (total : (x y : A) → before x y ≡ false → before y x ≡ true)
      (trans : (x y z : A) → before x y ≡ true → before y z ≡ true → before x z ≡ true) where
    insert_sorted-IsOrdered : (x : A) (ys : List A) → IsOrdered ys → IsOrdered (insert_sorted x ys)
    unfolding insert_sorted
    insert_sorted-IsOrdered x [] h = (tt, tt)
    insert_sorted-IsOrdered x (y ∷ ys) h = elim (Bool-cases (before x y)) [
      | inl first ↦ rw first ((first, weaken first ys h.0), h)
      | inr later ↦ rw later (
        insert_sorted-All (λ z. before y z ≡ true) x ys (total x y later) h.0,
        insert_sorted-IsOrdered x ys h.1,
      )
    ]
      where
        weaken :
            before x y ≡ true
            → (zs : List A) → All (λ z. before y z ≡ true) zs
            → All (λ z. before x z ≡ true) zs
        weaken first [] k = tt
        weaken first (z ∷ zs) k = (trans x y z first k.0, weaken first zs k.1)

    -- A test that is total and transitive sorts.
    pub sorted_by-IsOrdered : (xs : List A) → IsOrdered (sorted_by xs)
    unfolding sorted_by
    sorted_by-IsOrdered [] = tt
    sorted_by-IsOrdered (x ∷ xs) = insert_sorted-IsOrdered x (sorted_by xs) (sorted_by-IsOrdered xs)

module _ {ℓ} {A : Type ℓ} ⦃e : Eq A⦄ (before : A → A → Bool) where
  contains-insert_sorted :
      (a x : A) (ys : List A) → contains a (insert_sorted before x ys) ≡ (a == x || contains a ys)
  unfolding insert_sorted contains
  contains-insert_sorted a x [] = refl
  contains-insert_sorted a x (y ∷ ys) = ground (arith, contains-insert_sorted a x ys)

  -- Sorting keeps the members.
  pub contains-sorted_by : (a : A) (xs : List A) → contains a (sorted_by before xs) ≡ contains a xs
  unfolding sorted_by contains
  contains-sorted_by a [] = refl
  contains-sorted_by a (x ∷ xs) =
      ground (arith, contains-insert_sorted a x (sorted_by before xs), contains-sorted_by a xs)

module _ {ℓ κ} {A : Type ℓ} {B : Type κ} (before : A → A → Bool) (before' : B → B → Bool)
    (f : A → B) (same : (x y : A) → before' (f x) (f y) ≡ before x y) where
  insert_sorted-map :
      (x : A) (ys : List A)
      → insert_sorted before' (f x) (map f ys) ≡ map f (insert_sorted before x ys)
  unfolding insert_sorted
  insert_sorted-map x [] = refl
  insert_sorted-map x (y ∷ ys) = elim (Bool-cases (before x y)) [
    | inl first ↦ rw (same x y, first)
    | inr later ↦ rw (same x y, later, insert_sorted-map x ys)
  ]

  -- A map that keeps the order commutes with sorting.
  pub sorted_by-map : (xs : List A) → sorted_by before' (map f xs) ≡ map f (sorted_by before xs)
  unfolding sorted_by
  sorted_by-map [] = refl
  sorted_by-map (x ∷ xs) = rw (sorted_by-map xs, insert_sorted-map x (sorted_by before xs))

module _ {ℓ κ} {A : Type ℓ} (before : A → A → Bool) (R : A → A → Type κ)
    (R_comm : (x y : A) → R x y → R y x) where
  insert_sorted-Pairs :
      (x : A) (ys : List A) → All (R x) ys → Pairs R ys → Pairs R (insert_sorted before x ys)
  unfolding insert_sorted
  insert_sorted-Pairs x [] h k = (tt, tt)
  insert_sorted-Pairs x (y ∷ ys) h k = elim (Bool-cases (before x y)) [
    | inl first ↦ rw first (h, k)
    | inr later ↦
        rw later (
          insert_sorted-All before (R y) x ys (R_comm x y h.0) k.0,
          insert_sorted-Pairs x ys h.1 k.1,
        )
  ]

  -- A symmetric relation that holds of every pair holds of every pair after sorting.
  pub sorted_by-Pairs : (xs : List A) → Pairs R xs → Pairs R (sorted_by before xs)
  unfolding sorted_by
  sorted_by-Pairs [] h = tt
  sorted_by-Pairs (x ∷ xs) h =
      insert_sorted-Pairs x (sorted_by before xs) (sorted_by-All before (R x) xs h.0)
        (sorted_by-Pairs xs h.1)
