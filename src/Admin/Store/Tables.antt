-- ===== src/Admin/Store/Tables.antt =====
-- What a statement of frostglass/admin/store.py leaves of a table.
use frostglass.Prelude.{
  suc, ◌≡◌, refl, ap, Bool, true, false, Option, none, some, List, [], ◌∷◌, ◌++◌, filter, length,
  leb, Bool-cases, inl, inr, arith,
}
use frostglass.Admin.Store.{fetchone, update, has_row}

module _ {ℓ} {A : Type ℓ} (p : A → Bool) (f : A → A) where
  -- An update that no row meets changes nothing.
  pub update_none : (rows : List A) → has_row p rows ≡ false → update p f rows ≡ rows
  unfolding update has_row filter
  update_none [] h = refl
  update_none (x ∷ xs) h = elim (Bool-cases (p x)) [
    | inl met ↦ let one : leb 1 (suc (length (filter p xs))) ≡ false = rw met at h in ground arith
    | inr missed ↦ rw missed (ap (◌∷◌ x) (update_none xs (rw missed at h)))
  ]

  -- The row that a look-up finds after the update is the one that it found before, changed.
  pub fetchone-update :
      ((x : A) → p (f x) ≡ p x)
      → (rows : List A) (row : A) → fetchone p rows ≡ some row
      → fetchone p (update p f rows) ≡ some (f row)
  unfolding fetchone update filter
  fetchone-update keeps [] row h = cc
  fetchone-update keeps (x ∷ xs) row h = elim (Bool-cases (p x)) [
    | inl met ↦
        let e : Option.some x ≡ some row = rw met at h in rw (met, keeps x, met) (ap changed e)
    | inr missed ↦ rw (missed, missed) (fetchone-update keeps xs row (rw missed at h))
  ]
    where
      changed : Option A → Option A
      changed none = none
      changed (some row) = some (f row)

  -- An update of rows that a condition does not select changes nothing of those that it selects.
  pub filter-update :
      (q : A → Bool)
      → ((x : A) → p x ≡ true → q x ≡ false)
      → ((x : A) → q (f x) ≡ q x)
      → (rows : List A) → filter q (update p f rows) ≡ filter q rows
  unfolding filter update
  filter-update q apart keeps [] = refl
  filter-update q apart keeps (x ∷ xs) = elim (Bool-cases (p x)) [
    | inl met ↦ rw (met, keeps x, apart x met) (filter-update q apart keeps xs)
    | inr missed ↦ rw (missed, filter-update q apart keeps xs) refl
  ]

module _ {ℓ} {A : Type ℓ} (q : A → Bool) where
  pub filter-snoc :
      (rows : List A) (x : A) → q x ≡ false → filter q (rows ++ x ∷ []) ≡ filter q rows
  unfolding filter
  filter-snoc [] x h = rw h refl
  filter-snoc (y ∷ ys) x h = rw (filter-snoc ys x h) refl

  pub filter-filter :
      (keep : A → Bool)
      → ((x : A) → q x ≡ true → keep x ≡ true)
      → (rows : List A) → filter q (filter keep rows) ≡ filter q rows
  unfolding filter
  filter-filter keep keeps [] = refl
  filter-filter keep keeps (x ∷ xs) = elim (Bool-cases (q x)) [
    | inl met ↦ rw (met, keeps x met, met, filter-filter keep keeps xs) refl
    | inr missed ↦ elim (Bool-cases (keep x)) [
      | inl kept ↦ rw (kept, missed) (filter-filter keep keeps xs)
      | inr dropped ↦ rw (dropped, missed) (filter-filter keep keeps xs)
    ]
  ]
