-- ===== src/Audit/Store/Paging.antt =====
-- Reading page after page gives the whole listing.
use mathlib.Core.List.Memᴰ.{head}
use frostglass.Prelude.{
  take_all, ltb→lt, append_assoc, filter-Pairs, subst, All-at, Memᴰ-append_right, length-take,
  length-drop, take-append-drop, ℕ, zero, suc, ◌-◌, ◌≡◌, ◌≢◌, ◌≤◌, ◌<◌, refl, sym, ap, ◌∙◌, true,
  false, Option, none, some, List, [], ◌∷◌, ◌++◌, Str, ok, err, ◌>>=◌, Pairs, All, filter, take,
  drop, length, arith, Bool-cases, inl, inr, ltb,
}
use frostglass.Prelude.Sort.{sorted_by, sorted_by-IsOrdered, sorted_by-Pairs}
use frostglass.Errors.{Py, runtime_error}
use frostglass.Audit.Models.{RequestRecord}
use frostglass.Audit.Store.{
  AuditStore, position, is_below, newest, is_after, listing, last?, with_cursor, page_of,
  list_requests,
}
use frostglass.Audit.Store.Order.{
  is_below-asym, is_below_irrefl, newest-strict, newest-total, newest_trans,
}

-- A client that follows the cursors, for at most `fuel` pages.
unfoldable pub read_pages :
    ℕ
    → AuditStore
    → Str
    → Option Str
    → Option Str
    → ℕ
    → Option (Str × Str)
    → Py (List RequestRecord)
read_pages zero s tenant_id team action limit cursor = err (runtime_error [])
read_pages (suc fuel) s tenant_id team action limit cursor =
    list_requests s tenant_id team action limit cursor >>= λ page. elim page.1 [
      | none ↦ ok page.0
      | some next ↦
          read_pages fuel s tenant_id team action limit (some next) >>= λ rest. ok (page.0 ++ rest)
    ]

abbrev IsDescending : List RequestRecord → Type 0
IsDescending = Pairs (λ x y. is_below (position x) (position y) ≡ true)

-- All that is below a row is what comes after it.
after-All :
    (x : RequestRecord) (back : List RequestRecord)
    → All (λ y. is_below (position x) (position y) ≡ true) back
    → filter (is_after (some (position x))) back ≡ back
unfolding filter is_after
after-All x [] h = refl
after-All x (y ∷ back) h = rw h.0 (ap (◌∷◌ y) (after-All x back h.1))

after_split :
    (front : List RequestRecord) (x : RequestRecord) (back : List RequestRecord)
    → IsDescending (front ++ x ∷ back)
    → filter (is_after (some (position x))) (front ++ x ∷ back) ≡ back
unfolding filter is_after
after_split [] x back h = rw (is_below_irrefl (position x)) (after-All x back h.0)
after_split (y ∷ front) x back h =
    let above : is_below (position y) (position x) ≡ true =
      All-at (λ z. is_below (position y) (position z) ≡ true) h.0
        (Memᴰ-append_right front (head refl)) in
    rw (is_below-asym (position y) (position x) above) (after_split front x back h.1)

last-split :
    (x : RequestRecord) (xs : List RequestRecord)
    → (front : List RequestRecord) × (l : RequestRecord) × (x ∷ xs ≡ front ++ l ∷ [])
      × (last? (x ∷ xs) ≡ some l)
unfolding last?
last-split x [] = ([], x, refl, refl)
last-split x (y ∷ xs) = let (front, l, e, h) = last-split y xs in (x ∷ front, l, ap (◌∷◌ x) e, h)

take-take : (n : ℕ) (xs : List RequestRecord) → take n (take (suc n) xs) ≡ take n xs
take-take zero xs = refl
take-take (suc n) [] = refl
take-take (suc n) (x ∷ xs) = ap (◌∷◌ x) (take-take n xs)

-- The last page: all that is left.
page_of-rest :
    (limit : ℕ) (rows : List RequestRecord)
    → length rows ≤ limit
    → page_of limit (take (suc limit) rows) ≡ ok (rows, none)
unfolding page_of
page_of-rest limit rows h =
    let small : ltb limit (length rows) ≡ false = ground arith in
    rw (take_all (suc limit) rows (omega (arith, h)), small) refl

-- A full page: the cursor is the position of its last row.
page_of-full :
    (limit : ℕ) (rows : List RequestRecord) (l : RequestRecord)
    → limit < length rows
    → last? (take limit rows) ≡ some l
    → page_of limit (take (suc limit) rows) ≡ ok (take limit rows, some (position l))
unfolding page_of with_cursor
page_of-full limit rows l h e =
    let long : length (take (suc limit) rows) ≡ suc limit =
      length-take (suc limit) rows ∙ omega (arith, h) in
    let more : ltb limit (suc limit) ≡ true = ground arith in
    rw (long, more, take-take limit rows, e) refl

full_page :
    {l : ℕ} (rows : List RequestRecord)
    → suc l < length rows
    → (f : List RequestRecord) × (x : RequestRecord) × (take (suc l) rows ≡ f ++ x ∷ [])
      × (last? (take (suc l) rows) ≡ some x)
full_page {l} [] h = absurd (omega (arith, h))
full_page {l} (x ∷ rows) h = last-split x (take l rows)

-- What the reading keeps: `rest` is what is left of the listing, after the rows that were read.
record Left (whole : List RequestRecord) (cursor : Option (Str × Str)) (rest : List RequestRecord)
    : Type 0 where
  front : List RequestRecord
  split : whole ≡ front ++ rest
  after : filter (is_after cursor) whole ≡ rest

after-start : (whole : List RequestRecord) → filter (is_after none) whole ≡ whole
unfolding filter is_after
after-start [] = refl
after-start (x ∷ xs) = ap (◌∷◌ x) (after-start xs)

after-append :
    (front f back : List RequestRecord) (l : RequestRecord)
    → front ++ ((f ++ l ∷ []) ++ back) ≡ (front ++ f) ++ l ∷ back
after-append front f back l = simp (append_assoc)

next-Left :
    (whole rest f back : List RequestRecord) (cursor : Option (Str × Str)) (l : RequestRecord)
    → IsDescending whole
    → Left whole cursor rest
    → rest ≡ (f ++ l ∷ []) ++ back
    → Left whole (some (position l)) back
next-Left whole rest f back cursor l order left e = record {
  front = left.front ++ (f ++ l ∷ []);
  split =
      left.split ∙ ap (λ r. left.front ++ r) e ∙ sym (append_assoc left.front (f ++ l ∷ []) back);
  after = rw cut (after_split (left.front ++ f) l back (subst IsDescending cut order));
}
  where
    cut : whole ≡ (left.front ++ f) ++ l ∷ back
    cut = left.split ∙ ap (λ r. left.front ++ r) e ∙ after-append left.front f back l

list_requests-page :
    (s : AuditStore) (tenant_id : Str) (team action : Option Str) (limit : ℕ)
    (cursor : Option (Str × Str)) (rest : List RequestRecord)
    → Left (listing s tenant_id team action) cursor rest
    → list_requests s tenant_id team action limit cursor ≡ page_of limit (take (suc limit) rest)
unfolding list_requests
list_requests-page s tenant_id team action limit cursor rest left = rw left.after refl

module _ (s : AuditStore) (tenant_id : Str) (team action : Option Str) (l : ℕ)
    (order : IsDescending (listing s tenant_id team action)) where
  read_from :
      (fuel : ℕ) (cursor : Option (Str × Str)) (rest : List RequestRecord)
      → Left (listing s tenant_id team action) cursor rest
      → length rest < fuel
      → read_pages fuel s tenant_id team action (suc l) cursor ≡ ok rest
  unfolding read_pages
  read_from zero cursor rest left enough = absurd (omega (arith, enough))
  read_from (suc fuel) cursor rest left enough = elim (Bool-cases (ltb (suc l) (length rest))) [
    | inl full ↦
        let more : suc l < length rest = ltb→lt (suc l) (length rest) full in
        let (f, x, e, h) = full_page rest more in
        let cut : rest ≡ (f ++ x ∷ []) ++ drop (suc l) rest =
          sym (take-append-drop (suc l) rest) ∙ ap (λ r. r ++ drop (suc l) rest) e in
        let later : read_pages fuel s tenant_id team action (suc l) (some (position x))
            ≡ ok (drop (suc l) rest) =
          read_from fuel (some (position x)) (drop (suc l) rest)
            (next-Left (listing s tenant_id team action) rest f (drop (suc l) rest) cursor x order
              left cut)
            (let n : length (drop (suc l) rest) ≡ length rest - suc l = length-drop (suc l) rest in
              ground arith) in
        rw
          (
            list_requests-page s tenant_id team action (suc l) cursor rest left,
            page_of-full (suc l) rest x more h,
            later,
          )
          (ap ok (take-append-drop (suc l) rest))
    | inr small ↦
        rw
          (
            list_requests-page s tenant_id team action (suc l) cursor rest left,
            page_of-rest (suc l) rest (ground arith),
          )
          refl
  ]

-- No two rows of a table have the same identifier, which SQLite's primary key promises.
abbrev pub DistinctIds : List RequestRecord → Type 0
DistinctIds = Pairs (λ x y. x.id ≢ y.id)

listing-IsDescending :
    (s : AuditStore) (tenant_id : Str) (team action : Option Str)
    → DistinctIds s.requests
    → IsDescending (listing s tenant_id team action)
unfolding listing
listing-IsDescending s tenant_id team action distinct =
    filter-Pairs (λ x y. is_below (position x) (position y) ≡ true) _ (sorted_by newest s.requests)
      (strict (sorted_by newest s.requests)
        (sorted_by-IsOrdered newest newest-total newest_trans s.requests)
        (sorted_by-Pairs newest (λ x y. x.id ≢ y.id) (λ x y d e. d (sym e)) s.requests distinct))
  where
    above :
        (x : RequestRecord) (ys : List RequestRecord)
        → All (λ y. newest x y ≡ true) ys
        → All (λ y. x.id ≢ y.id) ys
        → All (λ y. is_below (position x) (position y) ≡ true) ys
    above x [] h d = tt
    above x (y ∷ ys) h d = (newest-strict x y h.0 d.0, above x ys h.1 d.1)

    strict :
        (xs : List RequestRecord)
        → Pairs (λ x y. newest x y ≡ true) xs
        → DistinctIds xs
        → IsDescending xs
    strict [] h d = tt
    strict (x ∷ xs) h d = (above x xs h.0 d.0, strict xs h.1 d.1)

-- A client that follows the cursors of `list_requests` from the first page, with a limit of at least
-- one row, reads every row of its scope exactly once, in the order, and then no cursor is left: more
-- pages than rows are enough.
pub read_pages-listing :
    (s : AuditStore) (tenant_id : Str) (team action : Option Str) (l fuel : ℕ)
    → DistinctIds s.requests
    → length (listing s tenant_id team action) < fuel
    → read_pages fuel s tenant_id team action (suc l) none ≡ ok (listing s tenant_id team action)
read_pages-listing s tenant_id team action l fuel distinct enough =
    read_from s tenant_id team action l (listing-IsDescending s tenant_id team action distinct) fuel
      none (listing s tenant_id team action)
      (record { front = []; split = refl; after = after-start (listing s tenant_id team action) })
      enough
