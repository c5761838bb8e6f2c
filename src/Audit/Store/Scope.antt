-- ===== src/Audit/Store/Scope.antt =====
-- Reads stay within the tenant and the team.
use frostglass.Prelude.{
  ℕ, suc, ◌≡◌, Bool, true, ◌&&◌, Option, List, [], ◌∷◌, Str, str_eq, ◌==◌, ok, All, All-take,
  Returns, Returns-ok, Returns-err, filter, take, length, ltb, Bool-cases, Option-cases, inl, inr,
  and_left, and_right,
}
use frostglass.Audit.Models.{RequestRecord}
use frostglass.Audit.Store.{
  AuditStore, matches, is_scoped, newest, is_after, listing, last?, with_cursor, page_of,
  list_requests,
}
use frostglass.Prelude.Sort.{sorted_by}

-- The row is of the tenant, and of the team and with the action that are asked for, if any.
abbrev pub IsInScope : Str → Option Str → Option Str → RequestRecord → Type 0
IsInScope tenant_id team action r =
    (r.tenant_id ≡ tenant_id) × (matches team r.team ≡ true) × (matches action r.action ≡ true)

module _ (P : RequestRecord → Type 0) where
  All-filter_of :
      (p : RequestRecord → Bool) (xs : List RequestRecord)
      → ((x : RequestRecord) → p x ≡ true → P x)
      → All P (filter p xs)
  unfolding filter
  All-filter_of p [] f = tt
  All-filter_of p (x ∷ xs) f = elim (Bool-cases (p x)) [
    | inl e ↦ rw e (f x e, All-filter_of p xs f)
    | inr e ↦ rw e (All-filter_of p xs f)
  ]

  All-filter : (p : RequestRecord → Bool) (xs : List RequestRecord) → All P xs → All P (filter p xs)
  unfolding filter
  All-filter p [] h = tt
  All-filter p (x ∷ xs) h = elim (Bool-cases (p x)) [
    | inl e ↦ rw e (h.0, All-filter p xs h.1)
    | inr e ↦ rw e (All-filter p xs h.1)
  ]

  page_of-All :
      (limit : ℕ) (rows : List RequestRecord)
      → All P rows
      → Returns (λ page. All P page.0) (page_of limit rows)
  unfolding page_of with_cursor
  page_of-All limit rows h = elim (Bool-cases (ltb limit (length rows))) [
    | inl more ↦ elim (Option-cases (last? (take limit rows))) [
      | inl e ↦ rw (more, e) (Returns-err _)
      | inr (l, e) ↦ rw (more, e) (Returns-ok (All-take P limit rows h))
    ]
    | inr fits ↦ rw fits (Returns-ok h)
  ]

listing-IsInScope :
    (s : AuditStore) (tenant_id : Str) (team action : Option Str)
    → All (IsInScope tenant_id team action) (listing s tenant_id team action)
unfolding listing is_scoped
listing-IsInScope s tenant_id team action =
    All-filter_of (IsInScope tenant_id team action) _ (sorted_by newest s.requests) (λ r h.
      let scope : (r.tenant_id == tenant_id && matches team r.team) ≡ true = and_left _ _ h in
      (
        (str_eq.beq_iff r.tenant_id tenant_id).0 (and_left _ _ scope),
        and_right _ _ scope,
        and_right _ _ h,
      ))

-- Whatever the limit and the cursor, a page of `list_requests` holds only rows of the tenant, of the
-- team if one is given, and with the action if one is given.
pub list_requests-IsInScope :
    (s : AuditStore) (tenant_id : Str) (team action : Option Str) (limit : ℕ)
    (cursor : Option (Str × Str)) (rows : List RequestRecord) (next : Option (Str × Str))
    → list_requests s tenant_id team action limit cursor ≡ ok (rows, next)
    → All (IsInScope tenant_id team action) rows
unfolding list_requests
list_requests-IsInScope s tenant_id team action limit cursor rows next h =
    (page_of-All (IsInScope tenant_id team action) limit _ (
        All-take (IsInScope tenant_id team action) (suc limit) _ (
          All-filter (IsInScope tenant_id team action) (is_after cursor) _
            (listing-IsInScope s tenant_id team action)))).at
      (rows, next) h
