-- ===== src/Admin/Store/Sessions.antt =====
-- frostglass/admin/store.py: what `resolve_session` finds after `create_session`.
use frostglass.Prelude.{
  ◌≡◌, refl, true, false, not, Option, some, List, [], ◌∷◌, ◌++◌, Str, str, str_beq, str_eq, ◌==◌,
  filter, ok, Bool-cases, inl, inr, if◌then◌else◌,
}
use frostglass.Errors.{Py}
use frostglass.Admin.Rbac.{Role, viewer, auditor, admin, owner, AdminIdentity}
use frostglass.Admin.Store.{Sources, AdminStore, SessionRow, role_text, role_named}
use frostglass.Admin.Store.Access.{create_session, resolve_session, find_session, identity_of}

role_named-role_text : (role : Role) → role_named (role_text role) ≡ some role
unfolding role_named role_text str str_beq
role_named-role_text viewer = refl
role_named-role_text auditor = refl
role_named-role_text admin = refl
role_named-role_text owner = refl

-- The row that replaces those with the hash of its token
module _ (row : SessionRow) (identity : AdminIdentity)
    (reads : identity_of row (role_named row.role) ≡ ok (some identity)) where
  find_session-replaced :
      (digest : Str) (rows : List SessionRow)
      → find_session digest (filter (λ r. not (r.token_hash == row.token_hash)) rows ++ row ∷ [])
        ≡ (if row.token_hash == digest then ok (some identity) else find_session digest rows)
  unfolding find_session filter
  find_session-replaced digest [] = rw reads refl
  find_session-replaced digest (r ∷ rows) = elim (Bool-cases (r.token_hash == row.token_hash)) [
    | inl same ↦ rw (same, find_session-replaced digest rows) (replaced same)
    | inr other ↦ rw (other, find_session-replaced digest rows) (kept other)
  ]
    where
      found : Py (Option AdminIdentity)
      found = find_session digest rows

      replaced :
          (r.token_hash == row.token_hash) ≡ true
          → (if row.token_hash == digest then ok (some identity) else found) ≡ (
              if row.token_hash == digest
              then ok (some identity)
              else if r.token_hash == digest
              then identity_of r (role_named r.role)
              else found)
      replaced same =
          let e : r.token_hash ≡ row.token_hash = (str_eq.beq_iff _ _).0 same in
          elim (Bool-cases (row.token_hash == digest)) [
            | inl hit ↦ rw hit refl
            | inr miss ↦ let m : (r.token_hash == digest) ≡ false = rw e miss in rw (miss, m) refl
          ]

      kept :
          (r.token_hash == row.token_hash) ≡ false
          → (if r.token_hash == digest
              then identity_of r (role_named r.role)
              else if row.token_hash == digest
              then ok (some identity)
              else found)
            ≡ (if row.token_hash == digest
                then ok (some identity)
                else if r.token_hash == digest
                then identity_of r (role_named r.role)
                else found)
      kept other = elim (Bool-cases (row.token_hash == digest)) [
        | inl hit ↦
            let e : row.token_hash ≡ digest = (str_eq.beq_iff _ _).0 hit in
            let m : (r.token_hash == digest) ≡ false = rw e at other in rw (hit, m) refl
        | inr miss ↦ rw miss refl
      ]

-- After `create_session`, the token reads as the identity it was created for, and every token with
-- another digest reads as before.
pub resolve_session-create_session :
    (e : Sources) (s : AdminStore) (token other user_id tenant_id team : Str) (role : Role)
    → resolve_session e (create_session e s token user_id tenant_id team role) other ≡ (
        if e.sha256_hexdigest token == e.sha256_hexdigest other
        then ok
            (some (record { user_id = user_id; tenant_id = tenant_id; team = team; role = role }))
        else resolve_session e s other)
unfolding resolve_session create_session
resolve_session-create_session e s token other user_id tenant_id team role =
    let row : SessionRow = record {
      token_hash = e.sha256_hexdigest token;
      user_id = user_id;
      tenant_id = tenant_id;
      team = team;
      role = role_text role;
    } in
    let identity : AdminIdentity = record {
      user_id = user_id;
      tenant_id = tenant_id;
      team = team;
      role = role;
    } in
    let reads : identity_of row (role_named (role_text role)) ≡ ok (some identity) =
      rw (role_named-role_text role) refl in
    find_session-replaced row identity reads (e.sha256_hexdigest other) s.admin_sessions
