-- ===== src/Admin/Store/Access.antt =====
-- frostglass/admin/store.py: sessions, audit events, teams, users and keys.
use frostglass.Prelude.{
  suc, Bool, true, false, ◌&&◌, Option, none, some, List, [], ◌∷◌, ◌++◌, Str, str, str_eq, ◌==◌,
  filter, take, if◌then◌else◌, ok, err, not, or_list,
}
use frostglass.Prelude.Int.{ℤ}
use frostglass.Prelude.Sort.{sorted_by}
use frostglass.Errors.{Py, value_error}
use frostglass.Json.{Value}
use frostglass.Admin.Rbac.{Role, AdminIdentity}
use frostglass.Admin.Store.{
  Sources, AdminStore, SessionRow, UserRow, TeamRow, KeyRow, EventRow, fetchone, update, has_row,
  or_current, role_text, role_named, by_two,
}

-- `IssuedKey`
pub record IssuedKey : Type 0 where
  pub id : Str
  pub full_key : Str
  pub key_prefix : Str

-- The identity of a session row; a role that is none raises ValueError.
unfoldable pub identity_of : SessionRow → Option Role → Py (Option AdminIdentity)
identity_of row none = err (value_error (str "not a valid Role"))
identity_of row (some role) = ok (
    some
      (record { user_id = row.user_id; tenant_id = row.tenant_id; team = row.team; role = role }))

-- The loop of `resolve_session`
unfoldable pub find_session : Str → List SessionRow → Py (Option AdminIdentity)
unfolding identity_of role_named
find_session digest [] = ok none
find_session digest (row ∷ rows) =
    if row.token_hash == digest
    then identity_of row (role_named row.role)
    else find_session digest rows

unfoldable pub newest_event : EventRow → EventRow → Bool
unfolding by_two
newest_event x y = by_two y.ts y.id x.ts x.id

unfoldable pub team_is : Str → Str → TeamRow → Bool
team_is tenant_id team_id row = row.tenant_id == tenant_id && row.id == team_id

-- The key that `revoke_key` updates: it is there and not revoked
unfoldable pub is_active_key : Str → Str → KeyRow → Bool
is_active_key tenant_id key_id row =
    row.tenant_id == tenant_id
    && row.id == key_id
    && (elim row.revoked_at [ none ↦ true | some when ↦ false ])

module _ (s : AdminStore) where
  -- `list_events`
  unfoldable pub list_events : Str → List EventRow
  unfolding filter newest_event
  list_events tenant_id =
      sorted_by newest_event (filter (λ row. row.tenant_id == tenant_id) s.audit_events)

  -- `get_team`
  unfoldable pub get_team : Str → Str → Option TeamRow
  unfolding fetchone team_is
  get_team tenant_id team_id = fetchone (team_is tenant_id team_id) s.teams

  -- `list_teams`
  unfoldable pub list_teams : Str → List TeamRow
  unfolding filter by_two
  list_teams tenant_id =
      sorted_by (λ x y. by_two x.name x.id y.name y.id)
        (filter (λ row. row.tenant_id == tenant_id) s.teams)

  -- `list_users`
  unfoldable pub list_users : Str → List UserRow
  unfolding filter by_two
  list_users tenant_id =
      sorted_by (λ x y. by_two x.email x.id y.email y.id)
        (filter (λ row. row.tenant_id == tenant_id) s.users)

  -- `list_keys`
  unfoldable pub list_keys : Str → List KeyRow
  unfolding filter by_two
  list_keys tenant_id =
      sorted_by (λ x y. by_two y.created_at y.id x.created_at x.id)
        (filter (λ row. row.tenant_id == tenant_id) s.api_keys)

module _ (e : Sources) (s : AdminStore) where
  -- `create_session`: INSERT OR REPLACE by the hash of the token
  unfoldable pub create_session : Str → Str → Str → Str → Role → AdminStore
  unfolding filter role_text
  create_session token user_id tenant_id team role =
      let digest = e.sha256_hexdigest token in
      record s {
        admin_sessions =
            filter (λ row. not (row.token_hash == digest)) s.admin_sessions
            ++ record {
              token_hash = digest;
              user_id = user_id;
              tenant_id = tenant_id;
              team = team;
              role = role_text role;
            }
              ∷ [];
      }

  -- `resolve_session`
  unfoldable pub resolve_session : Str → Py (Option AdminIdentity)
  unfolding find_session
  resolve_session token = find_session (e.sha256_hexdigest token) s.admin_sessions

  -- The row that `record_event` inserts
  abbrev pub event_row : AdminIdentity → Str → Str → Option Value → Option Value → EventRow
  event_row identity action target before after = record {
    id = e.uuid4_hex s.drawn;
    tenant_id = identity.tenant_id;
    actor_user_id = identity.user_id;
    action = action;
    target = target;
    before_json = before;
    after_json = after;
    ts = e.now;
  }

  -- `record_event`
  unfoldable pub record_event : AdminIdentity → Str → Str → Option Value → Option Value → AdminStore
  record_event identity action target before after = record s {
    audit_events = s.audit_events ++ event_row identity action target before after ∷ [];
    drawn = suc s.drawn;
  }

  -- `upsert_team`: the identifier, and the store
  unfoldable pub upsert_team : Str → Str → Bool → ℤ → ℤ → List Str → Str × AdminStore
  upsert_team tenant_id name shadow_mode monthly_budget_cents rate_limit_rpm allowed_models = (
    e.uuid4_hex s.drawn,
    record s {
      teams =
          s.teams
          ++ record {
            id = e.uuid4_hex s.drawn;
            tenant_id = tenant_id;
            name = name;
            shadow_mode = shadow_mode;
            monthly_budget_cents = monthly_budget_cents;
            rate_limit_rpm = rate_limit_rpm;
            allowed_models = or_list allowed_models [];
            content_capture_enabled = false;
          }
            ∷ [];
      drawn = suc s.drawn;
    },
  )

  -- `create_user`
  unfoldable pub create_user : Str → Str → Str → Role → Str × AdminStore
  unfolding role_text
  create_user tenant_id email name role = (
    e.uuid4_hex s.drawn,
    record s {
      users =
          s.users
          ++ record {
            id = e.uuid4_hex s.drawn;
            tenant_id = tenant_id;
            email = email;
            name = name;
            role = role_text role;
            created_at = e.now;
            disabled_at = none;
          }
            ∷ [];
      drawn = suc s.drawn;
    },
  )

  -- `issue_key`
  unfoldable pub issue_key : Str → Str → Str → IssuedKey × AdminStore
  issue_key tenant_id team name =
      let full_key = str "fg-live-" ++ e.token_urlsafe s.drawn in
      (
        record { id = e.uuid4_hex s.drawn; full_key = full_key; key_prefix = take 12 full_key },
        record s {
          api_keys =
              s.api_keys
              ++ record {
                id = e.uuid4_hex s.drawn;
                tenant_id = tenant_id;
                team = team;
                user_id = none;
                key_prefix = take 12 full_key;
                key_hash = e.sha256_hexdigest full_key;
                name = name;
                created_at = e.now;
                revoked_at = none;
              }
                ∷ [];
          drawn = suc s.drawn;
        },
      )

  -- `revoke_key`
  unfoldable pub revoke_key : Str → Str → Bool × AdminStore
  unfolding has_row is_active_key update
  revoke_key tenant_id key_id = (
    has_row (is_active_key tenant_id key_id) s.api_keys,
    record s {
      api_keys =
          update (is_active_key tenant_id key_id) (λ row. record row { revoked_at = some e.now })
            s.api_keys;
    },
  )

-- The values that `update_team` writes
unfoldable pub team_changed :
    Option Bool → Option ℤ → Option ℤ → Option (List Str) → TeamRow → TeamRow → TeamRow
team_changed shadow_mode monthly_budget_cents rate_limit_rpm allowed_models current row =
    record row {
      shadow_mode = or_current shadow_mode current.shadow_mode;
      monthly_budget_cents = or_current monthly_budget_cents current.monthly_budget_cents;
      rate_limit_rpm = or_current rate_limit_rpm current.rate_limit_rpm;
      allowed_models = or_current allowed_models current.allowed_models;
    }

-- `update_team`, from the row that is there
unfoldable pub update_found :
    AdminStore
    → Str
    → Str
    → Option Bool
    → Option ℤ
    → Option ℤ
    → Option (List Str)
    → Option TeamRow
    → Option TeamRow × AdminStore
unfolding update team_is team_changed get_team
update_found s tenant_id team_id shadow budget rpm models none = (none, s)
update_found s tenant_id team_id shadow budget rpm models (some current) =
    let changed = record s {
      teams =
          update (team_is tenant_id team_id) (team_changed shadow budget rpm models current)
            s.teams;
    } in
    (get_team changed tenant_id team_id, changed)

-- `update_team`
unfoldable pub update_team :
    AdminStore
    → Str
    → Str
    → Option Bool
    → Option ℤ
    → Option ℤ
    → Option (List Str)
    → Option TeamRow × AdminStore
unfolding update_found get_team
update_team s tenant_id team_id shadow_mode monthly_budget_cents rate_limit_rpm allowed_models =
    update_found s tenant_id team_id shadow_mode monthly_budget_cents rate_limit_rpm allowed_models
      (get_team s tenant_id team_id)
