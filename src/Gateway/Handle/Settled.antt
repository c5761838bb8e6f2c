-- ===== src/Gateway/Handle/Settled.antt =====
-- frostglass/gateway/routes_openai.py: what a request leaves of the spend and of the audit.
use frostglass.Prelude.{
  ℕ, ◌+◌, ◌≡◌, ◌⊎◌, Returns, inl, inr, refl, subst, Bool, Option, none, some, List, [], ◌∷◌, ◌++◌,
  Str, str, str_eq, ok, err, ◌>>=◌, ◌>>◌, leb, length, Bool-cases,
}
use frostglass.Prelude.Dict
use frostglass.Prelude.Dict.{Dict}
use frostglass.Errors.{PyError, Py, gateway_error, blocked_content}
use frostglass.Json.{Value, Fields, object, get}
use frostglass.Masking.Vault.{EncryptedVault}
use frostglass.Gateway.Auth.{Principal, resolve}
use frostglass.Gateway.Budget.{Limits, check, admit, trim, window_of, spent, record_spend}
use frostglass.Gateway.Pipeline.{GatewayRequestContext, ProviderResult}
use frostglass.Gateway.Routes.{validate_model}
use frostglass.Gateway.Handle.{
  Instance, Moment, Gateway, Response, answered, streamed, completed, send, refused, masked,
  detected, checked, admitted, handle, is_streamed,
}
use frostglass.Audit.Models.{RequestRecord}
use frostglass.Audit.Store.{AuditStore}
use frostglass.Gateway.Handle.Recorded.{
  IsFresh, IsPaired, IsRowOf, Recorded, recorded, detect-IsPaired,
}

-- The spend after one more cent of a team
abbrev pub one_more : Dict Str ℕ → Str → Dict Str ℕ
one_more spend team = Dict.put spend team (elim (Dict.get spend team) [ none ↦ 0 | some n ↦ n ] + 1)

module _ (protocol : Str) (spend : Dict Str ℕ) (requests : List RequestRecord) where
  -- Answered: one cent is spent, and the request is recorded with status 200.
  abbrev pub Answered : Principal → Py Response × Gateway → Type 0
  Answered p result =
      (response : Response) × (after : Gateway) × (row : RequestRecord) × (result
        ≡ (ok response, after))
      × (after.limits.spend ≡ one_more spend p.team)
      × (after.audit.requests ≡ requests ++ row ∷ [])
      × IsRowOf protocol p 200 none row

  -- Blocked: nothing is spent, and the request is recorded with status 403 and the reason.
  abbrev pub Blocked : Principal → Py Response × Gateway → Type 0
  Blocked p result =
      (message : Str) × (after : Gateway) × (row : RequestRecord) × (result
        ≡ (err (gateway_error 403 message (str "policy_blocked")), after))
      × (after.limits.spend ≡ spend)
      × (after.audit.requests ≡ requests ++ row ∷ [])
      × IsRowOf protocol p 403 (some message) row

  -- Failed: nothing is spent and nothing is recorded.
  abbrev pub Failed : Py Response × Gateway → Type 0
  Failed result =
      (x : PyError) × (after : Gateway) × (result ≡ (err x, after))
      × (after.limits.spend ≡ spend)
      × (after.audit.requests ≡ requests)

  abbrev pub Settled : Principal → Py Response × Gateway → Type 0
  Settled p result = Failed result ⊎ (Blocked p result ⊎ Answered p result)

Settled-subst :
    (protocol : Str) {spend spend' : Dict Str ℕ} {requests : List RequestRecord} (p : Principal)
    {result : Py Response × Gateway}
    → spend ≡ spend'
    → Settled protocol spend requests p result
    → Settled protocol spend' requests p result
Settled-subst protocol {requests = requests} p {result = result} same =
    subst (λ spend. Settled protocol spend requests p result) same

module _ (a : Instance) (m : Moment) (protocol : Str) (payload : Fields) where
  abbrev SettledFrom : Gateway → Principal → Py Response × Gateway → Type 0
  SettledFrom g = Settled protocol g.limits.spend g.audit.requests

  answered-Settled :
      (spend : Dict Str ℕ) (p : Principal) (rc : GatewayRequestContext) (g : Gateway)
      (response : Str → Response) (l : Limits) (result : Py Str × AuditStore)
      → l.spend ≡ one_more spend p.team
      → Recorded a m protocol payload g.audit p 200 none result
      → Answered protocol spend g.audit.requests p
          (answered a m protocol payload p rc g response l result)
  unfolding answered
  answered-Settled spend p rc g response l result paid (id, s, row, h, grown, is_row) =
      rw h (response id, _, row, refl, paid, grown, is_row)

  module _ (p : Principal) (rc : GatewayRequestContext) (paired : IsPaired rc) where
    streamed-Settled :
        (g : Gateway) (sent : Value) (result : Py (List Str × Bool))
        → IsFresh a g.audit
        → SettledFrom g p (streamed a m protocol payload p rc g sent result)
    unfolding streamed record_spend spent
    streamed-Settled g sent (err e) fresh = inl (e, g, refl, refl, refl)
    streamed-Settled g sent (ok (events, fallback)) fresh = inr (
        inr (
          answered-Settled g.limits.spend p rc g _ _ _ refl (
            recorded a m protocol payload g.audit p rc 200 none (some fallback) (some sent) fresh
              paired)))

    completed-Settled :
        (g : Gateway) (sent : Value) (result : Py ProviderResult × EncryptedVault)
        → IsFresh a g.audit
        → SettledFrom g p (completed a m protocol payload p rc g sent result)
    unfolding completed record_spend spent
    completed-Settled g sent (err e, v) fresh = inl (e, _, refl, refl, refl)
    completed-Settled g sent (ok r, v) fresh = inr (
        inr (
          answered-Settled g.limits.spend p rc
            (record g { vault = v; limits = record_spend g.limits p 1 }) _ _ _ refl
            (recorded a m protocol payload g.audit p rc 200 none (some r.fallback_used) (some sent)
              fresh paired)))

    send-Settled :
        (g : Gateway) (sent : Value)
        → IsFresh a g.audit
        → SettledFrom g p (send a m protocol payload p rc g sent)
    unfolding send
    send-Settled g sent fresh = elim (Bool-cases (is_streamed (get payload (str "stream")))) [
      | inl live ↦ rw live (streamed-Settled g sent _ fresh)
      | inr whole ↦ rw whole (completed-Settled g sent _ fresh)
    ]

    refused-Settled :
        (g : Gateway) (message : Str) (result : Py Str × AuditStore)
        → Recorded a m protocol payload g.audit p 403 (some message) result
        → SettledFrom g p (refused a m protocol payload p rc g message result)
    unfolding refused
    refused-Settled g message result (id, s, row, h, grown, is_row) =
        rw h (inr (inl (message, _, row, refl, refl, grown, is_row)))

    masked-Settled :
        (g : Gateway) (result : Py Value × EncryptedVault)
        → IsFresh a g.audit
        → SettledFrom g p (masked a m protocol payload p rc g result)
    unfolding masked
    masked-Settled g (ok value, v) fresh = send-Settled (record g { vault = v }) value fresh
    masked-Settled g (err (blocked_content message), v) fresh =
        refused-Settled (record g { vault = v }) message _
          (recorded a m protocol payload g.audit p rc 403 (some message) none none fresh paired)
    masked-Settled g (err e, v) fresh = inl (e, _, refl, refl, refl)

  -- What `detect` returns pairs its findings with decisions.
  IsPairedResult : Py GatewayRequestContext → Type 0
  IsPairedResult result = Returns IsPaired result

  detected-Settled :
      (g : Gateway) (p : Principal) (result : Py GatewayRequestContext)
      → Returns IsPaired result
      → IsFresh a g.audit
      → SettledFrom g p (detected a m protocol payload g p result)
  unfolding detected
  detected-Settled g p (err e) paired fresh = inl (e, g, refl, refl, refl)
  detected-Settled g p (ok rc) paired fresh = masked-Settled p rc (paired.at rc refl) g _ fresh

module _ (a : Instance) (m : Moment) (protocol : Str) (payload : Fields) where
  check-spend : (l : Limits) (p : Principal) (now : ℕ) → (check l p now).1.spend ≡ l.spend
  unfolding check admit
  check-spend l p now = elim (Bool-cases (leb p.monthly_budget_cents (spent l p.team))) [
    | inl over ↦ rw over refl
    | inr within ↦
        elim (Bool-cases (leb p.rate_limit_rpm (length (trim now (window_of l p.team))))) [
          | inl full ↦ rw (within, full) refl
          | inr free ↦ rw (within, free) refl
        ]
  ]

  checked-Settled :
      (g : Gateway) (request_id : Str) (p : Principal) (result : Py (Unit {0}) × Limits)
      → result.1.spend ≡ g.limits.spend
      → IsFresh a g.audit
      → Settled protocol g.limits.spend g.audit.requests p
          (checked a m protocol payload g request_id p result)
  unfolding checked
  checked-Settled g request_id p (err e, l) same fresh = inl (e, _, refl, same, refl)
  checked-Settled g request_id p (ok _, l) same fresh = Settled-subst protocol p same (
      detected-Settled a m protocol payload (record g { limits = l }) p _
        (detect-IsPaired a.sha256_hexdigest a.detectors a.engine (object payload) _ _ _ _ _) fresh)

  -- What a call comes to, by the key and the model
  abbrev pub Accounted : Gateway → Option Str → Py Response × Gateway → Type 0
  Accounted g authorization result =
      Failed protocol g.limits.spend g.audit.requests result
      ⊎ ((p : Principal) × (resolve a.key_digest a.keys authorization ≡ ok p)
          × (validate_model payload p.allowed_models ≡ ok tt)
          × Settled protocol g.limits.spend g.audit.requests p result)

  module _ (g : Gateway) (authorization : Option Str) (request_id : Str)
      (fresh : IsFresh a g.audit) where
    model-Accounted :
        (p : Principal) (model : Py (Unit {0}))
        → resolve a.key_digest a.keys authorization ≡ ok p
        → validate_model payload p.allowed_models ≡ model
        → Accounted g authorization (admitted a m protocol payload g request_id (model >> ok p))
    unfolding admitted
    model-Accounted p (err e) key may = inl (e, g, refl, refl, refl)
    model-Accounted p (ok _) key may =
        inr (p, key, may, checked-Settled g request_id p _ (check-spend g.limits p m.now) fresh)

    key-Accounted :
        (key : Py Principal)
        → resolve a.key_digest a.keys authorization ≡ key
        → Accounted g authorization (
            admitted a m protocol payload g request_id
              (key >>= λ p. validate_model payload p.allowed_models >> ok p))
    unfolding admitted
    key-Accounted (err e) h = inl (e, g, refl, refl, refl)
    key-Accounted (ok p) h = model-Accounted p _ h refl

  -- A request fails, and then nothing is spent and nothing is recorded; or it is that of a principal
  -- whose key is registered and who may use the model. Then it fails as before, or it is blocked, with
  -- nothing spent and one record of status 403 with the reason, or it is answered, with one cent spent by
  -- the team and one record of status 200. The identifier that is drawn must be new.
  pub handle-settled :
      (g : Gateway) (authorization request_id : Option Str)
      → IsFresh a g.audit
      → Accounted g authorization (handle a m protocol payload g authorization request_id)
  unfolding handle
  handle-settled g authorization request_id fresh = key-Accounted g authorization _ fresh _ refl
