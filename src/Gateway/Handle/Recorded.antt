-- ===== src/Gateway/Handle/Recorded.antt =====
-- frostglass/gateway/routes_openai.py, `record_request`, and frostglass/gateway/pipeline.py, `detect`: a
-- request whose findings have their decisions is recorded.
use frostglass.Prelude.{
  ℕ, ◌≡◌, Returns, Returns-ok, Returns-err, Returns-bind, refl, Bool, false, Option, some, List, [],
  ◌∷◌, ◌++◌, map, any, Str, str_eq, ◌==◌, ok, err, ◌>>=◌,
}
use frostglass.Errors.{Py}
use frostglass.Json.{Value, Fields}
use frostglass.Detection.Models.{DetectionContext}
use frostglass.Masking.Models.{MaskingContext}
use frostglass.Detection.Engine.{Detector}
use frostglass.Policy.Models.{RuleSet}
use frostglass.Policy.Engine.{
  PolicyEngine, active_ruleset, evaluate, decide_finding, FindingDecision, version,
}
use frostglass.Gateway.Auth.{Principal}
use frostglass.Gateway.Pipeline
use frostglass.Gateway.Pipeline.{
  GatewayRequestContext, LocatedFinding, ProviderResult, zip_strict, locate, model_of,
}
use frostglass.Gateway.Extract.{extract_text}
use frostglass.Gateway.Routes.{call_of}
use frostglass.Gateway.Handle.{Instance, Moment, record_request}
use frostglass.Audit.Models.{RequestRecord}
use frostglass.Audit.Store
use frostglass.Audit.Store.{AuditStore}
use frostglass.Audit.Recorder.{record_call, with_trace, stored_as, request_record}

-- The identifier that `uuid4` gives next is that of no recorded request.
abbrev pub IsFresh : Instance → AuditStore → Type 0
IsFresh a s = any (λ q. q.id == a.uuid4_hex s.drawn) s.requests ≡ false

-- Each finding has its decision.
abbrev pub IsPaired : GatewayRequestContext → Type 0
IsPaired rc =
    (pairs : List (LocatedFinding × FindingDecision)) × (zip_strict rc.findings rc.decisions
      ≡ ok pairs)

zip_strict-map :
    {A : Type 0} (f : A → FindingDecision) (h : LocatedFinding → A) (xs : List LocatedFinding)
    → (pairs : List (LocatedFinding × FindingDecision)) × (zip_strict xs (map f (map h xs))
        ≡ ok pairs)
unfolding zip_strict
zip_strict-map f h [] = ([], refl)
zip_strict-map f h (x ∷ xs) =
    let (rest, e) = zip_strict-map f h xs in ((x, f (h x)) ∷ rest, rw e refl)

-- The row of a request with a status and, if it was blocked, the reason
abbrev pub IsRowOf : Str → Principal → ℕ → Option Str → RequestRecord → Type 0
IsRowOf protocol p status reason row =
    (row.status_code ≡ some status)
    × (row.blocked_reason ≡ reason)
    × (row.team ≡ p.team)
    × (row.user ≡ p.user)
    × (row.provider ≡ protocol)

module _ (a : Instance) (m : Moment) (protocol : Str) (payload : Fields) where
  -- The audit store records the request.
  abbrev pub Recorded : AuditStore → Principal → ℕ → Option Str → Py Str × AuditStore → Type 0
  Recorded s p status reason result =
      (id : Str) × (after : AuditStore) × (row : RequestRecord) × (result ≡ (ok id, after))
      × (after.requests ≡ s.requests ++ row ∷ [])
      × IsRowOf protocol p status reason row

  pub recorded :
      (s : AuditStore) (p : Principal) (rc : GatewayRequestContext) (status : ℕ)
      (reason : Option Str) (fallback : Option Bool) (payload_sent : Option Value)
      → IsFresh a s
      → IsPaired rc
      → Recorded s p status reason
          (record_request a m protocol payload s p rc status reason fallback payload_sent)
  unfolding record_request record_call with_trace stored_as Store.record_request request_record
      call_of
  recorded s p rc status reason fallback payload_sent fresh (pairs, zipped) =
      rw (zipped, fresh) (_, _, _, refl, refl, (refl, refl, refl, refl, refl))

-- What holds of the value of a block whose rest gives it whatever its first call returns
Returns-rest :
    {A B : Type 0} {P : B → Type 0} (call : Py A) (rest : A → Py B)
    → ((x : A) → Returns P (rest x))
    → Returns P (call >>= rest)
Returns-rest (ok x) rest h = h x
Returns-rest (err e) rest h = Returns-err e

pub detect-IsPaired :
    (digest : List ℕ → Str) (detectors : List Detector) (engine : PolicyEngine) (payload : Value)
    (context : DetectionContext) (masking_context : MaskingContext) (user team : Str)
    (shadow : Bool)
    → Returns IsPaired
        (Pipeline.detect digest detectors engine payload context masking_context user team shadow)
unfolding Pipeline.detect evaluate
detect-IsPaired digest detectors engine payload context masking_context user team shadow =
    let located = locate digest detectors context (extract_text payload) in
    let found = map (λ l. l.finding) located in
    let finish : List FindingDecision → Py GatewayRequestContext = λ decisions.
      version engine >>= λ active. ok (record {
        findings = located;
        masking_context = masking_context;
        decisions = decisions;
        policy_version = active;
        shadow = shadow;
      }) in
    let decide : Str → RuleSet → Py (List FindingDecision) =
      λ model rs. ok (map (decide_finding rs user team model) found) in
    Returns-rest (model_of payload) (λ model. (active_ruleset engine >>= decide model) >>= finish)
      (λ model.
        Returns-bind finish
          (Returns-rest
            {P = λ decisions.
              (pairs : List (LocatedFinding × FindingDecision)) × (zip_strict located decisions
                ≡ ok pairs)}
            (active_ruleset engine) (decide model)
            (λ rs.
              Returns-ok
                (zip_strict-map (decide_finding rs user team model) (λ l. l.finding) located)))
          (λ decisions paired.
            Returns-rest (version engine)
              (λ active. ok (record {
                findings = located;
                masking_context = masking_context;
                decisions = decisions;
                policy_version = active;
                shadow = shadow;
              }))
              (λ active. Returns-ok paired)))
