-- ===== src/Gateway/Pipeline.antt =====
-- frostglass/gateway/pipeline.py: detection, policy, masking and the fall back between providers. The
-- calls that change the vault give it with their result. A provider is what it answers, or what it raises;
-- `timeout_error` stands for `TimeoutError` and `OSError`.
pub mod Fallback
pub mod Shape
use frostglass.Prelude.{
  ℕ, zero, suc, ◌+◌, Bool, true, false, ◌&&◌, not, Option, none, some, List, [], ◌∷◌, ◌++◌, map,
  Str, str, str_eq, str_beq, ◌==◌, ok, err, ◌>>=◌, Eq, any, leb, ltb, nat_eq, pair_eq,
  if◌then◌else◌,
}
use frostglass.Prelude.Dict
use frostglass.Prelude.Dict.{Dict}
use frostglass.Prelude.Sort.{sorted_by}
use frostglass.Prelude.Strings.{starts_with}
use frostglass.Errors.{
  Py, PyError, value_error, type_error, key_error, timeout_error, blocked_content,
}
use frostglass.Json.{Value, text, array, object, Items, nil, cons, Fields, end, field, find}
use frostglass.Detection.Models.{Finding, DetectionContext}
use frostglass.Detection
use frostglass.Detection.Engine.{Detector}
use frostglass.Policy.Models.{Action, allow, block}
use frostglass.Policy.Engine.{FindingDecision, PolicyEngine, evaluate, version}
use frostglass.Masking.Models.{MaskingMode, MaskingContext, mode_of, scope_id}
use frostglass.Masking.Vault.{Crypto, EncryptedVault, reverse_map}
use frostglass.Masking.Consistency.{Generator}
use frostglass.Masking
use frostglass.Masking.Engine.{MaskingResult}
use frostglass.Masking.Restore.{restore_text}
use frostglass.Gateway.Extract.{
  Segment, key, index, PayloadPath, ◌▹◌, TextLocation, segment_eq, path_eq, extract_text,
  replace_text,
}

pub record ProviderResult : Type 0 where
  pub payload : Value
  pub fallback_used : Bool

pub record LocatedFinding : Type 0 where
  pub location : TextLocation
  pub finding : Finding

pub record GatewayRequestContext : Type 0 where
  pub findings : List LocatedFinding
  pub masking_context : MaskingContext
  pub decisions : List FindingDecision
  pub policy_version : ℕ
  pub shadow : Bool

unfoldable pub is_block : FindingDecision → Bool
is_block d = elim d.decision.action [ Action.block ↦ true | _ ↦ false ]

unfoldable pub is_not_allow : FindingDecision → Bool
is_not_allow d = elim d.decision.action [ Action.allow ↦ false | _ ↦ true ]

-- the property `action`
unfoldable pub action : GatewayRequestContext → Str
unfolding is_block is_not_allow any
action c =
    if c.shadow
    then str "shadow"
    else if any is_block c.decisions
    then str "blocked"
    else if any is_not_allow c.decisions
    then str "masked"
    else str "allowed"

-- A provider's answers by protocol and payload; a stream is its first event and the events after it.
pub record Provider : Type 0 where
  pub complete : Str → Value → Py Value
  pub stream : Str → Value → Py (Str × List Str)

pub record Providers : Type 0 where
  pub primary : Provider
  pub fallback : Provider
  pub failing_primary : Provider

-- `_chain`
unfoldable pub chain : Providers → Str → List Provider
chain r model =
    if starts_with (str "fallback/") model
    then r.failing_primary ∷ r.fallback ∷ []
    else r.primary ∷ r.fallback ∷ []

-- `payload["model"]`; the routes let only a text through
unfoldable pub model_of : Value → Py Str
unfolding find
model_of (object fs) = elim (find fs (str "model")) [
  | none ↦ err key_error
  | some (text model) ↦ ok model
  | some _ ↦ err (type_error (str "model"))
]
model_of _ = err (type_error (str "payload"))

-- `zip(findings, decisions, strict=True)`
unfoldable pub zip_strict : {A B : Type 0} → List A → List B → Py (List (A × B))
zip_strict [] [] = ok []
zip_strict (x ∷ xs) (y ∷ ys) = do rest ← zip_strict xs ys; ok ((x, y) ∷ rest)
zip_strict _ _ = err (value_error (str "zip"))

abbrev pub Entries : Type 0
Entries = List (Finding × MaskingMode)

-- `by_path.get(path, [])`
unfoldable pub entries_at : Dict PayloadPath Entries → PayloadPath → Entries
entries_at by_path path = elim (Dict.get by_path path) [ none ↦ [] | some entries ↦ entries ]

-- `by_path.setdefault(...).append(...)` for each located finding with its decision
unfoldable pub group :
    Dict PayloadPath Entries → List (LocatedFinding × FindingDecision) → Dict PayloadPath Entries
unfolding entries_at
group by_path [] = by_path
group by_path ((located, evaluated) ∷ rest) =
    let path = located.location.path in
    group
      (Dict.put by_path path
        (entries_at by_path path ++ (located.finding, mode_of evaluated.decision.action) ∷ []))
      rest

unfoldable pub starts_first : Finding × MaskingMode → Finding × MaskingMode → Bool
starts_first a b = leb a.0.start b.0.start

-- `{(item[0].start, item[0].end): item[1] for item in entries}`
unfoldable pub modes_of : Dict (ℕ × ℕ) MaskingMode → Entries → Dict (ℕ × ℕ) MaskingMode
modes_of modes [] = modes
modes_of modes ((f, mode) ∷ entries) = modes_of (Dict.put modes (f.start, f.end) mode) entries

unfoldable pub text_of : Py MaskingResult × EncryptedVault → Py Value × EncryptedVault
text_of (ok result, v) = (ok (text result.text), v)
text_of (err e, v) = (err e, v)

-- A child's value, and what the walk of the later ones gives from the vault after it
unfoldable pub and_items :
    Py Value × EncryptedVault
    → (EncryptedVault → Py Items × EncryptedVault)
    → Py Items × EncryptedVault
and_items (err e, v) rest = (err e, v)
and_items (ok w, v) rest = let (r, v') = rest v in (r >>= λ ws. ok (cons w ws), v')

unfoldable pub and_fields :
    Str
    → Py Value × EncryptedVault
    → (EncryptedVault → Py Fields × EncryptedVault)
    → Py Fields × EncryptedVault
and_fields k (err e, v) rest = (err e, v)
and_fields k (ok w, v) rest = let (r, v') = rest v in (r >>= λ gs. ok (field k w gs), v')

-- A call that raises before it touches the vault
unfoldable pub first_call :
    {A B : Type 0} → Py A → EncryptedVault → (A → Py B × EncryptedVault) → Py B × EncryptedVault
first_call (ok a) v f = f a
first_call (err e) v f = (err e, v)

-- `if not isinstance(result, dict): raise ...`
unfoldable pub must_be_object : Value → Py Value
must_be_object (object fs) = ok (object fs)
must_be_object _ = err (type_error (str "gateway payload must remain an object"))

-- `try: ... except (TimeoutError, OSError): continue`, for what the call gives
unfoldable pub attempt : {A B : Type 0} → Py A → B → (PyError → B) → (A → B) → B
attempt (ok a) later raised answered = answered a
attempt (err timeout_error) later raised answered = later
attempt (err e) later raised answered = raised e

module _ (c : Crypto) (generate : Generator) (sha256_hexdigest : List ℕ → Str) (tenant_salt : Str)
    (now : ℕ) where
  -- What `walk` makes of a text with entries
  unfoldable pub mask_entries :
      MaskingContext → Entries → Str → EncryptedVault → Py Value × EncryptedVault
  unfolding starts_first modes_of text_of
  mask_entries context [] s v = (ok (text s), v)
  mask_entries context (e ∷ entries) s v = text_of (
      Masking.Engine.mask c generate sha256_hexdigest tenant_salt now v s
        (map (λ item. item.0) (sorted_by starts_first (e ∷ entries))) context
        (modes_of [] (e ∷ entries)))

  module _ (context : MaskingContext) (by_path : Dict PayloadPath Entries) where
    -- `walk`
    unfoldable mutual
      unfolding mask_entries entries_at and_items and_fields

      pub walk : Value → PayloadPath → EncryptedVault → Py Value × EncryptedVault
      walk (text s) path v = mask_entries context (entries_at by_path path) s v
      walk (array vs) path v =
          let (r, v') = walk_items vs 0 path v in (r >>= λ ws. ok (array ws), v')
      walk (object fs) path v =
          let (r, v') = walk_fields fs path v in (r >>= λ gs. ok (object gs), v')
      walk value path v = (ok value, v)

      pub walk_items : Items → ℕ → PayloadPath → EncryptedVault → Py Items × EncryptedVault
      walk_items nil i path v = (ok nil, v)
      walk_items (cons child vs) i path v =
          and_items (walk child (path ▹ index i) v) (walk_items vs (suc i) path)

      pub walk_fields : Fields → PayloadPath → EncryptedVault → Py Fields × EncryptedVault
      walk_fields end path v = (ok end, v)
      walk_fields (field k child fs) path v =
          and_fields k (walk child (path ▹ key k) v) (walk_fields fs path)

  -- `mask` once no decision blocks
  unfoldable pub mask_located :
      Value → GatewayRequestContext → EncryptedVault → Py Value × EncryptedVault
  unfolding first_call zip_strict group walk must_be_object
  mask_located payload rc v = first_call (zip_strict rc.findings rc.decisions) v (λ pairs.
      let (r, v') = walk rc.masking_context (group [] pairs) payload [] v in
      (r >>= must_be_object, v'))

  -- `ProviderRegistry.mask`
  unfoldable pub mask : Value → GatewayRequestContext → EncryptedVault → Py Value × EncryptedVault
  unfolding any is_block mask_located
  mask payload rc v =
      if rc.shadow
      then (ok payload, v)
      else if any is_block rc.decisions
      then (err (blocked_content (str "blocked by policy")), v)
      else mask_located payload rc v

-- The findings of one location
unfoldable pub located_at :
    (List ℕ → Str) → List Detector → DetectionContext → TextLocation → List LocatedFinding
located_at digest detectors context location =
    map (λ f. record { location = location; finding = f })
      (Detection.Engine.detect digest detectors location.text context)

unfoldable pub locate :
    (List ℕ → Str) → List Detector → DetectionContext → List TextLocation → List LocatedFinding
unfolding located_at
locate digest detectors context [] = []
locate digest detectors context (l ∷ ls) =
    located_at digest detectors context l ++ locate digest detectors context ls

-- `ProviderRegistry.detect`
unfoldable pub detect :
    (List ℕ → Str)
    → List Detector
    → PolicyEngine
    → Value
    → DetectionContext
    → MaskingContext
    → Str
    → Str
    → Bool
    → Py GatewayRequestContext
unfolding locate extract_text model_of
detect digest detectors engine payload context masking_context user team shadow =
    let located = locate digest detectors context (extract_text payload) in
    do
      model ← model_of payload
      decisions ← evaluate engine (map (λ l. l.finding) located) user team model
      active ← version engine
      ok (record {
        findings = located;
        masking_context = masking_context;
        decisions = decisions;
        policy_version = active;
        shadow = shadow;
      })

module _ (c : Crypto) (now : ℕ) where
  -- `restore`
  unfoldable pub restore :
      Value → GatewayRequestContext → EncryptedVault → Py Value × EncryptedVault
  unfolding scope_id
  restore payload rc v =
      let (found, v') = reverse_map c now v (scope_id rc.masking_context) in
      (found >>= λ m. ok (replace_text payload (λ s. restore_text s m)), v')

  -- The loop of `complete`, from a provider's index on
  unfoldable pub complete_from :
      Str
      → Value
      → GatewayRequestContext
      → ℕ
      → List Provider
      → EncryptedVault
      → Py ProviderResult × EncryptedVault
  unfolding restore attempt
  complete_from protocol payload rc i [] v = (err timeout_error, v)
  complete_from protocol payload rc i (p ∷ ps) v =
      attempt (p.complete protocol payload) (complete_from protocol payload rc (suc i) ps v)
        (λ e. (err e, v))
        (λ response.
          let (r, v') = restore response rc v in
          (r >>= λ restored. ok (record { payload = restored; fallback_used = ltb 0 i }), v'))

  -- `complete`
  unfoldable pub complete :
      Providers
      → Str
      → Value
      → GatewayRequestContext
      → EncryptedVault
      → Py ProviderResult × EncryptedVault
  unfolding first_call chain model_of complete_from
  complete r protocol payload rc v =
      first_call (model_of payload) v
        (λ model. complete_from protocol payload rc 0 (chain r model) v)

-- The loop of `stream`: all events of the first provider that gives one
unfoldable pub stream_from : Str → Value → ℕ → List Provider → Py (List Str × Bool)
unfolding attempt
stream_from protocol payload i [] = err timeout_error
stream_from protocol payload i (p ∷ ps) =
    attempt (p.stream protocol payload) (stream_from protocol payload (suc i) ps) (λ e. err e)
      (λ r. ok (r.0 ∷ r.1, ltb 0 i))

-- `stream`
unfoldable pub stream : Providers → Str → Value → Py (List Str × Bool)
unfolding chain model_of stream_from
stream r protocol payload = do
  model ← model_of payload
  stream_from protocol payload 0 (chain r model)
