-- ===== src/Gateway/Tests.antt =====
-- The gateway's theorems at concrete keys, times, payloads and providers.
use frostglass.Prelude.{
  ℕ, ◌≡◌, ◌≤◌, refl, false, none, some, List, [], ◌∷◌, ◌++◌, Str, str, str_eq, str_beq, ok, err,
  take, if◌then◌else◌, arith, All, Pairs, length, ltb, any,
}
use frostglass.Prelude.Dict
use frostglass.Prelude.Strings.{starts_with}
use frostglass.Errors.{timeout_error}
use frostglass.Json.{Value, text, array, object, nil, cons, Fields, end, field, find, get}
use frostglass.Masking.Models.{MaskingContext, session}
use frostglass.Masking.Vault.{Crypto, EncryptedVault, new_vault}
use frostglass.Masking.Consistency.{Generator}
use frostglass.Gateway.Auth.{Principal, VirtualKeyStore, register, resolve}
use frostglass.Gateway.Auth.Keys.{AreApart, register_all, resolve-register, resolve_sound}
use frostglass.Gateway.Budget.{new_limits, window_of}
use frostglass.Gateway.Budget.Window.{minute_to, serve, serve-rate_limit}
use frostglass.Gateway.Extract.{
  extract_fields, if_object, collect_content, if_list, each, collect_message, collect_tool_calls,
  collect_input, if_text, found_at, extract_text, replace_text,
}
use frostglass.Gateway.Extract.Located.{IsDict, IsLocated}
use frostglass.Gateway.Extract.Located.Whole.{extract_text-IsLocated}
use frostglass.Gateway.Extract.Replaced.{replace_text-fixed, replace_text-unread}
use frostglass.Gateway.Pipeline.{
  GatewayRequestContext, Provider, Providers, chain, model_of, mask, complete, mask_located,
  first_call, zip_strict, group, walk, mask_entries, entries_at, and_items, and_fields,
  must_be_object,
}
use frostglass.Gateway.Pipeline.Fallback.{
  TimesOut, answer, complete-first_answer, complete-All_down,
}
use frostglass.Gateway.Pipeline.Shape.{skeleton, mask-SameShape}

abbrev doubled_digest : Str → Str
doubled_digest s = s ++ s

abbrev a_key : Str
a_key = str "fg-live-key1"

abbrev a_principal : Principal
a_principal = record {
  user = 1 ∷ [];
  team = 2 ∷ [];
  allowed_models = [];
  monthly_budget_cents = 10;
  rate_limit_rpm = 1;
  shadow_mode = false;
}

abbrev one_key : VirtualKeyStore
one_key = (take 12 a_key, (doubled_digest a_key, a_principal)) ∷ []

key_registered : register doubled_digest [] a_key a_principal ≡ ok one_key
unfolding register starts_with Dict.put str
key_registered = refl

abbrev another_key : Str
another_key = str "fg-live-key2"

abbrev two_keys : VirtualKeyStore
two_keys =
    (take 12 a_key, (doubled_digest a_key, a_principal))
    ∷ (take 12 another_key, (doubled_digest another_key, a_principal))
    ∷ []

another_registered :
    register_all doubled_digest one_key ((another_key, a_principal) ∷ []) ≡ ok two_keys
unfolding register_all register starts_with Dict.put str str_beq
another_registered = refl

another_apart : AreApart a_key ((another_key, a_principal) ∷ [])
unfolding str str_beq
another_apart = (refl, tt)

resolve-register_example :
    resolve doubled_digest two_keys (some (str "Bearer " ++ a_key)) ≡ ok a_principal
resolve-register_example =
    resolve-register doubled_digest [] one_key two_keys a_key a_principal
      ((another_key, a_principal) ∷ []) key_registered another_registered another_apart

key_resolves : resolve doubled_digest one_key (some (str "Bearer " ++ a_key)) ≡ ok a_principal
key_resolves =
    resolve-register doubled_digest [] one_key one_key a_key a_principal [] key_registered
      (unfold register_all in refl) tt

resolve_sound_example :
    (key : Str) × (some (str "Bearer " ++ a_key) ≡ some (str "Bearer " ++ key))
    × (Dict.get one_key (take 12 key) ≡ some (doubled_digest key, a_principal))
resolve_sound_example =
    resolve_sound doubled_digest one_key (some (str "Bearer " ++ a_key)) a_principal key_resolves

no_window : window_of new_limits a_principal.team ≡ []
unfolding window_of Dict.get
no_window = refl

abbrev three_times : List ℕ
three_times = 5 ∷ 10 ∷ 70_000_000 ∷ []

in_order : Pairs ◌≤◌ three_times
in_order = ((omega arith, (omega arith, tt)), ((omega arith, tt), (tt, tt)))

serve-rate_limit_example : length (minute_to 20 (serve new_limits a_principal [] three_times)) ≤ 1
serve-rate_limit_example = serve-rate_limit a_principal new_limits three_times no_window in_order 20

-- A request with a system prompt and a message
abbrev a_payload : Value
a_payload = object (
    field (str "model") (text (str "m")) (
      field (str "system") (text (97 ∷ [])) (
        field (str "messages")
          (array (cons (object (field (str "content") (text (98 ∷ [])) end)) nil)) end)))

a_payload-IsDict : IsDict a_payload
unfolding IsDict find str str_beq
a_payload-IsDict = ((refl, (refl, (refl, tt))), (tt, (tt, ((((refl, tt), (tt, tt)), tt), tt))))

extract_text-IsLocated_example : All (IsLocated a_payload) (extract_text a_payload)
extract_text-IsLocated_example = extract_text-IsLocated a_payload a_payload-IsDict

-- A function that leaves the texts of the payload alone
abbrev forget_secret : Str → Str
forget_secret s = if str_beq s (99 ∷ []) then [] else s

texts_kept : All (λ l. forget_secret l.text ≡ l.text) (extract_text a_payload)
unfolding extract_text extract_fields if_object get find collect_content if_list each
    collect_message collect_tool_calls collect_input if_text found_at str str_beq
texts_kept = (refl, (refl, tt))

replace_text-fixed_example : replace_text a_payload forget_secret ≡ a_payload
replace_text-fixed_example = replace_text-fixed a_payload forget_secret a_payload-IsDict texts_kept

-- A response of the OpenAI shape
abbrev a_response : Fields
a_response = field (str "id") (text (1 ∷ [])) (
    field (str "choices") (array (cons (object (field (str "text") (text (99 ∷ [])) end)) nil)) end)

no_system : find a_response (str "system") ≡ none
unfolding find str str_beq
no_system = refl

no_messages : find a_response (str "messages") ≡ none
unfolding find str str_beq
no_messages = refl

no_tools : find a_response (str "tools") ≡ none
unfolding find str str_beq
no_tools = refl

no_input : find a_response (str "input") ≡ none
unfolding find str str_beq
no_input = refl

replace_text-unread_example : replace_text (object a_response) forget_secret ≡ object a_response
replace_text-unread_example =
    replace_text-unread a_response forget_secret no_system no_messages no_tools no_input

abbrev open_crypto : Crypto
open_crypto = record {
  encrypt = λ nonce plain. plain;
  decrypt = λ nonce sealed. some sealed;
  dumps = λ m. m.original;
  loads = λ s. none;
  urandom = λ i. 0 ∷ [];
}

abbrev a_generator : Generator
a_generator scope entity_type original value_hash = ok original

abbrev a_context : MaskingContext
a_context = record { tenant_id = 6 ∷ []; request_id = 7 ∷ []; session_id = none; scope = session }

abbrev quiet_request : GatewayRequestContext
quiet_request = record {
  findings = [];
  masking_context = a_context;
  decisions = [];
  policy_version = 1;
  shadow = false;
}

abbrev a_vault : EncryptedVault
a_vault = new_vault 1000

abbrev bytes_digest : List ℕ → Str
bytes_digest bytes = bytes

quiet-masked :
    (mask open_crypto a_generator bytes_digest [] 5 a_payload quiet_request a_vault).0
    ≡ ok a_payload
unfolding mask mask_located first_call any zip_strict group walk mask_entries entries_at Dict.get
    and_items and_fields must_be_object
quiet-masked = refl

mask-SameShape_example : skeleton a_payload ≡ skeleton a_payload
mask-SameShape_example =
    mask-SameShape open_crypto a_generator bytes_digest [] 5 a_payload a_payload quiet_request
      a_vault quiet-masked

abbrev down : Provider
down = record {
  complete = λ protocol payload. err timeout_error;
  stream = λ protocol payload. err timeout_error;
}

abbrev up : Provider
up = record {
  complete = λ protocol payload. ok (object a_response);
  stream = λ protocol payload. ok ([], []);
}

abbrev second_up : Providers
second_up = record { primary = down; fallback = up; failing_primary = down }

abbrev none_up : Providers
none_up = record { primary = down; fallback = down; failing_primary = down }

a_payload-model : model_of a_payload ≡ ok (str "m")
unfolding model_of find str str_beq
a_payload-model = refl

second_chain : chain second_up (str "m") ≡ (down ∷ []) ++ up ∷ []
unfolding chain starts_with str
second_chain = refl

first_down : All (TimesOut open_crypto 5 (str "openai") a_payload quiet_request) (down ∷ [])
unfolding TimesOut
first_down = (refl, tt)

up_answers : up.complete (str "openai") a_payload ≡ ok (object a_response)
up_answers = refl

complete-first_answer_example :
    complete open_crypto 5 second_up (str "openai") a_payload quiet_request a_vault
    ≡ answer open_crypto 5
        (str "openai")
        a_payload
        quiet_request
        (object a_response)
        (ltb 0 1)
        a_vault
complete-first_answer_example =
    complete-first_answer open_crypto 5 (str "openai") a_payload quiet_request second_up (str "m")
      (down ∷ []) [] up (object a_response) a_vault a_payload-model second_chain first_down
      up_answers

All-down :
    All (TimesOut open_crypto 5 (str "openai") a_payload quiet_request) (chain none_up (str "m"))
unfolding TimesOut chain starts_with str
All-down = (refl, (refl, tt))

complete-All_down_example :
    complete open_crypto 5 none_up (str "openai") a_payload quiet_request a_vault
    ≡ (err timeout_error, a_vault)
complete-All_down_example =
    complete-All_down open_crypto 5 (str "openai") a_payload quiet_request none_up (str "m") a_vault
      a_payload-model All-down
