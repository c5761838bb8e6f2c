-- ===== src/Masking/Tests.antt =====
-- The masking theorems with a plain cipher: it encrypts nothing, and a mapping is printed as its four
-- texts, each after its length.
use frostglass.Prelude.{
  and_left, and_right, nat_beq, true, false, ℕ, ◌≡◌, ◌<◌, ◌⊎◌, All, err, refl, Option, none, some,
  List, [], ◌∷◌, ◌++◌, Str, str_eq, ok, ◌+◌, leb, if◌then◌else◌, arith, take, drop, length,
  take-length_append, drop-length_append, ◌∙◌, ap, nat_eq, pair_eq,
}
use frostglass.Prelude.Dict
use frostglass.Prelude.Dict.{Dict}
use frostglass.Errors.{Py, PyError}
use frostglass.Detection.Models.{Finding}
use frostglass.Detection.Engine.Chain.{IsChain}
use frostglass.Masking.Models.{MaskingMode, tag, MaskingContext, VaultMapping, request, scope_id}
use frostglass.Masking.Vault.{Crypto, IsCrypto, EncryptedVault, new_vault, get, put}
use frostglass.Masking.Vault.Laws.{IsSound, new_vault-IsSound, get-put_self}
use frostglass.Masking.Consistency.{Generator, surrogate_for}
use frostglass.Masking.Consistency.Stable.{
  Step, requested, mappings_read, time_of, after, surrogate_for_total, surrogate_for_stable,
}
use frostglass.Masking.Engine.{join, MaskingResult, mask, mode_for}
use frostglass.Prelude.Strings.{starts_with, replace}
use frostglass.Masking.Restore.{restore_stream, restore_text}
use frostglass.Masking.Restore.Cut.{NoOverlap}
use frostglass.Masking.Restore.Whole.{single, restore_stream-replace}
use frostglass.Masking.Engine.Woven.{weave, AreReplacements, NoneBlocked, Generates, mask_woven}

-- A text and what follows it
abbrev parse_text : List ℕ → Str × List ℕ
parse_text [] = ([], [])
parse_text (n ∷ rest) = (take n rest, drop n rest)

abbrev after_surrogate : VaultMapping → List ℕ
after_surrogate m = length m.entity_type ∷ (m.entity_type ++ [])

abbrev after_original : VaultMapping → List ℕ
after_original m = length m.surrogate ∷ (m.surrogate ++ after_surrogate m)

abbrev after_hash : VaultMapping → List ℕ
after_hash m = length m.original ∷ (m.original ++ after_original m)

abbrev print_mapping : VaultMapping → List ℕ
print_mapping m = length m.value_hash ∷ (m.value_hash ++ after_hash m)

abbrev mapping_of : Str → Str → Str → Str → VaultMapping
mapping_of value_hash original surrogate entity_type = record {
  value_hash = value_hash;
  original = original;
  surrogate = surrogate;
  entity_type = entity_type;
}

-- The mapping whose first texts are read, from what is left
abbrev last_text : Str → Str → Str → Str × List ℕ → Option VaultMapping
last_text value_hash original surrogate read =
    some (mapping_of value_hash original surrogate read.0)

abbrev third_text : Str → Str → Str × List ℕ → Option VaultMapping
third_text value_hash original read = last_text value_hash original read.0 (parse_text read.1)

abbrev second_text : Str → Str × List ℕ → Option VaultMapping
second_text value_hash read = third_text value_hash read.0 (parse_text read.1)

abbrev first_text : Str × List ℕ → Option VaultMapping
first_text read = second_text read.0 (parse_text read.1)

abbrev parse_mapping : List ℕ → Option VaultMapping
parse_mapping s = first_text (parse_text s)

parse_text-append : (s rest : Str) → parse_text (length s ∷ (s ++ rest)) ≡ (s, rest)
parse_text-append s rest = λ i. (take-length_append s rest i, drop-length_append s rest i)

parse-print : (m : VaultMapping) → parse_mapping (print_mapping m) ≡ some m
parse-print m =
    ap first_text (parse_text-append m.value_hash (after_hash m))
    ∙ ap (second_text m.value_hash) (parse_text-append m.original (after_original m))
    ∙ ap (third_text m.value_hash m.original) (parse_text-append m.surrogate (after_surrogate m))
    ∙ ap (last_text m.value_hash m.original m.surrogate) (parse_text-append m.entity_type [])

abbrev plain_crypto : Crypto
plain_crypto = record {
  encrypt = λ nonce plain. plain;
  decrypt = λ nonce sealed. some sealed;
  dumps = print_mapping;
  loads = parse_mapping;
  urandom = λ i. 0 ∷ 0 ∷ 0 ∷ 0 ∷ 0 ∷ 0 ∷ 0 ∷ 0 ∷ 0 ∷ 0 ∷ 0 ∷ 0 ∷ [];
}

plain_crypto-IsCrypto : IsCrypto plain_crypto
plain_crypto-IsCrypto = record {
  decrypt-encrypt = λ nonce plain. refl;
  loads-dumps = parse-print;
  length-urandom = λ i. refl;
}

abbrev a_vault : EncryptedVault
a_vault = new_vault 1000

a_vault-IsSound : IsSound plain_crypto a_vault
a_vault-IsSound = new_vault-IsSound plain_crypto 1000

abbrev a_mapping : VaultMapping
a_mapping = mapping_of (1 ∷ []) (2 ∷ []) (3 ∷ []) (4 ∷ [])

get-put_self_example :
    get plain_crypto 700 (put plain_crypto 500 a_vault (5 ∷ []) a_mapping) (5 ∷ []) (1 ∷ [])
    ≡ ok (if leb 1500 700 then none else some a_mapping)
get-put_self_example =
    get-put_self plain_crypto plain_crypto-IsCrypto 500 700 a_vault (5 ∷ []) a_mapping

abbrev a_context : MaskingContext
a_context = record { tenant_id = 6 ∷ []; request_id = 7 ∷ []; session_id = none; scope = request }

abbrev doubled : Generator
doubled scope entity_type original value_hash = ok (original ++ original)

abbrev first_request : Py Str × EncryptedVault
first_request = surrogate_for plain_crypto doubled 500 a_vault a_context (4 ∷ []) (2 ∷ []) (1 ∷ [])

surrogate_for_total_example :
    IsSound plain_crypto first_request.1
    × (((s : Str) × (first_request.0 ≡ ok s))
        ⊎ ((e : PyError) × (get plain_crypto 500 a_vault (scope_id a_context) (1 ∷ []) ≡ ok none)
            × (doubled (scope_id a_context) (4 ∷ []) (2 ∷ []) (1 ∷ []) ≡ err e)
            × (first_request ≡ (err e, a_vault))))
surrogate_for_total_example =
    surrogate_for_total plain_crypto plain_crypto-IsCrypto doubled 500 a_vault a_context (4 ∷ [])
      (2 ∷ []) (1 ∷ []) a_vault-IsSound

new_value : get plain_crypto 500 a_vault (scope_id a_context) (1 ∷ []) ≡ ok none
unfolding get Dict.get
new_value = refl

in_time : 700 < 500 + a_vault.ttl
in_time = omega arith

-- A request for another value, with the same type, and a reading of the mappings
abbrev between : List Step
between =
    requested 600 a_context (4 ∷ []) (3 ∷ []) (2 ∷ []) ∷ mappings_read 650 (scope_id a_context) ∷ []

between_in_time : All (λ step. time_of step < 500 + a_vault.ttl) between
unfolding time_of
between_in_time = (omega arith, (omega arith, tt))

first_given : first_request.0 ≡ ok (2 ∷ 2 ∷ [])
unfolding surrogate_for Dict.get get
first_given = refl

surrogate_for_stable_example :
    surrogate_for plain_crypto doubled 700
      (after plain_crypto doubled between first_request.1)
      a_context
      (8 ∷ [])
      (9 ∷ [])
      (1 ∷ [])
    ≡ (ok (2 ∷ 2 ∷ []), after plain_crypto doubled between first_request.1)
surrogate_for_stable_example =
    surrogate_for_stable plain_crypto plain_crypto-IsCrypto doubled 500 700 a_vault a_context
      (4 ∷ []) (2 ∷ []) (1 ∷ []) (2 ∷ 2 ∷ []) (8 ∷ []) (9 ∷ []) between new_value first_given
      between_in_time in_time

abbrev plain_digest : List ℕ → Str
plain_digest bytes = bytes

abbrev some_text : Str
some_text = 97 ∷ 98 ∷ 99 ∷ 100 ∷ []

-- A finding to pseudonymize and one to tag
abbrev finding_at : ℕ → ℕ → Finding
finding_at start end = record {
  entity_type = 1 ∷ [];
  start = start;
  end = end;
  confidence = 9000;
  detector = [];
  value_hash = 2 ∷ [];
}

abbrev two_findings : List Finding
two_findings = finding_at 1 3 ∷ finding_at 3 4 ∷ []

abbrev two_modes : Dict (ℕ × ℕ) MaskingMode
two_modes = ((3, 4), tag) ∷ []

two_findings-IsChain : IsChain 0 (length some_text) two_findings
two_findings-IsChain =
    (omega arith, omega arith, omega arith, (omega arith, omega arith, omega arith, omega arith))

two_findings-NoneBlocked : NoneBlocked two_modes two_findings
unfolding mode_for Dict.get
two_findings-NoneBlocked = ((λ e. cc), ((λ e. cc), tt))

two_findings-Generates :
    Generates plain_crypto doubled plain_digest [] 500 some_text a_context two_modes two_findings
two_findings-Generates = ((λ _. (_, refl)), ((λ _. (_, refl)), tt))

mask_woven_example :
    (news : List Str) × (r : MaskingResult) × (v' : EncryptedVault) × (mask plain_crypto doubled
        plain_digest [] 500 a_vault some_text two_findings a_context two_modes
      ≡ (ok r, v'))
    × AreReplacements plain_crypto doubled plain_digest [] 500 some_text a_context two_modes []
        a_vault two_findings news v'
    × (r.text ≡ weave some_text 0 two_findings news)
    × IsSound plain_crypto v'
mask_woven_example =
    mask_woven plain_crypto plain_crypto-IsCrypto doubled plain_digest [] 500 a_vault some_text
      two_findings a_context two_modes two_findings-IsChain two_findings-NoneBlocked
      two_findings-Generates a_vault-IsSound

not_first : (b : ℕ) → nat_beq 66 b ≡ true → nat_beq 65 b ≡ false
not_first b h = ground arith

two_letters-NoOverlap : NoOverlap (65 ∷ 66 ∷ [])
unfolding NoOverlap starts_with
two_letters-NoOverlap [] p low high h = cc
two_letters-NoOverlap (a ∷ []) p low high h = ground (arith, h)
two_letters-NoOverlap (a ∷ b ∷ rest) p low high h =
    let one : p ≡ 1 = omega (arith, low, high) in
    let second : nat_beq 66 b ≡ true = and_left _ _ (and_right _ _ h) in
    let other : nat_beq 65 b ≡ false = not_first b second in rw (one, other) refl

abbrev three_chunks : List Str
three_chunks = (97 ∷ 65 ∷ []) ∷ (66 ∷ []) ∷ (98 ∷ []) ∷ []

restore_stream-replace_example :
    (join (restore_stream three_chunks (single 65 (66 ∷ []) (99 ∷ 100 ∷ [])))
      ≡ replace (join three_chunks) (65 ∷ 66 ∷ []) (99 ∷ 100 ∷ []))
    × (restore_text (join three_chunks) (single 65 (66 ∷ []) (99 ∷ 100 ∷ []))
        ≡ replace (join three_chunks) (65 ∷ 66 ∷ []) (99 ∷ 100 ∷ []))
restore_stream-replace_example =
    restore_stream-replace 65 (66 ∷ []) (99 ∷ 100 ∷ []) two_letters-NoOverlap three_chunks
      (omega arith)
