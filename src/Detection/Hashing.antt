-- ===== src/Detection/Hashing.antt =====
-- frostglass/detection/hashing.py. SHA-256 is a parameter: the hexadecimal digest of a list of bytes.
-- A salt of 2^32 bytes or more, for which `to_bytes` raises, and lone surrogates, which UTF-8 cannot
-- encode, are not modelled.
use frostglass.Prelude.{ℕ, ◌+◌, ◌/◌, ◌%◌, List, [], ◌∷◌, ◌++◌, Str, ltb, length, if◌then◌else◌}

-- UTF-8 of one code point
unfoldable pub utf8_char : ℕ → List ℕ
utf8_char c =
    if ltb c 0x80
    then c ∷ []
    else if ltb c 0x800
    then (0xC0 + c / 64) ∷ (0x80 + c % 64) ∷ []
    else if ltb c 0x10000
    then (0xE0 + c / 4096) ∷ (0x80 + c / 64 % 64) ∷ (0x80 + c % 64) ∷ []
    else (0xF0 + c / 262144) ∷ (0x80 + c / 4096 % 64) ∷ (0x80 + c / 64 % 64) ∷ (0x80 + c % 64) ∷ []

-- `value.encode("utf-8")`
unfoldable pub encode : Str → List ℕ
unfolding utf8_char
encode [] = []
encode (c ∷ s) = utf8_char c ++ encode s

-- `n.to_bytes(4, "big")`
unfoldable pub to_bytes4 : ℕ → List ℕ
to_bytes4 n = (n / 16777216 % 256) ∷ (n / 65536 % 256) ∷ (n / 256 % 256) ∷ (n % 256) ∷ []

-- The bytes that are hashed.
unfoldable pub hash_payload : Str → Str → List ℕ
unfolding encode to_bytes4
hash_payload value tenant_salt =
    to_bytes4 (length (encode tenant_salt)) ++ (encode tenant_salt ++ encode value)

unfoldable pub value_hash : (List ℕ → Str) → Str → Str → Str
value_hash sha256_hexdigest value tenant_salt = sha256_hexdigest (hash_payload value tenant_salt)
