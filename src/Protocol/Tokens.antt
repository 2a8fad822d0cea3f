-- ===== src/Protocol/Tokens.antt =====
-- novo_chat/protocol.py: the regular expressions of identifiers, over the code points of a text.
use Prim.Native.Char.{code}
use novo_chat.Base.{
  ℕ, String, Bool, false, not, ◌&&◌, ◌||◌, List, [], ◌∷◌, ◌==◌, nat_eq, string_eq, leb, length, all,
  any, ltb, ◌+◌, if◌then◌else◌,
}

abbrev pub codes : String → List ℕ
codes String.[] = []
codes (String.◌∷◌ c s) = code c ∷ codes s

-- The bytes of a code point in UTF-8.
abbrev pub utf8_width : ℕ → ℕ
utf8_width c = if ltb c 128 then 1 else if ltb c 2048 then 2 else if ltb c 65536 then 3 else 4

-- `len(text.encode("utf-8"))`
abbrev pub utf8_length : String → ℕ
utf8_length String.[] = 0
utf8_length (String.◌∷◌ c s) = utf8_width (code c) + utf8_length s

abbrev pub in_range : ℕ → ℕ → ℕ → Bool
in_range lo hi c = leb lo c && leb c hi

abbrev pub is_digit : ℕ → Bool
is_digit = in_range b'0' b'9'

abbrev pub is_lower : ℕ → Bool
is_lower = in_range b'a' b'z'

-- [A-Za-z0-9]
abbrev pub is_alphanumeric : ℕ → Bool
is_alphanumeric c = is_digit c || in_range b'A' b'Z' c || is_lower c

-- One character of the first class, then up to `most` of the second.
unfoldable pub token_match : (ℕ → Bool) → (ℕ → Bool) → ℕ → List ℕ → Bool
token_match first rest most [] = false
token_match first rest most (c ∷ cs) = first c && all rest cs && leb (length cs) most

-- _SAFE_TOKEN
unfoldable pub is_safe_token : String → Bool
unfolding token_match
is_safe_token s =
    token_match is_alphanumeric
      (λ c. is_alphanumeric c || c == b'.' || c == b'_' || c == b':' || c == b'-') 191 (codes s)

-- _SAFE_KEY_ID
unfoldable pub is_safe_key_id : String → Bool
unfolding token_match
is_safe_key_id s =
    token_match is_alphanumeric (λ c. is_alphanumeric c || c == b'.' || c == b'_' || c == b'-') 63
      (codes s)

-- _SAFE_ENVIRONMENT
unfoldable pub is_safe_environment : String → Bool
unfolding token_match
is_safe_environment s =
    token_match (λ c. is_lower c || is_digit c) (λ c. is_lower c || is_digit c || c == b'-') 31
      (codes s)

-- _HEX_SIGNATURE
unfoldable pub is_hex_signature : String → Bool
is_hex_signature s =
    all (λ c. is_digit c || in_range b'a' b'f' c) (codes s) && length (codes s) == 64

-- `_validate_safe_token`, as a test
unfoldable pub is_valid_identifier : String → Bool
unfolding is_safe_token
is_valid_identifier s = is_safe_token s && not (s == "*")

-- `validate_query_text`, as a test
unfoldable pub is_query_text : String → Bool
is_query_text s =
    not
      (any (λ c. (ltb c 32 && not (c == b'\t' || c == b'\n' || c == b'\r')) || c == 127) (codes s))
