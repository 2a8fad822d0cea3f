-- ===== src/Tests/Signing.antt =====
-- novo_chat/protocol.py: a signed request.
use novo_chat.Base.{
  String, true, false, ◌≡◌, refl, ◌⊎◌, none, some, List, [], ◌∷◌, ◌==◌, string_eq, arith,
  if◌then◌else◌,
}
use novo_chat.Base.Int.{pos, ◌+ℤ◌, ◌-ℤ◌}
use novo_chat.Base.Result.{ok, err}
use novo_chat.Protocol.Tokens.{is_safe_key_id, is_safe_token, is_hex_signature, is_safe_environment}
use novo_chat.Protocol.Canonical.{validate_request_id, canonicalize_path, canonicalize_query}
use novo_chat.Protocol.Replay.{Nonce, ClaimRequest, claim, live_at}
use novo_chat.Protocol.Replay.Once.{in_memory_guard}
use novo_chat.Protocol.Signing.{
  Library, HttpRequest, Headers, VerifiedRequest, verify_request, read_headers, required_header,
  header_value, secret_for, check_signature, request_document, request_expired, request_replayed,
  sign_request, claim_of, validate_signing_metadata, out_of_window,
}
use novo_chat.Protocol.Signing.Signed.{Documented, verify_request-sign_request}
use novo_chat.Protocol.Signing.NoReplay.{claims_after, verify_request-once}

abbrev pub signature : String
signature = "0123456789abcdef0123456789abcdef0123456789abcdef0123456789abcdef"

abbrev pub key : String
key = "a secret of more than thirty-two characters"

abbrev pub test_lib : Library
test_lib = record {
  lower = λ s. s;
  upper = λ s. s;
  show_int = λ t. "100";
  parse_int = λ s. if s == "100" then some (pos 100) else none;
  sha256_hex = λ s. s;
  hmac_hex = λ secret document. if secret == key then signature else document.nonce;
  url = record {
    unquote = some;
    quote_path = λ s. s;
    quote_query = λ s. s;
    parse_qsl = λ s. some [];
    parse_uuid = λ s. some (4, s);
  };
}

abbrev http : HttpRequest
http = record { method = "POST"; path = "/v1/jobs"; query = ""; body = "x" }

abbrev headers : Headers
headers =
    ("X-Novo-Chat-Protocol", "1")
    ∷ ("X-Novo-Chat-Audience", "worker")
    ∷ ("X-Novo-Chat-Environment", "staging")
    ∷ ("X-Novo-Chat-Key-Id", "k1")
    ∷ ("X-Novo-Chat-Timestamp", "100")
    ∷ ("X-Novo-Chat-Nonce", "n1")
    ∷ ("X-Novo-Chat-Request-Id", "id")
    ∷ ("X-Novo-Chat-Signature", signature)
    ∷ []

abbrev pub secrets : List (String × String)
secrets = ("k1", key) ∷ []

abbrev verified : VerifiedRequest
verified = record {
  protocol_version = "1";
  audience = "worker";
  environment = "staging";
  key_id = "k1";
  timestamp = pos 100;
  nonce = "n1";
  request_id = "id";
}

abbrev claimed : List Nonce
claimed = record { environment = "staging"; key_id = "k1"; nonce = "n1"; expires_at = pos 400 } ∷ []

first_time :
    verify_request test_lib in_memory_guard headers secrets "staging" "worker" http
      (pos 110)
      300
      (some [])
    ≡ (ok verified, some claimed)
unfolding verify_request read_headers required_header header_value is_safe_key_id is_safe_token
    validate_request_id is_hex_signature secret_for ◌-ℤ◌ check_signature request_document
    canonicalize_path canonicalize_query claim live_at ◌+ℤ◌
first_time = refl

abbrev other_claim : ClaimRequest
other_claim = record {
  claimed = record { environment = "staging"; key_id = "k1"; nonce = "n2"; expires_at = pos 420 };
  seen_at = pos 130;
}

verify_request-once_example :
    let again =
      verify_request test_lib in_memory_guard headers secrets "staging" "worker" http
        (pos 150)
        300
        (some (claims_after test_lib in_memory_guard (other_claim ∷ []) claimed)) in
    (again.0 ≡ err request_expired) ⊎ (again.0 ≡ err request_replayed)
verify_request-once_example =
    verify_request-once test_lib in_memory_guard headers secrets "staging" "worker" http (pos 110)
      (pos 150) 300 [] claimed (other_claim ∷ []) first_time (omega arith, tt)

-- A library whose every HMAC has the form of one.
abbrev hex_lib : Library
hex_lib = record test_lib { hmac_hex = λ secret document. signature }

documented : Documented hex_lib verified
unfolding is_hex_signature
documented = record {
  time_read = refl;
  time_shown = refl;
  hex = λ secret document. refl;
  apart = refl;
}

signs : sign_request hex_lib key verified http ≡ ok headers
unfolding sign_request validate_signing_metadata validate_request_id is_safe_key_id
    is_safe_environment is_safe_token request_document canonicalize_path canonicalize_query
signs = refl

canonical : validate_request_id hex_lib.url "id" ≡ some "id"
unfolding validate_request_id
canonical = refl

known : secret_for "k1" secrets ≡ some key
unfolding secret_for
known = refl

timely : out_of_window hex_lib (pos 110) 300 (pos 100) ≡ false
unfolding ◌-ℤ◌
timely = refl

fresh : (in_memory_guard.claim_nonce (claim_of hex_lib (pos 110) 300 verified) []).0 ≡ true
unfolding claim live_at ◌+ℤ◌
fresh = refl

verify_request-sign_request_example :
    verify_request hex_lib in_memory_guard headers secrets "staging" "worker" http
      (pos 110)
      300
      (some [])
    ≡ (
      ok verified,
      some ((in_memory_guard.claim_nonce (claim_of hex_lib (pos 110) 300 verified) []).1),
    )
verify_request-sign_request_example =
    verify_request-sign_request hex_lib in_memory_guard secrets key verified http (pos 110) 300 []
      documented signs canonical refl known timely fresh
