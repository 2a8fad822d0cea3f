-- ===== src/Tests/Responses.antt =====
-- novo_chat/protocol.py: a signed response.
use novo_chat.Base.{String, ◌≡◌, refl, false, some, [], ◌∷◌}
use novo_chat.Base.Int.{pos, ◌-ℤ◌}
use novo_chat.Base.Result.{ok}
use novo_chat.Protocol.Tokens.{is_safe_key_id, is_safe_environment, is_safe_token, is_hex_signature}
use novo_chat.Protocol.Canonical.{validate_request_id}
use novo_chat.Protocol.Signing.{
  Headers, protocol_version, header_signature, required_header, header_value, secret_for,
  out_of_window, validate_signing_metadata,
}
use novo_chat.Protocol.Responses.{
  VerifiedResponse, ResponseDocument, response_document, sign_response, verify_response,
}
use novo_chat.Protocol.Responses.Authentic.{verify_response-authentic}
use novo_chat.Protocol.Responses.Signed.{Documented, verify_response-sign_response}
use novo_chat.Tests.Signing.{test_lib, key, signature, secrets}

abbrev hmac_response : String → ResponseDocument → String
hmac_response secret document = signature

abbrev response : VerifiedResponse
response = record {
  protocol_version = "1";
  audience = "worker";
  environment = "staging";
  key_id = "k1";
  timestamp = pos 100;
  request_id = "id";
  status_code = pos 100;
}

abbrev headers : Headers
headers =
    ("X-Novo-Chat-Protocol", "1")
    ∷ ("X-Novo-Chat-Audience", "worker")
    ∷ ("X-Novo-Chat-Environment", "staging")
    ∷ ("X-Novo-Chat-Key-Id", "k1")
    ∷ ("X-Novo-Chat-Timestamp", "100")
    ∷ ("X-Novo-Chat-Request-Id", "id")
    ∷ ("X-Novo-Chat-Status", "100")
    ∷ ("X-Novo-Chat-Signature", signature)
    ∷ []

signs : sign_response test_lib hmac_response key response "x" ≡ ok headers
unfolding sign_response validate_signing_metadata validate_request_id is_safe_key_id
    is_safe_environment is_safe_token
signs = refl

verifies :
    verify_response test_lib hmac_response headers secrets "staging" "worker" "id"
      (pos 100)
      "x"
      (pos 120)
      60
    ≡ ok response
unfolding verify_response required_header header_value validate_request_id secret_for
    is_hex_signature ◌-ℤ◌
verifies = refl

verify_response-authentic_example :
    (secret : String) × (secret_for "k1" secrets ≡ some secret)
    × (required_header test_lib header_signature headers
        ≡ ok (hmac_response secret (response_document test_lib hmac_response response "x")))
    × (response.protocol_version ≡ protocol_version)
    × (response.audience ≡ "worker")
    × (response.environment ≡ "staging")
    × (validate_request_id test_lib.url "id" ≡ some "id")
    × (response.status_code ≡ pos 100)
    × (out_of_window test_lib (pos 120) 60 (pos 100) ≡ false)
verify_response-authentic_example =
    verify_response-authentic test_lib hmac_response headers secrets "staging" "worker" "id"
      (pos 100) "x" (pos 120) 60 verifies

documented : Documented test_lib hmac_response response
unfolding is_hex_signature
documented = record {
  time_read = refl;
  time_shown = refl;
  status_read = refl;
  status_shown = refl;
  hex = λ secret document. refl;
  apart = refl;
}

canonical : validate_request_id test_lib.url "id" ≡ some "id"
unfolding validate_request_id
canonical = refl

known : secret_for "k1" secrets ≡ some key
unfolding secret_for
known = refl

timely : out_of_window test_lib (pos 120) 60 (pos 100) ≡ false
unfolding ◌-ℤ◌
timely = refl

verify_response-sign_response_example :
    verify_response test_lib hmac_response headers secrets "staging" "worker" "id"
      (pos 100)
      "x"
      (pos 120)
      60
    ≡ ok response
verify_response-sign_response_example =
    verify_response-sign_response test_lib hmac_response secrets key response "x" (pos 120) 60
      documented signs canonical refl known timely
