-- ===== src/Protocol/Responses.antt =====
-- novo_chat/protocol.py: response signatures. `sign_response` and `verify_response`; hmac over the
-- document of a response is a parameter beside the library of the requests.
pub mod Authentic
pub mod Signed
use novo_chat.Base.{
  ℕ, String, Bool, not, ◌||◌, Option, some, List, [], ◌∷◌, ◌==◌, ◌!=◌, string_eq, ltb,
}
use novo_chat.Base.Int.{ℤ, pos, ◌-ℤ◌, abs, ltb_ℤ}
use novo_chat.Base.Result.{Result, ok, err, ◌>>=◌, ◌>>◌, raise_if}
use novo_chat.Protocol.Canonical.{validate_request_id}
use novo_chat.Protocol.Signing.{
  Library, ProtocolError, SigningError, invalid_request_id, short_secret, Headers, to_result,
  protocol_version, header_protocol, header_audience, header_environment, header_key_id,
  header_timestamp, header_request_id, header_signature, validate_signing_metadata, required_header,
  secret_for, out_of_window,
}
use novo_chat.Protocol.Tokens.{utf8_length, is_hex_signature}

abbrev pub header_status : String
header_status = "X-Novo-Chat-Status"

-- The dict that `_response_document` returns.
pub record ResponseDocument : Type 0 where
  pub protocol_version : String
  pub audience : String
  pub environment : String
  pub key_id : String
  pub timestamp : ℤ
  pub request_id : String
  pub status : ℤ
  pub body_sha256 : String

pub record VerifiedResponse : Type 0 where
  pub protocol_version : String
  pub audience : String
  pub environment : String
  pub key_id : String
  pub timestamp : ℤ
  pub request_id : String
  pub status_code : ℤ

abbrev pub unsupported_response : ProtocolError
unsupported_response = record {
  code = "UNSUPPORTED_PROTOCOL";
  message = "Response protocol version is not supported.";
  status_code = 502;
}

abbrev pub response_failed : ProtocolError
response_failed = record {
  code = "RESPONSE_AUTHENTICATION_FAILED";
  message = "Worker response authentication failed.";
  status_code = 502;
}

abbrev pub response_expired : ProtocolError
response_expired = record {
  code = "RESPONSE_EXPIRED";
  message = "Worker response is outside the allowed time window.";
  status_code = 502;
}

-- `a != b` on integers
abbrev pub differ : ℤ → ℤ → Bool
differ a b = ltb_ℤ a b || ltb_ℤ b a

module _ (lib : Library) (hmac_response : String → ResponseDocument → String) where
  open lib use {show_int, parse_int, sha256_hex, url}

  abbrev pub response_document : VerifiedResponse → String → ResponseDocument
  response_document v body = record {
    protocol_version = v.protocol_version;
    audience = v.audience;
    environment = v.environment;
    key_id = v.key_id;
    timestamp = v.timestamp;
    request_id = v.request_id;
    status = v.status_code;
    body_sha256 = sha256_hex body;
  }

  -- `sign_response`, with the timestamp drawn; the fields of `v` are its arguments.
  unfoldable pub sign_response : String → VerifiedResponse → String → Result SigningError Headers
  sign_response secret v body = do
    validate_signing_metadata lib v.key_id v.environment v.audience v.request_id
    let document = response_document (record v { protocol_version = protocol_version }) body
    raise_if (ltb (utf8_length secret) 32) short_secret
    canonical_id ← to_result invalid_request_id (validate_request_id url v.request_id)
    ok (
        (header_protocol, protocol_version)
        ∷ (header_audience, v.audience)
        ∷ (header_environment, v.environment)
        ∷ (header_key_id, v.key_id)
        ∷ (header_timestamp, show_int v.timestamp)
        ∷ (header_request_id, canonical_id)
        ∷ (header_status, show_int v.status_code)
        ∷ (header_signature, hmac_response secret document)
        ∷ [])

  -- What the headers say, and the signature that they carry.
  pub record ResponseHeaders : Type 0 where
    pub claims : VerifiedResponse
    pub signature : String

module _ (lib : Library) (hmac_response : String → ResponseDocument → String) where
  open lib use {show_int, parse_int, sha256_hex, url}

  -- `verify_response` up to the test of the clock.
  unfoldable pub read_response :
      Headers
      → String
      → String
      → String
      → ℤ
      → Result ProtocolError (ResponseHeaders lib hmac_response)
  read_response headers expected_environment expected_audience request_id status_code = do
    version ← required_header lib header_protocol headers
    audience ← required_header lib header_audience headers
    environment ← required_header lib header_environment headers
    key_id ← required_header lib header_key_id headers
    timestamp_text ← required_header lib header_timestamp headers
    request_text ← required_header lib header_request_id headers
    status_text ← required_header lib header_status headers
    signature ← required_header lib header_signature headers
    raise_if (version != protocol_version) unsupported_response
    raise_if (audience != expected_audience || environment != expected_environment) response_failed
    signed_request_id ← to_result response_failed (validate_request_id url request_text)
    expected_request_id ← to_result response_failed (validate_request_id url request_id)
    timestamp ← to_result response_failed (parse_int timestamp_text)
    signed_status ← to_result response_failed (parse_int status_text)
    raise_if (signed_request_id != expected_request_id || differ signed_status status_code)
        response_failed
    raise_if (not (is_hex_signature signature)) response_failed
    ok (record {
      claims = record {
        protocol_version = version;
        audience = audience;
        environment = environment;
        key_id = key_id;
        timestamp = timestamp;
        request_id = signed_request_id;
        status_code = signed_status;
      };
      signature = signature;
    })

  unfoldable pub verify_response :
      Headers
      → List (String × String)
      → String
      → String
      → String
      → ℤ
      → String
      → ℤ
      → ℕ
      → Result ProtocolError VerifiedResponse
  unfolding read_response
  verify_response headers secrets environment audience request_id status_code body now skew = do
    read ← read_response headers environment audience request_id status_code
    raise_if (out_of_window lib now skew read.claims.timestamp) response_expired
    secret ← to_result response_failed (secret_for read.claims.key_id secrets)
    raise_if (ltb (utf8_length secret) 32) response_failed
    raise_if
        (hmac_response secret (response_document lib hmac_response read.claims body)
          != read.signature)
        response_failed
    ok read.claims
