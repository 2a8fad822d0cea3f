-- ===== src/Protocol/Signing.antt =====
-- novo_chat/protocol.py: request signatures. `sign_request` and `verify_request`, with the library
-- code that they call as a parameter.
pub mod Lookup
pub mod NoReplay
pub mod Signed
use novo_chat.Base.{
  ℕ, String, Bool, true, false, not, ◌||◌, Option, none, some, List, [], ◌∷◌, ◌==◌, ◌!=◌, string_eq,
  nat_eq, ltb, if◌then◌else◌,
}
use novo_chat.Base.Int.{ℤ, pos, ◌+ℤ◌, ◌-ℤ◌, abs}
use novo_chat.Base.Result.{Result, ok, err, ◌>>=◌, ◌>>◌, raise_if}
use novo_chat.Protocol.Replay.{ClaimRequest, ReplayGuard}
use novo_chat.Protocol.Canonical.{
  UrlLibrary, canonicalize_path, canonicalize_query, validate_request_id,
}
use novo_chat.Protocol.Tokens.{
  utf8_length, is_safe_token, is_safe_key_id, is_safe_environment, is_hex_signature,
}

pub record ProtocolError : Type 0 where
  pub code : String
  pub message : String
  pub status_code : ℕ

pub data SigningError : Type 0 where
  invalid_key_id invalid_environment invalid_audience invalid_request_id : SigningError
  invalid_nonce invalid_document short_secret : SigningError

-- The dict that `_request_document` returns.
pub record RequestDocument : Type 0 where
  pub protocol_version : String
  pub audience : String
  pub environment : String
  pub key_id : String
  pub timestamp : ℤ
  pub nonce : String
  pub request_id : String
  pub method : String
  pub path : String
  pub query : String
  pub body_sha256 : String

-- `str`, `int`, `hashlib`, `hmac` over the canonical JSON of a document, `urllib` and `uuid`.
pub record Library : Type 0 where
  pub lower : String → String
  pub upper : String → String
  pub show_int : ℤ → String
  pub parse_int : String → Option ℤ
  pub sha256_hex : String → String
  pub hmac_hex : String → RequestDocument → String
  pub url : UrlLibrary

abbrev pub protocol_version : String
protocol_version = "1"

abbrev pub header_protocol : String
header_protocol = "X-Novo-Chat-Protocol"

abbrev pub header_audience : String
header_audience = "X-Novo-Chat-Audience"

abbrev pub header_environment : String
header_environment = "X-Novo-Chat-Environment"

abbrev pub header_key_id : String
header_key_id = "X-Novo-Chat-Key-Id"

abbrev pub header_timestamp : String
header_timestamp = "X-Novo-Chat-Timestamp"

abbrev pub header_nonce : String
header_nonce = "X-Novo-Chat-Nonce"

abbrev pub header_request_id : String
header_request_id = "X-Novo-Chat-Request-Id"

abbrev pub header_signature : String
header_signature = "X-Novo-Chat-Signature"

abbrev pub Headers : Type 0
Headers = List (String × String)

-- What both ends know of the HTTP request.
pub record HttpRequest : Type 0 where
  pub method : String
  pub path : String
  pub query : String
  pub body : String

pub record VerifiedRequest : Type 0 where
  pub protocol_version : String
  pub audience : String
  pub environment : String
  pub key_id : String
  pub timestamp : ℤ
  pub nonce : String
  pub request_id : String

abbrev pub to_result : {E A : Type 0} → E → Option A → Result E A
to_result e none = err e
to_result e (some a) = ok a

abbrev pub authentication_failed : ProtocolError
authentication_failed = record {
  code = "AUTHENTICATION_FAILED";
  message = "Request authentication failed.";
  status_code = 401;
}

abbrev pub authentication_required : ProtocolError
authentication_required = record authentication_failed { code = "AUTHENTICATION_REQUIRED" }

abbrev pub unsupported_protocol : ProtocolError
unsupported_protocol = record {
  code = "UNSUPPORTED_PROTOCOL";
  message = "Request protocol version is not supported.";
  status_code = 400;
}

abbrev pub request_expired : ProtocolError
request_expired = record {
  code = "REQUEST_EXPIRED";
  message = "Signed request is outside the allowed time window.";
  status_code = 401;
}

abbrev pub request_replayed : ProtocolError
request_replayed = record {
  code = "REQUEST_REPLAYED";
  message = "Signed request nonce has already been used.";
  status_code = 409;
}

-- `secrets_by_key_id.get(key_id)`
unfoldable pub secret_for : String → List (String × String) → Option String
secret_for key_id [] = none
secret_for key_id ((k, secret) ∷ rest) = if k == key_id then some secret else secret_for key_id rest

module _ (lib : Library) where
  open lib use {lower, upper, show_int, parse_int, sha256_hex, hmac_hex, url}

  -- `_request_document`: none where it raises ValueError
  unfoldable pub request_document : VerifiedRequest → HttpRequest → Option RequestDocument
  request_document v http = elim (canonicalize_path url http.path) [
    | none ↦ none
    | some path ↦ elim (canonicalize_query url http.query) [
      | none ↦ none
      | some query ↦ some (record {
        protocol_version = v.protocol_version;
        audience = v.audience;
        environment = v.environment;
        key_id = v.key_id;
        timestamp = v.timestamp;
        nonce = v.nonce;
        request_id = v.request_id;
        method = upper http.method;
        path = path;
        query = query;
        body_sha256 = sha256_hex http.body;
      })
    ]
  ]

  -- `_validate_signing_metadata`
  unfoldable pub validate_signing_metadata :
      String → String → String → String → Result SigningError Unit
  validate_signing_metadata key_id environment audience request_id = do
    raise_if (not (is_safe_key_id key_id)) invalid_key_id
    raise_if (not (is_safe_environment environment)) invalid_environment
    raise_if (not (is_safe_token audience)) invalid_audience
    _ ← to_result invalid_request_id (validate_request_id url request_id)
    ok tt

  -- `sign_request`, with the timestamp and the nonce drawn; the fields of `v` are its arguments.
  unfoldable pub sign_request : String → VerifiedRequest → HttpRequest → Result SigningError Headers
  unfolding validate_signing_metadata
  sign_request secret v http = do
    validate_signing_metadata v.key_id v.environment v.audience v.request_id
    raise_if (not (is_safe_token v.nonce)) invalid_nonce
    document ←
        to_result invalid_document
          (request_document (record v { protocol_version = protocol_version }) http)
    raise_if (ltb (utf8_length secret) 32) short_secret
    canonical_id ← to_result invalid_request_id (validate_request_id url v.request_id)
    ok (
        (header_protocol, protocol_version)
        ∷ (header_audience, v.audience)
        ∷ (header_environment, v.environment)
        ∷ (header_key_id, v.key_id)
        ∷ (header_timestamp, show_int v.timestamp)
        ∷ (header_nonce, v.nonce)
        ∷ (header_request_id, canonical_id)
        ∷ (header_signature, hmac_hex secret document)
        ∷ [])

  -- `_header_map`, then `get`: of equal names the last one counts
  unfoldable pub header_value : String → Headers → Option String
  header_value name [] = none
  header_value name ((k, v) ∷ headers) = elim (header_value name headers) [
    | some later ↦ some later
    | none ↦ if lower k == lower name then some v else none
  ]

  -- `_required_header`: a missing and an empty value are refused alike
  unfoldable pub required_header : String → Headers → Result ProtocolError String
  required_header name headers = elim (header_value name headers) [
    | none ↦ err authentication_required
    | some value ↦ if value == "" then err authentication_required else ok value
  ]

  -- The headers of a request, read and checked for their form.
  pub record SignedHeaders : Type 0 where
    pub claims : VerifiedRequest
    pub secret : String
    pub signature : String

  -- `verify_request` up to the test of the clock.
  unfoldable pub read_headers :
      Headers → List (String × String) → String → String → Result ProtocolError SignedHeaders
  read_headers headers secrets expected_environment expected_audience = do
    version ← required_header header_protocol headers
    audience ← required_header header_audience headers
    environment ← required_header header_environment headers
    key_id ← required_header header_key_id headers
    timestamp_text ← required_header header_timestamp headers
    nonce ← required_header header_nonce headers
    request_text ← required_header header_request_id headers
    signature ← required_header header_signature headers
    raise_if (version != protocol_version) unsupported_protocol
    raise_if (audience != expected_audience || environment != expected_environment)
        authentication_failed
    raise_if (not (is_safe_key_id key_id) || not (is_safe_token nonce)) authentication_failed
    request_id ← to_result authentication_failed (validate_request_id url request_text)
    timestamp ← to_result authentication_failed (parse_int timestamp_text)
    raise_if (not (is_hex_signature signature)) authentication_failed
    secret ← to_result authentication_failed (secret_for key_id secrets)
    ok (record {
      claims = record {
        protocol_version = version;
        audience = audience;
        environment = environment;
        key_id = key_id;
        timestamp = timestamp;
        nonce = nonce;
        request_id = request_id;
      };
      secret = secret;
      signature = signature;
    })

  -- `abs(actual_now - timestamp) > max_clock_skew_seconds`
  abbrev pub out_of_window : ℤ → ℕ → ℤ → Bool
  out_of_window now skew timestamp = ltb skew (abs (now -ℤ timestamp))

  -- The comparison of the signatures.
  unfoldable pub check_signature : SignedHeaders → HttpRequest → Result ProtocolError Unit
  check_signature signed http = do
    document ← to_result authentication_failed (request_document signed.claims http)
    raise_if (ltb (utf8_length signed.secret) 32) authentication_failed
    raise_if (hmac_hex signed.secret document != signed.signature) authentication_failed
    ok tt

  -- The claim that `verify_request` makes of the guard.
  abbrev pub claim_of : ℤ → ℕ → VerifiedRequest → ClaimRequest
  claim_of now skew v = record {
    claimed = record {
      environment = v.environment;
      key_id = v.key_id;
      nonce = v.nonce;
      expires_at = v.timestamp +ℤ pos skew;
    };
    seen_at = now;
  }

  module _ (guard : ReplayGuard) where
    -- The last test, if a guard is given: the guard's state comes back beside the answer.
    unfoldable pub claim_once :
        ℤ
        → ℕ
        → VerifiedRequest
        → Option guard.State
        → Result ProtocolError VerifiedRequest × Option guard.State
    claim_once now skew v none = (ok v, none)
    claim_once now skew v (some s) =
        let (fresh, s') = guard.claim_nonce (claim_of now skew v) s in
        (if fresh then ok v else err request_replayed, some s')

    -- What stands before the claim.
    unfoldable pub authenticate :
        Headers
        → List (String × String)
        → String
        → String
        → HttpRequest
        → ℤ
        → ℕ
        → Result ProtocolError VerifiedRequest
    authenticate headers secrets environment audience http now skew = do
      signed ← read_headers headers secrets environment audience
      raise_if (out_of_window now skew signed.claims.timestamp) request_expired
      check_signature signed http
      ok signed.claims

    unfoldable pub verify_request :
        Headers
        → List (String × String)
        → String
        → String
        → HttpRequest
        → ℤ
        → ℕ
        → Option guard.State
        → Result ProtocolError VerifiedRequest × Option guard.State
    unfolding claim_once authenticate
    verify_request headers secrets environment audience http now skew state =
        elim (authenticate headers secrets environment audience http now skew) [
          | err e ↦ (err e, state)
          | ok v ↦ claim_once now skew v state
        ]
