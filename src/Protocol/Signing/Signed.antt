-- ===== src/Protocol/Signing/Signed.antt =====
-- novo_chat/protocol.py: `verify_request` of what `sign_request` returned.
use novo_chat.Base.{
  not-eq-false, ℕ, String, ◌≡◌, refl, true, false, not, some, List, [], ◌∷◌, ◌==◌, string_eq, ltb,
  map, distinct,
}
use novo_chat.Base.Int.{ℤ}
use novo_chat.Base.Result.{ok, >>=-eq-ok, raise_if-eq-ok, ok-injective}
use novo_chat.Protocol.Replay.{ReplayGuard}
use novo_chat.Protocol.Canonical.{validate_request_id}
use novo_chat.Protocol.Tokens.{
  utf8_length, is_hex_signature, is_safe_key_id, is_safe_environment, is_safe_token,
}
use novo_chat.Protocol.Signing.{
  Library, short_secret, invalid_key_id, invalid_environment, invalid_audience, invalid_nonce,
  invalid_document, HttpRequest, Headers, VerifiedRequest, RequestDocument, to_result,
  protocol_version, header_protocol, header_audience, header_environment, header_key_id,
  header_timestamp, header_nonce, header_request_id, header_signature, secret_for, request_document,
  out_of_window, validate_signing_metadata, sign_request, read_headers, check_signature, claim_of,
  claim_once, authenticate, verify_request,
}
use novo_chat.Protocol.Signing.Lookup.{
  required_header-found, safe_key_id-nonempty, safe_environment-nonempty, safe_token-nonempty,
  hex-nonempty, differs_self, to_result-eq-ok,
}

-- What `str`, `int`, `str.lower` and hmac do with the parts of this request.
pub record Documented (lib : Library) (v : VerifiedRequest) : Type 0 where
  pub time_read : lib.parse_int (lib.show_int v.timestamp) ≡ some v.timestamp
  pub time_shown : (lib.show_int v.timestamp == "") ≡ false
  pub hex :
      (secret : String) (document : RequestDocument)
      → is_hex_signature (lib.hmac_hex secret document) ≡ true
  pub apart :
      distinct (
        map lib.lower (
          header_protocol ∷ header_audience ∷ header_environment ∷ header_key_id ∷ header_timestamp
          ∷ header_nonce ∷ header_request_id ∷ header_signature ∷ []))
      ≡ true

module _ (lib : Library) where
  open lib use {url, show_int, hmac_hex}

  -- The headers of a signed request, whose document is this one.
  abbrev headers_of : String → VerifiedRequest → RequestDocument → Headers
  headers_of secret v document =
      (header_protocol, protocol_version)
      ∷ (header_audience, v.audience)
      ∷ (header_environment, v.environment)
      ∷ (header_key_id, v.key_id)
      ∷ (header_timestamp, show_int v.timestamp)
      ∷ (header_nonce, v.nonce)
      ∷ (header_request_id, v.request_id)
      ∷ (header_signature, hmac_hex secret document)
      ∷ []

  -- What `sign_request` tested before it answered.
  record Signed (secret : String) (v : VerifiedRequest) (http : HttpRequest) (headers : Headers)
      : Type 0 where
    document : RequestDocument
    is_document :
        request_document lib (record v { protocol_version = protocol_version }) http ≡ some document
    key_safe : is_safe_key_id v.key_id ≡ true
    environment_safe : is_safe_environment v.environment ≡ true
    audience_safe : is_safe_token v.audience ≡ true
    nonce_safe : is_safe_token v.nonce ≡ true
    long_enough : ltb (utf8_length secret) 32 ≡ false
    headers_are : headers_of secret v document ≡ headers

  sign_request-Signed :
      (secret : String) (v : VerifiedRequest) (http : HttpRequest) {headers : Headers}
      → validate_request_id url v.request_id ≡ some v.request_id
      → sign_request lib secret v http ≡ ok headers
      → Signed secret v http headers
  unfolding sign_request validate_signing_metadata
  sign_request-Signed secret v http canonical h0 =
      let (_, valid, h1) =
        >>=-eq-ok (validate_signing_metadata lib v.key_id v.environment v.audience v.request_id) _
          h0 in
      let (key, m1) = raise_if-eq-ok (not (is_safe_key_id v.key_id)) invalid_key_id _ valid in
      let (environment, m2) =
        raise_if-eq-ok (not (is_safe_environment v.environment)) invalid_environment _ m1 in
      let (audience, _) = raise_if-eq-ok (not (is_safe_token v.audience)) invalid_audience _ m2 in
      let (nonce, h2) = raise_if-eq-ok (not (is_safe_token v.nonce)) invalid_nonce _ h1 in
      let (document, found, h3) =
        >>=-eq-ok
          (to_result invalid_document
            (request_document lib (record v { protocol_version = protocol_version }) http))
          _ h2 in
      let (long, h4) = raise_if-eq-ok (ltb (utf8_length secret) 32) short_secret _ h3 in
      record {
        document = document;
        is_document = to_result-eq-ok invalid_document (request_document lib _ http) found;
        key_safe = not-eq-false (is_safe_key_id v.key_id) key;
        environment_safe = not-eq-false (is_safe_environment v.environment) environment;
        audience_safe = not-eq-false (is_safe_token v.audience) audience;
        nonce_safe = not-eq-false (is_safe_token v.nonce) nonce;
        long_enough = long;
        headers_are = ok-injective (rw canonical at h4);
      }

  -- The headers read, and what they give.
  read_headers-headers_of :
      (secrets : List (String × String)) (secret : String) (v : VerifiedRequest)
      (http : HttpRequest) (document : RequestDocument)
      → Documented lib v
      → Signed secret v http (headers_of secret v document)
      → validate_request_id url v.request_id ≡ some v.request_id
      → (v.request_id == "") ≡ false
      → secret_for v.key_id secrets ≡ some secret
      → read_headers lib (headers_of secret v document) secrets v.environment v.audience
        ≡ ok (record {
          claims = record v { protocol_version = protocol_version };
          secret = secret;
          signature = hmac_hex secret document;
        })
  unfolding read_headers
  read_headers-headers_of secrets secret v http document documented signed canonical nonempty
        found =
      let headers = headers_of secret v document in
      let d = documented.apart in
      rw
        (
          required_header-found lib 0 headers d refl refl,
          required_header-found lib 1 headers d refl
              (safe_token-nonempty v.audience signed.audience_safe),
          required_header-found lib 2 headers d refl
              (safe_environment-nonempty v.environment signed.environment_safe),
          required_header-found lib 3 headers d refl
              (safe_key_id-nonempty v.key_id signed.key_safe),
          required_header-found lib 4 headers d refl documented.time_shown,
          required_header-found lib 5 headers d refl
              (safe_token-nonempty v.nonce signed.nonce_safe),
          required_header-found lib 6 headers d refl nonempty,
          required_header-found lib 7 headers d refl
              (hex-nonempty (hmac_hex secret document) (documented.hex secret document)),
          differs_self v.audience,
          differs_self v.environment,
          signed.key_safe,
          signed.nonce_safe,
          canonical,
          documented.time_read,
          documented.hex secret document,
          found,
        )
        refl

  -- The request passes every test before the claim of its nonce.
  authenticate-sign_request :
      (guard : ReplayGuard) (secrets : List (String × String)) (secret : String)
      (v : VerifiedRequest) (http : HttpRequest) (now : ℤ) (skew : ℕ) {headers : Headers}
      → Documented lib v
      → Signed secret v http headers
      → validate_request_id url v.request_id ≡ some v.request_id
      → (v.request_id == "") ≡ false
      → secret_for v.key_id secrets ≡ some secret
      → out_of_window lib now skew v.timestamp ≡ false
      → authenticate lib guard headers secrets v.environment v.audience http now skew
        ≡ ok (record v { protocol_version = protocol_version })
  unfolding authenticate check_signature
  authenticate-sign_request guard secrets secret v http now skew documented signed canonical
        nonempty found timely =
      let exact : Signed secret v http (headers_of secret v signed.document) =
        rw signed.headers_are signed in
      rw
        (
          ← signed.headers_are,
          read_headers-headers_of secrets secret v http signed.document documented exact canonical
              nonempty found,
          timely,
          signed.is_document,
          signed.long_enough,
          differs_self _,
        )
        refl

  -- A request that was signed with a canonical request id verifies, under the same key, environment
  -- and audience, for the same method, path, query and body, at any time inside the window, if the guard
  -- takes the claim of its nonce: the answer is what was signed, and the guard keeps the claim.
  pub verify_request-sign_request :
      (guard : ReplayGuard) (secrets : List (String × String)) (secret : String)
      (v : VerifiedRequest) (http : HttpRequest) (now : ℤ) (skew : ℕ) (s : guard.State)
      {headers : Headers}
      → Documented lib v
      → sign_request lib secret v http ≡ ok headers
      → validate_request_id url v.request_id ≡ some v.request_id
      → (v.request_id == "") ≡ false
      → secret_for v.key_id secrets ≡ some secret
      → out_of_window lib now skew v.timestamp ≡ false
      → (guard.claim_nonce (claim_of lib now skew v) s).0 ≡ true
      → verify_request lib guard headers secrets v.environment v.audience http now skew (some s) ≡ (
        ok (record v { protocol_version = protocol_version }),
        some ((guard.claim_nonce (claim_of lib now skew v) s).1),
      )
  unfolding verify_request claim_once
  verify_request-sign_request guard secrets secret v http now skew s documented answered canonical
        nonempty found timely fresh =
      rw
        (
          verify_request,
          authenticate-sign_request guard secrets secret v http now skew documented
              (sign_request-Signed secret v http canonical answered) canonical nonempty found
              timely,
          claim_once,
          fresh,
        )
        refl
