-- ===== src/Protocol/Responses/Signed.antt =====
-- novo_chat/protocol.py: `verify_response` of what `sign_response` returned.
use novo_chat.Base.{
  not-eq-false, ℕ, String, ◌≡◌, refl, true, false, not, some, List, [], ◌∷◌, ◌==◌, string_eq, ltb,
  map, distinct, arith,
}
use novo_chat.Base.Int.{ℤ, pos, negsuc}
use novo_chat.Base.Result.{ok, >>=-eq-ok, raise_if-eq-ok, ok-injective}
use novo_chat.Protocol.Canonical.{validate_request_id}
use novo_chat.Protocol.Signing.{
  Library, short_secret, invalid_key_id, invalid_environment, invalid_audience, Headers,
  protocol_version, header_protocol, header_audience, header_environment, header_key_id,
  header_timestamp, header_request_id, header_signature, secret_for, out_of_window,
  validate_signing_metadata,
}
use novo_chat.Protocol.Tokens.{
  utf8_length, is_hex_signature, is_safe_key_id, is_safe_environment, is_safe_token,
}
use novo_chat.Protocol.Responses.{
  header_status, ResponseDocument, VerifiedResponse, response_document, sign_response,
  read_response, verify_response, differ,
}
use novo_chat.Protocol.Signing.Lookup.{
  required_header-found, safe_key_id-nonempty, safe_environment-nonempty, safe_token-nonempty,
  hex-nonempty, differs_self,
}

same_status : (a : ℤ) → differ a a ≡ false
same_status (pos n) = ground arith
same_status (negsuc n) = ground arith

-- What `str`, `int`, `str.lower` and hmac do with the parts of this response.
pub record Documented (lib : Library) (hmac_response : String → ResponseDocument → String)
    (v : VerifiedResponse) : Type 0 where
  pub time_read : lib.parse_int (lib.show_int v.timestamp) ≡ some v.timestamp
  pub time_shown : (lib.show_int v.timestamp == "") ≡ false
  pub status_read : lib.parse_int (lib.show_int v.status_code) ≡ some v.status_code
  pub status_shown : (lib.show_int v.status_code == "") ≡ false
  pub hex :
      (secret : String) (document : ResponseDocument)
      → is_hex_signature (hmac_response secret document) ≡ true
  pub apart :
      distinct (
        map lib.lower (
          header_protocol ∷ header_audience ∷ header_environment ∷ header_key_id ∷ header_timestamp
          ∷ header_request_id ∷ header_status ∷ header_signature ∷ []))
      ≡ true

module _ (lib : Library) (hmac_response : String → ResponseDocument → String) where
  open lib use {url, show_int}

  -- The headers of a signed response.
  abbrev headers_of : String → VerifiedResponse → String → Headers
  headers_of secret v body =
      (header_protocol, protocol_version)
      ∷ (header_audience, v.audience)
      ∷ (header_environment, v.environment)
      ∷ (header_key_id, v.key_id)
      ∷ (header_timestamp, show_int v.timestamp)
      ∷ (header_request_id, v.request_id)
      ∷ (header_status, show_int v.status_code)
      ∷ (
        header_signature,
        hmac_response secret (
            response_document lib hmac_response (record v { protocol_version = protocol_version })
              body),
      )
      ∷ []

  -- What `sign_response` tested before it answered.
  record Signed (secret : String) (v : VerifiedResponse) (body : String) (headers : Headers)
      : Type 0 where
    key_safe : is_safe_key_id v.key_id ≡ true
    environment_safe : is_safe_environment v.environment ≡ true
    audience_safe : is_safe_token v.audience ≡ true
    long_enough : ltb (utf8_length secret) 32 ≡ false
    headers_are : headers_of secret v body ≡ headers

  sign_response-Signed :
      (secret : String) (v : VerifiedResponse) (body : String) {headers : Headers}
      → validate_request_id url v.request_id ≡ some v.request_id
      → sign_response lib hmac_response secret v body ≡ ok headers
      → Signed secret v body headers
  unfolding sign_response validate_signing_metadata
  sign_response-Signed secret v body canonical h0 =
      let (_, valid, h1) =
        >>=-eq-ok (validate_signing_metadata lib v.key_id v.environment v.audience v.request_id) _
          h0 in
      let (key, m1) = raise_if-eq-ok (not (is_safe_key_id v.key_id)) invalid_key_id _ valid in
      let (environment, m2) =
        raise_if-eq-ok (not (is_safe_environment v.environment)) invalid_environment _ m1 in
      let (audience, _) = raise_if-eq-ok (not (is_safe_token v.audience)) invalid_audience _ m2 in
      let (long, h2) = raise_if-eq-ok (ltb (utf8_length secret) 32) short_secret _ h1 in
      record {
        key_safe = not-eq-false (is_safe_key_id v.key_id) key;
        environment_safe = not-eq-false (is_safe_environment v.environment) environment;
        audience_safe = not-eq-false (is_safe_token v.audience) audience;
        long_enough = long;
        headers_are = ok-injective (rw canonical at h2);
      }

  -- The headers read, and what they give.
  read_response-headers_of :
      (secret : String) (v : VerifiedResponse) (body : String)
      → Documented lib hmac_response v
      → Signed secret v body (headers_of secret v body)
      → validate_request_id url v.request_id ≡ some v.request_id
      → (v.request_id == "") ≡ false
      → read_response lib hmac_response
          (headers_of secret v body)
          v.environment
          v.audience
          v.request_id
          v.status_code
        ≡ ok (record {
          claims = record v { protocol_version = protocol_version };
          signature = hmac_response secret (
              response_document lib hmac_response
                (record v { protocol_version = protocol_version })
                body);
        })
  unfolding read_response
  read_response-headers_of secret v body documented signed canonical nonempty =
      let headers = headers_of secret v body in
      let mac = hmac_response secret (
        response_document lib hmac_response (record v { protocol_version = protocol_version })
          body) in
      let d = documented.apart in
      rw
        (
          required_header-found lib 0 headers d refl refl,
          required_header-found lib 1 headers d refl
              (safe_token-nonempty v.audience signed.audience_safe),
          required_header-found lib 2 headers d refl
              (safe_environment-nonempty v.environment signed.environment_safe),
          required_header-found lib 3 headers d refl
              (safe_key_id-nonempty v.key_id signed.key_safe),
          required_header-found lib 4 headers d refl documented.time_shown,
          required_header-found lib 5 headers d refl nonempty,
          required_header-found lib 6 headers d refl documented.status_shown,
          required_header-found lib 7 headers d refl (hex-nonempty mac (documented.hex secret _)),
          differs_self v.audience,
          differs_self v.environment,
          canonical,
          documented.time_read,
          documented.status_read,
          differs_self v.request_id,
          same_status v.status_code,
          documented.hex secret _,
        )
        refl

  -- A response that was signed with a canonical request id verifies, under the same key, environment,
  -- audience, request id, status and body, at any time inside the window, as what was signed.
  pub verify_response-sign_response :
      (secrets : List (String × String)) (secret : String) (v : VerifiedResponse) (body : String)
      (now : ℤ) (skew : ℕ) {headers : Headers}
      → Documented lib hmac_response v
      → sign_response lib hmac_response secret v body ≡ ok headers
      → validate_request_id url v.request_id ≡ some v.request_id
      → (v.request_id == "") ≡ false
      → secret_for v.key_id secrets ≡ some secret
      → out_of_window lib now skew v.timestamp ≡ false
      → verify_response lib hmac_response headers secrets v.environment v.audience v.request_id
          v.status_code body now skew
        ≡ ok (record v { protocol_version = protocol_version })
  unfolding verify_response
  verify_response-sign_response secrets secret v body now skew documented answered canonical
        nonempty found timely =
      let signed = sign_response-Signed secret v body canonical answered in
      let exact : Signed secret v body (headers_of secret v body) = rw signed.headers_are signed in
      rw
        (
          ← signed.headers_are,
          read_response-headers_of secret v body documented exact canonical nonempty,
          timely,
          found,
          signed.long_enough,
          differs_self _,
        )
        refl
