-- ===== src/Protocol/Responses/Authentic.antt =====
-- novo_chat/protocol.py: what a verified response says.
use novo_chat.Base.{
  ℕ, String, ◌≡◌, sym, ap, ◌∙◌, false, not, ◌||◌, some, List, ◌==◌, ◌!=◌, string_eq, eq_iff, ltb,
  arith, not-eq-false,
}
use novo_chat.Base.Int.{ℤ, pos, negsuc}
use novo_chat.Base.Result.{ok, >>=-eq-ok, raise_if-eq-ok, ok-injective}
use novo_chat.Protocol.Canonical.{validate_request_id}
use novo_chat.Protocol.Signing.{
  Library, Headers, to_result, protocol_version, header_protocol, header_audience,
  header_environment, header_key_id, header_timestamp, header_request_id, header_signature,
  required_header, secret_for, out_of_window,
}
use novo_chat.Protocol.Signing.Lookup.{or_false_parts, to_result-eq-ok}
use novo_chat.Protocol.Responses.{
  header_status, ResponseDocument, VerifiedResponse, ResponseHeaders, unsupported_response,
  response_failed, response_expired, differ, response_document, read_response, verify_response,
}
use novo_chat.Protocol.Tokens.{utf8_length, is_hex_signature}

differ-eq : (a b : ℤ) → differ a b ≡ false → a ≡ b
differ-eq (pos m) (pos n) h = ap pos (ground (arith, h))
differ-eq (pos m) (negsuc n) h = absurd (ground (arith, h))
differ-eq (negsuc m) (pos n) h = absurd (ground (arith, h))
differ-eq (negsuc m) (negsuc n) h = ap negsuc (ground (arith, h))

same_text : (s t : String) → (s != t) ≡ false → s ≡ t
same_text s t h = (eq_iff s t).0 (not-eq-false (s == t) h)

module _ (lib : Library) (hmac_response : String → ResponseDocument → String) where
  open lib use {url, parse_int}

  -- What the headers of a response say, where the expected values are these.
  pub record Reads (headers : Headers) (environment audience request_id : String) (status_code : ℤ)
      (read : ResponseHeaders lib hmac_response) : Type 0 where
    pub version_is : read.claims.protocol_version ≡ protocol_version
    pub audience_is : read.claims.audience ≡ audience
    pub environment_is : read.claims.environment ≡ environment
    pub request_id_is : validate_request_id url request_id ≡ some read.claims.request_id
    pub status_is : read.claims.status_code ≡ status_code
    pub signature_is : required_header lib header_signature headers ≡ ok read.signature

  read_response-Reads :
      (headers : Headers) (environment audience request_id : String) (status_code : ℤ)
      {read : ResponseHeaders lib hmac_response}
      → read_response lib hmac_response headers environment audience request_id status_code
        ≡ ok read
      → Reads headers environment audience request_id status_code read
  unfolding read_response
  read_response-Reads headers environment audience request_id status_code h0 =
      let (version, _, h1) = >>=-eq-ok (required_header lib header_protocol headers) _ h0 in
      let (aud, _, h2) = >>=-eq-ok (required_header lib header_audience headers) _ h1 in
      let (env, _, h3) = >>=-eq-ok (required_header lib header_environment headers) _ h2 in
      let (key_id, _, h4) = >>=-eq-ok (required_header lib header_key_id headers) _ h3 in
      let (time_text, _, h5) = >>=-eq-ok (required_header lib header_timestamp headers) _ h4 in
      let (request_text, _, h6) = >>=-eq-ok (required_header lib header_request_id headers) _ h5 in
      let (status_text, _, h7) = >>=-eq-ok (required_header lib header_status headers) _ h6 in
      let (signature, signed, h8) = >>=-eq-ok (required_header lib header_signature headers) _ h7 in
      let (known, h9) = raise_if-eq-ok (version != protocol_version) unsupported_response _ h8 in
      let (places, h10) =
        raise_if-eq-ok (aud != audience || env != environment) response_failed _ h9 in
      let (signed_id, _, h11) =
        >>=-eq-ok (to_result response_failed (validate_request_id url request_text)) _ h10 in
      let (expected_id, expected, h12) =
        >>=-eq-ok (to_result response_failed (validate_request_id url request_id)) _ h11 in
      let (timestamp, _, h13) = >>=-eq-ok (to_result response_failed (parse_int time_text)) _ h12 in
      let (status, _, h14) = >>=-eq-ok (to_result response_failed (parse_int status_text)) _ h13 in
      let (bound, h15) =
        raise_if-eq-ok (signed_id != expected_id || differ status status_code) response_failed _
          h14 in
      let (_, h16) = raise_if-eq-ok (not (is_hex_signature signature)) response_failed _ h15 in
      let (same_audience, same_environment) = or_false_parts (aud != audience) _ places in
      let (same_id, same_status) = or_false_parts (signed_id != expected_id) _ bound in
      rw (← ok-injective h16) (record {
        version_is = same_text version protocol_version known;
        audience_is = same_text aud audience same_audience;
        environment_is = same_text env environment same_environment;
        request_id_is =
            to_result-eq-ok response_failed (validate_request_id url request_id) expected
            ∙ ap some (sym (same_text signed_id expected_id same_id));
        status_is = differ-eq status status_code same_status;
        signature_is = signed;
      })

  -- A response that verifies is of the expected version, audience, environment, request and status,
  -- inside the window, and its signature header is the HMAC of the document of what it says and of the
  -- body, under the secret of its key.
  pub verify_response-authentic :
      (headers : Headers) (secrets : List (String × String))
      (environment audience request_id : String) (status_code : ℤ) (body : String) (now : ℤ)
      (skew : ℕ) {v : VerifiedResponse}
      → verify_response lib hmac_response headers secrets environment audience request_id
          status_code body now skew
        ≡ ok v
      → (secret : String) × (secret_for v.key_id secrets ≡ some secret)
        × (required_header lib header_signature headers
            ≡ ok (hmac_response secret (response_document lib hmac_response v body)))
        × (v.protocol_version ≡ protocol_version)
        × (v.audience ≡ audience)
        × (v.environment ≡ environment)
        × (validate_request_id url request_id ≡ some v.request_id)
        × (v.status_code ≡ status_code)
        × (out_of_window lib now skew v.timestamp ≡ false)
  unfolding verify_response
  verify_response-authentic headers secrets environment audience request_id status_code body now
        skew h =
      let (read, is_read, h1) =
        >>=-eq-ok
          (read_response lib hmac_response headers environment audience request_id status_code) _
          h in
      let reads = read_response-Reads headers environment audience request_id status_code is_read in
      let (timely, h2) =
        raise_if-eq-ok (out_of_window lib now skew read.claims.timestamp) response_expired _ h1 in
      let (secret, found, h3) =
        >>=-eq-ok (to_result response_failed (secret_for read.claims.key_id secrets)) _ h2 in
      let (_, h4) = raise_if-eq-ok (ltb (utf8_length secret) 32) response_failed _ h3 in
      let expected = hmac_response secret (response_document lib hmac_response read.claims body) in
      let (matches, h5) = raise_if-eq-ok (expected != read.signature) response_failed _ h4 in
      rw (← ok-injective h5) (
        secret,
        to_result-eq-ok response_failed (secret_for read.claims.key_id secrets) found,
        reads.signature_is ∙ ap ok (sym (same_text expected read.signature matches)),
        reads.version_is,
        reads.audience_is,
        reads.environment_is,
        reads.request_id_is,
        reads.status_is,
        timely,
      )
