-- ===== src/Worker/Framing.antt =====
-- novo_chat/worker.py: `authenticate_and_sign` up to the signature: the framing headers and the body.
-- A header's text is its code points; `str(config.max_request_bytes)` and `strip` are parameters.
pub mod Lengths
use novo_chat.Base.{
  ℕ, zero, suc, String, ◌+◌, ◌-◌, ◌*◌, Bool, true, false, not, ◌&&◌, ◌||◌, List, [], ◌∷◌, ◌++◌,
  ◌==◌, ◌!=◌, nat_eq, string_eq, ltb, all, contains, length, if◌then◌else◌,
}
use novo_chat.Base.Result.{Result, ok, err, ◌>>=◌, ◌>>◌, raise_if}
use novo_chat.Protocol.Tokens.{is_digit}
use novo_chat.Worker.{WorkerApiError}
use novo_chat.Worker.Api.{api_error}

abbrev pub unsupported_transfer_encoding : WorkerApiError
unsupported_transfer_encoding = api_error 400 "UNSUPPORTED_TRANSFER_ENCODING"

abbrev pub ambiguous_framing : WorkerApiError
ambiguous_framing = api_error 400 "AMBIGUOUS_REQUEST_FRAMING"

abbrev pub length_required : WorkerApiError
length_required = api_error 411 "LENGTH_REQUIRED"

abbrev pub invalid_content_length : WorkerApiError
invalid_content_length = api_error 400 "INVALID_CONTENT_LENGTH"

abbrev pub request_too_large : WorkerApiError
request_too_large = api_error 413 "REQUEST_TOO_LARGE"

abbrev pub body_incomplete : WorkerApiError
body_incomplete = api_error 400 "REQUEST_BODY_INCOMPLETE"

abbrev pub body_invalid : WorkerApiError
body_invalid = api_error 400 "REQUEST_BODY_INVALID"

abbrev pub length_mismatch : WorkerApiError
length_mismatch = api_error 400 "CONTENT_LENGTH_MISMATCH"

-- How `request.stream()` ends.
pub data StreamEnd : Type 0 where
  complete client_disconnect failure : StreamEnd

pub record RawRequest : Type 0 where
  pub method : String
  pub transfer_encodings : List (List ℕ)
  pub content_lengths : List (List ℕ)
  pub chunks : List (List ℕ)
  pub stream_end : StreamEnd

-- `.lstrip("0") or "0"`
abbrev pub strip_zeros : List ℕ → List ℕ
strip_zeros [] = []
strip_zeros (c ∷ cs) = let rest = strip_zeros cs in if c == b'0' then rest else c ∷ cs

abbrev pub or_zero : List ℕ → List ℕ
or_zero [] = b'0' ∷ []
or_zero (c ∷ cs) = c ∷ cs

-- `a > b` on texts
unfoldable pub text_greater : List ℕ → List ℕ → Bool
text_greater [] b = false
text_greater (c ∷ a) [] = true
text_greater (c ∷ a) (d ∷ b) = let rest = text_greater a b in if c == d then rest else ltb d c

-- `int(…)` of decimal digits, from a value on.
unfoldable pub int_from : ℕ → List ℕ → ℕ
int_from value [] = value
int_from value (c ∷ cs) = int_from (value * 10 + (c - 48)) cs

unfoldable pub is_longer : List ℕ → List ℕ → Bool
is_longer normalized maximum =
    ltb (length maximum) (length normalized)
    || (length normalized == length maximum && text_greater normalized maximum)

module _ (strip : List ℕ → List ℕ) (maximum_length : List ℕ) (max_request_bytes : ℕ) where
  -- The declared length of one Content-Length header.
  unfoldable pub declared_by : List ℕ → Result WorkerApiError ℕ
  declared_by header = do
    let raw = strip header
    raise_if (not (all is_digit raw) || length raw == 0) invalid_content_length
    let normalized = or_zero (strip_zeros raw)
    raise_if (is_longer normalized maximum_length) request_too_large
    ok (int_from 0 normalized)

  abbrev pub declared_length : String → List (List ℕ) → Result WorkerApiError ℕ
  declared_length method [] =
      if contains ("POST" ∷ "PUT" ∷ "PATCH" ∷ []) method then err length_required else ok 0
  declared_length method (header ∷ []) = do
    raise_if (contains header b',') ambiguous_framing
    declared_by header
  declared_length method (header ∷ other ∷ headers) = err ambiguous_framing

  abbrev pub at_end : List ℕ → StreamEnd → Result WorkerApiError (List ℕ)
  at_end body complete = ok body
  at_end body client_disconnect = err body_incomplete
  at_end body failure = err body_invalid

  -- The loop over the stream; `body` joins the chunks so far. An empty chunk changes nothing.
  unfoldable pub read_body : List ℕ → List (List ℕ) → StreamEnd → Result WorkerApiError (List ℕ)
  read_body body [] stream_end = at_end body stream_end
  read_body body (chunk ∷ chunks) stream_end =
      let rest = read_body (body ++ chunk) chunks stream_end in
      if ltb max_request_bytes (length (body ++ chunk)) then err request_too_large else rest

  abbrev pub has_transfer_encoding : List (List ℕ) → Bool
  has_transfer_encoding [] = false
  has_transfer_encoding (encoding ∷ encodings) = true

  -- The body that goes on to the signature check.
  unfoldable pub framed_body : RawRequest → Result WorkerApiError (List ℕ)
  unfolding declared_by read_body
  framed_body request = do
    raise_if (has_transfer_encoding request.transfer_encodings) unsupported_transfer_encoding
    declared ← declared_length request.method request.content_lengths
    body ← read_body [] request.chunks request.stream_end
    raise_if (length body != declared) length_mismatch
    ok body
