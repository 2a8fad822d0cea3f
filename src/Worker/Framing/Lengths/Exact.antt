-- ===== src/Worker/Framing/Lengths/Exact.antt =====
-- novo_chat/worker.py: the declared length, and the body that goes on to the signature check.
use novo_chat.Base.{
  ℕ, ◌≤◌, ◌≡◌, refl, sym, ap, ◌∙◌, Bool, true, false, List, [], ◌∷◌, ◌++◌, ◌==◌, ◌!=◌, nat_eq, ltb,
  length, if◌then◌else◌, arith, Bool-cases, inl, inr, not-eq-false,
}
use novo_chat.Base.Result.{
  ok, err, raise_if, ◌>>◌, >>=-eq-ok, raise_if-eq-ok, if-eq-ok, ok-injective,
}
use novo_chat.Worker.Framing.{
  RawRequest, StreamEnd, complete, client_disconnect, failure, strip_zeros, or_zero, int_from,
  is_longer, declared_by, declared_length, read_body, framed_body, request_too_large,
  unsupported_transfer_encoding, has_transfer_encoding, length_mismatch,
}
use novo_chat.Worker.Framing.Lengths.{AreDigits, IsDecimal, digits_tail, is_longer-value}

strip_zeros-digits : (cs : List ℕ) → AreDigits cs → AreDigits (strip_zeros cs)
strip_zeros-digits [] h = refl
strip_zeros-digits (c ∷ cs) h = elim (Bool-cases (c == b'0')) [
  | inl e ↦ rw e (strip_zeros-digits cs (digits_tail c cs h).2)
  | inr e ↦ rw e h
]

or_zero-digits : (cs : List ℕ) → AreDigits cs → AreDigits (or_zero cs)
or_zero-digits [] h = refl
or_zero-digits (c ∷ cs) h = h

-- Without its leading zeros a text is a decimal, or empty.
or_zero-IsDecimal : (cs : List ℕ) → IsDecimal (or_zero (strip_zeros cs))
or_zero-IsDecimal [] = tt
or_zero-IsDecimal (c ∷ cs) = elim (Bool-cases (c == b'0')) [
  | inl e ↦ rw e (or_zero-IsDecimal cs)
  | inr e ↦ rw e (nonzero_first c cs e)
]
  where
    nonzero_first : (c : ℕ) (cs : List ℕ) → (c == b'0') ≡ false → IsDecimal (or_zero (c ∷ cs))
    nonzero_first c [] h = tt
    nonzero_first c (d ∷ cs) h = h

int_from-strip_zeros : (cs : List ℕ) → int_from 0 (or_zero (strip_zeros cs)) ≡ int_from 0 cs
unfolding int_from
int_from-strip_zeros [] = omega arith
int_from-strip_zeros (c ∷ cs) = elim (Bool-cases (c == b'0')) [
  | inl e ↦
      let same : c ≡ 48 = (nat_eq.equal_iff c 48).0 e in
      rw e (int_from-strip_zeros cs ∙ ap (λ t. int_from t cs) (omega (arith, same)))
  | inr e ↦ rw e refl
]

module _ (strip : List ℕ → List ℕ) (maximum : List ℕ) (limit : ℕ) where
  -- A Content-Length of digits declares its number, or is refused exactly if that exceeds the limit,
  -- where the limit's text is its decimal.
  pub declared_by-exact :
      (header : List ℕ)
      → AreDigits maximum
      → IsDecimal maximum
      → int_from 0 maximum ≡ limit
      → AreDigits (strip header)
      → (length (strip header) == 0) ≡ false
      → declared_by strip maximum limit header ≡ (
          if ltb limit (int_from 0 (strip header))
          then err request_too_large
          else ok (int_from 0 (strip header)))
  unfolding declared_by
  declared_by-exact header dm cm same digits some_digit =
      let normalized = or_zero (strip_zeros (strip header)) in
      let value = int_from-strip_zeros (strip header) in
      let test : is_longer normalized maximum ≡ ltb limit (int_from 0 (strip header)) =
        is_longer-value normalized maximum (or_zero-IsDecimal (strip header)) cm
          (or_zero-digits (strip_zeros (strip header)) (strip_zeros-digits (strip header) digits))
          dm
        ∙ rw (same, value) refl in
      rw (digits, some_digit, test, value)
        (either (ltb limit (int_from 0 (strip header))) (int_from 0 (strip header)))
    where
      either :
          (b : Bool) (n : ℕ)
          → (raise_if b request_too_large >> ok n) ≡ (if b then err request_too_large else ok n)
      either true n = refl
      either false n = refl

  read_body-bounded :
      (body : List ℕ) (chunks : List (List ℕ)) (stream_end : StreamEnd) {out : List ℕ}
      → read_body strip maximum limit body chunks stream_end ≡ ok out
      → length body ≤ limit
      → length out ≤ limit
  unfolding read_body
  read_body-bounded body [] complete h k = rw (← ok-injective h) k
  read_body-bounded body [] client_disconnect h k = cc
  read_body-bounded body [] failure h k = cc
  read_body-bounded body (chunk ∷ chunks) stream_end h k =
      let (small, h1) = if-eq-ok (ltb limit (length (body ++ chunk))) request_too_large _ h in
      read_body-bounded (body ++ chunk) chunks stream_end h1 (ground (arith, small))

  -- A body that is accepted has no Transfer-Encoding and the declared length, which is within the
  -- limit.
  pub framed_body-bounded :
      (request : RawRequest) {body : List ℕ}
      → framed_body strip maximum limit request ≡ ok body
      → (has_transfer_encoding strip maximum limit request.transfer_encodings ≡ false)
        × (declared_length strip maximum limit request.method request.content_lengths
            ≡ ok (length body))
        × (length body ≤ limit)
  unfolding framed_body
  framed_body-bounded request {body} h =
      let (plain, h1) =
        raise_if-eq-ok (has_transfer_encoding strip maximum limit request.transfer_encodings)
          unsupported_transfer_encoding _ h in
      let (declared, is_declared, h2) =
        >>=-eq-ok (declared_length strip maximum limit request.method request.content_lengths) _
          h1 in
      let (read, is_read, h3) =
        >>=-eq-ok (read_body strip maximum limit [] request.chunks request.stream_end) _ h2 in
      let (same, h4) = raise_if-eq-ok (length read != declared) length_mismatch _ h3 in
      let body_is : read ≡ body = ok-injective h4 in
      let length_is : length read ≡ declared =
        (nat_eq.equal_iff (length read) declared).0 (not-eq-false _ same) in
      (
        plain,
        is_declared ∙ ap ok (sym length_is ∙ ap length body_is),
        rw (← body_is)
            (read_body-bounded [] request.chunks request.stream_end is_read (omega arith)),
      )
