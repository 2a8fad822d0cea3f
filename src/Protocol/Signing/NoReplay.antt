-- ===== src/Protocol/Signing/NoReplay.antt =====
-- novo_chat/protocol.py: `verify_request` on a request that it has accepted before.
use novo_chat.Base.{
  ℕ, String, ◌≡◌, refl, sym, ◌∙◌, ap, Bool, true, false, ◌⊎◌, inl, inr, Bool-cases, Option, some,
  List, [], ◌∷◌, arith, if◌then◌else◌, All,
}
use mathlib.Core.Path.{subst}
use text.Mathlib.TextPositions.{eq_refl}
use novo_chat.Base.Find.{some_inj}
use novo_chat.Base.Int.{ℤ, pos, ◌≤ℤ◌, ◌+ℤ◌, le_of_abs}
use novo_chat.Base.Result.{Result, ok, err, raise_if-eq-ok, >>=-eq-ok, ok-injective}
use novo_chat.Protocol.Replay.{ClaimRequest, ReplayGuard, Nonce}
use novo_chat.Protocol.Signing.{
  Library, ProtocolError, HttpRequest, Headers, VerifiedRequest, read_headers, check_signature,
  out_of_window, claim_of, request_expired, request_replayed, claim_once, authenticate,
  verify_request,
}

module _ (lib : Library) (guard : ReplayGuard) where
  -- The guard after the claims of other requests.
  pub claims_after : List ClaimRequest → guard.State → guard.State
  claims_after [] s = s
  claims_after (r ∷ rs) s = claims_after rs (guard.claim_nonce r s).1

  claims_after-Remembers :
      (n : Nonce) (now : ℤ) (rs : List ClaimRequest) (s : guard.State)
      → now ≤ℤ n.expires_at
      → All (λ r. r.seen_at ≤ℤ now) rs
      → guard.Remembers n s
      → guard.Remembers n (claims_after rs s)
  unfolding claims_after
  claims_after-Remembers n now [] s h order held = held
  claims_after-Remembers n now (r ∷ rs) s h order held =
      claims_after-Remembers n now rs (guard.claim_nonce r s).1 h order.1
        (guard.kept r n s (omega (arith, h, order.0)) held)

  -- What `authenticate` does at another time.
  authenticate-later :
      (headers : Headers) (secrets : List (String × String)) (env aud : String) (http : HttpRequest)
      (now later : ℤ) (skew : ℕ) {v : VerifiedRequest}
      → authenticate lib guard headers secrets env aud http now skew ≡ ok v
      → authenticate lib guard headers secrets env aud http later skew
        ≡ (if out_of_window lib later skew v.timestamp then err request_expired else ok v)
  unfolding authenticate
  authenticate-later headers secrets env aud http now later skew h =
      let (signed, read, h1) = >>=-eq-ok (read_headers lib headers secrets env aud) _ h in
      let (_, h2) =
        raise_if-eq-ok (out_of_window lib now skew signed.claims.timestamp) request_expired _ h1 in
      let (_, checked, h3) = >>=-eq-ok (check_signature lib signed http) _ h2 in
      rw (read, checked, sym (ok-injective h3))
        (elim (Bool-cases (out_of_window lib later skew signed.claims.timestamp)) [
          | inl e ↦ rw e refl
          | inr e ↦ rw e refl
        ])

  in_window :
      (now : ℤ) (skew : ℕ) (t : ℤ) → out_of_window lib now skew t ≡ false → now ≤ℤ t +ℤ pos skew
  in_window now skew t h = le_of_abs now t skew (ground arith)

  fresh_answer :
      (fresh : Bool) {w v : VerifiedRequest} {t s' : guard.State}
      → ◌≡◌ {A = Result ProtocolError VerifiedRequest × Option guard.State}
          (if fresh then ok w else err request_replayed, some t)
          (ok v, some s')
      → (w ≡ v) × (fresh ≡ true) × (t ≡ s')
  fresh_answer true h = (ok-injective (ap (λ p. p.0) h), refl, some_inj (ap (λ p. p.1) h))
  fresh_answer false h = cc

  -- A request that verifies passed every test and made a fresh claim.
  verify_request-fresh :
      (headers : Headers) (secrets : List (String × String)) (env aud : String) (http : HttpRequest)
      (now : ℤ) (skew : ℕ) {v : VerifiedRequest} (s s' : guard.State)
      → verify_request lib guard headers secrets env aud http now skew (some s) ≡ (ok v, some s')
      → (authenticate lib guard headers secrets env aud http now skew ≡ ok v)
        × ((guard.claim_nonce (claim_of lib now skew v) s).0 ≡ true)
        × ((guard.claim_nonce (claim_of lib now skew v) s).1 ≡ s')
  unfolding verify_request claim_once
  verify_request-fresh headers secrets env aud http now skew {v} s s' h = from _ refl h
    where
      from :
          (r : Result ProtocolError VerifiedRequest)
          → authenticate lib guard headers secrets env aud http now skew ≡ r
          → ◌≡◌ {A = Result ProtocolError VerifiedRequest × Option guard.State}
              (elim r [ err e ↦ (err e, some s) | ok v ↦ claim_once lib guard now skew v (some s) ])
              (ok v, some s')
          → (authenticate lib guard headers secrets env aud http now skew ≡ ok v)
            × ((guard.claim_nonce (claim_of lib now skew v) s).0 ≡ true)
            × ((guard.claim_nonce (claim_of lib now skew v) s).1 ≡ s')
      from (err e) passed k = cc
      from (ok w) passed k =
          let answer = fresh_answer (guard.claim_nonce (claim_of lib now skew w) s).0 k in
          let fresh = rw (answer.0) at answer.1 in
          let state = rw (answer.0) at answer.2 in (passed ∙ ap ok answer.0, fresh, state)

  -- A request that was accepted at `now` is not accepted again, at any time and after any claims
  -- that the clock stamped no later than that: the answer is REQUEST_EXPIRED or REQUEST_REPLAYED.
  pub verify_request-once :
      (headers : Headers) (secrets : List (String × String)) (env aud : String) (http : HttpRequest)
      (now later : ℤ) (skew : ℕ) {v : VerifiedRequest} (s s' : guard.State) (rs : List ClaimRequest)
      → verify_request lib guard headers secrets env aud http now skew (some s) ≡ (ok v, some s')
      → All (λ r. r.seen_at ≤ℤ later) rs
      → let again =
          verify_request lib guard headers secrets env aud http later skew
            (some (claims_after rs s')) in
        (again.0 ≡ err request_expired) ⊎ (again.0 ≡ err request_replayed)
  unfolding verify_request claim_once
  verify_request-once headers secrets env aud http now later skew {v} s s' rs h order =
      let (passed, fresh, state) =
        verify_request-fresh headers secrets env aud http now skew s s' h in
      let again = authenticate-later headers secrets env aud http now later skew passed in
      elim (Bool-cases (out_of_window lib later skew v.timestamp)) [
        | inl late ↦ inl (rw (verify_request, again, late) refl)
        | inr on_time ↦
            let live = in_window later skew v.timestamp on_time in
            let held =
              subst (guard.Remembers (claim_of lib now skew v).claimed) state
                (guard.accepted (claim_of lib now skew v) s fresh) in
            let seen =
              guard.refused (claim_of lib later skew v) (claim_of lib now skew v).claimed
                (claims_after rs s') (rw (eq_refl, eq_refl, eq_refl) refl) live
                (claims_after-Remembers (claim_of lib now skew v).claimed later rs s' live order
                  held) in
            inr (rw (verify_request, again, on_time, claim_once, seen) refl)
      ]
