-- ===== src/Protocol/Replay.antt =====
-- novo_chat/protocol.py: the ReplayGuard interface and InMemoryReplayGuard. The lock around `claim`
-- makes each call one step.
pub mod Once
use novo_chat.Base.{
  String, ◌≡◌, Bool, true, false, not, ◌&&◌, List, [], ◌∷◌, ◌++◌, ◌==◌, string_eq, any, keep_if,
  if◌then◌else◌,
}
use novo_chat.Base.Int.{ℤ, ltb_ℤ, ◌≤ℤ◌}

-- The dict's key, or the table's primary key, with the expiry.
pub record Nonce : Type 0 where
  pub environment : String
  pub key_id : String
  pub nonce : String
  pub expires_at : ℤ

-- The arguments of `claim`.
pub record ClaimRequest : Type 0 where
  pub claimed : Nonce
  pub seen_at : ℤ

abbrev pub same_nonce : Nonce → Nonce → Bool
same_nonce a b = a.environment == b.environment && a.key_id == b.key_id && a.nonce == b.nonce

-- `not expiry < seen_at`
abbrev pub is_live : ℤ → Nonce → Bool
is_live seen_at n = not (ltb_ℤ n.expires_at seen_at)

unfoldable pub live_at : ℤ → List Nonce → List Nonce
live_at seen_at = keep_if (is_live seen_at)

-- InMemoryReplayGuard.claim: the expired claims are dropped whatever the answer is.
unfoldable pub claim : ClaimRequest → List Nonce → Bool × List Nonce
claim r claims =
    let kept = live_at r.seen_at claims in
    if any (same_nonce r.claimed) kept then (false, kept) else (true, kept ++ r.claimed ∷ [])

abbrev pub SameNonce : Nonce → Nonce → Type 0
SameNonce a b = same_nonce a b ≡ true

-- `class ReplayGuard(Protocol)`: what `verify_request` relies on. `Remembers n` says that the guard
-- holds the claim `n` until it expires.
pub record ReplayGuard : Type 1 where
  pub State : Type 0
  pub claim_nonce : ClaimRequest → State → Bool × State
  pub Remembers : Nonce → State → Type 0
  pub accepted :
      (r : ClaimRequest) (s : State)
      → (claim_nonce r s).0 ≡ true
      → Remembers r.claimed (claim_nonce r s).1
  pub kept :
      (r : ClaimRequest) (n : Nonce) (s : State)
      → r.seen_at ≤ℤ n.expires_at
      → Remembers n s
      → Remembers n (claim_nonce r s).1
  pub refused :
      (r : ClaimRequest) (n : Nonce) (s : State)
      → SameNonce r.claimed n
      → r.seen_at ≤ℤ n.expires_at
      → Remembers n s
      → (claim_nonce r s).0 ≡ false
