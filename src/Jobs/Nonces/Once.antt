-- ===== src/Jobs/Nonces/Once.antt =====
-- novo_chat/jobs.py: `JobStore.claim` as a replay guard, beside InMemoryReplayGuard.
use novo_chat.Base.{
  ◌≡◌, refl, sym, ap, ◌∙◌, Bool, true, false, List, [], ◌∷◌, ◌++◌, arith, inl, inr, Bool-cases, any,
}
use novo_chat.Base.Int.{ℤ, ◌≤ℤ◌}
use novo_chat.Protocol.Replay
use novo_chat.Protocol.Replay.{
  Nonce, ClaimRequest, same_nonce, is_live, live_at, SameNonce, ReplayGuard,
}
use novo_chat.Protocol.Replay.Once.{
  Remembered, Remembered-live_at, Remembered-append, Remembered-new, Remembered-any,
}
use novo_chat.Jobs.Nonces.{claim}

pub claim-accepted :
    (r : ClaimRequest) (rows : List Nonce)
    → (claim r rows).0 ≡ true
    → Remembered r.claimed (claim r rows).1
unfolding claim
claim-accepted r rows h = ground (arith, Remembered-new r.claimed (live_at r.seen_at rows))

pub claim-kept :
    (r : ClaimRequest) (n : Nonce) (rows : List Nonce)
    → r.seen_at ≤ℤ n.expires_at
    → Remembered n rows
    → Remembered n (claim r rows).1
unfolding claim
claim-kept r n rows h k = ground (
  arith,
  Remembered-live_at r.seen_at n rows h k,
  Remembered-append n r.claimed (live_at r.seen_at rows),
)

pub claim-refused :
    (r : ClaimRequest) (n : Nonce) (rows : List Nonce)
    → SameNonce r.claimed n
    → r.seen_at ≤ℤ n.expires_at
    → Remembered n rows
    → (claim r rows).0 ≡ false
unfolding claim
claim-refused r n rows same h k = rw (
    Remembered-any r.claimed n (live_at r.seen_at rows) same
      (Remembered-live_at r.seen_at n rows h k))

abbrev pub job_store_guard : ReplayGuard
job_store_guard = record {
  State = List Nonce;
  claim_nonce = claim;
  Remembers = Remembered;
  accepted = claim-accepted;
  kept = claim-kept;
  refused = claim-refused;
}

-- The answers to a list of claims.
pub answers : {S : Type 0} → (ClaimRequest → S → Bool × S) → List ClaimRequest → S → List Bool
answers step [] s = []
answers step (r ∷ rs) s = let (b, s') = step r s in b ∷ answers step rs s'

-- The clock that the claims see does not go back.
abbrev pub InOrder : ℤ → List ClaimRequest → Type 0
InOrder t [] = Unit
InOrder t (r ∷ rs) = (t ≤ℤ r.seen_at) × InOrder r.seen_at rs

live_at-live_at :
    (t t' : ℤ) (rows : List Nonce) → t ≤ℤ t' → live_at t' (live_at t rows) ≡ live_at t' rows
unfolding live_at
live_at-live_at t t' [] h = refl
live_at-live_at t t' (n ∷ rows) h = ground (arith, live_at-live_at t t' rows h)

-- Seen from `t` on, the dict and the table hold the same claims.
abbrev Agree : ℤ → List Nonce → List Nonce → Type 0
Agree t claims rows = live_at t claims ≡ live_at t rows

answers-from :
    (t : ℤ) (rs : List ClaimRequest) (claims rows : List Nonce)
    → Agree t claims rows
    → InOrder t rs
    → answers claim rs rows ≡ answers Replay.claim rs claims
unfolding answers claim Replay.claim
answers-from t [] claims rows agree order = refl
answers-from t (r ∷ rs) claims rows agree order =
    let now = r.seen_at in
    let agree' : live_at now claims ≡ live_at now rows =
      sym (live_at-live_at t now claims order.0)
      ∙ ap (live_at now) agree
      ∙ live_at-live_at t now rows order.0 in
    elim (Bool-cases (any (same_nonce r.claimed) (live_at now rows))) [
      | inl seen ↦
          rw (agree', seen)
            (ap (λ t. false ∷ t)
              (answers-from now rs (live_at now rows) rows
                (live_at-live_at now now rows (omega arith)) order.1))
      | inr new ↦
          rw (agree', new)
            (ap (λ t. true ∷ t)
              (answers-from now rs (live_at now rows ++ r.claimed ∷ [])
                (live_at now rows ++ r.claimed ∷ []) refl order.1))
    ]

-- For claims under a clock that never goes back, the table of the store and the dict of the
-- in-memory guard, both empty at first, give the same answers, though a refused claim rolls the
-- purge of expired nonces back in the table only.
pub answers-claim :
    (t : ℤ) (rs : List ClaimRequest)
    → InOrder t rs
    → answers claim rs [] ≡ answers Replay.claim rs []
answers-claim t rs order = answers-from t rs [] [] refl order
