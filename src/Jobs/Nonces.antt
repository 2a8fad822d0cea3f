-- ===== src/Jobs/Nonces.antt =====
-- novo_chat/jobs.py: `JobStore.claim`, over the table `replay_nonces`.
pub mod Once
use novo_chat.Base.{Bool, true, false, List, [], ◌∷◌, ◌++◌, any, if◌then◌else◌}
use novo_chat.Protocol.Replay.{Nonce, ClaimRequest, same_nonce, live_at}

-- The INSERT meets the primary key, and the transaction with its DELETE is rolled back; or it
-- commits.
unfoldable pub claim : ClaimRequest → List Nonce → Bool × List Nonce
claim r rows =
    let kept = live_at r.seen_at rows in
    if any (same_nonce r.claimed) kept then (false, rows) else (true, kept ++ r.claimed ∷ [])
