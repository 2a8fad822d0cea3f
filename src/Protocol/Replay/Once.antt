-- ===== src/Protocol/Replay/Once.antt =====
-- novo_chat/protocol.py: what a list of nonces remembers, and InMemoryReplayGuard as a ReplayGuard.
use text.Mathlib.TextPositions.{eq_refl}
use novo_chat.Base.{
  ◌≡◌, Bool, true, false, not, ◌&&◌, List, [], ◌∷◌, ◌++◌, arith, eq_iff, string_eq, inl, inr,
  Bool-cases, any, or-true_left, or-true_right,
}
use novo_chat.Base.Int.{ltb_ℤ, ◌≤ℤ◌, ℤ}
use novo_chat.Protocol.Replay.{
  Nonce, ClaimRequest, same_nonce, is_live, live_at, claim, SameNonce, ReplayGuard,
}

-- A row of the nonce that lives as long as `n`.
abbrev pub outlives : Nonce → Nonce → Bool
outlives n m = same_nonce n m && not (ltb_ℤ m.expires_at n.expires_at)

abbrev pub Remembered : Nonce → List Nonce → Type 0
Remembered n rows = any (outlives n) rows ≡ true

outlives_self : (n : Nonce) → outlives n n ≡ true
outlives_self n = rw (eq_refl, eq_refl, eq_refl) (ground arith)

outlives-is_live :
    (seen : ℤ) (n m : Nonce) → seen ≤ℤ n.expires_at → outlives n m ≡ true → is_live seen m ≡ true
outlives-is_live seen n m h k = ground arith

pub Remembered-live_at :
    (seen : ℤ) (n : Nonce) (rows : List Nonce)
    → seen ≤ℤ n.expires_at
    → Remembered n rows
    → Remembered n (live_at seen rows)
unfolding live_at
Remembered-live_at seen n [] h k = k
Remembered-live_at seen n (m ∷ rows) h k = elim (Bool-cases (outlives n m)) [
  | inl e ↦ rw (outlives-is_live seen n m h e) (or-true_left _ _ e)
  | inr e ↦
      let later : Remembered n rows = rw e at k in
      elim (Bool-cases (is_live seen m)) [
        | inl l ↦ rw l (or-true_right _ _ (Remembered-live_at seen n rows h later))
        | inr l ↦ rw l (Remembered-live_at seen n rows h later)
      ]
]

pub Remembered-append :
    (n m : Nonce) (rows : List Nonce) → Remembered n rows → Remembered n (rows ++ m ∷ [])
Remembered-append n m [] h = cc
Remembered-append n m (x ∷ rows) h = ground (arith, Remembered-append n m rows)

pub Remembered-new : (n : Nonce) (rows : List Nonce) → Remembered n (rows ++ n ∷ [])
Remembered-new n [] = or-true_left _ _ (outlives_self n)
Remembered-new n (x ∷ rows) = or-true_right _ _ (Remembered-new n rows)

same_nonce_trans :
    (r n m : Nonce) → same_nonce r n ≡ true → same_nonce n m ≡ true → same_nonce r m ≡ true
same_nonce_trans r n m h k =
    ground
      (arith, eq_iff r.environment n.environment, eq_iff r.key_id n.key_id, eq_iff r.nonce n.nonce)

pub Remembered-any :
    (r n : Nonce) (rows : List Nonce)
    → same_nonce r n ≡ true
    → Remembered n rows
    → any (same_nonce r) rows ≡ true
Remembered-any r n [] h k = cc
Remembered-any r n (m ∷ rows) h k =
    ground (arith, same_nonce_trans r n m h, Remembered-any r n rows h)

pub claim-accepted :
    (r : ClaimRequest) (rows : List Nonce)
    → (claim r rows).0 ≡ true
    → Remembered r.claimed (claim r rows).1
unfolding claim
claim-accepted r rows h = ground (arith, Remembered-new r.claimed (live_at r.seen_at rows))

pub claim-kept :
    (r : ClaimRequest) (n : Nonce) (rows : List Nonce)
    → r.seen_at ≤ℤ n.expires_at
    → Remembered n rows
    → Remembered n (claim r rows).1
unfolding claim
claim-kept r n rows h k = ground (
  arith,
  Remembered-live_at r.seen_at n rows h k,
  Remembered-append n r.claimed (live_at r.seen_at rows),
)

pub claim-refused :
    (r : ClaimRequest) (n : Nonce) (rows : List Nonce)
    → SameNonce r.claimed n
    → r.seen_at ≤ℤ n.expires_at
    → Remembered n rows
    → (claim r rows).0 ≡ false
unfolding claim
claim-refused r n rows same h k = rw (
    Remembered-any r.claimed n (live_at r.seen_at rows) same
      (Remembered-live_at r.seen_at n rows h k))

abbrev pub in_memory_guard : ReplayGuard
in_memory_guard = record {
  State = List Nonce;
  claim_nonce = claim;
  Remembers = Remembered;
  accepted = claim-accepted;
  kept = claim-kept;
  refused = claim-refused;
}
