-- ===== src/Worker/Framing/Lengths.antt =====
-- novo_chat/worker.py: the comparison of Content-Length as text, and the length of the body.
pub mod Exact
use novo_chat.Base.{
  ℕ, zero, suc, String, ◌+◌, ◌-◌, ◌*◌, ◌≤◌, ◌<◌, ◌≡◌, ◌≢◌, refl, sym, ap, ◌∙◌, Bool, true, false,
  not, ◌&&◌, ◌||◌, List, [], ◌∷◌, ◌++◌, ◌==◌, ◌!=◌, nat_eq, ltb, all, length, if◌then◌else◌, arith,
  Bool-cases, inl, inr,
}
use novo_chat.Base.Result.{Result, ok, err, >>=-eq-ok, raise_if-eq-ok, if-eq-ok, ok-injective}
use novo_chat.Protocol.Tokens.{is_digit}
use novo_chat.Worker.Framing.{
  RawRequest, StreamEnd, complete, client_disconnect, failure, strip_zeros, or_zero, text_greater,
  int_from, is_longer, declared_by, declared_length, read_body, framed_body, at_end,
  request_too_large, unsupported_transfer_encoding, has_transfer_encoding, length_mismatch,
}

-- Texts of decimal digits.
abbrev pub AreDigits : List ℕ → Type 0
AreDigits cs = all is_digit cs ≡ true

-- What `str` makes of a natural number: no zero first, but for the number zero.
abbrev pub IsDecimal : List ℕ → Type 0
IsDecimal [] = ⊥
IsDecimal (c ∷ []) = Unit
IsDecimal (c ∷ d ∷ cs) = (c == b'0') ≡ false

pub digits_tail : (c : ℕ) (cs : List ℕ) → AreDigits (c ∷ cs) → (c ≤ 57) × (48 ≤ c) × AreDigits cs
digits_tail c cs h = (ground (arith, h), ground (arith, h), ground (arith, h))

-- The larger start decides between texts of one length.
int_from-lt :
    (v w : ℕ) (a b : List ℕ)
    → v < w
    → length a ≡ length b
    → AreDigits a
    → AreDigits b
    → int_from v a < int_from w b
unfolding int_from
int_from-lt v w [] [] h same da db = h
int_from-lt v w [] (d ∷ b) h same da db = absurd (omega (arith, same))
int_from-lt v w (c ∷ a) [] h same da db = absurd (omega (arith, same))
int_from-lt v w (c ∷ a) (d ∷ b) h same da db =
    let (c_most, c_least, da') = digits_tail c a da in
    let (d_most, d_least, db') = digits_tail d b db in
    int_from-lt (v * 10 + (c - 48)) (w * 10 + (d - 48)) a b (omega arith) (omega (arith, same)) da'
      db'

-- Texts of one length are ordered as their values are.
text_greater-value :
    (v : ℕ) (a b : List ℕ)
    → length a ≡ length b
    → AreDigits a
    → AreDigits b
    → text_greater a b ≡ ltb (int_from v b) (int_from v a)
unfolding int_from text_greater
text_greater-value v [] [] same da db = ground arith
text_greater-value v [] (d ∷ b) same da db = absurd (omega (arith, same))
text_greater-value v (c ∷ a) [] same da db = absurd (omega (arith, same))
text_greater-value v (c ∷ a) (d ∷ b) same da db =
    let (c_most, c_least, da') = digits_tail c a da in
    let (d_most, d_least, db') = digits_tail d b db in
    let same' : length a ≡ length b = omega (arith, same) in
    elim (Bool-cases (c == d)) [
      | inl e ↦
          let heads : c ≡ d = (nat_eq.equal_iff c d).0 e in
          rw (e, heads) (text_greater-value (v * 10 + (d - 48)) a b same' da' db')
      | inr e ↦ elim (Bool-cases (ltb d c)) [
        | inl more ↦
            let later =
              int_from-lt (v * 10 + (d - 48)) (v * 10 + (c - 48)) b a (ground (arith, more))
                (sym same') db' da' in
            rw (e, more) (ground (arith, later))
        | inr less ↦
            let later =
              int_from-lt (v * 10 + (c - 48)) (v * 10 + (d - 48)) a b (ground (arith, e, less))
                same' da' db' in
            rw (e, less) (ground (arith, later))
      ]
    ]

-- A longer text behind a digit that is not zero is larger.
longer-value :
    (v : ℕ) (a b : List ℕ)
    → 0 < v
    → length b ≤ length a
    → AreDigits a
    → AreDigits b
    → int_from 0 b < int_from v a
unfolding int_from
longer-value v [] b h most da db = int_from-lt 0 v b [] h (omega (arith, most)) db da
longer-value v (c ∷ a) b h most da db = elim (Bool-cases (length b == length (c ∷ a))) [
  | inl e ↦ int_from-lt 0 v b (c ∷ a) h ((nat_eq.equal_iff (length b) (length (c ∷ a))).0 e) db da
  | inr e ↦
      let (c_most, c_least, da') = digits_tail c a da in
      longer-value (v * 10 + (c - 48)) a b (omega arith) (ground (arith, e, most)) da' db
]

longer-decimal :
    (a b : List ℕ)
    → IsDecimal a
    → IsDecimal b
    → length b < length a
    → AreDigits a
    → AreDigits b
    → int_from 0 b < int_from 0 a
unfolding int_from
longer-decimal [] b ca cb h da db = absurd (omega (arith, h))
longer-decimal (c ∷ []) [] ca cb h da db = elim cb [ ]
longer-decimal (c ∷ []) (d ∷ b) ca cb h da db = absurd (omega (arith, h))
longer-decimal (c ∷ c' ∷ a) b ca cb h da db =
    let (c_most, c_least, da') = digits_tail c (c' ∷ a) da in
    longer-value (0 * 10 + (c - 48)) (c' ∷ a) b (ground (arith, ca, c_least)) (omega (arith, h)) da'
      db

-- The test of the texts is the test of the numbers.
pub is_longer-value :
    (a b : List ℕ)
    → IsDecimal a
    → IsDecimal b
    → AreDigits a
    → AreDigits b
    → is_longer a b ≡ ltb (int_from 0 b) (int_from 0 a)
unfolding is_longer
is_longer-value a b ca cb da db = elim (Bool-cases (ltb (length b) (length a))) [
  | inl e ↦
      let value = longer-decimal a b ca cb (ground (arith, e)) da db in rw e (ground (arith, value))
  | inr e ↦ elim (Bool-cases (length a == length b)) [
    | inl same ↦
        rw (e, same)
          (text_greater-value 0 a b ((nat_eq.equal_iff (length a) (length b)).0 same) da db)
    | inr differ ↦
        let value = longer-decimal b a cb ca (ground (arith, e, differ)) db da in
        rw (e, differ) (ground (arith, value))
  ]
]
