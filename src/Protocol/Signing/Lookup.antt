-- ===== src/Protocol/Signing/Lookup.antt =====
-- novo_chat/protocol.py: `_required_header` on the headers that a signer returned, and the tests that
-- its values passed.
use text.Mathlib.TextPositions.{eq_refl}
use novo_chat.Base.{
  ℕ, zero, suc, String, ◌≡◌, refl, sym, ap, ◌∙◌, Bool, true, false, ◌||◌, Option, none, some, List,
  [], ◌∷◌, ◌==◌, ◌!=◌, string_eq, map, contains, distinct, Bool-cases, inl, inr, if◌then◌else◌,
  arith, eq_iff,
}
use novo_chat.Base.Result.{Result, ok, err}
use novo_chat.Protocol.Signing.{
  Library, ProtocolError, authentication_required, Headers, to_result, required_header,
  header_value,
}
use novo_chat.Protocol.Tokens.{is_hex_signature, is_safe_key_id, is_safe_environment, is_safe_token}

-- The element at a position.
abbrev pub nth : {A : Type 0} → ℕ → List A → Option A
nth n [] = none
nth zero (x ∷ xs) = some x
nth (suc n) (x ∷ xs) = nth n xs

none-ne-some : {A : Type 0} {a : A} → none ≡ some a → ⊥
none-ne-some h = cc

some_inj : {A : Type 0} {a b : A} → some a ≡ some b → a ≡ b
some_inj h = cc

false-ne-true : false ≡ true → ⊥
false-ne-true h = cc

pub or_false_parts : (a b : Bool) → (a || b) ≡ false → (a ≡ false) × (b ≡ false)
or_false_parts a b h = ground arith

differs : (s t : String) → (s == t) ≡ false → (t == s) ≡ false
differs s t h = ground (arith, eq_iff s t, eq_iff t s)

module _ (lib : Library) where
  open lib use {lower}

  abbrev pub names : Headers → List String
  names = map (λ h. lower h.0)

  header_value-none :
      (name : String) (headers : Headers)
      → contains (names headers) (lower name) ≡ false
      → header_value lib name headers ≡ none
  unfolding header_value
  header_value-none name [] h = refl
  header_value-none name ((k, v) ∷ headers) h =
      let (here, later) = or_false_parts (lower name == lower k) _ h in
      rw (header_value-none name headers later, differs (lower name) (lower k) here) refl

  distinct_parts :
      (name : String) (rest : List String)
      → distinct (name ∷ rest) ≡ true
      → (contains rest name ≡ false) × (distinct rest ≡ true)
  distinct_parts name rest h = elim (Bool-cases (contains rest name)) [
    | inl e ↦ absurd (false-ne-true (rw e at h))
    | inr e ↦ (e, rw e at h)
  ]

  -- Where no two names are the same in lower case, a header is found under its name.
  header_value-found :
      (n : ℕ) (headers : Headers) {k v : String}
      → distinct (names headers) ≡ true
      → nth n headers ≡ some (k, v)
      → header_value lib k headers ≡ some v
  unfolding header_value
  header_value-found n [] d h = absurd (none-ne-some h)
  header_value-found zero ((k', v') ∷ headers) {k} {v} d h =
      let same : (k', v') ≡ (k, v) = some_inj h in
      let same_k : k' ≡ k = ap (λ t. t.0) same in
      let (alone, _) = distinct_parts (lower k') (names headers) d in
      rw (header_value-none k headers (rw same_k at alone), same_k, eq_refl (lower k))
        (ap (λ t. some (t.1)) same)
  header_value-found (suc n) ((k', v') ∷ headers) {k} {v} d h =
      let (_, d') = distinct_parts (lower k') (names headers) d in
      rw (header_value-found n headers d' h) refl

  -- The refusal of a missing and of an empty value.
  abbrev refuse_empty : Option String → Result ProtocolError String
  refuse_empty found = elim found [
    | none ↦ err authentication_required
    | some value ↦ if value == "" then err authentication_required else ok value
  ]

  refuse_empty-some : (v : String) → (v == "") ≡ false → refuse_empty (some v) ≡ ok v
  refuse_empty-some v e = rw e refl

  pub required_header-found :
      (n : ℕ) (headers : Headers) {k v : String}
      → distinct (names headers) ≡ true
      → nth n headers ≡ some (k, v)
      → (v == "") ≡ false
      → required_header lib k headers ≡ ok v
  unfolding required_header
  required_header-found n headers {k} {v} d h e =
      ap refuse_empty (header_value-found n headers {k = k} {v = v} d h) ∙ refuse_empty-some v e

nonempty_of : (p : String → Bool) (s : String) → p "" ≡ false → p s ≡ true → (s == "") ≡ false
nonempty_of p s empty_fails holds = elim (Bool-cases (s == "")) [
  | inl e ↦
      let same : s ≡ "" = (eq_iff s "").0 e in
      absurd (false-ne-true (sym empty_fails ∙ (rw same at holds)))
  | inr e ↦ e
]

pub safe_key_id-nonempty : (s : String) → is_safe_key_id s ≡ true → (s == "") ≡ false
unfolding is_safe_key_id
safe_key_id-nonempty s h = nonempty_of is_safe_key_id s refl h

pub safe_environment-nonempty : (s : String) → is_safe_environment s ≡ true → (s == "") ≡ false
unfolding is_safe_environment
safe_environment-nonempty s h = nonempty_of is_safe_environment s refl h

pub safe_token-nonempty : (s : String) → is_safe_token s ≡ true → (s == "") ≡ false
unfolding is_safe_token
safe_token-nonempty s h = nonempty_of is_safe_token s refl h

pub hex-nonempty : (s : String) → is_hex_signature s ≡ true → (s == "") ≡ false
unfolding is_hex_signature
hex-nonempty s h = nonempty_of is_hex_signature s refl h

pub differs_self : (s : String) → (s != s) ≡ false
differs_self s = rw (eq_refl s) refl

pub to_result-eq-ok :
    {E A : Type 0} (e : E) (m : Option A) {a : A} → to_result e m ≡ ok a → m ≡ some a
to_result-eq-ok e none h = cc
to_result-eq-ok e (some b) h = cc
