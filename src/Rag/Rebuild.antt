-- ===== src/Rag/Rebuild.antt =====
-- novo_chat/rag_core.py: the chunks of `chunk_text` against the text.
use novo_chat.Base.{
  ℕ, zero, suc, ◌+◌, ◌-◌, max, ◌≤◌, ◌<◌, ◌≡◌, refl, sym, ap, ◌∙◌, inl, inr, Bool-cases, true, false,
  List, [], ◌∷◌, ◌++◌, length, length-drop, take, drop, leb, All, arith,
}
use novo_chat.Rag.Chunks.{is_empty, chunks_from, chunk_tokens}

module _ {A : Type 0} where
  -- The chunks after the first, without what each shares with the one before.
  abbrev pub rest_of : ℕ → List (List A) → List A
  rest_of overlap [] = []
  rest_of overlap (c ∷ cs) = drop overlap c ++ rest_of overlap cs

  -- The text of overlapping chunks.
  abbrev pub rebuild : ℕ → List (List A) → List A
  rebuild overlap [] = []
  rebuild overlap (c ∷ cs) = c ++ rest_of overlap cs

  take-append-drop : (n : ℕ) (xs : List A) → take n xs ++ drop n xs ≡ xs
  take-append-drop zero xs = refl
  take-append-drop (suc n) [] = refl
  take-append-drop (suc n) (x ∷ xs) = ap (λ ys. x ∷ ys) (take-append-drop n xs)

  take_all : (n : ℕ) (xs : List A) → length xs ≤ n → take n xs ≡ xs
  take_all zero [] h = refl
  take_all zero (x ∷ xs) h = absurd (omega (arith, h))
  take_all (suc n) [] h = refl
  take_all (suc n) (x ∷ xs) h = ap (λ ys. x ∷ ys) (take_all n xs (omega (arith, h)))

  append-nil : (xs : List A) → xs ++ [] ≡ xs
  append-nil [] = refl
  append-nil (x ∷ xs) = ap (λ ys. x ∷ ys) (append-nil xs)

  drop-nil : (n : ℕ) → drop {A = A} n [] ≡ []
  drop-nil zero = refl
  drop-nil (suc n) = refl

  drop-drop : (m n : ℕ) (xs : List A) → drop n (drop m xs) ≡ drop (m + n) xs
  drop-drop zero n xs = ap (λ k. drop k xs) (omega arith)
  drop-drop (suc m) n [] = drop-nil n ∙ sym (drop-nil (suc m + n))
  drop-drop (suc m) n (x ∷ xs) =
      let shift : suc (m + n) ≡ suc m + n = omega arith in
      drop-drop m n xs ∙ ap (λ k. drop k (x ∷ xs)) shift

  drop-append : (n : ℕ) (xs ys : List A) → n ≤ length xs → drop n (xs ++ ys) ≡ drop n xs ++ ys
  drop-append zero xs ys h = refl
  drop-append (suc n) [] ys h = absurd (omega (arith, h))
  drop-append (suc n) (x ∷ xs) ys h = drop-append n xs ys (omega (arith, h))

  length-take_le : (n : ℕ) (xs : List A) → n ≤ length xs → length (take n xs) ≡ n
  length-take_le zero xs h = refl
  length-take_le (suc n) [] h = absurd (omega (arith, h))
  length-take_le (suc n) (x ∷ xs) h = omega (arith, length-take_le n xs (omega (arith, h)))

  length-take : (n : ℕ) (xs : List A) → length (take n xs) ≤ n
  length-take zero xs = omega arith
  length-take (suc n) [] = omega arith
  length-take (suc n) (x ∷ xs) = omega (arith, length-take n xs)

  drop_all : (n : ℕ) (xs : List A) → length xs ≤ n → drop n xs ≡ []
  drop_all zero [] h = refl
  drop_all zero (x ∷ xs) h = absurd (omega (arith, h))
  drop_all (suc n) [] h = refl
  drop_all (suc n) (x ∷ xs) h = drop_all n xs (omega (arith, h))

  is_empty-false : (xs : List A) → 0 < length xs → is_empty xs ≡ false
  is_empty-false [] h = absurd (omega (arith, h))
  is_empty-false (x ∷ xs) h = refl

  from_last :
      (words step : ℕ) (tokens : List A) (fuel start : ℕ)
      → start < length tokens
      → length tokens ≤ start + words
      → chunks_from words step tokens (suc fuel) start ≡ drop start tokens ∷ []
  unfolding chunks_from
  from_last words step tokens fuel start inside last =
      let left = length-drop start tokens in
      let here : leb (length tokens) start ≡ false = ground arith in
      let ends : leb (length tokens) (start + words) ≡ true = ground arith in
      rw
        (
          here,
          take_all words (drop start tokens) (omega (arith, left, last)),
          is_empty-false (drop start tokens) (omega (arith, left, inside)),
          ends,
        )
        refl

  from_more :
      (words step : ℕ) (tokens : List A) (fuel start : ℕ)
      → 0 < words
      → start + words < length tokens
      → chunks_from words step tokens (suc fuel) start
        ≡ take words (drop start tokens) ∷ chunks_from words step tokens fuel (start + step)
  unfolding chunks_from
  from_more words step tokens fuel start some_words more =
      let left = length-drop start tokens in
      let size = length-take_le words (drop start tokens) (omega (arith, left, more)) in
      let here : leb (length tokens) start ≡ false = ground arith in
      let goes_on : leb (length tokens) (start + words) ≡ false = ground arith in
      rw
        (
          here,
          is_empty-false (take words (drop start tokens)) (omega (arith, size, some_words)),
          goes_on,
        )
        refl

  -- Chunks from a start that is not past the end: what they rebuild, and what is left of it without
  -- the overlap.
  chunks_from-rebuild :
      (words overlap : ℕ) (tokens : List A) (fuel start : ℕ)
      → overlap < words
      → start < length tokens
      → length tokens ≤ fuel + start
      → let chunks = chunks_from words (words - overlap) tokens fuel start in
        (rebuild overlap chunks ≡ drop start tokens)
        × (rest_of overlap chunks ≡ drop (start + overlap) tokens)
  chunks_from-rebuild words overlap tokens zero start small inside enough =
      absurd (omega (arith, inside, enough))
  chunks_from-rebuild words overlap tokens (suc fuel) start small inside enough =
      let left = length-drop start tokens in
      let step = words - overlap in
      elim (Bool-cases (leb (length tokens) (start + words))) [
        | inl e ↦
            let last : length tokens ≤ start + words = ground arith in
            rw (from_last words step tokens fuel start inside last) (
              append-nil (drop start tokens),
              append-nil (drop overlap (drop start tokens)) ∙ drop-drop start overlap tokens,
            )
        | inr e ↦
            let more : start + words < length tokens = ground arith in
            let size = length-take_le words (drop start tokens) (omega (arith, left, more)) in
            let next : start + step < length tokens = omega (arith, more, small) in
            let (_, later) =
              chunks_from-rebuild words overlap tokens fuel (start + step) small next
                (omega (arith, enough, small)) in
            let position : start + step + overlap ≡ start + words = omega (arith, small) in
            let after : rest_of overlap (chunks_from words step tokens fuel (start + step))
                ≡ drop words (drop start tokens) =
              later ∙ ap (λ k. drop k tokens) position ∙ sym (drop-drop start words tokens) in
            rw (from_more words step tokens fuel start (omega (arith, small)) more, after)
              (
                take-append-drop words (drop start tokens),
                sym (
                      drop-append overlap (take words (drop start tokens))
                        (drop words (drop start tokens)) (omega (arith, size, small)))
                    ∙ ap (drop overlap) (take-append-drop words (drop start tokens))
                    ∙ drop-drop start overlap tokens,
              )
      ]

  -- For an overlap smaller than the window, the chunks are the text: the first chunk, then each later
  -- chunk without its first `overlap` tokens, are the tokens in order, none lost and none added.
  pub rebuild-chunk_tokens :
      (words overlap : ℕ) (tokens : List A)
      → overlap < words
      → rebuild overlap (chunk_tokens words overlap tokens) ≡ tokens
  unfolding chunk_tokens
  rebuild-chunk_tokens words overlap [] small = refl
  rebuild-chunk_tokens words overlap (x ∷ xs) small =
      elim (Bool-cases (leb (length (x ∷ xs)) words)) [
        | inl e ↦ rw e (append-nil (x ∷ xs))
        | inr e ↦
            let step : max 1 (words - overlap) ≡ words - overlap = omega (arith, small) in
            rw e (
              ap (λ k. rebuild overlap (chunks_from words k (x ∷ xs) (length (x ∷ xs)) 0)) step
              ∙ (chunks_from-rebuild words overlap (x ∷ xs) (length (x ∷ xs)) 0 small (omega arith)
                  (omega arith)).0)
      ]

  chunks_from-short :
      (words step : ℕ) (tokens : List A) (fuel start : ℕ)
      → All (λ c. length c ≤ words) (chunks_from words step tokens fuel start)
  unfolding chunks_from
  chunks_from-short words step tokens zero start = tt
  chunks_from-short words step tokens (suc fuel) start =
      let short = length-take words (drop start tokens) in
      let later = chunks_from-short words step tokens fuel (start + step) in
      elim (Bool-cases (leb (length tokens) start)) [
        | inl e ↦ rw e tt
        | inr e ↦ elim (Bool-cases (is_empty (take words (drop start tokens)))) [
          | inl f ↦ rw (e, f) tt
          | inr f ↦ elim (Bool-cases (leb (length tokens) (start + words))) [
            | inl g ↦ rw (e, f, g) (short, tt)
            | inr g ↦ rw (e, f, g) (short, later)
          ]
        ]
      ]

  -- No chunk is longer than the window, whatever the overlap.
  pub chunk_tokens-short :
      (words overlap : ℕ) (tokens : List A)
      → All (λ c. length c ≤ words) (chunk_tokens words overlap tokens)
  unfolding chunk_tokens
  chunk_tokens-short words overlap [] = tt
  chunk_tokens-short words overlap (x ∷ xs) = elim (Bool-cases (leb (length (x ∷ xs)) words)) [
    | inl e ↦ rw e (ground arith, tt)
    | inr e ↦ rw e (chunks_from-short words (max 1 (words - overlap)) (x ∷ xs) (length (x ∷ xs)) 0)
  ]
