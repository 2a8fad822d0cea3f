-- ===== src/Rag/Diversify/Ranking.antt =====
-- novo_chat/rag_core.py: `diversify_by_page` and the ranking that it takes its items from.
use novo_chat.Base.{
  ℕ, zero, suc, String, ◌+◌, ◌<◌, ◌≤◌, ◌≡◌, min, refl, sym, ap, ◌∙◌, inl, inr, true, false,
  Bool-cases, List, [], ◌∷◌, ◌++◌, length, length-append, take, count_if, count_if-append, ◌==◌,
  string_eq, eq_iff, leb, ltb, arith, if◌then◌else◌,
}
use mathlib.Core.List.{append_assoc, append-nil}
use novo_chat.Rag.Diversify.{page_count, set_count, Ranked, fill, select, diversify_by_page}

module _ {A : Type 0} where
  take-short : (n : ℕ) (xs : List A) → length xs ≤ n → take n xs ≡ xs
  take-short zero [] h = refl
  take-short zero (x ∷ xs) h = absurd (omega (arith, h))
  take-short (suc n) [] h = refl
  take-short (suc n) (x ∷ xs) h = ap (λ rest. x ∷ rest) (take-short n xs (omega (arith, h)))

  take-append : (n : ℕ) (xs ys : List A) → length xs ≡ n → take n (xs ++ ys) ≡ xs
  take-append zero [] ys h = refl
  take-append zero (x ∷ xs) ys h = absurd (omega (arith, h))
  take-append (suc n) [] ys h = absurd (omega (arith, h))
  take-append (suc n) (x ∷ xs) ys h = ap (λ rest. x ∷ rest) (take-append n xs ys (omega (arith, h)))

page_count-set_count :
    (p q : String) (n : ℕ) (counts : List (String × ℕ))
    → page_count q (set_count p n counts) ≡ (if p == q then n else page_count q counts)
unfolding page_count set_count
page_count-set_count p q n [] = refl
page_count-set_count p q n ((r, m) ∷ counts) = elim (Bool-cases (r == p)) [
  | inl e ↦
      let same : r ≡ p = (eq_iff r p).0 e in
      rw (e, same) (elim (Bool-cases (p == q)) [ inl f ↦ rw f refl | inr f ↦ rw f refl ])
  | inr e ↦
      rw (e, page_count-set_count p q n counts)
        (elim (Bool-cases (p == q)) [
          | inl f ↦ let same : p ≡ q = (eq_iff p q).0 f in rw (f, rw same at e) refl
          | inr f ↦ rw f refl
        ])
]

module _ {Score : Type 0} (page_of : ℕ → String) (count max_per_page : ℕ) where
  -- How many of these items are of the page.
  abbrev pub on_page : String → Ranked Score → ℕ
  on_page page = count_if (λ item. page_of item.0 == page)

  -- The items that have fewer than the limit of their page before them.
  abbrev pub within_limit : Ranked Score → Ranked Score → Ranked Score
  within_limit earlier [] = []
  within_limit earlier (item ∷ ranked) =
      let rest = within_limit (earlier ++ item ∷ []) ranked in
      if ltb (on_page (page_of item.0) earlier) max_per_page then item ∷ rest else rest

  -- The other items.
  abbrev pub beyond_limit : Ranked Score → Ranked Score → Ranked Score
  beyond_limit earlier [] = []
  beyond_limit earlier (item ∷ ranked) =
      let rest = beyond_limit (earlier ++ item ∷ []) ranked in
      if ltb (on_page (page_of item.0) earlier) max_per_page then rest else item ∷ rest

  fill-take :
      (selected deferred : Ranked Score)
      → length selected < count
      → fill count selected deferred ≡ take count (selected ++ deferred)
  unfolding fill
  fill-take selected [] h = sym (
      take-short count (selected ++ []) (rw (append-nil selected) (omega (arith, h)))
      ∙ append-nil selected)
  fill-take selected (item ∷ deferred) h =
      let one = length-append selected (item ∷ []) in
      let moved = append_assoc selected (item ∷ []) deferred in
      elim (Bool-cases (leb count (length (selected ++ item ∷ [])))) [
        | inl e ↦ rw e (
            sym (take-append count (selected ++ item ∷ []) deferred (ground arith))
            ∙ ap (take count) moved)
        | inr e ↦
            rw e (fill-take (selected ++ item ∷ []) deferred (ground arith) ∙ ap (take count) moved)
      ]

  -- `per_page` counts the items of a page so far, up to the limit.
  abbrev Counts : Ranked Score → List (String × ℕ) → Type 0
  Counts earlier per_page =
      (page : String) → page_count page per_page ≡ min max_per_page (on_page page earlier)

  on_page-append :
      (page : String) (earlier : Ranked Score) (item : ℕ × Score)
      → on_page page (earlier ++ item ∷ [])
        ≡ on_page page earlier + (if page_of item.0 == page then 1 else 0)
  on_page-append page earlier item =
      count_if-append (λ i. page_of i.0 == page) earlier (item ∷ []) ∙ ground arith

  Counts-taken :
      (earlier : Ranked Score) (item : ℕ × Score) (per_page : List (String × ℕ))
      → Counts earlier per_page
      → ltb (page_count (page_of item.0) per_page) max_per_page ≡ true
      → Counts
          (earlier ++ item ∷ [])
          (set_count (page_of item.0) (suc (page_count (page_of item.0) per_page)) per_page)
  Counts-taken earlier item per_page c e page =
      let here = c (page_of item.0) in
      let there = c page in
      let more = on_page-append page earlier item in
      page_count-set_count (page_of item.0) page (suc (page_count (page_of item.0) per_page))
        per_page
      ∙ elim (Bool-cases (page_of item.0 == page)) [
        | inl f ↦
            let same : page_of item.0 ≡ page = (eq_iff (page_of item.0) page).0 f in
            let at : page_count (page_of item.0) per_page
                ≡ min max_per_page (on_page page earlier) =
              ap (λ p. page_count p per_page) same ∙ there in
            rw f (ground (arith, at, e, more, f))
        | inr f ↦ rw f (ground (arith, there, more, f))
      ]

  Counts-passed :
      (earlier : Ranked Score) (item : ℕ × Score) (per_page : List (String × ℕ))
      → Counts earlier per_page
      → ltb (page_count (page_of item.0) per_page) max_per_page ≡ false
      → Counts (earlier ++ item ∷ []) per_page
  Counts-passed earlier item per_page c e page =
      let there = c page in
      let more = on_page-append page earlier item in
      elim (Bool-cases (page_of item.0 == page)) [
        | inl f ↦
            let same : page_of item.0 ≡ page = (eq_iff (page_of item.0) page).0 f in
            let full : ltb (page_count page per_page) max_per_page ≡ false = rw same at e in
            ground (arith, there, more, full, f)
        | inr f ↦ ground (arith, there, more, f)
      ]

  ltb-Counts :
      (earlier : Ranked Score) (item : ℕ × Score) (per_page : List (String × ℕ))
      → Counts earlier per_page
      → ltb (on_page (page_of item.0) earlier) max_per_page
        ≡ ltb (page_count (page_of item.0) per_page) max_per_page
  ltb-Counts earlier item per_page c = let here = c (page_of item.0) in ground (arith, here)

  -- The loop from any point of the ranking on.
  select-take :
      (earlier ranked selected deferred : Ranked Score) (per_page : List (String × ℕ))
      → Counts earlier per_page
      → length selected < count
      → select page_of count max_per_page ranked selected deferred per_page
        ≡ take count
            (selected ++ (within_limit earlier ranked ++ (deferred ++ beyond_limit earlier ranked)))
  unfolding select
  select-take earlier [] selected deferred per_page c h =
      fill-take selected deferred h
      ∙ ap (λ rest. take count (selected ++ rest)) (sym (append-nil deferred))
  select-take earlier (item ∷ ranked) selected deferred per_page c h =
      let test = ltb-Counts earlier item per_page c in
      let n = page_count (page_of item.0) per_page in
      let one = length-append selected (item ∷ []) in
      let within = within_limit (earlier ++ item ∷ []) ranked in
      let beyond = beyond_limit (earlier ++ item ∷ []) ranked in
      elim (Bool-cases (ltb n max_per_page)) [
        | inl e ↦
            let moved = append_assoc selected (item ∷ []) (within ++ (deferred ++ beyond)) in
            elim (Bool-cases (leb count (length (selected ++ item ∷ [])))) [
              | inl f ↦
                  rw (test, e, f)
                    (sym (take-append count (selected ++ item ∷ []) _ (ground arith))
                      ∙ ap (take count) moved)
              | inr f ↦
                  rw (test, e, f)
                    (select-take (earlier ++ item ∷ []) ranked (selected ++ item ∷ []) deferred
                        (set_count (page_of item.0) (suc n) per_page)
                        (Counts-taken earlier item per_page c e) (ground arith)
                      ∙ ap (take count) moved)
            ]
        | inr e ↦ elim (Bool-cases (leb count (length selected))) [
          | inl f ↦ absurd (ground arith)
          | inr f ↦
              rw (test, e, f)
                (select-take (earlier ++ item ∷ []) ranked selected (deferred ++ item ∷ []) per_page
                    (Counts-passed earlier item per_page c e) h
                  ∙ ap (λ rest. take count (selected ++ (within ++ rest)))
                      (append_assoc deferred (item ∷ []) beyond))
        ]
      ]

  -- For a positive count, the selection is the first `count` items of the ranking in this order: first
  -- the items with fewer than `max_per_page` items of their page ranked before them, then the others,
  -- each of the two in the order of rank.
  pub diversify_by_page-ranked :
      (ranked : Ranked Score)
      → 0 < count
      → diversify_by_page page_of count max_per_page ranked
        ≡ take count (within_limit [] ranked ++ beyond_limit [] ranked)
  unfolding diversify_by_page page_count
  diversify_by_page-ranked ranked h = select-take [] ranked [] [] [] (λ page. ground arith) h
