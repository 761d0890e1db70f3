-- ===== src/WordFilter/Clean.antt =====
-- What `Filter` does to a text that the segmenter has cut into words.
use fkgo_server.Base.{
  ℕ, zero, suc, ◌+◌, ◌-◌, ◌≤◌, ◌≡◌, refl, sym, ap, ◌∙◌, inl, inr, Bool, true, ◌&&◌, some, List, [],
  ◌∷◌, ◌++◌, append_assoc, append-nil, arith, length, take, drop, replicate, length-append,
  length-replicate, leb, if◌then◌else◌, Bool-cases,
}
use fkgo_server.Base.Map.{GoMap, lookup, bytes_eq}
use fkgo_server.WordFilter.{
  replace_to, replace_count, holds, slice_of, clean_word, filter_next, clean_at, filter_from,
  filter,
}

abbrev pub joined : List (List ℕ) → List ℕ
joined [] = []
joined (w ∷ words) = w ++ joined words

-- The words of a text by start and end, the first one at `n`.
abbrev pub spans : ℕ → List (List ℕ) → List (ℕ × ℕ)
spans n [] = []
spans n (w ∷ words) = (n, n + length w) ∷ spans (n + length w) words

slice_of-middle :
    (xs ys zs : List ℕ) (n : ℕ)
    → n ≡ length xs
    → slice_of (xs ++ (ys ++ zs)) n (n + length ys) ≡ some ys
unfolding slice_of
slice_of-middle xs ys zs n e =
    let inside : leb n (n + length ys) && leb (n + length ys) (length (xs ++ (ys ++ zs))) ≡ true =
      ground (arith, length-append xs (ys ++ zs), length-append ys zs) in
    let size : n + length ys - n ≡ length ys = omega arith in
    rw (inside, size)
      (ap some (
        ap (take (length ys)) (ap (λ i. drop i (xs ++ (ys ++ zs))) e ∙ drop_here xs (ys ++ zs))
        ∙ take_here ys zs))
  where
    drop_here : (xs ys : List ℕ) → drop (length xs) (xs ++ ys) ≡ ys
    drop_here [] ys = refl
    drop_here (x ∷ xs) ys = drop_here xs ys

    take_here : (xs ys : List ℕ) → take (length xs) (xs ++ ys) ≡ xs
    take_here [] ys = refl
    take_here (x ∷ xs) ys = ap (λ l. x ∷ l) (take_here xs ys)

slice_of-front : (xs : List ℕ) (n : ℕ) → n ≤ length xs → slice_of xs 0 n ≡ some (take n xs)
unfolding slice_of
slice_of-front xs n h =
    let inside : leb 0 n && leb n (length xs) ≡ true = ground arith in
    let size : n - 0 ≡ n = omega arith in rw (inside, size) refl

module _ (to_upper trim_space : List ℕ → List ℕ) (rune_count : List ℕ → ℕ) (spare : List ℕ)
    (dirty_words : GoMap (List ℕ) Bool) where
  -- A star for each character of a dirty word.
  abbrev pub starred : List ℕ → List ℕ
  starred w =
      if holds (lookup (to_upper w) dirty_words) then replicate (rune_count w) replace_to else w

  abbrev pub all_starred : List (List ℕ) → List (List ℕ)
  all_starred [] = []
  all_starred (w ∷ words) = starred w ∷ all_starred words

  -- No word has more than 50 characters.
  abbrev pub Short : List (List ℕ) → Type 0
  Short [] = Unit
  Short (w ∷ words) = (rune_count w ≤ replace_count) × Short words

  stars :
      (n m : ℕ) (xs : List ℕ)
      → n ≤ m
      → take n (replicate m replace_to ++ xs) ≡ replicate n replace_to
  stars zero m xs h = refl
  stars (suc n) zero xs h = absurd (omega arith)
  stars (suc n) (suc m) xs h = ap (λ l. replace_to ∷ l) (stars n m xs (omega arith))

  wide : {n : ℕ} → n ≤ replace_count → n ≤ length (replicate replace_count replace_to ++ spare)
  wide h = omega (
    arith,
    length-append (replicate replace_count replace_to) spare,
    length-replicate replace_count replace_to,
  )

  clean_word_lem :
      (w : List ℕ)
      → rune_count w ≤ replace_count
      → clean_word to_upper trim_space rune_count spare dirty_words w ≡ some (starred w)
  unfolding clean_word slice_of
  clean_word_lem w h = elim (Bool-cases (holds (lookup (to_upper w) dirty_words))) [
    | inl dirty ↦
        let all = replicate replace_count replace_to ++ spare in
        let inside : rune_count w ≤ length all = wide h in
        rw dirty (
          slice_of-front all (rune_count w) inside
          ∙ ap some (stars (rune_count w) replace_count spare h))
    | inr fine ↦ rw fine refl
  ]

  filter_from_lem :
      (front : List ℕ) (words : List (List ℕ)) (n : ℕ) (clean : List ℕ)
      → n ≡ length front
      → Short words
      → filter_from to_upper trim_space rune_count spare dirty_words
          (front ++ joined words)
          (spans n words)
          clean
        ≡ some (clean ++ joined (all_starred words))
  unfolding filter_from filter_next clean_at
  filter_from_lem front [] n clean e short = ap some (sym (append-nil clean))
  filter_from_lem front (w ∷ words) n clean e (h, short) =
      let rest =
        filter_from to_upper trim_space rune_count spare dirty_words (front ++ (w ++ joined words))
          (spans (n + length w) words) in
      ap
        (λ o.
          filter_next to_upper trim_space rune_count spare rest clean
            (clean_at to_upper trim_space rune_count spare dirty_words o))
        (slice_of-middle front w (joined words) n e)
      ∙ ap (filter_next to_upper trim_space rune_count spare rest clean) (clean_word_lem w h)
      ∙ ap
          (λ bin.
            filter_from to_upper trim_space rune_count spare dirty_words bin
              (spans (n + length w) words) (clean ++ starred w))
          (sym (append_assoc front w (joined words)))
      ∙ filter_from_lem (front ++ w) words (n + length w) (clean ++ starred w)
          (omega (arith, e, length-append front w)) short
      ∙ ap some (append_assoc clean (starred w) (joined (all_starred words)))

  -- A text that is cut into words of at most 50 characters each: `Filter` does not panic, and gives the same
  -- words in order, with a star for each character of a word that is dirty in upper case.
  pub filter_correct :
      (words : List (List ℕ))
      → Short words
      → filter to_upper trim_space rune_count spare dirty_words (joined words) (spans 0 words)
        ≡ some (joined (all_starred words))
  unfolding filter
  filter_correct words short = filter_from_lem [] words 0 [] refl short
