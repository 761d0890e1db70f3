-- ===== src/Rank/SortedSet/Shift.antt =====
-- The two shifts of SortedSet.go as splices: they never panic within the slice's bounds.
use fkgo_server.Base.{
  ℕ, suc, ◌+◌, ◌-◌, ◌≤◌, ◌<◌, min, ◌≡◌, sym, ap, ◌∙◌, some, [], ◌∷◌, ◌++◌, append_assoc, arith,
  length, set, take, drop, length-append, length-take, length-drop, take-append, drop-append,
  append_cons, drop_at, drop-drop, set-take, set-drop, set_at,
}
use fkgo_server.Rank.SortedSet.{Sortpair, SortedSet, copy_within, assign, lshift, rshift}

-- In range, `copy` is a splice.
copy_within_lem :
    (xs : SortedSet) (dst dst_end src src_end n : ℕ)
    → dst ≤ dst_end
    → dst_end ≤ length xs
    → src ≤ src_end
    → src_end ≤ length xs
    → min (dst_end - dst) (src_end - src) ≡ n
    → copy_within xs dst dst_end src src_end
      ≡ some (take dst xs ++ (take n (drop src xs) ++ drop (dst + n) xs))
unfolding copy_within
copy_within_lem xs dst dst_end src src_end n a b c d e = rw (← e) (ground arith)

assign_lem :
    (xs : SortedSet) (i : ℕ) (p : Sortpair) → i < length xs → assign xs i p ≡ some (set xs i p)
unfolding assign
assign_lem xs i p h = ground arith

-- The two shifts in range, in terms of the parts of the slice.
rshift_parts :
    (xs : SortedSet) (i n : ℕ) (p : Sortpair)
    → i + n < length xs
    → rshift xs i (i + n) p
      ≡ some (take i xs ++ (p ∷ (take n (drop i xs) ++ drop (suc (i + n)) xs)))
unfolding rshift
rshift_parts xs i n p h =
    let e : i + 1 ≡ suc i = omega arith in
    let e' : suc i + n ≡ suc (i + n) = omega arith in
    let rest = take n (drop i xs) ++ drop (suc (i + n)) xs in
    let in_range : i < length (take (suc i) xs ++ rest) =
      omega (arith, length-append (take (suc i) xs) rest, length-take (suc i) xs) in
    rw (
      copy_within_lem xs (i + 1) (i + n + 1) i (i + n + 1) n (omega arith) (omega arith)
          (omega arith) (omega arith) (omega arith),
      e,
      e',
      rshift,
      assign_lem _ i p in_range,
      set-take i xs rest p (omega arith),
    )

lshift_parts :
    (xs : SortedSet) (i n : ℕ) (p : Sortpair)
    → i + n < length xs
    → lshift xs i (i + n) p
      ≡ some (take i xs ++ (take n (drop (suc i) xs) ++ (p ∷ drop (suc (i + n)) xs)))
unfolding lshift
lshift_parts xs i n p h =
    let e : i + 1 ≡ suc i = omega arith in
    let before = take i xs in
    let moved = take n (drop (suc i) xs) in
    let rest = drop (i + n) xs in
    let i_len : length before ≡ i = omega (arith, length-take i xs) in
    let n_len : length moved ≡ n =
      omega (arith, length-take n (drop (suc i) xs), length-drop (suc i) xs) in
    let in_range : i + n < length (before ++ (moved ++ rest)) = omega (
      arith,
      length-append before (moved ++ rest),
      length-append moved rest,
      length-drop (i + n) xs,
    ) in
    rw (
      copy_within_lem xs i (i + n + 1) (i + 1) (i + n + 1) n (omega arith) (omega arith)
          (omega arith) (omega arith) (omega arith),
      lshift,
      e,
      assign_lem _ (i + n) p in_range,
      set_at before (moved ++ rest) (i + n) n p (omega arith),
      set_at moved rest n 0 p (omega arith),
      set-drop (i + n) xs p h,
    )

-- An entry after `xs` and `ys` moves before `ys`.
pub rshift_lem :
    (xs ys zs : SortedSet) (q p : Sortpair)
    → rshift (xs ++ (ys ++ (q ∷ zs))) (length xs) (length xs + length ys) p
      ≡ some (xs ++ (p ∷ (ys ++ zs)))
rshift_lem xs ys zs q p =
    let whole = xs ++ (ys ++ (q ∷ zs)) in
    let in_range : length xs + length ys < length whole =
      omega (arith, length-append xs (ys ++ (q ∷ zs)), length-append ys (q ∷ zs)) in
    let after : drop (suc (length xs + length ys)) whole ≡ zs = rw (
      ← append_assoc xs ys (q ∷ zs),
      ← append_cons (xs ++ ys) q zs,
      drop_at (suc (length xs + length ys)) ((xs ++ ys) ++ (q ∷ [])) zs
          (omega (arith, length-append (xs ++ ys) (q ∷ []), length-append xs ys)),
    ) in
    rshift_parts whole (length xs) (length ys) p in_range
    ∙ rw (take-append, drop-append, take-append, after)

-- An entry between `xs` and `ys` moves after `ys`.
pub lshift_lem :
    (xs ys zs : SortedSet) (q p : Sortpair)
    → lshift (xs ++ (q ∷ (ys ++ zs))) (length xs) (length xs + length ys) p
      ≡ some (xs ++ (ys ++ (p ∷ zs)))
lshift_lem xs ys zs q p =
    let whole = xs ++ (q ∷ (ys ++ zs)) in
    let in_range : length xs + length ys < length whole =
      omega (arith, length-append xs (q ∷ (ys ++ zs)), length-append ys zs) in
    let middle : drop (suc (length xs)) whole ≡ ys ++ zs = rw (
      ← append_cons xs q (ys ++ zs),
      drop_at (suc (length xs)) (xs ++ (q ∷ [])) (ys ++ zs)
          (omega (arith, length-append xs (q ∷ []))),
    ) in
    let after : drop (suc (length xs + length ys)) whole ≡ zs =
      let e : suc (length xs + length ys) ≡ suc (length xs) + length ys = omega arith in
      ap (λ k. drop k whole) e
      ∙ sym (drop-drop (length ys) (suc (length xs)) whole)
      ∙ rw (middle, drop-append) in
    lshift_parts whole (length xs) (length ys) p in_range
    ∙ rw (take-append, middle, take-append, after)
