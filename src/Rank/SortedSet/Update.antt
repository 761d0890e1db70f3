-- ===== src/Rank/SortedSet/Update.antt =====
-- `Update` of SortedSet.go on each of its branches: the entry goes up, stays, becomes the lowest,
-- or falls behind a lower entry that is not the last place.
use fkgo_server.Base.{
  ℕ, suc, ◌+◌, ◌-◌, ◌<◌, ◌≡◌, refl, sym, ap, ap₂, ◌∙◌, subst, ◌≢◌, none, some, [], ◌∷◌, ◌++◌,
  append_assoc, append-nil, arith, length, length-append, append_cons, set_at,
}
use fkgo_server.Base.Int.{ℤ, ◌≤ℤ◌, ◌<ℤ◌, eqb_ℤ_refl, eqb_ℤ_ne}
use fkgo_server.Rank.SortedSet.{
  SortedSet, note, both_set, scan_from, Sortpair, move, update, rshift, lshift, assign,
}
use fkgo_server.Rank.SortedSet.Order.{
  AtLeast, Absent, IsSorted, Falls, place, place-IsSorted, place_at, place_split, AtMost-behind,
  IsSorted-without, Falls-AtMost, not-IsSorted,
}
use fkgo_server.Rank.SortedSet.Shift.{rshift_lem, lshift_lem}

-- Entries that set neither index.
scan_from-skip :
    (id s : ℤ) (k : ℕ) (xs ys : SortedSet)
    → Absent id xs
    → AtLeast s xs
    → scan_from id s k (xs ++ ys) (none, none) ≡ scan_from id s (k + length xs) ys (none, none)
unfolding scan_from note both_set
scan_from-skip id s k [] ys a b = ap (λ n. scan_from id s n ys (none, none)) (omega arith)
scan_from-skip id s k (x ∷ xs) ys a b =
    let e : k + suc (length xs) ≡ k + 1 + length xs = omega arith in
    rw e (ground (arith, scan_from-skip id s (k + 1) xs ys a.1 b.1, eqb_ℤ_ne x.id id a.0))

-- Entries behind the id that do not score less.
scan_from-high :
    (id s : ℤ) (k i : ℕ) (xs ys : SortedSet)
    → AtLeast s xs
    → scan_from id s k (xs ++ ys) (some i, none) ≡ scan_from id s (k + length xs) ys (some i, none)
unfolding scan_from note both_set
scan_from-high id s k i [] ys b = ap (λ n. scan_from id s n ys (some i, none)) (omega arith)
scan_from-high id s k i (x ∷ xs) ys b =
    let e : k + suc (length xs) ≡ k + 1 + length xs = omega arith in
    rw e (ground (arith, scan_from-high id s (k + 1) i xs ys b.1))

-- Entries behind the insert point without the id.
scan_from-Absent :
    (id s : ℤ) (k i : ℕ) (xs ys : SortedSet)
    → Absent id xs
    → scan_from id s k (xs ++ ys) (none, some i) ≡ scan_from id s (k + length xs) ys (none, some i)
unfolding scan_from note both_set
scan_from-Absent id s k i [] ys b = ap (λ n. scan_from id s n ys (none, some i)) (omega arith)
scan_from-Absent id s k i (x ∷ xs) ys b =
    let e : k + suc (length xs) ≡ k + 1 + length xs = omega arith in
    rw e (ground (arith, scan_from-Absent id s (k + 1) i xs ys b.1, eqb_ℤ_ne x.id id b.0))

-- What the scan finds behind entries that set neither index: the insert point first, the id first
-- with an insert point behind it, and the id with no insert point.
module _ (p q : Sortpair) (xs : SortedSet) (same : q.id ≡ p.id) (here : Absent p.id xs)
    (high : AtLeast p.score xs) where
  scan_up :
      (r : Sortpair) (ys zs : SortedSet)
      → r.id ≢ p.id
      → Absent p.id ys
      → r.score <ℤ p.score
      → scan_from p.id p.score 0 (xs ++ (r ∷ (ys ++ (q ∷ zs)))) (none, none)
        ≡ (some (0 + length xs + 1 + length ys), some (0 + length xs))
  unfolding scan_from note both_set
  scan_up r ys zs other a low =
      scan_from-skip p.id p.score 0 xs (r ∷ (ys ++ (q ∷ zs))) here high
      ∙ ground (
        arith,
        scan_from-Absent p.id p.score (0 + length xs + 1) (0 + length xs) ys (q ∷ zs) a,
        eqb_ℤ_ne r.id p.id other,
        eqb_ℤ_refl p.id,
      )

  scan_raised :
      (zs : SortedSet)
      → q.score <ℤ p.score
      → scan_from p.id p.score 0 (xs ++ (q ∷ zs)) (none, none)
        ≡ (some (0 + length xs), some (0 + length xs))
  unfolding scan_from note both_set
  scan_raised zs low =
      scan_from-skip p.id p.score 0 xs (q ∷ zs) here high ∙ ground (arith, eqb_ℤ_refl p.id)

  scan_down :
      (ys : SortedSet) (r : Sortpair) (zs : SortedSet)
      → p.score ≤ℤ q.score
      → AtLeast p.score ys
      → r.score <ℤ p.score
      → scan_from p.id p.score 0 (xs ++ (q ∷ (ys ++ (r ∷ zs)))) (none, none)
        ≡ (some (0 + length xs), some (0 + length xs + 1 + length ys))
  unfolding scan_from note both_set
  scan_down ys r zs le a low =
      scan_from-skip p.id p.score 0 xs (q ∷ (ys ++ (r ∷ zs))) here high
      ∙ ground (
        arith,
        scan_from-high p.id p.score (0 + length xs + 1) (0 + length xs) ys (r ∷ zs) a,
        eqb_ℤ_refl p.id,
      )

  scan_last :
      (ys : SortedSet)
      → p.score ≤ℤ q.score
      → AtLeast p.score ys
      → scan_from p.id p.score 0 (xs ++ (q ∷ (ys ++ []))) (none, none)
        ≡ (some (0 + length xs), none)
  unfolding scan_from note both_set
  scan_last ys le a =
      scan_from-skip p.id p.score 0 xs (q ∷ (ys ++ [])) here high
      ∙ ground (
        arith,
        scan_from-high p.id p.score (0 + length xs + 1) (0 + length xs) ys [] a,
        eqb_ℤ_refl p.id,
      )

update_found :
    (ss : SortedSet) (id score : ℤ) (i k : ℕ)
    → scan_from id score 0 ss (none, none) ≡ (some i, some k)
    → update ss id score ≡ move ss i k (record { id = id; score = score })
unfolding update
update_found ss id score i k h = rw (h, update, h)

update_unfound :
    (ss : SortedSet) (id score : ℤ) (i : ℕ)
    → scan_from id score 0 ss (none, none) ≡ (some i, none)
    → update ss id score ≡ move ss i (length ss - 1) (record { id = id; score = score })
unfolding update
update_unfound ss id score i h = rw (h, update, h)

move_up : (ss : SortedSet) (i k : ℕ) (p : Sortpair) → k < i → move ss i k p ≡ rshift ss k i p
unfolding move
move_up ss i k p h = ground arith

move_down : (ss : SortedSet) (i k : ℕ) (p : Sortpair) → i < k → move ss i k p ≡ lshift ss i k p
unfolding move
move_down ss i k p h = ground arith

move_stay :
    (xs : SortedSet) (q p : Sortpair) (zs : SortedSet) (i k : ℕ)
    → i ≡ length xs
    → k ≡ length xs
    → move (xs ++ (q ∷ zs)) i k p ≡ some (xs ++ (p ∷ zs))
unfolding move assign
move_stay xs q p zs i k e e' = ground (arith, length-append xs (q ∷ zs), set_at xs (q ∷ zs) i 0 p)

module _ (p q : Sortpair) (xs : SortedSet) (same : q.id ≡ p.id) (here : Absent p.id xs)
    (high : AtLeast p.score xs) where
  -- An entry that rises above `r` goes right before it.
  update_up :
      (r : Sortpair) (ys zs : SortedSet)
      → r.id ≢ p.id
      → Absent p.id ys
      → r.score <ℤ p.score
      → update (xs ++ (r ∷ (ys ++ (q ∷ zs)))) p.id p.score ≡ some (xs ++ (p ∷ ((r ∷ ys) ++ zs)))
  update_up r ys zs other a low =
      let whole = xs ++ (r ∷ (ys ++ (q ∷ zs))) in
      update_found whole p.id p.score _ _ (scan_up p q xs same here high r ys zs other a low)
      ∙ move_up whole _ _ p (omega arith)
      ∙ ap₂ (λ k i. rshift whole k i p) (omega arith) (omega arith)
      ∙ rshift_lem xs (r ∷ ys) zs q p

  -- An entry that rises above no other stays where it is.
  update_stay :
      (zs : SortedSet)
      → q.score <ℤ p.score
      → update (xs ++ (q ∷ zs)) p.id p.score ≡ some (xs ++ (p ∷ zs))
  update_stay zs low =
      update_found (xs ++ (q ∷ zs)) p.id p.score _ _ (scan_raised p q xs same here high zs low)
      ∙ move_stay xs q p zs _ _ (omega arith) (omega arith)

  -- An entry that does not rise, with a lower one behind it, goes behind the lower one.
  update_down :
      (ys : SortedSet) (r : Sortpair) (zs : SortedSet)
      → p.score ≤ℤ q.score
      → AtLeast p.score ys
      → r.score <ℤ p.score
      → update (xs ++ (q ∷ (ys ++ (r ∷ zs)))) p.id p.score
        ≡ some (xs ++ ((ys ++ (r ∷ [])) ++ (p ∷ zs)))
  update_down ys r zs le a low =
      let whole = xs ++ (q ∷ (ys ++ (r ∷ zs))) in
      let shape : whole ≡ xs ++ (q ∷ ((ys ++ (r ∷ [])) ++ zs)) =
        ap (λ l. xs ++ (q ∷ l)) (sym (append_cons ys r zs)) in
      update_found whole p.id p.score _ _ (scan_down p q xs same here high ys r zs le a low)
      ∙ move_down whole _ _ p (omega arith)
      ∙ ap₂ (λ k i. lshift whole k i p) (omega arith) (omega (arith, length-append ys (r ∷ [])))
      ∙ ap (λ l. lshift l (length xs) (length xs + length (ys ++ (r ∷ []))) p) shape
      ∙ lshift_lem xs (ys ++ (r ∷ [])) zs q p

  -- An entry that does not rise, with no lower one in the slice, goes to the end.
  update_last :
      (ys : SortedSet)
      → p.score ≤ℤ q.score
      → AtLeast p.score ys
      → update (xs ++ (q ∷ ys)) p.id p.score ≡ some (xs ++ (ys ++ (p ∷ [])))
  update_last [] le a =
      update_unfound (xs ++ (q ∷ [])) p.id p.score _ (scan_last p q xs same here high [] le a)
      ∙ move_stay xs q p [] _ _ (omega arith) (omega (arith, length-append xs (q ∷ [])))
  update_last (y ∷ ys) le a =
      let whole = xs ++ (q ∷ ((y ∷ ys) ++ [])) in
      let size : length whole ≡ length xs + suc (suc (length ys)) =
        omega (arith, length-append xs (q ∷ ((y ∷ ys) ++ [])), length-append ys []) in
      ap (λ l. update (xs ++ (q ∷ l)) p.id p.score) (sym (append-nil (y ∷ ys)))
      ∙ update_unfound whole p.id p.score _ (scan_last p q xs same here high (y ∷ ys) le a)
      ∙ move_down whole _ _ p (omega arith)
      ∙ ap₂ (λ k i. lshift whole k i p) (omega arith) (omega arith)
      ∙ lshift_lem xs (y ∷ ys) [] q p

Absent-parts : (id : ℤ) (xs ys : SortedSet) → Absent id (xs ++ ys) → Absent id xs × Absent id ys
Absent-parts id [] ys a = (tt, a)
Absent-parts id (x ∷ xs) ys a = let (l, r) = Absent-parts id xs ys a.1 in ((a.0, l), r)

AtLeast-parts : (s : ℤ) (xs ys : SortedSet) → AtLeast s (xs ++ ys) → AtLeast s xs × AtLeast s ys
AtLeast-parts s [] ys a = (tt, a)
AtLeast-parts s (x ∷ xs) ys a = let (l, r) = AtLeast-parts s xs ys a.1 in ((a.0, l), r)

rises_at :
    (p q : Sortpair) (xs ys zs : SortedSet)
    → q.id ≡ p.id
    → Absent p.id (xs ++ ys)
    → AtLeast p.score xs
    → Falls p.score ys
    → q.score <ℤ p.score
    → update ((xs ++ ys) ++ (q ∷ zs)) p.id p.score ≡ some (xs ++ (p ∷ (ys ++ zs)))
rises_at p q xs [] zs same a high falls low =
    let here = (Absent-parts p.id xs [] a).0 in
    ap (λ l. update (l ++ (q ∷ zs)) p.id p.score) (append-nil xs)
    ∙ update_stay p q xs same here high zs low
rises_at p q xs (r ∷ ys) zs same a high falls low =
    let (here, behind) = Absent-parts p.id xs (r ∷ ys) a in
    ap (λ l. update l p.id p.score) (append_assoc xs (r ∷ ys) (q ∷ zs))
    ∙ update_up p q xs same here high r ys zs behind.0 behind.1 falls

Falls-append : (s : ℤ) (ys zs : SortedSet) → Falls s ys → Falls s zs → Falls s (ys ++ zs)
Falls-append s [] zs a b = b
Falls-append s (y ∷ ys) zs a b = a

-- A rising score: `Update` on a sorted slice does not panic, takes the first entry with the id out and
-- puts it where `Insert` would, and the result is sorted.
pub update_rises :
    (xs : SortedSet) (q : Sortpair) (zs : SortedSet) (score : ℤ)
    → Absent q.id xs
    → IsSorted (xs ++ (q ∷ zs))
    → q.score <ℤ score
    → (out : SortedSet) × (update (xs ++ (q ∷ zs)) q.id score ≡ some out)
      × (out ≡ place (record { id = q.id; score = score }) (xs ++ zs))
      × IsSorted out
update_rises xs q zs score a s h =
    let p : Sortpair = record { id = q.id; score = score } in
    let (before, between, whole, _, high, falls) = place_split p xs in
    let lower =
      Falls-append score between zs falls
        (Falls-AtMost score q.score zs h (AtMost-behind xs q zs s)) in
    let placed : place p (xs ++ zs) ≡ before ++ (p ∷ (between ++ zs)) =
      ap (λ l. place p (l ++ zs)) whole
      ∙ ap (place p) (append_assoc before between zs)
      ∙ place_at p before (between ++ zs) high lower in
    let absent : Absent q.id (before ++ between) = subst (Absent q.id) whole a in
    let moved =
      ap (λ l. update (l ++ (q ∷ zs)) q.id score) whole
      ∙ rises_at p q before between zs refl absent high falls h
      ∙ ap some (sym placed) in
    (place p (xs ++ zs), moved, refl, place-IsSorted p (xs ++ zs) (IsSorted-without xs q zs s))

-- A score that the entry and all before the first lower entry reach, with that lower entry behind:
-- `Update` does not panic, and its result is not sorted.
pub update_falls :
    (xs : SortedSet) (q : Sortpair) (ys : SortedSet) (r : Sortpair) (zs : SortedSet) (score : ℤ)
    → Absent q.id xs
    → AtLeast score (xs ++ (q ∷ ys))
    → r.score <ℤ score
    → (out : SortedSet) × (update (xs ++ (q ∷ (ys ++ (r ∷ zs)))) q.id score ≡ some out)
      × ¬ IsSorted out
update_falls xs q ys r zs score a h low =
    let p : Sortpair = record { id = q.id; score = score } in
    let (high, rest) = AtLeast-parts score xs (q ∷ ys) h in
    let shape : xs ++ ((ys ++ (r ∷ [])) ++ (p ∷ zs)) ≡ (xs ++ ys) ++ (r ∷ (p ∷ zs)) =
      ap (λ l. xs ++ l) (append_cons ys r (p ∷ zs)) ∙ sym (append_assoc xs ys (r ∷ (p ∷ zs))) in
    (
      (xs ++ ys) ++ (r ∷ (p ∷ zs)),
      update_down p q xs refl a high ys r zs rest.0 rest.1 low ∙ ap some shape,
      not-IsSorted (xs ++ ys) r p zs low,
    )
