-- ===== src/Rank/SortedSet/Insert.antt =====
-- `Insert` of SortedSet.go against its reference `place`, and what `Locate` and `Delete` find.
use fkgo_server.Base.{
  ℕ, suc, ◌+◌, ◌-◌, ◌≡◌, refl, sym, ap, ap₂, ◌∙◌, none, some, [], ◌∷◌, ◌++◌, append_assoc,
  append-nil, arith, length, length-append,
}
use fkgo_server.Base.Int.{ℤ, negsuc, ◌<ℤ◌, eqb_ℤ_refl, eqb_ℤ_ne, to_int32}
use mathlib.Core.List.{Perm}
use native.Mathlib.Nat.{zero-add}
use fkgo_server.Rank.SortedSet.{
  Sortpair, SortedSet, lower_from, grow, insert, delete, locate_from, locate, rshift,
}
use fkgo_server.Rank.SortedSet.Order.{
  AtMost, AtLeast, Absent, IsSorted, Falls, place, place-perm, place_split, place-IsSorted,
}
use fkgo_server.Rank.SortedSet.Shift.{rshift_lem}

pub lower_from-hit :
    (s : ℤ) (k : ℕ) (xs : SortedSet) (r : Sortpair) (ys : SortedSet)
    → AtLeast s xs
    → r.score <ℤ s
    → lower_from s k (xs ++ (r ∷ ys)) ≡ some (k + length xs)
unfolding lower_from
lower_from-hit s k [] r ys a h = ground arith
lower_from-hit s k (x ∷ xs) r ys a h =
    let e : k + 1 + length xs ≡ k + suc (length xs) = omega arith in
    ground (arith, lower_from-hit s (k + 1) xs r ys)

pub lower_from-miss : (s : ℤ) (k : ℕ) (xs : SortedSet) → AtLeast s xs → lower_from s k xs ≡ none
unfolding lower_from
lower_from-miss s k [] a = refl
lower_from-miss s k (x ∷ xs) a = ground (arith, lower_from-miss s (k + 1) xs)

AtLeast-append : (s : ℤ) (xs ys : SortedSet) → AtLeast s xs → AtLeast s ys → AtLeast s (xs ++ ys)
AtLeast-append s [] ys a b = b
AtLeast-append s (x ∷ xs) ys a b = (a.0, AtLeast-append s xs ys a.1 b)

grow_hit :
    (ss : SortedSet) (p : Sortpair) (k : ℕ)
    → lower_from p.score 0 (ss ++ (p ∷ [])) ≡ some k
    → grow ss p ≡ rshift (ss ++ (p ∷ [])) k (length (ss ++ (p ∷ [])) - 1) p
unfolding grow
grow_hit ss p k h = rw (h, grow)

-- On a slice that splits where the entry belongs, it goes there.
grow_lem :
    (xs ys : SortedSet) (p : Sortpair)
    → AtLeast p.score xs
    → Falls p.score ys
    → grow (xs ++ ys) p ≡ some (xs ++ (p ∷ ys))
unfolding grow
grow_lem xs [] p a f =
    let all_high : AtLeast p.score (xs ++ (p ∷ [])) =
      AtLeast-append p.score xs (p ∷ []) a (omega arith, tt) in
    ap (λ l. grow l p) (append-nil xs)
    ∙ rw (lower_from-miss p.score 0 (xs ++ (p ∷ [])) all_high, grow)
grow_lem xs (y ∷ ys) p a f =
    let shape = append_assoc xs (y ∷ ys) (p ∷ []) in
    let last : length ((xs ++ (y ∷ ys)) ++ (p ∷ [])) - 1 ≡ length xs + length (y ∷ ys) =
      omega (arith, length-append (xs ++ (y ∷ ys)) (p ∷ []), length-append xs (y ∷ ys)) in
    let found : lower_from p.score 0 ((xs ++ (y ∷ ys)) ++ (p ∷ [])) ≡ some (length xs) =
      ap (lower_from p.score 0) shape
      ∙ lower_from-hit p.score 0 xs y (ys ++ (p ∷ [])) a f
      ∙ ap (λ n. some n) (zero-add (length xs)) in
    grow_hit (xs ++ (y ∷ ys)) p (length xs) found
    ∙ ap₂ (λ l n. rshift l (length xs) n p) shape last
    ∙ rshift_lem xs (y ∷ ys) [] p p
    ∙ ap (λ l. some (xs ++ (p ∷ l))) (append-nil (y ∷ ys))

insert-grow :
    (ss : SortedSet) (id score : ℤ)
    → insert ss id score ≡ grow ss (record { id = id; score = score })
unfolding insert grow lower_from
insert-grow [] id score = ground arith
insert-grow (q ∷ qs) id score = refl

-- `Insert` never panics: it puts the entry behind all entries of the same or a higher score.
pub insert-eq-place :
    (ss : SortedSet) (id score : ℤ)
    → insert ss id score ≡ some (place (record { id = id; score = score }) ss)
insert-eq-place ss id score =
    let (xs, ys, whole, placed, high, falls) = place_split (record { id = id; score = score }) ss in
    insert-grow ss id score
    ∙ ap (λ l. grow l (record { id = id; score = score })) whole
    ∙ grow_lem xs ys (record { id = id; score = score }) high falls
    ∙ ap some (sym placed)

-- On a sorted slice `Insert` returns a sorted slice that holds the old entries and the new one.
pub insert_correct :
    (ss : SortedSet) (id score : ℤ)
    → IsSorted ss
    → (out : SortedSet) × (insert ss id score ≡ some out)
      × IsSorted out
      × Perm out (record { id = id; score = score } ∷ ss)
insert_correct ss id score h = (
  place (record { id = id; score = score }) ss,
  insert-eq-place ss id score,
  place-IsSorted (record { id = id; score = score }) ss h,
  place-perm (record { id = id; score = score }) ss,
)

-- `Locate` counts from 1: behind `xs`, none of which has the id, an entry with it has rank
-- `length xs + 1`.
locate_from-hit :
    (k : ℕ) (xs : SortedSet) (q : Sortpair) (ys : SortedSet)
    → Absent q.id xs
    → locate_from k (xs ++ (q ∷ ys)) q.id ≡ to_int32 (k + length xs + 1)
unfolding locate_from
locate_from-hit k [] q ys a = let e : k + 0 + 1 ≡ k + 1 = omega arith in rw (eqb_ℤ_refl q.id, e)
locate_from-hit k (x ∷ xs) q ys a =
    let e : k + suc (length xs) + 1 ≡ k + 1 + length xs + 1 = omega arith in
    rw (eqb_ℤ_ne x.id q.id a.0, e) (locate_from-hit (k + 1) xs q ys a.1)

locate_from-miss : (k : ℕ) (xs : SortedSet) (id : ℤ) → Absent id xs → locate_from k xs id ≡ negsuc 0
unfolding locate_from
locate_from-miss k [] id a = refl
locate_from-miss k (x ∷ xs) id a = rw (eqb_ℤ_ne x.id id a.0) (locate_from-miss (k + 1) xs id a.1)

-- `Locate` finds an entry, where no earlier one has its id, at its position counted from 1, as an
-- `int32`, and gives -1 for an id that the slice does not hold.
pub locate_correct :
    (xs : SortedSet) (q : Sortpair) (ys : SortedSet) (id : ℤ)
    → Absent q.id xs
    → Absent id (xs ++ (q ∷ ys))
    → (locate (xs ++ (q ∷ ys)) q.id ≡ to_int32 (length xs + 1))
      × (locate (xs ++ (q ∷ ys)) id ≡ negsuc 0)
unfolding locate
locate_correct xs q ys id a b =
    let e : 0 + length xs + 1 ≡ length xs + 1 = omega arith in
    (rw (locate_from-hit 0 xs q ys a, e), locate_from-miss 0 (xs ++ (q ∷ ys)) id b)

-- `Delete` takes out the first entry with the id (none before it has the id) and nothing else.
pub delete_lem :
    (xs : SortedSet) (q : Sortpair) (ys : SortedSet)
    → Absent q.id xs
    → delete (xs ++ (q ∷ ys)) q.id ≡ xs ++ ys
unfolding delete
delete_lem [] q ys a = rw (eqb_ℤ_refl q.id)
delete_lem (x ∷ xs) q ys a = rw (eqb_ℤ_ne x.id q.id a.0) (ap (λ l. x ∷ l) (delete_lem xs q ys a.1))

pub AtMost-delete : (s id : ℤ) (qs : SortedSet) → AtMost s qs → AtMost s (delete qs id)
unfolding delete
AtMost-delete s id [] a = tt
AtMost-delete s id (q ∷ qs) a = ground (arith, AtMost-delete s id qs)

-- `Delete` of any id keeps a sorted slice sorted.
pub delete-IsSorted : (id : ℤ) (qs : SortedSet) → IsSorted qs → IsSorted (delete qs id)
unfolding delete
delete-IsSorted id [] h = tt
delete-IsSorted id (q ∷ qs) h = ground (arith, AtMost-delete q.score id qs, delete-IsSorted id qs)

pub delete-Absent : (id : ℤ) (qs : SortedSet) → Absent id qs → delete qs id ≡ qs
unfolding delete
delete-Absent id [] a = refl
delete-Absent id (q ∷ qs) a = rw (eqb_ℤ_ne q.id id a.0) (ap (λ l. q ∷ l) (delete-Absent id qs a.1))
