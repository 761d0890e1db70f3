-- ===== src/Rank/SortedSet/Order.antt =====
-- The order of SortedSet.go's slice, and the place where an entry belongs.
use fkgo_server.Base.{
  ◌≡◌, refl, ap, ◌≢◌, inl, inr, [], ◌∷◌, ◌++◌, arith, if◌then◌else◌, ltb→lt, Bool-cases,
}
use fkgo_server.Base.Int.{ℤ, ◌≤ℤ◌, ◌<ℤ◌, ltb_ℤ}
use mathlib.Core.List.{Perm}
use mathlib.Core.List.Perm
use fkgo_server.Rank.SortedSet.{Sortpair, SortedSet}

-- Every score of the slice is at most / at least `s`.
abbrev pub AtMost : ℤ → SortedSet → Type 0
AtMost s [] = Unit
AtMost s (q ∷ qs) = (q.score ≤ℤ s) × AtMost s qs

abbrev pub AtLeast : ℤ → SortedSet → Type 0
AtLeast s [] = Unit
AtLeast s (q ∷ qs) = (s ≤ℤ q.score) × AtLeast s qs

-- No entry has the id.
abbrev pub Absent : ℤ → SortedSet → Type 0
Absent id [] = Unit
Absent id (q ∷ qs) = (q.id ≢ id) × Absent id qs

-- Descending by score.
abbrev pub IsSorted : SortedSet → Type 0
IsSorted [] = Unit
IsSorted (q ∷ qs) = AtMost q.score qs × IsSorted qs

-- The first entry, if there is one, scores less than `s`.
abbrev pub Falls : ℤ → SortedSet → Type 0
Falls s [] = Unit
Falls s (q ∷ qs) = q.score <ℤ s

-- The reference for `Insert`: behind all entries of the same or a higher score.
unfoldable pub place : Sortpair → SortedSet → SortedSet
place p [] = p ∷ []
place p (q ∷ qs) = if ltb_ℤ q.score p.score then p ∷ (q ∷ qs) else q ∷ place p qs

pub AtMost-weaken : (s t : ℤ) (qs : SortedSet) → s ≤ℤ t → AtMost s qs → AtMost t qs
AtMost-weaken s t [] h a = tt
AtMost-weaken s t (q ∷ qs) h a = (omega arith, AtMost-weaken s t qs h a.1)

pub AtMost-append : (s : ℤ) (xs ys : SortedSet) → AtMost s xs → AtMost s ys → AtMost s (xs ++ ys)
AtMost-append s [] ys a b = b
AtMost-append s (x ∷ xs) ys a b = (a.0, AtMost-append s xs ys a.1 b)

AtMost-place :
    (s : ℤ) (p : Sortpair) (qs : SortedSet) → p.score ≤ℤ s → AtMost s qs → AtMost s (place p qs)
unfolding place
AtMost-place s p [] h a = (h, tt)
AtMost-place s p (q ∷ qs) h a = ground (arith, AtMost-place s p qs)

pub place-IsSorted : (p : Sortpair) (qs : SortedSet) → IsSorted qs → IsSorted (place p qs)
unfolding place
place-IsSorted p [] h = (tt, tt)
place-IsSorted p (q ∷ qs) h =
    ground (arith, place-IsSorted p qs, AtMost-place q.score p qs, AtMost-weaken q.score p.score qs)

-- Putting an entry in its place changes nothing else.
pub place-perm : (p : Sortpair) (qs : SortedSet) → Perm (place p qs) (p ∷ qs)
unfolding place
place-perm p [] = Perm.refl (p ∷ [])
place-perm p (q ∷ qs) = elim (Bool-cases (ltb_ℤ q.score p.score)) [
  | inl e ↦ rw e (Perm.refl (p ∷ q ∷ qs))
  | inr e ↦ rw e (Perm.trans (Perm.cons q (place-perm p qs)) (Perm.swap p q qs))
]

-- The slice splits at the place: all before it score at least as much, the next one less.
pub place_split :
    (p : Sortpair) (qs : SortedSet)
    → (xs : SortedSet) × (ys : SortedSet) × (qs ≡ xs ++ ys)
      × (place p qs ≡ xs ++ (p ∷ ys))
      × AtLeast p.score xs
      × Falls p.score ys
unfolding place
place_split p [] = ([], [], refl, refl, tt, tt)
place_split p (q ∷ qs) = elim (Bool-cases (ltb_ℤ q.score p.score)) [
  | inl e ↦ ([], q ∷ qs, refl, rw e refl, tt, omega (arith, ltb→lt _ _ e))
  | inr e ↦
      let (xs, ys, whole, placed, high, falls) = place_split p qs in
      (
        q ∷ xs,
        ys,
        ap (λ l. q ∷ l) whole,
        rw e (ap (λ l. q ∷ l) placed),
        (ground arith, high),
        falls,
      )
]

pub place_at :
    (p : Sortpair) (xs ys : SortedSet)
    → AtLeast p.score xs
    → Falls p.score ys
    → place p (xs ++ ys) ≡ xs ++ (p ∷ ys)
unfolding place
place_at p [] [] a f = refl
place_at p [] (y ∷ ys) a f = ground arith
place_at p (x ∷ xs) ys a f = ground (arith, place_at p xs ys a.1 f)

-- What a sorted slice says of the parts before and behind an entry.
pub AtMost-behind :
    (xs : SortedSet) (q : Sortpair) (ys : SortedSet) → IsSorted (xs ++ (q ∷ ys)) → AtMost q.score ys
AtMost-behind [] q ys h = h.0
AtMost-behind (x ∷ xs) q ys h = AtMost-behind xs q ys h.1

AtMost-without :
    (s : ℤ) (xs : SortedSet) (q : Sortpair) (ys : SortedSet)
    → AtMost s (xs ++ (q ∷ ys))
    → AtMost s (xs ++ ys)
AtMost-without s [] q ys h = h.1
AtMost-without s (x ∷ xs) q ys h = (h.0, AtMost-without s xs q ys h.1)

pub IsSorted-without :
    (xs : SortedSet) (q : Sortpair) (ys : SortedSet)
    → IsSorted (xs ++ (q ∷ ys))
    → IsSorted (xs ++ ys)
IsSorted-without [] q ys h = h.1
IsSorted-without (x ∷ xs) q ys h =
    (AtMost-without x.score xs q ys h.0, IsSorted-without xs q ys h.1)

pub Falls-AtMost : (s t : ℤ) (ys : SortedSet) → t <ℤ s → AtMost t ys → Falls s ys
Falls-AtMost s t [] h a = tt
Falls-AtMost s t (y ∷ ys) h a = omega arith

-- A slice with a lower entry right before a higher one is not sorted.
pub not-IsSorted :
    (xs : SortedSet) (r p : Sortpair) (ys : SortedSet)
    → r.score <ℤ p.score
    → ¬ IsSorted (xs ++ (r ∷ (p ∷ ys)))
not-IsSorted [] r p ys h s = absurd (omega arith)
not-IsSorted (x ∷ xs) r p ys h s = not-IsSorted xs r p ys h s.1
