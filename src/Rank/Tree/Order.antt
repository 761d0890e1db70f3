-- ===== src/Rank/Tree/Order.antt =====
-- The content of a tree as a list: scores fall strictly, and where a new id goes.
use fkgo_server.Base.{
  ◌+◌, ◌≡◌, refl, true, List, [], ◌∷◌, ◌++◌, arith, length-append, if◌then◌else◌,
}
use fkgo_server.Base.Int.{ℤ, ◌<ℤ◌, ltb_ℤ, eqb_ℤ}
use fkgo_server.Rank.Tree.Groups.{Group, weight}

-- All scores are above / below `k`.
abbrev pub Above : ℤ → List Group → Type 0
Above k [] = Unit
Above k ((j, ids) ∷ gs) = (k <ℤ j) × Above k gs

abbrev pub Below : ℤ → List Group → Type 0
Below k [] = Unit
Below k ((j, ids) ∷ gs) = (j <ℤ k) × Below k gs

abbrev pub Ordered : List Group → Type 0
Ordered [] = Unit
Ordered ((k, ids) ∷ gs) = Below k gs × Ordered gs

-- An id comes to its score, behind the ids that are there; a new score to its place.
unfoldable pub put : ℤ → ℤ → List Group → List Group
put score id [] = (score, id ∷ []) ∷ []
put score id ((k, ids) ∷ gs) =
    if eqb_ℤ score k
    then (k, ids ++ (id ∷ [])) ∷ gs
    else if ltb_ℤ k score
    then (score, id ∷ []) ∷ (k, ids) ∷ gs
    else (k, ids) ∷ put score id gs

pub Above-weaken : (k j : ℤ) (gs : List Group) → k <ℤ j → Above j gs → Above k gs
Above-weaken k j [] h a = tt
Above-weaken k j ((i, ids) ∷ gs) h (lt, a) = (omega arith, Above-weaken k j gs h a)

pub Below-weaken : (k j : ℤ) (gs : List Group) → j <ℤ k → Below j gs → Below k gs
Below-weaken k j [] h a = tt
Below-weaken k j ((i, ids) ∷ gs) h (lt, a) = (omega arith, Below-weaken k j gs h a)

pub Below-parts : (k : ℤ) (xs ys : List Group) → Below k (xs ++ ys) → Below k xs × Below k ys
Below-parts k [] ys b = (tt, b)
Below-parts k ((j, ids) ∷ xs) ys (lt, b) = let (l, r) = Below-parts k xs ys b in ((lt, l), r)

pub Below-append : (k : ℤ) (xs ys : List Group) → Below k xs → Below k ys → Below k (xs ++ ys)
Below-append k [] ys a b = b
Below-append k ((j, ids) ∷ xs) ys (lt, a) b = (lt, Below-append k xs ys a b)

-- An order with a score in the middle.
pub Ordered-parts :
    (xs : List Group) (k : ℤ) (ids : List ℤ) (ys : List Group)
    → Ordered (xs ++ ((k, ids) ∷ ys))
    → Ordered xs × Above k xs × Below k ys × Ordered ys
Ordered-parts [] k ids ys (b, o) = (tt, tt, b, o)
Ordered-parts ((j, js) ∷ xs) k ids ys (b, o) =
    let (ox, a, by, oy) = Ordered-parts xs k ids ys o in
    let (bx, (lt, _)) = Below-parts j xs ((k, ids) ∷ ys) b in ((bx, ox), (lt, a), by, oy)

pub Ordered-append : (xs ys : List Group) → Ordered (xs ++ ys) → Ordered xs × Ordered ys
Ordered-append [] ys o = (tt, o)
Ordered-append ((j, js) ∷ xs) ys (b, o) =
    let (ox, oy) = Ordered-append xs ys o in (((Below-parts j xs ys b).0, ox), oy)

Below-put : (k score id : ℤ) (gs : List Group) → score <ℤ k → Below k gs → Below k (put score id gs)
unfolding put
Below-put k score id [] h b = (h, tt)
Below-put k score id ((j, ids) ∷ gs) h (lt, b) = ground (arith, Below-put k score id gs h b)

pub Ordered-put : (score id : ℤ) (gs : List Group) → Ordered gs → Ordered (put score id gs)
unfolding put
Ordered-put score id [] o = (tt, tt)
Ordered-put score id ((k, ids) ∷ gs) (b, o) =
    ground (arith, Below-put k score id gs, Ordered-put score id gs o, Below-weaken score k gs)

-- Where the id goes, in a list with a score in the middle.
pub put_left :
    (score id : ℤ) (xs : List Group) (k : ℤ) (ids : List ℤ) (ys : List Group)
    → k <ℤ score
    → put score id (xs ++ ((k, ids) ∷ ys)) ≡ put score id xs ++ ((k, ids) ∷ ys)
unfolding put
put_left score id [] k ids ys h = ground arith
put_left score id ((j, js) ∷ xs) k ids ys h = ground (arith, put_left score id xs k ids ys h)

pub put_past :
    (score id : ℤ) (xs ys : List Group)
    → Above score xs
    → put score id (xs ++ ys) ≡ xs ++ put score id ys
unfolding put
put_past score id [] ys a = refl
put_past score id ((j, js) ∷ xs) ys (lt, a) = ground (arith, put_past score id xs ys a)

pub put_here :
    (score id k : ℤ) (ids : List ℤ) (ys : List Group)
    → eqb_ℤ score k ≡ true
    → put score id ((k, ids) ∷ ys) ≡ (k, ids ++ (id ∷ [])) ∷ ys
unfolding put
put_here score id k ids ys e = rw e refl

pub put_behind :
    (score id k : ℤ) (ids : List ℤ) (ys : List Group)
    → score <ℤ k
    → put score id ((k, ids) ∷ ys) ≡ (k, ids) ∷ put score id ys
unfolding put
put_behind score id k ids ys h = ground arith

pub weight-put : (score id : ℤ) (gs : List Group) → weight (put score id gs) ≡ weight gs + 1
unfolding put weight
weight-put score id [] = refl
weight-put score id ((k, ids) ∷ gs) =
    ground (arith, length-append {A = ℤ} ids (id ∷ []), weight-put score id gs)
