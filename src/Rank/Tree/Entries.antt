-- ===== src/Rank/Tree/Entries.antt =====
-- The entries of a tree, one for each id, as the slice of SortedSet.go would hold them.
use fkgo_server.Base.{
  suc, ◌<◌, ◌≡◌, refl, sym, ap, ◌∙◌, subst, inl, inr, List, [], ◌∷◌, ◌++◌, append_assoc, arith,
  length, length-append, Bool-cases,
}
use fkgo_server.Base.Int.{ℤ, ◌≤ℤ◌, ltb_ℤ, eqb_ℤ, eqb_ℤ→eq}
use fkgo_server.Rank.SortedSet.{Sortpair, SortedSet}
use fkgo_server.Rank.SortedSet.Order.{Falls, place, place_at}
use fkgo_server.Rank.Tree.{Tree}
use fkgo_server.Rank.Tree.Groups.{Group, groups}
use fkgo_server.Rank.Tree.Order.{Below, Ordered, put, Below-weaken}

abbrev pub entry : ℤ → ℤ → Sortpair
entry k id = record { id = id; score = k }

unfoldable pub same_score : ℤ → List ℤ → SortedSet
same_score k [] = []
same_score k (id ∷ ids) = entry k id ∷ same_score k ids

unfoldable pub expand : List Group → SortedSet
expand [] = []
expand ((k, ids) ∷ gs) = same_score k ids ++ expand gs

unfoldable pub entries : Tree → SortedSet
entries t = expand (groups t)

-- No score stands without an id.
abbrev pub Filled : List Group → Type 0
Filled [] = Unit
Filled ((k, ids) ∷ gs) = (0 < length ids) × Filled gs

pub expand-append : (xs ys : List Group) → expand (xs ++ ys) ≡ expand xs ++ expand ys
unfolding expand
expand-append [] ys = refl
expand-append ((k, ids) ∷ xs) ys =
    ap (λ l. same_score k ids ++ l) (expand-append xs ys)
    ∙ sym (append_assoc (same_score k ids) (expand xs) (expand ys))

pub same_score-append :
    (k : ℤ) (xs ys : List ℤ) → same_score k (xs ++ ys) ≡ same_score k xs ++ same_score k ys
unfolding same_score
same_score-append k [] ys = refl
same_score-append k (x ∷ xs) ys = ap (λ l. entry k x ∷ l) (same_score-append k xs ys)

pub length-same_score : (k : ℤ) (ids : List ℤ) → length (same_score k ids) ≡ length ids
unfolding same_score
length-same_score k [] = refl
length-same_score k (id ∷ ids) = ap suc (length-same_score k ids)

pub Filled-append : (xs ys : List Group) → Filled (xs ++ ys) → Filled xs × Filled ys
Filled-append [] ys f = (tt, f)
Filled-append ((k, ids) ∷ xs) ys (p, f) = let (l, r) = Filled-append xs ys f in ((p, l), r)

pub Filled-join : (xs ys : List Group) → Filled xs → Filled ys → Filled (xs ++ ys)
Filled-join [] ys f g = g
Filled-join ((k, ids) ∷ xs) ys (p, f) g = (p, Filled-join xs ys f g)

pub Filled-put : (score id : ℤ) (gs : List Group) → Filled gs → Filled (put score id gs)
unfolding put
Filled-put score id [] f = (omega arith, tt)
Filled-put score id ((k, ids) ∷ gs) f =
    ground (arith, length-append {A = ℤ} ids (id ∷ []), Filled-put score id gs)

-- An entry passes those of the same or a higher score.
place_past :
    (p : Sortpair) (k : ℤ) (ids : List ℤ) (ys : SortedSet)
    → p.score ≤ℤ k
    → place p (same_score k ids ++ ys) ≡ same_score k ids ++ place p ys
unfolding place same_score
place_past p k [] ys h = refl
place_past p k (id ∷ ids) ys h = ground (arith, place_past p k ids ys h)

Falls-expand : (s : ℤ) (gs : List Group) → Below s gs → Filled gs → Falls s (expand gs)
unfolding expand same_score
Falls-expand s [] b f = tt
Falls-expand s ((k, []) ∷ gs) b f = absurd (omega arith)
Falls-expand s ((k, id ∷ ids) ∷ gs) b f = b.0

-- Putting an id to its score places the entry behind all those of the same or a higher score.
pub expand-put :
    (score id : ℤ) (gs : List Group)
    → Ordered gs
    → Filled gs
    → expand (put score id gs) ≡ place (entry score id) (expand gs)
unfolding expand put same_score
expand-put score id [] o f = sym (place_at (entry score id) [] [] tt tt)
expand-put score id ((k, ids) ∷ gs) (b, o) (p, f) = elim (Bool-cases (eqb_ℤ score k)) [
  | inl same ↦
      let e = eqb_ℤ→eq score k same in
      let here = same_score k ids in
      rw same (
        ap (λ l. l ++ expand gs) (same_score-append k ids (id ∷ []))
        ∙ append_assoc here (entry k id ∷ []) (expand gs)
        ∙ ap (λ q. here ++ (entry q id ∷ expand gs)) (sym e)
        ∙ ap (λ l. here ++ l)
            (sym (
              place_at (entry score id) [] (expand gs) tt
                (Falls-expand score gs (subst (λ q. Below q gs) (sym e) b) f)))
        ∙ sym (place_past (entry score id) k ids (expand gs) (ground arith)))
  | inr other ↦ elim (Bool-cases (ltb_ℤ k score)) [
    | inl up ↦
        rw (other, up)
          (sym (
            place_at (entry score id) [] (expand ((k, ids) ∷ gs)) tt (
              Falls-expand score ((k, ids) ∷ gs)
                (ground arith, Below-weaken score k gs (ground arith) b) (p, f))))
    | inr down ↦
        rw (other, down)
          (ap (λ l. same_score k ids ++ l) (expand-put score id gs o f)
            ∙ sym (place_past (entry score id) k ids (expand gs) (ground arith)))
  ]
]
