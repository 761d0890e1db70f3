-- ===== src/Rank/SortedSet/Range.antt =====
-- `GetList` of SortedSet.go: a range of ranks.
use fkgo_server.Base.{
  ℕ, zero, suc, ◌+◌, ◌-◌, ◌≤◌, ◌<◌, ◌≡◌, refl, sym, ap₂, ◌∙◌, some, List, [], ◌∷◌, ◌++◌, arith,
  length, get_elem?, take, length-append, append_cons,
}
use fkgo_server.Base.Int.{ℤ}
use fkgo_server.Rank.SortedSet.{Sortpair, SortedSet, list_from, get_list}

abbrev pub ids : SortedSet → List ℤ
ids [] = []
ids (q ∷ qs) = q.id ∷ ids qs

abbrev pub scores : SortedSet → List ℤ
scores [] = []
scores (q ∷ qs) = q.score ∷ scores qs

list_at :
    (before : SortedSet) (q : Sortpair) (qs : SortedSet)
    → get_elem? (before ++ (q ∷ qs)) (length before) ≡ some q
list_at [] q qs = refl
list_at (p ∷ before) q qs = list_at before q qs

list_from_lem :
    (before ss : SortedSet) (n : ℕ)
    → n ≤ length ss
    → list_from (before ++ ss) (length before) n ≡ some (ids (take n ss), scores (take n ss))
unfolding list_from
list_from_lem before ss zero h = refl
list_from_lem before [] (suc n) h = absurd (omega arith)
list_from_lem before (q ∷ qs) (suc n) h =
    let here = list_at before q qs in
    let rest : list_from (before ++ (q ∷ qs)) (length before + 1) n
        ≡ some (ids (take n qs), scores (take n qs)) =
      ap₂ (λ l k. list_from l k n) (sym (append_cons before q qs))
        (sym (length-append before (q ∷ [])))
      ∙ list_from_lem (before ++ (q ∷ [])) qs n (omega arith) in
    rw (list_from, here, rest)

-- The ranks from `a` to `b`, counted from 1: where the slice has them all, `GetList` does not panic and
-- returns their ids and scores in order.
pub get_list_correct :
    (before ss : SortedSet) (n : ℕ)
    → n < length ss
    → get_list (before ++ ss) (length before + 1) (length before + 1 + n)
      ≡ some (ids (take (n + 1) ss), scores (take (n + 1) ss))
unfolding get_list
get_list_correct before ss n h =
    let first : length before + 1 - 1 ≡ length before = omega arith in
    let size : length before + 1 + n + 1 - (length before + 1) ≡ n + 1 = omega arith in
    rw (first, size) (list_from_lem before ss (n + 1) (omega arith))
