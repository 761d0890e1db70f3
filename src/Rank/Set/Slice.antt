-- ===== src/Rank/Set/Slice.antt =====
-- `Delete` of RankSet.go on a set in the slice, and on both storages.
use fkgo_server.Base.{
  ◌≤◌, ◌≡◌, refl, sym, ap, ap₂, ◌∙◌, subst, ◌⊎◌, inl, inr, some, List, [], ◌∷◌, ◌++◌, arith, length,
  Bool-cases,
}
use fkgo_server.Base.Int.{ℤ, eqb_ℤ, eqb_ℤ→eq}
use mathlib.Core.Logic.Or
use mathlib.Core.HLevel.{⊥_prop}
use mathlib.Core.List.{
  Perm, Perm-prop, perm_middle, Mem, not-mem-nil, mem-cons_self, mem-append_right,
  eq-or-mem_of_mem-cons,
}
use mathlib.Core.List.Perm
use fkgo_server.Base.Map.{GoMap, lookup, remove, int_eq, lookup-remove_self}
use fkgo_server.Rank.SortedSet.{Sortpair, SortedSet}
use fkgo_server.Rank.SortedSet
use fkgo_server.Rank.SortedSet.Order.{Absent}
use fkgo_server.Rank.SortedSet.Insert.{delete_lem, delete-IsSorted}
use fkgo_server.Rank.Tree.{Tree}
use fkgo_server.Rank.Tree.Entries.{entry}
use fkgo_server.Rank.Set.{
  Storage, sorted_set, rbtree, lower_threshold, RankSet, delete, shrunk, take_user,
}
use fkgo_server.Rank.Set.Content.{bound, bound-known, no_binding, Distinct-remove}
use fkgo_server.Rank.Set.Correct.{delete_known}
use fkgo_server.Rank.Set.Update.{IsConsistent, Updated}

-- The first entry with an id, if there is one.
first_with :
    (id : ℤ) (s : SortedSet)
    → Absent id s
      ⊎ ((xs : SortedSet) × (q : Sortpair) × (ys : SortedSet) × (s ≡ xs ++ (q ∷ ys))
          × (q.id ≡ id)
          × Absent id xs)
first_with id [] = inl tt
first_with id (q ∷ s) = elim (Bool-cases (eqb_ℤ q.id id)) [
  | inl same ↦ inr ([], q, s, refl, eqb_ℤ→eq q.id id same, tt)
  | inr other ↦ elim (first_with id s) [
    | inl a ↦ inl ((λ e. ground arith), a)
    | inr (xs, r, ys, split, e, a) ↦
        inr (q ∷ xs, r, ys, ap (λ l. q ∷ l) split, e, ((λ e'. ground arith), a))
  ]
]

not-Absent : (q : Sortpair) (s : SortedSet) → Absent q.id s → Mem q s → ⊥
not-Absent q [] a m = not-mem-nil m
not-Absent q (r ∷ s) (h, a) m =
    Or.elim ⊥_prop (eq-or-mem_of_mem-cons m) (λ e. h (ap (λ x. x.id) (sym e)))
      (λ below. not-Absent q s a below)

-- The entry of a user that the map has goes out of the slice.
slice_taken :
    (id old : ℤ) (s : SortedSet) (m : GoMap ℤ ℤ)
    → Perm s (entry old id ∷ bound (remove id m))
    → Perm (SortedSet.delete s id) (bound (remove id m))
slice_taken id old s m p = elim (first_with id s) [
  | inl a ↦ absurd (not-Absent (entry old id) s a ((Perm.mem_iff p).1 mem-cons_self))
  | inr (xs, q, ys, split, e, a) ↦
      let whole : Perm (xs ++ (q ∷ ys)) (entry old id ∷ bound (remove id m)) =
        subst (λ x. Perm x (entry old id ∷ bound (remove id m))) split p in
      let gone : SortedSet.delete s id ≡ xs ++ ys =
        ap₂ SortedSet.delete split (sym e)
        ∙ delete_lem xs q ys (subst (λ i. Absent i xs) (sym e) a) in
      subst (λ x. Perm x (bound (remove id m))) (sym gone)
        (Or.elim Perm-prop
          (eq-or-mem_of_mem-cons ((Perm.mem_iff whole).0 (mem-append_right xs mem-cons_self)))
          (λ same. Perm.cons_inv {a = q} (
            Perm.trans (Perm.symm (perm_middle xs ys))
              (subst (λ x. Perm (xs ++ (q ∷ ys)) (x ∷ bound (remove id m))) (sym same) whole)))
          (λ other. absurd (
            no_binding id q.score (remove id m) (lookup-remove_self id m)
              (subst (λ i. Mem (entry q.score i) (bound (remove id m))) e other))))
]

delete_from_slice :
    (range : GoMap ℤ ℤ → List (ℤ × ℤ)) (id old : ℤ) (t : Tree) (s : SortedSet) (m : GoMap ℤ ℤ)
    → let rs : RankSet = record { tree = t; slice = s; scores = m; storage = sorted_set } in
      IsConsistent rs → lookup id m ≡ some old → Updated (remove id m) (delete range id rs)
unfolding delete shrunk take_user
delete_from_slice range id old t s m v there = (
  record { tree = t; slice = SortedSet.delete s id; scores = remove id m; storage = sorted_set },
  refl,
  record {
    distinct = Distinct-remove id m v.distinct;
    stored = (delete-IsSorted id s v.stored.0, v.stored.1);
    holds = slice_taken id old s m (Perm.trans v.holds (bound-known id old m v.distinct there));
  },
  refl,
)

-- The set stays where it stands.
abbrev pub Stays : Storage → GoMap ℤ ℤ → Type 0
Stays sorted_set m = Unit
Stays rbtree m = lower_threshold ≤ length m

by_storage :
    (range : GoMap ℤ ℤ → List (ℤ × ℤ)) (id old : ℤ) (st : Storage) (t : Tree) (s : SortedSet)
    (m : GoMap ℤ ℤ)
    → let rs : RankSet = record { tree = t; slice = s; scores = m; storage = st } in
      IsConsistent rs
      → Stays st m
      → lookup id m ≡ some old
      → Updated (remove id m) (delete range id rs)
by_storage range id old sorted_set t s m v stays there =
    delete_from_slice range id old t s m v there
by_storage range id old rbtree t s m v stays there =
    let empty : s ≡ [] = v.stored.1 in
    subst
      (λ x.
        Updated (remove id m)
          (delete range id (record { tree = t; slice = x; scores = m; storage = rbtree })))
      (sym empty)
      (delete_known range id t m stays old
        (subst (λ x. IsConsistent (record { tree = t; slice = x; scores = m; storage = rbtree }))
          empty v)
        there)

-- `Delete` of a user of a set that agrees with its map and stays where it stands, in the slice, or in the
-- tree with at least 512 users: no panic, just that user is gone from the map, and the ranking is in order
-- and agrees with it again.
pub delete_correct :
    (range : GoMap ℤ ℤ → List (ℤ × ℤ)) (id old : ℤ) (rs : RankSet)
    → IsConsistent rs
    → Stays rs.storage rs.scores
    → lookup id rs.scores ≡ some old
    → Updated (remove id rs.scores) (delete range id rs)
delete_correct range id old rs v stays there =
    by_storage range id old rs.storage rs.tree rs.slice rs.scores v stays there
