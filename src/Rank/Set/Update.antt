-- ===== src/Rank/Set/Update.antt =====
-- `Update` and `Delete` of RankSet.go keep the ranking and the map of scores together.
use fkgo_server.Base.{
  ◌≡◌, refl, sym, ap, ◌∙◌, subst, inl, inr, Option, none, some, List, [], ◌∷◌, ◌++◌, append-nil,
  arith, length, ltb, Option-cases, if_both,
}
use fkgo_server.Base.Int.{ℤ}
use mathlib.Core.Option
use mathlib.Core.Logic.{∥∥₁_elim}
use mathlib.Core.HLevel.{⊥_prop}
use mathlib.Core.List.{Perm, perm_middle, Mem, mem-cons_self, append_of_mem}
use mathlib.Core.List.Perm
use fkgo_server.Base.Map.{GoMap, lookup, put, remove, int_eq}
use fkgo_server.Rank.SortedSet.{SortedSet, clear}
use fkgo_server.Rank.SortedSet.Order.{IsSorted, place, place-perm, place-IsSorted}
use fkgo_server.Rank.SortedSet.Insert.{insert-eq-place}
use fkgo_server.Rank.Tree.{Tree, leaf, locate}
use fkgo_server.Rank.Tree.Groups.{groups}
use fkgo_server.Rank.Tree.Entries.{entry, entries, expand}
use fkgo_server.Rank.Tree.Remove
use fkgo_server.Rank.Tree.Insert.Correct.{IsValid, insert_refines}
use fkgo_server.Rank.Tree.Remove.Refines.{delete_refines}
use fkgo_server.Rank.Tree.Locate.{locate_complete}
use fkgo_server.Rank.Set.{
  Storage, sorted_set, rbtree, RankSet, and_then, put_score, all_into_tree, toggle, toggle_to,
  insert_user, grown, upper_threshold,
}
use fkgo_server.Rank.Set.Content.{
  bound, Distinct, Distinct-put, bound-put, remove-absent, bound-Perm,
}

-- The ranking, wherever it stands.
abbrev pub content_of : Storage → Tree → SortedSet → SortedSet
content_of sorted_set t s = s
content_of rbtree t s = entries t

abbrev pub Stored : Storage → Tree → SortedSet → Type 0
Stored sorted_set t s = IsSorted s × (t ≡ leaf)
Stored rbtree t s = IsValid t × (s ≡ [])

-- The ranking is in order, and it holds the scores of the map.
pub record IsConsistent (rs : RankSet) : Type 0 where
  pub distinct : Distinct rs.scores
  pub stored : Stored rs.storage rs.tree rs.slice
  pub holds : Perm (content_of rs.storage rs.tree rs.slice) (bound rs.scores)

-- A result that is consistent and has those scores.
abbrev pub Updated : GoMap ℤ ℤ → Option RankSet → Type 0
Updated m o = (out : RankSet) × (o ≡ some out) × IsConsistent out × (out.scores ≡ m)

pub all_into_tree_lem :
    (es : List (ℤ × ℤ)) (t : Tree)
    → IsValid t
    → (u : Tree) × (all_into_tree es t ≡ some u)
      × IsValid u
      × Perm (entries u) (bound es ++ entries t)
unfolding all_into_tree
all_into_tree_lem [] t v = (t, refl, v, Perm.refl (entries t))
all_into_tree_lem ((id, score) ∷ es) t v =
    let (w, first, vw, placed) = insert_refines t score id v in
    let (u, rest, vu, all) = all_into_tree_lem es w vw in
    let e = entry score id in
    (
      u,
      ap (λ o. and_then o (all_into_tree es)) first ∙ rest,
      vu,
      Perm.trans all (
          Perm.trans
            (Perm.append_left (bound es)
              (subst (λ x. Perm x (e ∷ entries t)) (sym placed) (place-perm e (entries t))))
            (perm_middle (bound es) (entries t))),
    )

-- An entry of the tree is found and taken out of it.
pub taken :
    (t : Tree) (score id : ℤ) (rest : SortedSet)
    → IsValid t
    → Perm (entries t) (entry score id ∷ rest)
    → (u : Tree) × (Remove.delete id (locate t score id) ≡ some u)
      × IsValid u
      × Perm (entries u) rest
taken t score id rest v holds =
    let e = entry score id in
    let there : Mem e (entries t) = (Perm.mem_iff holds).1 mem-cons_self in
    elim (Option-cases (locate t score id)) [
      | inl lost ↦ absurd (
          ∥∥₁_elim (append_of_mem there) ⊥_prop (λ (xs, ys, split).
            let (n, found) = locate_complete t score id xs ys v split in
            let both : none ≡ some n = sym lost ∙ found in absurd (ground arith)))
      | inr (n, found) ↦
          let (u, xs, ys, done, vu, before, after, _) = delete_refines t score id n v found in
          (
            u,
            ap (Remove.delete id) found ∙ done,
            vu,
            Perm.cons_inv {a = e} (
                Perm.trans
                  (subst (λ x. Perm (e ∷ x) (entries t)) (sym after)
                    (subst (λ x. Perm (e ∷ (xs ++ ys)) x) (sym before)
                      (Perm.symm (perm_middle xs ys))))
                  holds),
          )
    ]

-- The new entry among the rest, as the map has them.
pub with_put :
    (id score : ℤ) (m : GoMap ℤ ℤ) (xs rest : SortedSet)
    → Distinct m
    → Perm xs rest
    → Perm rest (bound (remove id m))
    → Perm (place (entry score id) xs) (bound (put id score m))
with_put id score m xs rest d p q =
    Perm.trans (place-perm (entry score id) xs) (
      Perm.trans (Perm.cons (entry score id) (Perm.trans p q)) (Perm.symm (bound-put id score m d)))

remove_new : (id : ℤ) (m : GoMap ℤ ℤ) → lookup id m ≡ none → Perm (bound m) (bound (remove id m))
remove_new id m h =
    subst (λ x. Perm (bound m) (bound x)) (sym (remove-absent id m h)) (Perm.refl (bound m))

-- A new user goes into the slice or into the tree.
pub insert_user_lem :
    (range : GoMap ℤ ℤ → List (ℤ × ℤ)) (id score : ℤ) (st : Storage) (t : Tree) (s : SortedSet)
    (m : GoMap ℤ ℤ)
    → let rs : RankSet = record { tree = t; slice = s; scores = m; storage = st } in
      IsConsistent rs
      → lookup id m ≡ none
      → (out : RankSet) × (insert_user range id score rs ≡ some out)
        × IsConsistent (put_score id score out)
        × (out.scores ≡ m)
unfolding insert_user
insert_user_lem range id score sorted_set t s m v new =
    let (sorted, no_tree) = v.stored in
    (
      record { tree = t; slice = place (entry score id) s; scores = m; storage = sorted_set },
      ap (Option.map (λ s'. record { tree = t; slice = s'; scores = m; storage = sorted_set }))
          (insert-eq-place s id score),
      record {
        distinct = Distinct-put id score m v.distinct;
        stored = (place-IsSorted (entry score id) s sorted, no_tree);
        holds = with_put id score m s (bound m) v.distinct v.holds (remove_new id m new);
      },
      refl,
    )
insert_user_lem range id score rbtree t s m v new =
    let (valid, no_slice) = v.stored in
    let (u, done, vu, placed) = insert_refines t score id valid in
    (
      record { tree = u; slice = s; scores = m; storage = rbtree },
      ap (Option.map (λ t'. record { tree = t'; slice = s; scores = m; storage = rbtree })) done,
      record {
        distinct = Distinct-put id score m v.distinct;
        stored = (vu, no_slice);
        holds =
            subst (λ x. Perm x (bound (put id score m))) (sym placed)
              (with_put id score m (entries t) (bound m) v.distinct v.holds (remove_new id m new));
      },
      refl,
    )

pub empty_tree : IsValid leaf
unfolding groups
empty_tree = record { balanced = (refl, 0, refl); ordered = tt; sized = tt; filled = tt }

-- The switch to the tree.
pub grown_lem :
    (range : GoMap ℤ ℤ → List (ℤ × ℤ)) (st : Storage) (t : Tree) (s : SortedSet) (m : GoMap ℤ ℤ)
    → ((m : GoMap ℤ ℤ) → Perm (range m) m)
    → let rs : RankSet = record { tree = t; slice = s; scores = m; storage = st } in
      IsConsistent rs → Updated m (grown range rs)
unfolding grown toggle toggle_to entries groups expand clear
grown_lem range rbtree t s m any_order v = (_, refl, v, refl)
grown_lem range sorted_set t s m any_order v =
    let (sorted, no_tree) = v.stored in
    let (u, done, vu, all) = all_into_tree_lem (range m) leaf empty_tree in
    if_both (Updated m) (ltb upper_threshold (length m))
      (toggle range (record { tree = t; slice = s; scores = m; storage = sorted_set }))
      (some (record { tree = t; slice = s; scores = m; storage = sorted_set }))
      (
        record { tree = u; slice = []; scores = m; storage = rbtree },
        ap (Option.map (λ t'. record { tree = t'; slice = []; scores = m; storage = rbtree }))
            (ap (all_into_tree (range m)) no_tree ∙ done),
        record {
          distinct = v.distinct;
          stored = (vu, refl);
          holds = Perm.trans all (
              subst (λ x. Perm x (bound m)) (sym (append-nil (bound (range m))))
                (bound-Perm (range m) m (any_order m)));
        },
        refl,
      )
      (_, refl, v, refl)
