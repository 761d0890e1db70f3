-- ===== src/Rank/Set/Restore.antt =====
-- `Rank`, `Marshal` and `Unmarshal` of RankSet.go.
use fkgo_server.Base.{
  ℕ, ◌+◌, ◌≡◌, refl, sym, ap, ◌∙◌, subst, inl, inr, true, Option, none, some, List, [], ◌∷◌, ◌++◌,
  append-nil, arith, length, ltb, Option-cases, if_both,
}
use fkgo_server.Base.Int.{ℤ, to_int32}
use mathlib.Core.Option
use mathlib.Core.List.{Perm, perm_middle, Mem, mem-cons_self, append_of_mem}
use mathlib.Core.List.Perm
use mathlib.Core.Logic.{∥∥₁_elim}
use mathlib.Core.HLevel.{⊥_prop}
use fkgo_server.Base.Map.{GoMap, lookup, int_eq}
use fkgo_server.Rank.SortedSet.{SortedSet}
use fkgo_server.Rank.SortedSet.Order.{IsSorted, place, place-perm, place-IsSorted}
use fkgo_server.Rank.SortedSet.Insert.{insert-eq-place}
use fkgo_server.Rank.Tree.{Tree, leaf, locate}
use fkgo_server.Rank.Tree.Groups.{groups}
use fkgo_server.Rank.Tree.Entries.{entry, entries, expand}
use fkgo_server.Rank.Tree.Remove.Refines.{delete_refines}
use fkgo_server.Rank.Tree.Locate.{locate_complete}
use fkgo_server.Rank.Set.{
  sorted_set, rbtree, RankSet, new_rank_set, and_then, score_of, all_into_tree, all_into_slice,
  restored, marshal, unmarshal, rank, found_rank, upper_threshold,
}
use fkgo_server.Rank.Set.Content.{bound, Distinct, bound-known, bound-Perm}
use fkgo_server.Rank.Set.Update.{IsConsistent, all_into_tree_lem, empty_tree}

-- `Rank` of a user of a set in the tree: the position in the ranking, counted from 1, as an `int32`, and the
-- score.
pub rank_correct :
    (id score : ℤ) (t : Tree) (m : GoMap ℤ ℤ)
    → let rs : RankSet = record { tree = t; slice = []; scores = m; storage = rbtree } in
      IsConsistent rs
      → lookup id m ≡ some score
      → (xs : SortedSet) × (ys : SortedSet) × (entries t ≡ xs ++ (entry score id ∷ ys))
        × (rank id rs ≡ (to_int32 (length xs + 1), score))
unfolding rank
rank_correct id score t m v there =
    let (valid, _) = v.stored in
    let here : Mem (entry score id) (entries t) =
      (Perm.mem_iff (Perm.trans v.holds (bound-known id score m v.distinct there))).1
        mem-cons_self in
    elim (Option-cases (locate t score id)) [
      | inl lost ↦ absurd (
          ∥∥₁_elim (append_of_mem here) ⊥_prop (λ (xs, ys, split).
            let (n, found) = locate_complete t score id xs ys valid split in
            let both : none ≡ some n = sym lost ∙ found in absurd (ground arith)))
      | inr (n, found) ↦
          let (u, xs, ys, _, _, before, _, at) = delete_refines t score id n valid found in
          (
            xs,
            ys,
            before,
            rw (score_of, there)
                (ap (λ o. (found_rank o, score)) found ∙ ap (λ r. (to_int32 r, score)) at),
          )
    ]

all_into_slice_lem :
    (es : List (ℤ × ℤ)) (s : SortedSet)
    → IsSorted s
    → (out : SortedSet) × (all_into_slice es s ≡ some out) × IsSorted out × Perm out (bound es ++ s)
unfolding all_into_slice
all_into_slice_lem [] s h = (s, refl, h, Perm.refl s)
all_into_slice_lem ((id, score) ∷ es) s h =
    let e = entry score id in
    let (out, done, sorted, all) = all_into_slice_lem es (place e s) (place-IsSorted e s h) in
    (
      out,
      ap (λ o. and_then o (all_into_slice es)) (insert-eq-place s id score) ∙ done,
      sorted,
      Perm.trans all
          (Perm.trans (Perm.append_left (bound es) (place-perm e s)) (perm_middle (bound es) s)),
    )

restored_lem :
    (range : GoMap ℤ ℤ → List (ℤ × ℤ)) (m : GoMap ℤ ℤ)
    → Perm (range m) m
    → Distinct m
    → (out : RankSet) × (restored range m new_rank_set ≡ some out)
      × IsConsistent out
      × (out.scores ≡ m)
unfolding restored entries groups expand
restored_lem range m any_order d =
    let (u, grown, vu, in_tree) = all_into_tree_lem (range m) leaf empty_tree in
    let (s, filled, sorted, in_slice) = all_into_slice_lem (range m) [] tt in
    let same = bound-Perm (range m) m any_order in
    let bare : (xs : SortedSet) → Perm xs (bound (range m) ++ []) → Perm xs (bound m) =
      λ xs p. Perm.trans (subst (Perm xs) (append-nil (bound (range m))) p) same in
    if_both (λ o. (out : RankSet) × (o ≡ some out) × IsConsistent out × (out.scores ≡ m))
      (ltb upper_threshold (length m))
      (Option.map (λ t. record { tree = t; slice = []; scores = m; storage = rbtree })
        (all_into_tree (range m) leaf))
      (Option.map (λ s'. record { tree = leaf; slice = s'; scores = m; storage = sorted_set })
        (all_into_slice (range m) []))
      (
        record { tree = u; slice = []; scores = m; storage = rbtree },
        ap (Option.map (λ t. record { tree = t; slice = []; scores = m; storage = rbtree })) grown,
        record { distinct = d; stored = (vu, refl); holds = bare (entries u) in_tree },
        refl,
      )
      (
        record { tree = leaf; slice = s; scores = m; storage = sorted_set },
        ap (Option.map (λ s'. record { tree = leaf; slice = s'; scores = m; storage = sorted_set }))
            filled,
        record { distinct = d; stored = (sorted, refl); holds = bare s in_slice },
        refl,
      )

-- `Unmarshal` into a new set.
pub unmarshal_correct :
    (range : GoMap ℤ ℤ → List (ℤ × ℤ)) (decode : List ℕ → Option (GoMap ℤ ℤ)) (bin : List ℕ)
    (m : GoMap ℤ ℤ)
    → Perm (range m) m
    → Distinct m
    → decode bin ≡ some m
    → (out : RankSet) × (unmarshal range decode bin new_rank_set ≡ some (true, out))
      × IsConsistent out
      × (out.scores ≡ m)
unfolding unmarshal
unmarshal_correct range decode bin m any_order d read =
    let (out, done, vo, same) = restored_lem range m any_order d in
    (out, rw (unmarshal, read) (ap (Option.map (λ x. (true, x))) done), vo, same)

-- A set that agrees with its map, written without an error and read into a new one: no error and
-- no panic, the same scores, and a ranking in order that agrees with them.
pub marshal_RoundTrip :
    (range : GoMap ℤ ℤ → List (ℤ × ℤ)) (encode : GoMap ℤ ℤ → Option (List ℕ))
    (decode : List ℕ → Option (GoMap ℤ ℤ))
    → ((m : GoMap ℤ ℤ) → Perm (range m) m)
    → ((m : GoMap ℤ ℤ) (bin : List ℕ) → encode m ≡ some bin → decode bin ≡ some m)
    → (rs : RankSet) (bin : List ℕ) → IsConsistent rs
    → marshal encode rs ≡ some bin
    → (out : RankSet) × (unmarshal range decode bin new_rank_set ≡ some (true, out))
      × IsConsistent out
      × (out.scores ≡ rs.scores)
unfolding unmarshal marshal
marshal_RoundTrip range encode decode any_order inverse rs bin v written =
    unmarshal_correct range decode bin rs.scores (any_order rs.scores) v.distinct
      (inverse rs.scores bin written)
