-- ===== src/Rank/Set/Correct.antt =====
-- `Update`, `Delete`, `Rank` and `toggle` of RankSet.go on a rank set whose ranking and map agree.
use fkgo_server.Base.{
  ◌≤◌, ◌≡◌, refl, sym, ap, ◌∙◌, subst, inl, inr, none, some, List, [], ◌∷◌, ◌++◌, append-nil, arith,
  length, Option-cases,
}
use fkgo_server.Base.Int.{ℤ}
use mathlib.Core.Option
use mathlib.Core.Option.{some-injective}
use mathlib.Core.List.{Perm, perm_middle, mem-cons_self, mem-append_right}
use mathlib.Core.List.Perm
use fkgo_server.Base.Map.{GoMap, lookup, put, remove, int_eq}
use fkgo_server.Rank.SortedSet.{SortedSet}
use fkgo_server.Rank.SortedSet.Order.{place, place-perm}
use fkgo_server.Rank.SortedSet.Insert.{insert-eq-place}
use fkgo_server.Rank.Tree.{Tree, leaf, locate}
use fkgo_server.Rank.Tree.Entries.{entry, entries}
use fkgo_server.Rank.Tree.Insert
use fkgo_server.Rank.Tree.Remove
use fkgo_server.Rank.Tree.Insert.Correct.{insert_refines}
use fkgo_server.Rank.Tree.Remove.Refines.{delete_refines}
use fkgo_server.Rank.Set.{
  sorted_set, rbtree, RankSet, and_then, put_score, remove_score, score_of, toggle, toggle_to,
  toggle_into_slice, insert_user, change_user, update, shrunk, take_user, delete, lower_threshold,
}
use fkgo_server.Rank.Set.Content.{bound, Distinct-put, Distinct-remove, bound-known, no_binding}
use fkgo_server.Rank.Set.Update.{IsConsistent, Updated, taken, with_put, insert_user_lem, grown_lem}

module _ (range : GoMap ℤ ℤ → List (ℤ × ℤ)) (any_order : (m : GoMap ℤ ℤ) → Perm (range m) m) where
  -- `Update` of a new user, in a set whose ranking is in order and agrees with its map:
  -- whether or not the set moves to the tree, nothing panics, the ranking stays in order and
  -- agrees with the map, which has the new score.
  pub update_new :
      (id score : ℤ) (rs : RankSet)
      → IsConsistent rs
      → lookup id rs.scores ≡ none
      → Updated (put id score rs.scores) (update range id score rs)
  unfolding update
  update_new id score rs v new =
      let (g, e, vg, same) = grown_lem range rs.storage rs.tree rs.slice rs.scores any_order v in
      let (out, inserted, vo, kept) =
        insert_user_lem range id score g.storage g.tree g.slice g.scores vg
          (ap (lookup id) same ∙ new) in
      (
        put_score id score out,
        rw new (
            ap (λ o. Option.map (put_score id score) (and_then o (insert_user range id score))) e
            ∙ ap (Option.map (put_score id score)) inserted),
        vo,
        ap (put id score) (kept ∙ same),
      )

-- `Update` of a user of a set that stands in the tree and agrees with its map: no panic, the map
-- has the new score, and the ranking is in order and agrees with it again.
pub update_known :
    (range : GoMap ℤ ℤ → List (ℤ × ℤ)) (id old score : ℤ) (t : Tree) (m : GoMap ℤ ℤ)
    → let rs : RankSet = record { tree = t; slice = []; scores = m; storage = rbtree } in
      IsConsistent rs → lookup id m ≡ some old → Updated (put id score m) (update range id score rs)
unfolding update change_user
update_known range id old score t m v there =
    let (valid, _) = v.stored in
    let (u, gone, vu, rest) =
      taken t old id (bound (remove id m)) valid
        (Perm.trans v.holds (bound-known id old m v.distinct there)) in
    let (w, done, vw, placed) = insert_refines u score id vu in
    (
      record { tree = w; slice = []; scores = put id score m; storage = rbtree },
      rw there (
          ap
            (λ o. Option.map (put_score id score) (
              Option.map (λ t'. record { tree = t'; slice = []; scores = m; storage = rbtree })
                (and_then o (λ t'. Insert.insert t' score id))))
            gone
          ∙ ap
              (λ o. Option.map (put_score id score) (
                Option.map (λ t'. record { tree = t'; slice = []; scores = m; storage = rbtree })
                  o))
              done),
      record {
        distinct = Distinct-put id score m v.distinct;
        stored = (vw, refl);
        holds =
            subst (λ x. Perm x (bound (put id score m))) (sym placed)
              (with_put id score m (entries u) (bound (remove id m)) v.distinct rest
                (Perm.refl (bound (remove id m))));
      },
      refl,
    )

-- A rank set that stands in the tree.
abbrev pub in_tree : Tree → GoMap ℤ ℤ → RankSet
in_tree t m = record { tree = t; slice = []; scores = m; storage = rbtree }

module _ (range : GoMap ℤ ℤ → List (ℤ × ℤ)) (id : ℤ) (t : Tree) (m : GoMap ℤ ℤ)
    (large : lower_threshold ≤ length m) where
  stays : shrunk range (in_tree t m) ≡ some (in_tree t m)
  unfolding shrunk
  stays = ground arith

  -- `Delete` of a user of a set that stands in the tree, agrees with its map and has at least
  -- 512 users, so that it stays there: no panic, and just that user is gone from the ranking
  -- and from the map.
  pub delete_known :
      (old : ℤ)
      → IsConsistent (in_tree t m)
      → lookup id m ≡ some old
      → Updated (remove id m) (delete range id (in_tree t m))
  unfolding delete take_user
  delete_known old v there =
      let (valid, _) = v.stored in
      let (u, gone, vu, rest) =
        taken t old id (bound (remove id m)) valid
          (Perm.trans v.holds (bound-known id old m v.distinct there)) in
      let gone_here : Remove.delete id (locate t (score_of id m) id) ≡ some u =
        rw (score_of, there) gone in
      (
        record { tree = u; slice = []; scores = remove id m; storage = rbtree },
        ap (λ o. Option.map (remove_score id) (and_then o (take_user range id))) stays
            ∙ ap
                (λ o. Option.map (remove_score id) (
                  Option.map (λ t'. record { tree = t'; slice = []; scores = m; storage = rbtree })
                    o))
                gone_here,
        record { distinct = Distinct-remove id m v.distinct; stored = (vu, refl); holds = rest },
        refl,
      )

  -- `Delete` of a user that a set in the tree, in agreement with its map and with at least 512
  -- users, does not have: the nil node of `Locate` panics.
  pub delete_unknown_panics :
      IsConsistent (in_tree t m) → lookup id m ≡ none → delete range id (in_tree t m) ≡ none
  unfolding delete take_user Remove.delete
  delete_unknown_panics v new =
      let (valid, _) = v.stored in
      let lost : locate t (score_of id m) id ≡ none =
        elim (Option-cases (locate t (score_of id m) id)) [
          | inl e ↦ e
          | inr (n, found) ↦
              let (u, xs, ys, _, _, before, _, _) =
                delete_refines t (score_of id m) id n valid found in
              let there : Perm (xs ++ (entry (score_of id m) id ∷ ys)) (bound m) =
                subst (λ x. Perm x (bound m)) before v.holds in
              absurd (
                no_binding id (score_of id m) m new
                  ((Perm.mem_iff there).0 (mem-append_right xs mem-cons_self)))
        ] in
      ap (λ o. Option.map (remove_score id) (and_then o (take_user range id))) stays
      ∙ ap
          (λ o. Option.map (remove_score id) (
            Option.map (λ t'. record { tree = t'; slice = []; scores = m; storage = rbtree })
              (Remove.delete id o)))
          lost

-- An entry with its two numbers exchanged.
abbrev pub swapped : List (ℤ × ℤ) → SortedSet
swapped [] = []
swapped ((id, score) ∷ es) = entry id score ∷ swapped es

toggle_into_slice_lem :
    (es : List (ℤ × ℤ)) (s : SortedSet)
    → (out : SortedSet) × (toggle_into_slice es s ≡ some out) × Perm out (swapped es ++ s)
unfolding toggle_into_slice
toggle_into_slice_lem [] s = (s, refl, Perm.refl s)
toggle_into_slice_lem ((id, score) ∷ es) s =
    let (out, done, all) = toggle_into_slice_lem es (place (entry id score) s) in
    (
      out,
      ap (λ o. and_then o (toggle_into_slice es)) (insert-eq-place s score id) ∙ done,
      Perm.trans all (
          Perm.trans (Perm.append_left (swapped es) (place-perm (entry id score) s))
            (perm_middle (swapped es) s)),
    )

-- The way back of a set from the tree to an empty slice exchanges the id and the score of every
-- user: the slice holds the exchanged bindings of the map.
pub toggle_swaps :
    (range : GoMap ℤ ℤ → List (ℤ × ℤ)) (t : Tree) (m : GoMap ℤ ℤ)
    → (out : RankSet) × (toggle range
          (record { tree = t; slice = []; scores = m; storage = rbtree })
        ≡ some out)
      × (out.storage ≡ sorted_set)
      × (out.scores ≡ m)
      × Perm out.slice (swapped (range m))
unfolding toggle toggle_to
toggle_swaps range t m =
    let (s, done, all) = toggle_into_slice_lem (range m) [] in
    (
      record { tree = leaf; slice = s; scores = m; storage = sorted_set },
      ap (Option.map (λ s'. record { tree = leaf; slice = s'; scores = m; storage = sorted_set }))
          done,
      refl,
      refl,
      subst (Perm s) (append-nil (swapped (range m))) all,
    )
