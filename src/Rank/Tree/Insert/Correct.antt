-- ===== src/Rank/Tree/Insert/Correct.antt =====
-- `Insert` of Dos.go as a whole: it keeps the invariant of the tree and does what `Insert` of the slice
-- does.
use fkgo_server.Base.{
  ℕ, ◌+◌, ◌≡◌, refl, sym, ap, ◌∙◌, subst, inl, inr, some, [], ◌∷◌, ◌++◌, Bool-cases,
}
use fkgo_server.Base.Int.{ℤ, ltb_ℤ, eqb_ℤ}
use fkgo_server.Rank.SortedSet.Order.{place}
use fkgo_server.Rank.Tree.{red, Tree, leaf, node, at_left, at_right, Frames}
use fkgo_server.Rank.Tree.Groups.{groups, Sized}
use fkgo_server.Rank.Tree.Order.{Ordered, Ordered-put}
use fkgo_server.Rank.Tree.Entries.{entry, expand, entries, Filled, Filled-put, expand-put}
use fkgo_server.Rank.Tree.Balance.{
  IsRedBlack, Rebalanced, IsRedBlack-plug, Stands, go_left, go_right,
}
use fkgo_server.Rank.Tree.Insert.{
  insert_from, insert_from_here, insert_from_left, insert_from_right, insert,
}
use fkgo_server.Rank.Tree.Insert.Balance.{insert_case1_lem}
use fkgo_server.Rank.Tree.Insert.Content.{insert_content}

-- The invariant of a tree.
pub record IsValid (t : Tree) : Type 0 where
  pub balanced : IsRedBlack t
  pub ordered : Ordered (groups t)
  pub sized : Sized t
  pub filled : Filled (groups t)

insert_from_lem :
    (score id : ℤ) (n : ℕ) (t : Tree) (path : Frames)
    → Stands n t path
    → Rebalanced (insert_from score id t path)
unfolding insert_from
insert_from_lem score id n leaf path (b, p, a) =
    insert_case1_lem n (node leaf red 1 score (id ∷ []) leaf) path refl
      (inl (refl, b, b, refl, refl)) p
insert_from_lem score id n (node l c s k ids r) path h = elim (Bool-cases (eqb_ℤ score k)) [
  | inl same ↦ (
    _,
    insert_from_here score id l c s k ids r path same,
    IsRedBlack-plug n (node l c (s + 1) k (ids ++ (id ∷ [])) r) path h.0 h.1 h.2,
  )
  | inr other ↦ elim (Bool-cases (ltb_ℤ k score)) [
    | inl up ↦
        let (m, below) = go_left n l c s (s + 1) k k ids ids r path h in
        subst Rebalanced (sym (insert_from_left score id l c s k ids r path other up))
          (insert_from_lem score id m l (at_left c (s + 1) k ids r ∷ path) below)
    | inr down ↦
        let (m, below) = go_right n l c s (s + 1) k k ids ids r path h in
        subst Rebalanced (sym (insert_from_right score id l c s k ids r path other down))
          (insert_from_lem score id m r (at_right l c (s + 1) k ids ∷ path) below)
  ]
]

-- On a tree that keeps the invariant `Insert` does not panic; the new tree keeps it, and its entries
-- are those of the old one with the new entry behind all of the same or a higher score, as in the slice.
pub insert_refines :
    (t : Tree) (score id : ℤ)
    → IsValid t
    → (u : Tree) × (insert t score id ≡ some u)
      × IsValid u
      × (entries u ≡ place (entry score id) (entries t))
unfolding insert entries
insert_refines t score id v =
    let (u, found, balanced) =
      insert_from_lem score id v.balanced.1 t [] (v.balanced.2, tt, inl v.balanced.0) in
    let (content, keeps_size) = insert_content t score id u v.ordered found in
    (
      u,
      found,
      record {
        balanced = balanced;
        ordered = subst Ordered (sym content) (Ordered-put score id (groups t) v.ordered);
        sized = keeps_size v.sized;
        filled = subst Filled (sym content) (Filled-put score id (groups t) v.filled);
      },
      ap expand content ∙ expand-put score id (groups t) v.ordered v.filled,
    )
