-- ===== src/Rank/Tree/Remove/Correct.antt =====
-- `Delete` of Dos.go at a node that has the id.
use fkgo_server.Base.{
  ℕ, ◌+◌, ◌≡◌, refl, sym, ap, ◌∙◌, subst, ◌⊎◌, inl, inr, Bool, true, false, Option, some, List, [],
  ◌∷◌, arith, length,
}
use fkgo_server.Base.Int.{ℤ}
use fkgo_server.Rank.Tree.{black, Tree, leaf, node, Frames, plug, node_size, node_color}
use fkgo_server.Rank.Tree.Groups.{
  Group, groups, Sized, SizedPath, Sized-plug, Same, SameSome, Same-refl, Same-paint,
}
use fkgo_server.Rank.Tree.Balance.{
  Balanced, BalancedPath, IsRedBlack, Rebalanced, paint_root, IsRedBlack-plug, Stands,
}
use fkgo_server.Rank.Tree.Place.{Alike, Stands-Alike}
use fkgo_server.Rank.Tree.Remove.{replace, remove_node}
use fkgo_server.Rank.Tree.Remove.Content.{delete_case1-Same}
use fkgo_server.Rank.Tree.Remove.Climb.{delete_case1_lem}

replace-Same :
    (c : Bool) (t : Tree) (path : Frames) → SameSome (plug t path) (replace c (node_size t) t path)
replace-Same c t [] = Same-paint black t
replace-Same true t (p ∷ path) = Same-refl _
replace-Same false t (p ∷ path) = delete_case1-Same (length path + 2) t (p ∷ path)

-- The child of a node with at most one child.
abbrev OnlyChild : Tree → Tree → Tree → Type 0
OnlyChild t l r = ((t ≡ l) × (r ≡ leaf)) ⊎ ((t ≡ r) × (l ≡ leaf))

-- A child alone in the place of its parent.
replace_lem :
    (n sz : ℕ) (l : Tree) (c : Bool) (s : ℕ) (k : ℤ) (ids : List ℤ) (r t : Tree) (path : Frames)
    → OnlyChild t l r
    → Stands n (node l c s k ids r) path
    → Rebalanced (replace c sz t path)
replace_lem n sz l c s k ids r t [] only (b, p, a) = (
  _,
  refl,
  elim b [
    | inl (_, bl, br, _, _) ↦ elim only [
      | inl (e, _) ↦ paint_root n t (subst (Balanced n) (sym e) bl)
      | inr (e, _) ↦ paint_root n t (subst (Balanced n) (sym e) br)
    ]
    | inr (_, m, _, bl, br) ↦ elim only [
      | inl (e, _) ↦ paint_root m t (subst (Balanced m) (sym e) bl)
      | inr (e, _) ↦ paint_root m t (subst (Balanced m) (sym e) br)
    ]
  ],
)
replace_lem n sz l c s k ids r t (f ∷ path) only (inl (ec, bl, br, hl, hr), p, a) =
    let bt : Balanced n t = elim only [
      | inl (e, _) ↦ subst (Balanced n) (sym e) bl
      | inr (e, _) ↦ subst (Balanced n) (sym e) br
    ] in
    let ht : node_color t ≡ black = elim only [
      | inl (e, _) ↦ ap node_color e ∙ hl
      | inr (e, _) ↦ ap node_color e ∙ hr
    ] in
    (_, rw ec refl, IsRedBlack-plug n t (f ∷ path) bt p (inl ht))
replace_lem n sz l c s k ids r t (f ∷ path) only (inr (ec, m, en, bl, br), p, a) =
    let bt : Balanced m t = elim only [
      | inl (e, _) ↦ subst (Balanced m) (sym e) bl
      | inr (e, _) ↦ subst (Balanced m) (sym e) br
    ] in
    let (u, found, v) =
      delete_case1_lem (length path + 2) m sz t (f ∷ path) (omega arith) bt
        (subst (λ i. BalancedPath i (f ∷ path)) en p) tt in
    (u, rw ec found, v)

-- The node goes, and its child stands above the smaller sizes: a red-black tree with the rest.
abbrev pub Removed : List Group → Option Tree → Type 0
Removed gs o = (u : Tree) × (o ≡ some u) × IsRedBlack u × Sized u × (groups u ≡ gs)

same-Removed :
    (w : Tree) (o : Option Tree) → Rebalanced o → SameSome w o → Sized w → Removed (groups w) o
same-Removed w o (u, found, v) same hw =
    let kept : Same w u = subst (SameSome w) found same in
    (u, found, v, kept.sized hw, kept.same_groups)

replaced :
    (n : ℕ) (l : Tree) (c : Bool) (s : ℕ) (k : ℤ) (ids : List ℤ) (r t : Tree) (path path' : Frames)
    → OnlyChild t l r
    → Stands n (node l c s k ids r) path
    → Alike path path'
    → Sized t
    → SizedPath (node_size t) path'
    → Removed (groups (plug t path')) (replace c (node_size t) t path')
replaced n l c s k ids r t path path' only stands alike ht hp =
    same-Removed (plug t path') (replace c (node_size t) t path')
      (replace_lem n (node_size t) l c s k ids r t path' only
        (Stands-Alike n (node l c s k ids r) path path' alike stands))
      (replace-Same c t path') (Sized-plug t path' ht hp)

-- A node with at most one child goes.
pub remove_node_lem :
    (n : ℕ) (l : Tree) (c : Bool) (s : ℕ) (k : ℤ) (ids : List ℤ) (r t : Tree) (path path' : Frames)
    → OnlyChild t l r
    → Stands n (node l c s k ids r) path
    → Alike path path'
    → Sized t
    → SizedPath (node_size t) path'
    → Removed (groups (plug t path')) (remove_node l c (node_size t) r path')
unfolding remove_node
remove_node_lem n l c s k ids leaf t path path' (inl (e, el)) stands alike ht hp =
    subst (λ x. Removed (groups (plug t path')) (replace c (node_size t) x path')) e
      (replaced n l c s k ids leaf t path path' (inl (e, el)) stands alike ht hp)
remove_node_lem n l c s k ids leaf t path path' (inr (e, el)) stands alike ht hp =
    subst (λ x. Removed (groups (plug t path')) (replace c (node_size t) x path')) (e ∙ sym el)
      (replaced n l c s k ids leaf t path path' (inr (e, el)) stands alike ht hp)
remove_node_lem n l c s k ids (node rl rc rs rk rids rr) t path path' (inl (e, el)) stands alike ht
      hp =
    absurd (ground arith)
remove_node_lem n l c s k ids (node rl rc rs rk rids rr) t path path' (inr (e, el)) stands alike ht
      hp =
    subst (λ x. Removed (groups (plug t path')) (replace c (node_size t) x path')) e
      (replaced n l c s k ids (node rl rc rs rk rids rr) t path path' (inr (e, el)) stands alike ht
        hp)
