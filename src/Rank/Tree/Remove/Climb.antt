-- ===== src/Rank/Tree/Remove/Climb.antt =====
-- `delete_case1` to `delete_case3` of Dos.go never panic on a red-black tree, end with the fuel they get,
-- and give a red-black tree back.
use fkgo_server.Base.{
  ℕ, zero, suc, ◌<◌, ◌≡◌, refl, sym, ap, ◌∙◌, subst, ◌⊎◌, inl, inr, Option, some, [], ◌∷◌, arith,
  length, Bool-cases,
}
use fkgo_server.Rank.Tree.{
  red, black, Tree, leaf, node, Frame, at_left, at_right, Frames, fill, node_size, node_color,
  frame_color, sibling,
}
use fkgo_server.Rank.Tree.Balance.{
  Balanced, BalancedPath, Rebalanced, fill-black, node_color-fill, sibling-set,
}
use fkgo_server.Rank.Tree.Remove.{
  rotate_up, near_far, paint_sibling, delete_case4, delete_case3, red_sibling, case3_below,
  delete_case2, delete_case1,
}
use fkgo_server.Rank.Tree.Remove.Balance.{
  Upper, near_of, far_of, near_far_lem, sibling-red, case4_red, case4_lem, case3_climbs,
  case3_passes,
}

-- `delete_case1` on what is above: `up` rebalances the subtree at the parent.
abbrev Climbs : ℕ → (ℕ → Tree → Option Tree) → Frames → Type 0
Climbs h up path =
    (z : ℕ) (u : Tree)
    → Balanced h u
    → BalancedPath (suc h) path
    → node_color u ≡ black
    → Rebalanced (up z u)

case3_lem :
    (h sz : ℕ) (up : ℕ → Tree → Option Tree) (t : Tree) (p : Frame) (path : Frames)
    → Balanced h t
    → BalancedPath (suc h) (p ∷ path)
    → node_color (sibling p) ≡ black
    → (frame_color p ≡ black → Climbs (suc h) up path)
    → Rebalanced (delete_case3 up sz t p path (near_far p))
case3_lem h sz up t p path bt bp e climb =
    let near = near_of p in
    let far = far_of p in
    let q = paint_sibling red p in
    let passes : (frame_color p ≡ red) ⊎ ((node_color near ≡ red) ⊎ (node_color far ≡ red))
        → Rebalanced (delete_case4 sz t p path (some (near, far)))
        → Rebalanced (delete_case3 up sz t p path (some (near, far))) =
      λ some_red r. subst Rebalanced (sym (case3_passes sz t p path near far e up some_red)) r in
    let child : (node_color near ≡ red) ⊎ (node_color far ≡ red)
        → Rebalanced (delete_case3 up sz t p path (some (near, far))) =
      λ some_red. passes (inr some_red) (case4_red h sz t p path bt bp e some_red) in
    subst (λ o. Rebalanced (delete_case3 up sz t p path o)) (sym (near_far_lem h p bp.0))
      (elim (Bool-cases (frame_color p)) [
        | inl ep ↦ passes (inl ep) (case4_lem h sz t p path bt bp e ep)
        | inr ep ↦ elim (Bool-cases (node_color near)) [
          | inl en ↦ child (inl en)
          | inr en ↦ elim (Bool-cases (node_color far)) [
            | inl ef ↦ child (inr ef)
            | inr ef ↦ subst Rebalanced (sym (case3_climbs sz t p path near far e up ep en ef)) (
                climb ep (node_size (fill t p)) (fill t q)
                  (fill-black h t q (color_kept p ∙ ep) bt
                    (subst (Balanced h) (sym (sibling-set p _)) (sibling-red h p bp.0 e en ef)))
                  (above bp.1 ep) (node_color-fill t q ∙ color_kept p ∙ ep))
          ]
        ]
      ])
  where
    color_kept : (p : Frame) → frame_color (paint_sibling red p) ≡ frame_color p
    color_kept (at_left c s k ids r) = refl
    color_kept (at_right l c s k ids) = refl

    above :
        Upper (suc h) (frame_color p) (sibling p) path
        → frame_color p ≡ black
        → BalancedPath (suc (suc h)) path
    above (inl u) ep = let red_here = u.0 in absurd (ground arith)
    above (inr (_, u)) ep = u

-- A red sibling comes up: the node has a red parent and a black sibling then.
red_sibling_lem :
    (n sz : ℕ) (p : Frame) (path : Frames)
    → BalancedPath n (p ∷ path)
    → node_color (sibling p) ≡ red
    → (q : Frame) × (s : Frame) × (red_sibling sz p ≡ some (q, s))
      × BalancedPath n (q ∷ s ∷ path)
      × (frame_color q ≡ red)
      × (node_color (sibling q) ≡ black)
unfolding red_sibling rotate_up
red_sibling_lem n sz p path (bs, inl u) e = let black_here = u.1 in absurd (ground arith)
red_sibling_lem n sz (at_left c s k ids leaf) path (bs, inr u) e = absurd (ground arith)
red_sibling_lem n sz (at_left c s k ids (node rl rc rs rk rids rr)) path (inr i, inr u) e =
    let black_here = i.0 in absurd (ground arith)
red_sibling_lem n sz (at_left c s k ids (node rl rc rs rk rids rr)) path
      (inl (_, bl, br, hl, hr), inr (ep, u)) e =
    (_, _, refl, (bl, inl (refl, hl, refl, (br, inr (refl, u)))), refl, hl)
red_sibling_lem n sz (at_right leaf c s k ids) path (bs, inr u) e = absurd (ground arith)
red_sibling_lem n sz (at_right (node ll lc ls lk lids lr) c s k ids) path (inr i, inr u) e =
    let black_here = i.0 in absurd (ground arith)
red_sibling_lem n sz (at_right (node ll lc ls lk lids lr) c s k ids) path
      (inl (_, bl, br, hl, hr), inr (ep, u)) e =
    (_, _, refl, (br, inl (refl, hr, refl, (bl, inr (refl, u)))), refl, hr)

-- The root is black, where there is no parent.
abbrev pub Rooted : Tree → Frames → Type 0
Rooted t [] = node_color t ≡ black
Rooted t (p ∷ path) = Unit

module _ (n sz : ℕ) (t : Tree) (p : Frame) (path : Frames) where
  case2_red :
      (q s : Frame)
      → node_color (sibling p) ≡ red
      → red_sibling sz p ≡ some (q, s)
      → delete_case1 (suc n) sz t (p ∷ path)
        ≡ delete_case3 (λ z u. delete_case1 n z u (s ∷ path)) sz t q (s ∷ path) (near_far q)
  unfolding delete_case1 delete_case2 case3_below
  case2_red q s e rot = rw (delete_case2, e) (ap (case3_below (delete_case1 n) sz t path) rot)

  case2_black :
      node_color (sibling p) ≡ black
      → delete_case1 (suc n) sz t (p ∷ path)
        ≡ delete_case3 (λ z u. delete_case1 n z u path) sz t p path (near_far p)
  unfolding delete_case1 delete_case2
  case2_black e = rw (delete_case2, e) refl

-- A subtree that lacks one black node on every way down, at the end of a path of the tree: with more fuel
-- than the path is long, the cases of `Delete` end without a panic, and the tree is red-black again.
pub delete_case1_lem :
    (n h sz : ℕ) (t : Tree) (path : Frames)
    → length path < n
    → Balanced h t
    → BalancedPath (suc h) path
    → Rooted t path
    → Rebalanced (delete_case1 n sz t path)
unfolding delete_case1
delete_case1_lem zero h sz t path enough bt bp root = absurd (omega arith)
delete_case1_lem (suc n) h sz t [] enough bt bp root = (t, refl, (root, h, bt))
delete_case1_lem (suc n) h sz t (p ∷ path) enough bt bp root =
    elim (Bool-cases (node_color (sibling p))) [
      | inl e ↦
          let (q, s, rot, bq, cq, hq) = red_sibling_lem (suc h) sz p path bp e in
          subst Rebalanced (sym (case2_red n sz t p path q s e rot)) (
            case3_lem h sz (λ z u. delete_case1 n z u (s ∷ path)) t q (s ∷ path) bt bq hq
              (λ eq. absurd (ground arith)))
      | inr e ↦ subst Rebalanced (sym (case2_black n sz t p path e)) (
          case3_lem h sz (λ z u. delete_case1 n z u path) t p path bt bp e
            (λ ep z u bu bpath hu.
              delete_case1_lem n (suc h) z u path (omega (arith, enough)) bu bpath
                (at_root u path hu)))
    ]
  where
    at_root : (u : Tree) (path : Frames) → node_color u ≡ black → Rooted u path
    at_root u [] hu = hu
    at_root u (f ∷ path) hu = tt
