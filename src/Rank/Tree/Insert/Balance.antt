-- ===== src/Rank/Tree/Insert/Balance.antt =====
-- The cases of `Insert` of Dos.go never panic on a red-black tree, and give a red-black tree back.
use fkgo_server.Base.{
  ℕ, suc, ◌≡◌, refl, sym, ap, ◌∙◌, subst, inl, inr, some, [], ◌∷◌, arith, Bool-cases,
}
use fkgo_server.Rank.Tree.{
  red, black, Tree, leaf, node, Frame, at_left, at_right, Frames, fill, plug, node_color,
  rotate_left, rotate_right, paint, paint_frame, frame_color, sibling, set_sibling,
}
use fkgo_server.Rank.Tree.Balance.{
  Balanced, BalancedPath, Rebalanced, fill-red, fill-black, node_color-fill, frame_color-paint,
  sibling-paint, sibling-set, paint-black, paint_root, node_color-paint, IsRedBlack-plug,
}
use fkgo_server.Rank.Tree.Insert.{
  insert_case5, down_left, down_right, case5_at, insert_case4, recolor, plug_some, insert_case1,
}

-- Two black subtrees of a red node `n` below a red parent with a black sibling, and a black uncle: the
-- rotations give a black tree with one more black node on every way.
insert_case4_lem :
    (n : ℕ) (t : Tree) (p g : Frame)
    → node_color t ≡ red
    → frame_color p ≡ red
    → Balanced n t
    → Balanced n (sibling p)
    → node_color (sibling p) ≡ black
    → Balanced n (sibling g)
    → node_color (sibling g) ≡ black
    → (u : Tree) × (insert_case4 t p g ≡ some u) × Balanced (suc n) u × (node_color u ≡ black)
unfolding insert_case4 insert_case5 case5_at down_left down_right rotate_left rotate_right
insert_case4_lem n leaf p g e ep bt bp hp bg hg = absurd (ground arith)
insert_case4_lem n (node l c s k ids r) p g e ep (inr h) bp hp bg hg =
    let black_here = h.0 in absurd (ground arith)
insert_case4_lem n (node l c s k ids r) (at_left pc ps pk pids pr) (at_left gc gs gk gids gr) e ep
      (inl bt) bp hp bg hg =
    (_, refl, inr (refl, n, refl, inl bt, inl (refl, bp, bg, hp, hg)), refl)
insert_case4_lem n (node l c s k ids r) (at_right pl pc ps pk pids) (at_right gl gc gs gk gids) e ep
      (inl bt) bp hp bg hg =
    (_, refl, inr (refl, n, refl, inl (refl, bg, bp, hg, hp), inl bt), refl)
insert_case4_lem n (node l c s k ids r) (at_right pl pc ps pk pids) (at_left gc gs gk gids gr) e ep
      (inl (_, bl, br, hl, hr)) bp hp bg hg =
    (_, refl, inr (refl, n, refl, inl (ep, bp, bl, hp, hl), inl (refl, br, bg, hr, hg)), refl)
insert_case4_lem n (node l c s k ids r) (at_left pc ps pk pids pr) (at_right gl gc gs gk gids) e ep
      (inl (_, bl, br, hl, hr)) bp hp bg hg =
    (_, refl, inr (refl, n, refl, inl (refl, bg, bl, hg, hl), inl (ep, br, bp, hr, hp)), refl)

-- The three ways of `insert_case3`.
module _ (t : Tree) (p g : Frame) (path : Frames) where
  case1_black : frame_color p ≡ black → insert_case1 t (p ∷ g ∷ path) ≡ some (plug t (p ∷ g ∷ path))
  unfolding insert_case1
  case1_black e = rw (insert_case1, e) refl

  case1_red :
      frame_color p ≡ red
      → node_color (sibling g) ≡ red
      → insert_case1 t (p ∷ g ∷ path) ≡ insert_case1 (recolor t p g) path
  unfolding insert_case1
  case1_red e h = rw (insert_case1, e, h) refl

  case1_turn :
      frame_color p ≡ red
      → node_color (sibling g) ≡ black
      → insert_case1 t (p ∷ g ∷ path) ≡ plug_some (insert_case4 t p g) path
  unfolding insert_case1
  case1_turn e h = rw (insert_case1, e, h) refl

recolor-Balanced :
    (n : ℕ) (t : Tree) (p g : Frame)
    → Balanced n t
    → Balanced n (sibling p)
    → Balanced n (sibling g)
    → node_color (sibling g) ≡ red
    → Balanced (suc n) (recolor t p g)
recolor-Balanced n t p g bt bp bg hg =
    let upper = fill t (paint_frame black p) in
    let aunt = set_sibling g (paint black (sibling g)) in
    fill-red (suc n) upper (paint_frame red aunt) (frame_color-paint red aunt)
      (fill-black n t (paint_frame black p) (frame_color-paint black p) bt
        (subst (Balanced n) (sym (sibling-paint black p)) bp))
      (subst (Balanced (suc n)) (sym (sibling-paint red aunt ∙ sibling-set g _))
        (paint-black n (sibling g) hg bg))
      (node_color-fill t (paint_frame black p) ∙ frame_color-paint black p)
      (ap node_color (sibling-paint red aunt ∙ sibling-set g _) ∙ node_color-paint (sibling g))

-- A red subtree in the place of a red or black one: the cases end with a red-black tree.
pub insert_case1_lem :
    (n : ℕ) (t : Tree) (path : Frames)
    → node_color t ≡ red
    → Balanced n t
    → BalancedPath n path
    → Rebalanced (insert_case1 t path)
unfolding insert_case1
insert_case1_lem n t [] e b pb = (paint black t, refl, paint_root n t b)
insert_case1_lem n t (p ∷ []) e b (bs, inl (_, _, h, _)) = absurd h
insert_case1_lem n t (p ∷ []) e b (bs, inr (ep, pb)) =
    (plug t (p ∷ []), rw ep refl, IsRedBlack-plug n t (p ∷ []) b (bs, inr (ep, pb)) (inr ep))
insert_case1_lem n t (p ∷ g ∷ path) e b (bs, inr (ep, pb)) = (
  plug t (p ∷ g ∷ path),
  case1_black t p g path ep,
  IsRedBlack-plug n t (p ∷ g ∷ path) b (bs, inr (ep, pb)) (inr ep),
)
insert_case1_lem n t (p ∷ g ∷ path) e b (bs, inl (ep, hs, hg, (bg, inl h))) =
    let red_here = h.0 in absurd (ground arith)
insert_case1_lem n t (p ∷ g ∷ path) e b (bs, inl (ep, hs, hg, (bg, inr (eg, pb)))) =
    elim (Bool-cases (node_color (sibling g))) [
      | inl aunt ↦
          let (u, found, v) =
            insert_case1_lem (suc n) (recolor t p g) path
              (node_color-fill _ (paint_frame red (set_sibling g _))
                ∙ frame_color-paint red (set_sibling g _))
              (recolor-Balanced n t p g b bs bg aunt) pb in
          (u, case1_red t p g path ep aunt ∙ found, v)
      | inr aunt ↦
          let (u, found, bu, hu) = insert_case4_lem n t p g e ep b bs hs bg aunt in
          (
            plug u path,
            case1_turn t p g path ep aunt ∙ ap (λ o. plug_some o path) found,
            IsRedBlack-plug (suc n) u path bu pb (inl hu),
          )
    ]
