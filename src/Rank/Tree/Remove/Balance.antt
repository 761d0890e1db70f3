-- ===== src/Rank/Tree/Remove/Balance.antt =====
-- The cases of `Delete` of Dos.go from the fourth on never panic on a red-black tree, and give a red-black
-- tree back.
use fkgo_server.Base.{
  ℕ, suc, ◌+◌, ◌≡◌, refl, sym, ◌∙◌, subst, ◌⊎◌, inl, inr, Bool, Option, some, ◌∷◌, arith, length,
  Bool-cases,
}
use fkgo_server.Rank.Tree.{
  red, black, Tree, leaf, node, Frame, at_left, at_right, Frames, fill, plug, node_size, node_color,
  rotate_left, rotate_right, paint, paint_frame, frame_color, sibling,
}
use fkgo_server.Rank.Tree.Balance.{
  Balanced, HeadBlack, BalancedPath, Rebalanced, frame_color-paint, sibling-paint, sibling-set,
  paint-black, IsRedBlack-plug,
}
use fkgo_server.Rank.Tree.Remove.{
  rotate_up, near_far, paint_sibling, delete_case6, turn_sibling, case6_at, delete_case5,
  delete_case4, delete_case3,
}

-- The parent's place: red below a black one, beside a black sibling, or black.
abbrev pub Upper : ℕ → Bool → Tree → Frames → Type 0
Upper n c x path =
    ((c ≡ red) × (node_color x ≡ black) × HeadBlack path × BalancedPath n path)
    ⊎ ((c ≡ black) × BalancedPath (suc n) path)

Upper-black :
    (n : ℕ) (c : Bool) (x y : Tree) (path : Frames)
    → node_color y ≡ black
    → Upper n c x path
    → Upper n c y path
Upper-black n c x y path e (inl (ec, _, h, p)) = inl (ec, e, h, p)
Upper-black n c x y path e (inr u) = inr u

-- The children of the sibling.
abbrev pub near_of : Frame → Tree
near_of (at_left c s k ids (node rl rc rs rk rids rr)) = rl
near_of (at_right (node ll lc ls lk lids lr) c s k ids) = lr
near_of _ = leaf

abbrev pub far_of : Frame → Tree
far_of (at_left c s k ids (node rl rc rs rk rids rr)) = rr
far_of (at_right (node ll lc ls lk lids lr) c s k ids) = ll
far_of _ = leaf

pub near_far_lem :
    (h : ℕ) (p : Frame) → Balanced (suc h) (sibling p) → near_far p ≡ some (near_of p, far_of p)
near_far_lem h (at_left c s k ids leaf) b = absurd (ground arith)
near_far_lem h (at_left c s k ids (node rl rc rs rk rids rr)) b = refl
near_far_lem h (at_right leaf c s k ids) b = absurd (ground arith)
near_far_lem h (at_right (node ll lc ls lk lids lr) c s k ids) b = refl

-- A sibling that turns red, with two black children.
pub sibling-red :
    (h : ℕ) (p : Frame)
    → Balanced (suc h) (sibling p)
    → node_color (sibling p) ≡ black
    → node_color (near_of p) ≡ black
    → node_color (far_of p) ≡ black
    → Balanced h (paint red (sibling p))
sibling-red h (at_left c s k ids leaf) b e en ef = absurd (ground arith)
sibling-red h (at_left c s k ids (node rl rc rs rk rids rr)) (inl i) e en ef =
    let red_here = i.0 in absurd (ground arith)
sibling-red h (at_left c s k ids (node rl rc rs rk rids rr)) (inr (_, m, em, bl, br)) e en ef =
    let same : m ≡ h = omega arith in
    inl (refl, subst (λ i. Balanced i rl) same bl, subst (λ i. Balanced i rr) same br, en, ef)
sibling-red h (at_right leaf c s k ids) b e en ef = absurd (ground arith)
sibling-red h (at_right (node ll lc ls lk lids lr) c s k ids) (inl i) e en ef =
    let red_here = i.0 in absurd (ground arith)
sibling-red h (at_right (node ll lc ls lk lids lr) c s k ids) (inr (_, m, em, bl, br)) e en ef =
    let same : m ≡ h = omega arith in
    inl (refl, subst (λ i. Balanced i ll) same bl, subst (λ i. Balanced i lr) same br, ef, en)

-- What the cases ask of the colors.
module _ (sz : ℕ) (t : Tree) (p : Frame) (path : Frames) (near far : Tree)
    (e : node_color (sibling p) ≡ black) where
  case5_turns :
      node_color near ≡ red
      → node_color far ≡ black
      → delete_case5 sz t p path (some (near, far)) ≡ case6_at sz t (turn_sibling p) path
  unfolding delete_case5
  case5_turns en ef = rw (delete_case5, e, en, ef) refl

  case5_passes :
      node_color far ≡ red
      → delete_case5 sz t p path (some (near, far)) ≡ delete_case6 sz t p path (some (near, far))
  unfolding delete_case5
  case5_passes ef = elim (Bool-cases (node_color near)) [
    | inl en ↦ rw (delete_case5, e, en, ef) refl
    | inr en ↦ rw (delete_case5, e, en) refl
  ]

  case4_paints :
      frame_color p ≡ red
      → node_color near ≡ black
      → node_color far ≡ black
      → delete_case4 sz t p path (some (near, far))
        ≡ some (plug t (paint_frame black (paint_sibling red p) ∷ path))
  unfolding delete_case4
  case4_paints ep en ef = rw (delete_case4, e, ep, en, ef) refl

  -- A red child of the sibling goes past `delete_case3` and `delete_case4`.
  case4_passes :
      (node_color near ≡ red) ⊎ (node_color far ≡ red)
      → delete_case4 sz t p path (some (near, far)) ≡ delete_case5 sz t p path (some (near, far))
  unfolding delete_case4
  case4_passes h = ground arith

  pub case3_climbs :
      (up : ℕ → Tree → Option Tree)
      → frame_color p ≡ black
      → node_color near ≡ black
      → node_color far ≡ black
      → delete_case3 up sz t p path (some (near, far))
        ≡ up (node_size (fill t p)) (fill t (paint_sibling red p))
  unfolding delete_case3
  case3_climbs up ep en ef = rw (delete_case3, e, ep, en, ef) refl

  pub case3_passes :
      (up : ℕ → Tree → Option Tree)
      → (frame_color p ≡ red) ⊎ ((node_color near ≡ red) ⊎ (node_color far ≡ red))
      → delete_case3 up sz t p path (some (near, far)) ≡ delete_case4 sz t p path (some (near, far))
  unfolding delete_case3
  case3_passes up h = ground arith

-- A black sibling with a red far child.
case6_lem :
    (h sz : ℕ) (t : Tree) (p : Frame) (path : Frames)
    → Balanced h t
    → BalancedPath (suc h) (p ∷ path)
    → node_color (sibling p) ≡ black
    → node_color (far_of p) ≡ red
    → Rebalanced (delete_case6 sz t p path (near_far p))
unfolding delete_case6 rotate_up
case6_lem h sz t (at_left c s k ids leaf) path bt (bs, u) e ef = absurd (ground arith)
case6_lem h sz t (at_left c s k ids (node rl rc rs rk rids rr)) path bt (inl i, u) e ef =
    let red_here = i.0 in absurd (ground arith)
case6_lem h sz t (at_left c s k ids (node rl rc rs rk rids leaf)) path bt (inr i, u) e ef =
    absurd (ground arith)
case6_lem h sz t (at_left c s k ids (node rl rc rs rk rids (node a d z j js b))) path bt
      (inr (_, m, em, bl, br), u) e ef =
    let same : m ≡ h = omega arith in
    let far = node a d z j js b in
    (
      _,
      refl,
      IsRedBlack-plug h t
          (at_left black (sz + node_size rl + length ids) k ids rl
            ∷ at_left c s rk rids (paint black far)
            ∷ path)
          bt
          (
            subst (λ i. Balanced i rl) same bl,
            inr (
              refl,
              (
                paint-black h far ef (subst (λ i. Balanced i far) same br),
                Upper-black (suc h) c (node rl rc rs rk rids far) (paint black far) path refl u,
              ),
            ),
          )
          (inr refl),
    )
case6_lem h sz t (at_right leaf c s k ids) path bt (bs, u) e ef = absurd (ground arith)
case6_lem h sz t (at_right (node ll lc ls lk lids lr) c s k ids) path bt (inl i, u) e ef =
    let red_here = i.0 in absurd (ground arith)
case6_lem h sz t (at_right (node leaf lc ls lk lids lr) c s k ids) path bt (inr i, u) e ef =
    absurd (ground arith)
case6_lem h sz t (at_right (node (node a d z j js b) lc ls lk lids lr) c s k ids) path bt
      (inr (_, m, em, bl, br), u) e ef =
    let same : m ≡ h = omega arith in
    let far = node a d z j js b in
    (
      _,
      refl,
      IsRedBlack-plug h t
          (at_right lr black (node_size lr + sz + length ids) k ids
            ∷ at_right (paint black far) c s lk lids
            ∷ path)
          bt
          (
            subst (λ i. Balanced i lr) same br,
            inr (
              refl,
              (
                paint-black h far ef (subst (λ i. Balanced i far) same bl),
                Upper-black (suc h) c (node far lc ls lk lids lr) (paint black far) path refl u,
              ),
            ),
          )
          (inr refl),
    )

-- A black sibling with a red near child and a black far one: the sibling turns.
case5_lem :
    (h sz : ℕ) (t : Tree) (p : Frame) (path : Frames)
    → Balanced h t
    → BalancedPath (suc h) (p ∷ path)
    → node_color (sibling p) ≡ black
    → node_color (near_of p) ≡ red
    → node_color (far_of p) ≡ black
    → Rebalanced (case6_at sz t (turn_sibling p) path)
unfolding case6_at turn_sibling rotate_left rotate_right
case5_lem h sz t (at_left c s k ids leaf) path bt (bs, u) e en ef = absurd (ground arith)
case5_lem h sz t (at_left c s k ids (node rl rc rs rk rids rr)) path bt (inl i, u) e en ef =
    let red_here = i.0 in absurd (ground arith)
case5_lem h sz t (at_left c s k ids (node leaf rc rs rk rids rr)) path bt (inr i, u) e en ef =
    absurd (ground arith)
case5_lem h sz t (at_left c s k ids (node (node a d z j js b) rc rs rk rids rr)) path bt
      (inr (_, m, em, inr i, br), u) e en ef =
    let black_here = i.0 in absurd (ground arith)
case5_lem h sz t (at_left c s k ids (node (node a d z j js b) rc rs rk rids rr)) path bt
      (inr (_, m, em, inl (_, ba, bb, ha, hb), br), u) e en ef =
    let turned =
      node a black rs j js (node b red (node_size b + node_size rr + length rids) rk rids rr) in
    case6_lem h sz t (at_left c s k ids turned) path bt
      (
        inr (refl, m, em, ba, inl (refl, bb, br, hb, ef)),
        Upper-black (suc h) c (node (node a d z j js b) rc rs rk rids rr) turned path refl u,
      )
      refl refl
case5_lem h sz t (at_right leaf c s k ids) path bt (bs, u) e en ef = absurd (ground arith)
case5_lem h sz t (at_right (node ll lc ls lk lids lr) c s k ids) path bt (inl i, u) e en ef =
    let red_here = i.0 in absurd (ground arith)
case5_lem h sz t (at_right (node ll lc ls lk lids leaf) c s k ids) path bt (inr i, u) e en ef =
    absurd (ground arith)
case5_lem h sz t (at_right (node ll lc ls lk lids (node a d z j js b)) c s k ids) path bt
      (inr (_, m, em, bl, inr i), u) e en ef =
    let black_here = i.0 in absurd (ground arith)
case5_lem h sz t (at_right (node ll lc ls lk lids (node a d z j js b)) c s k ids) path bt
      (inr (_, m, em, bl, inl (_, ba, bb, ha, hb)), u) e en ef =
    let turned =
      node (node ll red (node_size ll + node_size a + length lids) lk lids a) black ls j js b in
    case6_lem h sz t (at_right turned c s k ids) path bt
      (
        inr (refl, m, em, inl (refl, bl, ba, ef, ha), bb),
        Upper-black (suc h) c (node ll lc ls lk lids (node a d z j js b)) turned path refl u,
      )
      refl refl

-- A black sibling with a red child.
pub case4_red :
    (h sz : ℕ) (t : Tree) (p : Frame) (path : Frames)
    → Balanced h t
    → BalancedPath (suc h) (p ∷ path)
    → node_color (sibling p) ≡ black
    → (node_color (near_of p) ≡ red) ⊎ (node_color (far_of p) ≡ red)
    → Rebalanced (delete_case4 sz t p path (some (near_of p, far_of p)))
case4_red h sz t p path bt bp e some_red =
    let near = near_of p in
    let far = far_of p in
    let kids = near_far_lem h p bp.0 in
    let last : node_color far ≡ red → Rebalanced (delete_case5 sz t p path (some (near, far))) =
      λ ef. subst Rebalanced (sym (case5_passes sz t p path near far e ef)) (
        subst (λ o. Rebalanced (delete_case6 sz t p path o)) kids
          (case6_lem h sz t p path bt bp e ef)) in
    subst Rebalanced (sym (case4_passes sz t p path near far e some_red))
      (elim (Bool-cases (node_color far)) [
        | inl ef ↦ last ef
        | inr ef ↦ elim some_red [
          | inl en ↦
              subst Rebalanced (sym (case5_turns sz t p path near far e en ef))
                (case5_lem h sz t p path bt bp e en ef)
          | inr ef' ↦ last ef'
        ]
      ])

-- A black sibling below a red parent.
pub case4_lem :
    (h sz : ℕ) (t : Tree) (p : Frame) (path : Frames)
    → Balanced h t
    → BalancedPath (suc h) (p ∷ path)
    → node_color (sibling p) ≡ black
    → frame_color p ≡ red
    → Rebalanced (delete_case4 sz t p path (some (near_of p, far_of p)))
case4_lem h sz t p path bt (bs, inr u) e ep = let black_here = u.0 in absurd (ground arith)
case4_lem h sz t p path bt (bs, inl (ec, es, hb, pb)) e ep =
    elim (Bool-cases (node_color (near_of p))) [
      | inl en ↦ case4_red h sz t p path bt (bs, inl (ec, es, hb, pb)) e (inl en)
      | inr en ↦ elim (Bool-cases (node_color (far_of p))) [
        | inl ef ↦ case4_red h sz t p path bt (bs, inl (ec, es, hb, pb)) e (inr ef)
        | inr ef ↦
            let q = paint_sibling red p in
            (
              _,
              case4_paints sz t p path (near_of p) (far_of p) e ep en ef,
              IsRedBlack-plug h t (paint_frame black q ∷ path) bt
                  (
                    subst (Balanced h) (sym (sibling-paint black q ∙ sibling-set p _))
                        (sibling-red h p bs e en ef),
                    inr (frame_color-paint black q, pb),
                  )
                  (inr (frame_color-paint black q)),
            )
      ]
    ]
