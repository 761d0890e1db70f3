-- ===== src/Rank/Tree/Balance.antt =====
-- Red-black trees: every way down meets the same number of black nodes, and no red node is below
-- another.
use fkgo_server.Base.{
  ℕ, suc, ◌≡◌, refl, ◌∙◌, subst, ◌⊎◌, inl, inr, Bool, Option, some, List, [], ◌∷◌, arith,
}
use fkgo_server.Base.Int.{ℤ}
use fkgo_server.Rank.Tree.{
  red, black, Tree, leaf, node, Frame, at_left, at_right, Frames, fill, plug, node_color, paint,
  paint_frame, frame_color, sibling, set_sibling,
}

-- A tree with `n` black nodes on every way down.
abbrev pub Balanced : ℕ → Tree → Type 0
Balanced n leaf = n ≡ 0
Balanced n (node l c s k ids r) =
    ((c ≡ red) × Balanced n l × Balanced n r × (node_color l ≡ black) × (node_color r ≡ black))
    ⊎ ((c ≡ black) × (m : ℕ) × (n ≡ suc m) × Balanced m l × Balanced m r)

-- The parent is there and black.
abbrev pub HeadBlack : Frames → Type 0
HeadBlack [] = ⊥
HeadBlack (f ∷ path) = frame_color f ≡ black

-- The frames above a subtree with `n` black nodes on every way down.
abbrev pub BalancedPath : ℕ → Frames → Type 0
BalancedPath n [] = Unit
BalancedPath n (f ∷ path) =
    Balanced n (sibling f)
    × (((frame_color f ≡ red)
          × (node_color (sibling f) ≡ black)
          × HeadBlack path
          × BalancedPath n path)
        ⊎ ((frame_color f ≡ black) × BalancedPath (suc n) path))

-- The whole tree: its root is black.
abbrev pub IsRedBlack : Tree → Type 0
IsRedBlack t = (node_color t ≡ black) × (n : ℕ) × Balanced n t

-- There is a result, and it is a red-black tree.
abbrev pub Rebalanced : Option Tree → Type 0
Rebalanced o = (u : Tree) × (o ≡ some u) × IsRedBlack u

pub fill-red :
    (n : ℕ) (t : Tree) (f : Frame)
    → frame_color f ≡ red
    → Balanced n t
    → Balanced n (sibling f)
    → node_color t ≡ black
    → node_color (sibling f) ≡ black
    → Balanced n (fill t f)
fill-red n t (at_left c s k ids r) e b bs h hs = inl (e, b, bs, h, hs)
fill-red n t (at_right l c s k ids) e b bs h hs = inl (e, bs, b, hs, h)

pub fill-black :
    (n : ℕ) (t : Tree) (f : Frame)
    → frame_color f ≡ black
    → Balanced n t
    → Balanced n (sibling f)
    → Balanced (suc n) (fill t f)
fill-black n t (at_left c s k ids r) e b bs = inr (e, n, refl, b, bs)
fill-black n t (at_right l c s k ids) e b bs = inr (e, n, refl, bs, b)

pub node_color-fill : (t : Tree) (f : Frame) → node_color (fill t f) ≡ frame_color f
node_color-fill t (at_left c s k ids r) = refl
node_color-fill t (at_right l c s k ids) = refl

pub frame_color-paint : (c : Bool) (f : Frame) → frame_color (paint_frame c f) ≡ c
frame_color-paint c (at_left _ s k ids r) = refl
frame_color-paint c (at_right l _ s k ids) = refl

pub sibling-paint : (c : Bool) (f : Frame) → sibling (paint_frame c f) ≡ sibling f
sibling-paint c (at_left _ s k ids r) = refl
sibling-paint c (at_right l _ s k ids) = refl

pub sibling-set : (f : Frame) (t : Tree) → sibling (set_sibling f t) ≡ t
sibling-set (at_left c s k ids _) t = refl
sibling-set (at_right _ c s k ids) t = refl

-- A red subtree that turns black has one more black node on every way.
pub paint-black :
    (n : ℕ) (t : Tree) → node_color t ≡ red → Balanced n t → Balanced (suc n) (paint black t)
paint-black n leaf e b = absurd (ground arith)
paint-black n (node l c s k ids r) e (inl (_, bl, br, _, _)) = inr (refl, n, refl, bl, br)
paint-black n (node l c s k ids r) e (inr h) = let black_here = h.0 in absurd (ground arith)

pub paint_root : (n : ℕ) (t : Tree) → Balanced n t → IsRedBlack (paint black t)
paint_root n leaf b = (refl, n, b)
paint_root n (node l c s k ids r) (inl (e, bl, br, _, _)) =
    (refl, suc n, inr (refl, n, refl, bl, br))
paint_root n (node l c s k ids r) (inr (e, m, em, bl, br)) = (refl, n, inr (refl, m, em, bl, br))

pub node_color-paint : (t : Tree) → node_color (paint black t) ≡ black
node_color-paint leaf = refl
node_color-paint (node l c s k ids r) = refl

-- The whole tree, where a red subtree does not stand below a red parent.
pub IsRedBlack-plug :
    (n : ℕ) (t : Tree) (path : Frames)
    → Balanced n t
    → BalancedPath n path
    → (node_color t ≡ black) ⊎ HeadBlack path
    → IsRedBlack (plug t path)
IsRedBlack-plug n t [] b p (inl e) = (e, n, b)
IsRedBlack-plug n t [] b p (inr h) = absurd h
IsRedBlack-plug n t (f ∷ path) b (bs, inl (e, es, h, p)) a =
    let top : node_color t ≡ black = elim a [ inl e' ↦ e' | inr e' ↦ absurd (ground arith) ] in
    IsRedBlack-plug n (fill t f) path (fill-red n t f e b bs top es) p (inr h)
IsRedBlack-plug n t (f ∷ path) b (bs, inr (e, p)) a =
    IsRedBlack-plug (suc n) (fill t f) path (fill-black n t f e b bs) p
      (inl (node_color-fill t f ∙ e))

-- A subtree in its place in a red-black tree.
abbrev pub Stands : ℕ → Tree → Frames → Type 0
Stands n t path = Balanced n t × BalancedPath n path × ((node_color t ≡ black) ⊎ HeadBlack path)

-- One step down, whatever size the frame gets.
module _ (n : ℕ) (l : Tree) (c : Bool) (s z : ℕ) (k j : ℤ) (ids js : List ℤ) (r : Tree)
    (path : Frames) where
  pub go_left :
      Stands n (node l c s k ids r) path → (m : ℕ) × Stands m l (at_left c z j js r ∷ path)
  go_left (inl (e, bl, br, hl, hr), p, a) =
      let up : HeadBlack path = elim a [ inl e' ↦ absurd (ground arith) | inr h ↦ h ] in
      (n, (bl, (br, inl (e, hr, up, p)), inl hl))
  go_left (inr (e, m, en, bl, br), p, a) =
      (m, (bl, (br, inr (e, subst (λ i. BalancedPath i path) en p)), inr e))

  pub go_right :
      Stands n (node l c s k ids r) path → (m : ℕ) × Stands m r (at_right l c z j js ∷ path)
  go_right (inl (e, bl, br, hl, hr), p, a) =
      let up : HeadBlack path = elim a [ inl e' ↦ absurd (ground arith) | inr h ↦ h ] in
      (n, (br, (bl, inl (e, hl, up, p)), inl hr))
  go_right (inr (e, m, en, bl, br), p, a) =
      (m, (br, (bl, inr (e, subst (λ i. BalancedPath i path) en p)), inr e))
