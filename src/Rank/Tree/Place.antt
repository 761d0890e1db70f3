-- ===== src/Rank/Tree/Place.antt =====
-- A subtree in its place in a whole tree: what holds of the whole holds of the subtree and of its frames,
-- and the frames with other sizes, as `Delete` leaves them.
use fkgo_server.Base.{
  ℕ, suc, ◌-◌, ◌≤◌, ◌≡◌, refl, sym, ap, ◌∙◌, subst, inl, inr, [], ◌∷◌, ◌++◌, arith,
}
use fkgo_server.Rank.Tree.{
  Tree, node, at_left, at_right, Frames, fill, plug, node_size, node_color, frame_color, sibling,
}
use fkgo_server.Rank.Tree.Groups.{groups, before, behind, Sized, SizedPath}
use fkgo_server.Rank.Tree.Balance.{
  Balanced, HeadBlack, BalancedPath, IsRedBlack, Stands, go_left, go_right,
}
use fkgo_server.Rank.Tree.Remove.{shrink}

pub IsRedBlack-unplug :
    (t : Tree) (path : Frames) → IsRedBlack (plug t path) → (n : ℕ) × Stands n t path
IsRedBlack-unplug t [] (e, n, b) = (n, (b, tt, inl e))
IsRedBlack-unplug t (at_left c s k ids r ∷ path) v =
    let (n, h) = IsRedBlack-unplug (node t c s k ids r) path v in
    go_left n t c s s k k ids ids r path h
IsRedBlack-unplug t (at_right l c s k ids ∷ path) v =
    let (n, h) = IsRedBlack-unplug (node l c s k ids t) path v in
    go_right n l c s s k k ids ids t path h

pub Sized-unplug :
    (t : Tree) (path : Frames) → Sized (plug t path) → Sized t × SizedPath (node_size t) path
Sized-unplug t [] h = (h, tt)
Sized-unplug t (at_left c s k ids r ∷ path) h =
    let ((ht, hr, e), p) = Sized-unplug (node t c s k ids r) path h in (ht, (hr, e, p))
Sized-unplug t (at_right l c s k ids ∷ path) h =
    let ((hl, ht, e), p) = Sized-unplug (node l c s k ids t) path h in (ht, (hl, e, p))

pub plug-append : (t : Tree) (xs ys : Frames) → plug t (xs ++ ys) ≡ plug (plug t xs) ys
plug-append t [] ys = refl
plug-append t (f ∷ xs) ys = plug-append (fill t f) xs ys

-- Frames that differ in their sizes, scores and ids only.
abbrev pub Alike : Frames → Frames → Type 0
Alike [] [] = Unit
Alike [] (g ∷ ys) = ⊥
Alike (f ∷ xs) [] = ⊥
Alike (f ∷ xs) (g ∷ ys) = (frame_color f ≡ frame_color g) × (sibling f ≡ sibling g) × Alike xs ys

pub Alike-refl : (xs : Frames) → Alike xs xs
Alike-refl [] = tt
Alike-refl (f ∷ xs) = (refl, refl, Alike-refl xs)

pub Alike-append :
    (xs ys : Frames) (vs ws : Frames) → Alike xs ys → Alike vs ws → Alike (xs ++ vs) (ys ++ ws)
Alike-append [] [] vs ws h i = i
Alike-append [] (g ∷ ys) vs ws h i = absurd h
Alike-append (f ∷ xs) [] vs ws h i = absurd h
Alike-append (f ∷ xs) (g ∷ ys) vs ws (a, b, h) i = (a, b, Alike-append xs ys vs ws h i)

pub Alike-shrink : (n : ℕ) (xs : Frames) → Alike xs (shrink n xs)
Alike-shrink n [] = tt
Alike-shrink n (at_left c s k ids r ∷ xs) = (refl, refl, Alike-shrink n xs)
Alike-shrink n (at_right l c s k ids ∷ xs) = (refl, refl, Alike-shrink n xs)

pub HeadBlack-Alike : (xs ys : Frames) → Alike xs ys → HeadBlack xs → HeadBlack ys
HeadBlack-Alike [] [] h b = b
HeadBlack-Alike [] (g ∷ ys) h b = absurd h
HeadBlack-Alike (f ∷ xs) [] h b = absurd h
HeadBlack-Alike (f ∷ xs) (g ∷ ys) (e, _, _) b = sym e ∙ b

pub BalancedPath-Alike :
    (n : ℕ) (xs ys : Frames) → Alike xs ys → BalancedPath n xs → BalancedPath n ys
BalancedPath-Alike n [] [] h b = b
BalancedPath-Alike n [] (g ∷ ys) h b = absurd h
BalancedPath-Alike n (f ∷ xs) [] h b = absurd h
BalancedPath-Alike n (f ∷ xs) (g ∷ ys) (e, es, h) (bs, inl (ec, hs, hb, p)) = (
  subst (Balanced n) es bs,
  inl (
    sym e ∙ ec,
    sym (ap node_color es) ∙ hs,
    HeadBlack-Alike xs ys h hb,
    BalancedPath-Alike n xs ys h p,
  ),
)
BalancedPath-Alike n (f ∷ xs) (g ∷ ys) (e, es, h) (bs, inr (ec, p)) =
    (subst (Balanced n) es bs, inr (sym e ∙ ec, BalancedPath-Alike (suc n) xs ys h p))

pub Stands-Alike : (n : ℕ) (t : Tree) (xs ys : Frames) → Alike xs ys → Stands n t xs → Stands n t ys
Stands-Alike n t xs ys h (b, p, a) = (
  b,
  BalancedPath-Alike n xs ys h p,
  elim a [ inl e ↦ inl e | inr hb ↦ inr (HeadBlack-Alike xs ys h hb) ],
)

-- Lower sizes above a subtree that has become smaller.
pub SizedPath-shrink :
    (n m : ℕ) (path : Frames) → n ≤ m → SizedPath m path → SizedPath (m - n) (shrink n path)
SizedPath-shrink n m [] h p = tt
SizedPath-shrink n m (at_left c s k ids r ∷ path) h (hr, e, p) =
    (hr, omega arith, SizedPath-shrink n s path (omega arith) p)
SizedPath-shrink n m (at_right l c s k ids ∷ path) h (hl, e, p) =
    (hl, omega arith, SizedPath-shrink n s path (omega arith) p)

pub before-shrink : (n : ℕ) (path : Frames) → before (shrink n path) ≡ before path
unfolding before
before-shrink n [] = refl
before-shrink n (at_left c s k ids r ∷ path) = before-shrink n path
before-shrink n (at_right l c s k ids ∷ path) =
    ap (λ gs. gs ++ (groups l ++ ((k, ids) ∷ []))) (before-shrink n path)

pub behind-shrink : (n : ℕ) (path : Frames) → behind (shrink n path) ≡ behind path
unfolding behind
behind-shrink n [] = refl
behind-shrink n (at_left c s k ids r ∷ path) =
    ap (λ gs. (k, ids) ∷ (groups r ++ gs)) (behind-shrink n path)
behind-shrink n (at_right l c s k ids ∷ path) = behind-shrink n path
