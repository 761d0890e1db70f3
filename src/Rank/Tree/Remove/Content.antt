-- ===== src/Rank/Tree/Remove/Content.antt =====
-- The cases of `Delete` of Dos.go change neither the content of the tree nor the rightness of its sizes.
use fkgo_server.Base.{
  ℕ, zero, suc, ◌≡◌, refl, sym, subst, Bool, ◌&&◌, not, Option, none, some, List, [], ◌∷◌,
  append_assoc, arith, if◌then◌else◌, if_both,
}
use fkgo_server.Base.Int.{ℤ}
use mathlib.Core.Option
use fkgo_server.Rank.Tree.{
  red, black, Tree, leaf, node, Frame, at_left, at_right, Frames, fill, plug, node_size, node_color,
  paint, paint_frame, frame_color, sibling,
}
use fkgo_server.Rank.Tree.Groups.{
  groups, Same, SameSome, Same-refl, Same-trans, Same-fill, Same-plug, Same-paint, rotate_left-Same,
  rotate_right-Same,
}
use fkgo_server.Rank.Tree.Insert.Content.{Same-frame, Same-sibling, SameSome-trans}
use fkgo_server.Rank.Tree.Remove.{
  rotate_up, near_far, paint_sibling, paint_far, finish, is_node, delete_case6, turn_sibling,
  case6_at, delete_case5, delete_case4, delete_case3, red_sibling, case3_below, delete_case2,
  delete_case1,
}

-- The two frames of a rotation, with the subtree below them.
abbrev SameFrames : Tree → Tree → Option (Frame × Frame) → Type 0
SameFrames whole t none = Unit
SameFrames whole t (some (p, s)) = Same whole (fill (fill t p) s)

rotate_up-Same : (t : Tree) (p : Frame) → SameFrames (fill t p) t (rotate_up (node_size t) p)
unfolding rotate_up groups
rotate_up-Same t (at_left c s k ids leaf) = tt
rotate_up-Same t (at_left c s k ids (node rl rc rs rk rids rr)) = record {
  same_groups = append_assoc (groups t) ((k, ids) ∷ groups rl) ((rk, rids) ∷ groups rr);
  same_size = λ h. refl;
  sized = λ (a, (b, d, e), e'). ((a, b, omega arith), d, omega arith);
}
rotate_up-Same t (at_right leaf c s k ids) = tt
rotate_up-Same t (at_right (node ll lc ls lk lids lr) c s k ids) = record {
  same_groups = sym (append_assoc (groups ll) ((lk, lids) ∷ groups lr) ((k, ids) ∷ groups t));
  same_size = λ h. refl;
  sized = λ ((a, b, e), d, e'). (a, (b, d, omega arith), omega arith);
}

finish-Same :
    (whole t : Tree) (path : Frames) (o : Option (Frame × Frame))
    → SameFrames whole t o
    → SameSome (plug whole path) (finish t path o)
finish-Same whole t path none h = tt
finish-Same whole t path (some (p, s)) h = Same-plug whole (fill (fill t p) s) path h

Same-far : (t : Tree) (p : Frame) → Same (fill t p) (fill t (paint_far p))
unfolding groups
Same-far t (at_left c s k ids leaf) = Same-refl _
Same-far t (at_left c s k ids (node rl rc rs rk rids rr)) =
    let h = Same-fill rr (paint black rr) (at_right rl rc rs rk rids) (Same-paint black rr) in
    Same-fill _ _ (at_right t c s k ids) h
Same-far t (at_right leaf c s k ids) = Same-refl _
Same-far t (at_right (node ll lc ls lk lids lr) c s k ids) =
    let h = Same-fill ll (paint black ll) (at_left lc ls lk lids lr) (Same-paint black ll) in
    Same-fill _ _ (at_left c s k ids t) h

-- Colors of the parent and of the sibling.
recolored :
    (t : Tree) (c d : Bool) (p : Frame)
    → Same (fill t p) (fill t (paint_sibling c (paint_frame d p)))
recolored t c d p = Same-trans (Same-frame t d p) (Same-sibling t c (paint_frame d p))

recolored' :
    (t : Tree) (c d : Bool) (p : Frame)
    → Same (fill t p) (fill t (paint_frame d (paint_sibling c p)))
recolored' t c d p = Same-trans (Same-sibling t c p) (Same-frame t d (paint_sibling c p))

SameFrames-trans :
    (v w t : Tree) (o : Option (Frame × Frame)) → Same v w → SameFrames w t o → SameFrames v t o
SameFrames-trans v w t none h s = tt
SameFrames-trans v w t (some (p, q)) h s = Same-trans h s

delete_case6-Same :
    (t : Tree) (p : Frame) (path : Frames) (kids : Option (Tree × Tree))
    → SameSome (plug t (p ∷ path)) (delete_case6 (node_size t) t p path kids)
unfolding delete_case6
delete_case6-Same t p path none = tt
delete_case6-Same t p path (some (near, far)) =
    let q = paint_sibling (frame_color p) (paint_frame black p) in
    if_both (SameSome (plug t (p ∷ path))) (is_node far)
      (finish t path (rotate_up (node_size t) (paint_far q))) none
      (finish-Same (fill t p) t path _ (
        SameFrames-trans _ _ t _ (Same-trans (recolored t (frame_color p) black p) (Same-far t q))
          (rotate_up-Same t (paint_far q))))
      tt

abbrev SameFrame : Tree → Tree → Option Frame → Type 0
SameFrame whole t none = Unit
SameFrame whole t (some p) = Same whole (fill t p)

turned :
    (v u : Tree) (o : Option Tree) (t : Tree) (f : Tree → Frame)
    → ((a b : Tree) → Same a b → Same (fill t (f a)) (fill t (f b)))
    → Same v u
    → SameSome u o
    → SameFrame (fill t (f v)) t (Option.map f o)
turned v u none t f keep h s = tt
turned v u (some w) t f keep h s = keep v w (Same-trans h s)

Same-two :
    (l c' : Bool) (s : ℕ) (k : ℤ) (ids : List ℤ) (a b a' b' : Tree)
    → Same a a'
    → Same b b'
    → Same (node a l s k ids b) (node a' c' s k ids b')
Same-two l c' s k ids a b a' b' h i = Same-trans (Same-fill a a' (at_left l s k ids b) h) (
    Same-trans (Same-fill b b' (at_right a' l s k ids) i)
      (Same-frame b' c' (at_right a' l s k ids)))

turn_sibling-Same : (t : Tree) (p : Frame) → SameFrame (fill t p) t (turn_sibling p)
unfolding turn_sibling
turn_sibling-Same t (at_left c s k ids leaf) = tt
turn_sibling-Same t (at_left c s k ids (node rl rc rs rk rids rr)) =
    turned _ _ _ t (at_left c s k ids) (λ a b h. Same-fill a b (at_right t c s k ids) h)
      (Same-two rc red rs rk rids rl rr (paint black rl) rr (Same-paint black rl) (Same-refl rr))
      (rotate_right-Same _)
turn_sibling-Same t (at_right leaf c s k ids) = tt
turn_sibling-Same t (at_right (node ll lc ls lk lids lr) c s k ids) =
    turned _ _ _ t (λ l. at_right l c s k ids) (λ a b h. Same-fill a b (at_left c s k ids t) h)
      (Same-two lc red ls lk lids ll lr ll (paint black lr) (Same-refl ll) (Same-paint black lr))
      (rotate_left-Same _)

case6_at-Same :
    (whole t : Tree) (o : Option Frame) (path : Frames)
    → SameFrame whole t o
    → SameSome (plug whole path) (case6_at (node_size t) t o path)
unfolding case6_at
case6_at-Same whole t none path h = tt
case6_at-Same whole t (some p) path h =
    SameSome-trans _ _ _ (Same-plug whole (fill t p) path h)
      (delete_case6-Same t p path (near_far p))

delete_case4-Same :
    (t : Tree) (p : Frame) (path : Frames) (kids : Option (Tree × Tree))
    → SameSome (plug t (p ∷ path)) (delete_case4 (node_size t) t p path kids)
unfolding delete_case4 delete_case5
delete_case4-Same t p path none = tt
delete_case4-Same t p path (some (near, far)) =
    let case4 =
      frame_color p
      && not (node_color (sibling p))
      && not (node_color near)
      && not (node_color far) in
    let case5 = not (node_color (sibling p)) && node_color near && not (node_color far) in
    let done = some (plug t (paint_frame black (paint_sibling red p) ∷ path)) in
    let turn = case6_at (node_size t) t (turn_sibling p) path in
    let last = delete_case6 (node_size t) t p path (some (near, far)) in
    if_both (SameSome (plug t (p ∷ path))) case4 done (if case5 then turn else last)
      (Same-plug (fill t p) _ path (recolored' t red black p))
      (if_both (SameSome (plug t (p ∷ path))) case5 turn last
        (case6_at-Same (fill t p) t (turn_sibling p) path (turn_sibling-Same t p))
        (delete_case6-Same t p path (some (near, far))))

-- `up` changes nothing either.
delete_case3-Same :
    (up : ℕ → Tree → Option Tree) (t : Tree) (p : Frame) (path : Frames)
    (kids : Option (Tree × Tree))
    → ((u : Tree) → SameSome (plug u path) (up (node_size u) u))
    → SameSome (plug t (p ∷ path)) (delete_case3 up (node_size t) t p path kids)
unfolding delete_case3
delete_case3-Same up t p path none keep = tt
delete_case3-Same up t p path (some (near, far)) keep =
    let q = paint_sibling red p in
    let case3 =
      not (frame_color p)
      && not (node_color (sibling p))
      && not (node_color near)
      && not (node_color far) in
    if_both (SameSome (plug t (p ∷ path))) case3 (up (node_size (fill t p)) (fill t q))
      (delete_case4 (node_size t) t p path (some (near, far)))
      (SameSome-trans _ _ _ (Same-plug (fill t p) (fill t q) path (Same-sibling t red p)) (
        subst (λ z. SameSome (plug (fill t q) path) (up z (fill t q))) (size_kept t p)
          (keep (fill t q))))
      (delete_case4-Same t p path (some (near, far)))
  where
    size_kept :
        (t : Tree) (p : Frame) → node_size (fill t (paint_sibling red p)) ≡ node_size (fill t p)
    size_kept t (at_left c s k ids r) = refl
    size_kept t (at_right l c s k ids) = refl

case3_below-Same :
    (case1 : ℕ → Tree → Frames → Option Tree) (whole t : Tree) (path : Frames)
    (o : Option (Frame × Frame))
    → ((u : Tree) (path : Frames) → SameSome (plug u path) (case1 (node_size u) u path))
    → SameFrames whole t o
    → SameSome (plug whole path) (case3_below case1 (node_size t) t path o)
unfolding case3_below
case3_below-Same case1 whole t path none keep h = tt
case3_below-Same case1 whole t path (some (p, s)) keep h =
    SameSome-trans _ _ _ (Same-plug _ _ path h) (
      delete_case3-Same (λ z u. case1 z u (s ∷ path)) t p (s ∷ path) (near_far p)
        (λ u. keep u (s ∷ path)))

-- The cases at a subtree whose size field is right.
pub delete_case1-Same :
    (n : ℕ) (t : Tree) (path : Frames)
    → SameSome (plug t path) (delete_case1 n (node_size t) t path)
unfolding delete_case1 delete_case2 red_sibling
delete_case1-Same zero t path = tt
delete_case1-Same (suc n) t [] = Same-refl t
delete_case1-Same (suc n) t (p ∷ path) =
    if_both (SameSome (plug t (p ∷ path))) (node_color (sibling p))
      (case3_below (delete_case1 n) (node_size t) t path
        (rotate_up (node_size t) (paint_sibling black (paint_frame red p))))
      (delete_case3 (λ z u. delete_case1 n z u path) (node_size t) t p path (near_far p))
      (case3_below-Same (delete_case1 n) (fill t p) t path _ (delete_case1-Same n) (
        SameFrames-trans _ _ t _ (recolored t black red p)
          (rotate_up-Same t (paint_sibling black (paint_frame red p)))))
      (delete_case3-Same (λ z u. delete_case1 n z u path) t p path (near_far p)
        (λ u. delete_case1-Same n u path))
