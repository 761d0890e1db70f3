-- ===== src/Rank/Tree/Insert.antt =====
-- `Insert` of Dos.go with its cases, which repair the colors from the new node up.
pub mod Content
pub mod Balance
pub mod Correct
use fkgo_server.Base.{
  ℕ, zero, suc, ◌+◌, ◌-◌, ◌*◌, ◌/◌, ◌%◌, ◌^◌, ◌≤◌, ◌<◌, min, ◌≡◌, refl, sym, ap, ap₂, ◌∙◌, subst,
  ◌≢◌, ◌↔◌, ◌⊎◌, inl, inr, Bool, true, false, ◌&&◌, ◌||◌, not, Option, none, some, List, [], ◌∷◌,
  ◌++◌, map, append_assoc, append-nil, arith, dec_lt, ℕ_discrete, length, get_elem?, set, take,
  drop, replicate, length-append, length-take, length-drop, length-replicate, length-map,
  take-append-drop, take-append, drop-append, append_cons, take_at, drop_at, drop-drop, set-take,
  set-drop, set-append, set_at, get_elem?-append, ltb, leb, ◌==◌, if◌then◌else◌, ltb→lt, lt→ltb,
  leb→le, ==_iff, tests, Bool-cases, Option-cases, if_both,
}
use fkgo_server.Base.Int.{
  ℤ, pos, negsuc, pos_part, neg_part, sub_ℕ, ◌+ℤ◌, ◌-ℤ◌, ◌≤ℤ◌, ◌<ℤ◌, ltb_ℤ, leb_ℤ, eqb_ℤ,
  eq_of_parts, eqb_ℤ→eq, eqb_ℤ_refl, eqb_ℤ_ne, +ℤ_parts, -ℤ_parts, int_laws, signed16, signed32,
  signed64, unsigned, to_int32, to_int32-eq_of_lt, pos_part-sub, ℤ-cases,
}
use fkgo_server.Rank.Tree.{
  red, black, Tree, leaf, node, Frame, at_left, at_right, Frames, fill, plug, node_color,
  rotate_left, rotate_right, paint, paint_frame, frame_color, sibling, set_sibling,
}

-- `insert_case5`: the subtree below grandparent `g`, with `n` below its parent `p`.
unfoldable pub insert_case5 : Tree → Frame → Frame → Option Tree
insert_case5 n (at_left pc ps pk pids pr) (at_left gc gs gk gids gr) =
    rotate_right (fill (fill n (at_left black ps pk pids pr)) (at_left red gs gk gids gr))
insert_case5 n p g = rotate_left (fill (fill n (paint_frame black p)) (paint_frame red g))

-- `n = n.left` and `n = n.right` after a rotation, with the parent's frame.
unfoldable pub down_left : Option Tree → Option (Tree × Frame)
down_left (some (node l c s k ids r)) = some (l, at_left c s k ids r)
down_left _ = none

unfoldable pub down_right : Option Tree → Option (Tree × Frame)
down_right (some (node l c s k ids r)) = some (r, at_right l c s k ids)
down_right _ = none

unfoldable pub case5_at : Option (Tree × Frame) → Frame → Option Tree
case5_at none g = none
case5_at (some (n, p)) g = insert_case5 n p g

unfoldable pub insert_case4 : Tree → Frame → Frame → Option Tree
insert_case4 n (at_right pl pc ps pk pids) (at_left gc gs gk gids gr) =
    case5_at (down_left (rotate_left (fill n (at_right pl pc ps pk pids))))
      (at_left gc gs gk gids gr)
insert_case4 n (at_left pc ps pk pids pr) (at_right gl gc gs gk gids) =
    case5_at (down_right (rotate_right (fill n (at_left pc ps pk pids pr))))
      (at_right gl gc gs gk gids)
insert_case4 n p g = insert_case5 n p g

-- The grandparent's subtree when the uncle is red.
abbrev pub recolor : Tree → Frame → Frame → Tree
recolor n p g =
    fill (fill n (paint_frame black p)) (paint_frame red (set_sibling g (paint black (sibling g))))

abbrev pub plug_some : Option Tree → Frames → Option Tree
plug_some none path = none
plug_some (some t) path = some (plug t path)

-- `insert_case1` to `insert_case3`. A red parent with no parent panics.
unfoldable pub insert_case1 : Tree → Frames → Option Tree
insert_case1 n [] = some (paint black n)
insert_case1 n (p ∷ []) = if frame_color p then none else some (plug n (p ∷ []))
insert_case1 n (p ∷ g ∷ path) =
    let up = insert_case1 (recolor n p g) path in
    if frame_color p
    then (if node_color (sibling g) then up else plug_some (insert_case4 n p g) path)
    else some (plug n (p ∷ g ∷ path))

-- The loop of `Insert`: down to the place of the score, adding 1 to each size on the way.
unfoldable pub insert_from : ℤ → ℤ → Tree → Frames → Option Tree
insert_from score id leaf path = insert_case1 (node leaf red 1 score (id ∷ []) leaf) path
insert_from score id (node l c s k ids r) path = elim (eqb_ℤ score k) [
  | true ↦ some (plug (node l c (s + 1) k (ids ++ (id ∷ [])) r) path)
  | false ↦ elim (ltb_ℤ k score) [
    | true ↦ insert_from score id l (at_left c (s + 1) k ids r ∷ path)
    | false ↦ insert_from score id r (at_right l c (s + 1) k ids ∷ path)
  ]
]

unfoldable pub insert : Tree → ℤ → ℤ → Option Tree
insert t score id = insert_from score id t []

-- The three ways of the loop at a node.
module _ (score id : ℤ) (l : Tree) (c : Bool) (s : ℕ) (k : ℤ) (ids : List ℤ) (r : Tree)
    (path : Frames) where
  pub insert_from_here :
      eqb_ℤ score k ≡ true
      → insert_from score id (node l c s k ids r) path
        ≡ some (plug (node l c (s + 1) k (ids ++ (id ∷ [])) r) path)
  unfolding insert_from
  insert_from_here e = rw (insert_from, e) refl

  pub insert_from_left :
      eqb_ℤ score k ≡ false
      → ltb_ℤ k score ≡ true
      → insert_from score id (node l c s k ids r) path
        ≡ insert_from score id l (at_left c (s + 1) k ids r ∷ path)
  unfolding insert_from
  insert_from_left e h = rw (insert_from, e, h) refl

  pub insert_from_right :
      eqb_ℤ score k ≡ false
      → ltb_ℤ k score ≡ false
      → insert_from score id (node l c s k ids r) path
        ≡ insert_from score id r (at_right l c (s + 1) k ids ∷ path)
  unfolding insert_from
  insert_from_right e h = rw (insert_from, e, h) refl
