-- ===== src/Rank/Tree/Remove.antt =====
-- `Delete` of Dos.go with its cases. The node that goes stays in its place while the cases run, and is
-- then replaced by its child. No case looks at anything of the node that it stands at but its size, so
-- the child stands in its place here from the start, and `sz` is the size that the node has.
pub mod Content
pub mod Balance
pub mod Climb
pub mod Correct
pub mod Inner
pub mod Refines
use fkgo_server.Base.{
  ℕ, zero, suc, ◌+◌, ◌-◌, ◌*◌, ◌/◌, ◌%◌, ◌^◌, ◌≤◌, ◌<◌, min, ◌≡◌, refl, sym, ap, ap₂, ◌∙◌, subst,
  ◌≢◌, ◌↔◌, ◌⊎◌, inl, inr, Bool, true, false, ◌&&◌, ◌||◌, not, Option, none, some, List, [], ◌∷◌,
  ◌++◌, map, append_assoc, append-nil, arith, dec_lt, ℕ_discrete, length, get_elem?, set, take,
  drop, replicate, length-append, length-take, length-drop, length-replicate, length-map,
  take-append-drop, take-append, drop-append, append_cons, take_at, drop_at, drop-drop, set-take,
  set-drop, set-append, set_at, get_elem?-append, ltb, leb, ◌==◌, if◌then◌else◌, ltb→lt, lt→ltb,
  leb→le, ==_iff, tests, Bool-cases, Option-cases, if_both,
}
use fkgo_server.Base.Int.{
  ℤ, pos, negsuc, pos_part, neg_part, sub_ℕ, ◌+ℤ◌, ◌-ℤ◌, ◌≤ℤ◌, ◌<ℤ◌, ltb_ℤ, leb_ℤ, eqb_ℤ,
  eq_of_parts, eqb_ℤ→eq, eqb_ℤ_refl, eqb_ℤ_ne, +ℤ_parts, -ℤ_parts, int_laws, signed16, signed32,
  signed64, unsigned, to_int32, to_int32-eq_of_lt, pos_part-sub, ℤ-cases,
}
use mathlib.Core.Option
use fkgo_server.Rank.Tree.{
  red, black, Tree, leaf, node, Frame, at_left, at_right, Frames, fill, plug, node_size, node_color,
  Found, rotate_left, rotate_right, paint, paint_frame, frame_color, sibling, set_sibling,
}

-- `fixup_size` on the frames above a node.
abbrev pub shrink_frame : ℕ → Frame → Frame
shrink_frame n (at_left c s k ids r) = at_left c (s - n) k ids r
shrink_frame n (at_right l c s k ids) = at_right l c (s - n) k ids

abbrev pub shrink : ℕ → Frames → Frames
shrink n [] = []
shrink n (f ∷ path) = shrink_frame n f ∷ shrink n path

-- The rotation at the parent of the node, towards the node's side: the sibling comes up, and the
-- node has two frames where it had one.
unfoldable pub rotate_up : ℕ → Frame → Option (Frame × Frame)
rotate_up sz (at_left c s k ids (node rl rc rs rk rids rr)) =
    some (at_left c (sz + node_size rl + length ids) k ids rl, at_left rc s rk rids rr)
rotate_up sz (at_right (node ll lc ls lk lids lr) c s k ids) =
    some (at_right lr c (node_size lr + sz + length ids) k ids, at_right ll lc s lk lids)
rotate_up sz _ = none

-- The children of the sibling: the one on the node's side, and the far one. A nil sibling panics.
abbrev pub near_far : Frame → Option (Tree × Tree)
near_far (at_left c s k ids (node rl rc rs rk rids rr)) = some (rl, rr)
near_far (at_right (node ll lc ls lk lids lr) c s k ids) = some (lr, ll)
near_far _ = none

-- `sibling(n).color = ...` and the same for its child on the far side.
abbrev pub paint_sibling : Bool → Frame → Frame
paint_sibling c p = set_sibling p (paint c (sibling p))

abbrev pub paint_far : Frame → Frame
paint_far (at_left c s k ids (node rl rc rs rk rids rr)) =
    at_left c s k ids (node rl rc rs rk rids (paint black rr))
paint_far (at_right (node ll lc ls lk lids lr) c s k ids) =
    at_right (node (paint black ll) lc ls lk lids lr) c s k ids
paint_far p = p

abbrev pub finish : Tree → Frames → Option (Frame × Frame) → Option Tree
finish t path none = none
finish t path (some (p, s)) = some (plug t (p ∷ s ∷ path))

abbrev pub is_node : Tree → Bool
is_node leaf = false
is_node (node l c s k ids r) = true

-- `delete_case6` at a sibling whose far child is `far`; a nil one panics.
unfoldable pub delete_case6 : ℕ → Tree → Frame → Frames → Option (Tree × Tree) → Option Tree
delete_case6 sz t p path none = none
delete_case6 sz t p path (some (near, far)) =
    if is_node far
    then finish t path
        (rotate_up sz (paint_far (paint_sibling (frame_color p) (paint_frame black p))))
    else none

-- The sibling, rotated away from the node's side by `delete_case5`: it turns red, its near child black.
unfoldable pub turn_sibling : Frame → Option Frame
turn_sibling (at_left c s k ids (node rl rc rs rk rids rr)) =
    Option.map (at_left c s k ids) (rotate_right (node (paint black rl) red rs rk rids rr))
turn_sibling (at_right (node ll lc ls lk lids lr) c s k ids) =
    Option.map (λ l. at_right l c s k ids) (rotate_left (node ll red ls lk lids (paint black lr)))
turn_sibling p = none

unfoldable pub case6_at : ℕ → Tree → Option Frame → Frames → Option Tree
case6_at sz t none path = none
case6_at sz t (some p) path = delete_case6 sz t p path (near_far p)

unfoldable pub delete_case5 : ℕ → Tree → Frame → Frames → Option (Tree × Tree) → Option Tree
delete_case5 sz t p path none = none
delete_case5 sz t p path (some (near, far)) =
    if not (node_color (sibling p)) && node_color near && not (node_color far)
    then case6_at sz t (turn_sibling p) path
    else delete_case6 sz t p path (some (near, far))

unfoldable pub delete_case4 : ℕ → Tree → Frame → Frames → Option (Tree × Tree) → Option Tree
delete_case4 sz t p path none = none
delete_case4 sz t p path (some (near, far)) =
    if frame_color p
      && not (node_color (sibling p))
      && not (node_color near)
      && not (node_color far)
    then some (plug t (paint_frame black (paint_sibling red p) ∷ path))
    else delete_case5 sz t p path (some (near, far))

-- `delete_case3`; `up` is `delete_case1` at the parent, with its size and its subtree.
unfoldable pub delete_case3 :
    (ℕ → Tree → Option Tree) → ℕ → Tree → Frame → Frames → Option (Tree × Tree) → Option Tree
delete_case3 up sz t p path none = none
delete_case3 up sz t p path (some (near, far)) =
    if not (frame_color p)
      && not (node_color (sibling p))
      && not (node_color near)
      && not (node_color far)
    then up (node_size (fill t p)) (fill t (paint_sibling red p))
    else delete_case4 sz t p path (some (near, far))

-- `delete_case2` where the sibling is red: it comes up, and the node gets its near child as sibling.
unfoldable pub red_sibling : ℕ → Frame → Option (Frame × Frame)
red_sibling sz p = rotate_up sz (paint_sibling black (paint_frame red p))

unfoldable pub case3_below :
    (ℕ → Tree → Frames → Option Tree) → ℕ → Tree → Frames → Option (Frame × Frame) → Option Tree
case3_below case1 sz t path none = none
case3_below case1 sz t path (some (p, s)) =
    delete_case3 (λ sz' t'. case1 sz' t' (s ∷ path)) sz t p (s ∷ path) (near_far p)

unfoldable pub delete_case2 :
    (ℕ → Tree → Frames → Option Tree) → ℕ → Tree → Frame → Frames → Option Tree
delete_case2 case1 sz t p path =
    if node_color (sibling p)
    then case3_below case1 sz t path (red_sibling sz p)
    else delete_case3 (λ sz' t'. case1 sz' t' path) sz t p path (near_far p)

-- `delete_case1` to `delete_case6`, on fuel: every call at the parent takes one unit.
unfoldable pub delete_case1 : ℕ → ℕ → Tree → Frames → Option Tree
delete_case1 zero sz t path = none
delete_case1 (suc n) sz t [] = some t
delete_case1 (suc n) sz t (p ∷ path) = delete_case2 (delete_case1 n) sz t p path

-- The end of `Delete`: the node of that color, size and path goes, and `child` takes its place.
abbrev pub replace : Bool → ℕ → Tree → Frames → Option Tree
replace c sz child [] = some (paint black child)
replace c sz child (p ∷ path) =
    if c then some (plug child (p ∷ path)) else delete_case1 (length path + 2) sz child (p ∷ path)

-- A node with at most one child, of size `sz`.
unfoldable pub remove_node : Tree → Bool → ℕ → Tree → Frames → Option Tree
remove_node l c sz leaf path = replace c sz l path
remove_node l c sz (node rl rc rs rk rids rr) path = replace c sz (node rl rc rs rk rids rr) path

-- `maximum_node`: the node with no right child, with the frames down to it before `path`.
abbrev pub maximum_node :
    Tree → Bool → ℕ → ℤ → List ℤ → Tree → Frames → (Tree × Bool × ℕ × ℤ × List ℤ) × Frames
maximum_node l c s k ids leaf path = ((l, c, s, k, ids), path)
maximum_node l c s k ids (node rl rc rs rk rids rr) path =
    maximum_node rl rc rs rk rids rr (at_right l c s k ids ∷ path)

-- The removal of a node that has both children: its predecessor's score and ids come to it, and the
-- predecessor goes. `path` is what is above the node, with its sizes already taken down.
unfoldable pub remove_inner :
    (Tree × Bool × ℕ × ℤ × List ℤ) × Frames → Bool → ℕ → Tree → Frames → Option Tree
remove_inner ((pl, pc, ps, pk, pids), down) c s r path =
    remove_node pl pc (ps - length pids) leaf
      (shrink (length pids) down ++ (at_left c s pk pids r ∷ path))

-- The only id of a node goes, so the node does, or its predecessor in its place.
unfoldable pub remove_last : Tree → Bool → ℕ → Tree → Frames → Option Tree
remove_last (node ll lc ls lk lids lr) c s (node rl rc rs rk rids rr) path =
    remove_inner (maximum_node ll lc ls lk lids lr []) c s (node rl rc rs rk rids rr) path
remove_last leaf c s r path = remove_node leaf c s r path
remove_last (node ll lc ls lk lids lr) c s leaf path =
    remove_node (node ll lc ls lk lids lr) c s leaf path

-- The loop of `Delete` over the ids of a node: the list without the first one.
unfoldable pub drop_id : ℤ → List ℤ → Option (List ℤ)
drop_id id [] = none
drop_id id (v ∷ vs) = if eqb_ℤ v id then some vs else Option.map (λ ids. v ∷ ids) (drop_id id vs)

-- Some ids are left: the sizes go down from the node to the root. Without the id nothing happens.
unfoldable pub without_id : Tree → Bool → ℕ → ℤ → List ℤ → Tree → Frames → Option (List ℤ) → Tree
without_id l c s k ids r path none = plug (node l c s k ids r) path
without_id l c s k ids r path (some rest) = plug (node l c (s - 1) k rest r) (shrink 1 path)

-- `Delete` of an id from a node; nil panics.
unfoldable pub delete_at : ℤ → Tree → Frames → Option Tree
delete_at id leaf path = none
delete_at id (node l c s k ids r) path =
    if ltb 1 (length ids)
    then some (without_id l c s k ids r path (drop_id id ids))
    else remove_last l c (s - 1) r (shrink 1 path)

unfoldable pub delete : ℤ → Option Found → Option Tree
delete id none = none
delete id (some n) = delete_at id n.at n.path
