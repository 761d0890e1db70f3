-- ===== src/Rank/Tree.antt =====
-- FKGRpc_Rank/Dos/Dos.go: a red-black tree of scores, each node with the ids that have its score and
-- the number of ids below it. Higher scores stand on the left.
-- A node that the source points to is a subtree with the frames above it, so that `n.parent` is the
-- first frame. A nil pointer that is followed panics; `none` as a whole result stands for that. Sizes
-- do not overflow, and are taken down only at nodes that hold an id.
pub mod Insert
pub mod Remove
pub mod Groups
pub mod Order
pub mod Entries
pub mod Balance
pub mod Place
pub mod Lookup
pub mod Locate
pub mod Ranks
mod Tests
use fkgo_server.Base.{
  ℕ, zero, suc, ◌+◌, ◌-◌, ◌*◌, ◌/◌, ◌%◌, ◌^◌, ◌≤◌, ◌<◌, min, ◌≡◌, refl, sym, ap, ap₂, ◌∙◌, subst,
  ◌≢◌, ◌↔◌, ◌⊎◌, inl, inr, Bool, true, false, ◌&&◌, ◌||◌, not, Option, none, some, List, [], ◌∷◌,
  ◌++◌, map, append_assoc, append-nil, arith, dec_lt, ℕ_discrete, length, get_elem?, set, take,
  drop, replicate, length-append, length-take, length-drop, length-replicate, length-map,
  take-append-drop, take-append, drop-append, append_cons, take_at, drop_at, drop-drop, set-take,
  set-drop, set-append, set_at, get_elem?-append, ltb, leb, ◌==◌, if◌then◌else◌, ltb→lt, lt→ltb,
  leb→le, ==_iff, tests, Bool-cases, Option-cases, if_both,
}
use fkgo_server.Base.Int.{
  ℤ, pos, negsuc, pos_part, neg_part, sub_ℕ, ◌+ℤ◌, ◌-ℤ◌, ◌≤ℤ◌, ◌<ℤ◌, ltb_ℤ, leb_ℤ, eqb_ℤ,
  eq_of_parts, eqb_ℤ→eq, eqb_ℤ_refl, eqb_ℤ_ne, +ℤ_parts, -ℤ_parts, int_laws, signed16, signed32,
  signed64, unsigned, to_int32, to_int32-eq_of_lt, pos_part-sub, ℤ-cases,
}
use mathlib.Core.Option

abbrev pub red : Bool
red = true

abbrev pub black : Bool
black = false

-- `Node`, or nil: left child, color, size, score, ids and right child.
pub data Tree : Type 0 where
  leaf : Tree
  node : Tree → Bool → ℕ → ℤ → List ℤ → Tree → Tree

-- A parent without the child that was gone down to: the left one or the right one.
pub data Frame : Type 0 where
  at_left : Bool → ℕ → ℤ → List ℤ → Tree → Frame
  at_right : Tree → Bool → ℕ → ℤ → List ℤ → Frame

-- The frames above a node, its parent first.
abbrev pub Frames : Type 0
Frames = List Frame

abbrev pub fill : Tree → Frame → Tree
fill t (at_left c s k ids r) = node t c s k ids r
fill t (at_right l c s k ids) = node l c s k ids t

-- The whole tree.
abbrev pub plug : Tree → Frames → Tree
plug t [] = t
plug t (f ∷ path) = plug (fill t f) path

-- `_nodesize`, `node_color`
abbrev pub node_size : Tree → ℕ
node_size leaf = 0
node_size (node l c s k ids r) = s

abbrev pub node_color : Tree → Bool
node_color leaf = black
node_color (node l c s k ids r) = c

unfoldable pub count : Tree → ℕ
count t = node_size t

-- `lookup_node`, `Rank`: the id at a rank and its node's score; nil is `none`.
unfoldable pub lookup_node : Tree → ℕ → Option (ℤ × ℤ)
lookup_node leaf rank = none
lookup_node (node l c s k ids r) rank =
    let start = node_size l + 1 in
    let end = node_size l + length ids in
    elim (leb start rank && leb rank end) [
      | true ↦ Option.map (λ id. (id, k)) (get_elem? ids (rank - start))
      | false ↦ elim (ltb rank start) [
        | true ↦ lookup_node l rank
        | false ↦ lookup_node r (rank - end)
      ]
    ]

-- The loop of `GetList` from rank `i` on, `n` rounds. A rank without a node panics.
unfoldable pub list_ranks : Tree → ℕ → ℕ → Option (List ℤ × List ℤ)
list_ranks t i zero = some ([], [])
list_ranks t i (suc n) =
    let rest = list_ranks t (i + 1) n in
    elim (lookup_node t i) [
      | none ↦ none
      | some (id, k) ↦ elim rest [ none ↦ none | some (ids, scores) ↦ some (id ∷ ids, k ∷ scores) ]
    ]

unfoldable pub get_list : Tree → ℕ → ℕ → Option (List ℤ × List ℤ)
get_list t a b = list_ranks t a (b + 1 - a)

-- A node that was found: its rank, its subtree and the frames above it.
pub record Found : Type 0 where
  pub rank : ℕ
  pub at : Tree
  pub path : Frames

-- The loop of `_lookup_score`, at a node with `base` ids before its subtree.
unfoldable pub lookup_from : ℤ → ℕ → Tree → Frames → Option Found
lookup_from score base leaf path = none
lookup_from score base (node l c s k ids r) path = elim (eqb_ℤ score k) [
  | true ↦ some (record { rank = base + node_size l + 1; at = node l c s k ids r; path = path })
  | false ↦ elim (ltb_ℤ k score) [
    | true ↦ lookup_from score base l (at_left c s k ids r ∷ path)
    | false ↦ lookup_from score (base + node_size l + length ids) r (at_right l c s k ids ∷ path)
  ]
]

abbrev pub ids_of : Tree → List ℤ
ids_of leaf = []
ids_of (node l c s k ids r) = ids

-- The loop of `Locate` over the ids of a node, from index `k` on.
unfoldable pub index_from : ℤ → ℕ → List ℤ → Option ℕ
index_from id k [] = none
index_from id k (v ∷ vs) = if eqb_ℤ v id then some k else index_from id (k + 1) vs

unfoldable pub locate_in : ℤ → Option Found → Option Found
locate_in id none = none
locate_in id (some n) =
    Option.map (λ k. record n { rank = n.rank + k }) (index_from id 0 (ids_of n.at))

-- `Locate`; the pair of -1 and nil is `none`.
unfoldable pub locate : Tree → ℤ → ℤ → Option Found
locate t score id = locate_in id (lookup_from score 0 t [])

-- The rotations at the top of a tree. The child that comes up takes the size of the whole, the
-- other counts anew, as the callbacks do.
unfoldable pub rotate_left : Tree → Option Tree
rotate_left (node l c s k ids (node rl rc rs rk rids rr)) =
    some (node (node l c (node_size l + node_size rl + length ids) k ids rl) rc s rk rids rr)
rotate_left _ = none

unfoldable pub rotate_right : Tree → Option Tree
rotate_right (node (node ll lc ls lk lids lr) c s k ids r) =
    some (node ll lc s lk lids (node lr c (node_size lr + node_size r + length ids) k ids r))
rotate_right _ = none

abbrev pub paint : Bool → Tree → Tree
paint c leaf = leaf
paint c (node l _ s k ids r) = node l c s k ids r

abbrev pub paint_frame : Bool → Frame → Frame
paint_frame c (at_left _ s k ids r) = at_left c s k ids r
paint_frame c (at_right l _ s k ids) = at_right l c s k ids

abbrev pub frame_color : Frame → Bool
frame_color (at_left c s k ids r) = c
frame_color (at_right l c s k ids) = c

-- The sibling of the node below a frame.
abbrev pub sibling : Frame → Tree
sibling (at_left c s k ids r) = r
sibling (at_right l c s k ids) = l

abbrev pub set_sibling : Frame → Tree → Frame
set_sibling (at_left c s k ids _) r = at_left c s k ids r
set_sibling (at_right _ c s k ids) l = at_right l c s k ids
