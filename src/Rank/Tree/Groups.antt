-- ===== src/Rank/Tree/Groups.antt =====
-- What a tree holds, in the order of ranks: its scores with their ids.
use fkgo_server.Base.{
  ℕ, ◌+◌, ◌≡◌, refl, sym, ap, ◌∙◌, Bool, Option, none, some, List, [], ◌∷◌, ◌++◌, append_assoc,
  append-nil, arith, length,
}
use fkgo_server.Base.Int.{ℤ}
use fkgo_server.Rank.Tree.{
  Tree, leaf, node, Frame, at_left, at_right, Frames, fill, plug, node_size, rotate_left,
  rotate_right, paint,
}

abbrev pub Group : Type 0
Group = ℤ × List ℤ

unfoldable pub groups : Tree → List Group
groups leaf = []
groups (node l c s k ids r) = groups l ++ ((k, ids) ∷ groups r)

-- What stands before and behind the hole of a path.
unfoldable pub before : Frames → List Group
before [] = []
before (at_left c s k ids r ∷ path) = before path
before (at_right l c s k ids ∷ path) = before path ++ (groups l ++ ((k, ids) ∷ []))

unfoldable pub behind : Frames → List Group
behind [] = []
behind (at_left c s k ids r ∷ path) = ((k, ids) ∷ groups r) ++ behind path
behind (at_right l c s k ids ∷ path) = behind path

pub groups-plug :
    (t : Tree) (path : Frames) → groups (plug t path) ≡ before path ++ (groups t ++ behind path)
unfolding groups before behind
groups-plug t [] = sym (append-nil (groups t))
groups-plug t (at_left c s k ids r ∷ path) =
    groups-plug (node t c s k ids r) path
    ∙ ap (λ l. before path ++ l) (append_assoc (groups t) ((k, ids) ∷ groups r) (behind path))
groups-plug t (at_right l c s k ids ∷ path) =
    groups-plug (node l c s k ids t) path ∙ simp append_assoc

-- The number of ids.
unfoldable pub weight : List Group → ℕ
weight [] = 0
weight ((k, ids) ∷ gs) = length ids + weight gs

pub weight-append : (xs ys : List Group) → weight (xs ++ ys) ≡ weight xs + weight ys
unfolding weight
weight-append [] ys = omega arith
weight-append ((k, ids) ∷ xs) ys = omega (arith, weight-append xs ys)

-- Every size is the number of ids below the node and in it.
abbrev pub Sized : Tree → Type 0
Sized leaf = Unit
Sized (node l c s k ids r) = Sized l × Sized r × (s ≡ node_size l + length ids + node_size r)

-- The same for the frames above a subtree that has `n` ids.
abbrev pub SizedPath : ℕ → Frames → Type 0
SizedPath n [] = Unit
SizedPath n (at_left c s k ids r ∷ path) =
    Sized r × (s ≡ n + length ids + node_size r) × SizedPath s path
SizedPath n (at_right l c s k ids ∷ path) =
    Sized l × (s ≡ node_size l + length ids + n) × SizedPath s path

pub Sized-plug :
    (t : Tree) (path : Frames) → Sized t → SizedPath (node_size t) path → Sized (plug t path)
Sized-plug t [] h p = h
Sized-plug t (at_left c s k ids r ∷ path) h (hr, e, p) =
    Sized-plug (node t c s k ids r) path (h, hr, e) p
Sized-plug t (at_right l c s k ids ∷ path) h (hl, e, p) =
    Sized-plug (node l c s k ids t) path (hl, h, e) p

pub weight-groups : (t : Tree) → Sized t → weight (groups t) ≡ node_size t
unfolding groups weight
weight-groups leaf h = refl
weight-groups (node l c s k ids r) (hl, hr, e) =
    omega (
      arith,
      weight-append (groups l) ((k, ids) ∷ groups r),
      weight-groups l hl,
      weight-groups r hr,
    )

-- Another tree with the same content and the same size, whose sizes are right if the first one's are.
pub record Same (t : Tree) (u : Tree) : Type 0 where
  pub same_groups : groups u ≡ groups t
  pub same_size : Sized t → node_size u ≡ node_size t
  pub sized : Sized t → Sized u

abbrev pub SameSome : Tree → Option Tree → Type 0
SameSome t none = Unit
SameSome t (some u) = Same t u

pub Same-refl : (t : Tree) → Same t t
Same-refl t = record { same_groups = refl; same_size = λ h. refl; sized = λ h. h }

pub Same-trans : {t u v : Tree} → Same t u → Same u v → Same t v
Same-trans a b = record {
  same_groups = b.same_groups ∙ a.same_groups;
  same_size = λ h. b.same_size (a.sized h) ∙ a.same_size h;
  sized = λ h. b.sized (a.sized h);
}

pub Same-fill : (t u : Tree) (f : Frame) → Same t u → Same (fill t f) (fill u f)
unfolding groups
Same-fill t u (at_left c s k ids r) h = record {
  same_groups = ap (λ l. l ++ ((k, ids) ∷ groups r)) h.same_groups;
  same_size = λ _. refl;
  sized = λ (a, b, e). (h.sized a, b, omega (arith, h.same_size a));
}
Same-fill t u (at_right l c s k ids) h = record {
  same_groups = ap (λ g. groups l ++ ((k, ids) ∷ g)) h.same_groups;
  same_size = λ _. refl;
  sized = λ (a, b, e). (a, h.sized b, omega (arith, h.same_size b));
}

pub Same-plug : (t u : Tree) (path : Frames) → Same t u → Same (plug t path) (plug u path)
Same-plug t u [] h = h
Same-plug t u (f ∷ path) h = Same-plug (fill t f) (fill u f) path (Same-fill t u f h)

pub Same-paint : (c : Bool) (t : Tree) → Same t (paint c t)
unfolding groups
Same-paint c leaf = Same-refl leaf
Same-paint c (node l _ s k ids r) = record {
  same_groups = refl;
  same_size = λ h. refl;
  sized = λ h. h;
}

pub rotate_left-Same : (t : Tree) → SameSome t (rotate_left t)
unfolding rotate_left groups
rotate_left-Same leaf = tt
rotate_left-Same (node l c s k ids leaf) = tt
rotate_left-Same (node l c s k ids (node rl rc rs rk rids rr)) = record {
  same_groups = append_assoc (groups l) ((k, ids) ∷ groups rl) ((rk, rids) ∷ groups rr);
  same_size = λ h. refl;
  sized = λ (a, (b, d, e), e'). ((a, b, omega arith), d, omega arith);
}

pub rotate_right-Same : (t : Tree) → SameSome t (rotate_right t)
unfolding rotate_right groups
rotate_right-Same leaf = tt
rotate_right-Same (node leaf c s k ids r) = tt
rotate_right-Same (node (node ll lc ls lk lids lr) c s k ids r) = record {
  same_groups = sym (append_assoc (groups ll) ((lk, lids) ∷ groups lr) ((k, ids) ∷ groups r));
  same_size = λ h. refl;
  sized = λ ((a, b, e), d, e'). (a, (b, d, omega arith), omega arith);
}
