-- ===== src/Rank/Tree/Remove/Inner.antt =====
-- `Delete` of Dos.go where a node loses its only id: the node goes, or its predecessor in its place.
use fkgo_server.Base.{
  ℕ, ◌+◌, ◌-◌, ◌≡◌, refl, sym, ap, ap₂, ◌∙◌, subst, inl, inr, Bool, Option, List, [], ◌∷◌, ◌++◌,
  append_assoc, append-nil, arith, length,
}
use fkgo_server.Base.Int.{ℤ}
use fkgo_server.Rank.Tree.{Tree, leaf, node, at_left, at_right, Frames, plug, node_size}
use fkgo_server.Rank.Tree.Groups.{
  Group, groups, before, behind, groups-plug, Sized, SizedPath, Sized-plug, weight, weight-append,
  weight-groups,
}
use fkgo_server.Rank.Tree.Balance.{Stands, go_left, go_right}
use fkgo_server.Rank.Tree.Place.{
  Sized-unplug, plug-append, Alike, Alike-append, Alike-shrink, SizedPath-shrink, before-shrink,
  behind-shrink,
}
use fkgo_server.Rank.Tree.Remove.{remove_node, maximum_node, remove_inner, remove_last, shrink}
use fkgo_server.Rank.Tree.Remove.Correct.{Removed, remove_node_lem}

Stands-unplug :
    (n : ℕ) (t : Tree) (down path : Frames)
    → Stands n (plug t down) path
    → (m : ℕ) × Stands m t (down ++ path)
Stands-unplug n t [] path h = (n, h)
Stands-unplug n t (at_left c s k ids r ∷ down) path h =
    let (m, i) = Stands-unplug n (node t c s k ids r) down path h in
    go_left m t c s s k k ids ids r (down ++ path) i
Stands-unplug n t (at_right l c s k ids ∷ down) path h =
    let (m, i) = Stands-unplug n (node l c s k ids t) down path h in
    go_right m l c s s k k ids ids t (down ++ path) i

SizedPath-append :
    (t : Tree) (xs ys : Frames)
    → SizedPath (node_size t) xs
    → SizedPath (node_size (plug t xs)) ys
    → SizedPath (node_size t) (xs ++ ys)
SizedPath-append t [] ys h i = i
SizedPath-append t (at_left c s k ids r ∷ xs) ys (hr, e, p) i =
    (hr, e, SizedPath-append (node t c s k ids r) xs ys p i)
SizedPath-append t (at_right l c s k ids ∷ xs) ys (hl, e, p) i =
    (hl, e, SizedPath-append (node l c s k ids t) xs ys p i)

-- The way down to the maximum only goes right.
abbrev RightOnly : Frames → Type 0
RightOnly [] = Unit
RightOnly (at_left c s k ids r ∷ path) = ⊥
RightOnly (at_right l c s k ids ∷ path) = RightOnly path

behind_right : (path : Frames) → RightOnly path → behind path ≡ []
unfolding behind
behind_right [] h = refl
behind_right (at_left c s k ids r ∷ path) h = absurd h
behind_right (at_right l c s k ids ∷ path) h = behind_right path h

abbrev without_right : Tree × Bool × ℕ × ℤ × List ℤ → Tree
without_right (l, c, s, k, ids) = node l c s k ids leaf

plug-maximum_node :
    (l : Tree) (c : Bool) (s : ℕ) (k : ℤ) (ids : List ℤ) (r : Tree) (path : Frames)
    → let m = maximum_node l c s k ids r path in
      plug (without_right m.0) m.1 ≡ plug (node l c s k ids r) path
plug-maximum_node l c s k ids leaf path = refl
plug-maximum_node l c s k ids (node rl rc rs rk rids rr) path =
    plug-maximum_node rl rc rs rk rids rr (at_right l c s k ids ∷ path)

maximum_node-RightOnly :
    (l : Tree) (c : Bool) (s : ℕ) (k : ℤ) (ids : List ℤ) (r : Tree) (path : Frames)
    → RightOnly path
    → RightOnly (maximum_node l c s k ids r path).1
maximum_node-RightOnly l c s k ids leaf path h = h
maximum_node-RightOnly l c s k ids (node rl rc rs rk rids rr) path h =
    maximum_node-RightOnly rl rc rs rk rids rr (at_right l c s k ids ∷ path) h

-- A tree below smaller sizes.
pub placed :
    (t : Tree) (path : Frames)
    → groups (plug t (shrink 1 path)) ≡ before path ++ (groups t ++ behind path)
placed t path =
    groups-plug t (shrink 1 path)
    ∙ ap₂ (λ x y. x ++ (groups t ++ y)) (before-shrink 1 path) (behind-shrink 1 path)

regroup : (xs ys zs : List Group) → xs ++ ((ys ++ zs) ++ []) ≡ (xs ++ (ys ++ [])) ++ zs
regroup xs ys zs = simp (append_assoc, append-nil)

-- A left subtree without its maximum, which `pl` stood below.
module _ (pl : Tree) (pc : Bool) (ps : ℕ) (pk : ℤ) (pids : List ℤ) (down : Frames)
    (right_only : RightOnly down) where
  abbrev rest : Tree
  rest = plug pl (shrink (length pids) down)

  abbrev whole : Tree
  whole = plug (node pl pc ps pk pids leaf) down

  groups-rest : groups whole ≡ groups rest ++ ((pk, pids) ∷ [])
  unfolding groups
  groups-rest =
      let d = shrink (length pids) down in
      let left : groups rest ≡ before down ++ (groups pl ++ []) =
        groups-plug pl d
        ∙ ap₂ (λ x y. x ++ (groups pl ++ y)) (before-shrink _ down)
            (behind-shrink _ down ∙ behind_right down right_only) in
      groups-plug (node pl pc ps pk pids leaf) down
      ∙ ap (λ y. before down ++ ((groups pl ++ ((pk, pids) ∷ [])) ++ y))
          (behind_right down right_only)
      ∙ regroup (before down) (groups pl) ((pk, pids) ∷ [])
      ∙ sym (ap (λ gs. gs ++ ((pk, pids) ∷ [])) left)

  sizes :
      Sized whole
      → Sized pl
        × (ps - length pids ≡ node_size pl)
        × SizedPath (node_size pl) (shrink (length pids) down)
  sizes h =
      let ((hp, _, e), p) = Sized-unplug (node pl pc ps pk pids leaf) down h in
      let same : ps - length pids ≡ node_size pl = omega arith in
      (
        hp,
        same,
        subst (λ i. SizedPath i (shrink (length pids) down)) same
            (SizedPath-shrink (length pids) ps down (omega arith) p),
      )

  size-rest : Sized whole → node_size whole ≡ node_size rest + length pids
  unfolding weight
  size-rest h =
      let (hp, _, p) = sizes h in
      omega (
        arith,
        weight-groups whole h,
        weight-groups rest (Sized-plug pl _ hp p),
        ap weight groups-rest,
        weight-append (groups rest) ((pk, pids) ∷ []),
      )

-- A node with two children gets the score and the ids of its predecessor, which goes.
pub remove_inner_lem :
    (n : ℕ) (pl : Tree) (pc : Bool) (ps : ℕ) (pk : ℤ) (pids : List ℤ) (down : Frames)
    → RightOnly down
    → (c : Bool) (s : ℕ) (k : ℤ) (ids : List ℤ) (r : Tree) (path : Frames) → length ids ≡ 1
    → Stands n (node (plug (node pl pc ps pk pids leaf) down) c s k ids r) path
    → Sized (node (plug (node pl pc ps pk pids leaf) down) c s k ids r)
    → SizedPath s path
    → Removed
        (before path
          ++ ((groups (plug (node pl pc ps pk pids leaf) down) ++ groups r) ++ behind path))
        (remove_inner ((pl, pc, ps, pk, pids), down) c (s - 1) r (shrink 1 path))
unfolding remove_inner groups
remove_inner_lem n pl pc ps pk pids down right_only c s k ids r path one stands (hl, hr, e) hp =
    let l = plug (node pl pc ps pk pids leaf) down in
    let l' = rest pl pc ps pk pids down right_only in
    let down' = shrink (length pids) down in
    let (hpl, same, hdown) = sizes pl pc ps pk pids down right_only hl in
    let smaller = size-rest pl pc ps pk pids down right_only hl in
    let above = at_left c (s - 1) pk pids r ∷ shrink 1 path in
    let (i, at_left_child) = go_left n l c s s k k ids ids r path stands in
    let (m, below) =
      Stands-unplug i (node pl pc ps pk pids leaf) down (at_left c s k ids r ∷ path)
        at_left_child in
    let sized_above : SizedPath (node_size l') above =
      (hr, omega arith, SizedPath-shrink 1 s path (omega arith) hp) in
    let content : groups (plug pl (down' ++ above))
        ≡ before path ++ ((groups l ++ groups r) ++ behind path) =
      ap groups (plug-append pl down' above)
      ∙ placed (node l' c (s - 1) pk pids r) path
      ∙ ap (λ gs. before path ++ (gs ++ behind path))
          (sym (append_assoc (groups l') ((pk, pids) ∷ []) (groups r))
            ∙ ap (λ gs. gs ++ groups r) (sym (groups-rest pl pc ps pk pids down right_only))) in
    let alike : Alike (down ++ (at_left c s k ids r ∷ path)) (down' ++ above) =
      Alike-append down down' (at_left c s k ids r ∷ path) above (Alike-shrink (length pids) down)
        (refl, refl, Alike-shrink 1 path) in
    subst
      (λ z.
        Removed (before path ++ ((groups l ++ groups r) ++ behind path))
          (remove_node pl pc z leaf (down' ++ above)))
      (sym same)
      (subst (λ gs. Removed gs (remove_node pl pc (node_size pl) leaf (down' ++ above))) content
        (remove_node_lem m pl pc ps pk pids leaf pl (down ++ (at_left c s k ids r ∷ path))
          (down' ++ above) (inl (refl, refl)) below alike hpl
          (SizedPath-append pl down' above hdown sized_above)))

abbrev Shrunk : Tree → Bool → ℕ → ℤ → List ℤ → Tree → Frames → Option Tree → Type 0
Shrunk l c s k ids r path o =
    (n : ℕ)
    → Stands n (node l c s k ids r) path
    → Sized (node l c s k ids r)
    → SizedPath s path
    → Removed (before path ++ ((groups l ++ groups r) ++ behind path)) o

-- A node whose only id goes.
pub remove_last_lem :
    (l : Tree) (c : Bool) (s : ℕ) (k : ℤ) (ids : List ℤ) (r : Tree) (path : Frames)
    → length ids ≡ 1
    → Shrunk l c s k ids r path (remove_last l c (s - 1) r (shrink 1 path))
unfolding remove_last groups
remove_last_lem leaf c s k ids r path one n stands (hl, hr, e) hp =
    let same : node_size r ≡ s - 1 = omega arith in
    subst
      (λ z.
        Removed (before path ++ (groups r ++ behind path)) (remove_node leaf c z r (shrink 1 path)))
      same
      (subst (λ gs. Removed gs (remove_node leaf c (node_size r) r (shrink 1 path))) (placed r path)
        (remove_node_lem n leaf c s k ids r r path (shrink 1 path) (inr (refl, refl)) stands
          (Alike-shrink 1 path) hr
          (subst (λ z. SizedPath z (shrink 1 path)) (sym same)
            (SizedPath-shrink 1 s path (omega arith) hp))))
remove_last_lem (node ll lc ls lk lids lr) c s k ids leaf path one n stands (hl, hr, e) hp =
    let l = node ll lc ls lk lids lr in
    let same : node_size l ≡ s - 1 = omega arith in
    subst
      (λ gs.
        Removed (before path ++ (gs ++ behind path)) (remove_node l c (s - 1) leaf (shrink 1 path)))
      (sym (append-nil (groups l)))
      (subst
        (λ z.
          Removed (before path ++ (groups l ++ behind path))
            (remove_node l c z leaf (shrink 1 path)))
        same
        (subst (λ gs. Removed gs (remove_node l c (node_size l) leaf (shrink 1 path)))
          (placed l path)
          (remove_node_lem n l c s k ids leaf l path (shrink 1 path) (inl (refl, refl)) stands
            (Alike-shrink 1 path) hl
            (subst (λ z. SizedPath z (shrink 1 path)) (sym same)
              (SizedPath-shrink 1 s path (omega arith) hp)))))
remove_last_lem (node ll lc ls lk lids lr) c s k ids (node rl rc rs rk rids rr) path one n stands h
      hp =
    let m = maximum_node ll lc ls lk lids lr [] in
    subst
      (λ l.
        Shrunk l c s k ids (node rl rc rs rk rids rr) path
          (remove_inner m c (s - 1) (node rl rc rs rk rids rr) (shrink 1 path)))
      (plug-maximum_node ll lc ls lk lids lr [])
      (λ n stands h hp.
        remove_inner_lem n m.0.0 m.0.1 m.0.2 m.0.3 m.0.4 m.1
          (maximum_node-RightOnly ll lc ls lk lids lr [] tt) c s k ids (node rl rc rs rk rids rr)
          path one stands h hp)
      n stands h hp
