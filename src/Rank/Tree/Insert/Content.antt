-- ===== src/Rank/Tree/Insert/Content.antt =====
-- What `Insert` of Dos.go does to the content of a tree: the cases change nothing, and the new id comes
-- to its score.
use fkgo_server.Base.{
  ◌+◌, ◌≡◌, refl, sym, ap, ◌∙◌, subst, inl, inr, Bool, Option, none, some, List, [], ◌∷◌, ◌++◌,
  append_assoc, append-nil, arith, length-append, Bool-cases, if_both,
}
use fkgo_server.Base.Int.{ℤ, ◌<ℤ◌, ltb_ℤ, eqb_ℤ, eqb_ℤ→eq}
use fkgo_server.Rank.Tree.{
  red, black, Tree, leaf, node, Frame, at_left, at_right, Frames, fill, plug, node_size, node_color,
  paint, paint_frame, frame_color, sibling, set_sibling,
}
use fkgo_server.Rank.Tree.Groups.{
  Group, groups, before, behind, groups-plug, Sized, SizedPath, Sized-plug, Same, SameSome,
  Same-refl, Same-trans, Same-fill, Same-plug, Same-paint, rotate_left-Same, rotate_right-Same,
}
use fkgo_server.Rank.Tree.Order.{
  Above, Ordered, put, Above-weaken, Ordered-parts, put_left, put_past, put_here, put_behind,
}
use fkgo_server.Rank.Tree.Insert.{
  insert_case5, down_left, down_right, case5_at, insert_case4, recolor, plug_some, insert_case1,
  insert_from, insert_from_here, insert_from_left, insert_from_right, insert,
}

pub Same-frame : (t : Tree) (c : Bool) (f : Frame) → Same (fill t f) (fill t (paint_frame c f))
unfolding groups
Same-frame t c (at_left _ s k ids r) = record {
  same_groups = refl;
  same_size = λ h. refl;
  sized = λ h. h;
}
Same-frame t c (at_right l _ s k ids) = record {
  same_groups = refl;
  same_size = λ h. refl;
  sized = λ h. h;
}

pub Same-sibling :
    (t : Tree) (c : Bool) (f : Frame)
    → Same (fill t f) (fill t (set_sibling f (paint c (sibling f))))
unfolding groups
Same-sibling t c (at_left d s k ids r) =
    let p = Same-paint c r in
    record {
      same_groups = ap (λ g. groups t ++ ((k, ids) ∷ g)) p.same_groups;
      same_size = λ h. refl;
      sized = λ (a, b, e). (a, p.sized b, omega (arith, p.same_size b));
    }
Same-sibling t c (at_right l d s k ids) =
    Same-fill l (paint c l) (at_left d s k ids t) (Same-paint c l)

pub SameSome-trans : (t u : Tree) (o : Option Tree) → Same t u → SameSome u o → SameSome t o
SameSome-trans t u none h s = tt
SameSome-trans t u (some v) h s = Same-trans h s

-- The colors of case 5.
painted :
    (n : Tree) (p g : Frame)
    → Same (fill (fill n p) g) (fill (fill n (paint_frame black p)) (paint_frame red g))
painted n p g =
    Same-trans (Same-fill (fill n p) (fill n (paint_frame black p)) g (Same-frame n black p))
      (Same-frame (fill n (paint_frame black p)) red g)

insert_case5-Same : (n : Tree) (p g : Frame) → SameSome (fill (fill n p) g) (insert_case5 n p g)
unfolding insert_case5
insert_case5-Same n (at_left pc ps pk pids pr) (at_left gc gs gk gids gr) =
    SameSome-trans _ _ _ (painted n (at_left pc ps pk pids pr) (at_left gc gs gk gids gr))
      (rotate_right-Same _)
insert_case5-Same n (at_left pc ps pk pids pr) (at_right gl gc gs gk gids) =
    SameSome-trans _ _ _ (painted n (at_left pc ps pk pids pr) (at_right gl gc gs gk gids))
      (rotate_left-Same _)
insert_case5-Same n (at_right pl pc ps pk pids) g =
    SameSome-trans _ _ _ (painted n (at_right pl pc ps pk pids) g) (rotate_left-Same _)

SameFocus : Tree → Option (Tree × Frame) → Type 0
SameFocus t none = Unit
SameFocus t (some (n, p)) = Same t (fill n p)

down_left-Same : (t : Tree) (o : Option Tree) → SameSome t o → SameFocus t (down_left o)
unfolding down_left SameFocus
down_left-Same t none h = tt
down_left-Same t (some leaf) h = tt
down_left-Same t (some (node l c s k ids r)) h = h

down_right-Same : (t : Tree) (o : Option Tree) → SameSome t o → SameFocus t (down_right o)
unfolding down_right SameFocus
down_right-Same t none h = tt
down_right-Same t (some leaf) h = tt
down_right-Same t (some (node l c s k ids r)) h = h

case5_at-Same :
    (t : Tree) (at : Option (Tree × Frame)) (g : Frame)
    → SameFocus t at
    → SameSome (fill t g) (case5_at at g)
unfolding case5_at SameFocus
case5_at-Same t none g h = tt
case5_at-Same t (some (n, p)) g h =
    SameSome-trans _ _ _ (Same-fill t (fill n p) g h) (insert_case5-Same n p g)

insert_case4-Same : (n : Tree) (p g : Frame) → SameSome (fill (fill n p) g) (insert_case4 n p g)
unfolding insert_case4
insert_case4-Same n (at_right pl pc ps pk pids) (at_left gc gs gk gids gr) =
    case5_at-Same _ _ (at_left gc gs gk gids gr) (down_left-Same _ _ (rotate_left-Same _))
insert_case4-Same n (at_left pc ps pk pids pr) (at_right gl gc gs gk gids) =
    case5_at-Same _ _ (at_right gl gc gs gk gids) (down_right-Same _ _ (rotate_right-Same _))
insert_case4-Same n (at_left pc ps pk pids pr) (at_left gc gs gk gids gr) = insert_case5-Same n _ _
insert_case4-Same n (at_right pl pc ps pk pids) (at_right gl gc gs gk gids) =
    insert_case5-Same n _ _

plug_some-Same :
    (t : Tree) (o : Option Tree) (path : Frames)
    → SameSome t o
    → SameSome (plug t path) (plug_some o path)
plug_some-Same t none path h = tt
plug_some-Same t (some u) path h = Same-plug t u path h

recolor-Same : (n : Tree) (p g : Frame) → Same (fill (fill n p) g) (recolor n p g)
recolor-Same n p g =
    let n' = fill n (paint_frame black p) in
    let g' = set_sibling g (paint black (sibling g)) in
    Same-trans (Same-fill (fill n p) n' g (Same-frame n black p))
      (Same-trans (Same-sibling n' black g) (Same-frame n' red g'))

pub insert_case1-Same : (n : Tree) (path : Frames) → SameSome (plug n path) (insert_case1 n path)
unfolding insert_case1
insert_case1-Same n [] = Same-paint black n
insert_case1-Same n (p ∷ []) =
    if_both (SameSome (plug n (p ∷ []))) (frame_color p) none _ tt (Same-refl _)
insert_case1-Same n (p ∷ g ∷ path) =
    let whole = plug n (p ∷ g ∷ path) in
    if_both (SameSome whole) (frame_color p) _ (some whole)
      (if_both (SameSome whole) (node_color (sibling g)) _ _
        (SameSome-trans _ _ _ (Same-plug _ _ path (recolor-Same n p g))
          (insert_case1-Same (recolor n p g) path))
        (plug_some-Same _ _ path (insert_case4-Same n p g)))
      (Same-refl whole)

-- The content of the result, if there is one.
abbrev pub GroupsSome : List Group → Option Tree → Type 0
GroupsSome gs none = Unit
GroupsSome gs (some u) = groups u ≡ gs

GroupsSome-Same :
    (t : Tree) (o : Option Tree) (gs : List Group) → SameSome t o → groups t ≡ gs → GroupsSome gs o
GroupsSome-Same t none gs h e = tt
GroupsSome-Same t (some u) gs h e = h.same_groups ∙ e

GroupsSome-eq : (o : Option Tree) (gs hs : List Group) → gs ≡ hs → GroupsSome gs o → GroupsSome hs o
GroupsSome-eq none gs hs e h = tt
GroupsSome-eq (some u) gs hs e h = h ∙ e

abbrev pub around : Frames → List Group → List Group
around path gs = before path ++ (gs ++ behind path)

right_around :
    (score id : ℤ) (gl : List Group) (k : ℤ) (ids : List ℤ) (gr bs cs : List Group)
    → Above k gl
    → score <ℤ k
    → (bs ++ (gl ++ ((k, ids) ∷ []))) ++ (put score id gr ++ cs)
      ≡ bs ++ (put score id (gl ++ ((k, ids) ∷ gr)) ++ cs)
right_around score id gl k ids gr bs cs above h =
    let whole =
      put_past score id gl ((k, ids) ∷ gr) (Above-weaken score k gl h above)
      ∙ ap (λ g. gl ++ g) (put_behind score id k ids gr h) in
    rw whole (simp append_assoc)

insert_from-groups :
    (score id : ℤ) (t : Tree) (path : Frames)
    → Ordered (groups t)
    → GroupsSome (around path (put score id (groups t))) (insert_from score id t path)
unfolding insert_from groups put before behind
insert_from-groups score id leaf path o =
    let new = node leaf red 1 score (id ∷ []) leaf in
    GroupsSome-Same _ _ _ (insert_case1-Same new path) (groups-plug new path)
insert_from-groups score id (node l c s k ids r) path o =
    let (ol, above, below, or) = Ordered-parts (groups l) k ids (groups r) o in
    let goal = around path (put score id (groups (node l c s k ids r))) in
    elim (Bool-cases (eqb_ℤ score k)) [
      | inl same ↦
          subst (GroupsSome goal) (sym (insert_from_here score id l c s k ids r path same)) (
            groups-plug (node l c (s + 1) k (ids ++ (id ∷ [])) r) path
            ∙ ap (around path) (
                sym (
                  put_past score id (groups l) ((k, ids) ∷ groups r)
                    (subst (λ q. Above q (groups l)) (sym (eqb_ℤ→eq score k same)) above)
                  ∙ ap (λ g. groups l ++ g) (put_here score id k ids (groups r) same))))
      | inr other ↦ elim (Bool-cases (ltb_ℤ k score)) [
        | inl up ↦
            subst (GroupsSome goal) (sym (insert_from_left score id l c s k ids r path other up)) (
              GroupsSome-eq (insert_from score id l (at_left c (s + 1) k ids r ∷ path)) _ goal
                (ap (λ g. before path ++ g)
                  (sym (append_assoc (put score id (groups l)) ((k, ids) ∷ groups r) (behind path))
                    ∙ ap (λ g. g ++ behind path)
                        (sym (put_left score id (groups l) k ids (groups r) (ground arith)))))
                (insert_from-groups score id l (at_left c (s + 1) k ids r ∷ path) ol))
        | inr down ↦
            subst (GroupsSome goal) (sym (insert_from_right score id l c s k ids r path other down))
              (GroupsSome-eq (insert_from score id r (at_right l c (s + 1) k ids ∷ path)) _ goal
                (right_around score id (groups l) k ids (groups r) (before path) (behind path) above
                  (ground arith))
                (insert_from-groups score id r (at_right l c (s + 1) k ids ∷ path) or))
      ]
    ]

SizedSome : Option Tree → Type 0
SizedSome none = Unit
SizedSome (some u) = Sized u

SizedSome-Same : (t : Tree) (o : Option Tree) → SameSome t o → Sized t → SizedSome o
unfolding SizedSome
SizedSome-Same t none h z = tt
SizedSome-Same t (some u) h z = h.sized z

-- On the way down each frame already counts the new id.
insert_from-Sized :
    (score id : ℤ) (t : Tree) (path : Frames)
    → Sized t
    → SizedPath (node_size t + 1) path
    → SizedSome (insert_from score id t path)
unfolding insert_from SizedSome
insert_from-Sized score id leaf path z p =
    let new = node leaf red 1 score (id ∷ []) leaf in
    SizedSome-Same _ _ (insert_case1-Same new path) (Sized-plug new path (tt, tt, omega arith) p)
insert_from-Sized score id (node l c s k ids r) path (zl, zr, e) p =
    elim (Bool-cases (eqb_ℤ score k)) [
      | inl same ↦
          subst SizedSome (sym (insert_from_here score id l c s k ids r path same))
            (Sized-plug _ path (zl, zr, omega (arith, length-append {A = ℤ} ids (id ∷ []))) p)
      | inr other ↦ elim (Bool-cases (ltb_ℤ k score)) [
        | inl up ↦ subst SizedSome (sym (insert_from_left score id l c s k ids r path other up)) (
            insert_from-Sized score id l (at_left c (s + 1) k ids r ∷ path) zl (zr, omega arith, p))
        | inr down ↦
            subst SizedSome (sym (insert_from_right score id l c s k ids r path other down)) (
              insert_from-Sized score id r (at_right l c (s + 1) k ids ∷ path) zr
                (zl, omega arith, p))
      ]
    ]

-- Where `Insert` returns a tree, its content is that of the old tree with the id put to its score, and
-- its sizes are right if the old ones are.
pub insert_content :
    (t : Tree) (score id : ℤ) (u : Tree)
    → Ordered (groups t)
    → insert t score id ≡ some u
    → (groups u ≡ put score id (groups t)) × (Sized t → Sized u)
unfolding insert before behind SizedSome
insert_content t score id u o e = (
  subst (GroupsSome (put score id (groups t) ++ [])) e (insert_from-groups score id t [] o)
      ∙ append-nil _,
  λ z. subst SizedSome e (insert_from-Sized score id t [] z tt),
)
