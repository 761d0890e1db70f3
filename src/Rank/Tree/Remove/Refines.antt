-- ===== src/Rank/Tree/Remove/Refines.antt =====
-- `Locate` and `Delete` of Dos.go together: they find and take one entry.
use fkgo_server.Base.{
  ℕ, ◌+◌, ◌-◌, ◌<◌, ◌≡◌, refl, sym, ap, ap₂, ◌∙◌, subst, inl, inr, Bool, Option, none, some, List,
  [], ◌∷◌, ◌++◌, append_assoc, append-nil, arith, length, length-append, ltb, Bool-cases,
  Option-cases,
}
use fkgo_server.Base.Int.{ℤ}
use mathlib.Core.Option
use mathlib.Core.Option.{some-injective}
use fkgo_server.Rank.SortedSet.{SortedSet}
use fkgo_server.Rank.Tree.{
  Tree, node, Frames, plug, Found, lookup_from, ids_of, index_from, locate_in, locate,
}
use fkgo_server.Rank.Tree.Groups.{
  Group, groups, before, behind, groups-plug, Sized-plug, weight, weight-append,
}
use fkgo_server.Rank.Tree.Order.{Ordered, Below-parts, Below-append}
use fkgo_server.Rank.Tree.Entries.{
  entry, same_score, expand, entries, Filled, expand-append, same_score-append, length-same_score,
  Filled-append, Filled-join,
}
use fkgo_server.Rank.Tree.Balance.{IsRedBlack-plug}
use fkgo_server.Rank.Tree.Place.{
  IsRedBlack-unplug, Sized-unplug, Alike-shrink, Stands-Alike, SizedPath-shrink,
}
use fkgo_server.Rank.Tree.Lookup.{AtScore, lookup_from-AtScore, index_from-splits}
use fkgo_server.Rank.Tree.Insert.Correct.{IsValid}
use fkgo_server.Rank.Tree.Remove.{remove_last, drop_id, without_id, delete_at, delete, shrink}
use fkgo_server.Rank.Tree.Remove.Inner.{placed, remove_last_lem}

-- A score in the middle goes, or gets other ids.
Ordered-without :
    (xs : List Group) (k : ℤ) (ids : List ℤ) (ys : List Group)
    → Ordered (xs ++ ((k, ids) ∷ ys))
    → Ordered (xs ++ ys)
Ordered-without [] k ids ys (b, o) = o
Ordered-without ((j, js) ∷ xs) k ids ys (b, o) =
    let (bx, (_, by)) = Below-parts j xs ((k, ids) ∷ ys) b in
    (Below-append j xs ys bx by, Ordered-without xs k ids ys o)

Ordered-with :
    (xs : List Group) (k : ℤ) (ids rest : List ℤ) (ys : List Group)
    → Ordered (xs ++ ((k, ids) ∷ ys))
    → Ordered (xs ++ ((k, rest) ∷ ys))
Ordered-with [] k ids rest ys o = o
Ordered-with ((j, js) ∷ xs) k ids rest ys (b, o) =
    let (bx, by) = Below-parts j xs ((k, ids) ∷ ys) b in
    (Below-append j xs ((k, rest) ∷ ys) bx by, Ordered-with xs k ids rest ys o)

expand-middle :
    (xs : List Group) (k : ℤ) (ids : List ℤ) (ys : List Group)
    → expand (xs ++ ((k, ids) ∷ ys)) ≡ expand xs ++ (same_score k ids ++ expand ys)
unfolding expand
expand-middle xs k ids ys = expand-append xs ((k, ids) ∷ ys)

no_ids : (k : ℤ) (ids : List ℤ) → length ids ≡ 0 → same_score k ids ≡ []
unfolding same_score
no_ids k [] e = refl
no_ids k (id ∷ ids) e = absurd (omega arith)

module _ (l : Tree) (c : Bool) (s : ℕ) (k : ℤ) (ids1 : List ℤ) (id : ℤ) (ids2 : List ℤ) (r : Tree)
    (path : Frames) where
  abbrev held : List ℤ
  held = ids1 ++ (id ∷ ids2)

  abbrev front : List Group
  front = before path ++ groups l

  abbrev back : List Group
  back = groups r ++ behind path

  -- The place of the node in the whole.
  content :
      (z : ℕ) (ids : List ℤ) → groups (plug (node l c z k ids r) path) ≡ front ++ ((k, ids) ∷ back)
  unfolding groups
  content z ids =
      groups-plug (node l c z k ids r) path
      ∙ ap (λ gs. before path ++ gs) (append_assoc (groups l) ((k, ids) ∷ groups r) (behind path))
      ∙ sym (append_assoc (before path) (groups l) ((k, ids) ∷ back))

  -- The entry goes out of the whole.
  abbrev Taken : Option Tree → Type 0
  Taken o =
      (u : Tree) × (o ≡ some u)
      × IsValid u
      × (entries u ≡ (expand front ++ same_score k ids1) ++ (same_score k ids2 ++ expand back))

  entry_there :
      entries (plug (node l c s k held r) path)
      ≡ (expand front ++ same_score k ids1) ++ (entry k id ∷ (same_score k ids2 ++ expand back))
  unfolding entries same_score
  entry_there =
      ap expand (content s held)
      ∙ expand-middle front k held back
      ∙ ap (λ e. expand front ++ (e ++ expand back)) (same_score-append k ids1 (id ∷ ids2))
      ∙ ap (λ e. expand front ++ e)
          (append_assoc (same_score k ids1) (entry k id ∷ same_score k ids2) (expand back))
      ∙ sym (
          append_assoc (expand front) (same_score k ids1)
            (entry k id ∷ (same_score k ids2 ++ expand back)))

  counted : length held ≡ length (ids1 ++ ids2) + 1
  counted = omega (arith, length-append {A = ℤ} ids1 (id ∷ ids2), length-append {A = ℤ} ids1 ids2)

  -- Some ids stay.
  without_id_lem :
      0 < length (ids1 ++ ids2)
      → IsValid (plug (node l c s k held r) path)
      → Taken (some (plug (node l c (s - 1) k (ids1 ++ ids2) r) (shrink 1 path)))
  unfolding entries
  without_id_lem some_left v =
      let ids = ids1 ++ ids2 in
      let (n, stands) = IsRedBlack-unplug (node l c s k held r) path v.balanced in
      let ((hl, hr, e), hp) = Sized-unplug (node l c s k held r) path v.sized in
      let here : groups (plug (node l c (s - 1) k ids r) (shrink 1 path))
          ≡ front ++ ((k, ids) ∷ back) =
        placed (node l c (s - 1) k ids r) path
        ∙ sym (groups-plug (node l c (s - 1) k ids r) path)
        ∙ content (s - 1) ids in
      let ordered : Ordered (front ++ ((k, held) ∷ back)) =
        subst Ordered (content s held) v.ordered in
      let filled : Filled (front ++ ((k, held) ∷ back)) = subst Filled (content s held) v.filled in
      let (ff, (_, fb)) = Filled-append front ((k, held) ∷ back) filled in
      let (b', p', a') =
        Stands-Alike n (node l c s k held r) path (shrink 1 path) (Alike-shrink 1 path) stands in
      (
        _,
        refl,
        record {
          balanced = IsRedBlack-plug n (node l c (s - 1) k ids r) (shrink 1 path) b' p' a';
          ordered = subst Ordered (sym here) (Ordered-with front k held ids back ordered);
          sized =
              Sized-plug (node l c (s - 1) k ids r) (shrink 1 path) (hl, hr, omega (arith, counted))
                (SizedPath-shrink 1 s path (omega (arith, counted)) hp);
          filled = subst Filled (sym here) (Filled-join front ((k, ids) ∷ back) ff (some_left, fb));
        },
        ap expand here
            ∙ expand-middle front k ids back
            ∙ ap (λ x. expand front ++ (x ++ expand back)) (same_score-append k ids1 ids2)
            ∙ ap (λ x. expand front ++ x)
                (append_assoc (same_score k ids1) (same_score k ids2) (expand back))
            ∙ sym (
                append_assoc (expand front) (same_score k ids1) (same_score k ids2 ++ expand back)),
      )

  -- No id stays.
  remove_last-Taken :
      length (ids1 ++ ids2) ≡ 0
      → IsValid (plug (node l c s k held r) path)
      → Taken (remove_last l c (s - 1) r (shrink 1 path))
  unfolding entries same_score
  remove_last-Taken none_left v =
      let (n, stands) = IsRedBlack-unplug (node l c s k held r) path v.balanced in
      let (h, hp) = Sized-unplug (node l c s k held r) path v.sized in
      let (u, found, balanced, sized, rest) =
        remove_last_lem l c s k held r path (omega (arith, counted)) n stands h hp in
      let here : groups u ≡ front ++ back =
        rest
        ∙ ap (λ gs. before path ++ gs) (append_assoc (groups l) (groups r) (behind path))
        ∙ sym (append_assoc (before path) (groups l) back) in
      let (ff, (_, fb)) =
        Filled-append front ((k, held) ∷ back) (subst Filled (content s held) v.filled) in
      (
        u,
        found,
        record {
          balanced = balanced;
          ordered =
              subst Ordered (sym here)
                (Ordered-without front k held back (subst Ordered (content s held) v.ordered));
          sized = sized;
          filled = subst Filled (sym here) (Filled-join front back ff fb);
        },
        ap expand here
            ∙ expand-append front back
            ∙ ap (λ e. e ++ expand back) (sym (append-nil (expand front)))
            ∙ ap₂ (λ x y. (expand front ++ x) ++ (y ++ expand back))
                (sym (no_ids k ids1 (omega (arith, length-append {A = ℤ} ids1 ids2))))
                (sym (no_ids k ids2 (omega (arith, length-append {A = ℤ} ids1 ids2)))),
      )

  delete_at_lem :
      drop_id id held ≡ some (ids1 ++ ids2)
      → IsValid (plug (node l c s k held r) path)
      → Taken (delete_at id (node l c s k held r) path)
  unfolding delete_at without_id
  delete_at_lem dropped v = elim (Bool-cases (ltb 1 (length held))) [
    | inl many ↦
        let left : 0 < length (ids1 ++ ids2) = ground (arith, counted) in
        subst Taken (sym (rw many (ap (λ o. some (without_id l c s k held r path o)) dropped)))
          (without_id_lem left v)
    | inr single ↦
        let left : length (ids1 ++ ids2) ≡ 0 = ground (arith, counted) in
        subst Taken (sym (rw single refl)) (remove_last-Taken left v)
  ]

pub length-expand : (gs : List Group) → length (expand gs) ≡ weight gs
unfolding expand weight
length-expand [] = refl
length-expand ((k, ids) ∷ gs) =
    omega (
      arith,
      length-append (same_score k ids) (expand gs),
      length-same_score k ids,
      length-expand gs,
    )

-- One entry is gone, with a score and an id, at a rank.
abbrev pub Deleted : Tree → ℤ → ℤ → ℕ → Option Tree → Type 0
Deleted t score id rank o =
    (u : Tree) × (xs : SortedSet) × (ys : SortedSet) × (o ≡ some u)
    × IsValid u
    × (entries t ≡ xs ++ (entry score id ∷ ys))
    × (entries u ≡ xs ++ ys)
    × (rank ≡ length xs + 1)

Deleted-at :
    (t : Tree) (score id : ℤ) (m : Found) (j : ℕ)
    → IsValid t
    → AtScore score t m
    → index_from id 0 (ids_of m.at) ≡ some j
    → Deleted t score id (m.rank + j) (delete_at id m.at m.path)
Deleted-at t score id m j v (l, c, s, ids, r, at, whole, rank) found =
    let (ids1, ids2, split, dropped, e) =
      index_from-splits id 0 ids j (ap (λ x. index_from id 0 (ids_of x)) (sym at) ∙ found) in
    let there : m.at ≡ node l c s score (ids1 ++ (id ∷ ids2)) r =
      at ∙ ap (λ i. node l c s score i r) split in
    let same : t ≡ plug (node l c s score (ids1 ++ (id ∷ ids2)) r) m.path =
      sym whole ∙ ap (λ x. plug x m.path) there in
    let (u, done, valid, rest) =
      delete_at_lem l c s score ids1 id ids2 r m.path (ap (drop_id id) (sym split) ∙ dropped)
        (subst IsValid same v) in
    let front = before m.path ++ groups l in
    (
      u,
      expand front ++ same_score score ids1,
      same_score score ids2 ++ expand (groups r ++ behind m.path),
      ap (λ x. delete_at id x m.path) there ∙ done,
      valid,
      ap entries same ∙ entry_there l c s score ids1 id ids2 r m.path,
      rest,
      omega (
        arith,
        rank,
        e,
        length-append (expand front) (same_score score ids1),
        length-expand front,
        weight-append (before m.path) (groups l),
        length-same_score score ids1,
      ),
    )

-- What `Locate` finds in a tree that keeps the invariant, `Delete` takes out: neither panics, the invariant
-- holds again, and of the entries just the one at the found rank is gone, with that score and id.
pub delete_refines :
    (t : Tree) (score id : ℤ) (n : Found)
    → IsValid t
    → locate t score id ≡ some n
    → Deleted t score id n.rank (delete id (some n))
unfolding locate locate_in delete before weight
delete_refines t score id n v found = elim (Option-cases (lookup_from score 0 t [])) [
  | inl lost ↦
      let lost_here : none ≡ some n = sym (ap (locate_in id) lost) ∙ found in absurd (ground arith)
  | inr (m, at) ↦ elim (Option-cases (index_from id 0 (ids_of m.at))) [
    | inl lost ↦
        let lost_here : none ≡ some n =
          sym (ap (locate_in id) at ∙ ap (Option.map (λ k. record m { rank = m.rank + k })) lost)
          ∙ found in
        absurd (ground arith)
    | inr (j, index) ↦
        let same : some (record m { rank = m.rank + j }) ≡ some n =
          sym (ap (locate_in id) at ∙ ap (Option.map (λ k. record m { rank = m.rank + k })) index)
          ∙ found in
        subst (λ x. Deleted t score id x.rank (delete_at id x.at x.path)) (some-injective _ _ same)
          (Deleted-at t score id m j v (lookup_from-AtScore score 0 t [] m v.sized refl at) index)
  ]
]
