-- ===== src/Rank/Tree/Locate.antt =====
-- `Locate` of Dos.go finds every entry.
use fkgo_server.Base.{
  ℕ, ◌+◌, ◌≡◌, refl, sym, ap, ◌∙◌, subst, ◌≢◌, ◌⊎◌, inl, inr, Bool, true, false, Option, none, some,
  List, [], ◌∷◌, ◌++◌, arith, length, Bool-cases, Option-cases,
}
use fkgo_server.Base.Int.{ℤ, ◌≤ℤ◌, ltb_ℤ, eqb_ℤ}
use mathlib.Core.Option
use fkgo_server.Rank.SortedSet.{SortedSet}
use fkgo_server.Rank.Tree.{
  Tree, leaf, node, at_left, at_right, Frames, node_size, Found, lookup_from, index_from, locate_in,
  locate,
}
use fkgo_server.Rank.Tree.Groups.{Group, groups}
use fkgo_server.Rank.Tree.Order.{Above, Below, Ordered, Ordered-parts}
use fkgo_server.Rank.Tree.Entries.{entry, same_score, expand, entries, expand-append}
use fkgo_server.Rank.Tree.Insert.Correct.{IsValid}

-- No entry has that score and that id.
abbrev Free : ℤ → ℤ → SortedSet → Type 0
Free score id [] = Unit
Free score id (q ∷ s) = ((score ≢ q.score) ⊎ (id ≢ q.id)) × Free score id s

Free-append :
    (score id : ℤ) (xs ys : SortedSet)
    → Free score id xs
    → Free score id ys
    → Free score id (xs ++ ys)
Free-append score id [] ys f g = g
Free-append score id (x ∷ xs) ys (h, f) g = (h, Free-append score id xs ys f g)

Free-absurd : (score id : ℤ) (xs ys : SortedSet) → Free score id (xs ++ (entry score id ∷ ys)) → ⊥
Free-absurd score id [] ys (inl h, f) = h refl
Free-absurd score id [] ys (inr h, f) = h refl
Free-absurd score id (x ∷ xs) ys (h, f) = Free-absurd score id xs ys f

other_score : (score id k : ℤ) (ids : List ℤ) → score ≢ k → Free score id (same_score k ids)
unfolding same_score
other_score score id k [] h = tt
other_score score id k (v ∷ ids) h = (inl h, other_score score id k ids h)

other_ids :
    (score id k : ℤ) (i : ℕ) (ids : List ℤ)
    → index_from id i ids ≡ none
    → Free score id (same_score k ids)
unfolding same_score index_from
other_ids score id k i [] h = tt
other_ids score id k i (v ∷ ids) h = elim (Bool-cases (eqb_ℤ v id)) [
  | inl same ↦
      let found : some i ≡ none = sym (rw (index_from, same) refl) ∙ h in absurd (ground arith)
  | inr other ↦ (
    inr (λ e. ground arith),
    other_ids score id k (i + 1) ids (sym (rw (index_from, other) refl) ∙ h),
  )
]

higher : (score id k : ℤ) (gs : List Group) → score ≤ℤ k → Above k gs → Free score id (expand gs)
unfolding expand
higher score id k [] h a = tt
higher score id k ((j, ids) ∷ gs) h (lt, a) =
    Free-append score id (same_score j ids) (expand gs) (other_score score id j ids (ground arith))
      (higher score id k gs h a)

lower : (score id k : ℤ) (gs : List Group) → k ≤ℤ score → Below k gs → Free score id (expand gs)
unfolding expand
lower score id k [] h b = tt
lower score id k ((j, ids) ∷ gs) h (lt, b) =
    Free-append score id (same_score j ids) (expand gs) (other_score score id j ids (ground arith))
      (lower score id k gs h b)

-- The steps of the loop of `_lookup_score`.
module _ (score : ℤ) (base : ℕ) (l : Tree) (c : Bool) (s : ℕ) (k : ℤ) (ids : List ℤ) (r : Tree)
    (path : Frames) where
  lookup_here :
      eqb_ℤ score k ≡ true
      → lookup_from score base (node l c s k ids r) path
        ≡ some (record { rank = base + node_size l + 1; at = node l c s k ids r; path = path })
  unfolding lookup_from
  lookup_here same = rw (lookup_from, same) refl

  lookup_left :
      eqb_ℤ score k ≡ false
      → ltb_ℤ k score ≡ true
      → lookup_from score base (node l c s k ids r) path
        ≡ lookup_from score base l (at_left c s k ids r ∷ path)
  unfolding lookup_from
  lookup_left other up = rw (lookup_from, other, up) refl

  lookup_right :
      eqb_ℤ score k ≡ false
      → ltb_ℤ k score ≡ false
      → lookup_from score base (node l c s k ids r) path
        ≡ lookup_from score (base + node_size l + length ids) r (at_right l c s k ids ∷ path)
  unfolding lookup_from
  lookup_right other down = rw (lookup_from, other, down) refl

map-none : (f : ℕ → Found) (o : Option ℕ) → Option.map f o ≡ none → o ≡ none
map-none f none h = refl
map-none f (some i) h = absurd (ground arith)

locate_in-Free :
    (score id : ℤ) (base : ℕ) (t : Tree) (path : Frames)
    → Ordered (groups t)
    → locate_in id (lookup_from score base t path) ≡ none
    → Free score id (expand (groups t))
unfolding lookup_from groups expand locate_in
locate_in-Free score id base leaf path o lost = tt
locate_in-Free score id base (node l c s k ids r) path o lost =
    let (ol, above, below, or_) = Ordered-parts (groups l) k ids (groups r) o in
    let whole : Free score id (expand (groups l))
        → Free score id (same_score k ids)
        → Free score id (expand (groups r))
        → Free score id (expand (groups l ++ ((k, ids) ∷ groups r))) =
      λ f g h. subst (Free score id) (sym (expand-append (groups l) ((k, ids) ∷ groups r))) (
        Free-append score id (expand (groups l)) (same_score k ids ++ expand (groups r)) f
          (Free-append score id (same_score k ids) (expand (groups r)) g h)) in
    elim (Bool-cases (eqb_ℤ score k)) [
      | inl same ↦
          let not_there : index_from id 0 ids ≡ none =
            map-none _ (index_from id 0 ids)
              (sym (ap (locate_in id) (lookup_here score base l c s k ids r path same)) ∙ lost) in
          whole (higher score id k (groups l) (ground arith) above)
            (other_ids score id k 0 ids not_there)
            (lower score id k (groups r) (ground arith) below)
      | inr other ↦ elim (Bool-cases (ltb_ℤ k score)) [
        | inl up ↦
            whole
              (locate_in-Free score id base l (at_left c s k ids r ∷ path) ol (
                sym (ap (locate_in id) (lookup_left score base l c s k ids r path other up))
                ∙ lost))
              (other_score score id k ids (ground arith))
              (lower score id k (groups r) (ground arith) below)
        | inr down ↦
            whole (higher score id k (groups l) (ground arith) above)
              (other_score score id k ids (ground arith))
              (locate_in-Free score id (base + node_size l + length ids) r
                (at_right l c s k ids ∷ path) or_
                (sym (ap (locate_in id) (lookup_right score base l c s k ids r path other down))
                  ∙ lost))
      ]
    ]

-- For every entry of a tree that keeps the invariant `Locate` finds a node, and a rank.
pub locate_complete :
    (t : Tree) (score id : ℤ) (xs ys : SortedSet)
    → IsValid t
    → entries t ≡ xs ++ (entry score id ∷ ys)
    → (n : Found) × (locate t score id ≡ some n)
unfolding locate entries
locate_complete t score id xs ys v there = elim (Option-cases (locate t score id)) [
  | inl lost ↦ absurd (
      Free-absurd score id xs ys
        (subst (Free score id) there (locate_in-Free score id 0 t [] v.ordered lost)))
  | inr found ↦ found
]
