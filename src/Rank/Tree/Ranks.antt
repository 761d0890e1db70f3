-- ===== src/Rank/Tree/Ranks.antt =====
-- `lookup_node` and `GetList` of Dos.go: the tree by ranks is the slice by indices.
use fkgo_server.Base.{
  ℕ, zero, suc, ◌+◌, ◌-◌, ◌≤◌, ◌<◌, ◌≡◌, refl, sym, ap, ◌∙◌, subst, inl, inr, Bool, true, false,
  ◌&&◌, Option, List, [], ◌∷◌, ◌++◌, arith, length, get_elem?, ltb, leb, Bool-cases, Option-cases,
}
use fkgo_server.Base.Int.{ℤ}
use mathlib.Core.Option
use fkgo_server.Rank.SortedSet.{Sortpair, SortedSet, list_from}
use fkgo_server.Rank.SortedSet
use fkgo_server.Rank.Tree.{Tree, leaf, node, node_size, lookup_node, list_ranks, get_list}
use fkgo_server.Rank.Tree.Groups.{groups, Sized, weight-groups}
use fkgo_server.Rank.Tree.Entries.{same_score, expand, entries, expand-append, length-same_score}
use fkgo_server.Rank.Tree.Remove.Refines.{length-expand}

abbrev pair : Sortpair → ℤ × ℤ
pair q = (q.id, q.score)

abbrev at_index : SortedSet → ℕ → Option (ℤ × ℤ)
at_index xs i = Option.map pair (get_elem? xs i)

at_index-before :
    (xs ys : SortedSet) (i : ℕ) → i < length xs → at_index (xs ++ ys) i ≡ at_index xs i
at_index-before [] ys i h = absurd (omega arith)
at_index-before (x ∷ xs) ys zero h = refl
at_index-before (x ∷ xs) ys (suc i) h = at_index-before xs ys i (omega arith)

at_index-behind :
    (xs ys : SortedSet) (i : ℕ)
    → length xs ≤ i
    → at_index (xs ++ ys) i ≡ at_index ys (i - length xs)
at_index-behind [] ys i h = ap (at_index ys) (omega arith)
at_index-behind (x ∷ xs) ys zero h = absurd (omega arith)
at_index-behind (x ∷ xs) ys (suc i) h =
    let e : suc i - suc (length xs) ≡ i - length xs = omega arith in
    rw e (at_index-behind xs ys i (omega arith))

at_index-same_score :
    (k : ℤ) (ids : List ℤ) (i : ℕ)
    → at_index (same_score k ids) i ≡ Option.map (λ id. (id, k)) (get_elem? ids i)
unfolding same_score
at_index-same_score k [] i = refl
at_index-same_score k (id ∷ ids) zero = refl
at_index-same_score k (id ∷ ids) (suc i) = at_index-same_score k ids i

length-entries : (t : Tree) → Sized t → length (entries t) ≡ node_size t
unfolding entries
length-entries t h = length-expand (groups t) ∙ weight-groups t h

-- The three ways of `lookup_node`.
module _ (l : Tree) (c : Bool) (s : ℕ) (k : ℤ) (ids : List ℤ) (r : Tree) (rank : ℕ) where
  abbrev within : Bool
  within = leb (node_size l + 1) rank && leb rank (node_size l + length ids)

  node_within :
      within ≡ true
      → lookup_node (node l c s k ids r) rank
        ≡ Option.map (λ id. (id, k)) (get_elem? ids (rank - (node_size l + 1)))
  unfolding lookup_node
  node_within e = rw (lookup_node, e) refl

  node_before :
      within ≡ false
      → ltb rank (node_size l + 1) ≡ true
      → lookup_node (node l c s k ids r) rank ≡ lookup_node l rank
  unfolding lookup_node
  node_before e h = rw (lookup_node, e, h) refl

  node_behind :
      within ≡ false
      → ltb rank (node_size l + 1) ≡ false
      → lookup_node (node l c s k ids r) rank ≡ lookup_node r (rank - (node_size l + length ids))
  unfolding lookup_node
  node_behind e h = rw (lookup_node, e, h) refl

-- `lookup_node` at a rank is the entry at the index before it; past the end there is none.
pub lookup_node-entries :
    (t : Tree) (i : ℕ) → Sized t → lookup_node t (i + 1) ≡ at_index (entries t) i
unfolding lookup_node entries groups expand
lookup_node-entries leaf i h = refl
lookup_node-entries (node l c s k ids r) i (hl, hr, e) =
    let left = expand (groups l) in
    let here = same_score k ids in
    let right = expand (groups r) in
    let whole : expand (groups l ++ ((k, ids) ∷ groups r)) ≡ left ++ (here ++ right) =
      expand-append (groups l) ((k, ids) ∷ groups r) in
    let size_left : length left ≡ node_size l = length-expand (groups l) ∙ weight-groups l hl in
    let size_here : length here ≡ length ids = length-same_score k ids in
    subst (λ es. lookup_node (node l c s k ids r) (i + 1) ≡ at_index es i) (sym whole)
      (elim (Bool-cases (within l c s k ids r (i + 1))) [
        | inl in_node ↦
            let after : length left ≤ i = ground (arith, size_left) in
            let inside : i - length left < length here = ground (arith, size_left, size_here) in
            let index : i + 1 - (node_size l + 1) ≡ i - length left = omega (arith, size_left) in
            node_within l c s k ids r (i + 1) in_node
            ∙ ap (λ j. Option.map (λ id. (id, k)) (get_elem? ids j)) index
            ∙ sym (
                at_index-behind left (here ++ right) i after
                ∙ at_index-before here right (i - length left) inside
                ∙ at_index-same_score k ids (i - length left))
        | inr outside ↦ elim (Bool-cases (ltb (i + 1) (node_size l + 1))) [
          | inl lower ↦
              let inside : i < length left = ground (arith, size_left) in
              node_before l c s k ids r (i + 1) outside lower
              ∙ lookup_node-entries l i hl
              ∙ sym (at_index-before left (here ++ right) i inside)
          | inr upper ↦
              let after : length left ≤ i = ground (arith, size_left) in
              let past : length here ≤ i - length left = ground (arith, size_left, size_here) in
              let index : i + 1 - (node_size l + length ids) ≡ i - length left - length here + 1 =
                ground (arith, size_left, size_here) in
              node_behind l c s k ids r (i + 1) outside upper
              ∙ ap (lookup_node r) index
              ∙ lookup_node-entries r (i - length left - length here) hr
              ∙ sym (
                  at_index-behind left (here ++ right) i after
                  ∙ at_index-behind here right (i - length left) past)
        ]
      ])

list_ranks_lem : (t : Tree) (i n : ℕ) → Sized t → list_ranks t (i + 1) n ≡ list_from (entries t) i n
unfolding list_ranks list_from
list_ranks_lem t i zero h = refl
list_ranks_lem t i (suc n) h = elim (Option-cases (get_elem? (entries t) i)) [
  | inl past ↦
      rw (list_ranks, list_from, past, lookup_node-entries t i h ∙ ap (Option.map pair) past) refl
  | inr (q, there) ↦
      rw
        (
          list_ranks,
          list_from,
          there,
          lookup_node-entries t i h ∙ ap (Option.map pair) there,
          list_ranks_lem t (i + 1) n h,
        )
        refl
]

-- From a rank of at least 1 on, `GetList` of a tree whose sizes are right is `GetList` of the
-- slice with its entries, panics included.
pub get_list-entries :
    (t : Tree) (a b : ℕ) → Sized t → 1 ≤ a → get_list t a b ≡ SortedSet.get_list (entries t) a b
unfolding get_list SortedSet.get_list
get_list-entries t a b h first =
    let e : a ≡ a - 1 + 1 = omega arith in
    ap (λ i. list_ranks t i (b + 1 - a)) e ∙ list_ranks_lem t (a - 1) (b + 1 - a) h
