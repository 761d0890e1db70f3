-- ===== src/Rank/Tree/Lookup.antt =====
-- `_lookup_score`, `Locate` and `lookup_node` of Dos.go: where they look in the entries of the tree.
use fkgo_server.Base.{
  ℕ, ◌+◌, ◌≡◌, refl, sym, ap, ◌∙◌, subst, inl, inr, Bool, some, List, [], ◌∷◌, ◌++◌, arith, length,
  Bool-cases,
}
use fkgo_server.Base.Int.{ℤ, ltb_ℤ, eqb_ℤ, eqb_ℤ→eq}
use mathlib.Core.Option
use mathlib.Core.Option.{some-injective}
use fkgo_server.Rank.Tree.{
  Tree, leaf, node, at_left, at_right, Frames, plug, node_size, Found, lookup_from, index_from,
}
use fkgo_server.Rank.Tree.Remove.{drop_id}
use fkgo_server.Rank.Tree.Groups.{groups, before, Sized, weight, weight-append, weight-groups}

-- What is known of a node that was found for a score below `t`.
abbrev pub AtScore : ℤ → Tree → Found → Type 0
AtScore score w n =
    (l : Tree) × (c : Bool) × (s : ℕ) × (ids : List ℤ) × (r : Tree) × (n.at
      ≡ node l c s score ids r)
    × (plug n.at n.path ≡ w)
    × (n.rank ≡ weight (before n.path) + weight (groups l) + 1)

pub lookup_from-AtScore :
    (score : ℤ) (base : ℕ) (t : Tree) (path : Frames) (n : Found)
    → Sized t
    → base ≡ weight (before path)
    → lookup_from score base t path ≡ some n
    → AtScore score (plug t path) n
unfolding lookup_from before weight
lookup_from-AtScore score base leaf path n h e found = absurd (ground arith)
lookup_from-AtScore score base (node l c s k ids r) path n (hl, hr, es) e found =
    elim (Bool-cases (eqb_ℤ score k)) [
      | inl same ↦
          let here : some
                (record { rank = base + node_size l + 1; at = node l c s k ids r; path = path })
              ≡ some n =
            sym (rw (lookup_from, same) refl) ∙ found in
          subst (AtScore score (plug (node l c s k ids r) path)) (some-injective _ n here) (
            l,
            c,
            s,
            ids,
            r,
            ap (λ j. node l c s j ids r) (sym (eqb_ℤ→eq score k same)),
            refl,
            omega (arith, weight-groups l hl),
          )
      | inr other ↦ elim (Bool-cases (ltb_ℤ k score)) [
        | inl up ↦
            lookup_from-AtScore score base l (at_left c s k ids r ∷ path) n hl e
              (sym (rw (lookup_from, other, up) refl) ∙ found)
        | inr down ↦
            lookup_from-AtScore score (base + node_size l + length ids) r
              (at_right l c s k ids ∷ path) n hr
              (omega (
                arith,
                weight-append (before path) (groups l ++ ((k, ids) ∷ [])),
                weight-append (groups l) ((k, ids) ∷ []),
                weight-groups l hl,
              ))
              (sym (rw (lookup_from, other, down) refl) ∙ found)
      ]
    ]

-- The loop over the ids of a node finds the first one.
pub index_from-splits :
    (id : ℤ) (k : ℕ) (ids : List ℤ) (j : ℕ)
    → index_from id k ids ≡ some j
    → (ids1 : List ℤ) × (ids2 : List ℤ) × (ids ≡ ids1 ++ (id ∷ ids2))
      × (drop_id id ids ≡ some (ids1 ++ ids2))
      × (j ≡ k + length ids1)
unfolding index_from drop_id
index_from-splits id k [] j found = absurd (ground arith)
index_from-splits id k (v ∷ vs) j found = elim (Bool-cases (eqb_ℤ v id)) [
  | inl same ↦ (
    [],
    vs,
    ap (λ x. x ∷ vs) (eqb_ℤ→eq v id same),
    rw same refl,
    sym (some-injective k j (sym (rw (index_from, same) refl) ∙ found)) ∙ omega arith,
  )
  | inr other ↦
      let (ids1, ids2, whole, dropped, at) =
        index_from-splits id (k + 1) vs j (sym (rw (index_from, other) refl) ∙ found) in
      (
        v ∷ ids1,
        ids2,
        ap (λ l. v ∷ l) whole,
        rw other (ap (Option.map (λ l. v ∷ l)) dropped),
        omega (arith, at),
      )
]
