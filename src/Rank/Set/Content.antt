-- ===== src/Rank/Set/Content.antt =====
-- What a rank set of RankSet.go holds, against its map of scores.
use fkgo_server.Base.{
  ◌≡◌, refl, sym, ap, ap₂, ◌∙◌, subst, inl, inr, none, some, [], ◌∷◌, map, arith, Bool-cases,
}
use fkgo_server.Base.Int.{ℤ, eqb_ℤ, eqb_ℤ→eq}
use mathlib.Core.Option.{some-injective}
use mathlib.Core.Logic.Or
use mathlib.Core.HLevel.{⊥_prop}
use mathlib.Core.List.{Perm, Mem}
use mathlib.Core.List.Perm
use mathlib.Core.List.{not-mem-nil, eq-or-mem_of_mem-cons}
use fkgo_server.Base.Map.{GoMap, lookup, put, remove, int_eq, lookup-put, lookup-remove}
use fkgo_server.Rank.SortedSet.{Sortpair, SortedSet}
use fkgo_server.Rank.Tree.Entries.{entry}

-- The bindings of the map as entries.
abbrev pub binding : ℤ × ℤ → Sortpair
binding (id, score) = entry score id

abbrev pub bound : GoMap ℤ ℤ → SortedSet
bound [] = []
bound ((id, score) ∷ m) = entry score id ∷ bound m

-- No user has two bindings.
abbrev pub Distinct : GoMap ℤ ℤ → Type 0
Distinct [] = Unit
Distinct ((id, score) ∷ m) = (lookup id m ≡ none) × Distinct m

pub Distinct-put : (id score : ℤ) (m : GoMap ℤ ℤ) → Distinct m → Distinct (put id score m)
unfolding put lookup
Distinct-put id score [] d = (refl, tt)
Distinct-put id score ((j, s) ∷ m) (h, d) =
    ground (arith, Distinct-put id score m d, lookup-put id j score m)

pub Distinct-remove : (id : ℤ) (m : GoMap ℤ ℤ) → Distinct m → Distinct (remove id m)
unfolding remove
Distinct-remove id [] d = tt
Distinct-remove id ((j, s) ∷ m) (h, d) =
    ground (arith, Distinct-remove id m d, lookup-remove id j m)

pub remove-absent : (id : ℤ) (m : GoMap ℤ ℤ) → lookup id m ≡ none → remove id m ≡ m
unfolding remove lookup
remove-absent id [] h = refl
remove-absent id ((j, s) ∷ m) h = ground (arith, remove-absent id m)

-- A new binding, and a binding of a user that is there.
pub bound-put :
    (id score : ℤ) (m : GoMap ℤ ℤ)
    → Distinct m
    → Perm (bound (put id score m)) (entry score id ∷ bound (remove id m))
unfolding put remove
bound-put id score [] d = Perm.refl _
bound-put id score ((j, s) ∷ m) (h, d) = elim (Bool-cases (eqb_ℤ j id)) [
  | inl same ↦
      let e : lookup id m ≡ none = ap (λ i. lookup i m) (sym (eqb_ℤ→eq j id same)) ∙ h in
      rw same (
        subst (λ x. Perm (entry score id ∷ bound m) (entry score id ∷ bound x))
          (sym (remove-absent id m e)) (Perm.refl _))
  | inr other ↦ rw other (
      Perm.trans (Perm.cons (entry s j) (bound-put id score m d))
        (Perm.swap (entry score id) (entry s j) (bound (remove id m))))
]

pub bound-known :
    (id old : ℤ) (m : GoMap ℤ ℤ)
    → Distinct m
    → lookup id m ≡ some old
    → Perm (bound m) (entry old id ∷ bound (remove id m))
unfolding remove lookup
bound-known id old [] d there = absurd (ground arith)
bound-known id old ((j, s) ∷ m) (h, d) there = elim (Bool-cases (eqb_ℤ j id)) [
  | inl same ↦
      let e : lookup id m ≡ none = ap (λ i. lookup i m) (sym (eqb_ℤ→eq j id same)) ∙ h in
      let here : entry s j ≡ entry old id =
        ap₂ entry (some-injective s old (sym (rw (lookup, same) refl) ∙ there))
          (eqb_ℤ→eq j id same) in
      rw same (
        subst (λ x. Perm (entry s j ∷ bound m) (x ∷ bound (remove id m))) here
          (subst (λ x. Perm (entry s j ∷ bound m) (entry s j ∷ bound x))
            (sym (remove-absent id m e)) (Perm.refl (entry s j ∷ bound m))))
  | inr other ↦
      let below : lookup id m ≡ some old = sym (rw (lookup, other) refl) ∙ there in
      rw other (
        Perm.trans (Perm.cons (entry s j) (bound-known id old m d below))
          (Perm.swap (entry old id) (entry s j) (bound (remove id m))))
]

pub no_binding :
    (id score : ℤ) (m : GoMap ℤ ℤ) → lookup id m ≡ none → Mem (entry score id) (bound m) → ⊥
unfolding lookup
no_binding id score [] h there = not-mem-nil there
no_binding id score ((j, s) ∷ m) h there =
    Or.elim ⊥_prop (eq-or-mem_of_mem-cons there)
      (λ e. let same : id ≡ j = ap (λ q. q.id) e in absurd (ground arith))
      (λ below. no_binding id score m (ground arith) below)

bound-map : (m : GoMap ℤ ℤ) → bound m ≡ map binding m
bound-map [] = refl
bound-map ((id, score) ∷ m) = ap (λ x. entry score id ∷ x) (bound-map m)

pub bound-Perm : (m n : GoMap ℤ ℤ) → Perm m n → Perm (bound m) (bound n)
bound-Perm m n p =
    subst (λ x. Perm x (bound n)) (sym (bound-map m))
      (subst (Perm (map binding m)) (sym (bound-map n)) (Perm.map binding p))
