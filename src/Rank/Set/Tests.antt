-- ===== src/Rank/Set/Tests.antt =====
-- Rank sets with concrete users.
use fkgo_server.Base.{
  ℕ, zero, suc, ◌+◌, ◌≤◌, ◌≡◌, refl, sym, ap, ap₂, ◌∙◌, subst, true, Option, none, some, List, [],
  ◌∷◌, ◌++◌, append-nil, arith, length,
}
use fkgo_server.Base.Int.{ℤ, pos, negsuc, to_int32}
use mathlib.Core.Option
use mathlib.Core.List.{Perm}
use mathlib.Core.List.Perm
use fkgo_server.Base.Map.{GoMap, lookup, put, remove, int_eq}
use fkgo_server.Rank.SortedSet.{SortedSet}
use fkgo_server.Rank.Tree.{Tree, leaf}
use fkgo_server.Rank.Tree.Groups.{groups}
use fkgo_server.Rank.Tree.Entries.{entry, entries, expand}
use fkgo_server.Rank.Set.{
  sorted_set, rbtree, RankSet, new_rank_set, toggle, update, delete, rank, marshal, unmarshal,
  lower_threshold, all_into_tree,
}
use fkgo_server.Rank.Set.Content.{bound, Distinct}
use fkgo_server.Rank.Set.Update.{IsConsistent, Updated, all_into_tree_lem, empty_tree}
use fkgo_server.Rank.Set.Correct.{
  update_new, update_known, delete_unknown_panics, in_tree, toggle_swaps,
}
use fkgo_server.Rank.Set.Slice.{delete_correct}
use fkgo_server.Rank.Set.Restore.{rank_correct, marshal_RoundTrip}
use fkgo_server.Rank.Service.Requests.{new_rank_set-IsConsistent}

-- Users 0 to n - 1, each with its number as its score.
abbrev users : ℕ → GoMap ℤ ℤ
users zero = []
users (suc n) = (pos n, pos n) ∷ users n

length-users : (n : ℕ) → length (users n) ≡ n
length-users zero = refl
length-users (suc n) = ap suc (length-users n)

lookup-users : (n j : ℕ) → n ≤ j → lookup (pos j) (users n) ≡ none
unfolding lookup
lookup-users zero j h = refl
lookup-users (suc n) j h = ground (arith, lookup-users n j)

Distinct-users : (n : ℕ) → Distinct (users n)
Distinct-users zero = tt
Distinct-users (suc n) = (lookup-users n n (omega arith), Distinct-users n)

tree_of :
    (n : ℕ)
    → (t : Tree) × (all_into_tree (users n) leaf ≡ some t)
      × IsConsistent (record { tree = t; slice = []; scores = users n; storage = rbtree })
unfolding entries groups expand
tree_of n =
    let (t, made, valid, all) = all_into_tree_lem (users n) leaf empty_tree in
    (
      t,
      made,
      record {
        distinct = Distinct-users n;
        stored = (valid, refl);
        holds = subst (Perm (entries t)) (append-nil (bound (users n))) all;
      },
    )

abbrev in_order : GoMap ℤ ℤ → List (ℤ × ℤ)
in_order m = m

enough : lower_threshold ≤ length (users 512)
enough = omega (arith, length-users 512)

update_new_example :
    Updated (put (pos 5) (pos 70) []) (update in_order (pos 5) (pos 70) new_rank_set)
unfolding lookup
update_new_example =
    update_new in_order (λ m. Perm.refl m) (pos 5) (pos 70) new_rank_set new_rank_set-IsConsistent
      refl

update_known_example : Updated (put (pos 2) (pos 9) (users 3)) (
    update in_order
      (pos 2)
      (pos 9)
      (record { tree = (tree_of 3).0; slice = []; scores = users 3; storage = rbtree }))
unfolding lookup
update_known_example =
    update_known in_order (pos 2) (pos 2) (pos 9) (tree_of 3).0 (users 3) (tree_of 3).2 refl

delete_correct_example :
    Updated
      (remove (pos 511) (users 512))
      (delete in_order (pos 511) (in_tree (tree_of 512).0 (users 512)))
unfolding lookup
delete_correct_example =
    delete_correct in_order (pos 511) (pos 511) (in_tree (tree_of 512).0 (users 512))
      (tree_of 512).2 enough refl

delete_unknown_panics_example :
    delete in_order (pos 600) (in_tree (tree_of 512).0 (users 512)) ≡ none
delete_unknown_panics_example =
    delete_unknown_panics in_order (pos 600) (tree_of 512).0 (users 512) enough (tree_of 512).2
      (lookup-users 512 600 (omega arith))

toggle_swaps_example :
    (out : RankSet) × (toggle in_order (record {
      tree = (tree_of 1).0;
      slice = [];
      scores = (pos 7, pos 90) ∷ [];
      storage = rbtree;
    })
      ≡ some out)
    × (out.storage ≡ sorted_set)
    × (out.scores ≡ (pos 7, pos 90) ∷ [])
    × Perm out.slice (entry (pos 7) (pos 90) ∷ [])
toggle_swaps_example = toggle_swaps in_order (tree_of 1).0 ((pos 7, pos 90) ∷ [])

rank_correct_run :
    (xs : SortedSet) × (ys : SortedSet) × (entries (tree_of 3).0
      ≡ xs ++ (entry (pos 2) (pos 2) ∷ ys))
    × (rank
          (pos 2)
          (record { tree = (tree_of 3).0; slice = []; scores = users 3; storage = rbtree })
        ≡ (to_int32 (length xs + 1), pos 2))
unfolding lookup
rank_correct_run = rank_correct (pos 2) (pos 2) (tree_of 3).0 (users 3) (tree_of 3).2 refl

-- An encoding of maps: every number as a sign and a natural number.
abbrev sign : ℤ → ℕ
sign (pos n) = 0
sign (negsuc n) = 1

abbrev size : ℤ → ℕ
size (pos n) = n
size (negsuc n) = n

abbrev signed : ℕ → ℕ → ℤ
signed zero n = pos n
signed (suc _) n = negsuc n

signed_lem : (z : ℤ) → signed (sign z) (size z) ≡ z
signed_lem (pos n) = refl
signed_lem (negsuc n) = refl

abbrev encoded : GoMap ℤ ℤ → List ℕ
encoded [] = []
encoded ((a, b) ∷ m) = sign a ∷ size a ∷ sign b ∷ size b ∷ encoded m

abbrev pub decode : List ℕ → Option (GoMap ℤ ℤ)
decode [] = some []
decode (a ∷ b ∷ c ∷ d ∷ xs) = Option.map (λ m. (signed a b, signed c d) ∷ m) (decode xs)
decode _ = none

abbrev pub encode : GoMap ℤ ℤ → Option (List ℕ)
encode m = some (encoded m)

decode-encoded : (m : GoMap ℤ ℤ) → decode (encoded m) ≡ some m
decode-encoded [] = refl
decode-encoded ((a, b) ∷ m) =
    ap (Option.map (λ m. (signed (sign a) (size a), signed (sign b) (size b)) ∷ m))
      (decode-encoded m)
    ∙ ap₂ (λ x y. some ((x, y) ∷ m)) (signed_lem a) (signed_lem b)

marshal_RoundTrip_example :
    (out : RankSet) × (unmarshal in_order decode (encoded (users 3)) new_rank_set
      ≡ some (true, out))
    × IsConsistent out
    × (out.scores ≡ users 3)
unfolding marshal
marshal_RoundTrip_example =
    marshal_RoundTrip in_order encode decode (λ m. Perm.refl m)
      (λ m bin e. ap decode (sym (Option.some-injective (encoded m) bin e)) ∙ decode-encoded m)
      (record { tree = (tree_of 3).0; slice = []; scores = users 3; storage = rbtree })
      (encoded (users 3)) (tree_of 3).2 refl
