-- ===== src/Rank/Service/Requests.antt =====
-- The requests of Service.go over all the rank sets.
use fkgo_server.Base.{
  ℕ, ◌≡◌, refl, sym, ap, ◌∙◌, subst, ◌≢◌, inl, inr, none, some, List, [], ◌∷◌, ◌++◌, ℕ_discrete,
  Option-cases,
}
use fkgo_server.Base.Int.{ℤ}
use mathlib.Core.Option
use mathlib.Core.Option.{some-injective}
use mathlib.Core.List.{Perm}
use fkgo_server.Base.Map.{GoMap, lookup, put, nat_eq, int_eq, lookup-put_self, lookup-put_ne}
use fkgo_server.Rank.Set.{RankSet, new_rank_set}
use fkgo_server.Rank.Set.Update.{IsConsistent}
use fkgo_server.Rank.Set.Correct.{update_new}
use fkgo_server.Rank.Service.{Server, set_or_new, rank_change}
use mathlib.Core.List.Perm

-- In every set the ranking and the map of scores agree.
abbrev pub AllConsistent : GoMap ℕ RankSet → Type 0
AllConsistent ranks = (id : ℕ) (rs : RankSet) → lookup id ranks ≡ some rs → IsConsistent rs

pub new_rank_set-IsConsistent : IsConsistent new_rank_set
new_rank_set-IsConsistent = record { distinct = tt; stored = (tt, refl); holds = Perm.refl [] }

pub AllConsistent-put :
    (id : ℕ) (rs : RankSet) (ranks : GoMap ℕ RankSet)
    → IsConsistent rs
    → AllConsistent ranks
    → AllConsistent (put id rs ranks)
AllConsistent-put id rs ranks v all j x found = elim (ℕ_discrete id j) [
  | yes same ↦
      let e : some rs ≡ some x =
        sym (lookup-put_self id rs ranks) ∙ ap (λ i. lookup i (put id rs ranks)) same ∙ found in
      subst IsConsistent (some-injective rs x e) v
  | no other ↦ all j x (sym (lookup-put_ne id j rs ranks other) ∙ found)
]

one_of :
    (id : ℕ) (ranks : GoMap ℕ RankSet)
    → AllConsistent ranks
    → IsConsistent (set_or_new (lookup id ranks))
one_of id ranks all = elim (Option-cases (lookup id ranks)) [
  | inl e ↦ rw e new_rank_set-IsConsistent
  | inr (rs, e) ↦ rw e (all id rs e)
]

-- `RankChange` for a user that its set, which may be new, does not have, where all sets are
-- consistent: nothing panics, all sets stay consistent, the set has the new score, the others
-- are as before, and the set is queued to be written.
pub rank_change_correct :
    (range : GoMap ℤ ℤ → List (ℤ × ℤ))
    → ((m : GoMap ℤ ℤ) → Perm (range m) m)
    → (set_id : ℕ) (user_id score : ℤ) (sv : Server) → AllConsistent sv.ranks
    → lookup user_id (set_or_new (lookup set_id sv.ranks)).scores ≡ none
    → (out : Server) × (rs : RankSet) × (rank_change range set_id user_id score sv ≡ some out)
      × AllConsistent out.ranks
      × (lookup set_id out.ranks ≡ some rs)
      × (rs.scores ≡ put user_id score (set_or_new (lookup set_id sv.ranks)).scores)
      × ((j : ℕ) → set_id ≢ j → lookup j out.ranks ≡ lookup j sv.ranks)
      × (out.pending ≡ sv.pending ++ (set_id ∷ []))
unfolding rank_change
rank_change_correct range any_order set_id user_id score sv all new =
    let old = set_or_new (lookup set_id sv.ranks) in
    let (rs, updated, v, scores) =
      update_new range any_order user_id score old (one_of set_id sv.ranks all) new in
    let after : RankSet → Server =
      λ rs. record { ranks = put set_id rs sv.ranks; pending = sv.pending ++ (set_id ∷ []) } in
    (
      after rs,
      rs,
      ap (Option.map after) updated,
      AllConsistent-put set_id rs sv.ranks v all,
      lookup-put_self set_id rs sv.ranks,
      scores,
      (λ j other. lookup-put_ne set_id j rs sv.ranks other),
      refl,
    )
