-- ===== src/Rank/Service/Store.antt =====
-- `dump`, `restore` and the background task of Service.go.
use fkgo_server.Base.{ℕ, ◌≡◌, refl, ap, ◌∙◌, true, Option, some, List, [], ◌∷◌, arith}
use fkgo_server.Base.Int.{ℤ}
use mathlib.Core.Option
use mathlib.Core.List.{Perm}
use fkgo_server.Base.Map.{GoMap, lookup, put, nat_eq, int_eq}
use fkgo_server.Rank.Set.{RankSet, and_then}
use fkgo_server.Rank.Set.Content.{Distinct}
use fkgo_server.Rank.Set.Restore.{unmarshal_correct}
use fkgo_server.Rank.Service.{Server, Bucket, read_set, restore_from, restore}
use fkgo_server.Rank.Service.Requests.{AllConsistent, AllConsistent-put}

-- The scores of all sets.
abbrev pub all_scores : GoMap ℕ RankSet → GoMap ℕ (GoMap ℤ ℤ)
all_scores [] = []
all_scores ((id, rs) ∷ ranks) = (id, rs.scores) ∷ all_scores ranks

all_scores-put :
    (id : ℕ) (rs : RankSet) (ranks : GoMap ℕ RankSet)
    → all_scores (put id rs ranks) ≡ put id rs.scores (all_scores ranks)
unfolding put
all_scores-put id rs [] = refl
all_scores-put id rs ((j, x) ∷ ranks) = ground (arith, all_scores-put id rs ranks)

-- Sets put into a map one after the other.
abbrev pub put_all : List (ℕ × GoMap ℤ ℤ) → GoMap ℕ (GoMap ℤ ℤ) → GoMap ℕ (GoMap ℤ ℤ)
put_all [] m = m
put_all ((id, scores) ∷ sets) m = put_all sets (put id scores m)

module _ (range : GoMap ℤ ℤ → List (ℤ × ℤ)) (decode : List ℕ → Option (GoMap ℤ ℤ)) (B : Type 0)
    (bucket : Bucket B) (any_order : (m : GoMap ℤ ℤ) → Perm (range m) m) where
  -- The bindings of a bucket that are those sets, each as it was written.
  abbrev pub Written : List (ℕ × GoMap ℤ ℤ) → List (List ℕ × List ℕ) → Type 0
  Written [] [] = Unit
  Written [] (kv ∷ bindings) = ⊥
  Written (s ∷ sets) [] = ⊥
  Written ((id, scores) ∷ sets) ((k, v) ∷ bindings) =
      (bucket.parse_uint k ≡ some id)
      × (decode v ≡ some scores)
      × Distinct scores
      × Written sets bindings

  restore_from_lem :
      (sets : List (ℕ × GoMap ℤ ℤ)) (bindings : List (List ℕ × List ℕ)) (ranks : GoMap ℕ RankSet)
      → Written sets bindings
      → AllConsistent ranks
      → (out : GoMap ℕ RankSet) × (restore_from B bucket range decode bindings ranks ≡ some out)
        × AllConsistent out
        × (all_scores out ≡ put_all sets (all_scores ranks))
  unfolding restore_from read_set
  restore_from_lem [] [] ranks w all = (ranks, refl, all, refl)
  restore_from_lem [] (kv ∷ bindings) ranks w all = absurd w
  restore_from_lem (s ∷ sets) [] ranks w all = absurd w
  restore_from_lem ((id, scores) ∷ sets) ((k, v) ∷ bindings) ranks (key, value, d, w) all =
      let (rs, read, consistent, same) =
        unmarshal_correct range decode v scores (any_order scores) d value in
      let (out, rest, vo, content) =
        restore_from_lem sets bindings (put id rs ranks) w
          (AllConsistent-put id rs ranks consistent all) in
      (
        out,
        ap
              (λ r.
                and_then
                  (and_then r (λ x. read_set B bucket range decode x (bucket.parse_uint k) ranks))
                  (restore_from B bucket range decode bindings))
              read
            ∙ ap
                (λ i.
                  and_then (read_set B bucket range decode (true, rs) i ranks)
                    (restore_from B bucket range decode bindings))
                key
            ∙ rest,
        vo,
        content
            ∙ ap (put_all sets)
                (all_scores-put id rs ranks ∙ ap (λ x. put id x (all_scores ranks)) same),
      )

  -- A server that starts on a bucket of written sets has just these sets, each consistent, and nothing to
  -- write.
  pub restore_correct :
      (sets : List (ℕ × GoMap ℤ ℤ)) (b : B)
      → Written sets (bucket.contents b)
      → (out : Server) × (restore B bucket range decode b ≡ some out)
        × AllConsistent out.ranks
        × (all_scores out.ranks ≡ put_all sets [])
        × (out.pending ≡ [])
  unfolding restore lookup
  restore_correct sets b w =
      let (ranks, done, all, content) =
        restore_from_lem sets (bucket.contents b) [] w (λ id rs found. absurd (ground arith)) in
      (
        record { ranks = ranks; pending = [] },
        ap (Option.map (λ r. record { ranks = r; pending = [] })) done,
        all,
        content,
        refl,
      )
