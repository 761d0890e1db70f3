-- ===== src/Rank/Service.antt =====
-- FKGRpc_Rank/Framework/Service.go: the ranking server. It keeps rank sets by their ids, and a background
-- task writes the changed ones to a bucket of a key-value store.
-- The store (BoltDB), MessagePack and the printing and parsing of numbers are parameters. A panic is `none`
-- as a whole result. A full channel of changes, at which the sender waits, is not modelled.
pub mod Requests
pub mod Store
pub mod Deleted
mod Tests
use fkgo_server.Base.{
  ℕ, zero, suc, ◌+◌, ◌-◌, ◌*◌, ◌/◌, ◌%◌, ◌^◌, ◌≤◌, ◌<◌, min, ◌≡◌, refl, sym, ap, ap₂, ◌∙◌, subst,
  ◌≢◌, ◌↔◌, ◌⊎◌, inl, inr, Bool, true, false, ◌&&◌, ◌||◌, not, Option, none, some, List, [], ◌∷◌,
  ◌++◌, map, append_assoc, append-nil, arith, dec_lt, ℕ_discrete, length, get_elem?, set, take,
  drop, replicate, length-append, length-take, length-drop, length-replicate, length-map,
  take-append-drop, take-append, drop-append, append_cons, take_at, drop_at, drop-drop, set-take,
  set-drop, set-append, set_at, get_elem?-append, ltb, leb, ◌==◌, if◌then◌else◌, ltb→lt, lt→ltb,
  leb→le, ==_iff, tests, Bool-cases, Option-cases, if_both,
}
use fkgo_server.Base.Int.{
  ℤ, pos, negsuc, pos_part, neg_part, sub_ℕ, ◌+ℤ◌, ◌-ℤ◌, ◌≤ℤ◌, ◌<ℤ◌, ltb_ℤ, leb_ℤ, eqb_ℤ,
  eq_of_parts, eqb_ℤ→eq, eqb_ℤ_refl, eqb_ℤ_ne, +ℤ_parts, -ℤ_parts, int_laws, signed16, signed32,
  signed64, unsigned, to_int32, to_int32-eq_of_lt, pos_part-sub, ℤ-cases,
}
use mathlib.Core.Option
use fkgo_server.Base.Map.{GoMap, lookup, put, remove, nat_eq, int_eq}
use fkgo_server.Rank.Set.{RankSet, new_rank_set, and_then, marshal, unmarshal}
use fkgo_server.Rank.Set

-- `ERROR_NAME_NOT_EXISTS`, or the answer.
pub data Reply (A : Type 0) : Type 0 where
  name_not_exists : Reply A
  answered : A → Reply A

pub record Server : Type 0 where
  pub ranks : GoMap ℕ RankSet
  pub pending : List ℕ

-- The set of a change, made if there is none.
abbrev pub set_or_new : Option RankSet → RankSet
set_or_new none = new_rank_set
set_or_new (some rs) = rs

module _ (range : GoMap ℤ ℤ → List (ℤ × ℤ)) where
  unfoldable pub rank_change : ℕ → ℤ → ℤ → Server → Option Server
  rank_change set_id user_id score sv =
      Option.map
        (λ rs. record sv { ranks = put set_id rs sv.ranks; pending = sv.pending ++ (set_id ∷ []) })
        (Set.update range user_id score (set_or_new (lookup set_id sv.ranks)))

  unfoldable pub delete_user : ℕ → ℤ → Server → Option (Reply Server)
  delete_user set_id user_id sv = elim (lookup set_id sv.ranks) [
    | none ↦ some name_not_exists
    | some rs ↦
        Option.map (λ out. answered (record sv { ranks = put set_id out sv.ranks }))
          (Set.delete range user_id rs)
  ]

unfoldable pub query_rank_range : ℕ → ℤ → ℤ → Server → Option (Reply (List ℤ × List ℤ))
query_rank_range set_id a b sv = elim (lookup set_id sv.ranks) [
  | none ↦ some name_not_exists
  | some rs ↦ Option.map answered (Set.get_list a b rs)
]

-- The loop of `QueryUsers`.
unfoldable pub ranks_of : List ℤ → RankSet → List ℤ × List ℤ
ranks_of [] rs = ([], [])
ranks_of (id ∷ ids) rs =
    let rest = ranks_of ids rs in
    let (rank, score) = Set.rank id rs in (rank ∷ rest.0, score ∷ rest.1)

unfoldable pub query_users : ℕ → List ℤ → Server → Reply (List ℤ × List ℤ)
query_users set_id ids sv = elim (lookup set_id sv.ranks) [
  | none ↦ name_not_exists
  | some rs ↦ answered (ranks_of ids rs)
]

unfoldable pub delete_set : ℕ → Server → Server
delete_set set_id sv = record sv { ranks = remove set_id sv.ranks }

-- What the code uses of a bucket, and of numbers as texts.
pub record Bucket (B : Type 0) : Type 0 where
  pub put_key : List ℕ → List ℕ → B → B
  pub delete_key : List ℕ → B → B
  pub contents : B → List (List ℕ × List ℕ)
  pub sprint : ℕ → List ℕ
  pub parse_uint : List ℕ → Option ℕ

module _ (B : Type 0) (bucket : Bucket B) where
  -- One round of `dump`; a set that cannot be marshalled is passed over.
  unfoldable pub dump_set : (GoMap ℤ ℤ → Option (List ℕ)) → Server → ℕ → B → B
  dump_set encode sv k b = elim (lookup k sv.ranks) [
    | none ↦ bucket.delete_key (bucket.sprint k) b
    | some rs ↦ elim (marshal encode rs) [
      | none ↦ b
      | some bin ↦ bucket.put_key (bucket.sprint k) bin b
    ]
  ]

  -- The changes in the order in which Go visits them.
  unfoldable pub dump : (GoMap ℤ ℤ → Option (List ℕ)) → Server → List ℕ → B → B
  dump encode sv [] b = b
  dump encode sv (k ∷ changes) b = dump encode sv changes (dump_set encode sv k b)

  module _ (range : GoMap ℤ ℤ → List (ℤ × ℤ)) (decode : List ℕ → Option (GoMap ℤ ℤ)) where
    -- A set as read, with the id of its key; whatever is corrupted panics.
    unfoldable pub read_set : Bool × RankSet → Option ℕ → GoMap ℕ RankSet → Option (GoMap ℕ RankSet)
    read_set (false, rs) id ranks = none
    read_set (true, rs) none ranks = none
    read_set (true, rs) (some id) ranks = some (put id rs ranks)

    unfoldable pub restore_from :
        List (List ℕ × List ℕ) → GoMap ℕ RankSet → Option (GoMap ℕ RankSet)
    restore_from [] ranks = some ranks
    restore_from ((k, v) ∷ rest) ranks =
        and_then
          (and_then (unmarshal range decode v new_rank_set)
            (λ r. read_set r (bucket.parse_uint k) ranks))
          (restore_from rest)

    -- `Func_Init`: the server as it starts.
    unfoldable pub restore : B → Option Server
    restore b =
        Option.map (λ ranks. record { ranks = ranks; pending = [] })
          (restore_from (bucket.contents b) [])

-- What wakes the background task: a change, the timer, or a signal.
pub data Wake : Type 0 where
  change : Wake
  timer : Wake
  signal : Wake

unfoldable pub is_marked : ℕ → List ℕ → Bool
is_marked k [] = false
is_marked k (j ∷ changes) = (j == k) || is_marked k changes

unfoldable pub mark : ℕ → List ℕ → List ℕ
mark k changes = if is_marked k changes then changes else changes ++ (k ∷ [])

-- The state of the server and of `persistence_task`.
pub record Persisted (B : Type 0) : Type 0 where
  pub server : Server
  pub changes : List ℕ
  pub store : B

-- A round of `persistence_task`: the new state, and whether the task goes on. Without a change in the
-- channel it is not woken by one.
module _ (B : Type 0) (bucket : Bucket B) (encode : GoMap ℤ ℤ → Option (List ℕ)) where
  unfoldable pub take_change : List ℕ → Persisted B → Persisted B
  take_change [] p = p
  take_change (k ∷ rest) p = record p {
    server = record (p.server) { pending = rest };
    changes = mark k p.changes;
  }

  unfoldable pub persist : Wake → Persisted B → Persisted B × Bool
  persist change p = (take_change p.server.pending p, true)
  persist timer p =
      (record p { changes = []; store = dump B bucket encode p.server p.changes p.store }, true)
  persist signal p = (record p { store = dump B bucket encode p.server p.changes p.store }, false)
