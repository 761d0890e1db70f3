-- ===== src/Rank/Set.antt =====
-- FKGRpc_Rank/RankSet/RankSet.go: a set of users with scores. A map holds the score of every user; the
-- ranking stands in the slice while it is small, and in the tree when it is large.
-- `range` is the order in which Go visits a map; `decode` is the unmarshalling of MessagePack, a third
-- party's. A panic is `none` as a whole result. Locks are taken around every operation.
pub mod Content
pub mod Update
pub mod Correct
pub mod Restore
pub mod Slice
mod Tests
use fkgo_server.Base.{
  ℕ, zero, suc, ◌+◌, ◌-◌, ◌*◌, ◌/◌, ◌%◌, ◌^◌, ◌≤◌, ◌<◌, min, ◌≡◌, refl, sym, ap, ap₂, ◌∙◌, subst,
  ◌≢◌, ◌↔◌, ◌⊎◌, inl, inr, Bool, true, false, ◌&&◌, ◌||◌, not, Option, none, some, List, [], ◌∷◌,
  ◌++◌, map, append_assoc, append-nil, arith, dec_lt, ℕ_discrete, length, get_elem?, set, take,
  drop, replicate, length-append, length-take, length-drop, length-replicate, length-map,
  take-append-drop, take-append, drop-append, append_cons, take_at, drop_at, drop-drop, set-take,
  set-drop, set-append, set_at, get_elem?-append, ltb, leb, ◌==◌, if◌then◌else◌, ltb→lt, lt→ltb,
  leb→le, ==_iff, tests, Bool-cases, Option-cases, if_both,
}
use fkgo_server.Base.Int.{
  ℤ, pos, negsuc, pos_part, neg_part, sub_ℕ, ◌+ℤ◌, ◌-ℤ◌, ◌≤ℤ◌, ◌<ℤ◌, ltb_ℤ, leb_ℤ, eqb_ℤ,
  eq_of_parts, eqb_ℤ→eq, eqb_ℤ_refl, eqb_ℤ_ne, +ℤ_parts, -ℤ_parts, int_laws, signed16, signed32,
  signed64, unsigned, to_int32, to_int32-eq_of_lt, pos_part-sub, ℤ-cases,
}
use mathlib.Core.Option
use fkgo_server.Base.Map.{GoMap, lookup, put, remove, int_eq}
use fkgo_server.Rank.SortedSet.{Sortpair, SortedSet}
use fkgo_server.Rank.SortedSet
use fkgo_server.Rank.Tree.{Tree, leaf, Found}
use fkgo_server.Rank.Tree
use fkgo_server.Rank.Tree.Insert
use fkgo_server.Rank.Tree.Remove

abbrev pub upper_threshold : ℕ
upper_threshold = 1024

abbrev pub lower_threshold : ℕ
lower_threshold = 512

-- `Type`: which of the two holds the ranking.
pub data Storage : Type 0 where
  sorted_set : Storage
  rbtree : Storage

pub record RankSet : Type 0 where
  pub tree : Tree
  pub slice : SortedSet
  pub scores : GoMap ℤ ℤ
  pub storage : Storage

abbrev pub new_rank_set : RankSet
new_rank_set = record { tree = leaf; slice = []; scores = []; storage = sorted_set }

abbrev pub and_then {ℓ κ} : {A : Type ℓ} {B : Type κ} → Option A → (A → Option B) → Option B
and_then none f = none
and_then (some a) f = f a

abbrev pub put_score : ℤ → ℤ → RankSet → RankSet
put_score id score rs = record rs { scores = put id score rs.scores }

abbrev pub remove_score : ℤ → RankSet → RankSet
remove_score id rs = record rs { scores = remove id rs.scores }

-- The loops that insert all bindings of a map: into the tree, and into the slice.
unfoldable pub all_into_tree : List (ℤ × ℤ) → Tree → Option Tree
all_into_tree [] t = some t
all_into_tree ((id, score) ∷ es) t = and_then (Insert.insert t score id) (all_into_tree es)

unfoldable pub all_into_slice : List (ℤ × ℤ) → SortedSet → Option SortedSet
all_into_slice [] s = some s
all_into_slice ((id, score) ∷ es) s = and_then (SortedSet.insert s id score) (all_into_slice es)

-- The loop of `toggle` into the slice, which passes the score as the id and the id as the score.
unfoldable pub toggle_into_slice : List (ℤ × ℤ) → SortedSet → Option SortedSet
toggle_into_slice [] s = some s
toggle_into_slice ((id, score) ∷ es) s =
    and_then (SortedSet.insert s score id) (toggle_into_slice es)

-- A missing user has the score 0.
abbrev pub score_of : ℤ → GoMap ℤ ℤ → ℤ
score_of id m = elim (lookup id m) [ none ↦ pos 0 | some score ↦ score ]

module _ (range : GoMap ℤ ℤ → List (ℤ × ℤ)) where
  unfoldable pub toggle_to : Storage → RankSet → Option RankSet
  toggle_to rbtree rs =
      Option.map (λ t. record rs { tree = t; slice = SortedSet.clear rs.slice; storage = rbtree })
        (all_into_tree (range rs.scores) rs.tree)
  toggle_to sorted_set rs =
      Option.map (λ s. record rs { tree = leaf; slice = s; storage = sorted_set })
        (toggle_into_slice (range rs.scores) rs.slice)

  abbrev other_storage : Storage → Storage
  other_storage sorted_set = rbtree
  other_storage rbtree = sorted_set

  unfoldable pub toggle : RankSet → Option RankSet
  toggle rs = toggle_to (other_storage rs.storage) rs

  -- The two switches of `Update`, for a user that is new and for one that is there.
  unfoldable pub insert_user : ℤ → ℤ → RankSet → Option RankSet
  insert_user id newscore rs = elim rs.storage [
    | sorted_set ↦ Option.map (λ s. record rs { slice = s }) (SortedSet.insert rs.slice id newscore)
    | rbtree ↦ Option.map (λ t. record rs { tree = t }) (Insert.insert rs.tree newscore id)
  ]

  unfoldable pub change_user : ℤ → ℤ → ℤ → RankSet → Option RankSet
  change_user id oldscore newscore rs = elim rs.storage [
    | sorted_set ↦ Option.map (λ s. record rs { slice = s }) (SortedSet.update rs.slice id newscore)
    | rbtree ↦
        Option.map (λ t. record rs { tree = t })
          (and_then (Remove.delete id (Tree.locate rs.tree oldscore id))
            (λ t. Insert.insert t newscore id))
  ]

  abbrev pub in_slice : Storage → Bool
  in_slice sorted_set = true
  in_slice rbtree = false

  -- The switch to the tree, where the slice has become large.
  unfoldable pub grown : RankSet → Option RankSet
  grown rs =
      if in_slice rs.storage && ltb upper_threshold (length rs.scores) then toggle rs else some rs

  unfoldable pub update : ℤ → ℤ → RankSet → Option RankSet
  update id newscore rs = Option.map (put_score id newscore) (elim (lookup id rs.scores) [
    | none ↦ and_then (grown rs) (insert_user id newscore)
    | some oldscore ↦ change_user id oldscore newscore rs
  ])

  -- The switch to the slice, where the tree has become small.
  unfoldable pub shrunk : RankSet → Option RankSet
  shrunk rs =
      if not (in_slice rs.storage) && ltb (length rs.scores) lower_threshold
      then toggle rs
      else some rs

  unfoldable pub take_user : ℤ → RankSet → Option RankSet
  take_user userid rs = elim rs.storage [
    | sorted_set ↦ some (record rs { slice = SortedSet.delete rs.slice userid })
    | rbtree ↦
        Option.map (λ t. record rs { tree = t })
          (Remove.delete userid (Tree.locate rs.tree (score_of userid rs.scores) userid))
  ]

  unfoldable pub delete : ℤ → RankSet → Option RankSet
  delete userid rs = Option.map (remove_score userid) (and_then (shrunk rs) (take_user userid))

  -- `Unmarshal` into a set: whether there was no error, and the set.
  unfoldable pub restored : GoMap ℤ ℤ → RankSet → Option RankSet
  restored m rs =
      if ltb upper_threshold (length m)
      then Option.map (λ t. record rs { tree = t; scores = m; storage = rbtree })
          (all_into_tree (range m) rs.tree)
      else Option.map (λ s. record rs { slice = s; scores = m; storage = sorted_set })
          (all_into_slice (range m) rs.slice)

  unfoldable pub unmarshal :
      (List ℕ → Option (GoMap ℤ ℤ)) → List ℕ → RankSet → Option (Bool × RankSet)
  unmarshal decode bin rs = elim (decode bin) [
    | none ↦ some (false, rs)
    | some m ↦ Option.map (λ out. (true, out)) (restored m rs)
  ]

-- `Marshal`; `encode` is the marshalling of MessagePack, an error `none`.
unfoldable pub marshal : (GoMap ℤ ℤ → Option (List ℕ)) → RankSet → Option (List ℕ)
marshal encode rs = encode rs.scores

unfoldable pub count : RankSet → ℤ
count rs = to_int32 (length rs.scores)

-- `GetList`: nothing out of range, and no rank above the last one.
unfoldable pub list_within : ℕ → ℕ → RankSet → Option (List ℤ × List ℤ)
list_within a b rs = elim rs.storage [
  | sorted_set ↦ SortedSet.get_list rs.slice a b
  | rbtree ↦ Tree.get_list rs.tree a b
]

unfoldable pub get_list : ℤ → ℤ → RankSet → Option (List ℤ × List ℤ)
get_list a b rs =
    if ltb_ℤ a (pos 1) || ltb_ℤ b a
    then some ([], [])
    else if ltb (length rs.scores) (pos_part a)
    then some ([], [])
    else list_within (pos_part a) (min (pos_part b) (length rs.scores)) rs

abbrev pub found_rank : Option Found → ℤ
found_rank none = negsuc 0
found_rank (some n) = to_int32 n.rank

unfoldable pub rank : ℤ → RankSet → ℤ × ℤ
rank userid rs = (
  elim rs.storage [
    | sorted_set ↦ SortedSet.locate rs.slice userid
    | rbtree ↦ found_rank (Tree.locate rs.tree (score_of userid rs.scores) userid)
  ],
  score_of userid rs.scores,
)
