-- ===== src/Rank/SortedSet.antt =====
-- FKGRpc_Rank/SortedSet/SortedSet.go: a slice of (id, score) pairs, kept by descending score.
-- An index -1 of the source ("not found yet") is `none`. An index or a slice expression out of
-- range panics in Go; `none` as a whole result stands for that.
pub mod Shift
pub mod Order
pub mod Insert
pub mod Update
pub mod Range
mod Tests
use fkgo_server.Base.{
  ℕ, zero, suc, ◌+◌, ◌-◌, ◌*◌, ◌/◌, ◌%◌, ◌^◌, ◌≤◌, ◌<◌, min, ◌≡◌, refl, sym, ap, ap₂, ◌∙◌, subst,
  ◌≢◌, ◌↔◌, ◌⊎◌, inl, inr, Bool, true, false, ◌&&◌, ◌||◌, not, Option, none, some, List, [], ◌∷◌,
  ◌++◌, map, append_assoc, append-nil, arith, dec_lt, ℕ_discrete, length, get_elem?, set, take,
  drop, replicate, length-append, length-take, length-drop, length-replicate, length-map,
  take-append-drop, take-append, drop-append, append_cons, take_at, drop_at, drop-drop, set-take,
  set-drop, set-append, set_at, get_elem?-append, ltb, leb, ◌==◌, if◌then◌else◌, ltb→lt, lt→ltb,
  leb→le, ==_iff, tests, Bool-cases, Option-cases, if_both,
}
use fkgo_server.Base.Int.{
  ℤ, pos, negsuc, pos_part, neg_part, sub_ℕ, ◌+ℤ◌, ◌-ℤ◌, ◌≤ℤ◌, ◌<ℤ◌, ltb_ℤ, leb_ℤ, eqb_ℤ,
  eq_of_parts, eqb_ℤ→eq, eqb_ℤ_refl, eqb_ℤ_ne, +ℤ_parts, -ℤ_parts, int_laws, signed16, signed32,
  signed64, unsigned, to_int32, to_int32-eq_of_lt, pos_part-sub, ℤ-cases,
}

pub record Sortpair : Type 0 where
  pub id : ℤ
  pub score : ℤ

-- `type SortedSet struct { set []sortpair }`: the struct is its one field.
abbrev pub SortedSet : Type 0
SortedSet = List Sortpair

unfoldable pub clear : SortedSet → SortedSet
clear ss = []

-- Go's `copy(xs[dst:dst_end], xs[src:src_end])` within one array: it moves as many elements as the
-- shorter slice holds, reading them all before it writes.
pub copy_within : SortedSet → ℕ → ℕ → ℕ → ℕ → Option SortedSet
copy_within xs dst dst_end src src_end =
    if leb dst dst_end && leb dst_end (length xs) && leb src src_end && leb src_end (length xs)
    then some (take dst xs ++ (take n (drop src xs) ++ drop (dst + n) xs))
    else none
  where
    n : ℕ
    n = min (dst_end - dst) (src_end - src)

-- The assignment `ss.set[i] = p`.
pub assign : SortedSet → ℕ → Sortpair → Option SortedSet
assign xs i p = if ltb i (length xs) then some (set xs i p) else none

pub lshift : SortedSet → ℕ → ℕ → Sortpair → Option SortedSet
lshift xs i j p = elim (copy_within xs i (j + 1) (i + 1) (j + 1)) [
  | none ↦ none
  | some ys ↦ assign ys j p
]

pub rshift : SortedSet → ℕ → ℕ → Sortpair → Option SortedSet
rshift xs i j p = elim (copy_within xs (i + 1) (j + 1) i (j + 1)) [
  | none ↦ none
  | some ys ↦ assign ys i p
]

-- The scan of `Insert`, from index `k` on: the first entry with a lower score.
pub lower_from : ℤ → ℕ → SortedSet → Option ℕ
lower_from score k [] = none
lower_from score k (q ∷ qs) = if ltb_ℤ q.score score then some k else lower_from score (k + 1) qs

-- `Insert` on a slice that is not empty: append, then shift the entry up to its place.
pub grow : SortedSet → Sortpair → Option SortedSet
grow ss p =
    let grown : SortedSet = ss ++ (p ∷ []) in
    elim (lower_from p.score 0 grown) [
      | none ↦ some grown
      | some k ↦ rshift grown k (length grown - 1) p
    ]

pub insert : SortedSet → ℤ → ℤ → Option SortedSet
insert [] id score = some (record { id = id; score = score } ∷ [])
insert (q ∷ qs) id score = grow (q ∷ qs) (record { id = id; score = score })

-- The loop of `Delete`: drop the first entry with the id.
pub delete : SortedSet → ℤ → SortedSet
delete [] id = []
delete (q ∷ qs) id = if eqb_ℤ q.id id then qs else q ∷ delete qs id

pub locate_from : ℕ → SortedSet → ℤ → ℤ
locate_from k [] id = negsuc 0
locate_from k (q ∷ qs) id = if eqb_ℤ q.id id then to_int32 (k + 1) else locate_from (k + 1) qs id

pub locate : SortedSet → ℤ → ℤ
locate ss id = locate_from 0 ss id

-- One round of the scan of `Update` at index `k`: each of the two indices is set once.
pub note : ℤ → ℤ → ℕ → Sortpair → Option ℕ × Option ℕ → Option ℕ × Option ℕ
note id score k q (idx, update_idx) = (
  elim idx [ some i ↦ some i | none ↦ if eqb_ℤ q.id id then some k else none ],
  elim update_idx [ some i ↦ some i | none ↦ if ltb_ℤ q.score score then some k else none ],
)

pub both_set : Option ℕ × Option ℕ → Bool
both_set (some _, some _) = true
both_set _ = false

pub scan_from : ℤ → ℤ → ℕ → SortedSet → Option ℕ × Option ℕ → Option ℕ × Option ℕ
scan_from id score k [] found = found
scan_from id score k (q ∷ qs) found =
    let now = note id score k q found in
    if both_set now then now else scan_from id score (k + 1) qs now

-- The end of `Update`: the entry at `idx` goes to `to` and those between move by one.
pub move : SortedSet → ℕ → ℕ → Sortpair → Option SortedSet
move ss idx to p =
    if ltb idx to
    then lshift ss idx to p
    else if ltb to idx
    then rshift ss to idx p
    else assign ss idx p

pub update : SortedSet → ℤ → ℤ → Option SortedSet
update ss id score =
    let p : Sortpair = record { id = id; score = score } in
    let found = scan_from id score 0 ss (none, none) in
    elim found.0 [
      | none ↦ some ss
      | some idx ↦ move ss idx (elim found.1 [ none ↦ length ss - 1 | some k ↦ k ]) p
    ]

-- The loop of `GetList` from index `k` on, `n` rounds.
unfoldable pub list_from : SortedSet → ℕ → ℕ → Option (List ℤ × List ℤ)
list_from ss k zero = some ([], [])
list_from ss k (suc n) =
    let rest = list_from ss (k + 1) n in
    elim (get_elem? ss k) [
      | none ↦ none
      | some q ↦ elim rest [
        | none ↦ none
        | some (ids, scores) ↦ some (q.id ∷ ids, q.score ∷ scores)
      ]
    ]

-- `GetList(a, b)` at `1 ≤ a ≤ b`, which its caller sees to.
unfoldable pub get_list : SortedSet → ℕ → ℕ → Option (List ℤ × List ℤ)
get_list ss a b = list_from ss (a - 1) (b + 1 - a)
