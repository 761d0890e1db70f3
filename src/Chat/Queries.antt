-- ===== src/Chat/Queries.antt =====
-- `Query`, `Latest` and the trimming of `restore` of FKGRpc_Chat/Framework/Service.go, on one endpoint.
-- An index out of range panics; `none` as a whole result stands for that.
pub mod Range
pub mod Restore
use fkgo_server.Base.{
  ℕ, zero, suc, ◌+◌, ◌-◌, ◌*◌, ◌/◌, ◌%◌, ◌^◌, ◌≤◌, ◌<◌, min, ◌≡◌, refl, sym, ap, ap₂, ◌∙◌, subst,
  ◌≢◌, ◌↔◌, ◌⊎◌, inl, inr, Bool, true, false, ◌&&◌, ◌||◌, not, Option, none, some, List, [], ◌∷◌,
  ◌++◌, map, append_assoc, append-nil, arith, dec_lt, ℕ_discrete, length, get_elem?, set, take,
  drop, replicate, length-append, length-take, length-drop, length-replicate, length-map,
  take-append-drop, take-append, drop-append, append_cons, take_at, drop_at, drop-drop, set-take,
  set-drop, set-append, set_at, get_elem?-append, ltb, leb, ◌==◌, if◌then◌else◌, ltb→lt, lt→ltb,
  leb→le, ==_iff, tests, Bool-cases, Option-cases, if_both,
}
use fkgo_server.Base.Int.{
  ℤ, pos, negsuc, pos_part, neg_part, sub_ℕ, ◌+ℤ◌, ◌-ℤ◌, ◌≤ℤ◌, ◌<ℤ◌, ltb_ℤ, leb_ℤ, eqb_ℤ,
  eq_of_parts, eqb_ℤ→eq, eqb_ℤ_refl, eqb_ℤ_ne, +ℤ_parts, -ℤ_parts, int_laws, signed16, signed32,
  signed64, unsigned, to_int32, to_int32-eq_of_lt, pos_part-sub, ℤ-cases,
}
use fkgo_server.Chat.EndPoint.{Message, EndPoint, new_end_point, next_offset, stamp_from}

-- `ep.Inbox[i]` for an `int64` index.
abbrev pub elem_at : List Message → ℤ → Option Message
elem_at msgs (pos i) = get_elem? msgs i
elem_at msgs (negsuc i) = none

-- The loop of `Query`, from offset `i` on, `n` rounds.
unfoldable pub collect : EndPoint → ℤ → ℕ → Option (List Message)
collect ep i zero = some []
collect ep i (suc n) =
    let rest = collect ep (i +ℤ pos 1) n in
    elim (elem_at ep.inbox (i -ℤ ep.start_offset)) [
      | none ↦ none
      | some msg ↦ elim rest [ none ↦ none | some msgs ↦ some (record msg { offset = i } ∷ msgs) ]
    ]

-- The two ends of the range, as `Query` moves them into the inbox.
abbrev pub clamp_from : EndPoint → ℤ → ℤ
clamp_from ep from = if ltb_ℤ from ep.start_offset then ep.start_offset else from

abbrev pub clamp_to : EndPoint → ℤ → ℤ
clamp_to ep to = let last = next_offset ep -ℤ pos 1 in if ltb_ℤ last to then last else to

-- The rest of `Query`, on the clamped ends.
unfoldable pub answer : EndPoint → ℤ → ℤ → Option (List Message)
answer ep from to =
    if ltb_ℤ from to then some [] else collect ep from (pos_part (to +ℤ pos 1 -ℤ from))

unfoldable pub query : EndPoint → ℤ → ℤ → Option (List Message)
query ep from to = answer ep (clamp_from ep from) (clamp_to ep to)

-- The copies of the loop of `Latest`, from index `i` on, each with its offset.
unfoldable pub latest : EndPoint → ℤ → List Message
latest ep count =
    let i = pos_part (pos (length ep.inbox) -ℤ count) in
    stamp_from (pos i +ℤ ep.start_offset) 0 (drop i ep.inbox)

-- What `dump` writes of an endpoint (its exported fields) and what `restore` makes of it.
pub record Snapshot : Type 0 where
  pub start_offset : ℤ
  pub inbox : List Message

unfoldable pub snapshot : EndPoint → Snapshot
snapshot ep = record { start_offset = ep.start_offset; inbox = ep.inbox }

unfoldable pub restore_end_point : ℕ → Snapshot → EndPoint
restore_end_point retention s =
    let ep = record (new_end_point retention) { start_offset = s.start_offset; inbox = s.inbox } in
    if ltb retention (length s.inbox)
    then record ep { inbox = drop (length s.inbox - retention) s.inbox }
    else ep
