-- ===== src/Snowflake.antt =====
-- FKGRpc_Snowflake/Framework/Service.go: the generator of UUIDs and the counters in etcd.
-- The clock is the list of its readings in milliseconds, in the order in which the code asks for them;
-- `none` means that the readings ran out while the code still waits.
pub mod Unique
pub mod Counters
mod Tests
use fkgo_server.Base.{
  ℕ, zero, suc, ◌+◌, ◌-◌, ◌*◌, ◌/◌, ◌%◌, ◌^◌, ◌≤◌, ◌<◌, min, ◌≡◌, refl, sym, ap, ap₂, ◌∙◌, subst,
  ◌≢◌, ◌↔◌, ◌⊎◌, inl, inr, Bool, true, false, ◌&&◌, ◌||◌, not, Option, none, some, List, [], ◌∷◌,
  ◌++◌, map, append_assoc, append-nil, arith, dec_lt, ℕ_discrete, length, get_elem?, set, take,
  drop, replicate, length-append, length-take, length-drop, length-replicate, length-map,
  take-append-drop, take-append, drop-append, append_cons, take_at, drop_at, drop-drop, set-take,
  set-drop, set-append, set_at, get_elem?-append, ltb, leb, ◌==◌, if◌then◌else◌, ltb→lt, lt→ltb,
  leb→le, ==_iff, tests, Bool-cases, Option-cases, if_both,
}
use fkgo_server.Base.Int.{
  ℤ, pos, negsuc, pos_part, neg_part, sub_ℕ, ◌+ℤ◌, ◌-ℤ◌, ◌≤ℤ◌, ◌<ℤ◌, ltb_ℤ, leb_ℤ, eqb_ℤ,
  eq_of_parts, eqb_ℤ→eq, eqb_ℤ_refl, eqb_ℤ_ne, +ℤ_parts, -ℤ_parts, int_laws, signed16, signed32,
  signed64, unsigned, to_int32, to_int32-eq_of_lt, pos_part-sub, ℤ-cases,
}

-- The loop variables of `func_UUIDCreator`.
pub record State : Type 0 where
  pub sn : ℕ
  pub last_ts : ℕ

abbrev pub initial : State
initial = record { sn = 0; last_ts = 0 }

-- `func_WaitUtil`: read the clock until it is past `last_ts`.
unfoldable pub wait_until : ℕ → List ℕ → Option (ℕ × List ℕ)
wait_until last_ts [] = none
wait_until last_ts (t ∷ clock) = if leb t last_ts then wait_until last_ts clock else some (t, clock)

-- `(uint64(id) & MACHINE_ID_MASK) << 12`
unfoldable pub machine_field : ℤ → ℕ
machine_field id = unsigned (2 ^ 64) id % 2 ^ 10 * 2 ^ 12

-- The three fields of a UUID do not overlap, so `|` is a sum.
abbrev pub compose : ℕ → ℕ → ℕ → ℕ
compose machine_id t sn = t % 2 ^ 41 * 2 ^ 22 + machine_id + sn

-- The test for a clock that went back.
unfoldable pub read_clock : ℕ → List ℕ → Option (ℕ × List ℕ)
read_clock last_ts [] = none
read_clock last_ts (t ∷ clock) = if ltb t last_ts then wait_until last_ts clock else some (t, clock)

-- The serial number at time `t`, with the wait where it overflows.
unfoldable pub next_state : State → ℕ → List ℕ → Option (State × List ℕ)
next_state s t clock =
    if s.last_ts == t
    then (if (s.sn + 1) % 2 ^ 12 == 0
        then elim (wait_until s.last_ts clock) [
          | none ↦ none
          | some (t', rest) ↦ some (record { sn = 0; last_ts = t' }, rest)
        ]
        else some (record { sn = (s.sn + 1) % 2 ^ 12; last_ts = t }, clock))
    else some (record { sn = 0; last_ts = t }, clock)

unfoldable pub finish : ℕ → Option (State × List ℕ) → Option (ℕ × State × List ℕ)
finish machine_id none = none
finish machine_id (some (s, clock)) = some (compose machine_id s.last_ts s.sn, s, clock)

unfoldable pub create_at : ℕ → State → Option (ℕ × List ℕ) → Option (ℕ × State × List ℕ)
create_at machine_id s none = none
create_at machine_id s (some (t, clock)) = finish machine_id (next_state s t clock)

-- One round of `func_UUIDCreator`: the UUID, the new state and the readings left.
unfoldable pub create : ℕ → State → List ℕ → Option (ℕ × State × List ℕ)
create machine_id s clock = create_at machine_id s (read_clock s.last_ts clock)

unfoldable pub joined_to : ℕ → Option (List ℕ) → Option (List ℕ)
joined_to uuid none = none
joined_to uuid (some uuids) = some (uuid ∷ uuids)

unfoldable pub serve_next :
    (State → List ℕ → Option (List ℕ)) → Option (ℕ × State × List ℕ) → Option (List ℕ)
serve_next go_on none = none
serve_next go_on (some (uuid, s, clock)) = joined_to uuid (go_on s clock)

-- `n` requests, one after the other: their UUIDs. `none` means that one of them waits for ever.
unfoldable pub serve : ℕ → ℕ → State → List ℕ → Option (List ℕ)
serve zero machine_id s clock = some []
serve (suc n) machine_id s clock = serve_next (serve n machine_id) (create machine_id s clock)
