-- ===== src/Snowflake/Counters.antt =====
-- The counters of FKGRpc_Snowflake/Framework/Service.go: `Next` and `func_InitMachineID` add 1 to a number
-- in etcd by compare-and-swap, and try again when another server was first.
-- etcd, and the parsing and printing of numbers, are parameters. A round of a loop is given two states of
-- the store, the one that it reads and the one that its write comes to, and what becomes of the write on
-- its way: the code takes every error of it for a swap that failed, also where the store was changed.
pub mod Increments
mod Tests
use fkgo_server.Base.{
  ℕ, zero, suc, ◌+◌, ◌-◌, ◌*◌, ◌/◌, ◌%◌, ◌^◌, ◌≤◌, ◌<◌, min, ◌≡◌, refl, sym, ap, ap₂, ◌∙◌, subst,
  ◌≢◌, ◌↔◌, ◌⊎◌, inl, inr, Bool, true, false, ◌&&◌, ◌||◌, not, Option, none, some, List, [], ◌∷◌,
  ◌++◌, map, append_assoc, append-nil, arith, dec_lt, ℕ_discrete, length, get_elem?, set, take,
  drop, replicate, length-append, length-take, length-drop, length-replicate, length-map,
  take-append-drop, take-append, drop-append, append_cons, take_at, drop_at, drop-drop, set-take,
  set-drop, set-append, set_at, get_elem?-append, ltb, leb, ◌==◌, if◌then◌else◌, ltb→lt, lt→ltb,
  leb→le, ==_iff, tests, Bool-cases, Option-cases, if_both,
}
use fkgo_server.Base.Int.{
  ℤ, pos, negsuc, pos_part, neg_part, sub_ℕ, ◌+ℤ◌, ◌-ℤ◌, ◌≤ℤ◌, ◌<ℤ◌, ltb_ℤ, leb_ℤ, eqb_ℤ,
  eq_of_parts, eqb_ℤ→eq, eqb_ℤ_refl, eqb_ℤ_ne, +ℤ_parts, -ℤ_parts, int_laws, signed16, signed32,
  signed64, unsigned, to_int32, to_int32-eq_of_lt, pos_part-sub, ℤ-cases,
}
use mathlib.Core.Option
use fkgo_server.Snowflake.{machine_field}

-- A key's value with the index of its last change, and a write that wants that index; errors are `none`.
pub record Etcd (S : Type 0) : Type 0 where
  pub get : List ℕ → S → Option (List ℕ × ℕ)
  pub set_at : List ℕ → List ℕ → ℕ → S → Option S
  pub atoi : List ℕ → Option ℤ
  pub sprint : ℤ → List ℕ

-- A write does not come to the store, or its answer does not come back, or all goes well.
pub data Delivery : Type 0 where
  request_lost : Delivery
  answer_lost : Delivery
  answered : Delivery

-- The end of a round, with the store then where the write was tried.
pub data Outcome (S : Type 0) : Type 0 where
  key_not_exists : Outcome S
  malformed_value : Outcome S
  swap_failed : S → Outcome S
  returned : ℤ → S → Outcome S

-- `prevValue + 1` on 64 bits.
abbrev pub increment : ℤ → ℤ
increment prev_value = signed64 (unsigned (2 ^ 64) (prev_value +ℤ pos 1))

-- The round behind the write of `n`, from the store that it comes to and the one that it would make.
abbrev pub after_set : {S : Type 0} → Delivery → ℤ → S → Option S → Outcome S
after_set request_lost n now swapped = swap_failed now
after_set answer_lost n now none = swap_failed now
after_set answer_lost n now (some s) = swap_failed s
after_set answered n now none = swap_failed now
after_set answered n now (some s) = returned n s

module _ (S : Type 0) (etcd : Etcd S) where
  unfoldable pub attempt : List ℕ → S × S × Delivery → Outcome S
  attempt key (seen, now, delivery) = elim (etcd.get key seen) [
    | none ↦ key_not_exists
    | some (value, prev_index) ↦ elim (etcd.atoi value) [
      | none ↦ malformed_value
      | some prev_value ↦
          after_set delivery (increment prev_value) now
            (etcd.set_at key (etcd.sprint (increment prev_value)) prev_index now)
    ]
  ]

  abbrev pub or_again : Outcome S → Option (Outcome S) → Option (Outcome S)
  or_again (swap_failed s) again = again
  or_again key_not_exists again = some key_not_exists
  or_again malformed_value again = some malformed_value
  or_again (returned n s) again = some (returned n s)

  -- The loop of `Next`; `none` when the rounds run out.
  unfoldable pub next : List ℕ → List (S × S × Delivery) → Option (Outcome S)
  next key [] = none
  next key (view ∷ views) = or_again (attempt key view) (next key views)

  -- An error is a panic here, `none`.
  abbrev machine_of : Outcome S → Option (ℕ × S)
  machine_of (returned n s) = some (machine_field n, s)
  machine_of _ = none

  unfoldable pub init_machine_id : List ℕ → List (S × S × Delivery) → Option (Option (ℕ × S))
  init_machine_id uuid_key views = Option.map machine_of (next uuid_key views)

  -- `Func_Init`: the machine's number from the environment, or from etcd where the variable is empty.
  unfoldable pub start : List ℕ → List ℕ → List (S × S × Delivery) → S → Option (Option (ℕ × S))
  start env uuid_key views s = elim env [
    | [] ↦ init_machine_id uuid_key views
    | c ∷ cs ↦ some (Option.map (λ id. (machine_field id, s)) (etcd.atoi (c ∷ cs)))
  ]
