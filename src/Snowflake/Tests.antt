-- ===== src/Snowflake/Tests.antt =====
-- Generators on short clocks.
use fkgo_server.Base.{ℕ, ◌%◌, ◌^◌, ◌≡◌, refl, inl, inr, true, some, List, [], ◌∷◌, arith}
use fkgo_server.Base.Int.{pos}
use fkgo_server.Snowflake.{
  State, initial, machine_field, compose, serve_next, joined_to, create_at, read_clock, wait_until,
  next_state, finish, create, serve, serve_next, joined_to, create_at, read_clock, wait_until,
  next_state,
}
use fkgo_server.Snowflake.Unique.{
  IsValid, OnSome, Rises, has, serve-Rises, create_answers, compose-injective,
}

-- The clock stands still, goes on, and goes back.
abbrev clock : List ℕ
clock = 5 ∷ 5 ∷ 7 ∷ 6 ∷ 8 ∷ []

abbrev full : State
full = record { sn = 4095; last_ts = 5 }

serve_run : serve 4 4096 initial clock ≡ some (20975616 ∷ 20975617 ∷ 29364224 ∷ 33558528 ∷ [])
unfolding serve serve_next joined_to create create_at read_clock wait_until next_state finish
serve_run = refl

initial-IsValid : IsValid initial
initial-IsValid = record { small = omega arith; readable = omega arith }

full-IsValid : IsValid full
full-IsValid = record { small = omega arith; readable = omega arith }

serve-Rises_example : OnSome (Rises 4096) (serve 4 4096 initial clock)
serve-Rises_example =
    serve-Rises 4 4096 initial clock (omega arith) (omega arith) initial-IsValid (omega arith)

-- The serial number overflows, and the generator waits for 7.
create_answers_example : has (create 4096 full clock) ≡ true
create_answers_example = create_answers 4096 full clock (inr (inr (inl (omega arith))))

machine_1025 :
    compose (machine_field (pos 1)) initial.last_ts initial.sn
    ≡ compose (machine_field (pos 1025)) initial.last_ts initial.sn
unfolding machine_field
machine_1025 = refl

compose-injective_example : 1 % 2 ^ 10 ≡ 1025 % 2 ^ 10
compose-injective_example =
    compose-injective 1 1025 initial initial initial-IsValid initial-IsValid machine_1025
