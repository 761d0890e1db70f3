-- ===== src/Snowflake/Unique.antt =====
-- The UUIDs of one generator rise strictly, and those of two machines differ.
use fkgo_server.Base.{
  ℕ, zero, suc, ◌%◌, ◌^◌, ◌≤◌, ◌<◌, ◌≡◌, refl, sym, subst, ◌⊎◌, inl, inr, Bool, true, false, Option,
  none, some, List, [], ◌∷◌, arith, ltb, Bool-cases,
}
use fkgo_server.Snowflake.{
  State, wait_until, machine_field, compose, read_clock, next_state, finish, create_at, create,
  joined_to, serve, serve_next, pos,
}

-- Every reading is below 2 ^ 41, the range of the time field.
abbrev pub Readable : List ℕ → Type 0
Readable [] = Unit
Readable (t ∷ clock) = (t < 2 ^ 41) × Readable clock

pub record IsValid (s : State) : Type 0 where
  pub small : s.sn < 2 ^ 12
  pub readable : s.last_ts < 2 ^ 41

-- The state comes later than `s`.
abbrev Later : State → State → Type 0
Later s s' = (s.last_ts < s'.last_ts) ⊎ ((s.last_ts ≡ s'.last_ts) × (s.sn < s'.sn))

-- The statement about the value, if there is one.
abbrev pub OnSome : {A : Type 0} → (A → Type 0) → Option A → Type 0
OnSome P none = Unit
OnSome P (some a) = P a

abbrev After : ℕ → ℕ × List ℕ → Type 0
After last_ts (t, rest) = (last_ts < t) × (t < 2 ^ 41) × Readable rest

abbrev NotBefore : ℕ → ℕ × List ℕ → Type 0
NotBefore last_ts (t, rest) = (last_ts ≤ t) × (t < 2 ^ 41) × Readable rest

wait_until_lem :
    (last_ts : ℕ) (clock : List ℕ)
    → Readable clock
    → OnSome (After last_ts) (wait_until last_ts clock)
unfolding wait_until
wait_until_lem last_ts [] r = tt
wait_until_lem last_ts (t ∷ clock) r = ground (arith, wait_until_lem last_ts clock)

read_clock_lem :
    (last_ts : ℕ) (clock : List ℕ)
    → Readable clock
    → OnSome (NotBefore last_ts) (read_clock last_ts clock)
unfolding read_clock
read_clock_lem last_ts [] r = tt
read_clock_lem last_ts (t ∷ clock) r = ground (arith, wait_until_lem last_ts clock)

abbrev Follows : State → State × List ℕ → Type 0
Follows s (s', rest) = IsValid s' × Later s s' × Readable rest

next_state_lem :
    (s : State) (t : ℕ) (clock : List ℕ)
    → IsValid s
    → s.last_ts ≤ t
    → t < 2 ^ 41
    → Readable clock
    → OnSome (Follows s) (next_state s t clock)
unfolding next_state
next_state_lem s t clock v le lt r = ground (arith, wait_until_lem s.last_ts clock)

abbrev Created : ℕ → State → ℕ × State × List ℕ → Type 0
Created machine_id s (uuid, s', rest) =
    IsValid s' × Later s s' × Readable rest × (uuid ≡ compose machine_id s'.last_ts s'.sn)

created :
    (machine_id : ℕ) (s : State) (next : Option (State × List ℕ))
    → OnSome (Follows s) next
    → OnSome (Created machine_id s) (finish machine_id next)
unfolding finish
created machine_id s none h = tt
created machine_id s (some (s', rest)) h = (h.0, h.1, h.2, refl)

create_lem :
    (machine_id : ℕ) (s : State) (clock : List ℕ)
    → IsValid s
    → Readable clock
    → OnSome (Created machine_id s) (create machine_id s clock)
unfolding create create_at
create_lem machine_id s clock v r =
    go (read_clock s.last_ts clock) (read_clock_lem s.last_ts clock r)
  where
    go :
        (now : Option (ℕ × List ℕ))
        → OnSome (NotBefore s.last_ts) now
        → OnSome (Created machine_id s) (create_at machine_id s now)
    go none h = tt
    go (some (t, rest)) h =
        created machine_id s (next_state s t rest) (next_state_lem s t rest v h.0 h.1 h.2)

-- Each UUID of the list is greater than the one before it, the first greater than `low`.
abbrev pub Rises : ℕ → List ℕ → Type 0
Rises low [] = Unit
Rises low (uuid ∷ uuids) = (low < uuid) × Rises uuid uuids

compose_mono :
    (machine_id : ℕ) (s s' : State)
    → machine_id < 2 ^ 22
    → machine_id % 2 ^ 12 ≡ 0
    → IsValid s
    → IsValid s'
    → Later s s'
    → compose machine_id s.last_ts s.sn < compose machine_id s'.last_ts s'.sn
compose_mono machine_id s s' lt m v v' l = ground arith

joined_to_lem :
    (low uuid : ℕ) (uuids : Option (List ℕ))
    → low < uuid
    → OnSome (Rises uuid) uuids
    → OnSome (Rises low) (joined_to uuid uuids)
unfolding joined_to
joined_to_lem low uuid none lt h = tt
joined_to_lem low uuid (some uuids) lt h = (lt, h)

-- The rest of `serve` after one UUID.
serve_next_lem :
    (machine_id : ℕ) (s : State) (go_on : State → List ℕ → Option (List ℕ))
    (next : Option (ℕ × State × List ℕ))
    → machine_id < 2 ^ 22
    → machine_id % 2 ^ 12 ≡ 0
    → IsValid s
    → OnSome (Created machine_id s) next
    → ((s' : State) (rest : List ℕ)
        → IsValid s'
        → Readable rest
        → OnSome (Rises (compose machine_id s'.last_ts s'.sn)) (go_on s' rest))
    → OnSome (Rises (compose machine_id s.last_ts s.sn)) (serve_next go_on next)
unfolding serve_next
serve_next_lem machine_id s go_on none lt m v c ih = tt
serve_next_lem machine_id s go_on (some (uuid, s', rest)) lt m v (v', later, r, e) ih =
    joined_to_lem (compose machine_id s.last_ts s.sn) uuid (go_on s' rest)
      (subst (λ u. compose machine_id s.last_ts s.sn < u) (sym e)
        (compose_mono machine_id s s' lt m v v' later))
      (subst (λ u. OnSome (Rises u) (go_on s' rest)) (sym e) (ih s' rest v' r))

-- For a generator in a valid state, and readings of the clock that fit the time field, the UUIDs that
-- `n` requests get rise strictly, above the UUID that the state stands for, unless the clock keeps one waiting.
pub serve-Rises :
    (n machine_id : ℕ) (s : State) (clock : List ℕ)
    → machine_id < 2 ^ 22
    → machine_id % 2 ^ 12 ≡ 0
    → IsValid s
    → Readable clock
    → OnSome (Rises (compose machine_id s.last_ts s.sn)) (serve n machine_id s clock)
unfolding serve
serve-Rises zero machine_id s clock lt m v r = tt
serve-Rises (suc n) machine_id s clock lt m v r =
    serve_next_lem machine_id s (serve n machine_id) (create machine_id s clock) lt m v
      (create_lem machine_id s clock v r)
      (λ s' rest v' r'. serve-Rises n machine_id s' rest lt m v' r')

-- The clock comes past `last_ts` at some reading.
abbrev pub Gets : ℕ → List ℕ → Type 0
Gets last_ts [] = ⊥
Gets last_ts (t ∷ clock) = (last_ts < t) ⊎ Gets last_ts clock

-- Whether there is a value.
abbrev pub has : {A : Type 0} → Option A → Bool
has none = false
has (some a) = true

wait_until_answers :
    (last_ts : ℕ) (clock : List ℕ) → Gets last_ts clock → has (wait_until last_ts clock) ≡ true
unfolding wait_until
wait_until_answers last_ts [] g = absurd g
wait_until_answers last_ts (t ∷ clock) g = ground (arith, wait_until_answers last_ts clock)

wait_until_past :
    (last_ts : ℕ) (clock : List ℕ)
    → OnSome (λ (now : ℕ × List ℕ). last_ts < now.0) (wait_until last_ts clock)
unfolding wait_until
wait_until_past last_ts [] = tt
wait_until_past last_ts (t ∷ clock) = ground (arith, wait_until_past last_ts clock)

next_state_answers :
    (machine_id : ℕ) (s : State) (t : ℕ) (clock : List ℕ)
    → (s.last_ts < t) ⊎ Gets s.last_ts clock
    → has (finish machine_id (next_state s t clock)) ≡ true
unfolding next_state finish
next_state_answers machine_id s t clock g = ground (arith, wait_until_answers s.last_ts clock)

waited_answers :
    (machine_id : ℕ) (s : State) (now : Option (ℕ × List ℕ))
    → OnSome (λ (now : ℕ × List ℕ). s.last_ts < now.0) now
    → has now ≡ true
    → has (create_at machine_id s now) ≡ true
unfolding create_at
waited_answers machine_id s none past h = ground arith
waited_answers machine_id s (some (t, clock)) past h =
    next_state_answers machine_id s t clock (inl past)

-- A round of the generator ends whenever the clock comes past the last time it used: also after the clock
-- went back, and where the serial number overflows.
pub create_answers :
    (machine_id : ℕ) (s : State) (clock : List ℕ)
    → Gets s.last_ts clock
    → has (create machine_id s clock) ≡ true
unfolding create read_clock create_at
create_answers machine_id s [] g = absurd g
create_answers machine_id s (t ∷ clock) g = elim (Bool-cases (ltb t s.last_ts)) [
  | inl late ↦
      let answers =
        waited_answers machine_id s (wait_until s.last_ts clock) (wait_until_past s.last_ts clock) (
          wait_until_answers s.last_ts clock
            (elim g [ inl lt ↦ absurd (ground arith) | inr rest ↦ rest ])) in
      rw (late, answers)
  | inr now ↦ let answers = next_state_answers machine_id s t clock g in rw (now, answers)
]

-- Where two generators in valid states make the same UUID, the numbers of their machines agree in the
-- 10 bits that the mask keeps.
pub compose-injective :
    (id id' : ℕ) (s s' : State)
    → IsValid s
    → IsValid s'
    → compose (machine_field (pos id)) s.last_ts s.sn
      ≡ compose (machine_field (pos id')) s'.last_ts s'.sn
    → id % 2 ^ 10 ≡ id' % 2 ^ 10
unfolding machine_field
compose-injective id id' s s' v v' e = ground arith
