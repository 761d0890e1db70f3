-- ===== src/Snowflake/Counters/Tests.antt =====
-- A store with one key, whose value is a list with its number as the only byte and whose index counts the
-- writes.
use fkgo_server.Base.{
  ℕ, zero, suc, ◌+◌, ◌^◌, ◌≤◌, ◌<◌, ◌≡◌, refl, sym, ap, ◌∙◌, Option, none, some, List, [], ◌∷◌,
  arith, ◌==◌, if◌then◌else◌,
}
use fkgo_server.Base.Int.{ℤ, pos, negsuc, ◌+ℤ◌}
use mathlib.Core.Option.{some-injective}
use fkgo_server.Snowflake.Counters.{Etcd, answered, answer_lost, returned, attempt, next}
use fkgo_server.Snowflake.Counters.Increments.{
  EtcdLaws, History, finished, counted, HoldsNumber, SameVersions, HasRoom, refused, failed, raised,
  Rises, counter_never_repeats,
}

-- The value of the key and its index.
abbrev Store : Type 0
Store = List ℕ × ℕ

abbrev write : List ℕ → ℕ → Store → Option Store
write value index (old, current) = if index == current then some (value, current + 1) else none

-- A number as its sign and its size.
abbrev printed : ℤ → List ℕ
printed (pos n) = 0 ∷ n ∷ []
printed (negsuc n) = 1 ∷ n ∷ []

abbrev parsed : List ℕ → Option ℤ
parsed (zero ∷ n ∷ []) = some (pos n)
parsed (suc _ ∷ n ∷ []) = some (negsuc n)
parsed _ = none

abbrev etcd : Etcd Store
etcd = record {
  get = λ key s. some s;
  set_at = λ key value index s. write value index s;
  atoi = parsed;
  sprint = printed;
}

parsed-printed : (z : ℤ) → parsed (printed z) ≡ some z
parsed-printed (pos n) = refl
parsed-printed (negsuc n) = refl

laws : EtcdLaws Store etcd
laws = record {
  swap_checks = λ key value index s t done. (s.0, ground arith);
  swap_writes = λ key value index s t done. (s.1 + 1, ground arith);
  atoi_sprint = parsed-printed;
}

abbrev five : Store
five = (0 ∷ 5 ∷ [], 3)

abbrev six : Store
six = (0 ∷ 6 ∷ [], 4)

abbrev seven : Store
seven = (0 ∷ 7 ∷ [], 5)

abbrev nine : Store
nine = (0 ∷ 9 ∷ [], 6)

abbrev ten : Store
ten = (0 ∷ 10 ∷ [], 7)

-- A round that read before another server wrote fails, one whose answer is lost skips a number, and the
-- next one returns.
next_run :
    next Store etcd [] (
      (five, six, answered)
      ∷ (six, six, answer_lost)
      ∷ (seven, nine, answered)
      ∷ (nine, nine, answered)
      ∷ [])
    ≡ some (returned (pos 10) ten)
unfolding next attempt ◌+ℤ◌
next_run = refl

one_version : (s : Store) → SameVersions Store etcd [] s s
one_version s v w index a b = ap (λ p. p.0) (some-injective (v, index) (w, index) (sym a ∙ b))

holds : (n index : ℕ) → HoldsNumber Store etcd [] (pos n) (0 ∷ n ∷ [], index)
holds n index = (0 ∷ n ∷ [], index, refl, refl)

room : (n index : ℕ) → n + 1 < 2 ^ 63 → HasRoom Store etcd [] (0 ∷ n ∷ [], index)
room n index h = (n, holds n index, h)

-- One call returns 6, one writes 7 but gets no answer, another client writes 9, and the call goes on and
-- returns 10.
two_calls : History Store etcd [] five (pos 6 ∷ pos 10 ∷ []) 3 ten
unfolding attempt ◌+ℤ◌
two_calls = counted five answered (room 5 3 (omega arith)) (one_version five) refl (
    failed six answer_lost (room 6 4 (omega arith)) (one_version six) refl (
      raised 7 2 (holds 7 5) (holds 9 6) (
        refused seven answered refl
          (counted nine answered (room 9 6 (omega arith)) (one_version nine) refl finished))))

counter_never_repeats_example :
    (last : ℕ) × HoldsNumber Store etcd [] (pos last) ten
    × Rises Store etcd [] laws 5 (pos 6 ∷ pos 10 ∷ []) last
    × (last ≤ 10)
counter_never_repeats_example = counter_never_repeats Store etcd [] laws 5 two_calls (holds 5 3)
