-- ===== src/Snowflake/Counters/Increments.antt =====
-- What the compare-and-swap loops of Service.go promise, with other servers and lost answers in between.
use fkgo_server.Base.{
  ℕ, suc, ◌+◌, ◌^◌, ◌≤◌, ◌<◌, ◌≡◌, refl, sym, ap, ◌∙◌, subst, ◌⊎◌, inl, inr, Option, none, some,
  List, [], ◌∷◌, arith, length, get_elem?, set, Option-cases,
}
use fkgo_server.Base.Int.{ℤ, pos, pos_part, ◌+ℤ◌}
use mathlib.Core.Option.{some-injective}
use fkgo_server.Snowflake.Counters.{
  Etcd, Delivery, request_lost, answer_lost, answered, after_set, Outcome, key_not_exists,
  malformed_value, swap_failed, returned, increment, attempt, next, or_again,
}

-- What etcd documents of a write that asks for an index: it succeeds only on that version of the key, and
-- the key has the new value then. What is printed is read back.
pub record EtcdLaws (S : Type 0) (etcd : Etcd S) : Type 0 where
  pub swap_checks :
      (key value : List ℕ) (index : ℕ) (s t : S)
      → etcd.set_at key value index s ≡ some t
      → (old : List ℕ) × (etcd.get key s ≡ some (old, index))
  pub swap_writes :
      (key value : List ℕ) (index : ℕ) (s t : S)
      → etcd.set_at key value index s ≡ some t
      → (new_index : ℕ) × (etcd.get key t ≡ some (value, new_index))
  pub atoi_sprint : (z : ℤ) → etcd.atoi (etcd.sprint z) ≡ some z

increment_small : (m : ℕ) → m + 1 < 2 ^ 63 → increment (pos m) ≡ pos (m + 1)
unfolding ◌+ℤ◌
increment_small m h = ground arith

module _ (S : Type 0) (etcd : Etcd S) (key : List ℕ) where
  -- Two states of the store in which an index of the key stands for one version.
  abbrev pub SameVersions : S → S → Type 0
  SameVersions seen now =
      (v w : List ℕ) (index : ℕ)
      → etcd.get key seen ≡ some (v, index)
      → etcd.get key now ≡ some (w, index)
      → v ≡ w

  -- The key holds a number.
  abbrev pub HoldsNumber : ℤ → S → Type 0
  HoldsNumber z s =
      (v : List ℕ) × (index : ℕ) × (etcd.get key s ≡ some (v, index)) × (etcd.atoi v ≡ some z)

  -- The key holds a number that an `int64` can still count up.
  abbrev pub HasRoom : S → Type 0
  HasRoom s = (i : ℕ) × HoldsNumber (pos i) s × (i + 1 < 2 ^ 63)

  -- What happens to the key, the numbers that the loops return, and how many may be skipped. Others write
  -- the key, but no lower number; a round fails and leaves the store as it is; a round fails, maybe with a
  -- changed store; a round returns a number. A round may have read any earlier state.
  pub data History : S → List ℤ → ℕ → S → Type 0 where
    finished : {s : S} → History s [] 0 s
    raised :
        {s t u : S} {ns : List ℤ} {k : ℕ} (i d : ℕ)
        → HoldsNumber (pos i) s
        → HoldsNumber (pos (i + d)) t
        → History t ns k u
        → History s ns (d + k) u
    refused :
        {s u : S} {ns : List ℤ} {k : ℕ} (seen : S) (delivery : Delivery)
        → attempt S etcd key (seen, s, delivery) ≡ swap_failed s
        → History s ns k u
        → History s ns k u
    failed :
        {s t u : S} {ns : List ℤ} {k : ℕ} (seen : S) (delivery : Delivery)
        → HasRoom s
        → SameVersions seen s
        → attempt S etcd key (seen, s, delivery) ≡ swap_failed t
        → History t ns k u
        → History s ns (1 + k) u
    counted :
        {s t u : S} {n : ℤ} {ns : List ℤ} {k : ℕ} (seen : S) (delivery : Delivery)
        → HasRoom s
        → SameVersions seen s
        → attempt S etcd key (seen, s, delivery) ≡ returned n t
        → History t ns k u
        → History s (n ∷ ns) k u

  -- The two ways of a round that is not the last one's write, and the write.
  module _ (seen now : S) (delivery : Delivery) where
    attempt_missing :
        etcd.get key seen ≡ none → attempt S etcd key (seen, now, delivery) ≡ key_not_exists
    unfolding attempt
    attempt_missing e = rw (attempt, e) refl

    attempt_malformed :
        (value : List ℕ) (index : ℕ)
        → etcd.get key seen ≡ some (value, index)
        → etcd.atoi value ≡ none
        → attempt S etcd key (seen, now, delivery) ≡ malformed_value
    unfolding attempt
    attempt_malformed value index e h = rw (attempt, e, h) refl

    attempt_writes :
        (value : List ℕ) (index : ℕ) (z : ℤ)
        → etcd.get key seen ≡ some (value, index)
        → etcd.atoi value ≡ some z
        → attempt S etcd key (seen, now, delivery)
          ≡ after_set delivery
              (increment z)
              now
              (etcd.set_at key (etcd.sprint (increment z)) index now)
    unfolding attempt
    attempt_writes value index z e h = rw (attempt, e, h) refl

  -- What a round comes to: it tells what the store is then, and the number if it returns one.
  abbrev Comes : S → Outcome S → Type 0
  Comes now key_not_exists = Unit
  Comes now malformed_value = Unit
  Comes now (swap_failed t) =
      (t ≡ now) ⊎ ((z : ℤ) × HoldsNumber z now × HoldsNumber (increment z) t)
  Comes now (returned n t) = (z : ℤ) × HoldsNumber z now × (n ≡ increment z) × HoldsNumber n t

  number_unique : (x y : ℤ) (s : S) → HoldsNumber x s → HoldsNumber y s → x ≡ y
  number_unique x y s (v, index, there, read) (w, index', there', read') =
      let one : (v, index) ≡ (w, index') =
        some-injective (v, index) (w, index') (sym there ∙ there') in
      some-injective x y (sym read ∙ ap etcd.atoi (ap (λ p. p.0) one) ∙ read')

  module _ (laws : EtcdLaws S etcd) where
    swapped_holds :
        (now t : S) (index : ℕ) (z : ℤ)
        → etcd.set_at key (etcd.sprint (increment z)) index now ≡ some t
        → HoldsNumber (increment z) t
    swapped_holds now t index z swapped =
        let (new_index, put) =
          laws.swap_writes key (etcd.sprint (increment z)) index now t swapped in
        (etcd.sprint (increment z), new_index, put, laws.atoi_sprint (increment z))

    after_set-Comes :
        (delivery : Delivery) (now : S) (z : ℤ) (set : Option S)
        → ((t : S) → set ≡ some t → HoldsNumber z now × HoldsNumber (increment z) t)
        → Comes now (after_set delivery (increment z) now set)
    after_set-Comes request_lost now z set h = inl refl
    after_set-Comes answer_lost now z none h = inl refl
    after_set-Comes answer_lost now z (some t) h = let (old, new) = h t refl in inr (z, old, new)
    after_set-Comes answered now z none h = inl refl
    after_set-Comes answered now z (some t) h = let (old, new) = h t refl in (z, old, refl, new)

    -- A round that changes the key adds 1 to the number that the key holds when the write comes to it, and
    -- returns no other number.
    attempt-Comes :
        (seen now : S) (delivery : Delivery)
        → SameVersions seen now
        → Comes now (attempt S etcd key (seen, now, delivery))
    attempt-Comes seen now delivery same = elim (Option-cases (etcd.get key seen)) [
      | inl e ↦ subst (Comes now) (sym (attempt_missing seen now delivery e)) tt
      | inr ((value, index), e) ↦ elim (Option-cases (etcd.atoi value)) [
        | inl h ↦ subst (Comes now) (sym (attempt_malformed seen now delivery value index e h)) tt
        | inr (z, h) ↦
            subst (Comes now) (sym (attempt_writes seen now delivery value index z e h)) (
              after_set-Comes delivery now z _ (λ t swapped.
                let (old, there) =
                  laws.swap_checks key (etcd.sprint (increment z)) index now t swapped in
                (
                  (old, index, there, ap etcd.atoi (sym (same value old index e there)) ∙ h),
                  swapped_holds now t index z swapped,
                )))
      ]
    ]

    -- The numbers rise from `m` on and stay up to `last`.
    abbrev pub Rises : ℕ → List ℤ → ℕ → Type 0
    Rises m [] last = m ≤ last
    Rises m (n ∷ ns) last = (i : ℕ) × (n ≡ pos i) × (m < i) × Rises i ns last

    start_lower : (l m : ℕ) (ns : List ℤ) (last : ℕ) → l ≤ m → Rises m ns last → Rises l ns last
    start_lower l m [] last h r = omega (arith, h, r)
    start_lower l m (n ∷ ns) last h (i, number, more, r) = (i, number, omega (arith, h, more), r)

    -- The next number of a key with room.
    next_number :
        (m : ℕ) (z : ℤ) (s : S)
        → HoldsNumber (pos m) s
        → HasRoom s
        → HoldsNumber z s
        → increment z ≡ pos (m + 1)
    next_number m z s holds (i, there, small) old =
        let same : pos i ≡ pos m = number_unique (pos i) (pos m) s there holds in
        ap increment (number_unique z (pos m) s old holds)
        ∙ increment_small m (omega (arith, small, ap pos_part same))

    -- A counter that starts at `m` hands out numbers that rise from `m` on, each higher than all
    -- before over all servers together, also when other clients raise the key, when a swap fails, and
    -- when a swap is made but its answer is lost. The key ends with no less than the last of them, and
    -- with no more than `m`, one for each of them, what the others raised it by, and one for each swap
    -- that failed and may have been made. No other client may lower or delete the key, and it is below
    -- 2 ^ 63 - 1 when a swap is tried that may be made.
    pub counter_never_repeats :
        {s t : S} {ns : List ℤ} {skipped : ℕ} (m : ℕ)
        → History s ns skipped t
        → HoldsNumber (pos m) s
        → (last : ℕ) × HoldsNumber (pos last) t × Rises m ns last × (last ≤ m + length ns + skipped)
    counter_never_repeats m finished holds = (m, holds, omega arith, omega arith)
    counter_never_repeats m (raised {s} {t} {u} {ns} {k} i d old new h) holds =
        let same : i ≡ m = ap pos_part (number_unique (pos i) (pos m) s old holds) in
        let (last, final, r, bound) = counter_never_repeats (i + d) h new in
        (
          last,
          final,
          start_lower m (i + d) ns last (omega (arith, same)) r,
          omega (arith, same, bound),
        )
    counter_never_repeats m (refused seen delivery done h) holds = counter_never_repeats m h holds
    counter_never_repeats m (failed {s} {t} {u} {ns} {k} seen delivery room same done h) holds =
        elim (subst (Comes s) done (attempt-Comes seen s delivery same)) [
          | inl unchanged ↦
              let (last, final, r, bound) =
                counter_never_repeats m h (subst (HoldsNumber (pos m)) (sym unchanged) holds) in
              (last, final, r, omega (arith, bound))
          | inr (z, old, new) ↦
              let (last, final, r, bound) =
                counter_never_repeats (m + 1) h
                  (subst (λ x. HoldsNumber x t) (next_number m z s holds room old) new) in
              (last, final, start_lower m (m + 1) ns last (omega arith) r, omega (arith, bound))
        ]
    counter_never_repeats m (counted {s} {t} {u} {n} {ns} {k} seen delivery room same done h)
          holds =
        let (z, old, number, new) = subst (Comes s) done (attempt-Comes seen s delivery same) in
        let next_one : n ≡ pos (m + 1) = number ∙ next_number m z s holds room old in
        let (last, final, r, bound) =
          counter_never_repeats (m + 1) h (subst (λ x. HoldsNumber x t) next_one new) in
        (last, final, (m + 1, next_one, omega arith, r), omega (arith, bound))

    abbrev AllSameVersions : List (S × S × Delivery) → Type 0
    AllSameVersions [] = Unit
    AllSameVersions ((seen, now, delivery) ∷ views) = SameVersions seen now × AllSameVersions views

    no_round : {n : ℤ} {t : S} → next S etcd key [] ≡ some (returned n t) → ⊥
    unfolding next
    no_round done = ground arith

    next_step :
        (seen now : S) (delivery : Delivery) (views : List (S × S × Delivery))
        → next S etcd key ((seen, now, delivery) ∷ views)
          ≡ or_again S etcd (attempt S etcd key (seen, now, delivery)) (next S etcd key views)
    unfolding next
    next_step seen now delivery views = refl

    split_round :
        (o : Outcome S) (again : Option (Outcome S)) (n : ℤ) (t : S)
        → or_again S etcd o again ≡ some (returned n t)
        → (o ≡ returned n t) ⊎ (again ≡ some (returned n t))
    split_round (swap_failed s) again n t e = inr e
    split_round key_not_exists again n t e = inl (some-injective _ _ e)
    split_round malformed_value again n t e = inl (some-injective _ _ e)
    split_round (returned m s) again n t e = inl (some-injective _ _ e)

    -- `Next` returns from one of its rounds, which adds 1 to the number that the key holds at its write.
    pub next_increments :
        (views : List (S × S × Delivery)) (t : S) (n : ℤ)
        → AllSameVersions views
        → next S etcd key views ≡ some (returned n t)
        → (round : ℕ) × (seen : S) × (now : S) × (delivery : Delivery) × (z : ℤ) × (get_elem? views
              round
            ≡ some (seen, now, delivery))
          × HoldsNumber z now
          × (n ≡ increment z)
          × HoldsNumber n t
    next_increments [] t n same done = absurd (no_round done)
    next_increments ((seen, now, delivery) ∷ views) t n (same, rest) done =
        elim (split_round (attempt S etcd key (seen, now, delivery)) (next S etcd key views) n t
          (sym (next_step seen now delivery views) ∙ done)) [
            | inl now_done ↦
                let (z, holds, number, after) =
                  subst (Comes now) now_done (attempt-Comes seen now delivery same) in
                (0, seen, now, delivery, z, refl, holds, number, after)
            | inr again ↦
                let (round, seen', now', delivery', z, there, holds, number, after) =
                  next_increments views t n rest again in
                (suc round, seen', now', delivery', z, there, holds, number, after)
          ]
