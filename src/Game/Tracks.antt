-- ===== src/Game/Tracks.antt =====
-- What the registry of the game server finds while the streams of one user stay apart.
use fkgo_server.Base.{
  ℕ, ◌≡◌, sym, ap, ◌∙◌, ◌≢◌, ◌⊎◌, inl, inr, Option, none, some, [], arith, ℕ_discrete, Bool-cases,
  Option-cases,
}
use fkgo_server.Base.Int.{ℤ, pos, eqb_ℤ, eqb_ℤ→eq}
use mathlib.Core.Option.{some-injective}
use fkgo_server.Base.Map.{
  GoMap, int_eq, nat_eq, lookup, put, remove, lookup-put_self, lookup-put_ne, lookup-remove_self,
  lookup-remove_ne,
}
use fkgo_server.Packet.Float.{Floats}
use fkgo_server.Game.Stream.{
  register, unregister, query, Server, Action, opened, received, agent_closed, close, open_stream,
  after_frame, step, to_user_id, Frame, End, on_event,
}

-- What a map finds behind a write and behind a deletion.
put_found :
    (n k : ℕ) (v u : ℤ) (streams : GoMap ℕ ℤ)
    → lookup k (put n v streams) ≡ some u
    → ((n ≡ k) × (v ≡ u)) ⊎ (lookup k streams ≡ some u)
put_found n k v u streams found = elim (ℕ_discrete n k) [
  | yes same ↦
      let there : lookup k (put n v streams) ≡ some v =
        ap (λ i. lookup i (put n v streams)) (sym same) ∙ lookup-put_self n v streams in
      inl (same, some-injective v u (sym there ∙ found))
  | no apart ↦ inr (sym (lookup-put_ne n k v streams apart) ∙ found)
]

remove_found :
    (n k : ℕ) (u : ℤ) (streams : GoMap ℕ ℤ)
    → lookup k (remove n streams) ≡ some u
    → (n ≢ k) × (lookup k streams ≡ some u)
remove_found n k u streams found =
    let apart : n ≢ k = λ same.
      let gone : lookup k (remove n streams) ≡ none =
        ap (λ i. lookup i (remove n streams)) (sym same) ∙ lookup-remove_self n streams in
      absurd (ground (arith, gone, found)) in
    (apart, sym (lookup-remove_ne n k streams apart) ∙ found)

same_or_not : (a b : ℤ) → (a ≡ b) ⊎ (a ≢ b)
same_or_not a b = elim (Bool-cases (eqb_ℤ a b)) [
  | inl e ↦ inl (eqb_ℤ→eq a b e)
  | inr e ↦ inr (λ same. absurd (ground (arith, same, e)))
]

-- The registry finds the queue of the user's stream that runs, and none where no stream of the user runs.
pub record Tracks (user_id : ℤ) (sv : Server) : Type 0 where
  pub sound : (n : ℕ) → query sv.registry user_id ≡ some n → lookup n sv.streams ≡ some user_id
  pub complete : (n : ℕ) → lookup n sv.streams ≡ some user_id → query sv.registry user_id ≡ some n

-- A new stream has a new queue, and is not a second one of the user; where it brings no number the user
-- is not 0.
abbrev pub Apart : ℤ → Server → Action → Type 0
Apart user_id sv (opened n none) = pos 0 ≢ user_id
Apart user_id sv (opened n (some number)) =
    (lookup n sv.streams ≡ none)
    × ((to_user_id number ≢ user_id) ⊎ ((k : ℕ) → lookup k sv.streams ≢ some user_id))
Apart user_id sv (received n event) = Unit
Apart user_id sv (agent_closed n) = Unit

pub empty-Tracks : (user_id : ℤ) → Tracks user_id (record { registry = []; streams = [] })
unfolding query lookup
empty-Tracks user_id = record {
  sound = λ n found. absurd (ground (arith, found));
  complete = λ n found. absurd (ground (arith, found));
}

module _ (m : Floats) where
  first_stream-Tracks :
      (user_id : ℤ) (n : ℕ) (v : ℤ) (sv : Server)
      → v ≡ user_id
      → ((k : ℕ) → lookup k sv.streams ≢ some user_id)
      → Tracks user_id (record { registry = put v n sv.registry; streams = put n v sv.streams })
  unfolding query
  first_stream-Tracks user_id n v sv e offline =
      let found_new : lookup user_id (put v n sv.registry) ≡ some n =
        ap (λ i. lookup i (put v n sv.registry)) (sym e) ∙ lookup-put_self v n sv.registry in
      record {
        sound = λ k found.
            let same : n ≡ k = some-injective n k (sym found_new ∙ found) in
            ap (λ i. lookup i (put n v sv.streams)) (sym same)
            ∙ lookup-put_self n v sv.streams
            ∙ ap some e;
        complete = λ k found. elim (put_found n k v user_id sv.streams found) [
          | inl (same, _) ↦ found_new ∙ ap some same
          | inr live ↦ absurd (offline k live)
        ];
      }

  other_stream-Tracks :
      (user_id : ℤ) (n : ℕ) (v : ℤ) (sv : Server)
      → lookup n sv.streams ≡ none
      → v ≢ user_id
      → Tracks user_id sv
      → Tracks user_id (record { registry = put v n sv.registry; streams = put n v sv.streams })
  unfolding query
  other_stream-Tracks user_id n v sv fresh other t =
      let same = lookup-put_ne v user_id n sv.registry other in
      record {
        sound = λ k found.
            let live = t.sound k (sym same ∙ found) in
            let apart : n ≢ k =
              λ e. absurd (ground (arith, ap (λ i. lookup i sv.streams) e, fresh, live)) in
            lookup-put_ne n k v sv.streams apart ∙ live;
        complete = λ k found. elim (put_found n k v user_id sv.streams found) [
          | inl (_, e) ↦ absurd (other e)
          | inr live ↦ same ∙ t.complete k live
        ];
      }

  open_stream-Tracks :
      (user_id : ℤ) (n : ℕ) (metadata : Option ℤ) (sv : Server)
      → Apart user_id sv (opened n metadata)
      → Tracks user_id sv
      → Tracks user_id (open_stream m n metadata sv)
  unfolding open_stream query register unregister
  open_stream-Tracks user_id n none sv apart t =
      let same = lookup-remove_ne (pos 0) user_id sv.registry apart in
      record {
        sound = λ k found. t.sound k (sym same ∙ found);
        complete = λ k live. same ∙ t.complete k live;
      }
  open_stream-Tracks user_id n (some number) sv (fresh, inl other) t =
      other_stream-Tracks user_id n (to_user_id number) sv fresh other t
  open_stream-Tracks user_id n (some number) sv (fresh, inr offline) t =
      elim (same_or_not (to_user_id number) user_id) [
        | inr other ↦ other_stream-Tracks user_id n (to_user_id number) sv fresh other t
        | inl e ↦ first_stream-Tracks user_id n (to_user_id number) sv e offline
      ]

  close-Tracks :
      (user_id : ℤ) (n : ℕ) (v : ℤ) (sv : Server)
      → lookup n sv.streams ≡ some v
      → Tracks user_id sv
      → Tracks user_id (close m n v sv)
  unfolding close query unregister
  close-Tracks user_id n v sv there t = elim (same_or_not v user_id) [
    | inr other ↦
        let same = lookup-remove_ne v user_id sv.registry other in
        record {
          sound = λ k found.
              let live = t.sound k (sym same ∙ found) in
              let apart : n ≢ k = λ e.
                other
                  (some-injective v user_id (sym there ∙ ap (λ i. lookup i sv.streams) e ∙ live)) in
              lookup-remove_ne n k sv.streams apart ∙ live;
          complete = λ k found. same ∙ t.complete k (remove_found n k user_id sv.streams found).1;
        }
    | inl e ↦
        let gone : lookup user_id (remove v sv.registry) ≡ none =
          ap (λ i. lookup i (remove v sv.registry)) (sym e) ∙ lookup-remove_self v sv.registry in
        let first = t.complete n (there ∙ ap some e) in
        record {
          sound = λ k found. absurd (ground (arith, gone, found));
          complete = λ k found.
              let (apart, live) = remove_found n k user_id sv.streams found in
              absurd (apart (some-injective n k (sym first ∙ t.complete k live)));
        }
  ]

  after_frame-Tracks :
      (user_id : ℤ) (n : ℕ) (v : ℤ) (sv : Server) (result : Frame ⊎ End)
      → lookup n sv.streams ≡ some v
      → Tracks user_id sv
      → Tracks user_id (after_frame m n v sv result)
  unfolding after_frame
  after_frame-Tracks user_id n v sv (inl frame) there t = t
  after_frame-Tracks user_id n v sv (inr end) there t = close-Tracks user_id n v sv there t

  pub step-Tracks :
      (user_id : ℤ) (sv : Server) (a : Action)
      → Apart user_id sv a
      → Tracks user_id sv
      → Tracks user_id (step m sv a)
  unfolding step
  step-Tracks user_id sv (opened n metadata) apart t =
      open_stream-Tracks user_id n metadata sv apart t
  step-Tracks user_id sv (received n event) apart t = elim (Option-cases (lookup n sv.streams)) [
    | inl e ↦ rw (step, e) t
    | inr (v, e) ↦ rw (step, e) (after_frame-Tracks user_id n v sv (on_event m event) e t)
  ]
  step-Tracks user_id sv (agent_closed n) apart t = elim (Option-cases (lookup n sv.streams)) [
    | inl e ↦ rw (step, e) t
    | inr (v, e) ↦ rw (step, e) (close-Tracks user_id n v sv e t)
  ]
