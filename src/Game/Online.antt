-- ===== src/Game/Online.antt =====
-- Who is online while streams come and go, and the answer to a ping message.
use fkgo_server.Base.{
  ℕ, ◌^◌, ◌≡◌, ap, ◌∙◌, ◌≢◌, ◌↔◌, inl, inr, true, none, some, List, [], ◌∷◌, arith, Option-cases,
}
use fkgo_server.Base.Int.{ℤ, pos}
use fkgo_server.Base.Map.{int_eq, nat_eq, lookup, lookup-remove_self, lookup-remove_ne}
use fkgo_server.Packet.RoundTrip.{InRange}
use fkgo_server.Packet.Float.{Floats}
use fkgo_server.Packet.Pack.{fast, pack}
use fkgo_server.Messages.{AutoId, pkt_auto_id, pack_auto_id}
use fkgo_server.Messages.Codes.{code, proto_ping_req, proto_ping_ack}
use fkgo_server.Messages.RoundTrip.{Parses, small_messages_RoundTrip}
use fkgo_server.Messages.Wire.{packed_message-Parses}
use fkgo_server.Game.Stream.{
  unregister, query, Server, Action, received, agent_closed, close, after_frame, step, steps, Event,
  message, End, message_frame, ping_reply, answer, handle, on_event,
}
use fkgo_server.Game.Stream
use fkgo_server.Game.Tracks.{Tracks, Apart, empty-Tracks, step-Tracks}

module _ (m : Floats) where
  -- All of the actions keep the user's streams apart, each in its state.
  abbrev pub AllApart : ℤ → Server → List Action → Type 0
  AllApart user_id sv [] = Unit
  AllApart user_id sv (a ∷ actions) = Apart user_id sv a × AllApart user_id (step m sv a) actions

  steps-Tracks :
      (user_id : ℤ) (sv : Server) (actions : List Action)
      → AllApart user_id sv actions
      → Tracks user_id sv
      → Tracks user_id (steps m sv actions)
  unfolding steps
  steps-Tracks user_id sv [] apart t = t
  steps-Tracks user_id sv (a ∷ actions) (first, rest) t =
      steps-Tracks user_id (step m sv a) actions rest (step-Tracks m user_id sv a first t)

  close_ends : (n : ℕ) (v : ℤ) (sv : Server) → lookup n (close m n v sv).streams ≡ none
  unfolding close
  close_ends n v sv = lookup-remove_self n sv.streams

  frame_ends :
      (n : ℕ) (e : Event) (end : End) (sv : Server)
      → on_event m e ≡ inr end
      → lookup n (step m sv (received n e)).streams ≡ none
  unfolding step after_frame
  frame_ends n e end sv ended = elim (Option-cases (lookup n sv.streams)) [
    | inl there ↦ rw (step, there) there
    | inr (v, there) ↦ rw (step, there, ended) (close_ends n v sv)
  ]

  agent_ends : (n : ℕ) (sv : Server) → lookup n (step m sv (agent_closed n)).streams ≡ none
  unfolding step
  agent_ends n sv = elim (Option-cases (lookup n sv.streams)) [
    | inl there ↦ rw (step, there) there
    | inr (v, there) ↦ rw (step, there) (close_ends n v sv)
  ]

  -- The streams of all users open, take frames and end in any order. From a server with no stream on,
  -- the registry finds a queue for a user just when it is the queue of a stream of the user that runs
  -- then, where the user has at most one stream at a time and each stream a queue of its own, and,
  -- for user 0, every stream brings a number; streams of other users may overlap. A stream runs no
  -- more behind a frame that ends its loop, and when the agent closes it.
  pub registry_tracks_streams :
      (user_id : ℤ) (actions : List Action) (n : ℕ) (e : Event) (end : End)
      → AllApart user_id (record { registry = []; streams = [] }) actions
      → on_event m e ≡ inr end
      → let sv = steps m (record { registry = []; streams = [] }) actions in
        ((query sv.registry user_id ≡ some n) ↔ (lookup n sv.streams ≡ some user_id))
        × (lookup n (step m sv (received n e)).streams ≡ none)
        × (lookup n (step m sv (agent_closed n)).streams ≡ none)
  registry_tracks_streams user_id actions n e end apart ended =
      let sv = steps m (record { registry = []; streams = [] }) actions in
      let t =
        steps-Tracks user_id (record { registry = []; streams = [] }) actions apart
          (empty-Tracks user_id) in
      ((t.sound n, t.complete n), frame_ends n e end sv ended, agent_ends n sv)

  -- Two streams of one user run and the first ends: the second still runs, but the registry does not find
  -- the user.
  first_end_hides_second :
      (user_id : ℤ) (first second : ℕ) (sv : Server)
      → first ≢ second
      → lookup first sv.streams ≡ some user_id
      → lookup second sv.streams ≡ some user_id
      → let sv' = step m sv (agent_closed first) in
        (lookup second sv'.streams ≡ some user_id) × (query sv'.registry user_id ≡ none)
  unfolding step close query unregister
  first_end_hides_second user_id first second sv apart runs runs_too =
      rw (step, runs)
        (
          lookup-remove_ne first second sv.streams apart ∙ runs_too,
          lookup-remove_self user_id sv.registry,
        )

  auto_id-Parses : (v : AutoId) → InRange (2 ^ 31) v.id → Parses pkt_auto_id (pack_auto_id v) v
  auto_id-Parses v h =
      (small_messages_RoundTrip v (record { code = pos 0; msg = [] })
        (record { client_send_seed = pos 0; client_receive_seed = pos 0 }) (record { uid = pos 0 })
        h (omega arith) (omega arith) (omega arith) (omega arith) (omega arith)).0

  -- A ping message, as a client packs it with a number that is an `int32`, is answered with the ping
  -- acknowledgement that carries the same number, where the send succeeds.
  pub ping_answered :
      (v : AutoId)
      → InRange (2 ^ 31) v.id
      → on_event m (message (pack m (code proto_ping_req) (fast (pack_auto_id v)) none) true)
        ≡ inl (message_frame (pack m (code proto_ping_ack) (fast (pack_auto_id v)) none))
  unfolding on_event handle answer ping_reply code Stream.proto_ping_req
  ping_answered v h =
      let (behind, _, number, parsed, _) =
        packed_message-Parses m (pos 1001) pkt_auto_id (pack_auto_id v) v (omega arith)
          (auto_id-Parses v h) in
      ap (handle m true) number ∙ ap (λ t. answer m true (ping_reply m t)) parsed
