-- ===== src/Game/Tests.antt =====
-- Two users and a ping.
use fkgo_server.Base.{
  ℕ, ◌≡◌, refl, ap, ◌≢◌, ◌↔◌, inl, inr, true, false, none, some, List, [], ◌∷◌, arith,
}
use fkgo_server.Base.Int.{pos, negsuc, pos_part}
use fkgo_server.Base.Map.{int_eq, nat_eq, lookup, put, remove}
use fkgo_server.Packet.Float.{Floats}
use fkgo_server.Packet.Pack.{fast, pack}
use fkgo_server.Messages.{pack_auto_id}
use fkgo_server.Messages.Codes.{code, proto_ping_req, proto_ping_ack}
use fkgo_server.Game.Stream.{
  query, message, ping, unknown, incorrect_frame_type, message_frame, on_event, Server, Action,
  opened, received, agent_closed, step, open_stream, close, after_frame, steps,
}
use fkgo_server.Game.Online.{AllApart, registry_tracks_streams, ping_answered}

-- Only zero as a float.
abbrev zero_float : Floats
zero_float = record {
  Float32 = Unit;
  Float64 = Unit;
  bits32 = λ f. 0;
  bits64 = λ f. 0;
  from_bits32 = λ n. tt;
  from_bits64 = λ n. tt;
  zero32 = tt;
  zero64 = tt;
  is_nan32 = λ f. false;
  is_nan64 = λ f. false;
  is_inf32 = λ f. false;
  is_inf64 = λ f. false;
  bits32-lt = λ f. omega arith;
  bits64-lt = λ f. omega arith;
  from_bits32-bits32 = λ f. refl;
  from_bits64-bits64 = λ f. refl;
}

two_apart : pos 2 ≢ pos 1
two_apart = λ e. absurd (omega (arith, ap pos_part e))

none_of_1 : (k : ℕ) → lookup k ((11, pos 2) ∷ (12, pos 2) ∷ []) ≢ some (pos 1)
unfolding lookup
none_of_1 k e = absurd (ground (arith, e))

-- Streams of the users 1 and 2. The second stream of user 2 overlaps its first, the agent closes the stream
-- of user 1, and user 1 comes back on stream 13, whose ping goes through.
abbrev visits : List Action
visits =
    opened 10 (some (pos 1))
    ∷ opened 11 (some (pos 2))
    ∷ opened 12 (some (pos 2))
    ∷ agent_closed 10
    ∷ opened 13 (some (pos 1))
    ∷ received 13 (ping (5 ∷ []) true)
    ∷ received 11 unknown
    ∷ []

abbrev nobody : Server
nobody = record { registry = []; streams = [] }

visits-Apart : AllApart zero_float (pos 1) nobody visits
unfolding step open_stream close after_frame on_event lookup put remove
visits-Apart = (
  (refl, inr (λ k e. absurd (ground (arith, e)))),
  ((refl, inl two_apart), ((refl, inl two_apart), (tt, ((refl, inr none_of_1), (tt, (tt, tt)))))),
)

unknown_ends : on_event zero_float unknown ≡ inr incorrect_frame_type
unfolding on_event
unknown_ends = refl

registry_tracks_streams_example :
    let sv = steps zero_float nobody visits in
    ((query sv.registry (pos 1) ≡ some 13) ↔ (lookup 13 sv.streams ≡ some (pos 1)))
    × (lookup 13 (step zero_float sv (received 13 unknown)).streams ≡ none)
    × (lookup 13 (step zero_float sv (agent_closed 13)).streams ≡ none)
registry_tracks_streams_example =
    registry_tracks_streams zero_float (pos 1) visits 13 unknown incorrect_frame_type visits-Apart
      unknown_ends

ping_answered_run :
    on_event zero_float (
      message
        (pack zero_float
          (code proto_ping_req)
          (fast (pack_auto_id (record { id = negsuc 8 })))
          none)
        true)
    ≡ inl (
        message_frame (
          pack zero_float
            (code proto_ping_ack)
            (fast (pack_auto_id (record { id = negsuc 8 })))
            none))
ping_answered_run = ping_answered zero_float (record { id = negsuc 8 }) (omega arith)
