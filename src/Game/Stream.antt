-- ===== src/Game/Stream.antt =====
-- FKServer_Game/Logic/Registry.go, Msg/Msg_A2G_Handle.go and `Stream` of Framework/Service.go, for one
-- stream and for all streams with the registry that they share. The metadata of a stream, the frames that
-- come in and whether each send succeeds are given as data. A queue in the registry is named by a number.
use fkgo_server.Base.{
  ℕ, ◌^◌, ◌⊎◌, inl, inr, Bool, Option, none, some, List, [], ◌∷◌, length, if◌then◌else◌,
}
use fkgo_server.Base.Int.{ℤ, pos, eqb_ℤ, signed32, unsigned}
use fkgo_server.Base.Map.{GoMap, int_eq, nat_eq, lookup, put, remove}
use fkgo_server.Packet.{Error, Packet, reader, read_s16}
use fkgo_server.Packet.Float.{Floats}
use fkgo_server.Packet.Pack.{fast, pack}
use fkgo_server.Messages.{AutoId, pkt_auto_id, pack_auto_id}
use fkgo_server.Messages.Codes.{code, proto_ping_ack}

-- `Registry`: queues by user.
abbrev pub Registry : Type 0
Registry = GoMap ℤ ℕ

unfoldable pub register : Registry → ℤ → ℕ → Registry
register r id v = put id v r

unfoldable pub unregister : Registry → ℤ → Registry
unregister r id = remove id r

unfoldable pub query : Registry → ℤ → Option ℕ
query r id = lookup id r

unfoldable pub count : Registry → ℕ
count r = length r

-- How a stream ends: with nil, with an error of its own, with the error of a read or a send, or by a
-- panic that is recovered.
pub data End : Type 0 where
  done : End
  incorrect_frame_type : End
  service_not_bind : End
  failed : End
  panicked : End

-- What the loop takes: a frame of the agent by its type, or a frame of another user's stream. The
-- Boolean is whether the send that it causes succeeds.
pub data Event : Type 0 where
  message : List ℕ → Bool → Event
  ping : List ℕ → Bool → Event
  unknown : Event
  from_queue : List ℕ → Bool → Event

-- A frame that is sent.
pub data Frame : Type 0 where
  message_frame : List ℕ → Frame
  ping_frame : List ℕ → Frame
  queue_frame : List ℕ → Frame

-- The registry and the streams that run, each with its user. A stream is named by the number of its queue.
pub record Server : Type 0 where
  pub registry : Registry
  pub streams : GoMap ℕ ℤ

-- What happens next: a stream is opened, with the number in its metadata if there is one, the loop of a
-- stream takes a frame, or the agent closes a stream.
pub data Action : Type 0 where
  opened : ℕ → Option ℤ → Action
  received : ℕ → Event → Action
  agent_closed : ℕ → Action

-- `int32(userid)`
abbrev pub to_user_id : ℤ → ℤ
to_user_id number = signed32 (unsigned (2 ^ 32) number)

module _ (m : Floats) where
  -- The rest of `P_proto_ping_req` behind its reader; `none` is a panic.
  unfoldable pub ping_reply : Option (AutoId × Packet) → Option (List ℕ)
  ping_reply none = none
  ping_reply (some (tbl, _)) = some (pack m (code proto_ping_ack) (fast (pack_auto_id tbl)) none)

  unfoldable pub proto_ping_req : Packet → Option (List ℕ)
  proto_ping_req r = ping_reply (pkt_auto_id r)

  -- One round: the frame that is sent, if there is one, or how the stream ends.
  abbrev sent_if : Bool → Frame → Frame ⊎ End
  sent_if ok frame = if ok then inl frame else inr failed

  unfoldable pub answer : Bool → Option (List ℕ) → Frame ⊎ End
  answer ok none = inr panicked
  answer ok (some ret) = sent_if ok (message_frame ret)

  -- A message by its number. `Handlers` holds 1001 alone, and its handler leaves the session's flag at
  -- zero, so that the frame for a kick is never sent.
  unfoldable pub handle : Bool → ℤ × Option Error × Packet → Frame ⊎ End
  handle ok (c, some err, r) = inr failed
  handle ok (c, none, r) =
      if eqb_ℤ c (pos 1001) then answer ok (proto_ping_req r) else inr service_not_bind

  unfoldable pub on_event : Event → Frame ⊎ End
  on_event (message bytes ok) = handle ok (read_s16 (reader bytes))
  on_event (ping bytes ok) = sent_if ok (ping_frame bytes)
  on_event unknown = inr incorrect_frame_type
  on_event (from_queue bytes ok) = sent_if ok (queue_frame bytes)

  unfoldable pub after_event : (List Frame × End) → Frame ⊎ End → List Frame × End
  after_event later (inl frame) = (frame ∷ later.0, later.1)
  after_event later (inr end) = ([], end)

  -- The loop until it ends or the agent closes.
  unfoldable pub run : List Event → List Frame × End
  run [] = ([], done)
  run (e ∷ es) = after_event (run es) (on_event e)

  -- One of the streams ends, for whatever reason: the deferred call takes its user out.
  unfoldable pub close : ℕ → ℤ → Server → Server
  close n user_id sv = record {
    registry = unregister sv.registry user_id;
    streams = remove n sv.streams;
  }

  -- `Stream` up to its loop. Where the metadata holds no number the deferred call takes user 0 out.
  unfoldable pub open_stream : ℕ → Option ℤ → Server → Server
  open_stream n none sv = record sv { registry = unregister sv.registry (pos 0) }
  open_stream n (some number) sv = record {
    registry = register sv.registry (to_user_id number) n;
    streams = put n (to_user_id number) sv.streams;
  }

  -- A round of the loop of one stream.
  unfoldable pub after_frame : ℕ → ℤ → Server → Frame ⊎ End → Server
  after_frame n user_id sv (inl frame) = sv
  after_frame n user_id sv (inr end) = close n user_id sv

  -- The streams run at once and share the registry. A stream that is not there does nothing.
  unfoldable pub step : Server → Action → Server
  step sv (opened n metadata) = open_stream n metadata sv
  step sv (received n event) = elim (lookup n sv.streams) [
    | none ↦ sv
    | some user_id ↦ after_frame n user_id sv (on_event event)
  ]
  step sv (agent_closed n) = elim (lookup n sv.streams) [
    | none ↦ sv
    | some user_id ↦ close n user_id sv
  ]

  unfoldable pub steps : Server → List Action → Server
  steps sv [] = sv
  steps sv (a ∷ actions) = steps (step sv a) actions
