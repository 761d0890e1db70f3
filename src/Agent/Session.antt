-- ===== src/Agent/Session.antt =====
-- The operations on a session: FKServer_Agent/Session, Msg/Msg_C2A_Handle.go, Framework/UserMsgHandler.go,
-- Forward.go, TimerHandler.go, Buffer.go and ClientSessionHandler.go. The bits of `Flag` are Booleans. A
-- panic in a handler is recovered by `Func_PrintPanicStack`: the handler then returns nil.
use fkgo_server.Base.{
  ℕ, ◌+◌, ◌%◌, ◌^◌, Bool, true, false, ◌&&◌, Option, none, some, List, [], ◌∷◌, drop, ◌==◌,
  if◌then◌else◌,
}
use fkgo_server.Base.Int.{ℤ, pos, ltb_ℤ, eqb_ℤ, signed32, unsigned}
use fkgo_server.Packet.{Packet, Reading, reader, read_u32, read_s16}
use fkgo_server.Packet.Float.{Floats}
use fkgo_server.Packet.Pack.{fast, pack}
use fkgo_server.Messages.{
  AutoId, SeedInfo, pkt_auto_id, pack_auto_id, pkt_seed_info, pack_seed_info, pack_user_snapshot,
}
use fkgo_server.Messages.Codes.{code, heart_beat_ack, get_seed_ack, user_login_succeed_ack}

-- `crypto/rc4` and `math/big`: a cipher from a key, the stream with the cipher's next state, and
-- `Exp(x, y, m)` for y not negative. `show_key` is the key that `Sprintf` makes of the salt and a number.
pub record Crypto : Type 1 where
  pub Cipher : Type 0
  pub new_cipher : List ℕ → Option Cipher
  pub xor_key_stream : Cipher → List ℕ → List ℕ × Cipher
  pub exp : ℤ → ℕ → ℕ → ℤ
  pub show_key : ℤ → List ℕ

-- What the calls outside answer during one message: two random secrets, whether the game service is
-- found and its stream opens, and whether the stream takes a frame.
pub record Answers : Type 0 where
  pub secret1 : ℕ
  pub secret2 : ℕ
  pub found : Bool
  pub opens : Bool
  pub sends : Bool

module _ (m : Floats) (k : Crypto) where
  open k use {Cipher, new_cipher, xor_key_stream, exp, show_key}

  -- `sent` holds the frames that went to the game server, the last one first.
  pub record Session : Type 0 where
    pub encoder : Option Cipher
    pub decoder : Option Cipher
    pub user_id : ℤ
    pub stream : Bool
    pub sent : List (List ℕ)
    pub keyexcg : Bool
    pub encrypt : Bool
    pub kicked_out : Bool
    pub packet_count : ℕ

  -- `DHExchange` at a secret, and `DHKey`.
  unfoldable pub dh_exchange : ℕ → ℤ
  dh_exchange secret = exp (pos 3) secret 2147483587

  unfoldable pub dh_key : ℕ → ℤ → ℤ
  dh_key secret modpower = exp modpower secret 2147483587

  -- `int32(E.Int64())`
  abbrev to_seed : ℤ → ℤ
  to_seed e = signed32 (unsigned (2 ^ 32) e)

  -- A handler: the session, and the reply or nil.
  abbrev pub Handled : Type 0
  Handled = Session × Option (List ℕ)

  -- A handler behind its `PKT_` reader, which may panic.
  unfoldable pub heart_beat_reply : Session → Option (AutoId × Packet) → Handled
  heart_beat_reply s none = (s, none)
  heart_beat_reply s (some (tbl, _)) =
      (s, some (pack m (code heart_beat_ack) (fast (pack_auto_id tbl)) none))

  unfoldable pub heart_beat_req : Session → Packet → Handled
  heart_beat_req s r = heart_beat_reply s (pkt_auto_id r)

  -- The two ciphers, if both are made.
  unfoldable pub set_ciphers : Session → SeedInfo → Option Cipher → Option Cipher → Handled
  set_ciphers s ret none decoder = (s, none)
  set_ciphers s ret (some encoder) none = (s, none)
  set_ciphers s ret (some encoder) (some decoder) = (
    record s { encoder = some encoder; decoder = some decoder; keyexcg = true },
    some (pack m (code get_seed_ack) (fast (pack_seed_info ret)) none),
  )

  unfoldable pub get_seed_reply : Answers → Session → Option (SeedInfo × Packet) → Handled
  get_seed_reply w s none = (s, none)
  get_seed_reply w s (some (tbl, _)) =
      let key1 = dh_key w.secret1 tbl.client_send_seed in
      let key2 = dh_key w.secret2 tbl.client_receive_seed in
      let ret : SeedInfo = record {
        client_send_seed = to_seed (dh_exchange w.secret1);
        client_receive_seed = to_seed (dh_exchange w.secret2);
      } in
      set_ciphers s ret (new_cipher (show_key key2)) (new_cipher (show_key key1))

  unfoldable pub get_seed_req : Answers → Session → Packet → Handled
  get_seed_req w s r = get_seed_reply w s (pkt_seed_info r)

  unfoldable pub user_login_req : Answers → Session → Handled
  user_login_req w s =
      let named = record s { user_id = pos 1 } in
      if w.found && w.opens
      then (
        record named { stream = true },
        some (
            pack m (code user_login_succeed_ack)
              (fast (pack_user_snapshot (record { uid = pos 1 }))) none),
      )
      else (named, none)

  -- `func_ForwardMsgToGameServer`: whether it went well.
  unfoldable pub forward : Answers → Session → List ℕ → Session × Bool
  forward w s p = if s.stream && w.sends then (record s { sent = p ∷ s.sent }, true) else (s, false)

  abbrev pub kick : Session → Session
  kick s = record s { kicked_out = true }

  -- `sess.Decoder.XORKeyStream(p, p)`; a nil decoder panics.
  unfoldable pub decrypt_with : Session → Option Cipher → List ℕ → Option (Session × List ℕ)
  decrypt_with s none p = none
  decrypt_with s (some d) p =
      let (clear, d') = xor_key_stream d p in some (record s { decoder = some d' }, clear)

  unfoldable pub decrypt : Session → List ℕ → Option (Session × List ℕ)
  decrypt s p = if s.encrypt then decrypt_with s s.decoder p else some (s, p)

  abbrev forwarded : Session × Bool → Handled
  forwarded (s, ok) = if ok then (s, none) else (kick s, none)

  -- The choice by the message number `b`; the game server gets all behind the sequence number.
  unfoldable pub dispatch : Answers → Session → List ℕ → ℤ → Packet → Handled
  dispatch w s p b r =
      if ltb_ℤ (pos 1000) b
      then forwarded (forward w s (drop 4 p))
      else if eqb_ℤ b (pos 0)
      then heart_beat_req s r
      else if eqb_ℤ b (pos 10)
      then user_login_req w s
      else if eqb_ℤ b (pos 30)
      then get_seed_req w s r
      else (kick s, none)

  unfoldable pub read_number : Answers → Session → List ℕ → Reading ℤ → Handled
  read_number w s p (b, some err, r) = (kick s, none)
  read_number w s p (b, none, r) = dispatch w s p b r

  unfoldable pub check_sequence : Answers → Session → List ℕ → Reading ℕ → Handled
  check_sequence w s p (seq_id, some err, r) = (kick s, none)
  check_sequence w s p (seq_id, none, r) =
      if seq_id == s.packet_count then read_number w s p (read_s16 r) else (kick s, none)

  unfoldable pub handle_clear : Answers → Session → Option (Session × List ℕ) → Handled
  handle_clear w s none = (s, none)
  handle_clear w s (some (s', p)) = check_sequence w s' p (read_u32 (reader p))

  -- `func_UserMsgHandler`
  unfoldable pub user_msg_handler : Answers → Session → List ℕ → Handled
  user_msg_handler w s p = handle_clear w s (decrypt s p)

  -- `func_CreateAndSendMsgPacket`: the session and what goes to the send queue; `none` is a panic on a
  -- nil encoder.
  unfoldable pub encrypt_with :
      Session → Option Cipher → List ℕ → Option (Session × Option (List ℕ))
  encrypt_with s none message = none
  encrypt_with s (some e) message =
      let (secret, e') = xor_key_stream e message in
      some (record s { encoder = some e' }, some secret)

  unfoldable pub send_packet : Session → Option (List ℕ) → Option (Session × Option (List ℕ))
  send_packet s none = some (s, none)
  send_packet s (some message) =
      if s.encrypt
      then encrypt_with s s.encoder message
      else if s.keyexcg
      then some (record s { keyexcg = false; encrypt = true }, some message)
      else some (s, some message)

  -- What the loop of `func_ClientSessionHandler` takes: a message of the client, a frame of the game
  -- server (its message may be nil), the minute's timer with the verdict that the client sends too
  -- much, and the signal that the server closes.
  pub data Event : Type 0 where
    from_client : Answers → List ℕ → Event
    game_message : Option (List ℕ) → Event
    game_kick : Event
    other_frame : Event
    minute : Bool → Event
    die_sign : Event

  -- `func_OnTimer_OneMinute`
  unfoldable pub on_timer : Session → Bool → Session
  on_timer s too_fast = if too_fast then kick s else s

  abbrev count_packet : Session → Session
  count_packet s = record s { packet_count = (s.packet_count + 1) % 2 ^ 32 }

  abbrev reply : Handled → Option (Session × Option (List ℕ))
  reply (s, result) = send_packet s result

  -- One round of the loop before its test: the session and what is sent to the client.
  unfoldable pub on_event : Session → Event → Option (Session × Option (List ℕ))
  on_event s (from_client w p) = reply (user_msg_handler w (count_packet s) p)
  on_event s (game_message message) = send_packet s message
  on_event s game_kick = some (kick s, none)
  on_event s other_frame = some (s, none)
  on_event s (minute too_fast) = some (on_timer s too_fast, none)
  on_event s die_sign = some (kick s, none)

  -- How the handler ends: a panic, the flag `SESS_KICKED_OUT`, or the client's channel is closed.
  pub data End : Type 0 where
    panicked : End
    left : End
    closed : End

  -- `func_ClientSessionHandler` over its events: what is sent to the client, and how it ends.
  unfoldable pub after_event :
      (Session → List (List ℕ) × End) → Option (Session × Option (List ℕ)) → List (List ℕ) × End
  after_event go_on none = ([], panicked)
  after_event go_on (some (s, out)) =
      let (later, end) = if s.kicked_out then ([], left) else go_on s in
      (elim out [ none ↦ later | some bytes ↦ bytes ∷ later ], end)

  unfoldable pub handle_session : Session → List Event → List (List ℕ) × End
  handle_session s [] = ([], closed)
  handle_session s (e ∷ es) = after_event (λ s'. handle_session s' es) (on_event s e)
