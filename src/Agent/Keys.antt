-- ===== src/Agent/Keys.antt =====
-- Encryption: the flags never ask for a cipher that the session does not have, neither when a message is
-- decrypted (a panic there is recovered) nor when a packet is encrypted (a panic there ends the loop).
use fkgo_server.Base.{
  ℕ, ◌+◌, ◌%◌, ◌^◌, ◌≡◌, refl, subst, ◌≢◌, ◌⊎◌, inl, inr, Bool, true, false, Option, none, some,
  List, [], ◌∷◌, arith, if_both,
}
use fkgo_server.Base.Int.{ℤ}
use fkgo_server.Packet.{Packet, Reading, reader, read_u32, read_s16}
use fkgo_server.Packet.Float.{Floats}
use fkgo_server.Messages.{AutoId, SeedInfo, pkt_auto_id, pkt_seed_info}
use fkgo_server.Agent.Session.{
  Crypto, Answers, Session, heart_beat_req, heart_beat_reply, get_seed_reply, decrypt_with,
  encrypt_with, set_ciphers, get_seed_req, user_login_req, forward, decrypt, dispatch, read_number,
  check_sequence, handle_clear, user_msg_handler, send_packet, Event, from_client, game_message,
  game_kick, other_frame, minute, die_sign, on_timer, on_event, End, panicked, after_event,
  handle_session,
}

module _ (m : Floats) (k : Crypto) where
  open k use {Cipher, xor_key_stream}

  abbrev pub is_set : Option Cipher → Bool
  is_set none = false
  is_set (some c) = true

  -- No key exchange has begun, or both ciphers are there.
  abbrev pub HasKeys : Session m k → Type 0
  HasKeys s =
      ((s.keyexcg ≡ false) × (s.encrypt ≡ false))
      ⊎ ((is_set s.encoder ≡ true) × (is_set s.decoder ≡ true))

  set_ciphers-HasKeys :
      (s : Session m k) (ret : SeedInfo) (e d : Option Cipher)
      → HasKeys s
      → HasKeys (set_ciphers m k s ret e d).0
  unfolding set_ciphers
  set_ciphers-HasKeys s ret none d h = h
  set_ciphers-HasKeys s ret (some e) none h = h
  set_ciphers-HasKeys s ret (some e) (some d) h = inr (refl, refl)

  get_seed-HasKeys :
      (w : Answers) (s : Session m k) (tbl : Option (SeedInfo × Packet))
      → HasKeys s
      → HasKeys (get_seed_reply m k w s tbl).0
  unfolding get_seed_reply
  get_seed-HasKeys w s none h = h
  get_seed-HasKeys w s (some tbl) h = set_ciphers-HasKeys s _ _ _ h

  heart_beat-HasKeys :
      (s : Session m k) (tbl : Option (AutoId × Packet))
      → HasKeys s
      → HasKeys (heart_beat_reply m k s tbl).0
  unfolding heart_beat_reply
  heart_beat-HasKeys s none h = h
  heart_beat-HasKeys s (some tbl) h = h

  user_login_req-HasKeys :
      (w : Answers) (s : Session m k) → HasKeys s → HasKeys (user_login_req m k w s).0
  unfolding user_login_req
  user_login_req-HasKeys w s h = ground arith

  dispatch-HasKeys :
      (w : Answers) (s : Session m k) (p : List ℕ) (b : ℤ) (r : Packet)
      → HasKeys s
      → HasKeys (dispatch m k w s p b r).0
  unfolding dispatch forward heart_beat_req get_seed_req
  dispatch-HasKeys w s p b r h = ground (
    arith,
    heart_beat-HasKeys s (pkt_auto_id r) h,
    user_login_req-HasKeys w s h,
    get_seed-HasKeys w s (pkt_seed_info r) h,
  )

  read_number-HasKeys :
      (w : Answers) (s : Session m k) (p : List ℕ) (number : Reading ℤ)
      → HasKeys s
      → HasKeys (read_number m k w s p number).0
  unfolding read_number
  read_number-HasKeys w s p (b, some err, r) h = h
  read_number-HasKeys w s p (b, none, r) h = dispatch-HasKeys w s p b r h

  check_sequence-HasKeys :
      (w : Answers) (s : Session m k) (p : List ℕ) (number : Reading ℕ)
      → HasKeys s
      → HasKeys (check_sequence m k w s p number).0
  unfolding check_sequence
  check_sequence-HasKeys w s p (seq_id, some err, r) h = h
  check_sequence-HasKeys w s p (seq_id, none, r) h =
      ground (arith, read_number-HasKeys w s p (read_s16 r) h)

  abbrev Decrypted : Option (Session m k × List ℕ) → Type 0
  Decrypted none = ⊥
  Decrypted (some (s, p)) = HasKeys s

  decrypt_with-HasKeys :
      (s : Session m k) (d : Option Cipher) (p : List ℕ)
      → is_set s.encoder ≡ true
      → is_set d ≡ true
      → Decrypted (decrypt_with m k s d p)
  unfolding decrypt_with
  decrypt_with-HasKeys s none p e h = absurd (ground arith)
  decrypt_with-HasKeys s (some d) p e h = inr (e, refl)

  decrypt-HasKeys : (s : Session m k) (p : List ℕ) → HasKeys s → Decrypted (decrypt m k s p)
  unfolding decrypt
  decrypt-HasKeys s p (inl (a, b)) = rw b (inl (a, refl))
  decrypt-HasKeys s p (inr (a, b)) =
      if_both Decrypted s.encrypt _ (some (s, p)) (decrypt_with-HasKeys s s.decoder p a b)
        (inr (a, b))

  abbrev Safe : Option (Session m k × Option (List ℕ)) → Type 0
  Safe none = ⊥
  Safe (some (s, out)) = HasKeys s

  encrypt_with-Safe :
      (s : Session m k) (e : Option Cipher) (message : List ℕ)
      → is_set s.decoder ≡ true
      → is_set e ≡ true
      → Safe (encrypt_with m k s e message)
  unfolding encrypt_with
  encrypt_with-Safe s none message d h = absurd (ground arith)
  encrypt_with-Safe s (some e) message d h = inr (refl, d)

  send_packet-Safe :
      (s : Session m k) (message : Option (List ℕ)) → HasKeys s → Safe (send_packet m k s message)
  unfolding send_packet
  send_packet-Safe s none h = h
  send_packet-Safe s (some message) (inl (a, b)) = rw (b, a) (inl (refl, refl))
  send_packet-Safe s (some message) (inr (a, b)) =
      if_both Safe s.encrypt _ _ (encrypt_with-Safe s s.encoder message b a)
        (if_both Safe s.keyexcg _ (some (s, some message)) (inr (a, b)) (inr (a, b)))

  handle_clear-HasKeys :
      (w : Answers) (s : Session m k) (d : Option (Session m k × List ℕ))
      → Decrypted d
      → HasKeys (handle_clear m k w s d).0
  unfolding handle_clear
  handle_clear-HasKeys w s none h = absurd h
  handle_clear-HasKeys w s (some (s', p)) h = check_sequence-HasKeys w s' p (read_u32 (reader p)) h

  on_event-Safe : (s : Session m k) (e : Event m k) → HasKeys s → Safe (on_event m k s e)
  unfolding on_event on_timer user_msg_handler
  on_event-Safe s (from_client w p) h =
      let counted = record s { packet_count = (s.packet_count + 1) % 2 ^ 32 } in
      send_packet-Safe _ _
        (handle_clear-HasKeys w counted (decrypt m k counted p) (decrypt-HasKeys counted p h))
  on_event-Safe s (game_message message) h = send_packet-Safe s message h
  on_event-Safe s game_kick h = h
  on_event-Safe s other_frame h = h
  on_event-Safe s (minute too_fast) h = ground arith
  on_event-Safe s die_sign h = h

  after_event_ends :
      (go_on : Session m k → List (List ℕ) × End m k)
      (next : Option (Session m k × Option (List ℕ)))
      → Safe next
      → ((s : Session m k) → HasKeys s → (go_on s).1 ≢ panicked)
      → (after_event m k go_on next).1 ≢ panicked
  unfolding after_event
  after_event_ends go_on none h ih = absurd h
  after_event_ends go_on (some (s, out)) h ih = ground (arith, ih s h)

  abbrev Unless : Bool → Type 0 → Type 0
  Unless true P = Unit
  Unless false P = P

  unless : {P : Type 0} (b : Bool) → P → Unless b P
  unless true x = tt
  unless false x = x

  -- A message of the client is decrypted, where the session encrypts with a decoder that is there.
  abbrev pub Decrypts : Session m k → Event m k → Type 0
  Decrypts s (from_client w p) =
      decrypt m k (record s { packet_count = (s.packet_count + 1) % 2 ^ 32 }) p ≢ none
  Decrypts s (game_message message) = Unit
  Decrypts s game_kick = Unit
  Decrypts s other_frame = Unit
  Decrypts s (minute too_fast) = Unit
  Decrypts s die_sign = Unit

  -- A round did not panic, and the session goes on with `P` unless it is kicked out.
  abbrev pub GoesOn : (Session m k → Type 0) → Option (Session m k × Option (List ℕ)) → Type 0
  GoesOn P none = ⊥
  GoesOn P (some (s, out)) = Unless s.kicked_out (P s)

  -- Every message that the session comes to is decrypted, and no packet that it sends panics.
  abbrev pub AlwaysKeyed : Session m k → List (Event m k) → Type 0
  AlwaysKeyed s [] = Unit
  AlwaysKeyed s (e ∷ es) = Decrypts s e × GoesOn (λ s'. AlwaysKeyed s' es) (on_event m k s e)

  decrypts : (s : Session m k) (e : Event m k) → HasKeys s → Decrypts s e
  decrypts s (from_client w p) h =
      let counted = record s { packet_count = (s.packet_count + 1) % 2 ^ 32 } in
      λ panics. subst Decrypted panics (decrypt-HasKeys counted p h)
  decrypts s (game_message message) h = tt
  decrypts s game_kick h = tt
  decrypts s other_frame h = tt
  decrypts s (minute too_fast) h = tt
  decrypts s die_sign h = tt

  goes_on :
      (P : Session m k → Type 0) (next : Option (Session m k × Option (List ℕ)))
      → Safe next
      → ((s : Session m k) → HasKeys s → P s)
      → GoesOn P next
  goes_on P none h ih = absurd h
  goes_on P (some (s, out)) h ih = unless s.kicked_out (ih s h)

  always_keyed : (s : Session m k) (es : List (Event m k)) → HasKeys s → AlwaysKeyed s es
  always_keyed s [] h = tt
  always_keyed s (e ∷ es) h = (
    decrypts s e h,
    goes_on (λ s'. AlwaysKeyed s' es) (on_event m k s e) (on_event-Safe s e h)
        (λ s' h'. always_keyed s' es h'),
  )

  loop_ends :
      (s : Session m k) (es : List (Event m k)) → HasKeys s → (handle_session m k s es).1 ≢ panicked
  unfolding handle_session
  loop_ends s [] h = ground arith
  loop_ends s (e ∷ es) h =
      after_event_ends (λ s'. handle_session m k s' es) (on_event m k s e) (on_event-Safe s e h)
        (λ s' h'. loop_ends s' es h')

  -- A session that starts with no key exchange begun, or with both ciphers, never panics on a nil
  -- cipher, whatever its client, game server and timer send: until it is kicked out every message
  -- of the client is decrypted, also behind a key exchange, no packet to the client panics, and the
  -- loop does not end by a panic.
  pub session_never_panics :
      (s : Session m k) (es : List (Event m k))
      → HasKeys s
      → AlwaysKeyed s es × ((handle_session m k s es).1 ≢ panicked)
  session_never_panics s es h = (always_keyed s es h, loop_ends s es h)
