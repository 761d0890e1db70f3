-- ===== src/Agent/Order.antt =====
-- What an agent forwards to the game server: only messages that carry the number of packets so far.
use fkgo_server.Base.{
  ℕ, ◌≡◌, refl, ap, ◌∙◌, ◌⊎◌, inl, inr, Option, none, some, List, ◌∷◌, arith, drop, if_both,
}
use fkgo_server.Base.Int.{ℤ}
use fkgo_server.Packet.{Packet, Reading, reader, read_u32, read_s16}
use fkgo_server.Packet.Float.{Floats}
use fkgo_server.Messages.{AutoId, SeedInfo, pkt_auto_id, pkt_seed_info}
use fkgo_server.Agent.Session.{
  Crypto, Answers, Session, Handled, heart_beat_req, decrypt_with, heart_beat_reply, get_seed_reply,
  set_ciphers, get_seed_req, user_login_req, forward, decrypt, dispatch, read_number,
  check_sequence, handle_clear, user_msg_handler,
}

module _ (m : Floats) (k : Crypto) where
  open k use {Cipher}

  set_ciphers_sent :
      (s : Session m k) (ret : SeedInfo) (e d : Option Cipher)
      → (set_ciphers m k s ret e d).0.sent ≡ s.sent
  unfolding set_ciphers
  set_ciphers_sent s ret none d = refl
  set_ciphers_sent s ret (some e) none = refl
  set_ciphers_sent s ret (some e) (some d) = refl

  get_seed_sent :
      (w : Answers) (s : Session m k) (tbl : Option (SeedInfo × Packet))
      → (get_seed_reply m k w s tbl).0.sent ≡ s.sent
  unfolding get_seed_reply
  get_seed_sent w s none = refl
  get_seed_sent w s (some tbl) = set_ciphers_sent s _ _ _

  heart_beat_sent :
      (s : Session m k) (tbl : Option (AutoId × Packet))
      → (heart_beat_reply m k s tbl).0.sent ≡ s.sent
  unfolding heart_beat_reply
  heart_beat_sent s none = refl
  heart_beat_sent s (some tbl) = refl

  user_login_req_sent : (w : Answers) (s : Session m k) → (user_login_req m k w s).0.sent ≡ s.sent
  unfolding user_login_req
  user_login_req_sent w s = ground arith

  -- Nothing is forwarded, or the bytes behind the sequence number.
  abbrev Forwards : Session m k → List ℕ → Handled m k → Type 0
  Forwards s p out = (out.0.sent ≡ s.sent) ⊎ (out.0.sent ≡ drop 4 p ∷ s.sent)

  dispatch-Forwards :
      (w : Answers) (s : Session m k) (p : List ℕ) (b : ℤ) (r : Packet)
      → Forwards s p (dispatch m k w s p b r)
  unfolding dispatch forward heart_beat_req get_seed_req
  dispatch-Forwards w s p b r = ground (
    arith,
    heart_beat_sent s (pkt_auto_id r),
    user_login_req_sent w s,
    get_seed_sent w s (pkt_seed_info r),
  )

  read_number-Forwards :
      (w : Answers) (s : Session m k) (p : List ℕ) (number : Reading ℤ)
      → Forwards s p (read_number m k w s p number)
  unfolding read_number
  read_number-Forwards w s p (b, some err, r) = inl refl
  read_number-Forwards w s p (b, none, r) = dispatch-Forwards w s p b r

  -- A message is forwarded only with the right number.
  abbrev InOrder : Session m k → List ℕ → Reading ℕ → Handled m k → Type 0
  InOrder s p number out =
      (out.0.sent ≡ s.sent)
      ⊎ ((number.0 ≡ s.packet_count) × (number.1 ≡ none) × (out.0.sent ≡ drop 4 p ∷ s.sent))

  check_sequence-InOrder :
      (w : Answers) (s : Session m k) (p : List ℕ) (number : Reading ℕ)
      → InOrder s p number (check_sequence m k w s p number)
  unfolding check_sequence
  check_sequence-InOrder w s p (seq_id, some err, r) = inl refl
  check_sequence-InOrder w s p (seq_id, none, r) =
      ground (arith, read_number-Forwards w s p (read_s16 r))

  -- Decryption changes the decoder only.
  abbrev Kept : Session m k → Option (Session m k × List ℕ) → Type 0
  Kept s none = Unit
  Kept s (some (s', clear)) = (s'.sent ≡ s.sent) × (s'.packet_count ≡ s.packet_count)

  decrypt_with-Kept :
      (s : Session m k) (d : Option Cipher) (p : List ℕ) → Kept s (decrypt_with m k s d p)
  unfolding decrypt_with
  decrypt_with-Kept s none p = tt
  decrypt_with-Kept s (some d) p = (refl, refl)

  decrypt-Kept : (s : Session m k) (p : List ℕ) → Kept s (decrypt m k s p)
  unfolding decrypt
  decrypt-Kept s p =
      if_both (Kept s) s.encrypt _ (some (s, p)) (decrypt_with-Kept s s.decoder p) (refl, refl)

  -- Nothing is forwarded, or `p` behind its first four bytes, which carry the count of packets so far:
  -- `d` is the decryption of the message.
  abbrev pub OnlyInOrder : Session m k → Option (Session m k × List ℕ) → Handled m k → Type 0
  OnlyInOrder s d out =
      (out.0.sent ≡ s.sent)
      ⊎ ((s' : Session m k) × (clear : List ℕ) × (d ≡ some (s', clear))
          × ((read_u32 (reader clear)).0 ≡ s.packet_count)
          × ((read_u32 (reader clear)).1 ≡ none)
          × (out.0.sent ≡ drop 4 clear ∷ s.sent))

  handle_clear-OnlyInOrder :
      (w : Answers) (s : Session m k) (d : Option (Session m k × List ℕ))
      → Kept s d
      → OnlyInOrder s d (handle_clear m k w s d)
  unfolding handle_clear
  handle_clear-OnlyInOrder w s none kept = inl refl
  handle_clear-OnlyInOrder w s (some (s', clear)) (sent, count) =
      elim (check_sequence-InOrder w s' clear (read_u32 (reader clear))) [
        | inl same ↦ inl (same ∙ sent)
        | inr (number, ok, more) ↦
            inr (s', clear, refl, number ∙ count, ok, more ∙ ap (λ l. drop 4 clear ∷ l) sent)
      ]

  -- A message is forwarded to the game server at most once, without its first four bytes, and only
  -- where its decryption starts with the count of packets so far; every other message forwards nothing.
  pub forwarded_in_order :
      (w : Answers) (s : Session m k) (p : List ℕ)
      → OnlyInOrder s (decrypt m k s p) (user_msg_handler m k w s p)
  unfolding user_msg_handler
  forwarded_in_order w s p = handle_clear-OnlyInOrder w s (decrypt m k s p) (decrypt-Kept s p)
