-- ===== src/Chat/Server/Replay.antt =====
-- Kafka may deliver messages again: `receive` skips those that it has seen.
use fkgo_server.Base.{
  ℕ, ◌≡◌, refl, ◌≢◌, ◌⊎◌, inl, inr, true, none, some, List, [], ◌∷◌, ◌++◌, arith, Option-cases,
}
use fkgo_server.Base.Int.{◌≤ℤ◌, ◌<ℤ◌, ltb_ℤ}
use fkgo_server.Base.Map.{nat_eq, lookup, put, lookup-put_self, lookup-put_ne}
use fkgo_server.Chat.EndPoint.{EndPoint, new_end_point, push}
use fkgo_server.Chat.EndPoint.Log.{Text, Holds, new-Holds, push-Holds}
use fkgo_server.Chat.Server.{
  Server, KafkaMessage, Error, read_ep, reg, chat_message, receive, receive_all,
}

module _ (decode_id : List ℕ → ℕ) where
  -- All offsets of the messages are at most that of the server.
  abbrev pub Seen : Server → List KafkaMessage → Type 0
  Seen s [] = Unit
  Seen s (k ∷ ks) = (k.offset ≤ℤ s.kafka_offset) × Seen s ks

  receive_seen :
      (s : Server) (k : KafkaMessage) → k.offset ≤ℤ s.kafka_offset → receive decode_id s k ≡ s
  unfolding receive
  receive_seen s k h = ground arith

  receive_all-Seen_stays :
      (s : Server) (ks : List KafkaMessage) → Seen s ks → receive_all decode_id s ks ≡ s
  unfolding receive_all
  receive_all-Seen_stays s [] h = refl
  receive_all-Seen_stays s (k ∷ ks) h = rw (receive_seen s k h.0) (receive_all-Seen_stays s ks h.1)

  kafka_offset-receive :
      (s : Server) (k : KafkaMessage)
      → (s.kafka_offset ≤ℤ (receive decode_id s k).kafka_offset)
        × (k.offset ≤ℤ (receive decode_id s k).kafka_offset)
  unfolding receive
  kafka_offset-receive s k = ground arith

  kafka_offset-receive_all :
      (s : Server) (ks : List KafkaMessage)
      → s.kafka_offset ≤ℤ (receive_all decode_id s ks).kafka_offset
  unfolding receive_all
  kafka_offset-receive_all s [] = omega arith
  kafka_offset-receive_all s (k ∷ ks) =
      omega
        (arith, (kafka_offset-receive s k).0, kafka_offset-receive_all (receive decode_id s k) ks)

  receive_all-Seen : (s : Server) (ks : List KafkaMessage) → Seen (receive_all decode_id s ks) ks
  unfolding receive_all
  receive_all-Seen s [] = tt
  receive_all-Seen s (k ∷ ks) = (
    omega
        (arith, (kafka_offset-receive s k).1, kafka_offset-receive_all (receive decode_id s k) ks),
    receive_all-Seen (receive decode_id s k) ks,
  )

  -- Receiving a batch a second time changes nothing, whatever the order of its offsets.
  pub replay_ignored :
      (s : Server) (ks : List KafkaMessage)
      → receive_all decode_id (receive_all decode_id s ks) ks ≡ receive_all decode_id s ks
  replay_ignored s ks =
      receive_all-Seen_stays (receive_all decode_id s ks) ks (receive_all-Seen s ks)

  -- A new message goes to the log of the endpoint that its key names, and to no other.
  pub receive_delivers :
      (s : Server) (k : KafkaMessage) (ep : EndPoint) (log : List Text) (other : ℕ)
      → s.kafka_offset <ℤ k.offset
      → read_ep s (decode_id k.key) ≡ some ep
      → Holds ep log
      → decode_id k.key ≢ other
      → (ep' : EndPoint) × (read_ep (receive decode_id s k) (decode_id k.key) ≡ some ep')
        × Holds ep' (log ++ ((decode_id k.key, k.value) ∷ []))
        × (read_ep (receive decode_id s k) other ≡ read_ep s other)
        × ((receive decode_id s k).kafka_offset ≡ k.offset)
  unfolding receive read_ep
  receive_delivers s k ep log other new found holds apart =
      let chat = chat_message decode_id k in
      let fresh : ltb_ℤ s.kafka_offset k.offset ≡ true = ground arith in
      rw (fresh, found)
        (
          push ep chat,
          lookup-put_self chat.id (push ep chat) s.eps,
          push-Holds ep log chat holds,
          lookup-put_ne chat.id other (push ep chat) s.eps apart,
          refl,
        )

reg_new :
    (s : Server) (id : ℕ)
    → lookup id s.eps ≡ none
    → reg s id ≡ (record s { eps = put id (new_end_point s.retention) s.eps }, none)
unfolding reg
reg_new s id h = rw (h, reg)

reg_old :
    (s : Server) (id : ℕ) (ep : EndPoint)
    → lookup id s.eps ≡ some ep
    → reg s id ≡ (s, some Error.already_exists)
unfolding reg
reg_old s id ep h = rw (h, reg)

-- `Reg` gives a new id an endpoint with an empty log; an id that exists is refused and the server is
-- left as it was. Other endpoints stay in both cases.
pub reg_correct :
    (s : Server) (id other : ℕ)
    → id ≢ other
    → (read_ep (reg s id).0 other ≡ read_ep s other)
      × (((ep : EndPoint) × (read_ep s id ≡ some ep) × (reg s id ≡ (s, some Error.already_exists)))
          ⊎ ((ep : EndPoint) × (read_ep s id ≡ none)
              × (read_ep (reg s id).0 id ≡ some ep)
              × Holds ep []))
unfolding read_ep
reg_correct s id other apart = elim (Option-cases (lookup id s.eps)) [
  | inl missing ↦
      rw (reg_new s id missing, missing)
        (
          lookup-put_ne id other (new_end_point s.retention) s.eps apart,
          inr (
            new_end_point s.retention,
            refl,
            lookup-put_self id (new_end_point s.retention) s.eps,
            new-Holds s.retention,
          ),
        )
  | inr (ep, found) ↦ rw (reg_old s id ep found, found) (refl, inl (ep, refl, refl))
]
