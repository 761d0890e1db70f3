-- ===== src/Chat/Server.antt =====
-- `Server` of FKGRpc_Chat/Framework/Service.go: endpoints by id, and the messages from Kafka. The
-- server's lock is held through each operation. Decoding a Kafka key is a parameter: `json.Unmarshal`
-- into the id of a fresh message, whose error the source ignores.
pub mod Replay
use fkgo_server.Base.{
  ℕ, zero, suc, ◌+◌, ◌-◌, ◌*◌, ◌/◌, ◌%◌, ◌^◌, ◌≤◌, ◌<◌, min, ◌≡◌, refl, sym, ap, ap₂, ◌∙◌, subst,
  ◌≢◌, ◌↔◌, ◌⊎◌, inl, inr, Bool, true, false, ◌&&◌, ◌||◌, not, Option, none, some, List, [], ◌∷◌,
  ◌++◌, map, append_assoc, append-nil, arith, dec_lt, ℕ_discrete, length, get_elem?, set, take,
  drop, replicate, length-append, length-take, length-drop, length-replicate, length-map,
  take-append-drop, take-append, drop-append, append_cons, take_at, drop_at, drop-drop, set-take,
  set-drop, set-append, set_at, get_elem?-append, ltb, leb, ◌==◌, if◌then◌else◌, ltb→lt, lt→ltb,
  leb→le, ==_iff, tests, Bool-cases, Option-cases, if_both,
}
use fkgo_server.Base.Int.{
  ℤ, pos, negsuc, pos_part, neg_part, sub_ℕ, ◌+ℤ◌, ◌-ℤ◌, ◌≤ℤ◌, ◌<ℤ◌, ltb_ℤ, leb_ℤ, eqb_ℤ,
  eq_of_parts, eqb_ℤ→eq, eqb_ℤ_refl, eqb_ℤ_ne, +ℤ_parts, -ℤ_parts, int_laws, signed16, signed32,
  signed64, unsigned, to_int32, to_int32-eq_of_lt, pos_part-sub, ℤ-cases,
}
use fkgo_server.Base.Map.{GoMap, nat_eq, lookup, put}
use fkgo_server.Chat.EndPoint.{Message, EndPoint, new_end_point, push, activate, deactivate}
use fkgo_server.Chat.Queries.{query, latest, Snapshot, snapshot, restore_end_point}

pub data Error : Type 0 where
  already_exists not_exists : Error

pub record Server : Type 0 where
  pub consumerid_autoinc : ℕ
  pub kafka_offset : ℤ
  pub retention : ℕ
  pub eps : GoMap ℕ EndPoint

-- `sarama.ConsumerMessage`
pub record KafkaMessage : Type 0 where
  pub key : List ℕ
  pub value : List ℕ
  pub offset : ℤ

unfoldable pub read_ep : Server → ℕ → Option EndPoint
read_ep s id = lookup id s.eps

abbrev pub set_ep : Server → ℕ → EndPoint → Server
set_ep s id ep = record s { eps = put id ep s.eps }

unfoldable pub reg : Server → ℕ → Server × Option Error
reg s id = elim (lookup id s.eps) [
  | some ep ↦ (s, some already_exists)
  | none ↦ (set_ep s id (new_end_point s.retention), none)
]

-- `Subscribe` up to its wait: the server, and the consumer's id (an `uint64`) or an error.
unfoldable pub subscribe : Server → ℕ → ℤ → Server × Option ℕ × Option Error
subscribe s id from = elim (read_ep s id) [
  | none ↦ (s, none, some not_exists)
  | some ep ↦
      let consumer_id = (s.consumerid_autoinc + 1) % 2 ^ 64 in
      (
        record s {
          consumerid_autoinc = consumer_id;
          eps = put id (activate ep consumer_id from) s.eps;
        },
        some consumer_id,
        none,
      )
]

-- What `Subscribe` does when it returns.
unfoldable pub unsubscribe : Server → ℕ → ℕ → Server
unsubscribe s id consumer_id = elim (read_ep s id) [
  | none ↦ s
  | some ep ↦ set_ep s id (deactivate ep consumer_id)
]

-- `Query` and `Latest` over the endpoints. A panic of `query` is an inner `none`.
unfoldable pub query_ep : Server → ℕ → ℤ → ℤ → Option (Option (List Message)) × Option Error
query_ep s id from to = elim (read_ep s id) [
  | none ↦ (none, some not_exists)
  | some ep ↦ (some (query ep from to), none)
]

unfoldable pub latest_ep : Server → ℕ → ℤ → Option (List Message) × Option Error
latest_ep s id count = elim (read_ep s id) [
  | none ↦ (none, some not_exists)
  | some ep ↦ (some (latest ep count), none)
]

module _ (decode_id : List ℕ → ℕ) where
  -- The message of a Kafka record; its offset is the zero value until it is sent.
  abbrev pub chat_message : KafkaMessage → Message
  chat_message k = record { id = decode_id k.key; body = k.value; offset = pos 0 }

  -- One round of `receive`.
  unfoldable pub receive : Server → KafkaMessage → Server
  receive s k =
      if ltb_ℤ s.kafka_offset k.offset
      then (let chat = chat_message k in
          elim (read_ep s chat.id) [
            | none ↦ record s { kafka_offset = k.offset }
            | some ep ↦ record s { eps = put chat.id (push ep chat) s.eps; kafka_offset = k.offset }
          ])
      else s

  unfoldable pub receive_all : Server → List KafkaMessage → Server
  receive_all s [] = s
  receive_all s (k ∷ ks) = receive_all (receive s k) ks

-- `dump`: the Kafka offset, and each endpoint's snapshot. `restore`: a server from these.
unfoldable pub dump_all : GoMap ℕ EndPoint → GoMap ℕ Snapshot
dump_all [] = []
dump_all ((id, ep) ∷ eps) = (id, snapshot ep) ∷ dump_all eps

unfoldable pub dump : Server → ℤ × GoMap ℕ Snapshot
dump s = (s.kafka_offset, dump_all s.eps)

unfoldable pub restore_all : ℕ → GoMap ℕ Snapshot → GoMap ℕ EndPoint
restore_all retention [] = []
restore_all retention ((id, s) ∷ ss) =
    (id, restore_end_point retention s) ∷ restore_all retention ss

unfoldable pub restore : ℕ → ℤ × GoMap ℕ Snapshot → Server
restore retention (kafka_offset, ss) = record {
  consumerid_autoinc = 0;
  kafka_offset = kafka_offset;
  retention = retention;
  eps = restore_all retention ss;
}
