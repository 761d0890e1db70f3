-- ===== src/Chat/Tests.antt =====
-- A server with one endpoint that has had three messages and keeps the last two.
use fkgo_server.Base.{ℕ, ◌≤◌, ◌≡◌, refl, ◌⊎◌, false, none, some, List, [], ◌∷◌, ◌++◌, arith, length}
use fkgo_server.Base.Int.{pos, ◌<ℤ◌}
use fkgo_server.Base.Map.{lookup, nat_eq}
use fkgo_server.Chat.EndPoint.{Message, EndPoint, push, serve, next_offset}
use fkgo_server.Chat.EndPoint.Log.{Text, Holds, view, numbered, push-Holds, serve_correct}
use fkgo_server.Chat.Queries.{query, latest, snapshot, restore_end_point}
use fkgo_server.Chat.Queries.Range.{query_total, query_one, query_range_empty, latest_correct}
use fkgo_server.Chat.Queries.Restore.{restore-Holds, restore_shifts_offsets}
use fkgo_server.Chat.Server.{Error, Server, KafkaMessage, read_ep, reg, receive, receive_all}
use fkgo_server.Chat.Server.Replay.{replay_ignored, receive_delivers, reg_correct}

abbrev message : ℕ → Message
message n = record { id = 1; body = n ∷ []; offset = pos 0 }

abbrev text : ℕ → Text
text n = (1, n ∷ [])

abbrev room : EndPoint
room = record {
  retention = 1;
  start_offset = pos 2;
  inbox = message 20 ∷ message 30 ∷ [];
  consumers = [];
  ready = false;
}

abbrev log : List Text
log = text 10 ∷ text 20 ∷ text 30 ∷ []

abbrev room-Holds : Holds room log
room-Holds = record { dropped = text 10 ∷ []; whole = refl; start = refl; bounded = omega arith }

push-Holds_example : Holds (push room (message 40)) (log ++ (text 40 ∷ []))
push-Holds_example = push-Holds room log (message 40) room-Holds

-- A consumer at offset 3 is sent the third message.
serve_correct_example :
    let (room', c', sent) = serve room (record { offset = pos 3 }) in
    (sent ≡ record { id = 1; body = 30 ∷ []; offset = pos 3 } ∷ [])
    × (c'.offset ≡ pos 4)
    × Holds room' log
serve_correct_example = serve_correct room log 2 room-Holds

query_total_run : (out : List Message) × (query room (pos 1) (pos 3) ≡ some out) × (length out ≤ 1)
query_total_run = query_total room (pos 1) (pos 3)

query_one_run : query room (pos 3) (pos 3) ≡ some (numbered 2 (text 30 ∷ []))
query_one_run = query_one room log 2 (text 30) room-Holds (omega arith) refl

query_range_empty_example : query room (pos 2) (pos 3) ≡ some []
query_range_empty_example =
    query_range_empty room log 1 2 room-Holds (omega arith) (omega arith) (omega arith)

latest_correct_example : latest room (pos 1) ≡ numbered 2 (text 30 ∷ [])
latest_correct_example = latest_correct room log 1 room-Holds

restore-Holds_run : Holds (restore_end_point 2 (snapshot room)) log
restore-Holds_run = restore-Holds room log 2 room-Holds (omega arith)

restore_shifts_offsets_example :
    let restored = restore_end_point 1 (snapshot room) in
    (view restored.inbox ≡ text 30 ∷ [])
    × (length restored.inbox ≡ 1)
    × (restored.start_offset ≡ pos 2)
    × (next_offset restored <ℤ next_offset room)
    × ((other : List Text) → length other ≡ 3 → ¬ Holds restored other)
restore_shifts_offsets_example = restore_shifts_offsets room log 1 room-Holds (omega arith)

-- A key that is the id itself.
abbrev decode : List ℕ → ℕ
decode [] = 0
decode (b ∷ bs) = b

abbrev server : Server
server = record {
  consumerid_autoinc = 0;
  kafka_offset = pos 7;
  retention = 1;
  eps = (1, room) ∷ [];
}

abbrev kafka : ℕ → KafkaMessage
kafka n = record { key = 1 ∷ []; value = 40 ∷ []; offset = pos n }

found : read_ep server 1 ≡ some room
unfolding read_ep lookup
found = refl

replay_ignored_example :
    receive_all decode (receive_all decode server (kafka 8 ∷ kafka 6 ∷ [])) (kafka 8 ∷ kafka 6 ∷ [])
    ≡ receive_all decode server (kafka 8 ∷ kafka 6 ∷ [])
replay_ignored_example = replay_ignored decode server (kafka 8 ∷ kafka 6 ∷ [])

receive_delivers_example :
    (ep' : EndPoint) × (read_ep (receive decode server (kafka 8)) 1 ≡ some ep')
    × Holds ep' (log ++ (text 40 ∷ []))
    × (read_ep (receive decode server (kafka 8)) 2 ≡ read_ep server 2)
    × ((receive decode server (kafka 8)).kafka_offset ≡ pos 8)
receive_delivers_example =
    receive_delivers decode server (kafka 8) room log 2 (omega arith) found room-Holds (omega arith)

reg_correct_run :
    (read_ep (reg server 2).0 1 ≡ read_ep server 1)
    × (((ep : EndPoint) × (read_ep server 2 ≡ some ep)
          × (reg server 2 ≡ (server, some Error.already_exists)))
        ⊎ ((ep : EndPoint) × (read_ep server 2 ≡ none)
            × (read_ep (reg server 2).0 2 ≡ some ep)
            × Holds ep []))
reg_correct_run = reg_correct server 2 1 (omega arith)
