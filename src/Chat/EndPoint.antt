-- ===== src/Chat/EndPoint.antt =====
-- `EndPoint` of FKGRpc_Chat/Framework/Service.go: a bounded inbox with offsets, and its consumers.
-- The mutex is held through each operation, so an operation is a function on the state. `retention`
-- is not negative; offsets are unbounded.
pub mod Log
use fkgo_server.Base.{
  ℕ, zero, suc, ◌+◌, ◌-◌, ◌*◌, ◌/◌, ◌%◌, ◌^◌, ◌≤◌, ◌<◌, min, ◌≡◌, refl, sym, ap, ap₂, ◌∙◌, subst,
  ◌≢◌, ◌↔◌, ◌⊎◌, inl, inr, Bool, true, false, ◌&&◌, ◌||◌, not, Option, none, some, List, [], ◌∷◌,
  ◌++◌, map, append_assoc, append-nil, arith, dec_lt, ℕ_discrete, length, get_elem?, set, take,
  drop, replicate, length-append, length-take, length-drop, length-replicate, length-map,
  take-append-drop, take-append, drop-append, append_cons, take_at, drop_at, drop-drop, set-take,
  set-drop, set-append, set_at, get_elem?-append, ltb, leb, ◌==◌, if◌then◌else◌, ltb→lt, lt→ltb,
  leb→le, ==_iff, tests, Bool-cases, Option-cases, if_both,
}
use fkgo_server.Base.Int.{
  ℤ, pos, negsuc, pos_part, neg_part, sub_ℕ, ◌+ℤ◌, ◌-ℤ◌, ◌≤ℤ◌, ◌<ℤ◌, ltb_ℤ, leb_ℤ, eqb_ℤ,
  eq_of_parts, eqb_ℤ→eq, eqb_ℤ_refl, eqb_ℤ_ne, +ℤ_parts, -ℤ_parts, int_laws, signed16, signed32,
  signed64, unsigned, to_int32, to_int32-eq_of_lt, pos_part-sub, ℤ-cases,
}
use fkgo_server.Base.Map.{GoMap, nat_eq, lookup, put, remove}

-- `Chat_Message`
pub record Message : Type 0 where
  pub id : ℕ
  pub body : List ℕ
  pub offset : ℤ

-- `Consumer`; what its `pushFunc` is called with is the result of `push_task`.
pub record Consumer : Type 0 where
  pub offset : ℤ

pub record EndPoint : Type 0 where
  pub retention : ℕ
  pub start_offset : ℤ
  pub inbox : List Message
  pub consumers : GoMap ℕ Consumer
  -- `chReady` holds a signal; its capacity is 1.
  pub ready : Bool

unfoldable pub new_end_point : ℕ → EndPoint
new_end_point retention = record {
  retention = retention;
  start_offset = pos 1;
  inbox = [];
  consumers = [];
  ready = false;
}

unfoldable pub notify_consumers : EndPoint → EndPoint
notify_consumers ep = record ep { ready = true }

unfoldable pub push : EndPoint → Message → EndPoint
push ep msg = notify_consumers (
    if ltb ep.retention (length ep.inbox)
    then record ep {
      inbox = drop 1 ep.inbox ++ (msg ∷ []);
      start_offset = ep.start_offset +ℤ pos 1;
    }
    else record ep { inbox = ep.inbox ++ (msg ∷ []) })

-- The offset behind the last message.
abbrev pub next_offset : EndPoint → ℤ
next_offset ep = ep.start_offset +ℤ pos (length ep.inbox)

-- `ep.Inbox[i].Offset = i + ep.StartOffset` for `i` from `k` on; `offset` is that of the first entry.
unfoldable pub stamp_from : ℤ → ℕ → List Message → List Message
stamp_from offset k [] = []
stamp_from offset zero (msg ∷ msgs) =
    record msg { offset = offset } ∷ stamp_from (offset +ℤ pos 1) zero msgs
stamp_from offset (suc k) (msg ∷ msgs) = msg ∷ stamp_from (offset +ℤ pos 1) k msgs

-- `idx`, not below 0.
abbrev pub first_index : EndPoint → Consumer → ℕ
first_index ep c = pos_part (c.offset -ℤ ep.start_offset)

-- One consumer's round of `pushTask`: it is sent the stamped messages from `idx` on, in order.
unfoldable pub serve : EndPoint → Consumer → EndPoint × Consumer × List Message
serve ep c =
    let stamped = stamp_from ep.start_offset (first_index ep c) ep.inbox in
    (
      record ep { inbox = stamped },
      record { offset = next_offset ep },
      drop (first_index ep c) stamped,
    )

-- The loop over the consumers, each with what it is sent.
unfoldable pub serve_all :
    EndPoint → GoMap ℕ Consumer → EndPoint × GoMap ℕ Consumer × List (ℕ × List Message)
serve_all ep [] = (ep, [], [])
serve_all ep ((id, c) ∷ cs) =
    let (ep1, c', sent) = serve ep c in
    let (ep2, cs', all_sent) = serve_all ep1 cs in (ep2, (id, c') ∷ cs', (id, sent) ∷ all_sent)

-- One round of `pushTask` on a signal; without a signal it waits.
unfoldable pub push_task : EndPoint → EndPoint × List (ℕ × List Message)
push_task ep =
    if ep.ready
    then (let (ep', cs, sent) = serve_all (record ep { ready = false }) ep.consumers in
        (record ep' { consumers = cs }, sent))
    else (ep, [])

-- The part of `Subscribe` under the lock, and the signal behind it. -1 asks for new messages only.
unfoldable pub activate : EndPoint → ℕ → ℤ → EndPoint
activate ep consumer_id from =
    let offset = if eqb_ℤ from (negsuc 0) then next_offset ep else from in
    notify_consumers
      (record ep { consumers = put consumer_id (record { offset = offset }) ep.consumers })

-- The deferred clean-up of `Subscribe`.
unfoldable pub deactivate : EndPoint → ℕ → EndPoint
deactivate ep consumer_id = record ep { consumers = remove consumer_id ep.consumers }
