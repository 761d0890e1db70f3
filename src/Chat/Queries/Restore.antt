-- ===== src/Chat/Queries/Restore.antt =====
-- A restart: `dump` and then `restore` of FKGRpc_Chat/Framework/Service.go, on one endpoint.
use fkgo_server.Base.{
  ℕ, ◌+◌, ◌-◌, ◌≤◌, ◌<◌, ◌≡◌, refl, sym, ap, ap₂, ◌∙◌, true, false, List, arith, length, drop,
  length-drop, ltb,
}
use fkgo_server.Base.Int.{pos, pos_part, ◌<ℤ◌, +ℤ_parts}
use fkgo_server.Chat.EndPoint.{EndPoint, new_end_point, next_offset}
use fkgo_server.Chat.EndPoint.Log.{Text, Holds, view, view-drop, log_size, drop_past}
use fkgo_server.Chat.Queries.{snapshot, restore_end_point}

pos_lengths : (m n : ℕ) → pos m ≡ pos n → m ≡ n
pos_lengths m n e = ap pos_part e

-- With no more than `retention` messages the restored endpoint holds the same log.
pub restore-Holds :
    (ep : EndPoint) (log : List Text) (retention : ℕ)
    → Holds ep log
    → length ep.inbox ≤ retention
    → Holds (restore_end_point retention (snapshot ep)) log
unfolding restore_end_point snapshot new_end_point
restore-Holds ep log retention h room =
    let fits : ltb retention (length ep.inbox) ≡ false = ground arith in
    rw fits
      (record { dropped = h.dropped; whole = h.whole; start = h.start; bounded = omega arith })

-- Without the oldest messages of its inbox an endpoint still has the end of the log.
drop_oldest :
    (ep : EndPoint) (log : List Text) (retention : ℕ)
    → Holds ep log
    → retention < length ep.inbox
    → view (drop (length ep.inbox - retention) ep.inbox) ≡ drop (length log - retention) log
drop_oldest ep log retention h full =
    let past : length log - retention ≡ length h.dropped + (length ep.inbox - retention) =
      omega (arith, log_size ep log h, full) in
    view-drop (length ep.inbox - retention) ep.inbox
    ∙ sym (drop_past h.dropped (view ep.inbox) (length ep.inbox - retention))
    ∙ ap₂ drop (sym past) (sym h.whole)

-- Of an endpoint that holds a log, with more than `retention` messages in its inbox (`push` keeps up to
-- one more), the restored one has the newest `retention` of them, the end of the log, but the start
-- offset of the old inbox: the next message gets an offset that was given out before, and no log of
-- that length fits the restored endpoint.
pub restore_shifts_offsets :
    (ep : EndPoint) (log : List Text) (retention : ℕ)
    → Holds ep log
    → retention < length ep.inbox
    → let restored = restore_end_point retention (snapshot ep) in
      (view restored.inbox ≡ drop (length log - retention) log)
      × (length restored.inbox ≡ retention)
      × (restored.start_offset ≡ ep.start_offset)
      × (next_offset restored <ℤ next_offset ep)
      × ((other : List Text) → length other ≡ length log → ¬ Holds restored other)
unfolding restore_end_point snapshot new_end_point
restore_shifts_offsets ep log retention h full =
    let cut : ltb retention (length ep.inbox) ≡ true = ground arith in
    let size = length-drop (length ep.inbox - retention) ep.inbox in
    rw cut (
      drop_oldest ep log retention h full,
      omega (arith, size),
      refl,
      omega (
        arith,
        size,
        +ℤ_parts ep.start_offset (pos (length ep.inbox)),
        +ℤ_parts ep.start_offset (pos (length (drop (length ep.inbox - retention) ep.inbox))),
      ),
      λ other same g. omega (
        arith,
        size,
        same,
        log_size ep log h,
        log_size _ other g,
        pos_lengths _ _ (sym h.start ∙ g.start),
      ),
    )
