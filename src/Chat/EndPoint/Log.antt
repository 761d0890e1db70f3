-- ===== src/Chat/EndPoint/Log.antt =====
-- An endpoint against the log of everything that was pushed to it: the inbox is the end of the log,
-- and a consumer is sent the log from its offset on.
use fkgo_server.Base.{
  ℕ, zero, suc, ◌+◌, ◌-◌, ◌≤◌, ◌<◌, ◌≡◌, refl, sym, ap, ◌∙◌, inl, inr, List, [], ◌∷◌, ◌++◌,
  append_assoc, arith, length, drop, length-append, length-drop, drop-append, append_cons,
  drop-drop, ltb, ltb→lt, Bool-cases,
}
use fkgo_server.Base.Int.{ℤ, pos, pos_part, ◌+ℤ◌, ◌-ℤ◌}
use fkgo_server.Chat.EndPoint.{
  Message, EndPoint, new_end_point, push, notify_consumers, stamp_from, first_index, serve,
}

-- What a message says, whatever offset is written on it.
abbrev pub Text : Type 0
Text = ℕ × List ℕ

abbrev pub view : List Message → List Text
view [] = []
view (msg ∷ msgs) = (msg.id, msg.body) ∷ view msgs

-- The log has `dropped` in front of what the inbox holds.
pub record Holds (ep : EndPoint) (log : List Text) : Type 0 where
  pub dropped : List Text
  pub whole : log ≡ dropped ++ view ep.inbox
  pub start : ep.start_offset ≡ pos (length dropped + 1)
  pub bounded : length ep.inbox ≤ ep.retention + 1

-- Texts with the offsets of a log from index `k` on. Offsets count from 1.
abbrev pub numbered : ℕ → List Text → List Message
numbered k [] = []
numbered k ((id, body) ∷ texts) =
    record { id = id; body = body; offset = pos (k + 1) } ∷ numbered (k + 1) texts

pub view-append : (xs ys : List Message) → view (xs ++ ys) ≡ view xs ++ view ys
view-append [] ys = refl
view-append (x ∷ xs) ys = ap (λ l. (x.id, x.body) ∷ l) (view-append xs ys)

pub length-view : (xs : List Message) → length (view xs) ≡ length xs
length-view [] = refl
length-view (x ∷ xs) = ap suc (length-view xs)

pub view-drop : (k : ℕ) (msgs : List Message) → view (drop k msgs) ≡ drop k (view msgs)
view-drop zero msgs = refl
view-drop (suc k) [] = refl
view-drop (suc k) (msg ∷ msgs) = view-drop k msgs

pub pos_suc : (n : ℕ) → pos n +ℤ pos 1 ≡ pos (n + 1)
unfolding ◌+ℤ◌
pos_suc n = ground arith

pub pos_add : (m n : ℕ) → pos m +ℤ pos n ≡ pos (m + n)
unfolding ◌+ℤ◌
pos_add m n = ground arith

pub pos_part_sub : (n d : ℕ) → pos_part (pos (n + 1) -ℤ pos (d + 1)) ≡ n - d
unfolding ◌-ℤ◌
pos_part_sub n d = ground arith

pub drop_past : (xs ys : List Text) (k : ℕ) → drop (length xs + k) (xs ++ ys) ≡ drop k ys
drop_past xs ys k = sym (drop-drop k (length xs) (xs ++ ys)) ∙ ap (drop k) (drop-append xs ys)

pub length-stamp_from :
    (offset : ℤ) (k : ℕ) (msgs : List Message) → length (stamp_from offset k msgs) ≡ length msgs
unfolding stamp_from
length-stamp_from offset k [] = refl
length-stamp_from offset zero (msg ∷ msgs) = ap suc (length-stamp_from (offset +ℤ pos 1) zero msgs)
length-stamp_from offset (suc k) (msg ∷ msgs) = ap suc (length-stamp_from (offset +ℤ pos 1) k msgs)

-- The log is as long as what was dropped and what the inbox holds.
pub log_size :
    (ep : EndPoint) (log : List Text) (h : Holds ep log)
    → length log ≡ length h.dropped + length ep.inbox
log_size ep log h =
    ap length h.whole ∙ omega (arith, length-append h.dropped (view ep.inbox), length-view ep.inbox)

pub new-Holds : (retention : ℕ) → Holds (new_end_point retention) []
unfolding new_end_point
new-Holds retention = record { dropped = []; whole = refl; start = refl; bounded = omega arith }

-- The end of a full inbox without its first message.
push_full :
    (inbox : List Message) (dropped : List Text) (msg : Message) (n : ℕ)
    → n < length inbox
    → (more : List Text) × ((dropped ++ view inbox) ++ ((msg.id, msg.body) ∷ [])
        ≡ more ++ view (drop 1 inbox ++ (msg ∷ [])))
      × (length more ≡ length dropped + 1)
push_full [] dropped msg n h = absurd (omega arith)
push_full (first ∷ inbox) dropped msg n h = (
  dropped ++ ((first.id, first.body) ∷ []),
  append_assoc dropped ((first.id, first.body) ∷ view inbox) ((msg.id, msg.body) ∷ [])
      ∙ sym (append_cons dropped (first.id, first.body) (view inbox ++ ((msg.id, msg.body) ∷ [])))
      ∙ ap (λ l. (dropped ++ ((first.id, first.body) ∷ [])) ++ l)
          (sym (view-append inbox (msg ∷ []))),
  length-append dropped ((first.id, first.body) ∷ []),
)

-- Pushing a message adds it to the log; the inbox never holds more than `retention + 1` messages.
pub push-Holds :
    (ep : EndPoint) (log : List Text) (msg : Message)
    → Holds ep log
    → Holds (push ep msg) (log ++ ((msg.id, msg.body) ∷ []))
unfolding push notify_consumers
push-Holds ep log msg h = elim (Bool-cases (ltb ep.retention (length ep.inbox))) [
  | inl full ↦
      let (more, shape, longer) = push_full ep.inbox h.dropped msg ep.retention (ltb→lt _ _ full) in
      rw full (record {
        dropped = more;
        whole = ap (λ l. l ++ ((msg.id, msg.body) ∷ [])) h.whole ∙ shape;
        start =
            ap (λ s. s +ℤ pos 1) h.start
            ∙ pos_suc (length h.dropped + 1)
            ∙ ap (λ n. pos (n + 1)) (sym longer);
        bounded =
            omega (
              arith,
              h.bounded,
              length-append (drop 1 ep.inbox) (msg ∷ []),
              length-drop 1 ep.inbox,
            );
      })
  | inr room ↦ rw room (record {
    dropped = h.dropped;
    whole =
        ap (λ l. l ++ ((msg.id, msg.body) ∷ [])) h.whole
        ∙ append_assoc h.dropped (view ep.inbox) ((msg.id, msg.body) ∷ [])
        ∙ ap (λ l. h.dropped ++ l) (sym (view-append ep.inbox (msg ∷ [])));
    start = h.start;
    bounded = ground (arith, length-append ep.inbox (msg ∷ []));
  })
]

pub view-stamp_from :
    (offset : ℤ) (k : ℕ) (msgs : List Message) → view (stamp_from offset k msgs) ≡ view msgs
unfolding stamp_from
view-stamp_from offset k [] = refl
view-stamp_from offset zero (msg ∷ msgs) =
    ap (λ l. (msg.id, msg.body) ∷ l) (view-stamp_from (offset +ℤ pos 1) zero msgs)
view-stamp_from offset (suc k) (msg ∷ msgs) =
    ap (λ l. (msg.id, msg.body) ∷ l) (view-stamp_from (offset +ℤ pos 1) k msgs)

pub drop-stamp_from :
    (d k : ℕ) (msgs : List Message)
    → drop k (stamp_from (pos (d + 1)) k msgs) ≡ numbered (d + k) (drop k (view msgs))
unfolding stamp_from
drop-stamp_from d zero [] = refl
drop-stamp_from d zero (msg ∷ msgs) =
    let same : d + 0 ≡ d = omega arith in
    let next : d + 1 + 0 ≡ d + 1 = omega arith in
    rw (pos_suc (d + 1), same)
      (ap (λ l. record msg { offset = pos (d + 1) } ∷ l)
        (drop-stamp_from (d + 1) zero msgs ∙ ap (λ k. numbered k (view msgs)) next))
drop-stamp_from d (suc k) [] = refl
drop-stamp_from d (suc k) (msg ∷ msgs) =
    let next : d + 1 + k ≡ d + suc k = omega arith in
    rw (pos_suc (d + 1))
      (drop-stamp_from (d + 1) k msgs ∙ ap (λ i. numbered i (drop k (view msgs))) next)

-- A consumer at offset `n + 1` (at least 1) is sent the log from there on, or from the first message
-- that the inbox still holds, each message once, in order and with its place in the log; next time
-- it is served from the end of the log. The log stays as it is.
pub serve_correct :
    (ep : EndPoint) (log : List Text) (n : ℕ) (h : Holds ep log)
    → let (ep', c', sent) = serve ep (record { offset = pos (n + 1) }) in
      let from = length h.dropped + (n - length h.dropped) in
      (sent ≡ numbered from (drop from log)) × (c'.offset ≡ pos (length log + 1)) × Holds ep' log
unfolding serve
serve_correct ep log n h =
    let d = length h.dropped in
    let k = n - d in
    let index : first_index ep (record { offset = pos (n + 1) }) ≡ k =
      rw h.start (pos_part_sub n d) in
    let rest : drop (d + k) log ≡ drop k (view ep.inbox) =
      ap (drop (d + k)) h.whole ∙ drop_past h.dropped (view ep.inbox) k in
    let size = log_size ep log h in
    (
      rw (index, h.start, rest) (drop-stamp_from d k ep.inbox),
      rw h.start (pos_add (d + 1) (length ep.inbox) ∙ ap pos (omega arith)),
      record {
        dropped = h.dropped;
        whole =
            h.whole
            ∙ ap (λ l. h.dropped ++ l)
                (sym (
                  view-stamp_from ep.start_offset (first_index ep (record { offset = pos (n + 1) }))
                    ep.inbox));
        start = h.start;
        bounded = omega (
          arith,
          h.bounded,
          length-stamp_from ep.start_offset (first_index ep (record { offset = pos (n + 1) }))
              ep.inbox,
        );
      },
    )
