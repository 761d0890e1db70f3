-- ===== src/Chat/Queries/Range.antt =====
-- What a range query and a query for the latest messages return, in terms of the log.
use fkgo_server.Base.{
  ℕ, zero, suc, ◌+◌, ◌-◌, ◌≤◌, ◌<◌, ◌≡◌, refl, sym, ap, ap₂, ◌∙◌, ◌⊎◌, inl, inr, false, some, List,
  [], ◌∷◌, ◌++◌, arith, length, get_elem?, drop, get_elem?-append,
}
use fkgo_server.Base.Int.{
  ℤ, pos, pos_part, neg_part, ◌+ℤ◌, ◌-ℤ◌, ◌≤ℤ◌, ◌<ℤ◌, ltb_ℤ, eq_of_parts, +ℤ_parts, -ℤ_parts,
  int_laws, pos_part-sub, ℤ-cases,
}
use mathlib.Core.Option.{some-injective}
use fkgo_server.Chat.EndPoint.{Message, EndPoint, next_offset}
use fkgo_server.Chat.EndPoint.Log.{
  view-drop, Text, view, Holds, numbered, drop-stamp_from, drop_past, pos_add, log_size,
}
use fkgo_server.Chat.Queries.{collect, answer, clamp_from, clamp_to, query, latest}

-- One round of the loop, inside the inbox.
collect_one :
    (ep : EndPoint) (i : ℕ) (msg : Message)
    → get_elem? ep.inbox i ≡ some msg
    → collect ep (pos i +ℤ ep.start_offset) 1
      ≡ some (record msg { offset = pos i +ℤ ep.start_offset } ∷ [])
unfolding collect
collect_one ep i msg h =
    let index : pos i +ℤ ep.start_offset -ℤ ep.start_offset ≡ pos i = omega int_laws in
    rw (index, collect, h)

get_elem?-some :
    (msgs : List Message) (i : ℕ)
    → i < length msgs
    → (msg : Message) × (get_elem? msgs i ≡ some msg)
get_elem?-some [] i h = absurd (omega arith)
get_elem?-some (m ∷ msgs) zero h = (m, refl)
get_elem?-some (m ∷ msgs) (suc i) h = get_elem?-some msgs i (omega arith)

-- The two clamped ends lie in the inbox.
clamp_from-ge : (ep : EndPoint) (from : ℤ) → ep.start_offset ≤ℤ clamp_from ep from
clamp_from-ge ep from = ground arith

clamp_to-le : (ep : EndPoint) (to : ℤ) → clamp_to ep to +ℤ pos 1 ≤ℤ next_offset ep
clamp_to-le ep to = ground (
  arith,
  -ℤ_parts (next_offset ep) (pos 1),
  +ℤ_parts to (pos 1),
  +ℤ_parts (next_offset ep -ℤ pos 1) (pos 1),
)

answer_rejects : (ep : EndPoint) (a b : ℤ) → a <ℤ b → answer ep a b ≡ some []
unfolding answer
answer_rejects ep a b h = ground arith

answer_empty : (ep : EndPoint) (a b : ℤ) → b <ℤ a → answer ep a b ≡ some []
unfolding answer collect
answer_empty ep a b h =
    let rounds : pos_part (b +ℤ pos 1 -ℤ a) ≡ 0 =
      omega (arith, pos_part-sub (b +ℤ pos 1) a, +ℤ_parts b (pos 1)) in
    let test : ltb_ℤ a b ≡ false = ground arith in rw (test, rounds)

answer_one : (ep : EndPoint) (a : ℤ) → answer ep a a ≡ collect ep a 1
unfolding answer
answer_one ep a =
    let rounds : pos_part (a +ℤ pos 1 -ℤ a) ≡ 1 =
      omega (arith, pos_part-sub (a +ℤ pos 1) a, +ℤ_parts a (pos 1)) in
    let test : ltb_ℤ a a ≡ false = ground arith in rw (test, rounds)

same_parts : (a b : ℤ) → a ≡ b → pos_part a + neg_part b ≡ pos_part b + neg_part a
same_parts a b e = rw e (omega arith)

-- After clamping, a range that is not rejected is empty or one offset inside the inbox.
query_shape :
    (ep : EndPoint) (from to : ℤ)
    → (query ep from to ≡ some [])
      ⊎ ((i : ℕ) × (i < length ep.inbox)
          × (query ep from to ≡ collect ep (pos i +ℤ ep.start_offset) 1))
unfolding query
query_shape ep from to =
    let a = clamp_from ep from in
    let b = clamp_to ep to in
    elim (ℤ-cases a b) [
      | inl lt ↦ inl (answer_rejects ep a b lt)
      | inr rest ↦ elim rest [
        | inl gt ↦ inl (answer_empty ep a b gt)
        | inr same ↦
            let i = pos_part (a -ℤ ep.start_offset) in
            let back : a ≡ pos i +ℤ ep.start_offset = eq_of_parts _ _ (
              omega (
                arith,
                clamp_from-ge ep from,
                pos_part-sub a ep.start_offset,
                +ℤ_parts (pos i) ep.start_offset,
              )) in
            inr (
              i,
              omega (
                arith,
                same_parts a b same,
                clamp_from-ge ep from,
                clamp_to-le ep to,
                pos_part-sub a ep.start_offset,
                +ℤ_parts b (pos 1),
                +ℤ_parts ep.start_offset (pos (length ep.inbox)),
              ),
              ap (λ c. answer ep a c) (sym same) ∙ answer_one ep a ∙ ap (λ c. collect ep c 1) back,
            )
      ]
    ]

-- Whatever the range, `Query` does not panic, and returns one message of the inbox at most.
pub query_total :
    (ep : EndPoint) (from to : ℤ)
    → (out : List Message) × (query ep from to ≡ some out) × (length out ≤ 1)
query_total ep from to = elim (query_shape ep from to) [
  | inl e ↦ ([], e, omega arith)
  | inr (i, h, e) ↦
      let (msg, found) = get_elem?-some ep.inbox i h in
      (
        record msg { offset = pos i +ℤ ep.start_offset } ∷ [],
        e ∙ collect_one ep i msg found,
        omega arith,
      )
]

clamp_from_same : (ep : EndPoint) (from : ℤ) → ep.start_offset ≤ℤ from → clamp_from ep from ≡ from
clamp_from_same ep from h = ground arith

clamp_to_same : (ep : EndPoint) (to : ℤ) → to +ℤ pos 1 ≤ℤ next_offset ep → clamp_to ep to ≡ to
clamp_to_same ep to h = ground (arith, -ℤ_parts (next_offset ep) (pos 1), +ℤ_parts to (pos 1))

-- The offset of a text that the inbox holds is not clamped.
inbox_from :
    (ep : EndPoint) (log : List Text) (i : ℕ) (h : Holds ep log)
    → length h.dropped ≤ i
    → clamp_from ep (pos (i + 1)) ≡ pos (i + 1)
inbox_from ep log i h lo = clamp_from_same ep (pos (i + 1)) (omega (arith, same_parts _ _ h.start))

inbox_to :
    (ep : EndPoint) (log : List Text) (i : ℕ) (h : Holds ep log)
    → i < length log
    → clamp_to ep (pos (i + 1)) ≡ pos (i + 1)
inbox_to ep log i h hi = clamp_to_same ep (pos (i + 1)) (
    omega (
      arith,
      same_parts _ _ h.start,
      log_size ep log h,
      +ℤ_parts (pos (i + 1)) (pos 1),
      +ℤ_parts ep.start_offset (pos (length ep.inbox)),
    ))

get_elem?-lt :
    (texts : List Text) (i : ℕ) (t : Text) → get_elem? texts i ≡ some t → i < length texts
get_elem?-lt [] i t e = cc
get_elem?-lt (x ∷ texts) zero t e = omega arith
get_elem?-lt (x ∷ texts) (suc i) t e = omega (arith, get_elem?-lt texts i t e)

get_elem?-view :
    (msgs : List Message) (k : ℕ) (msg : Message)
    → get_elem? msgs k ≡ some msg
    → get_elem? (view msgs) k ≡ some (msg.id, msg.body)
get_elem?-view [] k msg e = cc
get_elem?-view (m ∷ msgs) zero msg e = cc
get_elem?-view (m ∷ msgs) (suc k) msg e = get_elem?-view msgs k msg e

-- A range of two offsets or more inside the inbox is answered with no message.
pub query_range_empty :
    (ep : EndPoint) (log : List Text) (i j : ℕ) (h : Holds ep log)
    → length h.dropped ≤ i
    → i < j
    → j < length log
    → query ep (pos (i + 1)) (pos (j + 1)) ≡ some []
unfolding query
query_range_empty ep log i j h lo lt hi =
    rw (inbox_from ep log i h lo, inbox_to ep log j h hi)
      (answer_rejects ep (pos (i + 1)) (pos (j + 1)) (omega arith))

-- A range of one offset that the inbox holds is answered with the message of the log at that offset.
pub query_one :
    (ep : EndPoint) (log : List Text) (i : ℕ) (text : Text) (h : Holds ep log)
    → length h.dropped ≤ i
    → get_elem? log i ≡ some text
    → query ep (pos (i + 1)) (pos (i + 1)) ≡ some (numbered i (text ∷ []))
unfolding query
query_one ep log i text h lo e =
    let d = length h.dropped in
    let k = i - d in
    let inside = get_elem?-lt log i text e in
    let (msg, found) = get_elem?-some ep.inbox k (omega (arith, log_size ep log h)) in
    let place : pos (i + 1) ≡ pos k +ℤ ep.start_offset =
      eq_of_parts _ _ (omega (arith, same_parts _ _ h.start, +ℤ_parts (pos k) ep.start_offset)) in
    let same : some (msg.id, msg.body) ≡ some text =
      sym (get_elem?-view ep.inbox k msg found)
      ∙ sym (get_elem?-append h.dropped (view ep.inbox) k)
      ∙ ap (get_elem? (h.dropped ++ view ep.inbox)) (omega arith)
      ∙ ap (λ l. get_elem? l i) (sym h.whole)
      ∙ e in
    let entry : some (record msg { offset = pos (i + 1) } ∷ []) ≡ some (numbered i (text ∷ [])) =
      ap (λ t. some (record { id = t.0; body = t.1; offset = pos (i + 1) } ∷ []))
        (some-injective _ _ same) in
    rw (inbox_from ep log i h lo, inbox_to ep log i h inside)
      (answer_one ep (pos (i + 1))
        ∙ ap (λ a. collect ep a 1) place
        ∙ collect_one ep k msg found
        ∙ ap (λ a. some (record msg { offset = a } ∷ [])) (sym place)
        ∙ entry)

-- `Latest` returns the end of the log, at most as much as the inbox holds and as was asked for, each
-- message with its place in the log.
pub latest_correct :
    (ep : EndPoint) (log : List Text) (count : ℕ) (h : Holds ep log)
    → let from = length h.dropped + (length ep.inbox - count) in
      latest ep (pos count) ≡ numbered from (drop from log)
unfolding latest
latest_correct ep log count h =
    let d = length h.dropped in
    let k = length ep.inbox - count in
    let index : pos_part (pos (length ep.inbox) -ℤ pos count) ≡ k =
      omega (arith, pos_part-sub (pos (length ep.inbox)) (pos count)) in
    let first : pos k +ℤ ep.start_offset ≡ pos (d + k + 1) =
      ap (λ s. pos k +ℤ s) h.start ∙ pos_add k (d + 1) ∙ ap pos (omega arith) in
    let rest : drop (d + k) log ≡ drop k (view ep.inbox) =
      ap (drop (d + k)) h.whole ∙ drop_past h.dropped (view ep.inbox) k in
    rw (index, first, rest)
      (drop-stamp_from (d + k) 0 (drop k ep.inbox)
        ∙ ap₂ numbered (omega arith) (view-drop k ep.inbox))
