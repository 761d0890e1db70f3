-- ===== src/Agent/Frame.antt =====
-- The frames on the wire between client and agent: FKServer_Agent/Framework/Buffer.go writes them and
-- InitApp.go reads them. Two bytes of length, then the data.
use fkgo_server.Base.{
  ℕ, zero, suc, ◌+◌, ◌*◌, ◌/◌, ◌%◌, ◌^◌, ◌≤◌, ◌≡◌, refl, ap, ap₂, ◌∙◌, false, Option, none, some,
  List, [], ◌∷◌, ◌++◌, arith, length, take, drop, length-append, take-append, drop-append, ltb,
  if◌then◌else◌,
}

-- `PACKET_LIMIT` of Packet.go.
abbrev pub packet_limit : ℕ
packet_limit = 65535

-- The length and the body in the cache.
abbrev pub framed : List ℕ → List ℕ
framed body = length body % 2 ^ 16 / 2 ^ 8 ∷ length body % 2 ^ 8 ∷ body

-- `func_EncapsulationAndSendPacket`: what goes to the connection. The cache holds `packet_limit + 2`
-- bytes, so that a longer slice of it panics, which is `none`.
unfoldable pub encapsulate : List ℕ → Option (List ℕ)
encapsulate body =
    let sz = length body in if ltb (packet_limit + 2) (sz + 2) then none else some (framed body)

-- The two reads of one round of the loop, over the bytes that the client sends until the connection
-- ends or times out: the payload and the bytes behind it, or `none` where a read fails.
unfoldable pub read_frame : List ℕ → Option (List ℕ × List ℕ)
read_frame [] = none
read_frame (a ∷ []) = none
read_frame (a ∷ b ∷ bytes) =
    let size = a * 2 ^ 8 + b in
    if ltb (length bytes) size then none else some (take size bytes, drop size bytes)

unfoldable pub next_frames : (List ℕ → List (List ℕ)) → Option (List ℕ × List ℕ) → List (List ℕ)
next_frames go_on none = []
next_frames go_on (some (payload, rest)) = payload ∷ go_on rest

-- The loop, at most `n` rounds: the payloads that it passes to the session.
unfoldable pub read_frames : ℕ → List ℕ → List (List ℕ)
read_frames zero bytes = []
read_frames (suc n) bytes = next_frames (read_frames n) (read_frame bytes)

unfoldable pub join : Option (List ℕ) → Option (List ℕ) → Option (List ℕ)
join (some a) (some b) = some (a ++ b)
join _ _ = none

next_frames-some :
    (n : ℕ) (body rest : List ℕ)
    → next_frames (read_frames n) (some (body, rest)) ≡ body ∷ read_frames n rest
unfolding next_frames
next_frames-some n body rest = refl

-- A frame is read as it was written, whatever follows it.
read_frame-encapsulate :
    (body rest : List ℕ)
    → length body ≤ packet_limit
    → read_frame (framed body ++ rest) ≡ some (body, rest)
unfolding read_frame
read_frame-encapsulate body rest h =
    let size : length body % 2 ^ 16 / 2 ^ 8 * 2 ^ 8 + length body % 2 ^ 8 ≡ length body =
      omega arith in
    let enough : ltb (length (body ++ rest)) (length body) ≡ false =
      ground (arith, length-append body rest) in
    rw (size, enough, take-append, drop-append)

encapsulate_small :
    (body : List ℕ) → length body ≤ packet_limit → encapsulate body ≡ some (framed body)
unfolding encapsulate
encapsulate_small body h = ground arith

-- What goes to the connection for several messages, one after the other.
unfoldable pub encapsulate_all : List (List ℕ) → Option (List ℕ)
encapsulate_all [] = some []
encapsulate_all (body ∷ bodies) = join (encapsulate body) (encapsulate_all bodies)

-- No message is longer than `packet_limit` bytes.
abbrev pub Fit : List (List ℕ) → Type 0
Fit [] = Unit
Fit (body ∷ bodies) = (length body ≤ packet_limit) × Fit bodies

-- Messages of at most `packet_limit` bytes all go out, and the reader's loop, in one round for each and
-- one more or in more rounds, gets the same messages in the same order.
pub frames_RoundTrip :
    (bodies : List (List ℕ)) (n : ℕ)
    → Fit bodies
    → length bodies ≤ n
    → (out : List ℕ) × (encapsulate_all bodies ≡ some out) × (read_frames n out ≡ bodies)
unfolding encapsulate_all read_frames read_frame join next_frames
frames_RoundTrip [] zero f le = ([], refl, refl)
frames_RoundTrip [] (suc n) f le = ([], refl, refl)
frames_RoundTrip (body ∷ bodies) zero f le = absurd (omega arith)
frames_RoundTrip (body ∷ bodies) (suc n) f le =
    let (out, sent, back) = frames_RoundTrip bodies n f.1 (omega arith) in
    (
      framed body ++ out,
      ap₂ join (encapsulate_small body f.0) sent,
      ap (next_frames (read_frames n)) (read_frame-encapsulate body out f.0)
          ∙ next_frames-some n body out
          ∙ ap (λ l. body ∷ l) back,
    )
