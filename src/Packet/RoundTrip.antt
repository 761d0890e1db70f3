-- ===== src/Packet/RoundTrip.antt =====
-- What is written is read back: each reader of Packet.go, standing where its writer wrote.
use fkgo_server.Base.{
  ℕ, ◌+◌, ◌*◌, ◌%◌, ◌^◌, ◌≤◌, ◌<◌, ◌≡◌, refl, ap, ap₂, ◌∙◌, Bool, true, false, none, List, [], ◌∷◌,
  ◌++◌, append_assoc, arith, length, length-append, take-append, drop-append, ltb, leb,
}
use fkgo_server.Base.Int.{ℤ, pos_part, neg_part, signed16, signed32, signed64, unsigned}
use fkgo_server.Packet.{
  Packet, Reading, append, byte_of, read_byte, read_bool, read_u16, read_u24, read_u32, read_u64,
  read_block, read_sized, read_bytes_header_failed, read_bytes_data_failed,
  read_string_header_failed, read_string_data_failed, read_bytes, read_string, read_s16, read_s32,
  read_s64, gather, write_bool, write_byte, write_u16, write_u24, write_u32, write_u64, write_s16,
  write_s32, write_s64, write_bytes, write_string, Error,
}
use fkgo_server.Packet.Cursor.{at_cursor, byte_at-cursor, byte_at-first, cursor_step}

-- A writer appends the bytes, wherever it stands; a reader takes the bytes, wherever they stand.
abbrev pub Writes : (Packet → Packet) → List ℕ → Type 0
Writes write bytes = (w : Packet) → write w ≡ append w bytes

abbrev pub Reads : {A : Type 0} → (Packet → Reading A) → A → List ℕ → Type 0
Reads read v bytes =
    (before rest : List ℕ)
    → read (at_cursor before (bytes ++ rest)) ≡ (v, none, at_cursor (before ++ bytes) rest)

-- What the writer appends for `v`, the reader gives back as `v` with no error, and stands behind it.
abbrev pub RoundTrips : {A : Type 0} → (Packet → Reading A) → (Packet → A → Packet) → A → Type 0
RoundTrips read write v = (bytes : List ℕ) × Writes (λ w. write w v) bytes × Reads read v bytes

-- The bytes that the writers append.
abbrev pub bytes_u16 : ℕ → List ℕ
bytes_u16 v = byte_of v 8 ∷ byte_of v 0 ∷ []

abbrev pub bytes_u24 : ℕ → List ℕ
bytes_u24 v = byte_of v 16 ∷ byte_of v 8 ∷ byte_of v 0 ∷ []

abbrev pub bytes_u32 : ℕ → List ℕ
bytes_u32 v = byte_of v 24 ∷ byte_of v 16 ∷ byte_of v 8 ∷ byte_of v 0 ∷ []

abbrev pub bytes_u64 : ℕ → List ℕ
bytes_u64 v =
    byte_of v 56
    ∷ byte_of v 48
    ∷ byte_of v 40
    ∷ byte_of v 32
    ∷ byte_of v 24
    ∷ byte_of v 16
    ∷ byte_of v 8
    ∷ byte_of v 0
    ∷ []

read_byte_raw :
    (before rest : List ℕ) (a : ℕ)
    → read_byte (at_cursor before (a ∷ rest)) ≡ (a, none, at_cursor (before ++ (a ∷ [])) rest)
unfolding read_byte
read_byte_raw before rest a =
    let long = length-append before (a ∷ rest) in
    let enough : leb (length (before ++ (a ∷ rest))) (length before) ≡ false = ground arith in
    rw (enough, byte_at-first) (ap (λ p. (a, none, p)) (cursor_step before (a ∷ []) rest 1 refl))

read_u16_raw :
    (before rest : List ℕ) (a b : ℕ)
    → read_u16 (at_cursor before (a ∷ b ∷ rest))
      ≡ (a * 2 ^ 8 + b, none, at_cursor (before ++ (a ∷ b ∷ [])) rest)
unfolding read_u16
read_u16_raw before rest a b =
    let long = length-append before (a ∷ b ∷ rest) in
    let enough : ltb (length (before ++ (a ∷ b ∷ rest))) (length before + 2) ≡ false =
      ground arith in
    rw (enough, byte_at-first, byte_at-cursor)
      (ap (λ p. (a * 2 ^ 8 + b, none, p)) (cursor_step before (a ∷ b ∷ []) rest 2 refl))

read_u24_raw :
    (before rest : List ℕ) (a b c : ℕ)
    → read_u24 (at_cursor before (a ∷ b ∷ c ∷ rest))
      ≡ (a * 2 ^ 16 + b * 2 ^ 8 + c, none, at_cursor (before ++ (a ∷ b ∷ c ∷ [])) rest)
unfolding read_u24
read_u24_raw before rest a b c =
    let long = length-append before (a ∷ b ∷ c ∷ rest) in
    let enough : ltb (length (before ++ (a ∷ b ∷ c ∷ rest))) (length before + 3) ≡ false =
      ground arith in
    rw (enough, byte_at-first, byte_at-cursor, byte_at-cursor)
      (ap (λ p. (a * 2 ^ 16 + b * 2 ^ 8 + c, none, p))
        (cursor_step before (a ∷ b ∷ c ∷ []) rest 3 refl))

read_u32_raw :
    (before rest : List ℕ) (a b c d : ℕ)
    → read_u32 (at_cursor before (a ∷ b ∷ c ∷ d ∷ rest)) ≡ (
      a * 2 ^ 24 + b * 2 ^ 16 + c * 2 ^ 8 + d,
      none,
      at_cursor (before ++ (a ∷ b ∷ c ∷ d ∷ [])) rest,
    )
unfolding read_u32
read_u32_raw before rest a b c d =
    let long = length-append before (a ∷ b ∷ c ∷ d ∷ rest) in
    let enough : ltb (length (before ++ (a ∷ b ∷ c ∷ d ∷ rest))) (length before + 4) ≡ false =
      ground arith in
    rw (enough, byte_at-first, byte_at-cursor, byte_at-cursor, byte_at-cursor)
      (ap (λ p. (a * 2 ^ 24 + b * 2 ^ 16 + c * 2 ^ 8 + d, none, p))
        (cursor_step before (a ∷ b ∷ c ∷ d ∷ []) rest 4 refl))

read_u64_raw :
    (before rest : List ℕ) (v : ℕ)
    → v < 2 ^ 64
    → read_u64 (at_cursor before (bytes_u64 v ++ rest))
      ≡ (v, none, at_cursor (before ++ bytes_u64 v) rest)
unfolding read_u64 gather
read_u64_raw before rest v h =
    let long = length-append before (bytes_u64 v ++ rest) in
    let enough : ltb (length (before ++ (bytes_u64 v ++ rest))) (length before + 8) ≡ false =
      ground arith in
    let value : gather 8 0 (bytes_u64 v) ≡ v = omega arith in
    rw (enough, drop-append)
      (ap₂ (λ w p. (w, none, p)) value (cursor_step before (bytes_u64 v) rest 8 refl))

-- `ReadU16` gives back what `WriteU16` wrote, and stands behind it; so for the other widths.
pub read_u16-write :
    (before rest : List ℕ) (v : ℕ)
    → v < 2 ^ 16
    → read_u16 (at_cursor before (bytes_u16 v ++ rest))
      ≡ (v, none, at_cursor (before ++ bytes_u16 v) rest)
read_u16-write before rest v h =
    read_u16_raw before rest (byte_of v 8) (byte_of v 0)
    ∙ ap (λ w. (w, none, at_cursor (before ++ bytes_u16 v) rest)) (omega arith)

read_u24-write :
    (before rest : List ℕ) (v : ℕ)
    → v < 2 ^ 24
    → read_u24 (at_cursor before (bytes_u24 v ++ rest))
      ≡ (v, none, at_cursor (before ++ bytes_u24 v) rest)
read_u24-write before rest v h =
    read_u24_raw before rest (byte_of v 16) (byte_of v 8) (byte_of v 0)
    ∙ ap (λ w. (w, none, at_cursor (before ++ bytes_u24 v) rest)) (omega arith)

read_u32-write :
    (before rest : List ℕ) (v : ℕ)
    → v < 2 ^ 32
    → read_u32 (at_cursor before (bytes_u32 v ++ rest))
      ≡ (v, none, at_cursor (before ++ bytes_u32 v) rest)
read_u32-write before rest v h =
    read_u32_raw before rest (byte_of v 24) (byte_of v 16) (byte_of v 8) (byte_of v 0)
    ∙ ap (λ w. (w, none, at_cursor (before ++ bytes_u32 v) rest)) (omega arith)

read_u64-write :
    (before rest : List ℕ) (v : ℕ)
    → v < 2 ^ 64
    → read_u64 (at_cursor before (bytes_u64 v ++ rest))
      ≡ (v, none, at_cursor (before ++ bytes_u64 v) rest)
read_u64-write = read_u64_raw

pub u16_RoundTrips : (v : ℕ) → v < 2 ^ 16 → RoundTrips read_u16 write_u16 v
unfolding write_u16
u16_RoundTrips v h = (bytes_u16 v, λ w. refl, λ before rest. read_u16-write before rest v h)

pub u32_RoundTrips : (v : ℕ) → v < 2 ^ 32 → RoundTrips read_u32 write_u32 v
unfolding write_u32
u32_RoundTrips v h = (bytes_u32 v, λ w. refl, λ before rest. read_u32-write before rest v h)

pub u64_RoundTrips : (v : ℕ) → v < 2 ^ 64 → RoundTrips read_u64 write_u64 v
unfolding write_u64
u64_RoundTrips v h = (bytes_u64 v, λ w. refl, λ before rest. read_u64-write before rest v h)

-- A byte and words of 16, 24, 32 and 64 bits, each in its range, are read back as they were written,
-- with no error, by a reader that then stands behind them.
pub unsigned_RoundTrips :
    (a b c d e : ℕ)
    → b < 2 ^ 16
    → c < 2 ^ 24
    → d < 2 ^ 32
    → e < 2 ^ 64
    → RoundTrips read_byte write_byte a
      × RoundTrips read_u16 write_u16 b
      × RoundTrips read_u24 write_u24 c
      × RoundTrips read_u32 write_u32 d
      × RoundTrips read_u64 write_u64 e
unfolding write_byte write_u24
unsigned_RoundTrips a b c d e hb hc hd he = (
  (a ∷ [], λ w. refl, λ before rest. read_byte_raw before rest a),
  u16_RoundTrips b hb,
  (bytes_u24 c, λ w. refl, λ before rest. read_u24-write before rest c hc),
  u32_RoundTrips d hd,
  u64_RoundTrips e he,
)

-- A Boolean is read back as it was written, with no error.
pub bool_RoundTrips : (v : Bool) → RoundTrips read_bool write_bool v
unfolding read_bool write_bool
bool_RoundTrips true = (1 ∷ [], λ w. refl, λ before rest. rw (read_byte_raw before rest 1))
bool_RoundTrips false = (0 ∷ [], λ w. refl, λ before rest. rw (read_byte_raw before rest 0))

-- The range of a signed word of `w` values.
abbrev pub InRange : ℕ → ℤ → Type 0
InRange half v = (pos_part v < half) × (neg_part v ≤ half)

signed16-unsigned : (v : ℤ) → InRange (2 ^ 15) v → signed16 (unsigned (2 ^ 16) v) ≡ v
signed16-unsigned v h = ground arith

signed32-unsigned : (v : ℤ) → InRange (2 ^ 31) v → signed32 (unsigned (2 ^ 32) v) ≡ v
signed32-unsigned v h = ground arith

signed64-unsigned : (v : ℤ) → InRange (2 ^ 63) v → signed64 (unsigned (2 ^ 64) v) ≡ v
signed64-unsigned v h = ground arith

unsigned-lt : (m : ℕ) (v : ℤ) → 0 < m → unsigned m v < m
unsigned-lt m v h = ground arith

pub s16_RoundTrips : (v : ℤ) → InRange (2 ^ 15) v → RoundTrips read_s16 write_s16 v
unfolding read_s16 write_s16 write_u16
s16_RoundTrips v h =
    let word = unsigned (2 ^ 16) v in
    (
      bytes_u16 word,
      λ w. refl,
      λ before rest. rw (
        read_u16-write before rest word (unsigned-lt (2 ^ 16) v (omega arith)),
        signed16-unsigned v h,
      ),
    )

pub s32_RoundTrips : (v : ℤ) → InRange (2 ^ 31) v → RoundTrips read_s32 write_s32 v
unfolding read_s32 write_s32 write_u32
s32_RoundTrips v h =
    let word = unsigned (2 ^ 32) v in
    (
      bytes_u32 word,
      λ w. refl,
      λ before rest. rw (
        read_u32-write before rest word (unsigned-lt (2 ^ 32) v (omega arith)),
        signed32-unsigned v h,
      ),
    )

pub s64_RoundTrips : (v : ℤ) → InRange (2 ^ 63) v → RoundTrips read_s64 write_s64 v
unfolding read_s64 write_s64 write_u64
s64_RoundTrips v h =
    let word = unsigned (2 ^ 64) v in
    (
      bytes_u64 word,
      λ w. refl,
      λ before rest. rw (
        read_u64-write before rest word (unsigned-lt (2 ^ 64) v (omega arith)),
        signed64-unsigned v h,
      ),
    )

-- Signed words of 16, 32 and 64 bits, each in its range, are read back as they were written, with no
-- error.
pub signed_RoundTrips :
    (a b c : ℤ)
    → InRange (2 ^ 15) a
    → InRange (2 ^ 31) b
    → InRange (2 ^ 63) c
    → RoundTrips read_s16 write_s16 a
      × RoundTrips read_s32 write_s32 b
      × RoundTrips read_s64 write_s64 c
signed_RoundTrips a b c ha hb hc = (s16_RoundTrips a ha, s32_RoundTrips b hb, s64_RoundTrips c hc)

-- A block: its length in two bytes, then its bytes.
pub read_sized_at :
    (data_error : Error) (before rest v : List ℕ)
    → read_sized data_error (length v) (at_cursor before (v ++ rest))
      ≡ (v, none, at_cursor (before ++ v) rest)
unfolding read_sized
read_sized_at data_error before rest v =
    let long = length-append before (v ++ rest) in
    let more = length-append v rest in
    let enough : ltb (length (before ++ (v ++ rest))) (length before + length v) ≡ false =
      ground arith in
    rw (enough, drop-append, take-append)
      (ap (λ p. (v, none, p)) (cursor_step before v rest (length v) refl))

pub read_block_header :
    (header_error data_error : Error) (before rest : List ℕ) (n : ℕ)
    → n < 2 ^ 16
    → read_block header_error data_error (at_cursor before (bytes_u16 n ++ rest))
      ≡ read_sized data_error n (at_cursor (before ++ bytes_u16 n) rest)
unfolding read_block
read_block_header header_error data_error before rest n h =
    let long = length-append before (bytes_u16 n ++ rest) in
    let enough : ltb (length (before ++ (bytes_u16 n ++ rest))) (length before + 2) ≡ false =
      ground arith in
    rw (enough, read_u16-write before rest n h)

read_block_at :
    (header_error data_error : Error) (v : List ℕ)
    → length v < 2 ^ 16
    → Reads (read_block header_error data_error) v (bytes_u16 (length v) ++ v)
read_block_at header_error data_error v h before rest =
    read_block_header header_error data_error before (v ++ rest) (length v) h
    ∙ read_sized_at data_error (before ++ bytes_u16 (length v)) rest v
    ∙ ap (λ l. (v, none, at_cursor l rest)) (append_assoc before (bytes_u16 (length v)) v)

write_block_at :
    (w : Packet) (v : List ℕ)
    → length v < 2 ^ 16
    → append (append w (bytes_u16 (length v % 2 ^ 16))) v ≡ append w (bytes_u16 (length v) ++ v)
write_block_at w v h =
    let e : length v % 2 ^ 16 ≡ length v = omega arith in
    rw e (ap (λ l. record w { content = l }) (append_assoc w.content (bytes_u16 (length v)) v))

pub string_RoundTrips : (v : List ℕ) → length v < 2 ^ 16 → RoundTrips read_string write_string v
unfolding read_string write_string write_u16
string_RoundTrips v h = (
  bytes_u16 (length v) ++ v,
  λ w. write_block_at w v h,
  read_block_at read_string_header_failed read_string_data_failed v h,
)

-- A block or a string of fewer than 2 ^ 16 bytes is read back as it was written, with no error.
pub block_RoundTrips :
    (v : List ℕ)
    → length v < 2 ^ 16
    → RoundTrips read_bytes write_bytes v × RoundTrips read_string write_string v
unfolding read_bytes write_bytes write_u16
block_RoundTrips v h = (
  (
    bytes_u16 (length v) ++ v,
    λ w. write_block_at w v h,
    read_block_at read_bytes_header_failed read_bytes_data_failed v h,
  ),
  string_RoundTrips v h,
)
