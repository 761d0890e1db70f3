-- ===== src/Packet.antt =====
-- FKLib_Common/Packet/Packet.go: a byte buffer with a read position. A reader returns its result, its
-- error and the packet left behind; on an error the result is Go's zero value. A byte is a number
-- below 256, a `string` its bytes. The bits of the parts of a word never overlap, so the source's
-- `|` of shifted bytes is a sum. `int` positions and lengths are unbounded.
pub mod Cursor
pub mod RoundTrip
pub mod Truncated
pub mod Float
pub mod Pack
mod Tests
use fkgo_server.Base.{
  ℕ, zero, suc, ◌+◌, ◌-◌, ◌*◌, ◌/◌, ◌%◌, ◌^◌, ◌≤◌, ◌<◌, min, ◌≡◌, refl, sym, ap, ap₂, ◌∙◌, subst,
  ◌≢◌, ◌↔◌, ◌⊎◌, inl, inr, Bool, true, false, ◌&&◌, ◌||◌, not, Option, none, some, List, [], ◌∷◌,
  ◌++◌, map, append_assoc, append-nil, arith, dec_lt, ℕ_discrete, length, get_elem?, set, take,
  drop, replicate, length-append, length-take, length-drop, length-replicate, length-map,
  take-append-drop, take-append, drop-append, append_cons, take_at, drop_at, drop-drop, set-take,
  set-drop, set-append, set_at, get_elem?-append, ltb, leb, ◌==◌, if◌then◌else◌, ltb→lt, lt→ltb,
  leb→le, ==_iff, tests, Bool-cases, Option-cases, if_both,
}
use fkgo_server.Base.Int.{
  ℤ, pos, negsuc, pos_part, neg_part, sub_ℕ, ◌+ℤ◌, ◌-ℤ◌, ◌≤ℤ◌, ◌<ℤ◌, ltb_ℤ, leb_ℤ, eqb_ℤ,
  eq_of_parts, eqb_ℤ→eq, eqb_ℤ_refl, eqb_ℤ_ne, +ℤ_parts, -ℤ_parts, int_laws, signed16, signed32,
  signed64, unsigned, to_int32, to_int32-eq_of_lt, pos_part-sub, ℤ-cases,
}
use mathlib.Core.Option

-- The errors of the readers. The last one is none of the source: it stands for the panic of an index or a
-- slice out of range, which is never met (Packet/Truncated).
pub data Error : Type 0 where
  read_byte_failed : Error
  read_bytes_header_failed : Error
  read_bytes_data_failed : Error
  read_string_header_failed : Error
  read_string_data_failed : Error
  read_uint16_failed : Error
  read_uint24_failed : Error
  read_uint32_failed : Error
  read_uint64_failed : Error
  index_out_of_range : Error

pub record Packet : Type 0 where
  pub pos : ℕ
  pub content : List ℕ

-- A reader: result, error (`none` is nil) and the packet afterwards.
abbrev pub Reading : Type 0 → Type 0
Reading A = A × Option Error × Packet

-- `p.data[i]`, and `p.data[i : i+n]`; out of range they panic, `none`.
abbrev pub byte_at : List ℕ → ℕ → Option ℕ
byte_at [] i = none
byte_at (b ∷ bs) zero = some b
byte_at (b ∷ bs) (suc i) = byte_at bs i

abbrev pub bytes_at : List ℕ → ℕ → ℕ → Option (List ℕ)
bytes_at bytes i n = if ltb (length bytes) (i + n) then none else some (take n (drop i bytes))

-- `uint64(b) << k`, and `|` of bytes that are shifted apart.
abbrev pub shifted : Option ℕ → ℕ → Option ℕ
shifted none k = none
shifted (some b) k = some (b * 2 ^ k)

abbrev pub joined : Option ℕ → Option ℕ → Option ℕ
joined none b = none
joined (some a) none = none
joined (some a) (some b) = some (a + b)

abbrev pub advance : Packet → ℕ → Packet
advance p n = record p { pos = p.pos + n }

-- The end of a reader that takes `n` bytes, with what it makes of them.
abbrev pub taking : {A : Type 0} → A → ℕ → Packet → Option A → Reading A
taking zero_value n p none = (zero_value, some index_out_of_range, p)
taking zero_value n p (some ret) = (ret, none, advance p n)

unfoldable pub packet_length : Packet → ℕ
packet_length p = length p.content

unfoldable pub read_byte : Packet → Reading ℕ
read_byte p =
    if leb (length p.content) p.pos
    then (0, some read_byte_failed, p)
    else taking 0 1 p (byte_at p.content p.pos)

unfoldable pub read_bool : Packet → Reading Bool
read_bool p = let (b, err, p') = read_byte p in (b == 1, err, p')

unfoldable pub read_u16 : Packet → Reading ℕ
read_u16 p =
    if ltb (length p.content) (p.pos + 2)
    then (0, some read_uint16_failed, p)
    else taking 0 2 p (joined (shifted (byte_at p.content p.pos) 8) (byte_at p.content (p.pos + 1)))

-- The bodies that `ReadBytes` and `ReadString` share, with the errors of each: the data behind the
-- size, and the whole.
unfoldable pub read_sized : Error → ℕ → Packet → Reading (List ℕ)
read_sized data_error size p =
    if ltb (length p.content) (p.pos + size)
    then ([], some data_error, p)
    else taking [] size p (bytes_at p.content p.pos size)

unfoldable pub read_block : Error → Error → Packet → Reading (List ℕ)
read_block header_error data_error p =
    if ltb (length p.content) (p.pos + 2)
    then ([], some header_error, p)
    else let (size, _, p') = read_u16 p in read_sized data_error size p'

unfoldable pub read_bytes : Packet → Reading (List ℕ)
read_bytes = read_block read_bytes_header_failed read_bytes_data_failed

unfoldable pub read_string : Packet → Reading (List ℕ)
read_string = read_block read_string_header_failed read_string_data_failed

unfoldable pub read_u24 : Packet → Reading ℕ
read_u24 p =
    if ltb (length p.content) (p.pos + 3)
    then (0, some read_uint24_failed, p)
    else taking 0 3 p (
        joined
          (joined (shifted (byte_at p.content p.pos) 16)
            (shifted (byte_at p.content (p.pos + 1)) 8))
          (byte_at p.content (p.pos + 2)))

unfoldable pub read_u32 : Packet → Reading ℕ
read_u32 p =
    if ltb (length p.content) (p.pos + 4)
    then (0, some read_uint32_failed, p)
    else taking 0 4 p (
        joined
          (joined
            (joined (shifted (byte_at p.content p.pos) 24)
              (shifted (byte_at p.content (p.pos + 1)) 16))
            (shifted (byte_at p.content (p.pos + 2)) 8))
          (byte_at p.content (p.pos + 3)))

-- The loop of `ReadU64` with `n` bytes left: `i` is `8 - n`.
unfoldable pub gather : ℕ → ℕ → List ℕ → ℕ
gather zero ret buf = ret
gather (suc n) ret [] = ret
gather (suc n) ret (v ∷ buf) = gather n (ret + v * 2 ^ (n * 8)) buf

unfoldable pub read_u64 : Packet → Reading ℕ
read_u64 p =
    if ltb (length p.content) (p.pos + 8)
    then (0, some read_uint64_failed, p)
    else taking 0 8 p (Option.map (gather 8 0) (bytes_at p.content p.pos 8))

-- The signed readers reinterpret the bits, with an error as well. `int32` of 24 bits is not negative.
abbrev pub signed8 : ℕ → ℤ
signed8 w = if ltb w (2 ^ 7) then pos w else negsuc (2 ^ 8 - w - 1)

unfoldable pub read_s8 : Packet → Reading ℤ
read_s8 p = let (w, err, p') = read_byte p in (signed8 w, err, p')

unfoldable pub read_s16 : Packet → Reading ℤ
read_s16 p = let (w, err, p') = read_u16 p in (signed16 w, err, p')

unfoldable pub read_s24 : Packet → Reading ℤ
read_s24 p = let (w, err, p') = read_u24 p in (signed32 w, err, p')

unfoldable pub read_s32 : Packet → Reading ℤ
read_s32 p = let (w, err, p') = read_u32 p in (signed32 w, err, p')

unfoldable pub read_s64 : Packet → Reading ℤ
read_s64 p = let (w, err, p') = read_u64 p in (signed64 w, err, p')

abbrev pub append : Packet → List ℕ → Packet
append p bytes = record p { content = p.content ++ bytes }

-- `byte(v >> k)`.
abbrev pub byte_of : ℕ → ℕ → ℕ
byte_of v k = v / 2 ^ k % 2 ^ 8

unfoldable pub write_zeros : Packet → ℕ → Packet
write_zeros p zero = p
write_zeros p (suc n) = write_zeros (append p (0 ∷ [])) n

unfoldable pub write_bool : Packet → Bool → Packet
write_bool p v = if v then append p (1 ∷ []) else append p (0 ∷ [])

unfoldable pub write_byte : Packet → ℕ → Packet
write_byte p v = append p (v ∷ [])

unfoldable pub write_u16 : Packet → ℕ → Packet
write_u16 p v = append p (byte_of v 8 ∷ byte_of v 0 ∷ [])

-- `uint16(len(v))` keeps the low 16 bits of the length.
unfoldable pub write_bytes : Packet → List ℕ → Packet
write_bytes p v = append (write_u16 p (length v % 2 ^ 16)) v

unfoldable pub write_raw_bytes : Packet → List ℕ → Packet
write_raw_bytes p v = append p v

unfoldable pub write_string : Packet → List ℕ → Packet
write_string p v = append (write_u16 p (length v % 2 ^ 16)) v

unfoldable pub write_s8 : Packet → ℤ → Packet
write_s8 p v = write_byte p (unsigned (2 ^ 8) v)

unfoldable pub write_s16 : Packet → ℤ → Packet
write_s16 p v = write_u16 p (unsigned (2 ^ 16) v)

unfoldable pub write_u24 : Packet → ℕ → Packet
write_u24 p v = append p (byte_of v 16 ∷ byte_of v 8 ∷ byte_of v 0 ∷ [])

unfoldable pub write_u32 : Packet → ℕ → Packet
write_u32 p v = append p (byte_of v 24 ∷ byte_of v 16 ∷ byte_of v 8 ∷ byte_of v 0 ∷ [])

unfoldable pub write_s32 : Packet → ℤ → Packet
write_s32 p v = write_u32 p (unsigned (2 ^ 32) v)

unfoldable pub write_u64 : Packet → ℕ → Packet
write_u64 p v = append p (
    byte_of v 56
    ∷ byte_of v 48
    ∷ byte_of v 40
    ∷ byte_of v 32
    ∷ byte_of v 24
    ∷ byte_of v 16
    ∷ byte_of v 8
    ∷ byte_of v 0
    ∷ [])

unfoldable pub write_s64 : Packet → ℤ → Packet
write_s64 p v = write_u64 p (unsigned (2 ^ 64) v)

unfoldable pub reader : List ℕ → Packet
reader bytes = record { pos = 0; content = bytes }

unfoldable pub writer : Packet
writer = record { pos = 0; content = [] }
