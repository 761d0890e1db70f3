-- ===== src/Packet/Truncated.antt =====
-- Packet.go at its limits: readers at the end of the data, and blocks of 2 ^ 16 bytes and more.
use fkgo_server.Base.{
  ℕ, zero, suc, ◌+◌, ◌*◌, ◌%◌, ◌^◌, ◌≤◌, ◌<◌, ◌≡◌, refl, ap, ◌∙◌, ◌≢◌, inl, inr, Bool, true, false,
  none, some, List, [], ◌∷◌, ◌++◌, append_assoc, arith, length, take, drop, ltb, leb, Bool-cases,
}
use mathlib.Core.Option
use fkgo_server.Packet.{
  Packet, Reading, byte_at, taking, gather, index_out_of_range, read_byte_failed,
  read_uint16_failed, read_uint24_failed, read_uint32_failed, read_uint64_failed,
  read_string_header_failed, read_string_data_failed, read_s8, read_s16, read_s24, read_s32,
  read_s64, read_byte, read_bool, read_u16, read_u24, read_u32, read_u64, read_block, read_sized,
  read_bytes, read_string, read_bytes_header_failed, read_bytes_data_failed, write_bytes, write_u16,
  Error,
}
use fkgo_server.Packet.Float.{Floats, decode32, decode64, read_float32, read_float64}
use fkgo_server.Packet.Cursor.{at_cursor}
use fkgo_server.Packet.RoundTrip.{bytes_u16, read_block_header, read_sized_at}

-- `q` is `p` moved forward within its data.
pub record Follows (p : Packet) (q : Packet) : Type 0 where
  pub same_content : q.content ≡ p.content
  pub forward : p.pos ≤ q.pos
  pub inside : q.pos ≤ length q.content

-- A reader met no index and no slice out of range, and its packet follows `p`.
abbrev pub Safe : {A : Type 0} → Packet → Reading A → Type 0
Safe p (result, err, q) = Follows p q × (err ≢ some index_out_of_range)

-- A reader that takes bytes which are there, and one that fails with an error of its own.
taking-Safe :
    {A : Type 0} (zero_value ret : A) (n : ℕ) (p : Packet)
    → p.pos + n ≤ length p.content
    → Safe p (taking zero_value n p (some ret))
taking-Safe zero_value ret n p h =
    (record { same_content = refl; forward = omega arith; inside = h }, λ e. cc)

abbrev is_panic : Error → Bool
is_panic index_out_of_range = true
is_panic _ = false

failing-Safe :
    {A : Type 0} (zero_value : A) (err : Error) (p : Packet)
    → is_panic err ≡ false
    → p.pos ≤ length p.content
    → Safe p (zero_value, some err, p)
failing-Safe zero_value err p own h = (
  record { same_content = refl; forward = omega arith; inside = h },
  λ e. absurd (ground (arith, own, ap (Option.map is_panic) e)),
)

byte_at-some : (bytes : List ℕ) (i : ℕ) → i < length bytes → (b : ℕ) × (byte_at bytes i ≡ some b)
byte_at-some [] i h = absurd (omega (arith, h))
byte_at-some (b ∷ bytes) zero h = (b, refl)
byte_at-some (b ∷ bytes) (suc i) h = byte_at-some bytes i (omega (arith, h))

read_byte-Safe : (p : Packet) → p.pos ≤ length p.content → Safe p (read_byte p)
unfolding read_byte
read_byte-Safe p h = elim (Bool-cases (leb (length p.content) p.pos)) [
  | inl e ↦ rw e (failing-Safe {A = ℕ} 0 read_byte_failed p refl h)
  | inr e ↦
      let (a, ea) = byte_at-some p.content p.pos (ground (arith, e)) in
      rw (e, ea) (taking-Safe {A = ℕ} 0 a 1 p (ground (arith, e)))
]

read_u16-Safe : (p : Packet) → p.pos ≤ length p.content → Safe p (read_u16 p)
unfolding read_u16
read_u16-Safe p h = elim (Bool-cases (ltb (length p.content) (p.pos + 2))) [
  | inl e ↦ rw e (failing-Safe {A = ℕ} 0 read_uint16_failed p refl h)
  | inr e ↦
      let enough : p.pos + 2 ≤ length p.content = ground (arith, e) in
      let (a, ea) = byte_at-some p.content p.pos (omega (arith, enough)) in
      let (b, eb) = byte_at-some p.content (p.pos + 1) (omega (arith, enough)) in
      rw (e, ea, eb) (taking-Safe {A = ℕ} 0 (a * 2 ^ 8 + b) 2 p enough)
]

read_u24-Safe : (p : Packet) → p.pos ≤ length p.content → Safe p (read_u24 p)
unfolding read_u24
read_u24-Safe p h = elim (Bool-cases (ltb (length p.content) (p.pos + 3))) [
  | inl e ↦ rw e (failing-Safe {A = ℕ} 0 read_uint24_failed p refl h)
  | inr e ↦
      let enough : p.pos + 3 ≤ length p.content = ground (arith, e) in
      let (a, ea) = byte_at-some p.content p.pos (omega (arith, enough)) in
      let (b, eb) = byte_at-some p.content (p.pos + 1) (omega (arith, enough)) in
      let (c, ec) = byte_at-some p.content (p.pos + 2) (omega (arith, enough)) in
      rw (e, ea, eb, ec) (taking-Safe {A = ℕ} 0 (a * 2 ^ 16 + b * 2 ^ 8 + c) 3 p enough)
]

read_u32-Safe : (p : Packet) → p.pos ≤ length p.content → Safe p (read_u32 p)
unfolding read_u32
read_u32-Safe p h = elim (Bool-cases (ltb (length p.content) (p.pos + 4))) [
  | inl e ↦ rw e (failing-Safe {A = ℕ} 0 read_uint32_failed p refl h)
  | inr e ↦
      let enough : p.pos + 4 ≤ length p.content = ground (arith, e) in
      let (a, ea) = byte_at-some p.content p.pos (omega (arith, enough)) in
      let (b, eb) = byte_at-some p.content (p.pos + 1) (omega (arith, enough)) in
      let (c, ec) = byte_at-some p.content (p.pos + 2) (omega (arith, enough)) in
      let (d, ed) = byte_at-some p.content (p.pos + 3) (omega (arith, enough)) in
      rw (e, ea, eb, ec, ed)
        (taking-Safe {A = ℕ} 0 (a * 2 ^ 24 + b * 2 ^ 16 + c * 2 ^ 8 + d) 4 p enough)
]

read_u64-Safe : (p : Packet) → p.pos ≤ length p.content → Safe p (read_u64 p)
unfolding read_u64
read_u64-Safe p h = elim (Bool-cases (ltb (length p.content) (p.pos + 8))) [
  | inl e ↦ rw e (failing-Safe {A = ℕ} 0 read_uint64_failed p refl h)
  | inr e ↦
      rw e
        (taking-Safe {A = ℕ} 0 (gather 8 0 (take 8 (drop p.pos p.content))) 8 p (ground (arith, e)))
]

read_sized-Safe :
    (data_error : Error) (n : ℕ) (p : Packet)
    → is_panic data_error ≡ false
    → p.pos ≤ length p.content
    → Safe p (read_sized data_error n p)
unfolding read_sized
read_sized-Safe data_error n p own h = elim (Bool-cases (ltb (length p.content) (p.pos + n))) [
  | inl e ↦ rw e (failing-Safe {A = List ℕ} [] data_error p own h)
  | inr e ↦
      rw e (taking-Safe {A = List ℕ} [] (take n (drop p.pos p.content)) n p (ground (arith, e)))
]

Follows-trans : {p q r : Packet} → Follows p q → Follows q r → Follows p r
Follows-trans f g = record {
  same_content = g.same_content ∙ f.same_content;
  forward = omega arith;
  inside = g.inside;
}

read_block-Safe :
    (header_error data_error : Error) (p : Packet)
    → is_panic header_error ≡ false
    → is_panic data_error ≡ false
    → p.pos ≤ length p.content
    → Safe p (read_block header_error data_error p)
unfolding read_block
read_block-Safe header_error data_error p own own' h =
    elim (Bool-cases (ltb (length p.content) (p.pos + 2))) [
      | inl e ↦ rw e (failing-Safe {A = List ℕ} [] header_error p own h)
      | inr e ↦
          let header = (read_u16-Safe p h).0 in
          let (block, in_range) = read_sized-Safe data_error _ _ own' header.inside in
          rw e (Follows-trans header block, in_range)
    ]

module _ (m : Floats) where
  decode32-Safe : (p : Packet) (r : Reading ℕ) → Safe p r → Safe p (decode32 m r)
  decode32-Safe p (bits, some e, q) h = h
  decode32-Safe p (bits, none, q) h = h

  decode64-Safe : (p : Packet) (r : Reading ℕ) → Safe p r → Safe p (decode64 m r)
  decode64-Safe p (bits, some e, q) h = h
  decode64-Safe p (bits, none, q) h = h

  -- Whatever the data, from a position within it each reader of a value leaves it unchanged and moves
  -- forward, never past its end, and meets no index and no slice out of range, also where it fails.
  pub readers_stay_inside :
      (p : Packet)
      → p.pos ≤ length p.content
      → Safe p (read_byte p)
        × Safe p (read_bool p)
        × Safe p (read_u16 p)
        × Safe p (read_u24 p)
        × Safe p (read_u32 p)
        × Safe p (read_u64 p)
        × Safe p (read_s8 p)
        × Safe p (read_s16 p)
        × Safe p (read_s24 p)
        × Safe p (read_s32 p)
        × Safe p (read_s64 p)
        × Safe p (read_float32 m p)
        × Safe p (read_float64 m p)
        × Safe p (read_bytes p)
        × Safe p (read_string p)
  unfolding read_bool read_s8 read_s16 read_s24 read_s32 read_s64 read_float32 read_float64
      read_bytes read_string
  readers_stay_inside p h = (
    read_byte-Safe p h,
    read_byte-Safe p h,
    read_u16-Safe p h,
    read_u24-Safe p h,
    read_u32-Safe p h,
    read_u64-Safe p h,
    read_byte-Safe p h,
    read_u16-Safe p h,
    read_u24-Safe p h,
    read_u32-Safe p h,
    read_u64-Safe p h,
    decode32-Safe p (read_u32 p) (read_u32-Safe p h),
    decode64-Safe p (read_u64 p) (read_u64-Safe p h),
    read_block-Safe read_bytes_header_failed read_bytes_data_failed p refl refl h,
    read_block-Safe read_string_header_failed read_string_data_failed p refl refl h,
  )

-- `WriteBytes` of 2 ^ 16 + k bytes (k below 2 ^ 16) keeps only k in the length field: `ReadBytes`
-- gives back the first k bytes without an error, and stands before the others.
pub long_block :
    (before rest short long : List ℕ)
    → length short < 2 ^ 16
    → length (short ++ long) ≡ 2 ^ 16 + length short
    → read_bytes (record {
      pos = length before;
      content =
          (write_bytes (record { pos = 0; content = before }) (short ++ long)).content ++ rest;
    })
      ≡ (short, none, at_cursor (before ++ (bytes_u16 (length short) ++ short)) (long ++ rest))
unfolding write_bytes write_u16 read_bytes
long_block before rest short long h e =
    let kept : length (short ++ long) % 2 ^ 16 ≡ length short = omega arith in
    let header = bytes_u16 (length short) in
    let shape : ((before ++ header) ++ (short ++ long)) ++ rest
        ≡ before ++ (header ++ (short ++ (long ++ rest))) =
      simp append_assoc in
    rw kept (
      ap
        (λ l.
          read_block read_bytes_header_failed read_bytes_data_failed
            (record { pos = length before; content = l }))
        shape
      ∙ read_block_header _ _ before (short ++ (long ++ rest)) (length short) h
      ∙ read_sized_at _ (before ++ header) (long ++ rest) short
      ∙ ap (λ l. (short, none, at_cursor l (long ++ rest))) (append_assoc before header short))
