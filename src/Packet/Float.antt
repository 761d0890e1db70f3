-- ===== src/Packet/Float.antt =====
-- The float readers and writers of Packet.go. Go's `math` functions on bit patterns are a parameter.
use fkgo_server.Base.{ℕ, ◌^◌, ◌<◌, ◌≡◌, ap, ◌∙◌, Bool, ◌||◌, none, some, List, ◌++◌, if◌then◌else◌}
use fkgo_server.Packet.{Packet, Reading, read_u32, read_u64, write_u32, write_u64}
use fkgo_server.Packet.Cursor.{at_cursor}
use fkgo_server.Packet.RoundTrip.{Writes, Reads, u32_RoundTrips, u64_RoundTrips}

-- `math.Float32bits`, `Float32frombits`, `IsNaN`, `IsInf` and the 64-bit ones. As documented, the bits
-- of a float fill its width and `frombits` undoes `bits`.
pub record Floats : Type 1 where
  pub Float32 : Type 0
  pub Float64 : Type 0
  pub bits32 : Float32 → ℕ
  pub bits64 : Float64 → ℕ
  pub from_bits32 : ℕ → Float32
  pub from_bits64 : ℕ → Float64
  pub zero32 : Float32
  pub zero64 : Float64
  pub is_nan32 : Float32 → Bool
  pub is_nan64 : Float64 → Bool
  pub is_inf32 : Float32 → Bool
  pub is_inf64 : Float64 → Bool
  pub bits32-lt : (f : Float32) → bits32 f < 2 ^ 32
  pub bits64-lt : (f : Float64) → bits64 f < 2 ^ 64
  pub from_bits32-bits32 : (f : Float32) → from_bits32 (bits32 f) ≡ f
  pub from_bits64-bits64 : (f : Float64) → from_bits64 (bits64 f) ≡ f

module _ (m : Floats) where
  open m use {
    Float32, Float64, bits32, bits64, from_bits32, from_bits64, zero32, zero64, is_nan32, is_nan64,
    is_inf32, is_inf64, bits32-lt, bits64-lt, from_bits32-bits32, from_bits64-bits64,
  }

  -- What a float is read as.
  abbrev pub finite32 : Float32 → Float32
  finite32 f = if is_nan32 f || is_inf32 f then zero32 else f

  abbrev pub finite64 : Float64 → Float64
  finite64 f = if is_nan64 f || is_inf64 f then zero64 else f

  abbrev pub decode32 : Reading ℕ → Reading Float32
  decode32 (bits, some e, p) = (zero32, some e, p)
  decode32 (bits, none, p) = (finite32 (from_bits32 bits), none, p)

  abbrev pub decode64 : Reading ℕ → Reading Float64
  decode64 (bits, some e, p) = (zero64, some e, p)
  decode64 (bits, none, p) = (finite64 (from_bits64 bits), none, p)

  unfoldable pub read_float32 : Packet → Reading Float32
  read_float32 p = decode32 (read_u32 p)

  unfoldable pub read_float64 : Packet → Reading Float64
  read_float64 p = decode64 (read_u64 p)

  unfoldable pub write_float32 : Packet → Float32 → Packet
  write_float32 p f = write_u32 p (bits32 f)

  unfoldable pub write_float64 : Packet → Float64 → Packet
  write_float64 p f = write_u64 p (bits64 f)

  -- A float comes back as it was written, unless it is no finite number: then as zero, with no error.
  pub float_RoundTrips :
      (f : Float32) (d : Float64)
      → ((bytes : List ℕ) × Writes (λ w. write_float32 w f) bytes
          × Reads read_float32 (finite32 f) bytes)
        × ((bytes : List ℕ) × Writes (λ w. write_float64 w d) bytes
            × Reads read_float64 (finite64 d) bytes)
  unfolding read_float32 read_float64 write_float32 write_float64
  float_RoundTrips f d =
      let (bytes, writes, reads) = u32_RoundTrips (bits32 f) (bits32-lt f) in
      let (bytes', writes', reads') = u64_RoundTrips (bits64 d) (bits64-lt d) in
      (
        (
          bytes,
          writes,
          λ before rest.
              ap decode32 (reads before rest)
              ∙ ap (λ g. (finite32 g, none, at_cursor (before ++ bytes) rest))
                  (from_bits32-bits32 f),
        ),
        (
          bytes',
          writes',
          λ before rest.
              ap decode64 (reads' before rest)
              ∙ ap (λ g. (finite64 g, none, at_cursor (before ++ bytes') rest))
                  (from_bits64-bits64 d),
        ),
      )
