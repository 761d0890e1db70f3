-- ===== src/Packet/Tests.antt =====
-- Packets of a few bytes, with floats that are zero or infinite.
use fkgo_server.Base.{
  ℕ, ◌^◌, ◌<◌, ◌≡◌, refl, Bool, true, false, none, List, [], ◌∷◌, ◌++◌, arith, replicate,
  length-append, length-replicate, ◌==◌, if◌then◌else◌,
}
use fkgo_server.Base.Int.{pos, negsuc}
use fkgo_server.Packet.{
  Packet, read_byte, read_bool, read_u16, read_u24, read_u32, read_u64, read_s8, read_s16, read_s24,
  read_s32, read_s64, read_bytes, read_string, write_byte, write_u16, write_u24, write_u32,
  write_u64, write_s16, write_s32, write_s64, write_bytes, write_string, append,
}
use fkgo_server.Packet.Cursor.{at_cursor}
use fkgo_server.Packet.RoundTrip.{
  Writes, Reads, RoundTrips, bytes_u16, unsigned_RoundTrips, signed_RoundTrips, block_RoundTrips,
}
use fkgo_server.Packet.Truncated.{Safe, readers_stay_inside, long_block}
use fkgo_server.Packet.Float.{
  Floats, finite32, finite64, read_float32, read_float64, write_float32, write_float64,
  float_RoundTrips,
}
use fkgo_server.Packet.Pack.{uint16, string, slice, field, end, func_pack}
use fkgo_server.Packet.Pack.Laws.{packing_appends}

-- Floats of two values, zero and infinity, by their bit patterns.
abbrev two_floats : Floats
two_floats = record {
  Float32 = Bool;
  Float64 = Bool;
  bits32 = λ f. if f then 2139095040 else 0;
  bits64 = λ f. if f then 9218868437227405312 else 0;
  from_bits32 = λ n. n == 2139095040;
  from_bits64 = λ n. n == 9218868437227405312;
  zero32 = false;
  zero64 = false;
  is_nan32 = λ f. false;
  is_nan64 = λ f. false;
  is_inf32 = λ f. f;
  is_inf64 = λ f. f;
  bits32-lt = bits32_small;
  bits64-lt = bits64_small;
  from_bits32-bits32 = bits32_back;
  from_bits64-bits64 = bits64_back;
}
  where
    bits32_small : (f : Bool) → (if f then 2139095040 else 0) < 2 ^ 32
    bits32_small true = omega arith
    bits32_small false = omega arith

    bits64_small : (f : Bool) → (if f then 9218868437227405312 else 0) < 2 ^ 64
    bits64_small true = omega arith
    bits64_small false = omega arith

    bits32_back : (f : Bool) → ((if f then 2139095040 else 0) == 2139095040) ≡ f
    bits32_back true = refl
    bits32_back false = refl

    bits64_back : (f : Bool) → ((if f then 9218868437227405312 else 0) == 9218868437227405312) ≡ f
    bits64_back true = refl
    bits64_back false = refl

unsigned_RoundTrips_example :
    RoundTrips read_byte write_byte 255
    × RoundTrips read_u16 write_u16 65535
    × RoundTrips read_u24 write_u24 70000
    × RoundTrips read_u32 write_u32 4294967295
    × RoundTrips read_u64 write_u64 (2 ^ 40)
unsigned_RoundTrips_example =
    unsigned_RoundTrips 255 65535 70000 4294967295 (2 ^ 40) (omega arith) (omega arith)
      (omega arith) (omega arith)

signed_RoundTrips_example :
    RoundTrips read_s16 write_s16 (negsuc 0)
    × RoundTrips read_s32 write_s32 (negsuc 9)
    × RoundTrips read_s64 write_s64 (pos 7)
signed_RoundTrips_example =
    signed_RoundTrips (negsuc 0) (negsuc 9) (pos 7) (omega arith) (omega arith) (omega arith)

block_RoundTrips_example :
    RoundTrips read_bytes write_bytes (104 ∷ 105 ∷ [])
    × RoundTrips read_string write_string (104 ∷ 105 ∷ [])
block_RoundTrips_example = block_RoundTrips (104 ∷ 105 ∷ []) (omega arith)

float_RoundTrips_example :
    ((bytes : List ℕ) × Writes (λ w. write_float32 two_floats w true) bytes
      × Reads (read_float32 two_floats) (finite32 two_floats true) bytes)
    × ((bytes : List ℕ) × Writes (λ w. write_float64 two_floats w false) bytes
        × Reads (read_float64 two_floats) (finite64 two_floats false) bytes)
float_RoundTrips_example = float_RoundTrips two_floats true false

-- A packet that ends within a block.
abbrev cut : Packet
cut = record { pos = 1; content = 9 ∷ 0 ∷ 5 ∷ 104 ∷ [] }

readers_stay_inside_example :
    Safe cut (read_byte cut)
    × Safe cut (read_bool cut)
    × Safe cut (read_u16 cut)
    × Safe cut (read_u24 cut)
    × Safe cut (read_u32 cut)
    × Safe cut (read_u64 cut)
    × Safe cut (read_s8 cut)
    × Safe cut (read_s16 cut)
    × Safe cut (read_s24 cut)
    × Safe cut (read_s32 cut)
    × Safe cut (read_s64 cut)
    × Safe cut (read_float32 two_floats cut)
    × Safe cut (read_float64 two_floats cut)
    × Safe cut (read_bytes cut)
    × Safe cut (read_string cut)
readers_stay_inside_example = readers_stay_inside two_floats cut (omega arith)

packing_appends_run :
    (out : List ℕ) × ((w : Packet)
      → func_pack two_floats (slice (field (uint16 258) (field (string (104 ∷ [])) end))) w
        ≡ append w out)
packing_appends_run =
    packing_appends two_floats (slice (field (uint16 258) (field (string (104 ∷ [])) end)))

-- A block of 2 ^ 16 + 1 zeros.
long_block_example :
    read_bytes (record {
      pos = 0;
      content =
          (write_bytes
            (record { pos = 0; content = [] })
            ((7 ∷ []) ++ replicate (2 ^ 16) 0)).content
          ++ [];
    })
    ≡ (7 ∷ [], none, at_cursor ([] ++ (bytes_u16 1 ++ (7 ∷ []))) (replicate (2 ^ 16) 0 ++ []))
long_block_example = long_block [] [] (7 ∷ []) (replicate (2 ^ 16) 0) (omega arith) (
    omega (
      arith,
      length-append {A = ℕ} (7 ∷ []) (replicate (2 ^ 16) 0),
      length-replicate {A = ℕ} (2 ^ 16) 0,
    ))
