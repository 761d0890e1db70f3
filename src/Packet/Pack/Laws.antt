-- ===== src/Packet/Pack/Laws.antt =====
-- Packing only appends, and what it appends does not depend on the writer.
use fkgo_server.Base.{
  ℕ, ◌%◌, ◌^◌, ◌≡◌, refl, sym, ap, ◌∙◌, true, false, List, [], ◌∷◌, ◌++◌, append_assoc, append-nil,
  length,
}
use fkgo_server.Base.Int.{unsigned}
use fkgo_server.Packet.{
  Packet, append, write_bool, write_byte, write_u16, write_u32, write_u64, write_s16, write_s32,
  write_s64, write_bytes, write_string,
}
use fkgo_server.Packet.Float.{Floats, write_float32, write_float64}
use fkgo_server.Packet.RoundTrip.{Writes, bytes_u16, bytes_u32, bytes_u64}
use fkgo_server.Packet.Pack.{Value, Values, count, func_pack, func_pack_all, end, field}
use fkgo_server.Packet.Pack.Value.{
  bool, uint8, uint16, uint32, uint64, int16, int32, int64, float32, float64, string, nil, ptr,
  bytes, slice, struct, unsupported,
}

-- The bytes that a packing function appends.
abbrev pub Appends : (Packet → Packet) → Type 0
Appends write = (out : List ℕ) × Writes write out

then-Appends : (f g : Packet → Packet) → Appends f → Appends g → Appends (λ w. g (f w))
then-Appends f g (a, wa) (b, wb) = (
  a ++ b,
  λ w.
      ap g (wa w)
      ∙ wb (append w a)
      ∙ ap (λ l. record w { content = l }) (append_assoc w.content a b),
)

keep-Appends : Appends (λ w. w)
keep-Appends = ([], λ w. ap (λ l. record w { content = l }) (sym (append-nil w.content)))

u16-Appends : (v : ℕ) → Appends (λ w. write_u16 w v)
unfolding write_u16
u16-Appends v = (bytes_u16 v, λ w. refl)

raw-Appends : (v : List ℕ) → Appends (λ w. append w v)
raw-Appends v = (v, λ w. refl)

module _ (m : Floats) where
  mutual
    unfolding func_pack write_bool write_byte write_u32 write_u64 write_s16 write_s32 write_s64
        write_float32 write_float64 write_string write_bytes

    func_pack-Appends : (v : Value m) → Appends (func_pack m v)
    func_pack-Appends (bool true) = (1 ∷ [], λ w. refl)
    func_pack-Appends (bool false) = (0 ∷ [], λ w. refl)
    func_pack-Appends (uint8 v) = (v ∷ [], λ w. refl)
    func_pack-Appends (uint16 v) = u16-Appends v
    func_pack-Appends (uint32 v) = (bytes_u32 v, λ w. refl)
    func_pack-Appends (uint64 v) = (bytes_u64 v, λ w. refl)
    func_pack-Appends (int16 v) = u16-Appends (unsigned (2 ^ 16) v)
    func_pack-Appends (int32 v) = (bytes_u32 (unsigned (2 ^ 32) v), λ w. refl)
    func_pack-Appends (int64 v) = (bytes_u64 (unsigned (2 ^ 64) v), λ w. refl)
    func_pack-Appends (float32 v) = (bytes_u32 (m.bits32 v), λ w. refl)
    func_pack-Appends (float64 v) = (bytes_u64 (m.bits64 v), λ w. refl)
    func_pack-Appends (string v) =
        then-Appends (λ w. write_u16 w (length v % 2 ^ 16)) (λ w. append w v) (u16-Appends _)
          (raw-Appends v)
    func_pack-Appends nil = keep-Appends
    func_pack-Appends (ptr v) = func_pack-Appends v
    func_pack-Appends (bytes v) =
        then-Appends (λ w. write_u16 w (length v % 2 ^ 16)) (λ w. append w v) (u16-Appends _)
          (raw-Appends v)
    func_pack-Appends (slice vs) =
        then-Appends (λ w. write_u16 w (count m vs % 2 ^ 16)) (func_pack_all m vs) (u16-Appends _)
          (func_pack_all-Appends vs)
    func_pack-Appends (struct vs) = func_pack_all-Appends vs
    func_pack-Appends unsupported = keep-Appends

    func_pack_all-Appends : (vs : Values m) → Appends (func_pack_all m vs)
    func_pack_all-Appends end = keep-Appends
    func_pack_all-Appends (field v vs) =
        then-Appends (func_pack m v) (func_pack_all m vs) (func_pack-Appends v)
          (func_pack_all-Appends vs)

  -- Every value is packed by appending to the writer some bytes that depend on the value alone.
  pub packing_appends :
      (v : Value m) → (out : List ℕ) × ((w : Packet) → func_pack m v w ≡ append w out)
  packing_appends v = func_pack-Appends v
