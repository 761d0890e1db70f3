-- ===== src/Packet/Pack.antt =====
-- FKLib_Common/Packet/Pack.go: packing a value by its reflected kind.
pub mod Laws
use fkgo_server.Base.{
  ℕ, zero, suc, ◌+◌, ◌-◌, ◌*◌, ◌/◌, ◌%◌, ◌^◌, ◌≤◌, ◌<◌, min, ◌≡◌, refl, sym, ap, ap₂, ◌∙◌, subst,
  ◌≢◌, ◌↔◌, ◌⊎◌, inl, inr, Bool, true, false, ◌&&◌, ◌||◌, not, Option, none, some, List, [], ◌∷◌,
  ◌++◌, map, append_assoc, append-nil, arith, dec_lt, ℕ_discrete, length, get_elem?, set, take,
  drop, replicate, length-append, length-take, length-drop, length-replicate, length-map,
  take-append-drop, take-append, drop-append, append_cons, take_at, drop_at, drop-drop, set-take,
  set-drop, set-append, set_at, get_elem?-append, ltb, leb, ◌==◌, if◌then◌else◌, ltb→lt, lt→ltb,
  leb→le, ==_iff, tests, Bool-cases, Option-cases, if_both,
}
use fkgo_server.Base.Int.{
  ℤ, pos, negsuc, pos_part, neg_part, sub_ℕ, ◌+ℤ◌, ◌-ℤ◌, ◌≤ℤ◌, ◌<ℤ◌, ltb_ℤ, leb_ℤ, eqb_ℤ,
  eq_of_parts, eqb_ℤ→eq, eqb_ℤ_refl, eqb_ℤ_ne, +ℤ_parts, -ℤ_parts, int_laws, signed16, signed32,
  signed64, unsigned, to_int32, to_int32-eq_of_lt, pos_part-sub, ℤ-cases,
}
use fkgo_server.Packet.{
  Packet, writer, write_bool, write_byte, write_u16, write_u32, write_u64, write_s16, write_s32,
  write_s64, write_bytes, write_string,
}
use fkgo_server.Packet.Float.{Floats, write_float32, write_float64}

module _ (m : Floats) where
  open m use {Float32, Float64}

  mutual
    -- What `reflect.Value` tells apart: its kind, and the data of that kind. `nil` is a nil pointer or
    -- interface, `unsupported` any other kind; `bytes` is a slice whose type is `[]byte`.
    pub data Value : Type 0 where
      bool : Bool → Value
      uint8 : ℕ → Value
      uint16 : ℕ → Value
      uint32 : ℕ → Value
      uint64 : ℕ → Value
      int16 : ℤ → Value
      int32 : ℤ → Value
      int64 : ℤ → Value
      float32 : Float32 → Value
      float64 : Float64 → Value
      string : List ℕ → Value
      nil : Value
      ptr : Value → Value
      bytes : List ℕ → Value
      slice : Values → Value
      struct : Values → Value
      unsupported : Value

    pub data Values : Type 0 where
      end : Values
      field : Value → Values → Values

  abbrev pub count : Values → ℕ
  count end = 0
  count (field v vs) = suc (count vs)

  unfoldable mutual
    -- The recursion of `func_Pack`, with its loop over the elements or fields.
    pub func_pack : Value → Packet → Packet
    func_pack (bool v) w = write_bool w v
    func_pack (uint8 v) w = write_byte w v
    func_pack (uint16 v) w = write_u16 w v
    func_pack (uint32 v) w = write_u32 w v
    func_pack (uint64 v) w = write_u64 w v
    func_pack (int16 v) w = write_s16 w v
    func_pack (int32 v) w = write_s32 w v
    func_pack (int64 v) w = write_s64 w v
    func_pack (float32 v) w = write_float32 m w v
    func_pack (float64 v) w = write_float64 m w v
    func_pack (string v) w = write_string w v
    func_pack nil w = w
    func_pack (ptr v) w = func_pack v w
    func_pack (bytes v) w = write_bytes w v
    func_pack (slice vs) w = func_pack_all vs (write_u16 w (count vs % 2 ^ 16))
    func_pack (struct vs) w = func_pack_all vs w
    func_pack unsupported w = w

    pub func_pack_all : Values → Packet → Packet
    func_pack_all end w = w
    func_pack_all (field v vs) w = func_pack_all vs (func_pack v w)

  -- The `tbl` argument of `Func_Pack`: nil, a `FastPack` with its method, or anything else.
  pub data Table : Type 0 where
    no_table : Table
    fast : (Packet → Packet) → Table
    reflected : Value → Table

  unfoldable pub pack_table : Table → Packet → List ℕ
  pack_table no_table w = w.content
  pack_table (fast method) w = (method w).content
  pack_table (reflected v) w = (func_pack v w).content

  -- `Func_Pack`; the writer is `none` where the caller passes nil.
  unfoldable pub pack : ℤ → Table → Option Packet → List ℕ
  pack tos tbl none = pack_table tbl (write_s16 writer tos)
  pack tos tbl (some w) = pack_table tbl (write_s16 w tos)
