-- ===== src/Messages/Wire.antt =====
-- Whole messages on the wire: the number of MsgDefine.go in front, the struct behind it.
use fkgo_server.Base.{
  ◌^◌, ◌≡◌, refl, sym, ap, ◌∙◌, Option, none, some, [], ◌++◌, append-nil, arith, length,
  length-append,
}
use fkgo_server.Base.Int.{ℤ}
use fkgo_server.Packet.{Packet, append, reader, writer, read_s16, write_s16}
use fkgo_server.Packet.Float.{Floats}
use fkgo_server.Packet.Cursor.{at_cursor}
use fkgo_server.Packet.RoundTrip.{InRange, s16_RoundTrips}
use fkgo_server.Packet.Pack.{
  Value, end, field, func_pack, func_pack_all, pack, pack_table, fast, reflected,
}
use fkgo_server.Packet.Pack.Value.{int32, string, struct}
use fkgo_server.Messages.{
  M, UserLoginInfo, ErrorInfo, SeedInfo, pack_user_login_info, pack_error_info, pack_seed_info,
}
use fkgo_server.Messages.RoundTrip.{Parses}

module _ (m : Floats) where
  -- The struct types of Proto.go by reflection: their fields in order.
  unfoldable pub login_info_value : UserLoginInfo → Value m
  login_info_value v = struct (
      field (int32 v.login_way) (
        field (string v.open_udid) (
          field (string v.client_certificate) (
            field (int32 v.client_version) (
              field (string v.user_lang) (
                field (string v.app_id) (
                  field (string v.os_version) (
                    field (string v.device_name) (
                      field (string v.device_id)
                        (field (int32 v.device_id_type) (field (string v.login_ip) end)))))))))))

  unfoldable pub error_info_value : ErrorInfo → Value m
  error_info_value v = struct (field (int32 v.code) (field (string v.msg) end))

  unfoldable pub seed_info_value : SeedInfo → Value m
  seed_info_value v =
      struct (field (int32 v.client_send_seed) (field (int32 v.client_receive_seed) end))

  -- For the login, error and seed messages, packing by reflection and by the `Pack` method give the
  -- same bytes, with a writer or without.
  pub reflection-eq-Pack :
      (tos : ℤ) (w : Option Packet) (v : UserLoginInfo) (e : ErrorInfo) (s : SeedInfo)
      → (pack m tos (reflected (login_info_value v)) w
          ≡ pack m tos (fast (pack_user_login_info v)) w)
        × (pack m tos (reflected (error_info_value e)) w ≡ pack m tos (fast (pack_error_info e)) w)
        × (pack m tos (reflected (seed_info_value s)) w ≡ pack m tos (fast (pack_seed_info s)) w)
  unfolding pack pack_table func_pack func_pack_all login_info_value error_info_value
      seed_info_value pack_user_login_info pack_error_info pack_seed_info
  reflection-eq-Pack tos none v e s = (refl, refl, refl)
  reflection-eq-Pack tos (some w) v e s = (refl, refl, refl)

  -- A message packed with a fresh writer, its number an `int16` and its struct one that parses: the
  -- number is read first, then the struct, and nothing is left.
  pub packed_message-Parses :
      {A : Type 0} (tos : ℤ) (parse : M A) (method : Packet → Packet) (v : A)
      → InRange (2 ^ 15) tos
      → Parses parse method v
      → (behind_tos : Packet) × (at_end : Packet) × (read_s16
            (reader (pack m tos (fast method) none))
          ≡ (tos, none, behind_tos))
        × (parse behind_tos ≡ some (v, at_end))
        × (at_end.pos ≡ length at_end.content)
  unfolding pack pack_table reader writer
  packed_message-Parses tos parse method v h (bytes, writes, parses) =
      let (number, puts, reads) = s16_RoundTrips tos h in
      let content : (method (write_s16 writer tos)).content ≡ number ++ (bytes ++ []) =
        ap (λ (q : Packet). q.content) (ap method (puts writer) ∙ writes (append writer number))
        ∙ ap (λ l. number ++ l) (sym (append-nil bytes)) in
      (
        at_cursor number (bytes ++ []),
        at_cursor (number ++ bytes) [],
        ap (λ l. read_s16 (record { pos = 0; content = l })) content ∙ reads [] (bytes ++ []),
        parses number [],
        omega (arith, length-append (number ++ bytes) []),
      )
