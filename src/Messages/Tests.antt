-- ===== src/Messages/Tests.antt =====
-- Messages with short fields.
use fkgo_server.Base.{◌≡◌, refl, false, none, some, [], ◌∷◌, arith, length}
use fkgo_server.Base.Int.{pos, negsuc}
use fkgo_server.Packet.{Packet, reader, read_s16}
use fkgo_server.Packet.Float.{Floats}
use fkgo_server.Packet.Pack.{fast, reflected, pack}
use fkgo_server.Messages.{
  ErrorInfo, SeedInfo, UserLoginInfo, pkt_auto_id, pack_auto_id, pkt_error_info, pack_error_info,
  pkt_seed_info, pack_seed_info, pkt_user_snapshot, pack_user_snapshot, pkt_user_login_info,
  pack_user_login_info,
}
use fkgo_server.Messages.RoundTrip.{Parses, Fits, small_messages_RoundTrip, login_info_RoundTrip}
use fkgo_server.Messages.Codes.{code, r_code, heart_beat_req, proto_ping_req, code-r_code_inverse}
use fkgo_server.Messages.Wire.{
  login_info_value, error_info_value, seed_info_value, reflection-eq-Pack, packed_message-Parses,
}

-- Only zero as a float.
abbrev zero_float : Floats
zero_float = record {
  Float32 = Unit;
  Float64 = Unit;
  bits32 = λ f. 0;
  bits64 = λ f. 0;
  from_bits32 = λ n. tt;
  from_bits64 = λ n. tt;
  zero32 = tt;
  zero64 = tt;
  is_nan32 = λ f. false;
  is_nan64 = λ f. false;
  is_inf32 = λ f. false;
  is_inf64 = λ f. false;
  bits32-lt = λ f. omega arith;
  bits64-lt = λ f. omega arith;
  from_bits32-bits32 = λ f. refl;
  from_bits64-bits64 = λ f. refl;
}

abbrev login : UserLoginInfo
login = record {
  login_way = pos 2;
  open_udid = 97 ∷ [];
  client_certificate = [];
  client_version = negsuc 0;
  user_lang = 101 ∷ 110 ∷ [];
  app_id = 98 ∷ [];
  os_version = [];
  device_name = [];
  device_id = 99 ∷ [];
  device_id_type = pos 3;
  login_ip = 49 ∷ [];
}

abbrev oops : ErrorInfo
oops = record { code = negsuc 0; msg = 104 ∷ 105 ∷ [] }

abbrev seeds : SeedInfo
seeds = record { client_send_seed = pos 11; client_receive_seed = negsuc 4 }

login-Fits : Fits login
login-Fits = omega arith

small_messages_RoundTrip_run :
    Parses pkt_auto_id (pack_auto_id (record { id = pos 4 })) (record { id = pos 4 })
    × Parses pkt_error_info (pack_error_info oops) oops
    × Parses pkt_seed_info (pack_seed_info seeds) seeds
    × Parses pkt_user_snapshot
        (pack_user_snapshot (record { uid = pos 5 }))
        (record { uid = pos 5 })
small_messages_RoundTrip_run =
    small_messages_RoundTrip (record { id = pos 4 }) oops seeds (record { uid = pos 5 })
      (omega arith) (omega arith) (omega arith) (omega arith) (omega arith) (omega arith)

login_info_RoundTrip_run : Parses pkt_user_login_info (pack_user_login_info login) login
login_info_RoundTrip_run = login_info_RoundTrip login login-Fits

r_code_1001 : r_code (pos 1001) ≡ some proto_ping_req
unfolding r_code
r_code_1001 = refl

code-r_code_inverse_run :
    (r_code (code heart_beat_req) ≡ some heart_beat_req) × (code proto_ping_req ≡ pos 1001)
code-r_code_inverse_run = code-r_code_inverse heart_beat_req proto_ping_req (pos 1001) r_code_1001

reflection-eq-Pack_example :
    (pack zero_float (pos 10) (reflected (login_info_value zero_float login)) none
      ≡ pack zero_float (pos 10) (fast (pack_user_login_info login)) none)
    × (pack zero_float (pos 10) (reflected (error_info_value zero_float oops)) none
        ≡ pack zero_float (pos 10) (fast (pack_error_info oops)) none)
    × (pack zero_float (pos 10) (reflected (seed_info_value zero_float seeds)) none
        ≡ pack zero_float (pos 10) (fast (pack_seed_info seeds)) none)
reflection-eq-Pack_example = reflection-eq-Pack zero_float (pos 10) none login oops seeds

packed_message-Parses_example :
    (behind_tos : Packet) × (at_end : Packet) × (read_s16
        (reader (pack zero_float (pos 10) (fast (pack_user_login_info login)) none))
      ≡ (pos 10, none, behind_tos))
    × (pkt_user_login_info behind_tos ≡ some (login, at_end))
    × (at_end.pos ≡ length at_end.content)
packed_message-Parses_example =
    packed_message-Parses zero_float (pos 10) pkt_user_login_info (pack_user_login_info login) login
      (omega arith) (login_info_RoundTrip login login-Fits)
