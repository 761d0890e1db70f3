-- ===== src/Messages.antt =====
-- FKLib_Common/MsgDefine: the message structs of Proto.go with their `Pack` methods and their `PKT_`
-- readers, and the message numbers of MsgDefine.go. A `string` field is a list of bytes.
-- `func_CheckErr` panics on a read error; `none` stands for the panic.
pub mod RoundTrip
pub mod Codes
pub mod Wire
mod Tests
use fkgo_server.Base.{
  ℕ, zero, suc, ◌+◌, ◌-◌, ◌*◌, ◌/◌, ◌%◌, ◌^◌, ◌≤◌, ◌<◌, min, ◌≡◌, refl, sym, ap, ap₂, ◌∙◌, subst,
  ◌≢◌, ◌↔◌, ◌⊎◌, inl, inr, Bool, true, false, ◌&&◌, ◌||◌, not, Option, none, some, List, [], ◌∷◌,
  ◌++◌, map, append_assoc, append-nil, arith, dec_lt, ℕ_discrete, length, get_elem?, set, take,
  drop, replicate, length-append, length-take, length-drop, length-replicate, length-map,
  take-append-drop, take-append, drop-append, append_cons, take_at, drop_at, drop-drop, set-take,
  set-drop, set-append, set_at, get_elem?-append, ltb, leb, ◌==◌, if◌then◌else◌, ltb→lt, lt→ltb,
  leb→le, ==_iff, tests, Bool-cases, Option-cases, if_both,
}
use fkgo_server.Base.Int.{
  ℤ, pos, negsuc, pos_part, neg_part, sub_ℕ, ◌+ℤ◌, ◌-ℤ◌, ◌≤ℤ◌, ◌<ℤ◌, ltb_ℤ, leb_ℤ, eqb_ℤ,
  eq_of_parts, eqb_ℤ→eq, eqb_ℤ_refl, eqb_ℤ_ne, +ℤ_parts, -ℤ_parts, int_laws, signed16, signed32,
  signed64, unsigned, to_int32, to_int32-eq_of_lt, pos_part-sub, ℤ-cases,
}
use fkgo_server.Packet.{Packet, Reading, write_s32, write_string, read_s32, read_string}

-- A reader that may panic, over the packet that it moves.
abbrev pub M : Type 0 → Type 0
M A = Packet → Option (A × Packet)

infixl 5 ◌>>=◌
abbrev pub ◌>>=◌ : {A B : Type 0} → M A → (A → M B) → M B
◌>>=◌ m f p = elim (m p) [ none ↦ none | some (a, p') ↦ f a p' ]

abbrev pub return : {A : Type 0} → A → M A
return a p = some (a, p)

-- `v, err = reader.Read...()` and then `func_CheckErr(err)`.
abbrev pub check_err : {A : Type 0} → Reading A → Option (A × Packet)
check_err (v, none, p) = some (v, p)
check_err (v, some _, p) = none

unfoldable pub checked : {A : Type 0} → (Packet → Reading A) → M A
checked read p = check_err (read p)

-- `S_auto_id`
pub record AutoId : Type 0 where
  pub id : ℤ

pub record ErrorInfo : Type 0 where
  pub code : ℤ
  pub msg : List ℕ

pub record UserLoginInfo : Type 0 where
  pub login_way : ℤ
  pub open_udid : List ℕ
  pub client_certificate : List ℕ
  pub client_version : ℤ
  pub user_lang : List ℕ
  pub app_id : List ℕ
  pub os_version : List ℕ
  pub device_name : List ℕ
  pub device_id : List ℕ
  pub device_id_type : ℤ
  pub login_ip : List ℕ

pub record SeedInfo : Type 0 where
  pub client_send_seed : ℤ
  pub client_receive_seed : ℤ

pub record UserSnapshot : Type 0 where
  pub uid : ℤ

unfoldable pub pack_auto_id : AutoId → Packet → Packet
pack_auto_id p w = write_s32 w p.id

unfoldable pub pack_error_info : ErrorInfo → Packet → Packet
pack_error_info p w = write_string (write_s32 w p.code) p.msg

unfoldable pub pack_user_login_info : UserLoginInfo → Packet → Packet
pack_user_login_info p w =
    let w1 = write_s32 w p.login_way in
    let w2 = write_string w1 p.open_udid in
    let w3 = write_string w2 p.client_certificate in
    let w4 = write_s32 w3 p.client_version in
    let w5 = write_string w4 p.user_lang in
    let w6 = write_string w5 p.app_id in
    let w7 = write_string w6 p.os_version in
    let w8 = write_string w7 p.device_name in
    let w9 = write_string w8 p.device_id in
    let w10 = write_s32 w9 p.device_id_type in write_string w10 p.login_ip

unfoldable pub pack_seed_info : SeedInfo → Packet → Packet
pack_seed_info p w = write_s32 (write_s32 w p.client_send_seed) p.client_receive_seed

unfoldable pub pack_user_snapshot : UserSnapshot → Packet → Packet
pack_user_snapshot p w = write_s32 w p.uid

unfoldable pub pkt_auto_id : M AutoId
pkt_auto_id = do v ← checked read_s32; return (record { id = v })

unfoldable pub pkt_error_info : M ErrorInfo
pkt_error_info = do
  c ← checked read_s32
  m ← checked read_string
  return (record { code = c; msg = m })

unfoldable pub pkt_user_login_info : M UserLoginInfo
pkt_user_login_info = do
  a ← checked read_s32
  b ← checked read_string
  c ← checked read_string
  d ← checked read_s32
  e ← checked read_string
  f ← checked read_string
  g ← checked read_string
  h ← checked read_string
  i ← checked read_string
  j ← checked read_s32
  k ← checked read_string
  return (record {
    login_way = a;
    open_udid = b;
    client_certificate = c;
    client_version = d;
    user_lang = e;
    app_id = f;
    os_version = g;
    device_name = h;
    device_id = i;
    device_id_type = j;
    login_ip = k;
  })

unfoldable pub pkt_seed_info : M SeedInfo
pkt_seed_info = do
  a ← checked read_s32
  b ← checked read_s32
  return (record { client_send_seed = a; client_receive_seed = b })

unfoldable pub pkt_user_snapshot : M UserSnapshot
pkt_user_snapshot = do v ← checked read_s32; return (record { uid = v })
