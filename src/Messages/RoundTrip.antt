-- ===== src/Messages/RoundTrip.antt =====
-- Each message of Proto.go is read back as it was packed.
use fkgo_server.Base.{
  ℕ, ◌^◌, ◌<◌, ◌≡◌, sym, ap, ◌∙◌, none, some, List, [], ◌++◌, append_assoc, append-nil, length,
}
use fkgo_server.Base.Int.{ℤ}
use fkgo_server.Packet.{Packet, Reading, append, write_s32, write_string, read_s32, read_string}
use fkgo_server.Packet.Cursor.{at_cursor}
use fkgo_server.Packet.RoundTrip.{Writes, RoundTrips, InRange, s32_RoundTrips, string_RoundTrips}
use fkgo_server.Messages.{
  M, ◌>>=◌, return, checked, check_err, AutoId, ErrorInfo, UserLoginInfo, SeedInfo, UserSnapshot,
  pack_auto_id, pack_error_info, pack_user_login_info, pack_seed_info, pack_user_snapshot,
  pkt_auto_id, pkt_error_info, pkt_user_login_info, pkt_seed_info, pkt_user_snapshot,
}

-- `m` reads `v` from the bytes that `write` appends, wherever they stand, and does not panic.
abbrev pub Parses : {A : Type 0} → M A → (Packet → Packet) → A → Type 0
Parses m write v =
    (bytes : List ℕ) × Writes write bytes
    × ((before rest : List ℕ)
        → m (at_cursor before (bytes ++ rest)) ≡ some (v, at_cursor (before ++ bytes) rest))

return-Parses : {A : Type 0} (v : A) → Parses (return v) (λ w. w) v
return-Parses v = (
  [],
  λ w. ap (λ l. record w { content = l }) (sym (append-nil w.content)),
  λ before rest. ap (λ l. some (v, at_cursor l rest)) (sym (append-nil before)),
)

checked_ok :
    {A : Type 0} (read : Packet → Reading A) (p : Packet) (v : A) (p' : Packet)
    → read p ≡ (v, none, p')
    → checked read p ≡ some (v, p')
unfolding checked
checked_ok read p v p' h = ap check_err h

bind_ok :
    {A B : Type 0} (m : M A) (f : A → M B) (p : Packet) (v : A) (p' : Packet)
    → m p ≡ some (v, p')
    → (m >>= f) p ≡ f v p'
bind_ok m f p v p' h = rw (h, ◌>>=◌)

-- A field and then the rest of the struct.
pub field-Parses :
    {A B : Type 0} (read : Packet → Reading A) (write : Packet → A → Packet) (v : A) (k : A → M B)
    (write_rest : Packet → Packet) (r : B)
    → RoundTrips read write v
    → Parses (k v) write_rest r
    → Parses (checked read >>= k) (λ w. write_rest (write w v)) r
field-Parses read write v k write_rest r (bytes, writes, reads) (more, writes_more, parses) = (
  bytes ++ more,
  λ w.
      ap write_rest (writes w)
      ∙ writes_more (append w bytes)
      ∙ ap (λ l. record w { content = l }) (append_assoc w.content bytes more),
  λ before rest.
      ap (λ l. (checked read >>= k) (at_cursor before l)) (append_assoc bytes more rest)
      ∙ bind_ok (checked read) k _ v _ (checked_ok read _ v _ (reads before (more ++ rest)))
      ∙ parses (before ++ bytes) rest
      ∙ ap (λ l. some (r, at_cursor l rest)) (append_assoc before bytes more),
)

int32-Parses :
    {B : Type 0} (v : ℤ) (k : ℤ → M B) (write_rest : Packet → Packet) (r : B)
    → InRange (2 ^ 31) v
    → Parses (k v) write_rest r
    → Parses (checked read_s32 >>= k) (λ w. write_rest (write_s32 w v)) r
int32-Parses v k write_rest r h =
    field-Parses read_s32 write_s32 v k write_rest r (s32_RoundTrips v h)

string-Parses :
    {B : Type 0} (v : List ℕ) (k : List ℕ → M B) (write_rest : Packet → Packet) (r : B)
    → length v < 2 ^ 16
    → Parses (k v) write_rest r
    → Parses (checked read_string >>= k) (λ w. write_rest (write_string w v)) r
string-Parses v k write_rest r h =
    field-Parses read_string write_string v k write_rest r (string_RoundTrips v h)

-- The messages of one or two fields are read back as they were packed, without a panic: `int32`
-- fields in range, strings of fewer than 2 ^ 16 bytes.
pub small_messages_RoundTrip :
    (a : AutoId) (e : ErrorInfo) (s : SeedInfo) (u : UserSnapshot)
    → InRange (2 ^ 31) a.id
    → InRange (2 ^ 31) e.code
    → length e.msg < 2 ^ 16
    → InRange (2 ^ 31) s.client_send_seed
    → InRange (2 ^ 31) s.client_receive_seed
    → InRange (2 ^ 31) u.uid
    → Parses pkt_auto_id (pack_auto_id a) a
      × Parses pkt_error_info (pack_error_info e) e
      × Parses pkt_seed_info (pack_seed_info s) s
      × Parses pkt_user_snapshot (pack_user_snapshot u) u
unfolding pkt_auto_id pack_auto_id pkt_error_info pack_error_info pkt_seed_info pack_seed_info
    pkt_user_snapshot pack_user_snapshot
small_messages_RoundTrip a e s u ha he hm hs hr hu = (
  int32-Parses a.id _ _ a ha (return-Parses a),
  int32-Parses e.code _ _ e he (string-Parses e.msg _ _ e hm (return-Parses e)),
  int32-Parses s.client_send_seed _ _ s hs
      (int32-Parses s.client_receive_seed _ _ s hr (return-Parses s)),
  int32-Parses u.uid _ _ u hu (return-Parses u),
)

-- The fields of a login message fit their encodings.
pub record Fits (v : UserLoginInfo) : Type 0 where
  pub login_way : InRange (2 ^ 31) v.login_way
  pub open_udid : length v.open_udid < 2 ^ 16
  pub client_certificate : length v.client_certificate < 2 ^ 16
  pub client_version : InRange (2 ^ 31) v.client_version
  pub user_lang : length v.user_lang < 2 ^ 16
  pub app_id : length v.app_id < 2 ^ 16
  pub os_version : length v.os_version < 2 ^ 16
  pub device_name : length v.device_name < 2 ^ 16
  pub device_id : length v.device_id < 2 ^ 16
  pub device_id_type : InRange (2 ^ 31) v.device_id_type
  pub login_ip : length v.login_ip < 2 ^ 16

-- A login message whose eleven fields fit their encodings is read back as it was packed, without a
-- panic.
pub login_info_RoundTrip :
    (v : UserLoginInfo) → Fits v → Parses pkt_user_login_info (pack_user_login_info v) v
unfolding pkt_user_login_info pack_user_login_info
login_info_RoundTrip v h = int32-Parses v.login_way _ _ v h.login_way (
    string-Parses v.open_udid _ _ v h.open_udid (
      string-Parses v.client_certificate _ _ v h.client_certificate (
        int32-Parses v.client_version _ _ v h.client_version (
          string-Parses v.user_lang _ _ v h.user_lang (
            string-Parses v.app_id _ _ v h.app_id (
              string-Parses v.os_version _ _ v h.os_version (
                string-Parses v.device_name _ _ v h.device_name (
                  string-Parses v.device_id _ _ v h.device_id (
                    int32-Parses v.device_id_type _ _ v h.device_id_type
                      (string-Parses v.login_ip _ _ v h.login_ip (return-Parses v)))))))))))
