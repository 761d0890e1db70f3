-- ===== src/Messages/Codes.antt =====
-- FKLib_Common/MsgDefine/MsgDefine.go: message numbers by name and names by number. A missing key of
-- a Go map reads as the zero value, 0 or "".
use fkgo_server.Base.{ℕ, ◌≡◌, refl, Option, none, some, arith, ◌==◌, if◌then◌else◌}
use fkgo_server.Base.Int.{ℤ, pos, negsuc}

pub data MsgName : Type 0 where
  heart_beat_req heart_beat_ack user_login_req user_login_succeed_ack user_login_faild_ack : MsgName
  client_error_ack get_seed_req get_seed_ack proto_ping_req proto_ping_ack : MsgName

-- `Code`, at the names that it holds.
unfoldable pub code : MsgName → ℤ
code heart_beat_req = pos 0
code heart_beat_ack = pos 1
code user_login_req = pos 10
code user_login_succeed_ack = pos 11
code user_login_faild_ack = pos 12
code client_error_ack = pos 13
code get_seed_req = pos 30
code get_seed_ack = pos 31
code proto_ping_req = pos 1001
code proto_ping_ack = pos 1002

abbrev r_code_nat : ℕ → Option MsgName
r_code_nat n =
    if n == 0
    then some heart_beat_req
    else if n == 1
    then some heart_beat_ack
    else if n == 10
    then some user_login_req
    else if n == 11
    then some user_login_succeed_ack
    else if n == 12
    then some user_login_faild_ack
    else if n == 13
    then some client_error_ack
    else if n == 30
    then some get_seed_req
    else if n == 31
    then some get_seed_ack
    else if n == 1001
    then some proto_ping_req
    else if n == 1002
    then some proto_ping_ack
    else none

-- `RCode`: `none` is a number that it does not hold.
unfoldable pub r_code : ℤ → Option MsgName
r_code (pos n) = r_code_nat n
r_code (negsuc n) = none

r_code-code : (name : MsgName) → r_code (code name) ≡ some name
unfolding code r_code
r_code-code heart_beat_req = refl
r_code-code _ = refl

-- The two maps are inverse: every name is found again by its number, and a number that has a name is
-- that name's.
pub code-r_code_inverse :
    (name other : MsgName) (n : ℤ)
    → r_code n ≡ some other
    → (r_code (code name) ≡ some name) × (code other ≡ n)
unfolding code r_code
code-r_code_inverse name other (pos n) h = (r_code-code name, ground arith)
code-r_code_inverse name other (negsuc n) h = cc
