-- ===== src/Agent/Tests.antt =====
-- A session whose cipher adds nothing, and its messages.
use fkgo_server.Base.{
  ℕ, ◌+◌, ◌≡◌, refl, ◌≢◌, inl, true, false, none, some, List, [], ◌∷◌, arith, length,
}
use fkgo_server.Base.Int.{pos}
use fkgo_server.Packet.Float.{Floats}
use fkgo_server.Agent.Frame.{encapsulate_all, read_frames, frames_RoundTrip}
use fkgo_server.Agent.Session.{
  Crypto, Answers, Session, decrypt, user_msg_handler, Event, from_client, game_message, minute,
  panicked, handle_session,
}
use fkgo_server.Agent.Order.{OnlyInOrder, forwarded_in_order}
use fkgo_server.Agent.Keys.{AlwaysKeyed, session_never_panics}

-- Only zero as a float.
abbrev zero_float : Floats
zero_float = record {
  Float32 = Unit;
  Float64 = Unit;
  bits32 = λ f. 0;
  bits64 = λ f. 0;
  from_bits32 = λ n. tt;
  from_bits64 = λ n. tt;
  zero32 = tt;
  zero64 = tt;
  is_nan32 = λ f. false;
  is_nan64 = λ f. false;
  is_inf32 = λ f. false;
  is_inf64 = λ f. false;
  bits32-lt = λ f. omega arith;
  bits64-lt = λ f. omega arith;
  from_bits32-bits32 = λ f. refl;
  from_bits64-bits64 = λ f. refl;
}

-- A cipher that counts what it saw.
abbrev counting : Crypto
counting = record {
  Cipher = ℕ;
  new_cipher = λ key. some 0;
  xor_key_stream = λ c bytes. (bytes, c + length bytes);
  exp = λ x y m. x;
  show_key = λ n. [];
}

abbrev answers : Answers
answers = record { secret1 = 4; secret2 = 5; found = true; opens = true; sends = true }

abbrev playing : Session zero_float counting
playing = record {
  encoder = some 0;
  decoder = some 0;
  user_id = pos 1;
  stream = true;
  sent = [];
  keyexcg = false;
  encrypt = true;
  kicked_out = false;
  packet_count = 7;
}

-- Packet 7, message 1001, one byte.
abbrev ping : List ℕ
ping = 0 ∷ 0 ∷ 0 ∷ 7 ∷ 3 ∷ 233 ∷ 9 ∷ []

frames_RoundTrip_example :
    (out : List ℕ) × (encapsulate_all (ping ∷ [] ∷ (5 ∷ []) ∷ []) ≡ some out)
    × (read_frames 4 out ≡ ping ∷ [] ∷ (5 ∷ []) ∷ [])
frames_RoundTrip_example =
    frames_RoundTrip (ping ∷ [] ∷ (5 ∷ []) ∷ []) 4 (omega arith) (omega arith)

forwarded_in_order_example :
    OnlyInOrder zero_float counting playing
      (decrypt zero_float counting playing ping)
      (user_msg_handler zero_float counting answers playing ping)
forwarded_in_order_example = forwarded_in_order zero_float counting answers playing ping

-- A session before its key exchange, and the message that asks for one: packet 1, message 30, seeds 2
-- and 3.
abbrev fresh : Session zero_float counting
fresh = record {
  encoder = none;
  decoder = none;
  user_id = pos 0;
  stream = false;
  sent = [];
  keyexcg = false;
  encrypt = false;
  kicked_out = false;
  packet_count = 0;
}

abbrev seeds : List ℕ
seeds = 0 ∷ 0 ∷ 0 ∷ 1 ∷ 0 ∷ 30 ∷ 0 ∷ 0 ∷ 0 ∷ 2 ∷ 0 ∷ 0 ∷ 0 ∷ 3 ∷ []

-- Packet 2, message 10: the login, encrypted.
abbrev login : List ℕ
login = 0 ∷ 0 ∷ 0 ∷ 2 ∷ 0 ∷ 10 ∷ []

abbrev exchange : List (Event zero_float counting)
exchange =
    minute false
    ∷ from_client answers seeds
    ∷ from_client answers login
    ∷ game_message (some (4 ∷ []))
    ∷ []

session_never_panics_example :
    AlwaysKeyed zero_float counting fresh exchange
    × ((handle_session zero_float counting fresh exchange).1 ≢ panicked)
session_never_panics_example =
    session_never_panics zero_float counting fresh exchange (inl (refl, refl))
