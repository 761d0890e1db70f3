-- ===== src/Chat.antt =====
-- FKGRpc_Chat/Framework/Service.go.
pub mod EndPoint
pub mod Queries
pub mod Server
mod Tests
use fkgo_server.Base.{
  ℕ, zero, suc, ◌+◌, ◌-◌, ◌*◌, ◌/◌, ◌%◌, ◌^◌, ◌≤◌, ◌<◌, min, ◌≡◌, refl, sym, ap, ap₂, ◌∙◌, subst,
  ◌≢◌, ◌↔◌, ◌⊎◌, inl, inr, Bool, true, false, ◌&&◌, ◌||◌, not, Option, none, some, List, [], ◌∷◌,
  ◌++◌, map, append_assoc, append-nil, arith, dec_lt, ℕ_discrete, length, get_elem?, set, take,
  drop, replicate, length-append, length-take, length-drop, length-replicate, length-map,
  take-append-drop, take-append, drop-append, append_cons, take_at, drop_at, drop-drop, set-take,
  set-drop, set-append, set_at, get_elem?-append, ltb, leb, ◌==◌, if◌then◌else◌, ltb→lt, lt→ltb,
  leb→le, ==_iff, tests, Bool-cases, Option-cases, if_both,
}
