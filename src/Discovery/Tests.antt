-- ===== src/Discovery/Tests.antt =====
-- A pool of one service with one client.
use fkgo_server.Base.{ℕ, ◌≡◌, refl, ap, ◌≢◌, true, none, some, List, [], ◌∷◌, arith, take}
use fkgo_server.Base.Map.{bytes_eq, lookup}
use fkgo_server.Discovery.Pool.{Pool, get_service_with_id, add_service, remove_service, known}
use fkgo_server.Discovery.Lifetime.{found_until_deleted}

abbrev pool : Pool
pool = record {
  names = (1 ∷ [], true) ∷ [];
  services =
      (1 ∷ [], record { clients = record { key = 1 ∷ 47 ∷ 8 ∷ []; conn = 80 } ∷ []; idx = 0 }) ∷ [];
  names_provided = true;
  callbacks = [];
}

-- Paths of one byte before the slash.
abbrev first_byte : List ℕ → List ℕ
first_byte = take 1

known-pool : known pool (1 ∷ []) ≡ true
unfolding lookup
known-pool = refl

abbrev first : List ℕ → ℕ
first [] = 0
first (b ∷ bytes) = b

abbrev here : List ℕ
here = 1 ∷ []

abbrev there : List ℕ
there = 2 ∷ []

apart : here ≢ there
apart = λ e. absurd (omega (arith, ap first e))

found_until_deleted_example :
    let added = (add_service first_byte pool (1 ∷ 47 ∷ 9 ∷ []) (some 90)).0 in
    (get_service_with_id added (1 ∷ []) (9 ∷ []) ≡ some 90)
    × (get_service_with_id (remove_service first_byte added (1 ∷ 47 ∷ 9 ∷ [])) (1 ∷ []) (9 ∷ [])
        ≡ none)
    × (lookup (2 ∷ []) (remove_service first_byte added (1 ∷ 47 ∷ 9 ∷ [])).services
        ≡ lookup (2 ∷ []) pool.services)
unfolding lookup
found_until_deleted_example =
    found_until_deleted first_byte pool (1 ∷ []) (9 ∷ []) (2 ∷ []) 90 refl known-pool (refl, tt)
      apart
