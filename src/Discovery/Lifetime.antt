-- ===== src/Discovery/Lifetime.antt =====
-- A client of a service from the time that etcd announces it until etcd deletes it.
use fkgo_server.Base.{
  ℕ, ◌≡◌, refl, ap, ◌∙◌, ◌≢◌, true, false, none, some, List, [], ◌∷◌, ◌++◌, if◌then◌else◌,
}
use fkgo_server.Base.Map.{bytes_eq, bytes_eqb, lookup, beq_refl, lookup-put_self, lookup-put_ne}
use fkgo_server.Discovery.Pool.{
  Client, Service, Pool, known, kind_of, remove_client, find_client, get_from, remove_from,
  get_service_with_id, set_kind, add_client, add_service, remove_service,
}

-- No client has the key.
abbrev pub Lacks : List ℕ → List Client → Type 0
Lacks key [] = Unit
Lacks key (c ∷ cs) = (bytes_eqb c.key key ≡ false) × Lacks key cs

find_client-append :
    (key : List ℕ) (conn : ℕ) (cs : List Client)
    → Lacks key cs
    → find_client key (cs ++ (record { key = key; conn = conn } ∷ [])) ≡ some conn
unfolding find_client
find_client-append key conn [] l = rw (beq_refl ⦃e = bytes_eq⦄ key)
find_client-append key conn (c ∷ cs) l = rw l.0 (find_client-append key conn cs l.1)

remove_client-append :
    (key : List ℕ) (conn : ℕ) (cs : List Client)
    → Lacks key cs
    → remove_client key (cs ++ (record { key = key; conn = conn } ∷ [])) ≡ cs
unfolding remove_client
remove_client-append key conn [] l = rw (beq_refl ⦃e = bytes_eq⦄ key)
remove_client-append key conn (c ∷ cs) l =
    rw l.0 (ap (λ l. c ∷ l) (remove_client-append key conn cs l.1))

find_client-Lacks : (key : List ℕ) (cs : List Client) → Lacks key cs → find_client key cs ≡ none
unfolding find_client
find_client-Lacks key [] l = refl
find_client-Lacks key (c ∷ cs) l = rw l.0 (find_client-Lacks key cs l.1)

module _ (dir : List ℕ → List ℕ) where
  added :
      (p : Pool) (path key : List ℕ) (conn : ℕ)
      → dir key ≡ path
      → known p path ≡ true
      → (add_service dir p key (some conn)).0
        ≡ set_kind p path (record (kind_of p path) {
          clients = (kind_of p path).clients ++ (record { key = key; conn = conn } ∷ []);
        })
  unfolding add_service add_client
  added p path key conn d k =
      ap (λ n. (if known p n then add_client dir p n key (some conn) else (p, [])).0) d
      ∙ ap (λ b. (if b then add_client dir p path key (some conn) else (p, [])).0) k

  removed :
      (p : Pool) (path key : List ℕ) (s : Service)
      → dir key ≡ path
      → known p path ≡ true
      → lookup path p.services ≡ some s
      → remove_service dir p key
        ≡ set_kind p path (record s { clients = remove_client key s.clients })
  unfolding remove_service remove_from
  removed p path key s d k e =
      ap (λ n. if known p n then remove_from p n key (lookup n p.services) else p) d
      ∙ ap (λ b. if b then remove_from p path key (lookup path p.services) else p) k
      ∙ ap (remove_from p path key) e

  -- A client whose directory the pool takes up and whose key no client has: once it is announced and its
  -- dial succeeds, it is found by its id, and once it is deleted again, it is not; services at other
  -- paths stay as they were.
  pub found_until_deleted :
      (p : Pool) (path id other : List ℕ) (conn : ℕ)
      → dir (path ++ (47 ∷ id)) ≡ path
      → known p path ≡ true
      → Lacks (path ++ (47 ∷ id)) (kind_of p path).clients
      → path ≢ other
      → let key = path ++ (47 ∷ id) in
        let added = (add_service dir p key (some conn)).0 in
        (get_service_with_id added path id ≡ some conn)
        × (get_service_with_id (remove_service dir added key) path id ≡ none)
        × (lookup other (remove_service dir added key).services ≡ lookup other p.services)
  unfolding get_service_with_id get_from
  found_until_deleted p path id other conn d k l apart =
      let key = path ++ (47 ∷ id) in
      let old = kind_of p path in
      let grown = record old {
        clients = old.clients ++ (record { key = key; conn = conn } ∷ []);
      } in
      let q = set_kind p path grown in
      let less = record grown { clients = remove_client key grown.clients } in
      let taken_up = added p path key conn d k in
      let gone =
        ap (λ r. remove_service dir r key) taken_up
        ∙ removed q path key grown d k (lookup-put_self path grown p.services) in
      (
        ap (λ r. get_service_with_id r path id) taken_up
            ∙ ap (get_from key) (lookup-put_self path grown p.services)
            ∙ find_client-append key conn old.clients l,
        ap (λ r. get_service_with_id r path id) gone
            ∙ ap (get_from key) (lookup-put_self path less q.services)
            ∙ ap (find_client key) (remove_client-append key conn old.clients l)
            ∙ find_client-Lacks key old.clients l,
        ap (λ (r : Pool). lookup other r.services) gone
            ∙ lookup-put_ne path other less q.services apart
            ∙ lookup-put_ne path other grown p.services apart,
      )
