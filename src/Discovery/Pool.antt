-- ===== src/Discovery/Pool.antt =====
-- The pool and its operations, each under the pool's lock. `filepath.Dir` is a parameter; a connection
-- is a number, and what `grpc.Dial` returns is an argument, `none` for an error. A callback channel is a
-- number, and what is offered to the channels is a result.
use fkgo_server.Base.{
  ℕ, ◌+◌, ◌%◌, ◌^◌, Bool, false, ◌||◌, not, Option, none, some, List, [], ◌∷◌, ◌++◌, length,
  get_elem?, ◌==◌, if◌then◌else◌,
}
use fkgo_server.Base.Map.{GoMap, bytes_eq, bytes_eqb, lookup, put}

pub record Client : Type 0 where
  pub key : List ℕ
  pub conn : ℕ

-- `service`
pub record Service : Type 0 where
  pub clients : List Client
  pub idx : ℕ

-- `service_pool`
pub record Pool : Type 0 where
  pub names : GoMap (List ℕ) Bool
  pub services : GoMap (List ℕ) Service
  pub names_provided : Bool
  pub callbacks : GoMap (List ℕ) (List ℕ)

-- The value of a missing key is false, nil or an empty slice.
abbrev pub or_else {ℓ} : {A : Type ℓ} → A → Option A → A
or_else d none = d
or_else d (some a) = a

abbrev pub known : Pool → List ℕ → Bool
known p name = not p.names_provided || or_else false (lookup name p.names)

-- `kind` is `service{}` where the pool has no service of that name yet.
abbrev pub kind_of : Pool → List ℕ → Service
kind_of p name = or_else (record { clients = []; idx = 0 }) (lookup name p.services)

abbrev pub set_kind : Pool → List ℕ → Service → Pool
set_kind p name s = record p { services = put name s p.services }

-- Each callback of the service is offered the key.
abbrev pub offers : List ℕ → List ℕ → List (ℕ × List ℕ)
offers key [] = []
offers key (callback ∷ callbacks) = (callback, key) ∷ offers key callbacks

-- The loop of `remove_service`: the first client with the key goes.
unfoldable pub remove_client : List ℕ → List Client → List Client
remove_client key [] = []
remove_client key (c ∷ cs) = if bytes_eqb c.key key then cs else c ∷ remove_client key cs

-- The loop of `get_service_with_id`.
unfoldable pub find_client : List ℕ → List Client → Option ℕ
find_client key [] = none
find_client key (c ∷ cs) = if bytes_eqb c.key key then some c.conn else find_client key cs

unfoldable pub remove_from : Pool → List ℕ → List ℕ → Option Service → Pool
remove_from p name key none = p
remove_from p name key (some s) =
    set_kind p name (record s { clients = remove_client key s.clients })

unfoldable pub get_from : List ℕ → Option Service → Option ℕ
get_from fullpath none = none
get_from fullpath (some s) = find_client fullpath s.clients

unfoldable pub get_service_with_id : Pool → List ℕ → List ℕ → Option ℕ
get_service_with_id p path id = get_from (path ++ (47 ∷ id)) (lookup path p.services)

-- The client at the next index; an empty service gives nil and keeps its index.
unfoldable pub next_client : Service → Service × Option Client
next_client s =
    let idx = (s.idx + 1) % 2 ^ 32 in
    if length s.clients == 0
    then (s, none)
    else (record s { idx = idx }, get_elem? s.clients (idx % length s.clients))

unfoldable pub get_next : Pool → List ℕ → Option Service → Pool × Option Client
get_next p path none = (p, none)
get_next p path (some s) = let (s', c) = next_client s in (set_kind p path s', c)

unfoldable pub get_service : Pool → List ℕ → Pool × Option Client
get_service p path = get_next p path (lookup path p.services)

unfoldable pub keys_of : List Client → List (List ℕ)
keys_of [] = []
keys_of (c ∷ cs) = c.key ∷ keys_of cs

-- `register_callback`: the pool, and the keys that are sent to the new channel.
unfoldable pub register_callback : Pool → List ℕ → ℕ → Pool × List (List ℕ)
register_callback p path callback = (
  record p {
    callbacks = put path (or_else [] (lookup path p.callbacks) ++ (callback ∷ [])) p.callbacks;
  },
  keys_of (kind_of p path).clients,
)

module _ (dir : List ℕ → List ℕ) where
  unfoldable pub add_client : Pool → List ℕ → List ℕ → Option ℕ → Pool × List (ℕ × List ℕ)
  add_client p name key none = (set_kind p name (kind_of p name), [])
  add_client p name key (some conn) =
      let s = kind_of p name in
      (
        set_kind p name
            (record s { clients = s.clients ++ (record { key = key; conn = conn } ∷ []) }),
        offers key (or_else [] (lookup name p.callbacks)),
      )

  unfoldable pub add_service : Pool → List ℕ → Option ℕ → Pool × List (ℕ × List ℕ)
  add_service p key dialled =
      if known p (dir key) then add_client p (dir key) key dialled else (p, [])

  unfoldable pub remove_service : Pool → List ℕ → Pool
  remove_service p key =
      if known p (dir key) then remove_from p (dir key) key (lookup (dir key) p.services) else p

  -- What `watcher` takes from etcd: a node that was written, with the answer of its dial, or one that
  -- was deleted. Directories and errors are passed over.
  pub data Change : Type 0 where
    written : List ℕ → Option ℕ → Change
    deleted : List ℕ → Change
    passed_over : Change

  unfoldable pub watch : Pool → List Change → Pool
  watch p [] = p
  watch p (written key dialled ∷ changes) = watch (add_service p key dialled).0 changes
  watch p (deleted key ∷ changes) = watch (remove_service p key) changes
  watch p (passed_over ∷ changes) = watch p changes
