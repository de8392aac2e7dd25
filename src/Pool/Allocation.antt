-- ===== src/Pool/Allocation.antt =====
-- `dbrelay_db_populate_connection` and `dbrelay_db_alloc_connection` of src/db.c.
use ngx_dbrelay.Base.{
  ℕ, ◌<◌, ◌≡◌, ◌≢◌, refl, Bool, true, false, not, ◌||◌, [], ◌∷◌, Option, none, some, arith, Bytes,
  get_elem?, set, get_elem?-set_self, is_set, if◌then◌else◌, Bool-cases, inl, inr, Option-cases,
}
use ngx_dbrelay.Request.{Request}
use ngx_dbrelay.Pool.{
  Connection, Connections, World, Outcome, increment, copy_if_set, timeout_or_default, copy_request,
  stamp, dbrelay_db_populate_connection, find_slot, is_free, close_handle,
  dbrelay_db_alloc_connection,
}
use ngx_dbrelay.Pool.Slots.{OnlyAt, set-OnlyAt, get_elem?-lt, FirstAt, find_slot-FirstAt}
use ngx_dbrelay.Pool.Lookup.{Fits}

-- A name for the socket of a named connection is at hand.
abbrev pub has_socket : World → Request → Bool
has_socket w request =
    not (is_set request.connection_name)
    || (is_set request.sock_path || (elim w.temp_name [ none ↦ false | some path ↦ true ]))

-- What a slot holds that was filled for a request.
pub record Serves (w : World) (request : Request) (conn : Connection) : Type 0 where
  pub fits : Fits conn request
  pub one_user : conn.in_use ≡ 1
  pub owner : conn.pid ≡ w.own_pid
  pub created : conn.tm_create ≡ w.now
  pub accessed : conn.tm_accessed ≡ w.now
  pub timeout : conn.connection_timeout ≡ timeout_or_default request.connection_timeout

copy_if_set-eq : (s : Bytes) → copy_if_set s ≡ s
copy_if_set-eq [] = refl
copy_if_set-eq (c ∷ s) = refl

copy_request-Fits : (request : Request) → Fits (copy_request request) request
unfolding copy_request
copy_request-Fits request = record {
  server = copy_if_set-eq _;
  port = copy_if_set-eq _;
  database = copy_if_set-eq _;
  user = copy_if_set-eq _;
  password = copy_if_set-eq _;
  name = copy_if_set-eq _;
}

stamp-Serves :
    (w : World) (request : Request) (path : Bytes) (db : Option ℕ)
    → Serves w request (stamp w (record (copy_request request) { sock_path = path; db = db }))
stamp-Serves w request path db =
    unfold stamp in
    record {
      fits = record {
        server = (copy_request-Fits request).server;
        port = (copy_request-Fits request).port;
        database = (copy_request-Fits request).database;
        user = (copy_request-Fits request).user;
        password = (copy_request-Fits request).password;
        name = (copy_request-Fits request).name;
      };
      one_user = unfold copy_request increment in refl;
      owner = refl;
      created = refl;
      accessed = refl;
      timeout = unfold copy_request in refl;
    }

populate_lem :
    (w : World) (request : Request) (db : Option ℕ)
    → has_socket w request ≡ true
    → (path : Bytes) × (handle : Option ℕ) × ((dbrelay_db_populate_connection w request db).0
        ≡ stamp w (record (copy_request request) { sock_path = path; db = handle }))
unfolding dbrelay_db_populate_connection copy_request
populate_lem w request db h = elim (Bool-cases (is_set request.connection_name)) [
  | inl named ↦ elim (Bool-cases (is_set request.sock_path)) [
    | inl given ↦ (request.sock_path, none, ground arith)
    | inr fresh ↦ elim (Option-cases w.temp_name) [
      | inl no_name ↦ absurd (ground arith)
      | inr (path, e) ↦ (path, none, ground arith)
    ]
  ]
  | inr unnamed ↦ ([], db, ground arith)
]

-- What an allocation leaves: nothing changed, no slot free and a handle that was opened closed
-- again, or the first free slot filled for the request and all others as they were.
abbrev pub Allocates : World → Request → Connections → Outcome → Option ℕ → Type 0
Allocates w request cs r none =
    (r.connections ≡ cs)
    × ((j : ℕ) (c : Connection) → get_elem? cs j ≡ some c → c.pid ≢ 0)
    × (r.effects ≡ close_handle (if not (is_set request.connection_name) then w.connect else none))
Allocates w request cs r (some i) =
    OnlyAt i cs r.connections
    × ((old : Connection) × (get_elem? cs i ≡ some old) × (old.pid ≡ 0))
    × ((j : ℕ) (c : Connection) → j < i → get_elem? cs j ≡ some c → c.pid ≢ 0)
    × ((c : Connection) × (get_elem? r.connections i ≡ some c) × (c.slot ≡ i) × Serves w request c)

pub opened : World → Request → Option ℕ
opened w request = if not (is_set request.connection_name) then w.connect else none

pub alloc_none :
    (w : World) (request : Request) (cs : Connections)
    → find_slot is_free cs ≡ none
    → dbrelay_db_alloc_connection w request cs ≡ record {
      slot = none;
      connections = cs;
      effects = close_handle (opened w request);
      timeout = request.connection_timeout;
    }
unfolding dbrelay_db_alloc_connection opened
alloc_none w request cs h = rw (h, dbrelay_db_alloc_connection)

pub alloc_some :
    (w : World) (request : Request) (cs : Connections) (i : ℕ)
    → find_slot is_free cs ≡ some i
    → dbrelay_db_alloc_connection w request cs ≡ record {
      slot = some i;
      connections =
          set cs i
            (record (dbrelay_db_populate_connection w request (opened w request)).0 { slot = i });
      effects = (dbrelay_db_populate_connection w request (opened w request)).1;
      timeout = (dbrelay_db_populate_connection w request (opened w request)).2;
    }
unfolding dbrelay_db_alloc_connection opened
alloc_some w request cs i h = rw (h, dbrelay_db_alloc_connection)

slotted-Serves :
    (w : World) (request : Request) (conn : Connection) (i : ℕ)
    → Serves w request conn
    → Serves w request (record conn { slot = i })
slotted-Serves w request conn i v = record {
  fits = record {
    server = v.fits.server;
    port = v.fits.port;
    database = v.fits.database;
    user = v.fits.user;
    password = v.fits.password;
    name = v.fits.name;
  };
  one_user = v.one_user;
  owner = v.owner;
  created = v.created;
  accessed = v.accessed;
  timeout = v.timeout;
}

populate-Serves :
    (w : World) (request : Request) (db : Option ℕ)
    → has_socket w request ≡ true
    → Serves w request (dbrelay_db_populate_connection w request db).0
populate-Serves w request db h =
    let (path, handle, e) = populate_lem w request db h in rw e (stamp-Serves w request path handle)

-- An allocation takes the first free slot, fills it for the request with one user and the slot's own
-- number, and touches no other slot; it fails only if no slot is free, and then leaves the pool as it
-- was and closes the handle that it opened. For a named connection a socket name must be at hand.
pub dbrelay_db_alloc_connection_lem :
    (w : World) (request : Request) (cs : Connections)
    → has_socket w request ≡ true
    → Allocates w request cs
        (dbrelay_db_alloc_connection w request cs)
        (dbrelay_db_alloc_connection w request cs).slot
dbrelay_db_alloc_connection_lem w request cs h =
    go (find_slot is_free cs) refl (find_slot-FirstAt is_free cs)
  where
    go :
        (r : Option ℕ)
        → find_slot is_free cs ≡ r
        → FirstAt is_free cs r
        → Allocates w request cs
            (dbrelay_db_alloc_connection w request cs)
            (dbrelay_db_alloc_connection w request cs).slot
    go none e f =
        rw (alloc_none w request cs e)
          (refl, λ j c at z. let used = f j c at in ground arith, unfold opened in refl)
    go (some i) e ((c, at, passes), least) = rw (alloc_some w request cs i e) (
      set-OnlyAt cs i _,
      (c, at, ground arith),
      λ j x lt found z. let used = least j x lt found in ground arith,
      (
        _,
        get_elem?-set_self cs i _ (get_elem?-lt cs i c at),
        refl,
        slotted-Serves w request _ i (populate-Serves w request _ h),
      ),
    )
