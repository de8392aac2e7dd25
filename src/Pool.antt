-- ===== src/Pool.antt =====
-- The connection pool of src/db.c in the shared memory of src/shmem.c: an array of slots, a slot
-- with process number 0 being free. `dbrelay_db_find_connection` and `dbrelay_db_alloc_connection`
-- are what the code does under one hold of the semaphore each. The clock, the process number,
-- `kill(pid, 0)`, `tmpnam` and the database's `connect` are arguments; calls that leave the pool are
-- listed as effects.
pub mod Reaping
pub mod Slots
pub mod Allocation
pub mod Lookup
pub mod Reaper
pub mod Lease
pub mod Invariant
pub mod Wait
pub mod Refused
pub mod Finish
use ngx_dbrelay.Base.{
  ℕ, zero, suc, ◌+◌, ◌-◌, ◌%◌, ◌^◌, Bool, true, false, not, ◌&&◌, List, [], ◌∷◌, ◌++◌, Option, none,
  some, Bytes, length, get_elem?, set, replicate, str_eq, is_set, is_empty, ltb, ◌==◌,
  if◌then◌else◌,
}
use ngx_dbrelay.Base.Int.{ℤ, pos, negsuc, ◌+ℤ◌, ltb_ℤ}
use ngx_dbrelay.Request.{Request, dbrelay_max_conn, dbrelay_hard_timeout}

-- `dbrelay_connection_t`. A database handle is a number; `none` is the null pointer.
pub record Connection : Type 0 where
  pub sql_server : Bytes
  pub sql_port : Bytes
  pub sql_database : Bytes
  pub sql_user : Bytes
  pub sql_password : Bytes
  pub connection_name : Bytes
  pub connection_timeout : ℤ
  pub tm_create : ℕ
  pub tm_accessed : ℕ
  pub in_use : ℕ
  pub slot : ℕ
  pub pid : ℕ
  pub helper_pid : ℕ
  pub sock_path : Bytes
  pub db : Option ℕ

abbrev pub Connections : Type 0
Connections = List Connection

-- What an operation asks of the world outside the pool.
pub data Effect : Type 0 where
  close_db assign_no_request : ℕ → Effect
  launch_connector unlink_path : Bytes → Effect
  terminate : ℕ → Effect
  -- `dbrelay_conn_kill` and `dbrelay_conn_close` on a socket
  kill_connector close_connector : ℕ → Effect

-- What an operation reads of the world.
pub record World : Type 0 where
  pub now : ℕ
  pub own_pid : ℕ
  -- `!kill(pid, 0)`
  pub is_alive : ℕ → Bool
  -- `tmpnam`
  pub temp_name : Option Bytes
  -- `api->connect(request)`
  pub connect : Option ℕ

-- `memset(conn, '\0', sizeof(dbrelay_connection_t))`
abbrev pub blank : Connection
blank = record {
  sql_server = [];
  sql_port = [];
  sql_database = [];
  sql_user = [];
  sql_password = [];
  connection_name = [];
  connection_timeout = pos 0;
  tm_create = 0;
  tm_accessed = 0;
  in_use = 0;
  slot = 0;
  pid = 0;
  helper_pid = 0;
  sock_path = [];
  db = none;
}

-- `dbrelay_create_shmem`
unfoldable pub dbrelay_create_shmem : Connections
dbrelay_create_shmem = replicate dbrelay_max_conn blank

abbrev pub unsigned_mod : ℕ
unsigned_mod = 2 ^ 32

-- `conn->in_use++` and `conn->in_use--` of an `unsigned int`
unfoldable pub increment : ℕ → ℕ
increment n = (n + 1) % unsigned_mod

unfoldable pub decrement : ℕ → ℕ
decrement n = (n + (unsigned_mod - 1)) % unsigned_mod

-- `if (IS_SET(src)) strcpy(dest, src)` into a zeroed array
abbrev pub copy_if_set : Bytes → Bytes
copy_if_set src = if is_set src then src else []

-- `if (!request->connection_timeout) request->connection_timeout = 60;`
unfoldable pub timeout_or_default : ℤ → ℤ
timeout_or_default (pos zero) = pos 60
timeout_or_default (pos (suc n)) = pos (suc n)
timeout_or_default (negsuc n) = negsuc n

-- The part of `dbrelay_db_populate_connection` that copies the request.
unfoldable pub copy_request : Request → Connection
copy_request request = record blank {
  sql_server = copy_if_set request.sql_server;
  sql_port = copy_if_set request.sql_port;
  sql_user = copy_if_set request.sql_user;
  sql_password = copy_if_set request.sql_password;
  sql_database = copy_if_set request.sql_database;
  connection_name = copy_if_set request.connection_name;
  connection_timeout = timeout_or_default request.connection_timeout;
}

-- Its two ends, which set the times, the count and the process.
unfoldable pub stamp : World → Connection → Connection
stamp w conn = record conn {
  tm_create = w.now;
  tm_accessed = w.now;
  in_use = increment conn.in_use;
  pid = w.own_pid;
}

-- A named connection has a connector behind a socket, which is launched unless the request gives
-- the socket; if there is no name for a new socket the slot stays free.
unfoldable pub populate_named : World → Request → Connection → Connection × List Effect
unfolding stamp
populate_named w request conn =
    if is_set request.sock_path
    then (stamp w (record conn { sock_path = request.sock_path }), [])
    else (elim w.temp_name [
      | none ↦ (conn, [])
      | some path ↦ (stamp w (record conn { sock_path = path }), launch_connector path ∷ [])
    ])

-- The slot's new contents, the effects, and the timeout that is written back to the request.
unfoldable pub dbrelay_db_populate_connection :
    World → Request → Option ℕ → Connection × List Effect × ℤ
unfolding copy_request stamp populate_named
dbrelay_db_populate_connection w request db =
    let placed =
      if is_set request.connection_name
      then populate_named w request (copy_request request)
      else (stamp w (record (copy_request request) { db = db }), []) in
    (placed.0, placed.1, timeout_or_default request.connection_timeout)

-- `for (i=0; i<DBRELAY_MAX_CONN; i++)` up to the first slot that passes a test.
unfoldable pub find_slot : (Connection → Bool) → Connections → Option ℕ
find_slot test [] = none
find_slot test (c ∷ cs) =
    if test c then some 0 else (elim (find_slot test cs) [ none ↦ none | some i ↦ some (i + 1) ])

-- `connections[i].pid==0`
abbrev pub is_free : Connection → Bool
is_free c = c.pid == 0

abbrev pub close_handle : Option ℕ → List Effect
close_handle none = []
close_handle (some h) = close_db h ∷ []

-- A slot and the pool behind an operation, and the request's `connection_timeout`, which an
-- allocation changes; `none` is the slot -1.
pub record Outcome : Type 0 where
  pub slot : Option ℕ
  pub connections : Connections
  pub effects : List Effect
  pub timeout : ℤ

-- `dbrelay_db_alloc_connection`; the handle is that of `dbrelay_db_open_connection`.
unfoldable pub dbrelay_db_alloc_connection : World → Request → Connections → Outcome
dbrelay_db_alloc_connection w request conns =
    let dbconn = if not (is_set request.connection_name) then w.connect else none in
    elim (find_slot is_free conns) [
      | none ↦ record {
        slot = none;
        connections = conns;
        effects = close_handle dbconn;
        timeout = request.connection_timeout;
      }
      | some i ↦
          let populated = dbrelay_db_populate_connection w request dbconn in
          record {
            slot = some i;
            connections = set conns i (record populated.0 { slot = i });
            effects = populated.1;
            timeout = populated.2;
          }
    ]

-- `match` of two character arrays
unfoldable pub match : Bytes → Bytes → Bool
match s1 s2 = if is_empty s1 && is_empty s2 then true else if str_eq s1 s2 then true else false

unfoldable pub dbrelay_db_match : Connection → Request → Bool
dbrelay_db_match conn request =
    match conn.sql_server request.sql_server
    && match conn.sql_port request.sql_port
    && match conn.sql_database request.sql_database
    && match conn.sql_user request.sql_user
    && match conn.sql_password request.sql_password
    && match conn.connection_name request.connection_name

-- The two tests of a round in `dbrelay_db_find_connection`.
unfoldable pub is_match : Request → Connection → Bool
is_match request c = not (c.pid == 0) && dbrelay_db_match c request

-- `conn->in_use++; conn->tm_accessed = time(NULL);`
unfoldable pub touch : World → Connection → Connection
touch w conn = record conn { in_use = increment conn.in_use; tm_accessed = w.now }

-- An operation on the slot with a number; none is out of range in the code.
unfoldable pub update_slot : ℕ → (Connection → Connection) → Connections → Connections
update_slot i f conns = elim (get_elem? conns i) [ none ↦ conns | some c ↦ set conns i (f c) ]

unfoldable pub dbrelay_db_find_connection : World → Request → Connections → Outcome
unfolding update_slot
dbrelay_db_find_connection w request conns = elim (find_slot (is_match request) conns) [
  | none ↦ record {
    slot = none;
    connections = conns;
    effects = [];
    timeout = request.connection_timeout;
  }
  | some i ↦ record {
    slot = some i;
    connections = update_slot i (touch w) conns;
    effects = [];
    timeout = request.connection_timeout;
  }
]

unfoldable pub dbrelay_db_zero_connection : Connection → Connection
dbrelay_db_zero_connection conn = record conn {
  pid = 0;
  sql_server = [];
  sql_user = [];
  sql_database = [];
  sql_port = [];
  sql_password = [];
  connection_name = [];
  in_use = 0;
}

unfoldable pub dbrelay_db_close_connection : Connection → Connection × List Effect
dbrelay_db_close_connection conn = (dbrelay_db_zero_connection conn, close_handle conn.db)
