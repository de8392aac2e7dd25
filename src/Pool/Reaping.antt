-- ===== src/Pool/Reaping.antt =====
-- How slots come free and how a request gets one, src/db.c: `dbrelay_db_close_connections`,
-- `dbrelay_db_free_connection`, `dbrelay_db_get_connection`, `dbrelay_wait_for_connection` and
-- `dbrelay_cleanup_connector`, and the kill of src/admin.c.
use ngx_dbrelay.Base.{
  ℕ, ◌+◌, Bool, not, ◌&&◌, List, [], ◌∷◌, ◌++◌, Option, none, some, get_elem?, is_set, is_empty,
  ltb, ◌==◌, if◌then◌else◌,
}
use ngx_dbrelay.Base.Int.{ℤ, pos, ◌+ℤ◌, ltb_ℤ}
use ngx_dbrelay.Request.{Request, dbrelay_hard_timeout}
use ngx_dbrelay.Pool.{
  Connection, Connections, Effect, assign_no_request, unlink_path, terminate, World, decrement,
  Outcome, update_slot, dbrelay_db_alloc_connection, dbrelay_db_find_connection,
  dbrelay_db_zero_connection, dbrelay_db_close_connection,
}

-- `conn->pid && !IS_SET(conn->connection_name) && kill(conn->pid, 0)`
unfoldable pub is_orphan : World → Connection → Bool
is_orphan w conn =
    not (conn.pid == 0) && (not (is_set conn.connection_name) && not (w.is_alive conn.pid))

-- The first statement of a round: a dead worker's slot is freed, its handle is not closed.
unfoldable pub drop_orphan : World → Connection → Connection
drop_orphan w conn = if is_orphan w conn then dbrelay_db_zero_connection conn else conn

-- `conn->tm_accessed + DBRELAY_HARD_TIMEOUT < now`
unfoldable pub is_over_hard : World → Connection → Bool
is_over_hard w conn = ltb (conn.tm_accessed + dbrelay_hard_timeout) w.now

-- `conn->tm_accessed + conn->connection_timeout < now`
unfoldable pub is_over : World → Connection → Bool
is_over w conn = ltb_ℤ (pos conn.tm_accessed +ℤ conn.connection_timeout) (pos w.now)

-- The rest of a round.
unfoldable pub time_out : World → Connection → Connection × List Effect
time_out w conn =
    if conn.pid == 0
    then (conn, [])
    else if is_over_hard w conn
    then dbrelay_db_close_connection conn
    else if not (conn.in_use == 0)
    then (conn, [])
    else if is_over w conn
    then dbrelay_db_close_connection conn
    else (conn, [])

unfoldable pub reap : World → Connection → Connection × List Effect
reap w conn = time_out w (drop_orphan w conn)

-- The loop over the slots.
unfoldable pub dbrelay_db_close_connections : World → Connections → Connections × List Effect
dbrelay_db_close_connections w [] = ([], [])
dbrelay_db_close_connections w (c ∷ cs) =
    let rest = dbrelay_db_close_connections w cs in ((reap w c).0 ∷ rest.0, (reap w c).1 ++ rest.1)

abbrev pub detach : Option ℕ → List Effect
detach none = []
detach (some h) = assign_no_request h ∷ []

unfoldable pub dbrelay_db_free_connection : Connection → Connection × List Effect
dbrelay_db_free_connection conn =
    let released = record conn { in_use = decrement conn.in_use } in
    if is_empty conn.connection_name
    then (let closed = dbrelay_db_close_connection released in
        (closed.0, detach conn.db ++ closed.1))
    else (released, [])

-- The end of `dbrelay_db_run_query`: the slot's time is set, and its lease given back.
unfoldable pub finish_query : World → Connection → Connection × List Effect
unfolding dbrelay_db_free_connection
finish_query w conn = dbrelay_db_free_connection (record conn { tm_accessed = w.now })

-- The slot that a request gets, before the reaper runs.
unfoldable pub choose_connection : World → Request → Connections → Outcome
choose_connection w request conns =
    if is_empty request.connection_name
    then dbrelay_db_alloc_connection w request conns
    else (let found = dbrelay_db_find_connection w request conns in
        elim found.slot [
          | none ↦ dbrelay_db_alloc_connection w request found.connections
          | some i ↦ found
        ])

-- `dbrelay_db_get_connection`. The search, the allocation and the reaper hold the semaphore one after
-- the other; this is the call with no other process between them. `later` is what the reaper, which
-- runs last, reads of the world.
unfoldable pub dbrelay_db_get_connection : World → World → Request → Connections → Outcome
unfolding choose_connection
dbrelay_db_get_connection w later request conns =
    let chosen = choose_connection w request conns in
    let reaped = dbrelay_db_close_connections later chosen.connections in
    record {
      slot = chosen.slot;
      connections = reaped.0;
      effects = chosen.effects ++ reaped.1;
      timeout = chosen.timeout;
    }

unfoldable pub dbrelay_cleanup_connector : World → Connection → List Effect
dbrelay_cleanup_connector w conn =
    (if not (conn.helper_pid == 0) && w.is_alive conn.helper_pid
      then terminate conn.helper_pid ∷ []
      else [])
    ++ unlink_path conn.sock_path ∷ []

-- The copy of a slot that a query works on, and its socket; and the request's `connection_timeout`.
pub record Waited : Type 0 where
  pub lease : Option (Connection × ℕ)
  pub connections : Connections
  pub effects : List Effect
  pub timeout : ℤ

-- The request with the timeout that an operation left in it.
abbrev pub with_timeout : Request → ℤ → Request
with_timeout request timeout = record request { connection_timeout = timeout }

-- One round of `dbrelay_wait_for_connection` gives the lease, or gives up, or goes round again.
pub data Round : Type 0 where
  leased gave_up : Waited → Round
  again : Connections → List Effect → ℤ → Round

-- `connections[slot].pid=0;`
unfoldable pub drop_pid : Connection → Connection
drop_pid conn = record conn { pid = 0 }

-- `connections[slot].helper_pid = helper_pid;`
unfoldable pub adopt : ℕ → Connection → Connection
adopt helper conn = record conn { helper_pid = helper }

-- A round on the slot `i`; `socket` is what `dbrelay_socket_connect` returns, `none` for -1.
unfoldable pub attach : World → Request → Option ℕ → ℕ → Connections → List Effect → Round
unfolding dbrelay_cleanup_connector drop_pid
attach w request socket i conns effects = elim (get_elem? conns i) [
  | none ↦ gave_up (record {
    lease = none;
    connections = conns;
    effects = effects;
    timeout = request.connection_timeout;
  })
  | some c ↦
      let conn = record c { slot = i } in
      if is_set request.connection_name
      then (elim socket [
        | none ↦
            again (update_slot i drop_pid conns) (effects ++ dbrelay_cleanup_connector w conn)
              request.connection_timeout
        | some s ↦ leased (record {
          lease = some (conn, s);
          connections = conns;
          effects = effects;
          timeout = request.connection_timeout;
        })
      ])
      else leased (record {
        lease = some (conn, 0);
        connections = conns;
        effects = effects;
        timeout = request.connection_timeout;
      })
]

unfoldable pub wait_round : World → Request → Option ℕ → Connections → List Effect → Round
unfolding attach
wait_round w request socket conns effects =
    let got = dbrelay_db_get_connection w w request conns in
    elim got.slot [
      | none ↦ gave_up (record {
        lease = none;
        connections = got.connections;
        effects = effects ++ got.effects;
        timeout = got.timeout;
      })
      | some i ↦
          attach w (with_timeout request got.timeout) socket i got.connections
            (effects ++ got.effects)
    ]

-- `dbrelay_wait_for_connection`: a round for each world and result of `connect` in the list; the
-- loop of the code has no bound, and `none` is a list that is used up.
unfoldable pub dbrelay_wait_for_connection :
    List (World × Option ℕ) → Request → Connections → List Effect → Option Waited
unfolding wait_round
dbrelay_wait_for_connection [] request conns effects = none
dbrelay_wait_for_connection ((w, socket) ∷ rounds) request conns effects =
    elim (wait_round w request socket conns effects) [
      | leased x ↦ some x
      | gave_up x ↦ some x
      | again conns' effects' timeout ↦
          dbrelay_wait_for_connection rounds (with_timeout request timeout) conns' effects'
    ]
