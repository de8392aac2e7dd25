-- ===== src/Tests/PoolRuns.antt =====
-- Runs of the connection pool.
use ngx_dbrelay.Base.{
  ℕ, zero, suc, ◌+◌, ◌<◌, ◌≡◌, ◌↔◌, refl, sym, true, List, [], ◌∷◌, ◌++◌, Option, none, some, arith,
  codes, get_elem?, str_eq, ◌==◌, subst,
}
use ngx_dbrelay.Base.Int.{ℤ, pos}
use ngx_dbrelay.Request.{Request, dbrelay_alloc_request, dbrelay_max_conn}
use ngx_dbrelay.Pool.{
  Connection, Connections, World, blank, unsigned_mod, close_handle, touch, dbrelay_create_shmem,
  dbrelay_db_alloc_connection, dbrelay_db_match, dbrelay_db_find_connection,
  dbrelay_db_close_connection, find_slot, is_match, match,
}
use ngx_dbrelay.Pool.Allocation.{has_socket, Allocates, dbrelay_db_alloc_connection_lem}
use ngx_dbrelay.Pool.Lookup.{Fits, Finds, dbrelay_db_match_iff, dbrelay_db_find_connection_lem}
use ngx_dbrelay.Pool.Reaper.{Reaped, reap-Reaped}
use ngx_dbrelay.Pool.Reaping.{
  reap, detach, with_timeout, dbrelay_db_close_connections, finish_query, dbrelay_db_get_connection,
  Waited, dbrelay_wait_for_connection,
}
use ngx_dbrelay.Pool.Lease.{Chosen, Countable, dbrelay_db_get_connection-Chosen}
use ngx_dbrelay.Pool.Invariant.{
  WellFormed, Reachable, created, stepped, alloc, reap_slots, get_elem?-replicate,
  Reachable-WellFormed,
}
use ngx_dbrelay.Pool.Wait.{here, there, Leased, wait-total, wait-Leased}
use ngx_dbrelay.Pool.Refused.{stopped, wait-refused}
use ngx_dbrelay.Pool.Slots.{OnlyAt}
use ngx_dbrelay.Pool.Finish.{finish_query-touch, finish_query-close_connection}

-- A process 7 at time 100, whose database gives the handle 5.
abbrev world : World
world = record {
  now = 100;
  own_pid = 7;
  is_alive = λ p. p == 7;
  temp_name = some (codes "/tmp/s");
  connect = some 5;
}

abbrev anonymous : Request
anonymous = record dbrelay_alloc_request { sql_server = codes "db"; sql_user = codes "u" }

abbrev named : Request
named = record anonymous { connection_name = codes "c" }

abbrev idle : Connection
idle = record blank {
  sql_server = codes "db";
  sql_user = codes "u";
  connection_name = codes "c";
  connection_timeout = pos 60;
  tm_accessed = 90;
  pid = 3;
  slot = 1;
  sock_path = codes "/tmp/old";
}

abbrev pool : Connections
pool = blank ∷ idle ∷ []

none-some : {c : Connection} → none ≡ some c → ⊥
none-some h = cc

some_inj : {a b : Connection} → some a ≡ some b → a ≡ b
some_inj h = cc

pool-Countable : Countable pool
pool-Countable zero c h =
    subst (λ (d : Connection). d.in_use + 1 < unsigned_mod) (some_inj h) (omega arith)
pool-Countable (suc zero) c h =
    subst (λ (d : Connection). d.in_use + 1 < unsigned_mod) (some_inj h) (omega arith)
pool-Countable (suc (suc i)) c h = absurd (none-some h)

named-has_socket : has_socket world named ≡ true
unfolding dbrelay_alloc_request
named-has_socket = refl

dbrelay_db_alloc_connection_lem_example :
    Allocates world named pool
      (dbrelay_db_alloc_connection world named pool)
      (dbrelay_db_alloc_connection world named pool).slot
dbrelay_db_alloc_connection_lem_example =
    dbrelay_db_alloc_connection_lem world named pool named-has_socket

dbrelay_db_find_connection_lem_example :
    Finds world named pool
      (dbrelay_db_find_connection world named pool)
      (dbrelay_db_find_connection world named pool).slot
dbrelay_db_find_connection_lem_example = dbrelay_db_find_connection_lem world named pool

dbrelay_db_match_iff_example : (dbrelay_db_match idle named ≡ true) ↔ Fits idle named
dbrelay_db_match_iff_example = dbrelay_db_match_iff idle named

reap-Reaped_example : Reaped world idle (reap world idle)
reap-Reaped_example = reap-Reaped world idle

named_slot : (dbrelay_db_get_connection world world named pool).slot ≡ some 1
unfolding dbrelay_db_get_connection dbrelay_db_find_connection find_slot is_match dbrelay_db_match
    match str_eq dbrelay_alloc_request
named_slot = refl

dbrelay_db_get_connection-Chosen_example :
    (c : Connection) × (get_elem? (dbrelay_db_get_connection world world named pool).connections 1
      ≡ some c)
    × Chosen world world named c
dbrelay_db_get_connection-Chosen_example =
    dbrelay_db_get_connection-Chosen world world named pool (omega arith) (omega arith) refl 1
      named-has_socket pool-Countable named_slot

abbrev rounds : List (World × Option ℕ)
rounds = (world, none) ∷ (world, some 9) ∷ []

wait-total_example : (x : Waited) × (dbrelay_wait_for_connection rounds named pool [] ≡ some x)
wait-total_example =
    wait-total rounds named pool [] (there (world, none) ((world, some 9) ∷ []) (here world 9 []))

wait-refused_example :
    (c : Connection) × (cs' : Connections) × (timeout : ℤ) × (get_elem?
        (dbrelay_db_get_connection world world named pool).connections
        1
      ≡ some c)
    × Chosen world world named c
    × OnlyAt 1 (dbrelay_db_get_connection world world named pool).connections cs'
    × (get_elem? cs' 1 ≡ some (record c { pid = 0 }))
    × (dbrelay_wait_for_connection rounds named pool []
        ≡ dbrelay_wait_for_connection
            ((world, some 9) ∷ [])
            (with_timeout named timeout)
            cs'
            ((dbrelay_db_get_connection world world named pool).effects ++ stopped world c))
wait-refused_example =
    wait-refused world ((world, some 9) ∷ []) named pool [] 1 (named-has_socket, omega arith, refl)
      pool-Countable refl named_slot

anonymous-has_socket : has_socket world anonymous ≡ true
unfolding dbrelay_alloc_request
anonymous-has_socket = refl

abbrev fresh : Connections
fresh = dbrelay_create_shmem

fresh-WellFormed : WellFormed fresh
fresh-WellFormed = Reachable-WellFormed fresh created

fresh-Countable : Countable fresh
unfolding dbrelay_create_shmem
fresh-Countable j c h =
    subst (λ (d : Connection). d.in_use + 1 < unsigned_mod)
      (sym (get_elem?-replicate dbrelay_max_conn j c h)) (omega arith)

wait-Leased_example :
    (x : Waited) × (dbrelay_wait_for_connection ((world, some 9) ∷ []) named fresh [] ≡ some x)
    × Leased world named x (dbrelay_db_get_connection world world named fresh).slot
wait-Leased_example =
    wait-Leased world 9 [] named fresh [] (named-has_socket, omega arith, refl) fresh-Countable
      fresh-WellFormed

abbrev leased_once : Connections
leased_once =
    (dbrelay_db_close_connections world
      (dbrelay_db_alloc_connection world anonymous fresh).connections).0

leased_once-Reachable : Reachable leased_once
leased_once-Reachable =
    let filled = (dbrelay_db_alloc_connection world anonymous fresh).connections in
    stepped filled leased_once (stepped fresh filled created (alloc world anonymous fresh))
      (reap_slots world filled)

Reachable-WellFormed_example : WellFormed leased_once
Reachable-WellFormed_example = Reachable-WellFormed leased_once leased_once-Reachable

finish_query-touch_example :
    finish_query world (touch world idle) ≡ (record idle { tm_accessed = 100 }, [])
finish_query-touch_example = finish_query-touch world world idle (λ e. cc) (omega arith)

abbrev opened : Connection
opened = record idle { connection_name = []; db = some 5 }

finish_query-close_connection_example :
    (finish_query world (dbrelay_db_close_connection opened).0).0.pid ≡ 0
    × ((dbrelay_db_close_connection opened).1
          ++ (finish_query world (dbrelay_db_close_connection opened).0).1
        ≡ close_handle (some 5) ++ (detach (some 5) ++ close_handle (some 5)))
finish_query-close_connection_example = finish_query-close_connection world opened
