-- ===== src/Pool/Refused.antt =====
-- `dbrelay_wait_for_connection` of src/db.c where a connector cannot be reached.
use ngx_dbrelay.Base.{
  ℕ, ◌≡◌, ap, ◌∙◌, true, not, ◌&&◌, ◌==◌, List, [], ◌∷◌, ◌++◌, Option, none, some, arith, get_elem?,
  is_set, if◌then◌else◌,
}
use ngx_dbrelay.Base.Int.{ℤ}
use ngx_dbrelay.Request.{Request}
use ngx_dbrelay.Pool.{Connection, Connections, World, Effect, unlink_path, terminate}
use ngx_dbrelay.Pool.Slots.{OnlyAt, update_slot-OnlyAt, get_elem?-update_slot}
use ngx_dbrelay.Pool.Reaping.{
  drop_pid, with_timeout, dbrelay_db_get_connection, dbrelay_cleanup_connector,
  dbrelay_wait_for_connection,
}
use ngx_dbrelay.Pool.Lease.{Chosen, Countable, dbrelay_db_get_connection-Chosen}
use ngx_dbrelay.Pool.Wait.{Able, wait-next, next, round_some, attach_refused}

-- What is asked of the world for a connector that cannot be reached: its process, if it is known and
-- there, is ended, and its socket removed.
abbrev pub stopped : World → Connection → List Effect
stopped w c =
    (if not (c.helper_pid == 0) && w.is_alive c.helper_pid then terminate c.helper_pid ∷ [] else [])
    ++ unlink_path c.sock_path ∷ []

-- A wait for a named connection whose first socket does not connect goes on with the other rounds, on
-- a pool in which the slot that it got is free and every other is as the call for a slot left it, with
-- the connector's process ended and its socket removed. The slot that it got was in use and fitted. The
-- call got a slot, the process is alive and has a name for a new socket, and no count of users is at
-- its top.
pub wait-refused :
    (w : World) (rounds : List (World × Option ℕ)) (request : Request) (cs : Connections)
    (effects : List Effect) (i : ℕ)
    → Able w request
    → Countable cs
    → is_set request.connection_name ≡ true
    → (dbrelay_db_get_connection w w request cs).slot ≡ some i
    → (c : Connection) × (cs' : Connections) × (timeout : ℤ) × (get_elem?
          (dbrelay_db_get_connection w w request cs).connections
          i
        ≡ some c)
      × Chosen w w request c
      × OnlyAt i (dbrelay_db_get_connection w w request cs).connections cs'
      × (get_elem? cs' i ≡ some (record c { pid = 0 }))
      × (dbrelay_wait_for_connection ((w, none) ∷ rounds) request cs effects
          ≡ dbrelay_wait_for_connection rounds
              (with_timeout request timeout)
              cs'
              ((effects ++ (dbrelay_db_get_connection w w request cs).effects) ++ stopped w c))
unfolding drop_pid dbrelay_cleanup_connector
wait-refused w rounds request cs effects i (socket, me, alive) room named e =
    let r = dbrelay_db_get_connection w w request cs in
    let (c, at, chosen) =
      dbrelay_db_get_connection-Chosen w w request cs (omega arith) me alive i socket room e in
    (
      c,
      _,
      r.timeout,
      at,
      chosen,
      update_slot-OnlyAt r.connections i drop_pid c at,
      get_elem?-update_slot r.connections i drop_pid c at,
      wait-next w none rounds request cs effects
          ∙ ap (λ x. next x request rounds)
              (round_some w request none cs effects i e
                ∙ attach_refused w (with_timeout request r.timeout) i r.connections
                    (effects ++ r.effects) c at named),
    )
