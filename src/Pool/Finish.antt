-- ===== src/Pool/Finish.antt =====
-- The end of a query, `dbrelay_db_free_connection` of src/db.c, against the start of its lease.
use ngx_dbrelay.Base.{ℕ, ◌<◌, ◌≡◌, ◌≢◌, refl, ap, false, [], ◌∷◌, ◌++◌, arith, Bytes, is_empty}
use ngx_dbrelay.Pool.{
  Connection, World, unsigned_mod, increment, decrement, touch, close_handle,
  dbrelay_db_zero_connection, dbrelay_db_close_connection,
}
use ngx_dbrelay.Pool.Reaping.{detach, dbrelay_db_free_connection, finish_query}

decrement-increment : (n : ℕ) → n < unsigned_mod → decrement (increment n) ≡ n
unfolding decrement increment
decrement-increment n h = omega arith

not_empty : (s : Bytes) → s ≢ [] → is_empty s ≡ false
not_empty [] h = absurd (h refl)
not_empty (c ∷ s) h = refl

-- A named connection that a query found and gave back has the users that it had, stays in the pool
-- with the time of the end, and no handle is touched, if its count of users is in range.
pub finish_query-touch :
    (w later : World) (c : Connection)
    → c.connection_name ≢ []
    → c.in_use < unsigned_mod
    → finish_query later (touch w c) ≡ (record c { tm_accessed = later.now }, [])
unfolding finish_query dbrelay_db_free_connection touch
finish_query-touch w later c named room = rw (not_empty c.connection_name named) (
    ap (λ (n : ℕ). (record c { tm_accessed = later.now; in_use = n }, []))
      (decrement-increment c.in_use room))

-- The handle of a connection without a name is closed at the end of its query, and its slot is free;
-- if the slot was closed before the end, as the reaper's hard limit does, the same handle is
-- closed once more.
pub finish_query-close_connection :
    (w : World) (c : Connection)
    → (finish_query w (dbrelay_db_close_connection c).0).0.pid ≡ 0
      × ((dbrelay_db_close_connection c).1 ++ (finish_query w (dbrelay_db_close_connection c).0).1
          ≡ close_handle c.db ++ (detach c.db ++ close_handle c.db))
unfolding finish_query dbrelay_db_free_connection dbrelay_db_close_connection
    dbrelay_db_zero_connection
finish_query-close_connection w c = (refl, refl)
