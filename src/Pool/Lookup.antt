-- ===== src/Pool/Lookup.antt =====
-- `match`, `dbrelay_db_match` and `dbrelay_db_find_connection` of src/db.c.
use ngx_dbrelay.Base.{
  ℕ, ◌<◌, ◌≡◌, ◌≢◌, ◌↔◌, refl, Bool, true, false, ◌&&◌, [], ◌∷◌, Option, none, some, arith, Bytes,
  get_elem?, str_eq_iff,
}
use ngx_dbrelay.Request.{Request}
use ngx_dbrelay.Pool.{
  Connection, Connections, World, Outcome, match, dbrelay_db_match, is_match, find_slot, touch,
  update_slot, dbrelay_db_find_connection,
}
use ngx_dbrelay.Pool.Slots.{
  OnlyAt, FirstAt, find_slot-FirstAt, update_slot-OnlyAt, get_elem?-update_slot,
}

-- A connection was made for what the request asks: server, port, database, user, password, name.
pub record Fits (conn : Connection) (request : Request) : Type 0 where
  pub server : conn.sql_server ≡ request.sql_server
  pub port : conn.sql_port ≡ request.sql_port
  pub database : conn.sql_database ≡ request.sql_database
  pub user : conn.sql_user ≡ request.sql_user
  pub password : conn.sql_password ≡ request.sql_password
  pub name : conn.connection_name ≡ request.connection_name

pub match_iff : (s1 s2 : Bytes) → (match s1 s2 ≡ true) ↔ (s1 ≡ s2)
unfolding match
match_iff [] [] = ground arith
match_iff [] (y ∷ s2) = ground (arith, str_eq_iff [] (y ∷ s2))
match_iff (x ∷ s1) s2 = ground (arith, str_eq_iff (x ∷ s1) s2)

and_iff : (a b : Bool) → ((a && b) ≡ true) ↔ ((a ≡ true) × (b ≡ true))
and_iff a b = ground arith

-- The match accepts a connection exactly when all six of its fields are the request's.
pub dbrelay_db_match_iff :
    (conn : Connection) (request : Request)
    → (dbrelay_db_match conn request ≡ true) ↔ Fits conn request
unfolding dbrelay_db_match
dbrelay_db_match_iff conn request = (there, back)
  where
    there : dbrelay_db_match conn request ≡ true → Fits conn request
    there h = record {
      server = (match_iff _ _).0 (ground arith);
      port = (match_iff _ _).0 (ground arith);
      database = (match_iff _ _).0 (ground arith);
      user = (match_iff _ _).0 (ground arith);
      password = (match_iff _ _).0 (ground arith);
      name = (match_iff _ _).0 (ground arith);
    }

    back : Fits conn request → dbrelay_db_match conn request ≡ true
    back f = ground (
      arith,
      (match_iff _ _).1 f.server,
      (match_iff _ _).1 f.port,
      (match_iff _ _).1 f.database,
      (match_iff _ _).1 f.user,
      (match_iff _ _).1 f.password,
      (match_iff _ _).1 f.name,
    )

-- A slot in use whose connection fits.
abbrev pub Live : Request → Connection → Type 0
Live request c = (c.pid ≢ 0) × Fits c request

pub is_match_iff :
    (request : Request) (c : Connection) → (is_match request c ≡ true) ↔ Live request c
unfolding is_match
is_match_iff request c = (there, back)
  where
    there : is_match request c ≡ true → Live request c
    there h = (ground arith, (dbrelay_db_match_iff c request).0 (ground arith))

    back : Live request c → is_match request c ≡ true
    back (used, fits) = let m = (dbrelay_db_match_iff c request).1 fits in ground arith

-- What the search leaves: nothing changed and no slot fits, or the first slot that fits has one
-- more user and a new time, and all others are as they were.
abbrev pub Finds : World → Request → Connections → Outcome → Option ℕ → Type 0
Finds w request cs r none =
    (r.connections ≡ cs) × ((j : ℕ) (c : Connection) → get_elem? cs j ≡ some c → ¬ Live request c)
Finds w request cs r (some i) =
    OnlyAt i cs r.connections
    × ((c : Connection) × (get_elem? cs i ≡ some c)
        × Live request c
        × (get_elem? r.connections i ≡ some (touch w c)))
    × ((j : ℕ) (c : Connection) → j < i → get_elem? cs j ≡ some c → ¬ Live request c)

pub find_none :
    (w : World) (request : Request) (cs : Connections)
    → find_slot (is_match request) cs ≡ none
    → dbrelay_db_find_connection w request cs
      ≡ record { slot = none; connections = cs; effects = []; timeout = request.connection_timeout }
unfolding dbrelay_db_find_connection
find_none w request cs h = rw (h, dbrelay_db_find_connection)

pub find_some :
    (w : World) (request : Request) (cs : Connections) (i : ℕ)
    → find_slot (is_match request) cs ≡ some i
    → dbrelay_db_find_connection w request cs ≡ record {
      slot = some i;
      connections = update_slot i (touch w) cs;
      effects = [];
      timeout = request.connection_timeout;
    }
unfolding dbrelay_db_find_connection
find_some w request cs i h = rw (h, dbrelay_db_find_connection)

not-Live : (request : Request) (c : Connection) → is_match request c ≡ false → ¬ Live request c
not-Live request c h l = let t = (is_match_iff request c).1 l in cc

-- The search for a connection finds the first live slot whose six fields are the request's, counts
-- one more user there and touches no other slot; it fails only if no live slot fits.
pub dbrelay_db_find_connection_lem :
    (w : World) (request : Request) (cs : Connections)
    → Finds w request cs
        (dbrelay_db_find_connection w request cs)
        (dbrelay_db_find_connection w request cs).slot
dbrelay_db_find_connection_lem w request cs =
    go (find_slot (is_match request) cs) refl (find_slot-FirstAt (is_match request) cs)
  where
    go :
        (r : Option ℕ)
        → find_slot (is_match request) cs ≡ r
        → FirstAt (is_match request) cs r
        → Finds w request cs
            (dbrelay_db_find_connection w request cs)
            (dbrelay_db_find_connection w request cs).slot
    go none e f = rw (find_none w request cs e) (refl, λ j c h. not-Live request c (f j c h))
    go (some i) e ((c, at, passes), least) = rw (find_some w request cs i e) (
      update_slot-OnlyAt cs i (touch w) c at,
      (c, at, (is_match_iff request c).0 passes, get_elem?-update_slot cs i (touch w) c at),
      λ j x lt h. not-Live request x (least j x lt h),
    )
