-- ===== src/Pool/Lease.antt =====
-- `dbrelay_db_get_connection` of src/db.c: the slot that it returns is in use, fits the request and
-- has outlived the reaper.
use ngx_dbrelay.Base.{
  ℕ, ◌+◌, ◌<◌, ◌≤◌, ◌≡◌, ◌≢◌, refl, sym, subst, ◌∙◌, inl, inr, true, false, [], ◌∷◌, Option, none,
  some, arith, Bytes, get_elem?, is_empty, Bool-cases,
}
use ngx_dbrelay.Request.{Request, dbrelay_hard_timeout}
use ngx_dbrelay.Pool.{
  Connection, Connections, World, Outcome, unsigned_mod, increment, touch,
  dbrelay_db_alloc_connection, dbrelay_db_find_connection,
}
use ngx_dbrelay.Pool.Lookup.{Fits, Live, Finds, dbrelay_db_find_connection_lem}
use ngx_dbrelay.Pool.Allocation.{has_socket, Serves, Allocates, dbrelay_db_alloc_connection_lem}
use ngx_dbrelay.Pool.Reaper.{Kept, close_connections-Kept}
use ngx_dbrelay.Pool.Reaping.{choose_connection, dbrelay_db_get_connection}

is_empty-ne-nil : (s : Bytes) → is_empty s ≡ false → s ≢ []
is_empty-ne-nil [] h = cc
is_empty-ne-nil (c ∷ s) h = λ e. cc

-- A slot fit for use: chosen at `w`, and safe from the reaper that runs at `later`.
pub record Chosen (w later : World) (request : Request) (c : Connection) : Type 0 where
  pub kept : Kept later c
  pub fits : Fits c request

-- No count of users is at the top of its range.
abbrev pub Countable : Connections → Type 0
Countable cs = (j : ℕ) (c : Connection) → get_elem? cs j ≡ some c → c.in_use + 1 < unsigned_mod

module _ (w later : World) (request : Request) (cs : Connections)
    (soon : later.now ≤ w.now + dbrelay_hard_timeout) (me : w.own_pid ≢ 0)
    (alive : later.is_alive w.own_pid ≡ true) where
  Serves-Chosen : (c : Connection) → Serves w request c → Chosen w later request c
  Serves-Chosen c v = record {
    kept = record {
      used = rw v.owner me;
      owned = inr (rw v.owner alive);
      fresh = omega (arith, v.accessed);
      held = inl (omega (arith, v.one_user));
    };
    fits = v.fits;
  }

  found-Chosen :
      (c : Connection)
      → request.connection_name ≢ []
      → c.in_use + 1 < unsigned_mod
      → Live request c
      → Chosen w later request (touch w c)
  unfolding touch increment
  found-Chosen c named room (used, fits) = record {
    kept = record {
      used = used;
      owned = inl (λ e. named (sym fits.name ∙ e));
      fresh = soon;
      held = inl (omega arith);
    };
    fits = record {
      server = fits.server;
      port = fits.port;
      database = fits.database;
      user = fits.user;
      password = fits.password;
      name = fits.name;
    };
  }

  abbrev Choice : Outcome → Option ℕ → Type 0
  Choice r none = Unit
  Choice r (some i) =
      (c : Connection) × (get_elem? r.connections i ≡ some c) × Chosen w later request c

  Allocates-Choice :
      (cs' : Connections) (r : Outcome) (slot : Option ℕ)
      → Allocates w request cs' r slot
      → Choice r slot
  Allocates-Choice cs' r none a = tt
  Allocates-Choice cs' r (some i) (_, _, _, (c, at, _, v)) = (c, at, Serves-Chosen c v)

  Finds-Choice :
      (r : Outcome) (slot : Option ℕ)
      → request.connection_name ≢ []
      → Countable cs
      → Finds w request cs r slot
      → Choice r slot
  Finds-Choice r none named room f = tt
  Finds-Choice r (some i) named room (_, (c, at, live, after), _) =
      (touch w c, after, found-Chosen c named (room i c at) live)

  alloc-Choice :
      (cs' : Connections)
      → has_socket w request ≡ true
      → Choice
          (dbrelay_db_alloc_connection w request cs')
          (dbrelay_db_alloc_connection w request cs').slot
  alloc-Choice cs' socket =
      Allocates-Choice cs' (dbrelay_db_alloc_connection w request cs') _
        (dbrelay_db_alloc_connection_lem w request cs' socket)

  choose_named :
      (socket : has_socket w request ≡ true)
      → request.connection_name ≢ []
      → Countable cs
      → is_empty request.connection_name ≡ false
      → Choice (choose_connection w request cs) (choose_connection w request cs).slot
  unfolding choose_connection
  choose_named socket named room h = go (dbrelay_db_find_connection w request cs).slot refl
    where
      go :
          (slot : Option ℕ)
          → (dbrelay_db_find_connection w request cs).slot ≡ slot
          → Choice (choose_connection w request cs) (choose_connection w request cs).slot
      go none e = rw (h, e) (alloc-Choice _ socket)
      go (some i) e =
          rw (h, e)
            (Finds-Choice (dbrelay_db_find_connection w request cs) _ named room
              (dbrelay_db_find_connection_lem w request cs))

  choose_unnamed :
      has_socket w request ≡ true
      → is_empty request.connection_name ≡ true
      → Choice (choose_connection w request cs) (choose_connection w request cs).slot
  unfolding choose_connection
  choose_unnamed socket h = rw h (alloc-Choice cs socket)

  choose-Choice :
      has_socket w request ≡ true
      → Countable cs
      → Choice (choose_connection w request cs) (choose_connection w request cs).slot
  choose-Choice socket room = elim (Bool-cases (is_empty request.connection_name)) [
    | inl h ↦ choose_unnamed socket h
    | inr h ↦ choose_named socket (is_empty-ne-nil _ h) room h
  ]

  -- The slot that a request gets is in the pool after the reaper ran, which is part of the call: it
  -- is in use by the caller or by a connector, holds what the request asks for and would be kept by
  -- the reaper. The reaper must run within the hard limit of the call, with the caller alive, a name
  -- for a new socket at hand if the connection is named, and no count of users at the top of its range.
  pub dbrelay_db_get_connection-Chosen :
      (i : ℕ)
      → has_socket w request ≡ true
      → Countable cs
      → (dbrelay_db_get_connection w later request cs).slot ≡ some i
      → (c : Connection) × (get_elem? (dbrelay_db_get_connection w later request cs).connections i
          ≡ some c)
        × Chosen w later request c
  unfolding dbrelay_db_get_connection
  dbrelay_db_get_connection-Chosen i socket room e =
      let (c, at, chosen) =
        subst (Choice (choose_connection w request cs)) e (choose-Choice socket room) in
      (c, close_connections-Kept later _ i c at chosen.kept, chosen)
