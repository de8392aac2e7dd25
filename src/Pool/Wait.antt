-- ===== src/Pool/Wait.antt =====
-- `dbrelay_wait_for_connection` of src/db.c: what it returns, and when.
use ngx_dbrelay.Base.{
  ℕ, ◌≡◌, ◌≢◌, refl, sym, ap, inl, inr, true, false, List, ◌∷◌, ◌++◌, Option, none, some, arith,
  get_elem?, is_set, if◌then◌else◌, Bool-cases, Option-cases,
}
use ngx_dbrelay.Request.{Request}
use ngx_dbrelay.Pool.{Connection, Connections, World, Outcome, Effect, update_slot}
use ngx_dbrelay.Pool.Allocation.{has_socket}
use ngx_dbrelay.Pool.Reaping.{
  drop_pid, dbrelay_db_get_connection, dbrelay_cleanup_connector, Waited, Round, leased, gave_up,
  again, attach, with_timeout, wait_round, dbrelay_wait_for_connection,
}
use ngx_dbrelay.Pool.Lease.{Chosen, Countable, dbrelay_db_get_connection-Chosen}
use ngx_dbrelay.Pool.Invariant.{WellFormed, get-WellFormed}

-- Some round's socket connects.
pub data Connects : List (World × Option ℕ) → Type 0 where
  here : (w : World) (s : ℕ) (rounds : List (World × Option ℕ)) → Connects ((w, some s) ∷ rounds)
  there :
      (r : World × Option ℕ) (rounds : List (World × Option ℕ))
      → Connects rounds
      → Connects (r ∷ rounds)

-- What the code does with a round.
abbrev pub next : Round → Request → List (World × Option ℕ) → Option Waited
next (leased x) request rounds = some x
next (gave_up x) request rounds = some x
next (again cs effects timeout) request rounds =
    dbrelay_wait_for_connection rounds (with_timeout request timeout) cs effects

pub wait-next :
    (w : World) (socket : Option ℕ) (rounds : List (World × Option ℕ)) (request : Request)
    (cs : Connections) (effects : List Effect)
    → dbrelay_wait_for_connection ((w, socket) ∷ rounds) request cs effects
      ≡ next (wait_round w request socket cs effects) request rounds
unfolding dbrelay_wait_for_connection
wait-next w socket rounds request cs effects = go (wait_round w request socket cs effects)
  where
    go :
        (r : Round)
        → (elim r as (λ x. Option Waited) [
          | leased x ↦ some x
          | gave_up x ↦ some x
          | again cs' effects' timeout ↦
              dbrelay_wait_for_connection rounds (with_timeout request timeout) cs' effects'
        ])
          ≡ next r request rounds
    go (leased x) = refl
    go (gave_up x) = refl
    go (again cs' effects' timeout) = refl

abbrev pub got : World → Request → Connections → Outcome
got w request cs = dbrelay_db_get_connection w w request cs

-- The rounds of a process that is alive, and has a name for a new socket.
abbrev pub Able : World → Request → Type 0
Able w request = (has_socket w request ≡ true) × (w.own_pid ≢ 0) × (w.is_alive w.own_pid ≡ true)

pub round_none :
    (w : World) (request : Request) (socket : Option ℕ) (cs : Connections) (effects : List Effect)
    → (got w request cs).slot ≡ none
    → wait_round w request socket cs effects
      ≡ gave_up (record {
        lease = none;
        connections = (got w request cs).connections;
        effects = effects ++ (got w request cs).effects;
        timeout = (got w request cs).timeout;
      })
unfolding wait_round
round_none w request socket cs effects h = rw (h, wait_round)

pub round_some :
    (w : World) (request : Request) (socket : Option ℕ) (cs : Connections) (effects : List Effect)
    (i : ℕ)
    → (got w request cs).slot ≡ some i
    → wait_round w request socket cs effects
      ≡ attach w
          (with_timeout request (got w request cs).timeout)
          socket
          i
          (got w request cs).connections
          (effects ++ (got w request cs).effects)
unfolding wait_round
round_some w request socket cs effects i h = rw (h, wait_round)

-- The lease: the slot's number in the copy, and the socket if there is a connector.
abbrev pub lease_of : Request → Connection → ℕ → ℕ → Connection × ℕ
lease_of request c i s = (record c { slot = i }, if is_set request.connection_name then s else 0)

pub attach_connected :
    (w : World) (request : Request) (s i : ℕ) (cs : Connections) (effects : List Effect)
    (c : Connection)
    → get_elem? cs i ≡ some c
    → attach w request (some s) i cs effects
      ≡ leased (record {
        lease = some (lease_of request c i s);
        connections = cs;
        effects = effects;
        timeout = request.connection_timeout;
      })
unfolding attach
attach_connected w request s i cs effects c h = elim (Bool-cases (is_set request.connection_name)) [
  | inl named ↦ rw (h, named, attach)
  | inr unnamed ↦ rw (h, unnamed, attach)
]

pub attach_anonymous :
    (w : World) (request : Request) (i : ℕ) (cs : Connections) (effects : List Effect)
    (c : Connection)
    → get_elem? cs i ≡ some c
    → is_set request.connection_name ≡ false
    → attach w request none i cs effects
      ≡ leased (record {
        lease = some (record c { slot = i }, 0);
        connections = cs;
        effects = effects;
        timeout = request.connection_timeout;
      })
unfolding attach
attach_anonymous w request i cs effects c h unnamed = rw (h, unnamed, attach)

pub attach_refused :
    (w : World) (request : Request) (i : ℕ) (cs : Connections) (effects : List Effect)
    (c : Connection)
    → get_elem? cs i ≡ some c
    → is_set request.connection_name ≡ true
    → attach w request none i cs effects
      ≡ again
          (update_slot i drop_pid cs)
          (effects ++ dbrelay_cleanup_connector w (record c { slot = i }))
          request.connection_timeout
unfolding attach
attach_refused w request i cs effects c h named = rw (h, named, attach)

pub attach_out :
    (w : World) (request : Request) (socket : Option ℕ) (i : ℕ) (cs : Connections)
    (effects : List Effect)
    → get_elem? cs i ≡ none
    → attach w request socket i cs effects
      ≡ gave_up (record {
        lease = none;
        connections = cs;
        effects = effects;
        timeout = request.connection_timeout;
      })
unfolding attach
attach_out w request socket i cs effects h = rw (h, attach)

next-total :
    (request : Request) (rounds : List (World × Option ℕ))
    → ((request : Request) (cs : Connections) (effects : List Effect)
        → (x : Waited) × (dbrelay_wait_for_connection rounds request cs effects ≡ some x))
    → (r : Round) → (x : Waited) × (next r request rounds ≡ some x)
next-total request rounds more (leased x) = (x, refl)
next-total request rounds more (gave_up x) = (x, refl)
next-total request rounds more (again cs effects timeout) =
    more (with_timeout request timeout) cs effects

-- A wait comes to an end at the latest when a socket connects.
pub wait-total :
    (rounds : List (World × Option ℕ)) (request : Request) (cs : Connections)
    (effects : List Effect)
    → Connects rounds
    → (x : Waited) × (dbrelay_wait_for_connection rounds request cs effects ≡ some x)
wait-total _ request cs effects (here w s rounds) =
    rw (wait-next w (some s) rounds request cs effects)
      (elim (Option-cases (got w request cs).slot) [
        | inl full ↦ rw (round_none w request (some s) cs effects full) (_, refl)
        | inr (i, e) ↦ elim (Option-cases (get_elem? (got w request cs).connections i)) [
          | inl out ↦ rw (round_some w request (some s) cs effects i e) (
              rw (attach_out w (with_timeout request (got w request cs).timeout) (some s) i _ _ out)
                (_, refl))
          | inr (c, at) ↦ rw (round_some w request (some s) cs effects i e) (
              rw (attach_connected w (with_timeout request (got w request cs).timeout) s i _ _ c at)
                (_, refl))
        ]
      ])
wait-total _ request cs effects (there (w, socket) rounds h) =
    rw (wait-next w socket rounds request cs effects) (
      next-total request rounds (λ request' cs' effects'. wait-total rounds request' cs' effects' h)
        (wait_round w request socket cs effects))

-- A lease given is the slot in the pool itself, with its own number.
abbrev pub Leased : World → Request → Waited → Option ℕ → Type 0
Leased w request x none = x.lease ≡ none
Leased w request x (some i) =
    (c : Connection) × (s : ℕ) × (x.lease ≡ some (c, s))
    × (c.slot ≡ i)
    × (get_elem? x.connections i ≡ some c)
    × Chosen w w request c

self_slot : (c : Connection) (i : ℕ) → c.slot ≡ i → record c { slot = i } ≡ c
self_slot c i h = ap (λ k. record c { slot = k }) (sym h)

-- A wait whose first socket connects ends at once: without a lease if the pool has no slot to give,
-- else with a copy of a slot that is in use, fits the request and is as the copy says in the pool it
-- leaves. The process is alive, has a name for a new socket if the connection is named, and the pool
-- is well formed with no count of users at its top.
pub wait-Leased :
    (w : World) (s : ℕ) (rounds : List (World × Option ℕ)) (request : Request) (cs : Connections)
    (effects : List Effect)
    → Able w request
    → Countable cs
    → WellFormed cs
    → (x : Waited) × (dbrelay_wait_for_connection ((w, some s) ∷ rounds) request cs effects
        ≡ some x)
      × Leased w request x (dbrelay_db_get_connection w w request cs).slot
wait-Leased w s rounds request cs effects (socket, me, alive) room ok =
    rw (wait-next w (some s) rounds request cs effects) (go (got w request cs).slot refl)
  where
    go :
        (slot : Option ℕ)
        → (got w request cs).slot ≡ slot
        → (x : Waited) × (next (wait_round w request (some s) cs effects) request rounds ≡ some x)
          × Leased w request x slot
    go none e = rw (round_none w request (some s) cs effects e) (_, refl, refl)
    go (some i) e =
        let (c, at, chosen) =
          dbrelay_db_get_connection-Chosen w w request cs (omega arith) me alive i socket room e in
        let n = (get-WellFormed w w request cs ok).slots i c at in
        let own = n.number chosen.kept.used in
        rw (round_some w request (some s) cs effects i e) (
          rw (attach_connected w (with_timeout request (got w request cs).timeout) s i _ _ c at) (
            _,
            refl,
            (
              c,
              _,
              ap (λ d. some (d, if is_set request.connection_name then s else 0))
                  (self_slot c i own),
              own,
              at,
              chosen,
            ),
          ))
