-- ===== src/Query/Lifetime.antt =====
-- `dbrelay_db_run_query` of src/db.c as a user of the pool: what becomes of the slot that a query over a
-- named connection works on.
use ngx_dbrelay.Base.{
  refl, sym, ap, subst, ◌∙◌, true, false, ◌≡◌, ◌++◌, ◌∷◌, ℕ, not, List, [], Option, none, some,
  Bytes, is_set, is_empty, get_elem?, if◌then◌else◌, ◌==◌, Bool-cases, inl, inr,
}
use ngx_dbrelay.Request.{Request}
use ngx_dbrelay.Json.{Json}
use ngx_dbrelay.Params.{given_params, dbrelay_resolve_params, dbrelay_check_request}
use ngx_dbrelay.Pool.{Connection, Connections, Effect, World, decrement, update_slot}
use ngx_dbrelay.Pool.Slots.{OnlyAt, update_slot-OnlyAt, get_elem?-update_slot}
use ngx_dbrelay.Pool.Reaping.{
  adopt, finish_query, with_timeout, Waited, dbrelay_wait_for_connection, dbrelay_db_get_connection,
  dbrelay_db_free_connection,
}
use ngx_dbrelay.Pool.Invariant.{WellFormed}
use ngx_dbrelay.Pool.Lease.{Countable}
use ngx_dbrelay.Pool.Wait.{Able, Leased, wait-Leased}
use ngx_dbrelay.Results.{DbApi}
use ngx_dbrelay.Query.{
  start_answer, Peer, Served, text_of, ask_connector, connector_effects, finish_answer,
  fail_initialize, serve_named, serve, dbrelay_db_run_query,
}

-- The slot of a query that is over: one user less, the time of the end, and the connector's process
-- number if it said one.
abbrev pub given_back : World → ℕ → Connection → Connection
given_back later helper c = record c {
  tm_accessed = later.now;
  in_use = decrement c.in_use;
  helper_pid = if helper == 0 then c.helper_pid else helper;
}

-- What a query leaves of the pool behind its wait, by what its connector said and by its lease: the slot
-- of the lease given back and no other changed. Without a lease nothing is changed, nor if the
-- connector cannot be initialized.
abbrev pub GivesBack :
    Option ℕ → World → Connections → Connections → Option (Connection × ℕ) → Type 0
GivesBack none later before after lease = after ≡ before
GivesBack (some helper) later before after none = after ≡ before
GivesBack (some helper) later before after (some (c, s)) =
    OnlyAt c.slot before after × (get_elem? after c.slot ≡ some (given_back later helper c))

-- A lease is a slot of the pool, with a name.
abbrev InPool : Connections → Option (Connection × ℕ) → Type 0
InPool cs none = Unit
InPool cs (some (c, s)) = (get_elem? cs c.slot ≡ some c) × (is_empty c.connection_name ≡ false)

finish_query-named :
    (later : World) (c : Connection)
    → is_empty c.connection_name ≡ false
    → (finish_query later c).0 ≡ record c { tm_accessed = later.now; in_use = decrement c.in_use }
unfolding finish_query dbrelay_db_free_connection
finish_query-named later c h = rw h refl

OnlyAt-trans : (i : ℕ) (a b c : Connections) → OnlyAt i a b → OnlyAt i b c → OnlyAt i a c
OnlyAt-trans i a b c h k = record {
  same_length = k.same_length ∙ h.same_length;
  same_elsewhere = λ j ne. k.same_elsewhere j ne ∙ h.same_elsewhere j ne;
}

-- The two writes to the slot.
returns :
    (later : World) (helper s : ℕ) (cs : Connections) (c : Connection)
    → InPool cs (some (c, s))
    → GivesBack
        (some helper)
        later
        cs
        (update_slot c.slot
          (λ x. (finish_query later x).0)
          (if not (helper == 0) then update_slot c.slot (adopt helper) cs else cs))
        (some (c, s))
unfolding adopt
returns later helper s cs c (at, named) =
    let finish : Connection → Connection = λ x. (finish_query later x).0 in
    elim (Bool-cases (helper == 0)) [
      | inl unsaid ↦ rw unsaid (
        update_slot-OnlyAt cs c.slot finish c at,
        get_elem?-update_slot cs c.slot finish c at ∙ ap some (finish_query-named later c named),
      )
      | inr said ↦
          let adopted = get_elem?-update_slot cs c.slot (adopt helper) c at in
          rw said (
            OnlyAt-trans c.slot _ _ _ (update_slot-OnlyAt cs c.slot (adopt helper) c at)
                (update_slot-OnlyAt _ c.slot finish (adopt helper c) adopted),
            get_elem?-update_slot _ c.slot finish (adopt helper c) adopted
                ∙ ap some (finish_query-named later (adopt helper c) named),
          )
    ]

module _ {D : Type 0} (api : DbApi D) where
  serve_named-GivesBack :
      (peer : Peer D) (request : Request) (given : List Bytes) (c : Connection) (s : ℕ) (j : Json)
      (cs : Connections) (effects : List Effect)
      → InPool cs (some (c, s))
      → GivesBack peer.initialize peer.later cs
          (serve_named api peer request given c s j cs effects).connections
          (some (c, s))
  unfolding serve_named fail_initialize finish_answer
  serve_named-GivesBack peer request given c s j cs effects h = go peer.initialize
    where
      go :
          (o : Option ℕ)
          → GivesBack o peer.later cs
              (elim o as (λ x. Served) [
                | none ↦ fail_initialize api request j cs effects
                | some helper ↦
                    finish_answer api peer.later request given c.slot
                      (if not (helper == 0) then update_slot c.slot (adopt helper) cs else cs)
                      (effects ++ connector_effects s peer.send_request.1)
                      (ask_connector request peer.send_request j)
              ]).connections
              (some (c, s))
      go none = refl
      go (some helper) = returns peer.later helper s cs c h

  serve-GivesBack :
      (fuel : ℕ) (peer : Peer D) (request : Request) (given : List Bytes) (newsql : Bytes)
      (j : Json) (x : Waited) (lease : Option (Connection × ℕ))
      → is_set request.connection_name ≡ true
      → x.lease ≡ lease
      → InPool x.connections lease
      → (r : Served) × (serve api fuel peer request given newsql j x ≡ some r)
        × GivesBack peer.initialize peer.later x.connections r.connections lease
  unfolding serve
  serve-GivesBack fuel peer request given newsql j x none named e h =
      rw (e, serve) (_, refl, unchanged peer.initialize)
    where
      unchanged : (o : Option ℕ) → GivesBack o peer.later x.connections x.connections none
      unchanged none = refl
      unchanged (some helper) = refl
  serve-GivesBack fuel peer request given newsql j x (some (c, s)) named e h =
      rw (e, named, serve)
        (
          serve_named api peer request given c s j x.connections x.effects,
          refl,
          serve_named-GivesBack peer request given c s j x.connections x.effects h,
        )

  named_lease :
      (w : World) (request : Request) (x : Waited) (slot : Option ℕ)
      → is_set request.connection_name ≡ true
      → Leased w request x slot
      → InPool x.connections x.lease
  named_lease w request x none named e = subst (InPool x.connections) (sym e) tt
  named_lease w request x (some i) named (c, s, e, own, at, chosen) =
      subst (InPool x.connections) (sym e) (
        subst (λ k. get_elem? x.connections k ≡ some c) (sym own) at,
        rw chosen.fits.name (set_not_empty request.connection_name named),
      )
    where
      set_not_empty : (b : Bytes) → is_set b ≡ true → is_empty b ≡ false
      set_not_empty [] h = cc
      set_not_empty (y ∷ b) h = refl

  -- A query over a named connection has a result, and gives the slot of its lease back to the pool that
  -- its wait left: one user less, the time of the end and the connector's process number, and no other
  -- slot changed. Without a lease the pool stays as the wait left it, and also if the connector cannot
  -- be initialized: then the slot keeps its user. The request is complete, its parameters have a
  -- defined result, the wait's first socket connects, the process is alive and has a name for a new
  -- socket, and the pool is well formed with no count of users at its top.
  pub dbrelay_db_run_query-GivesBack :
      (fuel : ℕ) (magic : Bytes) (peer : Peer D) (request : Request) (cs : Connections)
      (given : List Bytes) (newsql : Bytes) (w : World) (s : ℕ) (rounds : List (World × Option ℕ))
      → is_set request.connection_name ≡ true
      → dbrelay_check_request request ≡ true
      → given_params request.params ≡ some given
      → dbrelay_resolve_params magic request (text_of request.sql) ≡ some newsql
      → peer.rounds ≡ (w, some s) ∷ rounds
      → Able w request
      → Countable cs
      → WellFormed cs
      → (x : Waited) × (r : Served) × (dbrelay_wait_for_connection peer.rounds request cs []
          ≡ some x)
        × Leased w request x (dbrelay_db_get_connection w w request cs).slot
        × (dbrelay_db_run_query api fuel magic peer request cs ≡ some r)
        × GivesBack peer.initialize peer.later x.connections r.connections x.lease
  unfolding dbrelay_db_run_query
  dbrelay_db_run_query-GivesBack fuel magic peer request cs given newsql w s rounds named checked g
        n first able room ok =
      let (x, waits, leased) = wait-Leased w s rounds request cs [] able room ok in
      let e : dbrelay_wait_for_connection peer.rounds request cs [] ≡ some x =
        ap (λ rs. dbrelay_wait_for_connection rs request cs []) first ∙ waits in
      let (r, served, back) =
        serve-GivesBack fuel peer (with_timeout request x.timeout) given newsql
          (start_answer request) x x.lease named refl (named_lease w request x _ named leased) in
      (x, r, e, leased, rw (checked, g, n, e, dbrelay_db_run_query) served, back)
