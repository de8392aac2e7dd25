-- ===== src/Pool/Invariant.antt =====
-- The pool over its whole life: the steps that processes take on it, each under one hold of the
-- semaphore, and what holds of the pool after any number of them.
use native.Mathlib.Decide.{ℕ_discrete}
use ngx_dbrelay.Base.{
  ℕ, zero, suc, ◌%◌, ◌<◌, ◌≡◌, ◌≢◌, refl, sym, ap, subst, ◌∙◌, inl, inr, true, false, [], Option,
  none, some, arith, length, length-set, length-replicate, get_elem?, set, replicate,
  get_elem?-set_self, get_elem?-set_ne, is_set, is_empty, Bool-cases, Option-cases,
}
use ngx_dbrelay.Request.{Request, dbrelay_max_conn}
use ngx_dbrelay.Pool.{
  Connection, Connections, World, blank, unsigned_mod, increment, decrement, touch, stamp,
  copy_request, populate_named, dbrelay_db_populate_connection, dbrelay_create_shmem, find_slot,
  is_free, is_match, update_slot, dbrelay_db_alloc_connection, dbrelay_db_find_connection,
  dbrelay_db_zero_connection, dbrelay_db_close_connection,
}
use ngx_dbrelay.Pool.Slots.{update_slot-eq, get_elem?-lt}
use ngx_dbrelay.Pool.Lookup.{find_none, find_some}
use ngx_dbrelay.Pool.Allocation.{opened, alloc_none, alloc_some}
use ngx_dbrelay.Pool.Reaper.{
  reaped, reap-Reaped, get_elem?-close_connections, length-close_connections,
}
use ngx_dbrelay.Pool.Reaping.{
  adopt, reap, drop_pid, finish_query, dbrelay_db_free_connection, choose_connection,
  dbrelay_db_close_connections, dbrelay_db_get_connection,
}

-- A slot in use knows its own number, and its count of users is an `unsigned int`.
pub record Numbered (i : ℕ) (c : Connection) : Type 0 where
  pub number : c.pid ≢ 0 → c.slot ≡ i
  pub count : c.in_use < unsigned_mod

pub record WellFormed (cs : Connections) : Type 0 where
  pub size : length cs ≡ dbrelay_max_conn
  pub slots : (i : ℕ) (c : Connection) → get_elem? cs i ≡ some c → Numbered i c

-- What a process does to the pool under one hold of the semaphore: it looks for a connection that fits
-- a request, fills a free slot, reaps, takes the slot of a connector that cannot be reached, puts down
-- a connector's process number, ends a query, or closes a slot. `dbrelay_db_get_connection` is several
-- steps, between which other processes may take theirs.
pub data Step : Connections → Connections → Type 0 where
  find :
      (w : World) (request : Request) (cs : Connections)
      → Step cs (dbrelay_db_find_connection w request cs).connections
  alloc :
      (w : World) (request : Request) (cs : Connections)
      → Step cs (dbrelay_db_alloc_connection w request cs).connections
  reap_slots : (w : World) (cs : Connections) → Step cs (dbrelay_db_close_connections w cs).0
  give_up : (i : ℕ) (cs : Connections) → Step cs (update_slot i drop_pid cs)
  finish :
      (w : World) (i : ℕ) (cs : Connections)
      → Step cs (update_slot i (λ c. (finish_query w c).0) cs)
  adopt_helper : (helper i : ℕ) (cs : Connections) → Step cs (update_slot i (adopt helper) cs)
  close :
      (i : ℕ) (cs : Connections)
      → Step cs (update_slot i (λ c. (dbrelay_db_close_connection c).0) cs)

-- The pools that processes can reach from the one that was created.
pub data Reachable : Connections → Type 0 where
  created : Reachable dbrelay_create_shmem
  stepped : (cs cs' : Connections) → Reachable cs → Step cs cs' → Reachable cs'

none-some : {c : Connection} → none ≡ some c → ⊥
none-some h = cc

some_inj : {a b : Connection} → some a ≡ some b → a ≡ b
some_inj e = cc

mod_bound : (n : ℕ) → n % unsigned_mod < unsigned_mod
mod_bound n = omega arith

pub get_elem?-replicate :
    (n i : ℕ) (c : Connection) → get_elem? (replicate n blank) i ≡ some c → c ≡ blank
get_elem?-replicate zero i c h = absurd (cc)
get_elem?-replicate (suc n) zero c h = sym (some_inj h)
get_elem?-replicate (suc n) (suc i) c h = get_elem?-replicate n i c h

blank-Numbered : (i : ℕ) → Numbered i blank
blank-Numbered i = record { number = λ used. absurd (used refl); count = omega arith }

create-WellFormed : WellFormed dbrelay_create_shmem
unfolding dbrelay_create_shmem
create-WellFormed = record {
  size = length-replicate dbrelay_max_conn blank;
  slots = λ i c h. rw (get_elem?-replicate dbrelay_max_conn i c h) (blank-Numbered i);
}

-- A slot written with a numbered connection.
set-WellFormed :
    (cs : Connections) (i : ℕ) (c : Connection)
    → WellFormed cs
    → Numbered i c
    → WellFormed (set cs i c)
set-WellFormed cs i c w n = record {
  size = length-set cs i c ∙ w.size;
  slots = λ j x h. elim (ℕ_discrete i j) [
    | yes e ↦
        let lt = subst (λ m. j < m) (length-set cs i c) (get_elem?-lt (set cs i c) j x h) in
        let same = get_elem?-set_self cs i c (subst (λ k. k < length cs) (sym e) lt) in
        let there = subst (λ k. get_elem? (set cs i c) k ≡ some x) (sym e) h in
        subst (λ k. Numbered k x) e (subst (Numbered i) (some_inj (sym same ∙ there)) n)
    | no ne ↦ w.slots j x (sym (get_elem?-set_ne cs i j c ne) ∙ h)
  ];
}

pub update_slot_out :
    (cs : Connections) (i : ℕ) (f : Connection → Connection)
    → get_elem? cs i ≡ none
    → update_slot i f cs ≡ cs
unfolding update_slot
update_slot_out cs i f h = rw (h, update_slot)

-- A slot changed by a function that keeps slots numbered.
update_slot-WellFormed :
    (cs : Connections) (i : ℕ) (f : Connection → Connection)
    → WellFormed cs
    → ((c : Connection) → Numbered i c → Numbered i (f c))
    → WellFormed (update_slot i f cs)
update_slot-WellFormed cs i f w step = elim (Option-cases (get_elem? cs i)) [
  | inl out ↦ rw (update_slot_out cs i f out) w
  | inr (c, at) ↦
      rw (update_slot-eq cs i f c at) (set-WellFormed cs i (f c) w (step c (w.slots i c at)))
]

zero-Numbered : (i : ℕ) (c : Connection) → Numbered i (dbrelay_db_zero_connection c)
unfolding dbrelay_db_zero_connection
zero-Numbered i c = record { number = λ used. absurd (used refl); count = omega arith }

close-Numbered : (i : ℕ) (c : Connection) → Numbered i (dbrelay_db_close_connection c).0
unfolding dbrelay_db_close_connection
close-Numbered i c = zero-Numbered i c

touch-Numbered : (w : World) (i : ℕ) (c : Connection) → Numbered i c → Numbered i (touch w c)
unfolding touch increment
touch-Numbered w i c n = record { number = n.number; count = mod_bound _ }

drop_pid-Numbered : (i : ℕ) (c : Connection) → Numbered i c → Numbered i (drop_pid c)
unfolding drop_pid
drop_pid-Numbered i c n = record { number = λ used. absurd (used refl); count = n.count }

adopt-Numbered : (helper i : ℕ) (c : Connection) → Numbered i c → Numbered i (adopt helper c)
unfolding adopt
adopt-Numbered helper i c n = record { number = n.number; count = n.count }

free_anonymous :
    (c : Connection)
    → is_empty c.connection_name ≡ true
    → (dbrelay_db_free_connection c).0
      ≡ (dbrelay_db_close_connection (record c { in_use = decrement c.in_use })).0
unfolding dbrelay_db_free_connection
free_anonymous c h = rw h

free_named :
    (c : Connection)
    → is_empty c.connection_name ≡ false
    → dbrelay_db_free_connection c ≡ (record c { in_use = decrement c.in_use }, [])
unfolding dbrelay_db_free_connection
free_named c h = rw h

free-Numbered :
    (i : ℕ) (c : Connection) → Numbered i c → Numbered i (dbrelay_db_free_connection c).0
free-Numbered i c n = elim (Bool-cases (is_empty c.connection_name)) [
  | inl h ↦ rw (free_anonymous c h) (close-Numbered i _)
  | inr h ↦
      rw (free_named c h) (record { number = n.number; count = unfold decrement in mod_bound _ })
]

finish-Numbered :
    (w : World) (i : ℕ) (c : Connection) → Numbered i c → Numbered i (finish_query w c).0
unfolding finish_query
finish-Numbered w i c n =
    free-Numbered i (record c { tm_accessed = w.now })
      (record { number = n.number; count = n.count })

reap-Numbered : (w : World) (i : ℕ) (c : Connection) → Numbered i c → Numbered i (reap w c).0
reap-Numbered w i c n = elim (reap-Reaped w c) [
  | inl (_, e) ↦ rw e n
  | inr (inl (_, _, e)) ↦ rw e (zero-Numbered i c)
  | inr (inr (_, e)) ↦ rw e n
]

populate-count :
    (w : World) (request : Request) (db : Option ℕ)
    → (dbrelay_db_populate_connection w request db).0.in_use < unsigned_mod
unfolding dbrelay_db_populate_connection populate_named stamp copy_request increment
populate-count w request db = elim (Bool-cases (is_set request.connection_name)) [
  | inl named ↦ elim (Bool-cases (is_set request.sock_path)) [
    | inl given ↦ rw (named, given) (omega arith)
    | inr fresh ↦ elim (Option-cases w.temp_name) [
      | inl no_name ↦ rw (named, fresh, no_name) (omega arith)
      | inr (path, e) ↦ rw (named, fresh, e) (omega arith)
    ]
  ]
  | inr unnamed ↦ rw unnamed (omega arith)
]

alloc-WellFormed :
    (w : World) (request : Request) (cs : Connections)
    → WellFormed cs
    → WellFormed (dbrelay_db_alloc_connection w request cs).connections
alloc-WellFormed w request cs ok = elim (Option-cases (find_slot is_free cs)) [
  | inl full ↦ rw (alloc_none w request cs full) ok
  | inr (i, e) ↦ rw (alloc_some w request cs i e) (
      set-WellFormed cs i _ ok
        (record { number = λ used. refl; count = populate-count w request (opened w request) }))
]

find-WellFormed :
    (w : World) (request : Request) (cs : Connections)
    → WellFormed cs
    → WellFormed (dbrelay_db_find_connection w request cs).connections
find-WellFormed w request cs ok = elim (Option-cases (find_slot (is_match request) cs)) [
  | inl missing ↦ rw (find_none w request cs missing) ok
  | inr (i, e) ↦
      rw (find_some w request cs i e)
        (update_slot-WellFormed cs i (touch w) ok (touch-Numbered w i))
]

choose-WellFormed :
    (w : World) (request : Request) (cs : Connections)
    → WellFormed cs
    → WellFormed (choose_connection w request cs).connections
unfolding choose_connection
choose-WellFormed w request cs ok = elim (Bool-cases (is_empty request.connection_name)) [
  | inl h ↦ rw h (alloc-WellFormed w request cs ok)
  | inr h ↦ elim (Option-cases (dbrelay_db_find_connection w request cs).slot) [
    | inl missing ↦ rw (h, missing) (alloc-WellFormed w request _ (find-WellFormed w request cs ok))
    | inr (i, e) ↦ rw (h, e) (find-WellFormed w request cs ok)
  ]
]

reap-WellFormed :
    (w : World) (cs : Connections)
    → WellFormed cs
    → WellFormed (dbrelay_db_close_connections w cs).0
reap-WellFormed w cs ok = record {
  size = length-close_connections w cs ∙ ok.size;
  slots = λ i c h. elim (Option-cases (get_elem? cs i)) [
    | inl out ↦
        absurd (none-some (sym (get_elem?-close_connections w cs i ∙ ap (reaped w) out) ∙ h))
    | inr (d, at) ↦
        subst (Numbered i)
          (some_inj (sym (get_elem?-close_connections w cs i ∙ ap (reaped w) at) ∙ h))
          (reap-Numbered w i d (ok.slots i d at))
  ];
}

pub get-WellFormed :
    (w later : World) (request : Request) (cs : Connections)
    → WellFormed cs
    → WellFormed (dbrelay_db_get_connection w later request cs).connections
unfolding dbrelay_db_get_connection
get-WellFormed w later request cs ok = reap-WellFormed later _ (choose-WellFormed w request cs ok)

Step-WellFormed : {cs cs' : Connections} → Step cs cs' → WellFormed cs → WellFormed cs'
Step-WellFormed (find w request cs) ok = find-WellFormed w request cs ok
Step-WellFormed (alloc w request cs) ok = alloc-WellFormed w request cs ok
Step-WellFormed (reap_slots w cs) ok = reap-WellFormed w cs ok
Step-WellFormed (give_up i cs) ok = update_slot-WellFormed cs i drop_pid ok (drop_pid-Numbered i)
Step-WellFormed (finish w i cs) ok = update_slot-WellFormed cs i _ ok (finish-Numbered w i)
Step-WellFormed (adopt_helper helper i cs) ok =
    update_slot-WellFormed cs i _ ok (adopt-Numbered helper i)
Step-WellFormed (close i cs) ok = update_slot-WellFormed cs i _ ok (λ c n. close-Numbered i c)

-- Whatever steps the processes take in whatever order, the pool keeps its size, every slot in use
-- knows its own number, and every count of users stays in its range.
pub Reachable-WellFormed : (cs : Connections) → Reachable cs → WellFormed cs
Reachable-WellFormed cs created = create-WellFormed
Reachable-WellFormed cs (stepped before _ r s) = Step-WellFormed s (Reachable-WellFormed before r)
