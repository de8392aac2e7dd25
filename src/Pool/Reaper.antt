-- ===== src/Pool/Reaper.antt =====
-- The reaper `dbrelay_db_close_connections` of src/db.c: which slots it keeps, and that the slot a
-- request just got is among them.
use native.Mathlib.Decide.{ℕ_discrete}
use ngx_dbrelay.Base.{
  ℕ, zero, suc, ◌+◌, ◌≤◌, ◌≡◌, ◌≢◌, refl, sym, ap, ◌∙◌, ◌⊎◌, inl, inr, true, false, List, [], ◌∷◌,
  Option, none, some, arith, Bytes, length, get_elem?, is_set, if◌then◌else◌, Bool-cases,
}
use ngx_dbrelay.Base.Int.{pos, ◌+ℤ◌, ltb_ℤ}
use ngx_dbrelay.Request.{dbrelay_hard_timeout}
use ngx_dbrelay.Pool.{
  Connection, Connections, Effect, World, close_handle, dbrelay_db_zero_connection,
  dbrelay_db_close_connection,
}
use ngx_dbrelay.Pool.Reaping.{
  is_orphan, drop_orphan, is_over_hard, is_over, time_out, reap, dbrelay_db_close_connections,
}

-- The idle time that the connection was given is not over.
abbrev pub InTime : World → Connection → Type 0
InTime w c = ltb_ℤ (pos c.tm_accessed +ℤ c.connection_timeout) (pos w.now) ≡ false

-- What keeps a slot: it is in use, its worker lives if it has no name, the hard limit is not
-- reached, and it has a user or idle time left.
pub record Kept (w : World) (c : Connection) : Type 0 where
  pub used : c.pid ≢ 0
  pub owned : (c.connection_name ≢ []) ⊎ (w.is_alive c.pid ≡ true)
  pub fresh : w.now ≤ c.tm_accessed + dbrelay_hard_timeout
  pub held : (c.in_use ≢ 0) ⊎ InTime w c

is_set-eq-false : (s : Bytes) → is_set s ≡ false → s ≡ []
is_set-eq-false [] h = refl
is_set-eq-false (c ∷ s) h = cc

is_set-eq-true : (s : Bytes) → is_set s ≡ true → s ≢ []
is_set-eq-true [] h = cc
is_set-eq-true (c ∷ s) h = λ e. cc

drop_orphan_no : (w : World) (c : Connection) → is_orphan w c ≡ false → drop_orphan w c ≡ c
unfolding drop_orphan
drop_orphan_no w c h = rw h

drop_orphan_yes :
    (w : World) (c : Connection)
    → is_orphan w c ≡ true
    → drop_orphan w c ≡ dbrelay_db_zero_connection c
unfolding drop_orphan
drop_orphan_yes w c h = rw h

not-is_orphan :
    (w : World) (c : Connection)
    → (c.connection_name ≢ []) ⊎ (w.is_alive c.pid ≡ true)
    → is_orphan w c ≡ false
unfolding is_orphan
not-is_orphan w c (inl named) = elim (Bool-cases (is_set c.connection_name)) [
  | inl e ↦ ground arith
  | inr e ↦ absurd (named (is_set-eq-false _ e))
]
not-is_orphan w c (inr alive) = ground arith

owned_unless_orphan :
    (w : World) (c : Connection)
    → c.pid ≢ 0
    → is_orphan w c ≡ false
    → (c.connection_name ≢ []) ⊎ (w.is_alive c.pid ≡ true)
unfolding is_orphan
owned_unless_orphan w c used h = elim (Bool-cases (is_set c.connection_name)) [
  | inl e ↦ inl (is_set-eq-true _ e)
  | inr e ↦ inr (ground arith)
]

-- The four tests of `time_out`, in their order.
time_out_kept :
    (w : World) (c : Connection)
    → w.now ≤ c.tm_accessed + dbrelay_hard_timeout
    → (c.in_use ≢ 0) ⊎ InTime w c
    → time_out w c ≡ (c, [])
unfolding time_out is_over_hard is_over
time_out_kept w c fresh (inl held) = ground arith
time_out_kept w c fresh (inr in_time) = ground arith

time_out_used :
    (w : World) (c : Connection)
    → (time_out w c).0.pid ≢ 0
    → (c.pid ≢ 0) × (w.now ≤ c.tm_accessed + dbrelay_hard_timeout) × ((c.in_use ≢ 0) ⊎ InTime w c)
unfolding time_out is_over_hard is_over dbrelay_db_close_connection dbrelay_db_zero_connection
time_out_used w c h =
    elim (Bool-cases (ltb_ℤ (pos c.tm_accessed +ℤ c.connection_timeout) (pos w.now))) [
      | inl over ↦ (ground arith, ground arith, inl (ground arith))
      | inr in_time ↦ (ground arith, ground arith, inr in_time)
    ]

time_out_closes :
    (w : World) (c : Connection)
    → (time_out w c).0.pid ≡ 0
    → c.pid ≢ 0
    → time_out w c ≡ (dbrelay_db_zero_connection c, close_handle c.db)
unfolding time_out dbrelay_db_close_connection
time_out_closes w c h used = ground arith

pub reap-Kept : (w : World) (c : Connection) → Kept w c → reap w c ≡ (c, [])
unfolding reap
reap-Kept w c k =
    ap (time_out w) (drop_orphan_no w c (not-is_orphan w c k.owned))
    ∙ time_out_kept w c k.fresh k.held

zeroed_pid : (c : Connection) → (dbrelay_db_zero_connection c).pid ≡ 0
unfolding dbrelay_db_zero_connection
zeroed_pid c = refl

time_out_free : (w : World) (c : Connection) → c.pid ≡ 0 → time_out w c ≡ (c, [])
unfolding time_out
time_out_free w c h = ground arith

reap_orphan :
    (w : World) (c : Connection)
    → is_orphan w c ≡ true
    → reap w c ≡ (dbrelay_db_zero_connection c, [])
unfolding reap
reap_orphan w c h = ap (time_out w) (drop_orphan_yes w c h) ∙ time_out_free w _ (zeroed_pid c)

reap_other : (w : World) (c : Connection) → is_orphan w c ≡ false → reap w c ≡ time_out w c
unfolding reap
reap_other w c h = ap (time_out w) (drop_orphan_no w c h)

-- What a round of the reaper makes of a slot: kept as it is; or freed, its handle closed unless it has
-- no name and its worker is dead; or free already.
abbrev pub Reaped : World → Connection → Connection × List Effect → Type 0
Reaped w c r =
    (Kept w c × (r ≡ (c, [])))
    ⊎ (((¬ Kept w c)
          × (c.pid ≢ 0)
          × (r ≡ (dbrelay_db_zero_connection c, (if is_orphan w c then [] else close_handle c.db))))
        ⊎ ((c.pid ≡ 0) × (r ≡ (c, []))))

not-Kept_orphan : (w : World) (c : Connection) → is_orphan w c ≡ true → ¬ Kept w c
not-Kept_orphan w c h k = let n = not-is_orphan w c k.owned in cc

free_not_orphan : (w : World) (c : Connection) → c.pid ≡ 0 → is_orphan w c ≡ false
unfolding is_orphan
free_not_orphan w c h = ground arith

Kept-by_stay :
    (w : World) (c : Connection) → is_orphan w c ≡ false → (time_out w c).0.pid ≢ 0 → Kept w c
Kept-by_stay w c other stays =
    let (used, fresh, held) = time_out_used w c stays in
    record { used = used; owned = owned_unless_orphan w c used other; fresh = fresh; held = held }

-- A round keeps a slot that is in use exactly if it has a name or its worker is alive, the hard limit is
-- not passed, and it has a user or idle time left; it frees any other slot in use, and closes the handle
-- of that unless it has no name and its worker is dead; it changes nothing else.
pub reap-Reaped : (w : World) (c : Connection) → Reaped w c (reap w c)
reap-Reaped w c = elim (ℕ_discrete c.pid 0) [
  | yes free ↦ inr (inr (free, reap_other w c (free_not_orphan w c free) ∙ time_out_free w c free))
  | no used ↦ elim (Bool-cases (is_orphan w c)) [
    | inl orphan ↦ inr (inl (not-Kept_orphan w c orphan, used, rw orphan (reap_orphan w c orphan)))
    | inr other ↦ elim (ℕ_discrete (time_out w c).0.pid 0) [
      | yes closed ↦ inr (
          inl (
            (λ k. used (
                sym (
                  ap (λ (r : Connection × List Effect). r.0.pid) (time_out_kept w c k.fresh k.held))
                ∙ closed)),
            used,
            rw other (reap_other w c other ∙ time_out_closes w c closed used),
          ))
      | no stays ↦ let k = Kept-by_stay w c other stays in inl (k, reap-Kept w c k)
    ]
  ]
]

abbrev pub reaped : World → Option Connection → Option Connection
reaped w none = none
reaped w (some c) = some (reap w c).0

-- The loop makes that of every slot, and adds and loses none.
pub get_elem?-close_connections :
    (w : World) (cs : Connections) (i : ℕ)
    → get_elem? (dbrelay_db_close_connections w cs).0 i ≡ reaped w (get_elem? cs i)
unfolding dbrelay_db_close_connections
get_elem?-close_connections w [] i = refl
get_elem?-close_connections w (c ∷ cs) zero = refl
get_elem?-close_connections w (c ∷ cs) (suc i) = get_elem?-close_connections w cs i

pub length-close_connections :
    (w : World) (cs : Connections) → length (dbrelay_db_close_connections w cs).0 ≡ length cs
unfolding dbrelay_db_close_connections
length-close_connections w [] = refl
length-close_connections w (c ∷ cs) = ap suc (length-close_connections w cs)

pub close_connections-Kept :
    (w : World) (cs : Connections) (i : ℕ) (c : Connection)
    → get_elem? cs i ≡ some c
    → Kept w c
    → get_elem? (dbrelay_db_close_connections w cs).0 i ≡ some c
close_connections-Kept w cs i c at k =
    get_elem?-close_connections w cs i
    ∙ ap (reaped w) at
    ∙ ap (λ (r : Connection × List Effect). some r.0) (reap-Kept w c k)
