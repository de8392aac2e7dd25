-- ===== src/Admin/Killing.antt =====
-- The kill command of src/admin.c on the pool.
use ngx_dbrelay.Base.{
  ℕ, zero, suc, ◌+◌, ◌<◌, ◌≡◌, ◌≢◌, ◌↔◌, refl, sym, str_eq_iff, ap, subst, ◌∙◌, ◌⊎◌, inl, inr, Bool,
  true, false, [], ◌∷◌, Option, none, some, Bytes, get_elem?, arith, Option-cases, if◌then◌else◌,
}
use ngx_dbrelay.Pool.{Connection, Connections, update_slot, dbrelay_db_close_connection}
use ngx_dbrelay.Pool.Slots.{OnlyAt, update_slot-OnlyAt, get_elem?-update_slot}
use ngx_dbrelay.Pool.Invariant.{Reachable, stepped, close, update_slot_out}
use ngx_dbrelay.Admin.{
  success, not_found, Killed, has_path, helper_loop, close_slot, dbrelay_admin_kill,
}

-- The last slot in use that has the path, found from the back, and its connector.
unfoldable last_slot : Bytes → Connections → Option (ℕ × ℕ)
last_slot path [] = none
last_slot path (c ∷ cs) = elim (last_slot path cs) [
  | none ↦ if has_path path c then some (c.helper_pid, 0) else none
  | some (pid, j) ↦ some (pid, suc j)
]

abbrev counted : ℕ → Option (ℕ × ℕ) → Option (ℕ × ℕ) → Option (ℕ × ℕ)
counted i found none = found
counted i found (some (pid, j)) = some (pid, i + j)

helper_loop-last_slot :
    (path : Bytes) (cs : Connections) (i : ℕ) (found : Option (ℕ × ℕ))
    → helper_loop path i cs found ≡ counted i found (last_slot path cs)
unfolding helper_loop last_slot
helper_loop-last_slot path [] i found = refl
helper_loop-last_slot path (c ∷ cs) i found =
    helper_loop-last_slot path cs (i + 1) _ ∙ go (last_slot path cs) (has_path path c)
  where
    go :
        (r : Option (ℕ × ℕ)) (b : Bool)
        → counted (i + 1) (if b then some (c.helper_pid, i) else found) r
          ≡ counted i found (elim r [
            | none ↦ if b then some (c.helper_pid, 0) else none
            | some (pid, j) ↦ some (pid, suc j)
          ])
    go none true = ap (λ k. some (c.helper_pid, k)) {x = i} {y = i + 0} (omega arith)
    go none false = refl
    go (some (pid, j)) b = ap (λ k. some (pid, k)) {x = i + 1 + j} {y = i + suc j} (omega arith)

-- A slot in use with the path.
abbrev pub UsesPath : Bytes → Connection → Type 0
UsesPath path c = (c.pid ≢ 0) × (c.sock_path ≡ path)

-- Such a slot behind which there is no other, with its connector, or none at all.
abbrev pub LastAt : Bytes → Connections → Option (ℕ × ℕ) → Type 0
LastAt path cs none = (j : ℕ) (c : Connection) → get_elem? cs j ≡ some c → ¬ UsesPath path c
LastAt path cs (some (pid, i)) =
    ((c : Connection) × (get_elem? cs i ≡ some c) × UsesPath path c × (c.helper_pid ≡ pid))
    × ((j : ℕ) (c : Connection) → i < j → get_elem? cs j ≡ some c → ¬ UsesPath path c)

-- The same by the test of the code.
abbrev LastTrue : Bytes → Connections → Option (ℕ × ℕ) → Type 0
LastTrue path cs none = (j : ℕ) (c : Connection) → get_elem? cs j ≡ some c → has_path path c ≡ false
LastTrue path cs (some (pid, i)) =
    ((c : Connection) × (get_elem? cs i ≡ some c) × (has_path path c ≡ true) × (c.helper_pid ≡ pid))
    × ((j : ℕ) (c : Connection) → i < j → get_elem? cs j ≡ some c → has_path path c ≡ false)

some_inj : {a b : Connection} → some a ≡ some b → a ≡ b
some_inj e = cc

last_slot-LastTrue : (path : Bytes) (cs : Connections) → LastTrue path cs (last_slot path cs)
unfolding last_slot
last_slot-LastTrue path [] = λ j c h. absurd (cc)
last_slot-LastTrue path (c ∷ cs) =
    go (last_slot path cs) (has_path path c) refl (last_slot-LastTrue path cs)
  where
    tail_free :
        LastTrue path cs none
        → (j : ℕ) (d : Connection) → 0 < j
        → get_elem? (c ∷ cs) j ≡ some d
        → has_path path d ≡ false
    tail_free h zero d l e = absurd (omega arith)
    tail_free h (suc j) d l e = h j d e

    go :
        (r : Option (ℕ × ℕ)) (b : Bool)
        → has_path path c ≡ b
        → LastTrue path cs r
        → LastTrue path (c ∷ cs) (elim r [
          | none ↦ if b then some (c.helper_pid, 0) else none
          | some (pid, j) ↦ some (pid, suc j)
        ])
    go none true e h = ((c, refl, e, refl), tail_free h)
    go none false e h = free
      where
        free : (j : ℕ) (d : Connection) → get_elem? (c ∷ cs) j ≡ some d → has_path path d ≡ false
        free zero d k = subst (λ x. has_path path x ≡ false) (some_inj k) e
        free (suc j) d k = h j d k
    go (some (pid, i)) b e ((d, at, hd, hp), later) = ((d, at, hd, hp), behind)
      where
        behind :
            (j : ℕ) (x : Connection)
            → suc i < j
            → get_elem? (c ∷ cs) j ≡ some x
            → has_path path x ≡ false
        behind zero x l k = absurd (omega arith)
        behind (suc j) x l k = later j x (omega arith) k

has_path_iff : (path : Bytes) (c : Connection) → (has_path path c ≡ true) ↔ UsesPath path c
unfolding has_path
has_path_iff path c = (there, back)
  where
    there : has_path path c ≡ true → UsesPath path c
    there h = (ground arith, (str_eq_iff c.sock_path path).0 (ground arith))

    back : UsesPath path c → has_path path c ≡ true
    back (used, same) = let e = (str_eq_iff c.sock_path path).1 same in ground arith

not-UsesPath : (path : Bytes) (c : Connection) → has_path path c ≡ false → ¬ UsesPath path c
not-UsesPath path c h u = let t = (has_path_iff path c).1 u in cc

LastAt-LastTrue :
    (path : Bytes) (cs : Connections) (r : Option (ℕ × ℕ)) → LastTrue path cs r → LastAt path cs r
LastAt-LastTrue path cs none h = λ j c at. not-UsesPath path c (h j c at)
LastAt-LastTrue path cs (some (pid, i)) ((c, at, passes, helper), last) = (
  (c, at, (has_path_iff path c).0 passes, helper),
  λ j d behind there. not-UsesPath path d (last j d behind there),
)

helper_loop-LastAt : (path : Bytes) (cs : Connections) → LastAt path cs (helper_loop path 0 cs none)
helper_loop-LastAt path cs =
    subst (LastAt path cs)
      (sym (helper_loop-last_slot path cs 0 none ∙ zero_based (last_slot path cs)))
      (LastAt-LastTrue path cs (last_slot path cs) (last_slot-LastTrue path cs))
  where
    zero_based : (r : Option (ℕ × ℕ)) → counted 0 none r ≡ r
    zero_based none = refl
    zero_based (some (pid, j)) = ap (λ k. some (pid, k)) {x = 0 + j} {y = j} (omega arith)

update_slot-OnlyAt_any :
    (cs : Connections) (i : ℕ) (f : Connection → Connection) → OnlyAt i cs (update_slot i f cs)
update_slot-OnlyAt_any cs i f = elim (Option-cases (get_elem? cs i)) [
  | inl out ↦
      rw (update_slot_out cs i f out) (record { same_length = refl; same_elsewhere = λ j h. refl })
  | inr (c, at) ↦ update_slot-OnlyAt cs i f c at
]

-- What a kill does once the connector is reached: no slot in use has the path, and the pool is left
-- alone; or the last one that has it is closed, in the pool `later` of the second hold.
abbrev pub Kills : Bytes → Connections → Connections → Killed → Type 0
Kills path cs later r =
    (LastAt path cs none × (r.result ≡ not_found) × (r.connections ≡ cs))
    ⊎ ((pid : ℕ) × (i : ℕ) × LastAt path cs (some (pid, i))
        × (r.result ≡ success)
        × OnlyAt i later r.connections
        × ((c : Connection)
            → get_elem? later i ≡ some c
            → get_elem? r.connections i ≡ some (dbrelay_db_close_connection c).0)
        × (Reachable later → Reachable r.connections))

-- A connector that is reached is killed: the last slot in use with its socket's path is closed, and no
-- other slot changes; without such a slot the pool is left alone. Other processes may have changed the
-- pool between the two holds, as far as steps of processes can.
pub dbrelay_admin_kill-Kills :
    (s : ℕ) (is_alive : ℕ → Bool) (meanwhile : Connections → Connections) (path : Bytes)
    (cs : Connections)
    → Kills path cs (meanwhile cs) (dbrelay_admin_kill (some s) is_alive meanwhile path cs)
unfolding dbrelay_admin_kill close_slot
dbrelay_admin_kill-Kills s is_alive meanwhile path cs =
    elim (Option-cases (helper_loop path 0 cs none)) [
      | inl missing ↦
          rw (missing, dbrelay_admin_kill)
            (inl (subst (LastAt path cs) missing (helper_loop-LastAt path cs), refl, refl))
      | inr ((pid, i), hit) ↦
          rw (hit, dbrelay_admin_kill)
            (inr (
              pid,
              i,
              subst (LastAt path cs) hit (helper_loop-LastAt path cs),
              refl,
              update_slot-OnlyAt_any (meanwhile cs) i closed,
              (λ c h. get_elem?-update_slot (meanwhile cs) i closed c h),
              (λ reachable. stepped (meanwhile cs) _ reachable (close i (meanwhile cs))),
            ))
    ]
  where
    closed : Connection → Connection
    closed c = (dbrelay_db_close_connection c).0
