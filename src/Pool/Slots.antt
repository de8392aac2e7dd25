-- ===== src/Pool/Slots.antt =====
-- Laws of slots: reads behind writes, and the invariants of an array of slots.
use ngx_dbrelay.Base.{
  ℕ, zero, suc, ◌+◌, ◌<◌, ◌≡◌, ◌≢◌, refl, sym, ap, ◌∙◌, inl, inr, List, [], ◌∷◌, Bool, true, false,
  Bool-cases, Option, none, some, arith, length, get_elem?, set, length-set, get_elem?-set_self,
  get_elem?-set_ne,
}
use ngx_dbrelay.Pool.{Connection, Connections, find_slot, update_slot}

pub get_elem?-lt {ℓ} :
    {A : Type ℓ} (xs : List A) (i : ℕ) (x : A) → get_elem? xs i ≡ some x → i < length xs
get_elem?-lt [] i x h = cc
get_elem?-lt (y ∷ xs) zero x h = omega arith
get_elem?-lt (y ∷ xs) (suc i) x h = let r = get_elem?-lt xs i x h in omega arith

pub get_elem?_of_lt {ℓ} :
    {A : Type ℓ} (xs : List A) (i : ℕ) → i < length xs → (x : A) × (get_elem? xs i ≡ some x)
get_elem?_of_lt [] i h = elim h [ ]
get_elem?_of_lt (y ∷ xs) zero h = (y, refl)
get_elem?_of_lt (y ∷ xs) (suc i) h = get_elem?_of_lt xs i (omega arith)

-- Every slot but `i` is as it was, and none is added or lost.
pub record OnlyAt (i : ℕ) (before after : Connections) : Type 0 where
  pub same_length : length after ≡ length before
  pub same_elsewhere : (j : ℕ) → i ≢ j → get_elem? after j ≡ get_elem? before j

pub set-OnlyAt : (cs : Connections) (i : ℕ) (c : Connection) → OnlyAt i cs (set cs i c)
set-OnlyAt cs i c = record {
  same_length = length-set cs i c;
  same_elsewhere = λ j h. get_elem?-set_ne cs i j c h;
}

pub update_slot-eq :
    (cs : Connections) (i : ℕ) (f : Connection → Connection) (c : Connection)
    → get_elem? cs i ≡ some c
    → update_slot i f cs ≡ set cs i (f c)
unfolding update_slot
update_slot-eq cs i f c h = rw (h, update_slot)

pub update_slot-OnlyAt :
    (cs : Connections) (i : ℕ) (f : Connection → Connection) (c : Connection)
    → get_elem? cs i ≡ some c
    → OnlyAt i cs (update_slot i f cs)
update_slot-OnlyAt cs i f c h = rw (update_slot-eq cs i f c h) (set-OnlyAt cs i (f c))

pub get_elem?-update_slot :
    (cs : Connections) (i : ℕ) (f : Connection → Connection) (c : Connection)
    → get_elem? cs i ≡ some c
    → get_elem? (update_slot i f cs) i ≡ some (f c)
get_elem?-update_slot cs i f c h =
    rw (update_slot-eq cs i f c h) (get_elem?-set_self cs i (f c) (get_elem?-lt cs i c h))

-- `r` is the first slot whose connection passes the test, if there is one.
abbrev pub FirstAt : (Connection → Bool) → Connections → Option ℕ → Type 0
FirstAt test cs none = (j : ℕ) (c : Connection) → get_elem? cs j ≡ some c → test c ≡ false
FirstAt test cs (some i) =
    ((c : Connection) × (get_elem? cs i ≡ some c) × (test c ≡ true))
    × ((j : ℕ) (c : Connection) → j < i → get_elem? cs j ≡ some c → test c ≡ false)

abbrev shift : Option ℕ → Option ℕ
shift none = none
shift (some i) = some (i + 1)

some_inj : {a b : Connection} → some a ≡ some b → a ≡ b
some_inj h = cc

shift-FirstAt :
    (test : Connection → Bool) (c : Connection) (cs : Connections) (r : Option ℕ)
    → test c ≡ false
    → FirstAt test cs r
    → FirstAt test (c ∷ cs) (shift r)
shift-FirstAt test c cs none no_c f = go
  where
    go : (j : ℕ) (x : Connection) → get_elem? (c ∷ cs) j ≡ some x → test x ≡ false
    go zero x h = ap test (sym (some_inj h)) ∙ no_c
    go (suc j) x h = f j x h
shift-FirstAt test c cs (some i) no_c ((d, at, passes), least) =
    let e : i + 1 ≡ suc i = omega arith in rw e ((d, at, passes), go)
  where
    go : (j : ℕ) (x : Connection) → j < suc i → get_elem? (c ∷ cs) j ≡ some x → test x ≡ false
    go zero x lt h = ap test (sym (some_inj h)) ∙ no_c
    go (suc j) x lt h = least j x (omega arith) h

find_slot_hit :
    (test : Connection → Bool) (c : Connection) (cs : Connections)
    → test c ≡ true
    → find_slot test (c ∷ cs) ≡ some 0
unfolding find_slot
find_slot_hit test c cs h = rw h

find_slot_miss :
    (test : Connection → Bool) (c : Connection) (cs : Connections)
    → test c ≡ false
    → find_slot test (c ∷ cs) ≡ shift (find_slot test cs)
unfolding find_slot
find_slot_miss test c cs h = ground arith

pub find_slot-FirstAt :
    (test : Connection → Bool) (cs : Connections) → FirstAt test cs (find_slot test cs)
find_slot-FirstAt test [] = unfold find_slot in λ j c h. cc
find_slot-FirstAt test (c ∷ cs) = elim (Bool-cases (test c)) [
  | inl hit ↦ rw (find_slot_hit test c cs hit) ((c, refl, hit), λ j x lt h. absurd (omega arith))
  | inr miss ↦
      rw (find_slot_miss test c cs miss)
        (shift-FirstAt test c cs _ miss (find_slot-FirstAt test cs))
]
