-- ===== src/Params/Placeholders.antt =====
-- What `dbrelay_find_placeholder` of src/db.c finds: the first question mark outside quotes.
use ngx_dbrelay.Base.{
  ℕ, zero, suc, ◌+◌, ◌%◌, ◌<◌, ◌≡◌, ◌↔◌, Bool, true, false, not, ◌&&◌, [], ◌∷◌, Option, none, some,
  arith, Bytes, get_elem?, take, ◌==◌, if◌then◌else◌, Bool-cases, inl, inr,
}
use ngx_dbrelay.Params.{toggle, find_loop, dbrelay_find_placeholder}

-- The number of single quotes in a text.
abbrev pub quotes : Bytes → ℕ
quotes [] = 0
quotes (c ∷ s) = (if c == b'\'' then 1 else 0) + quotes s

-- A question mark at `i` with an even number of quotes in front of it, when `q` more stand before
-- the text.
abbrev pub PlaceholderAt : ℕ → Bytes → ℕ → Type 0
PlaceholderAt q s i = (get_elem? s i ≡ some b'?') × ((q + quotes (take i s)) % 2 ≡ 0)

-- `r` is the first such mark of `s`, if there is one.
abbrev pub FindsFirst : Bytes → Option ℕ → Type 0
FindsFirst s none = (j : ℕ) → ¬ PlaceholderAt 0 s j
FindsFirst s (some hit) = PlaceholderAt 0 s hit × ((j : ℕ) → j < hit → ¬ PlaceholderAt 0 s j)

abbrev quote_bit : Bool → ℕ
quote_bit true = 1
quote_bit false = 0

-- What is found is the first such mark.
abbrev IsFirst : ℕ → Bytes → ℕ → Option ℕ → Type 0
IsFirst q s i none = (j : ℕ) → ¬ PlaceholderAt q s j
IsFirst q s i (some hit) =
    (k : ℕ) × (hit ≡ i + k) × PlaceholderAt q s k × ((j : ℕ) → j < k → ¬ PlaceholderAt q s j)

PlaceholderAt-toggle :
    (quoted : Bool) (c : ℕ) (s : Bytes) (j : ℕ)
    → PlaceholderAt (quote_bit quoted) (c ∷ s) (suc j)
      ↔ PlaceholderAt (quote_bit (toggle quoted c)) s j
unfolding toggle
PlaceholderAt-toggle true c s j = ground arith
PlaceholderAt-toggle false c s j = ground arith

not-PlaceholderAt-zero :
    (quoted : Bool) (c : ℕ) (s : Bytes)
    → (not (toggle quoted c) && c == b'?') ≡ false
    → ¬ PlaceholderAt (quote_bit quoted) (c ∷ s) 0
unfolding toggle
not-PlaceholderAt-zero true c s h = ground arith
not-PlaceholderAt-zero false c s h = ground arith

IsFirst-later :
    (quoted : Bool) (c : ℕ) (s : Bytes) (i : ℕ) (r : Option ℕ)
    → ¬ PlaceholderAt (quote_bit quoted) (c ∷ s) 0
    → IsFirst (quote_bit (toggle quoted c)) s (i + 1) r
    → IsFirst (quote_bit quoted) (c ∷ s) i r
IsFirst-later quoted c s i none z f = go
  where
    go : (j : ℕ) → ¬ PlaceholderAt (quote_bit quoted) (c ∷ s) j
    go zero = z
    go (suc j) = λ h. f j ((PlaceholderAt-toggle quoted c s j).0 h)
IsFirst-later quoted c s i (some hit) z (k, e, found, least) =
    (suc k, omega arith, (PlaceholderAt-toggle quoted c s k).1 found, go)
  where
    go : (j : ℕ) → j < suc k → ¬ PlaceholderAt (quote_bit quoted) (c ∷ s) j
    go zero lt = z
    go (suc j) lt = λ h. least j (omega arith) ((PlaceholderAt-toggle quoted c s j).0 h)

IsFirst-here :
    (quoted : Bool) (c : ℕ) (s : Bytes) (i : ℕ)
    → (not (toggle quoted c) && c == b'?') ≡ true
    → IsFirst (quote_bit quoted) (c ∷ s) i (some i)
unfolding toggle
IsFirst-here true c s i h = absurd (ground arith)
IsFirst-here false c s i h = (0, omega arith, ground arith, λ j lt. absurd (omega arith))

find_loop_hit :
    (quoted : Bool) (i c : ℕ) (s : Bytes)
    → (not (toggle quoted c) && c == b'?') ≡ true
    → find_loop quoted i (c ∷ s) ≡ some i
unfolding find_loop
find_loop_hit quoted i c s h = unfold find_loop in ground arith

find_loop_miss :
    (quoted : Bool) (i c : ℕ) (s : Bytes)
    → (not (toggle quoted c) && c == b'?') ≡ false
    → find_loop quoted i (c ∷ s) ≡ find_loop (toggle quoted c) (i + 1) s
unfolding find_loop
find_loop_miss quoted i c s h = ground arith

find_loop-IsFirst :
    (s : Bytes) (quoted : Bool) (i : ℕ) → IsFirst (quote_bit quoted) s i (find_loop quoted i s)
find_loop-IsFirst [] quoted i = unfold find_loop in λ j h. cc h.0
find_loop-IsFirst (c ∷ s) quoted i = elim (Bool-cases (not (toggle quoted c) && c == b'?')) [
  | inl hit ↦ rw (find_loop_hit quoted i c s hit) (IsFirst-here quoted c s i hit)
  | inr miss ↦ rw (find_loop_miss quoted i c s miss) (
      IsFirst-later quoted c s i _ (not-PlaceholderAt-zero quoted c s miss)
        (find_loop-IsFirst s (toggle quoted c) (i + 1)))
]

-- The search for a placeholder returns the position of the first question mark that has an even
-- number of single quotes in front of it, and reports a missing one only if the text has no such
-- mark.
pub dbrelay_find_placeholder_lem : (sql : Bytes) → FindsFirst sql (dbrelay_find_placeholder sql)
unfolding dbrelay_find_placeholder
dbrelay_find_placeholder_lem sql = go (find_loop false 0 sql) (find_loop-IsFirst sql false 0)
  where
    go : (r : Option ℕ) → IsFirst 0 sql 0 r → FindsFirst sql r
    go none f = f
    go (some hit) (k, e, found, least) = let e' : hit ≡ k = omega arith in rw e' (found, least)
