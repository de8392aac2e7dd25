-- ===== src/Params/Split.antt =====
-- The substitution of parameters by `dbrelay_resolve_params` of src/db.c against a description
-- of it that takes the text apart at its placeholders.
use ngx_dbrelay.Base.{
  ℕ, ◌+◌, ◌≡◌, refl, ap, Bool, false, not, ◌&&◌, List, [], ◌∷◌, ◌++◌, Option, none, some, arith,
  Bytes, codes, length, drop, set, c_str, NoZero, ◌==◌, if◌then◌else◌, Bool-cases, inl, inr,
}
use ngx_dbrelay.Params.{toggle, find_loop, is_quoted_param, param_value}

abbrev pub push_front : ℕ → Option (Bytes × Bytes) → Option (Bytes × Bytes)
push_front c none = none
push_front c (some (before, after)) = some (c ∷ before, after)

-- The text before the first placeholder, and the text behind it.
unfoldable pub split : Bool → Bytes → Option (Bytes × Bytes)
unfolding toggle
split quoted [] = none
split quoted (c ∷ s) =
    if not (toggle quoted c) && c == b'?'
    then some ([], s)
    else push_front c (split (toggle quoted c) s)

-- What a parameter `type:value` stands for in the text.
unfoldable pub literal : Bytes → Option Bytes
literal param = elim (is_quoted_param param) [
  | none ↦ none
  | some quoted ↦ elim (param_value param) [
    | none ↦ none
    | some value ↦ some (if quoted then codes "'" ++ (value ++ codes "'") else value)
  ]
]

-- Each parameter in the place of the next placeholder: the text up to the last one used, and the
-- text behind it. `none` where placeholders run out or a parameter has no colon.
unfoldable pub fill : List Bytes → Bytes → Option (Bytes × Bytes)
fill [] s = some ([], s)
fill (p ∷ ps) s = elim (split false s) [
  | none ↦ none
  | some (before, after) ↦ elim (literal p) [
    | none ↦ none
    | some value ↦ elim (fill ps after) [
      | none ↦ none
      | some (done, tail) ↦ some (before ++ (value ++ done), tail)
    ]
  ]
]

-- What the loop finds, by the split of the text.
unfoldable pub found_by : ℕ → Option (Bytes × Bytes) → Option ℕ
found_by i none = none
found_by i (some (before, after)) = some (i + length before)

pub find_loop-split :
    (s : Bytes) (quoted : Bool) (i : ℕ) → find_loop quoted i s ≡ found_by i (split quoted s)
unfolding find_loop split found_by
find_loop-split [] quoted i = refl
find_loop-split (c ∷ s) quoted i = ground (arith, find_loop-split s (toggle quoted c) (i + 1))

abbrev pub SplitsAt : Bytes → Option (Bytes × Bytes) → Type 0
SplitsAt s none = Unit
SplitsAt s (some (before, after)) = s ≡ before ++ b'?' ∷ after

push_front-SplitsAt :
    (c : ℕ) (s : Bytes) (r : Option (Bytes × Bytes))
    → SplitsAt s r
    → SplitsAt (c ∷ s) (push_front c r)
push_front-SplitsAt c s none h = tt
push_front-SplitsAt c s (some (before, after)) h = ap (◌∷◌ c) h

pub split-SplitsAt : (s : Bytes) (quoted : Bool) → SplitsAt s (split quoted s)
unfolding split
split-SplitsAt [] quoted = tt
split-SplitsAt (c ∷ s) quoted = elim (Bool-cases (not (toggle quoted c) && c == b'?')) [
  | inl hit ↦ rw (hit) (ground arith)
  | inr miss ↦ rw miss (push_front-SplitsAt c s _ (split-SplitsAt s (toggle quoted c)))
]

pub drop-append : (s t : Bytes) → drop (length s) (s ++ t) ≡ t
drop-append [] t = refl
drop-append (x ∷ s) t = drop-append s t

pub set_middle : (s t : Bytes) (c v : ℕ) → set (s ++ c ∷ t) (length s) v ≡ s ++ v ∷ t
set_middle [] t c v = refl
set_middle (x ∷ s) t c v = ap (◌∷◌ x) (set_middle s t c v)

pub c_str_cut : (s t : Bytes) → NoZero s → c_str (s ++ 0 ∷ t) ≡ s
unfolding c_str
c_str_cut [] t h = refl
c_str_cut (x ∷ s) t h = ground (arith, c_str_cut s t h.1)

pub NoZero-append : (s t : Bytes) → NoZero (s ++ t) → NoZero s × NoZero t
NoZero-append [] t h = (tt, h)
NoZero-append (x ∷ s) t h = let r = NoZero-append s t h.1 in ((h.0, r.0), r.1)
