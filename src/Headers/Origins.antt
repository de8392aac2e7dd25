-- ===== src/Headers/Origins.antt =====
-- `origin_matches` of src/ngx_http_dbrelay_module.c against a description of what a list of origins
-- allows.
use ngx_dbrelay.Base.{
  ℕ, ◌-◌, ◌≤◌, ◌≡◌, ◌≢◌, ◌↔◌, ◌⊎◌, inl, inr, refl, sym, ap, ◌∙◌, Bool, true, false, ◌||◌, List, [],
  ◌∷◌, ◌++◌, none, some, arith, Bytes, length, length-append, take, drop, take-append-drop, str_eq,
  str_eq_iff, ltb, ◌==◌, Bool-cases,
}
use ngx_dbrelay.Params.Split.{drop-append}
use ngx_dbrelay.Headers.{tokens, origin_token, origin_loop, origin_matches}

-- A pattern allows an origin: a star and any end of it, or the origin itself.
abbrev pub Allows : Bytes → Bytes → Type 0
Allows header [] = header ≡ []
Allows header (c ∷ s) =
    ((c ≡ b'*') × ((front : Bytes) × (header ≡ front ++ s))) ⊎ ((c ≢ b'*') × (header ≡ c ∷ s))

-- The star's pattern is not longer than the origin, so that the code reads inside it.
abbrev pub Short : Bytes → Bytes → Type 0
Short header [] = Unit
Short header (c ∷ s) = c ≡ b'*' → length s ≤ length header

wildcard_iff :
    (header s : Bytes)
    → length s ≤ length header
    → (str_eq s (drop (length header - length s) header) ≡ true)
      ↔ ((front : Bytes) × (header ≡ front ++ s))
wildcard_iff header s h = (there, back)
  where
    there :
        str_eq s (drop (length header - length s) header) ≡ true
        → (front : Bytes) × (header ≡ front ++ s)
    there e =
        let same = (str_eq_iff s (drop (length header - length s) header)).0 e in
        (
          take (length header - length s) header,
          sym (take-append-drop (length header - length s) header)
              ∙ ap (λ x. take (length header - length s) header ++ x) (sym same),
        )

    back :
        ((front : Bytes) × (header ≡ front ++ s))
        → str_eq s (drop (length header - length s) header) ≡ true
    back (front, e) =
        let l = ap length e ∙ length-append front s in
        let k : length header - length s ≡ length front = omega arith in
        (str_eq_iff s _).1
          (sym (ap (λ m. drop m header) k ∙ (ap (drop (length front)) e ∙ drop-append front s)))

str_eq_Tells : (a b : Bytes) → (str_eq a b ≡ true) ↔ (b ≡ a)
str_eq_Tells a b = ((λ e. sym ((str_eq_iff a b).0 e)), (λ e. (str_eq_iff a b).1 (sym e)))

token_star :
    (header s : Bytes) (c : ℕ)
    → (c == b'*') ≡ true
    → length s ≤ length header
    → origin_token header (c ∷ s) ≡ some (str_eq s (drop (length header - length s) header))
unfolding origin_token
token_star header s c e h =
    let inside : ltb (length header) (length s) ≡ false = ground arith in
    rw (e, origin_token) (rw (inside, origin_token) refl)

token_plain :
    (header s : Bytes) (c : ℕ)
    → (c == b'*') ≡ false
    → origin_token header (c ∷ s) ≡ some (str_eq (c ∷ s) header)
unfolding origin_token
token_plain header s c e = rw (e, origin_token) refl

star_iff :
    (header s : Bytes) (c : ℕ) (b : Bool)
    → c ≡ b'*'
    → (b ≡ true) ↔ ((front : Bytes) × (header ≡ front ++ s))
    → (b ≡ true) ↔ Allows header (c ∷ s)
star_iff header s c b star (f, g) = ((λ e. inl (star, f e)), back)
  where
    back : Allows header (c ∷ s) → b ≡ true
    back (inl (_, w)) = g w
    back (inr (other, _)) = absurd (other star)

plain_iff :
    (header s : Bytes) (c : ℕ) (b : Bool)
    → c ≢ b'*'
    → (b ≡ true) ↔ (header ≡ c ∷ s)
    → (b ≡ true) ↔ Allows header (c ∷ s)
plain_iff header s c b other (f, g) = ((λ e. inr (other, f e)), back)
  where
    back : Allows header (c ∷ s) → b ≡ true
    back (inl (star, _)) = absurd (other star)
    back (inr (_, e)) = g e

origin_token-Allows :
    (header pattern : Bytes)
    → Short header pattern
    → (b : Bool) × (origin_token header pattern ≡ some b) × ((b ≡ true) ↔ Allows header pattern)
origin_token-Allows header [] h =
    unfold origin_token in (str_eq [] header, refl, str_eq_Tells [] header)
origin_token-Allows header (c ∷ s) h = elim (Bool-cases (c == b'*')) [
  | inl star ↦ (
    str_eq s (drop (length header - length s) header),
    token_star header s c star (h (ground arith)),
    star_iff header s c _ (ground arith) (wildcard_iff header s (h (ground arith))),
  )
  | inr other ↦ (
    str_eq (c ∷ s) header,
    token_plain header s c other,
    plain_iff header s c _ (ground arith) (str_eq_Tells (c ∷ s) header),
  )
]

abbrev pub AllShort : Bytes → List Bytes → Type 0
AllShort header [] = Unit
AllShort header (s ∷ ss) = Short header s × AllShort header ss

abbrev pub AnyAllows : Bytes → List Bytes → Type 0
AnyAllows header [] = ⊥
AnyAllows header (s ∷ ss) = Allows header s ⊎ AnyAllows header ss

loop_cons :
    (match b : Bool) (header s : Bytes) (ss : List Bytes)
    → origin_token header s ≡ some b
    → origin_loop match header (s ∷ ss) ≡ origin_loop (b || match) header ss
unfolding origin_loop
loop_cons match b header s ss e = rw (e, origin_loop) refl

or_iff : (b match : Bool) → ((b || match) ≡ true) ↔ ((b ≡ true) ⊎ (match ≡ true))
or_iff true match = ground arith
or_iff false match = ground arith

origin_loop-AnyAllows :
    (ss : List Bytes) (match : Bool) (header : Bytes)
    → AllShort header ss
    → (b : Bool) × (origin_loop match header ss ≡ some b)
      × ((b ≡ true) ↔ ((match ≡ true) ⊎ AnyAllows header ss))
origin_loop-AnyAllows [] match header h = unfold origin_loop in (match, refl, ground arith)
origin_loop-AnyAllows (s ∷ ss) match header (short, rest) =
    let (hit, e, tells) = origin_token-Allows header s short in
    let (b, e', all) = origin_loop-AnyAllows ss (hit || match) header rest in
    (b, loop_cons match hit header s ss e ∙ e', ground (arith, tells, all, or_iff hit match))

-- An origin is accepted exactly if one of the configured patterns allows it, where no pattern with a
-- star is longer than the origin and its star; a request without an origin is not.
pub origin_matches-AnyAllows :
    (header origin : Bytes)
    → AllShort header (tokens [] origin)
    → (origin_matches none origin ≡ some false)
      × ((b : Bool) × (origin_matches (some header) origin ≡ some b)
          × ((b ≡ true) ↔ AnyAllows header (tokens [] origin)))
unfolding origin_matches
origin_matches-AnyAllows header origin h =
    let (b, e, all) = origin_loop-AnyAllows (tokens [] origin) false header h in
    (refl, (b, e, ground (arith, all)))
