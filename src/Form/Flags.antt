-- ===== src/Form/Flags.antt =====
-- `write_flag_values` of src/ngx_http_dbrelay_module.c: which flags a list of names sets.
use ngx_dbrelay.Base.{
  ℕ, ◌≡◌, ◌≢◌, refl, sym, ap, ap₂, subst, ◌∙◌, Bool, true, false, ◌++◌, append-nil, append_assoc,
  codes, str_eq, str_eq_iff, All, ◌==◌, ◌||◌, List, [], ◌∷◌, Option, none, some, arith, Bytes,
  Bool-cases, inl, inr,
}
use ngx_dbrelay.Request.{Request, Flag, echosql, pp, xact, embedcsv, nomagic, has_flag}
use ngx_dbrelay.Request.Copy.{same, has_flag-set_flag}
use ngx_dbrelay.Form.{comma_parts, flag_of, raise, raise_all, write_flag_values}

abbrev names_flag : Option Flag → Flag → Bool
names_flag none g = false
names_flag (some f) g = same f g

-- One of the parts names the flag.
abbrev any_names : List Bytes → Flag → Bool
any_names [] g = false
any_names (tok ∷ toks) g = names_flag (flag_of tok) g || any_names toks g

has_flag-raise :
    (flags : ℕ) (o : Option Flag) (g : Flag)
    → has_flag (raise flags o) g ≡ (names_flag o g || has_flag flags g)
has_flag-raise flags none g = refl
has_flag-raise flags (some f) g = elim (Bool-cases (same f g)) [
  | inl yes_same ↦ rw (has_flag-set_flag flags f g, yes_same) refl
  | inr other ↦ rw (has_flag-set_flag flags f g, other) refl
]

shuffle : (a b c : Bool) → (a || (b || c)) ≡ ((b || a) || c)
shuffle a b c = ground arith

has_flag-raise_all :
    (toks : List Bytes) (flags : ℕ) (g : Flag)
    → has_flag (raise_all flags toks) g ≡ (any_names toks g || has_flag flags g)
unfolding raise_all
has_flag-raise_all [] flags g = refl
has_flag-raise_all (tok ∷ toks) flags g =
    has_flag-raise_all toks (raise flags (flag_of tok)) g
    ∙ (ap (λ b. any_names toks g || b) (has_flag-raise flags (flag_of tok) g)
        ∙ shuffle (any_names toks g) (names_flag (flag_of tok) g) (has_flag flags g))

-- The names of the flags, and lists of names with commas between them.
abbrev pub flag_name : Flag → Bytes
flag_name echosql = codes "echosql"
flag_name pp = codes "pp"
flag_name xact = codes "xact"
flag_name embedcsv = codes "embedcsv"
flag_name nomagic = codes "nomagic"

abbrev pub list_text : Bytes → List Bytes → Bytes
list_text name [] = name
list_text name (next ∷ names) = name ++ b',' ∷ list_text next names

abbrev pub NoComma : Bytes → Type 0
NoComma [] = Unit
NoComma (c ∷ s) = (c ≢ b',') × NoComma s

abbrev pub is_listed : Bytes → List Bytes → Bool
is_listed s [] = false
is_listed s (name ∷ names) = str_eq name s || is_listed s names

comma_parts-append :
    (part s rest : Bytes) → NoComma s → comma_parts part (s ++ rest) ≡ comma_parts (part ++ s) rest
unfolding comma_parts
comma_parts-append part [] rest h = ap (λ p. comma_parts p rest) (sym (append-nil part))
comma_parts-append part (c ∷ s) rest h =
    let other : (c == b',') ≡ false = let ne = h.0 in ground arith in
    rw (other, comma_parts)
      (comma_parts-append (part ++ c ∷ []) s rest h.1
        ∙ ap (λ p. comma_parts p rest) (append_assoc part (c ∷ []) s))

comma_parts-list_text :
    (name : Bytes) (names : List Bytes)
    → All NoComma (name ∷ names)
    → comma_parts [] (list_text name names) ≡ name ∷ names
unfolding comma_parts
comma_parts-list_text name [] h =
    ap (comma_parts []) (sym (append-nil name)) ∙ comma_parts-append [] name [] h.0
comma_parts-list_text name (next ∷ names) h =
    comma_parts-append [] name (b',' ∷ list_text next names) h.0
    ∙ ap (λ parts. name ∷ parts) (comma_parts-list_text next names h.1)

named_self : (g : Flag) → names_flag (flag_of (flag_name g)) g ≡ true
unfolding flag_of str_eq
named_self echosql = refl
named_self pp = refl
named_self xact = refl
named_self embedcsv = refl
named_self nomagic = refl

named_other :
    (tok : Bytes) (g : Flag) → str_eq tok (flag_name g) ≡ false → names_flag (flag_of tok) g ≡ false
unfolding flag_of
named_other tok echosql h = ground arith
named_other tok pp h = ground arith
named_other tok xact h = ground arith
named_other tok embedcsv h = ground arith
named_other tok nomagic h = ground arith

names_flag-flag_name :
    (tok : Bytes) (g : Flag) → names_flag (flag_of tok) g ≡ str_eq tok (flag_name g)
names_flag-flag_name tok g = elim (Bool-cases (str_eq tok (flag_name g))) [
  | inl same_name ↦
      subst (λ t. names_flag (flag_of t) g ≡ true) (sym ((str_eq_iff _ _).0 same_name))
        (named_self g)
      ∙ sym same_name
  | inr other ↦ named_other tok g other ∙ sym other
]

any_names-is_listed :
    (toks : List Bytes) (g : Flag) → any_names toks g ≡ is_listed (flag_name g) toks
any_names-is_listed [] g = refl
any_names-is_listed (tok ∷ toks) g =
    ap₂ (λ (a b : Bool). a || b) (names_flag-flag_name tok g) (any_names-is_listed toks g)

-- Behind a value of `flags` that is a list of names without commas, with commas between them, a flag
-- is set exactly if it was set or its name is in the list.
pub has_flag-write_flag_values :
    (r : Request) (name : Bytes) (names : List Bytes) (g : Flag)
    → All NoComma (name ∷ names)
    → has_flag (write_flag_values r (list_text name names)).flags g
      ≡ (is_listed (flag_name g) (name ∷ names) || has_flag r.flags g)
unfolding write_flag_values
has_flag-write_flag_values r name names g h =
    has_flag-raise_all (comma_parts [] (list_text name names)) r.flags g
    ∙ ap (λ b. b || has_flag r.flags g)
        (ap (λ toks. any_names toks g) (comma_parts-list_text name names h)
          ∙ any_names-is_listed (name ∷ names) g)
