-- ===== src/Params/Surplus.antt =====
-- A parameter without a placeholder, in `dbrelay_resolve_params` of src/db.c: the C sum of the
-- position and -1 is -1 only at the start of the text.
use ngx_dbrelay.Base.{
  ℕ, zero, suc, ◌+◌, ◌-◌, ◌<◌, ◌≡◌, refl, sym, ap, ap₂, ◌∙◌, Bool, List, [], ◌∷◌, ◌++◌, none, some,
  arith, append_assoc, Bytes, codes, length, length-set, drop, set, c_str, c_str-NoZero, NoZero,
  if◌then◌else◌, Option-cases, inl, inr,
}
use ngx_dbrelay.Request.{Request}
use ngx_dbrelay.Params.{
  dbrelay_find_placeholder, Cursor, advance, put_param, resolve_round, resolve_loop, given_params,
  dbrelay_resolve_params,
}
use ngx_dbrelay.Params.Split.{literal, fill, drop-append}
use ngx_dbrelay.Params.Rounds.{
  Stands, text, rest_text, resolve_loop-Filled, resolve_loop_cons, put_quote-sb_put, round_at,
  literal-HasLiteral,
}
use ngx_dbrelay.Params.Resolve.{magic_text, start-Stands, finish_at}

resolve_loop-append :
    (ps qs : List Bytes) (cur next : Cursor)
    → resolve_loop ps cur ≡ some next
    → resolve_loop (ps ++ qs) cur ≡ resolve_loop qs next
unfolding resolve_loop
resolve_loop-append [] qs cur next h = ap (resolve_loop qs) (ground arith)
resolve_loop-append (p ∷ ps) qs cur next h = elim (Option-cases (resolve_round p cur)) [
  | inl e ↦ absurd (ground arith)
  | inr (mid, e) ↦
      resolve_loop_cons p (ps ++ qs) cur mid e
      ∙ resolve_loop-append ps qs mid next (sym (resolve_loop_cons p ps cur mid e) ∙ h)
]

set_before : (s t : Bytes) (i v : ℕ) → i < length s → set (s ++ t) i v ≡ set s i v ++ t
set_before [] t i v h = elim h [ ]
set_before (x ∷ s) t zero v h = refl
set_before (x ∷ s) t (suc i) v h = ap (◌∷◌ x) (set_before s t i v (omega arith))

-- Behind the last placeholder: the cursor's position, less one, is where the zero goes.
module _ (cur : Cursor) (done tail : Bytes) (m : ℕ) (h : Stands cur done tail)
    (at_suc : cur.at ≡ suc m) where
  cut_behind : set cur.tmpsql m 0 ≡ set done m 0 ++ tail
  cut_behind = ap (λ b. set b m 0) h.buffer ∙ set_before done tail m 0 (omega (arith, h.position))

  drop_cut : drop cur.at (set cur.tmpsql m 0) ≡ tail
  drop_cut =
      ap (drop cur.at) cut_behind
      ∙ ap (λ n. drop n (set done m 0 ++ tail)) (h.position ∙ sym (length-set done m 0))
      ∙ drop-append (set done m 0) tail

  drop_cut_suc : drop (m + 1) (set cur.tmpsql m 0) ≡ tail
  drop_cut_suc = ap (λ n. drop n (set cur.tmpsql m 0)) (omega arith) ∙ drop_cut

  misses_behind :
      NoZero tail
      → dbrelay_find_placeholder tail ≡ none
      → advance cur.at (dbrelay_find_placeholder (c_str (drop cur.at cur.tmpsql))) ≡ some m
  unfolding advance
  misses_behind z e =
      ap (λ s. advance cur.at (dbrelay_find_placeholder s)) (rest_text cur done tail z h)
      ∙ ap (advance cur.at) e
      ∙ ap (λ n. advance n none) at_suc

  put_behind-text :
      (q : Bool) (v value : Bytes)
      → NoZero tail
      → value ≡ (if q then codes "'" ++ (v ++ codes "'") else v)
      → text (put_param cur m q v) ≡ text cur ++ (tail ++ value)
  unfolding put_param
  put_behind-text q v value z e =
      put_quote-sb_put q cur.sb _ v
      ∙ ap₂ (λ part lit. text cur ++ (part ++ lit)) (ap c_str drop_cut ∙ c_str-NoZero tail z)
          (sym e)

  put_behind_rest :
      (q : Bool) (v : Bytes)
      → NoZero tail
      → c_str (drop (put_param cur m q v).at (put_param cur m q v).tmpsql) ≡ tail
  unfolding put_param
  put_behind_rest q v z = ap c_str drop_cut_suc ∙ c_str-NoZero tail z

surplus_round :
    (p : Bytes) (cur : Cursor) (done tail value : Bytes) (m : ℕ)
    → Stands cur done tail
    → cur.at ≡ suc m
    → NoZero tail
    → dbrelay_find_placeholder tail ≡ none
    → literal p ≡ some value
    → (last : Cursor) × (resolve_loop (p ∷ []) cur ≡ some last)
      × (text last ≡ text cur ++ (tail ++ value))
      × (c_str (drop last.at last.tmpsql) ≡ tail)
surplus_round p cur done tail value m h s z e l =
    let lit = literal-HasLiteral p value l in
    (
      put_param cur m lit.quoted lit.bare,
      resolve_loop_cons p [] cur _ (
            round_at p cur m lit.quoted lit.bare (misses_behind cur done tail m h s z e)
              lit.is_quoted lit.is_value)
          ∙ unfold resolve_loop in refl,
      put_behind-text cur done tail m h s lit.quoted lit.bare value z lit.is_literal,
      put_behind_rest cur done tail m h s lit.quoted lit.bare z,
    )

-- One parameter more than there are placeholders, and at least one placeholder: the parameter is
-- not ignored. The text behind the last placeholder is sent twice, the surplus value between.
pub resolve_surplus :
    (magic : Bytes) (request : Request) (sql : Bytes) (given : List Bytes)
    (p emitted tail value : Bytes)
    → NoZero sql
    → given_params request.params ≡ some (given ++ p ∷ [])
    → 0 < length given
    → fill given sql ≡ some (emitted, tail)
    → dbrelay_find_placeholder tail ≡ none
    → literal p ≡ some value
    → dbrelay_resolve_params magic request sql
      ≡ some (magic_text magic request ++ (emitted ++ (tail ++ (value ++ tail))))
resolve_surplus magic request sql given p emitted tail value z g n e none_left l =
    let f = resolve_loop-Filled given _ [] sql emitted tail z (start-Stands magic request sql) e in
    let (last, r, t, c) =
      surplus_round p f.next f.done tail value (f.next.at - 1) f.stands (omega (arith, f.moved))
        f.clean none_left l in
    finish_at magic request sql (given ++ p ∷ []) last g
      (resolve_loop-append given (p ∷ []) _ f.next f.returns ∙ r)
    ∙ ap some
        (ap₂ (◌++◌ {A = ℕ}) (t ∙ ap (λ s. s ++ (tail ++ value)) f.shows) c ∙ simp append_assoc)
