-- ===== src/Params/Rounds.antt =====
-- The rounds of the loop in `dbrelay_resolve_params` of src/db.c, one placeholder at a time.
use ngx_dbrelay.Base.{
  ℕ, ◌+◌, ◌≤◌, ◌≡◌, refl, sym, ap, subst, ◌∙◌, Bool, true, false, List, [], ◌∷◌, ◌++◌, Option, some,
  arith, append_assoc, append-nil, Bytes, codes, length, length-append, take, drop, set, c_str,
  c_str-NoZero, NoZero, index_of, if◌then◌else◌, Option-cases, inl, inr,
}
use ngx_dbrelay.StringBuf.{StringBuf, sb_put, sb_to_char}
use ngx_dbrelay.StringBuf.Laws.{sb_to_char-sb_append}
use ngx_dbrelay.Params.{
  find_loop, dbrelay_find_placeholder, quoted_type, is_quoted_param, param_value, Cursor, advance,
  put_quote, put_param, resolve_round, resolve_loop,
}
use ngx_dbrelay.Params.Split.{
  split, literal, fill, found_by, find_loop-split, split-SplitsAt, drop-append, set_middle,
  c_str_cut, NoZero-append,
}

-- The cursor stands behind `done`, in front of `rest`.
pub record Stands (cur : Cursor) (done rest : Bytes) : Type 0 where
  pub buffer : cur.tmpsql ≡ done ++ rest
  pub position : cur.at ≡ length done

abbrev pub text : Cursor → Bytes
text cur = sb_to_char cur.sb

pub rest_text :
    (cur : Cursor) (done rest : Bytes)
    → NoZero rest
    → Stands cur done rest
    → c_str (drop cur.at cur.tmpsql) ≡ rest
rest_text cur done rest z h =
    ap c_str (
      ap (λ n. drop n cur.tmpsql) h.position
      ∙ ap (drop (length done)) h.buffer
      ∙ drop-append done rest)
    ∙ c_str-NoZero rest z

pub put_quote-text :
    (q : Bool) (sb : StringBuf)
    → sb_to_char (put_quote q sb) ≡ sb_to_char sb ++ (if q then codes "'" else [])
unfolding put_quote
put_quote-text true sb = sb_to_char-sb_append sb _
put_quote-text false sb = sym (append-nil _)

-- The text of a part and of a value in its quotes, at the end of a buffer.
pub put_quote-sb_put :
    (q : Bool) (sb : StringBuf) (part value : Bytes)
    → sb_to_char (put_quote q (sb_put (put_quote q (sb_put sb part)) value))
      ≡ sb_to_char sb ++ (part ++ (if q then codes "'" ++ (value ++ codes "'") else value))
put_quote-sb_put true sb part value =
    rw (put_quote-text, sb_to_char-sb_append, put_quote-text, sb_to_char-sb_append)
      (simp append_assoc)
put_quote-sb_put false sb part value =
    rw (put_quote-text, sb_to_char-sb_append, put_quote-text, sb_to_char-sb_append)
      (simp (append_assoc, append-nil))

module _ (cur : Cursor) (done before after : Bytes)
    (h : Stands cur done (before ++ b'?' ∷ after)) where
  cut_text : set cur.tmpsql (length done + length before) 0 ≡ done ++ (before ++ 0 ∷ after)
  cut_text =
      ap (λ b. set b (length done + length before) 0) (h.buffer ∙ sym (append_assoc done before _))
      ∙ ap (λ n. set (done ++ before ++ b'?' ∷ after) n 0) (sym (length-append done before))
      ∙ set_middle (done ++ before) after _ 0
      ∙ append_assoc done before _

  cut_part :
      NoZero before → c_str (drop cur.at (set cur.tmpsql (length done + length before) 0)) ≡ before
  cut_part z =
      ap c_str (
        ap (λ b. drop cur.at b) cut_text
        ∙ ap (λ n. drop n (done ++ (before ++ 0 ∷ after))) h.position
        ∙ drop-append done _)
      ∙ c_str_cut before after z

  put_param-text :
      (q : Bool) (value : Bytes)
      → NoZero before
      → text (put_param cur (length done + length before) q value)
        ≡ text cur ++ (before ++ (if q then codes "'" ++ (value ++ codes "'") else value))
  unfolding put_param
  put_param-text q value z =
      put_quote-sb_put q cur.sb _ value
      ∙ ap (λ part. text cur ++ (part ++ (if q then codes "'" ++ (value ++ codes "'") else value)))
          (cut_part z)

  put_param-Stands :
      (q : Bool) (value : Bytes)
      → Stands
          (put_param cur (length done + length before) q value)
          (done ++ (before ++ 0 ∷ []))
          after
  unfolding put_param
  put_param-Stands q value = record {
    buffer = cut_text ∙ simp append_assoc;
    position = omega (arith, length-append done (before ++ 0 ∷ []), length-append before (0 ∷ []));
  }

-- A round at a placeholder.
pub record Filled (start : Cursor) (emitted tail : Bytes) (used : ℕ) (r : Option Cursor)
    : Type 0 where
  pub next : Cursor
  pub returns : r ≡ some next
  pub done : Bytes
  pub stands : Stands next done tail
  pub shows : text next ≡ text start ++ emitted
  pub clean : NoZero tail
  pub moved : start.at + used ≤ next.at

-- The parts of a parameter that has a literal.
pub record HasLiteral (p value : Bytes) : Type 0 where
  pub quoted : Bool
  pub bare : Bytes
  pub is_quoted : is_quoted_param p ≡ some quoted
  pub is_value : param_value p ≡ some bare
  pub is_literal : value ≡ (if quoted then codes "'" ++ (bare ++ codes "'") else bare)

pub literal-HasLiteral : (p value : Bytes) → literal p ≡ some value → HasLiteral p value
unfolding literal is_quoted_param param_value
literal-HasLiteral p value h = elim (Option-cases (index_of b':' p)) [
  | inl e ↦ absurd (ground arith)
  | inr (i, e) ↦ record {
    quoted = quoted_type (take i p);
    bare = drop (i + 1) p;
    is_quoted = ground arith;
    is_value = ground arith;
    is_literal = ground arith;
  }
]

hit_at :
    (cur : Cursor) (done rest before after : Bytes)
    → NoZero rest
    → Stands cur done rest
    → split false rest ≡ some (before, after)
    → advance cur.at (dbrelay_find_placeholder (c_str (drop cur.at cur.tmpsql)))
      ≡ some (length done + length before)
unfolding dbrelay_find_placeholder advance found_by
hit_at cur done rest before after z h e =
    ap (λ s. advance cur.at (find_loop false 0 s)) (rest_text cur done rest z h)
    ∙ ap (advance cur.at) (find_loop-split rest false 0 ∙ ap (found_by 0) e)
    ∙ ap some (omega (arith, h.position))

pub round_at :
    (p : Bytes) (cur : Cursor) (n : ℕ) (q : Bool) (v : Bytes)
    → advance cur.at (dbrelay_find_placeholder (c_str (drop cur.at cur.tmpsql))) ≡ some n
    → is_quoted_param p ≡ some q
    → param_value p ≡ some v
    → resolve_round p cur ≡ some (put_param cur n q v)
unfolding resolve_round
round_at p cur n q v a b c = ground arith

pub resolve_round-Filled :
    (p : Bytes) (cur : Cursor) (done rest before after value : Bytes)
    → NoZero rest
    → Stands cur done rest
    → split false rest ≡ some (before, after)
    → literal p ≡ some value
    → Filled cur (before ++ value) after 1 (resolve_round p cur)
resolve_round-Filled p cur done rest before after value z h e l =
    let cut = rw e at (split-SplitsAt rest false) in
    let stands : Stands cur done (before ++ b'?' ∷ after) = rw (← cut) h in
    let lit = literal-HasLiteral p value l in
    record {
      next = put_param cur (length done + length before) lit.quoted lit.bare;
      returns =
          round_at p cur _ lit.quoted lit.bare (hit_at cur done rest before after z h e)
            lit.is_quoted lit.is_value;
      done = done ++ (before ++ 0 ∷ []);
      stands = put_param-Stands cur done before after stands lit.quoted lit.bare;
      shows =
          put_param-text cur done before after stands lit.quoted lit.bare
            (NoZero-append before _ (rw cut at z)).0
          ∙ ap (λ v. text cur ++ (before ++ v)) (sym lit.is_literal);
      clean = (NoZero-append before _ (rw cut at z)).1.1;
      moved = unfold put_param in omega (arith, h.position);
    }

pub resolve_loop_cons :
    (p : Bytes) (ps : List Bytes) (cur next : Cursor)
    → resolve_round p cur ≡ some next
    → resolve_loop (p ∷ ps) cur ≡ resolve_loop ps next
unfolding resolve_loop
resolve_loop_cons p ps cur next h = rw (h, resolve_loop)

shows_more :
    (end middle begin before value more last emitted tail : Bytes)
    → end ≡ middle ++ more
    → middle ≡ begin ++ (before ++ value)
    → ◌≡◌ {A = Option (Bytes × Bytes)}
        (some (before ++ (value ++ more), last))
        (some (emitted, tail))
    → end ≡ begin ++ emitted
shows_more end middle begin before value more last emitted tail h k e =
    let e' : before ++ (value ++ more) ≡ emitted = ground arith in
    rw (h, k, ← e') (simp append_assoc)

-- The whole loop, where the placeholders and the literals suffice.
pub resolve_loop-Filled :
    (ps : List Bytes) (cur : Cursor) (done rest emitted tail : Bytes)
    → NoZero rest
    → Stands cur done rest
    → fill ps rest ≡ some (emitted, tail)
    → Filled cur emitted tail (length ps) (resolve_loop ps cur)
unfolding fill resolve_loop
resolve_loop-Filled [] cur done rest emitted tail z h e = record {
  next = cur;
  returns = refl;
  done = done;
  stands = subst (Stands cur done) (ground arith) h;
  shows = let e' : emitted ≡ [] = ground arith in rw e' (sym (append-nil _));
  clean = subst NoZero (ground arith) z;
  moved = omega arith;
}
resolve_loop-Filled (p ∷ ps) cur done rest emitted tail z h e =
    elim (Option-cases (split false rest)) [
      | inl none_left ↦ absurd (ground arith)
      | inr ((before, after), split_here) ↦ elim (Option-cases (literal p)) [
        | inl bad ↦ absurd (ground arith)
        | inr (value, lit) ↦ elim (Option-cases (fill ps after)) [
          | inl short ↦ absurd (ground arith)
          | inr ((more, last), filled) ↦
              let first =
                resolve_round-Filled p cur done rest before after value z h split_here lit in
              let cut = rw split_here at (split-SplitsAt rest false) in
              let later =
                resolve_loop-Filled ps first.next first.done after more last
                  (NoZero-append before _ (rw cut at z)).1.1 first.stands filled in
              record {
                next = later.next;
                returns = resolve_loop_cons p ps cur first.next first.returns ∙ later.returns;
                done = later.done;
                stands = subst (Stands later.next later.done) (ground arith) later.stands;
                shows =
                    shows_more (text later.next) (text first.next) (text cur) before value more last
                      emitted tail later.shows first.shows (ground arith);
                clean = subst NoZero (ground arith) later.clean;
                moved = omega (arith, first.moved, later.moved);
              }
        ]
      ]
    ]
