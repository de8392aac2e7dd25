-- ===== src/Params/Resolve.antt =====
-- What `dbrelay_resolve_params` of src/db.c returns: with a placeholder for each parameter, with no
-- placeholder at all, with one parameter too many, and with a parameter that has no colon.
use ngx_dbrelay.Base.{
  ℕ, ◌≡◌, refl, ap, ap₂, ◌∙◌, List, [], ◌∷◌, ◌++◌, none, some, append_assoc, Bytes, drop, c_str,
  c_str-NoZero, NoZero,
}
use ngx_dbrelay.StringBuf.{sb_to_char}
use ngx_dbrelay.StringBuf.Laws.{sb_to_char-sb_append}
use ngx_dbrelay.Request.{Request}
use ngx_dbrelay.Params.{
  dbrelay_find_placeholder, Cursor, advance, resolve_round, resolve_loop, given_params,
  magic_prefix, dbrelay_resolve_params,
}
use ngx_dbrelay.Params.Split.{fill}
use ngx_dbrelay.Params.Rounds.{Stands, text, rest_text, resolve_loop-Filled, resolve_loop_cons}

-- The text in front of the SQL.
abbrev pub magic_text : Bytes → Request → Bytes
magic_text magic request = sb_to_char (magic_prefix magic request)

abbrev pub start : Bytes → Request → Bytes → Cursor
start magic request sql = record { tmpsql = sql; at = 0; sb = magic_prefix magic request }

pub start-Stands :
    (magic : Bytes) (request : Request) (sql : Bytes) → Stands (start magic request sql) [] sql
start-Stands magic request sql = record { buffer = refl; position = refl }

pub finish_at :
    (magic : Bytes) (request : Request) (sql : Bytes) (given : List Bytes) (cur : Cursor)
    → given_params request.params ≡ some given
    → resolve_loop given (start magic request sql) ≡ some cur
    → dbrelay_resolve_params magic request sql ≡ some (text cur ++ c_str (drop cur.at cur.tmpsql))
unfolding dbrelay_resolve_params
finish_at magic request sql given cur g h =
    rw (g, dbrelay_resolve_params)
      (rw (h, dbrelay_resolve_params) (ap some (sb_to_char-sb_append cur.sb _)))

-- Where every parameter has a placeholder and a colon, the statement that is sent is the text with
-- each placeholder replaced by its parameter, in order, behind the build's prefix.
pub resolve_filled :
    (magic : Bytes) (request : Request) (sql : Bytes) (given : List Bytes) (emitted tail : Bytes)
    → NoZero sql
    → given_params request.params ≡ some given
    → fill given sql ≡ some (emitted, tail)
    → dbrelay_resolve_params magic request sql
      ≡ some (magic_text magic request ++ (emitted ++ tail))
resolve_filled magic request sql given emitted tail z g e =
    let f = resolve_loop-Filled given _ [] sql emitted tail z (start-Stands magic request sql) e in
    finish_at magic request sql given f.next g f.returns
    ∙ ap some (
        ap₂ (◌++◌ {A = ℕ}) f.shows (rest_text f.next f.done tail f.clean f.stands)
        ∙ append_assoc _ emitted tail)

round_misses :
    (p : Bytes) (cur : Cursor)
    → advance cur.at (dbrelay_find_placeholder (c_str (drop cur.at cur.tmpsql))) ≡ none
    → resolve_round p cur ≡ some cur
unfolding resolve_round
round_misses p cur h = rw (h, resolve_round)

misses_at_zero :
    (cur : Cursor)
    → cur.at ≡ 0
    → dbrelay_find_placeholder (c_str cur.tmpsql) ≡ none
    → advance cur.at (dbrelay_find_placeholder (c_str (drop cur.at cur.tmpsql))) ≡ none
unfolding advance
misses_at_zero cur h e =
    ap (λ n. advance n (dbrelay_find_placeholder (c_str (drop n cur.tmpsql)))) h ∙ ap (advance 0) e

resolve_loop_no_placeholder :
    (given : List Bytes) (cur : Cursor)
    → cur.at ≡ 0
    → dbrelay_find_placeholder (c_str cur.tmpsql) ≡ none
    → resolve_loop given cur ≡ some cur
unfolding resolve_loop
resolve_loop_no_placeholder [] cur h e = refl
resolve_loop_no_placeholder (p ∷ ps) cur h e =
    resolve_loop_cons p ps cur cur (round_misses p cur (misses_at_zero cur h e))
    ∙ resolve_loop_no_placeholder ps cur h e

-- A text with no placeholder is sent as it is, behind the prefix, whatever the parameters, if they
-- end in a null pointer and the text has no zero byte.
pub resolve_no_placeholder :
    (magic : Bytes) (request : Request) (sql : Bytes) (given : List Bytes)
    → NoZero sql
    → given_params request.params ≡ some given
    → dbrelay_find_placeholder sql ≡ none
    → dbrelay_resolve_params magic request sql ≡ some (magic_text magic request ++ sql)
resolve_no_placeholder magic request sql given z g e =
    finish_at magic request sql given _ g (
      resolve_loop_no_placeholder given _ refl
        (ap dbrelay_find_placeholder (c_str-NoZero sql z) ∙ e))
    ∙ ap (λ s. some (magic_text magic request ++ s)) (c_str-NoZero sql z)
