-- ===== src/Params.antt =====
-- Query parameters, src/db.c: `is_quoted_param`, `dbrelay_find_placeholder`,
-- `dbrelay_resolve_params` and `dbrelay_check_request`.
pub mod Placeholders
pub mod Split
pub mod Rounds
pub mod Resolve
pub mod Surplus
use ngx_dbrelay.Base.{
  ℕ, zero, suc, ◌+◌, Bool, true, false, not, ◌&&◌, ◌||◌, List, [], ◌∷◌, Option, none, some, Bytes,
  codes, take, drop, set, index_of, c_str, str_case_eq, is_set, ◌==◌, if◌then◌else◌,
}
use ngx_dbrelay.Request.{Request, has_flag, nomagic}
use ngx_dbrelay.StringBuf.{StringBuf, sb_new, sb_put, sb_to_char}

-- The type name in front of the colon calls for quotes.
unfoldable pub quoted_type : Bytes → Bool
quoted_type t =
    str_case_eq t (codes "char")
    || str_case_eq t (codes "varchar")
    || str_case_eq t (codes "datetime")
    || str_case_eq t (codes "smalldatetime")

-- `none` where the parameter has no colon: the code then writes through a null pointer.
unfoldable pub is_quoted_param : Bytes → Option Bool
is_quoted_param param = elim (index_of b':' param) [
  | none ↦ none
  | some i ↦ some (quoted_type (take i param))
]

-- `strstr(param, ":") + 1`
unfoldable pub param_value : Bytes → Option Bytes
param_value param = elim (index_of b':' param) [ none ↦ none | some i ↦ some (drop (i + 1) param) ]

-- `if (sql[i]=='\'') quoted = quoted ? 0 : 1;`
unfoldable pub toggle : Bool → ℕ → Bool
toggle quoted c = if c == b'\'' then not quoted else quoted

-- The loop of `dbrelay_find_placeholder` from position `i`; `none` is -1.
unfoldable pub find_loop : Bool → ℕ → Bytes → Option ℕ
unfolding toggle
find_loop quoted i [] = none
find_loop quoted i (c ∷ s) =
    if not (toggle quoted c) && c == b'?' then some i else find_loop (toggle quoted c) (i + 1) s

unfoldable pub dbrelay_find_placeholder : Bytes → Option ℕ
unfolding find_loop
dbrelay_find_placeholder sql = find_loop false 0 sql

-- The variables of the loop in `dbrelay_resolve_params`.
pub record Cursor : Type 0 where
  pub tmpsql : Bytes
  pub at : ℕ
  pub sb : StringBuf

-- `pos += found` in C integers, where a missing placeholder counts -1; `none` is the sum -1.
unfoldable pub advance : ℕ → Option ℕ → Option ℕ
advance at (some k) = some (at + k)
advance zero none = none
advance (suc at) none = some at

-- `if (is_quoted_param(...)) sb_append(sb, "'")`
unfoldable pub put_quote : Bool → StringBuf → StringBuf
put_quote quoted sb = if quoted then sb_put sb (codes "'") else sb

-- The branch that puts a parameter in at `hit`, with the quotes that its type wants.
unfoldable pub put_param : Cursor → ℕ → Bool → Bytes → Cursor
unfolding put_quote
put_param cur hit quoted value =
    let cut = set cur.tmpsql hit 0 in
    let text = sb_put cur.sb (c_str (drop cur.at cut)) in
    record {
      tmpsql = cut;
      at = hit + 1;
      sb = put_quote quoted (sb_put (put_quote quoted text) value);
    }

-- One round of `while (request->params[i])`.
unfoldable pub resolve_round : Bytes → Cursor → Option Cursor
resolve_round param cur =
    elim (advance cur.at (dbrelay_find_placeholder (c_str (drop cur.at cur.tmpsql)))) [
      | none ↦ some cur
      | some hit ↦ elim (is_quoted_param param) [
        | none ↦ none
        | some quoted ↦ elim (param_value param) [
          | none ↦ none
          | some value ↦ some (put_param cur hit quoted value)
        ]
      ]
    ]

unfoldable pub resolve_loop : List Bytes → Cursor → Option Cursor
resolve_loop [] cur = some cur
resolve_loop (p ∷ ps) cur = elim (resolve_round p cur) [
  | none ↦ none
  | some next ↦ resolve_loop ps next
]

-- The parameters before the first null pointer; `none` where the array has none, so that the loop
-- reads past its end.
unfoldable pub given_params : List (Option Bytes) → Option (List Bytes)
given_params [] = none
given_params (none ∷ ps) = some []
given_params (some p ∷ ps) = elim (given_params ps) [ none ↦ none | some given ↦ some (p ∷ given) ]

-- The buffer in front of the loop; `magic` is the build's `DBRELAY_MAGIC`.
unfoldable pub magic_prefix : Bytes → Request → StringBuf
magic_prefix magic request =
    if is_set magic && not (has_flag request.flags nomagic)
    then sb_put (sb_new none) magic
    else sb_new none

-- `dbrelay_resolve_params`; `none` is undefined behaviour, in a parameter without a colon or an
-- array of parameters with no null pointer.
unfoldable pub dbrelay_resolve_params : Bytes → Request → Bytes → Option Bytes
dbrelay_resolve_params magic request sql = elim (given_params request.params) [
  | none ↦ none
  | some given ↦
      elim (resolve_loop given (record { tmpsql = sql; at = 0; sb = magic_prefix magic request })) [
        | none ↦ none
        | some cur ↦ some (sb_to_char (sb_put cur.sb (c_str (drop cur.at cur.tmpsql))))
      ]
]

unfoldable pub dbrelay_check_request : Request → Bool
dbrelay_check_request request = elim request.sql [
  | none ↦ false
  | some sql ↦
      if not (is_set request.sql_server)
      then false
      else if not (is_set request.sql_user)
      then false
      else true
]
