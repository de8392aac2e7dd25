-- ===== src/Form.antt =====
-- Form data of a request, src/ngx_http_dbrelay_module.c: `write_value`, `write_flag_values`, and the
-- parsers of the query string and of the body. `ngx_unescape_uri` is the argument `unescape`.
pub mod Sizes
pub mod Scan
pub mod Plain
pub mod Ends
pub mod Pairs
pub mod Flags
use ngx_dbrelay.Base.{
  ℕ, zero, suc, ◌+◌, ◌-◌, Bool, true, false, not, ◌&&◌, ◌||◌, List, [], ◌∷◌, ◌++◌, Option, none,
  some, Bytes, codes, map, c_str, length, get_elem?, set, drop, starts_with, str_eq, ltb, ◌==◌,
  if◌then◌else◌,
}
use ngx_dbrelay.Base.Int.{ℤ, pos, negsuc}
use ngx_dbrelay.Base.Decimal.{atol}
use ngx_dbrelay.Request.{
  Request, Flag, echosql, pp, xact, embedcsv, nomagic, set_flag, dbrelay_copy_string,
  dbrelay_obj_sz, dbrelay_name_sz, dbrelay_max_params,
}

-- `strsep(&flags, ",")`: the parts between commas, `part` being the bytes of the first one so far.
unfoldable pub comma_parts : Bytes → Bytes → List Bytes
comma_parts part [] = part ∷ []
comma_parts part (c ∷ s) =
    let next = comma_parts [] s in
    let same = comma_parts (part ++ c ∷ []) s in if c == b',' then part ∷ next else same

unfoldable pub flag_of : Bytes → Option Flag
flag_of tok =
    if str_eq tok (codes "echosql")
    then some echosql
    else if str_eq tok (codes "pp")
    then some pp
    else if str_eq tok (codes "xact")
    then some xact
    else if str_eq tok (codes "embedcsv")
    then some embedcsv
    else if str_eq tok (codes "nomagic")
    then some nomagic
    else none

abbrev pub raise : ℕ → Option Flag → ℕ
raise flags none = flags
raise flags (some f) = set_flag flags f

unfoldable pub raise_all : ℕ → List Bytes → ℕ
raise_all flags [] = flags
raise_all flags (tok ∷ toks) = raise_all (raise flags (flag_of tok)) toks

unfoldable pub write_flag_values : Request → Bytes → Request
write_flag_values r value = record r { flags = raise_all r.flags (comma_parts [] value) }

abbrev pub log_levels : List Bytes
log_levels =
    codes "debug"
    ∷ codes "informational"
    ∷ codes "notice"
    ∷ codes "warning"
    ∷ codes "error"
    ∷ codes "critical"
    ∷ []

abbrev pub log_level_scopes : List Bytes
log_level_scopes = codes "server" ∷ codes "connection" ∷ codes "query" ∷ []

-- The loop over names: the number of the last that is the value, or what there was; `i` is the
-- number of the first.
unfoldable pub name_from : ℕ → List Bytes → Bytes → ℕ → ℕ
name_from i [] value old = old
name_from i (name ∷ names) value old =
    name_from (i + 1) names value (if str_eq value name then i else old)

abbrev pub name_index : List Bytes → Bytes → ℕ → ℕ
name_index names value old = name_from 0 names value old

-- `i = atoi(&key[5])` into an `unsigned int`, so that a negative number exceeds the limit.
unfoldable pub write_param : Request → Bytes → Bytes → Request
write_param r digits value = elim (atol digits) [
  | negsuc n ↦ r
  | pos i ↦
      if ltb dbrelay_max_params i
      then r
      else if ltb 0 i
      then record r { params = set r.params (i - 1) (some value) }
      else r
]

-- `+` for a blank.
abbrev pub unplus : ℕ → ℕ
unplus c = if c == b'+' then b' ' else c

unfoldable pub unescape_value : (Bytes → Bytes) → Bytes → Bytes
unescape_value unescape value = c_str (unescape (map unplus value))

-- The chain of tests of `write_value` on the unescaped value.
unfoldable pub store_value : Request → Bytes → Bytes → Request
store_value r key v =
    if str_eq key (codes "cmd")
    then record r { cmd = dbrelay_copy_string v dbrelay_obj_sz }
    else if str_eq key (codes "status")
    then record r { status = pos 1 }
    else if str_eq key (codes "sql_dbtype")
    then record r { sql_dbtype = dbrelay_copy_string v dbrelay_obj_sz }
    else if str_eq key (codes "sql_database")
    then record r { sql_database = dbrelay_copy_string v dbrelay_obj_sz }
    else if str_eq key (codes "sql_server")
    then record r { sql_server = dbrelay_copy_string v dbrelay_name_sz }
    else if str_eq key (codes "sql_user")
    then record r { sql_user = dbrelay_copy_string v dbrelay_obj_sz }
    else if str_eq key (codes "sql_port")
    then record r { sql_port = dbrelay_copy_string v 6 }
    else if str_eq key (codes "sql")
    then record r { sql = some v }
    else if str_eq key (codes "query_tag")
    then record r { query_tag = dbrelay_copy_string v dbrelay_name_sz }
    else if str_eq key (codes "sql_password")
    then record r { sql_password = dbrelay_copy_string v dbrelay_obj_sz }
    else if str_eq key (codes "connection_name")
    then record r { connection_name = dbrelay_copy_string v dbrelay_name_sz }
    else if str_eq key (codes "connection_timeout")
    then record r { connection_timeout = atol v }
    else if str_eq key (codes "http_keepalive")
    then record r { http_keepalive = atol v }
    else if str_eq key (codes "log_level")
    then record r { log_level = name_index log_levels v r.log_level }
    else if str_eq key (codes "log_level_scope")
    then record r { log_level_scope = name_index log_level_scopes v r.log_level_scope }
    else if starts_with (codes "param") key
    then write_param r (drop 5 key) v
    else if str_eq key (codes "flags")
    then write_flag_values r v
    else if str_eq key (codes "js_callback")
    then record r { js_callback = dbrelay_copy_string v dbrelay_name_sz }
    else if str_eq key (codes "js_error")
    then record r { js_error = dbrelay_copy_string v dbrelay_name_sz }
    else r

unfoldable pub write_value : (Bytes → Bytes) → Request → Bytes → Bytes → Request
unfolding store_value
write_value unescape r key value = store_value r key (unescape_value unescape value)
