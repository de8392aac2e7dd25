-- ===== src/Form/Sizes.antt =====
-- No value of a form is longer than the array that it is stored in.
use ngx_dbrelay.Base.{
  ℕ, ◌+◌, ◌-◌, ◌≤◌, ◌<◌, ◌≡◌, Bool, true, false, some, arith, Bytes, codes, length, set, length-set,
  starts_with, str_eq, ltb, if◌then◌else◌, drop,
}
use ngx_dbrelay.Base.Int.{ℤ, pos, negsuc}
use ngx_dbrelay.Base.Decimal.{atol}
use ngx_dbrelay.Request.{
  Request, dbrelay_copy_string, dbrelay_obj_sz, dbrelay_name_sz, dbrelay_max_params,
}
use ngx_dbrelay.Request.Copy.{dbrelay_copy_string_lem}
use ngx_dbrelay.Form.{write_flag_values, write_param, unescape_value, store_value, write_value}

-- A string and its terminating zero fit into `n` bytes.
abbrev pub Holds : ℕ → Bytes → Type 0
Holds n s = length s + 1 ≤ n

-- The sizes of arrays that have no name in src/dbrelay.h.
abbrev error_message_sz : ℕ
error_message_sz = 4000

abbrev sock_path_sz : ℕ
sock_path_sz = 256

-- Every string in an array of the request fits into it, and the array of parameters has its size.
abbrev pub WellSized : Request → Type 0
WellSized r =
    Holds dbrelay_name_sz r.cmd
    × Holds dbrelay_obj_sz r.sql_dbtype
    × Holds dbrelay_obj_sz r.sql_database
    × Holds dbrelay_name_sz r.sql_server
    × Holds dbrelay_obj_sz r.sql_user
    × Holds 6 r.sql_port
    × Holds dbrelay_name_sz r.query_tag
    × Holds dbrelay_obj_sz r.sql_password
    × Holds dbrelay_name_sz r.connection_name
    × Holds dbrelay_name_sz r.js_callback
    × Holds dbrelay_name_sz r.js_error
    × Holds error_message_sz r.error_message
    × Holds dbrelay_obj_sz r.remote_addr
    × Holds sock_path_sz r.sock_path
    × length r.params ≡ dbrelay_max_params

copied : (v : Bytes) (sz : ℕ) → 0 < sz → Holds sz (dbrelay_copy_string v sz)
copied v sz h = (dbrelay_copy_string_lem v sz h).0

copied_cmd : (v : Bytes) → Holds dbrelay_name_sz (dbrelay_copy_string v dbrelay_obj_sz)
copied_cmd v = let h = copied v dbrelay_obj_sz (omega arith) in omega arith

choice-WellSized :
    (b : Bool) (x y : Request) → WellSized x → WellSized y → WellSized (if b then x else y)
choice-WellSized true x y h k = h
choice-WellSized false x y h k = k

cmd-WellSized :
    (r : Request) (v : Bytes)
    → WellSized r
    → WellSized (record r { cmd = dbrelay_copy_string v dbrelay_obj_sz })
cmd-WellSized r v h = let k = copied_cmd v in ground arith

sql_dbtype-WellSized :
    (r : Request) (v : Bytes)
    → WellSized r
    → WellSized (record r { sql_dbtype = dbrelay_copy_string v dbrelay_obj_sz })
sql_dbtype-WellSized r v h = let k = copied v dbrelay_obj_sz (omega arith) in ground arith

sql_database-WellSized :
    (r : Request) (v : Bytes)
    → WellSized r
    → WellSized (record r { sql_database = dbrelay_copy_string v dbrelay_obj_sz })
sql_database-WellSized r v h = let k = copied v dbrelay_obj_sz (omega arith) in ground arith

sql_server-WellSized :
    (r : Request) (v : Bytes)
    → WellSized r
    → WellSized (record r { sql_server = dbrelay_copy_string v dbrelay_name_sz })
sql_server-WellSized r v h = let k = copied v dbrelay_name_sz (omega arith) in ground arith

sql_user-WellSized :
    (r : Request) (v : Bytes)
    → WellSized r
    → WellSized (record r { sql_user = dbrelay_copy_string v dbrelay_obj_sz })
sql_user-WellSized r v h = let k = copied v dbrelay_obj_sz (omega arith) in ground arith

sql_port-WellSized :
    (r : Request) (v : Bytes)
    → WellSized r
    → WellSized (record r { sql_port = dbrelay_copy_string v 6 })
sql_port-WellSized r v h = let k = copied v 6 (omega arith) in ground arith

query_tag-WellSized :
    (r : Request) (v : Bytes)
    → WellSized r
    → WellSized (record r { query_tag = dbrelay_copy_string v dbrelay_name_sz })
query_tag-WellSized r v h = let k = copied v dbrelay_name_sz (omega arith) in ground arith

sql_password-WellSized :
    (r : Request) (v : Bytes)
    → WellSized r
    → WellSized (record r { sql_password = dbrelay_copy_string v dbrelay_obj_sz })
sql_password-WellSized r v h = let k = copied v dbrelay_obj_sz (omega arith) in ground arith

connection_name-WellSized :
    (r : Request) (v : Bytes)
    → WellSized r
    → WellSized (record r { connection_name = dbrelay_copy_string v dbrelay_name_sz })
connection_name-WellSized r v h = let k = copied v dbrelay_name_sz (omega arith) in ground arith

js_callback-WellSized :
    (r : Request) (v : Bytes)
    → WellSized r
    → WellSized (record r { js_callback = dbrelay_copy_string v dbrelay_name_sz })
js_callback-WellSized r v h = let k = copied v dbrelay_name_sz (omega arith) in ground arith

js_error-WellSized :
    (r : Request) (v : Bytes)
    → WellSized r
    → WellSized (record r { js_error = dbrelay_copy_string v dbrelay_name_sz })
js_error-WellSized r v h = let k = copied v dbrelay_name_sz (omega arith) in ground arith

write_param-WellSized :
    (r : Request) (digits v : Bytes) → WellSized r → WellSized (write_param r digits v)
unfolding write_param
write_param-WellSized r digits v h = go (atol digits)
  where
    go :
        (i : ℤ)
        → WellSized (elim i as (λ x. Request) [
          | negsuc n ↦ r
          | pos i ↦
              if ltb dbrelay_max_params i
              then r
              else if ltb 0 i
              then record r { params = set r.params (i - 1) (some v) }
              else r
        ])
    go (negsuc n) = h
    go (pos i) = let kept = length-set r.params (i - 1) (some v) in ground arith

-- If every string in an array of the request fits into it with its terminating zero, and the array of
-- parameters has its size, then both are so whatever key and value are stored.
pub write_value-WellSized :
    (unescape : Bytes → Bytes) (r : Request) (key value : Bytes)
    → WellSized r
    → WellSized (write_value unescape r key value)
unfolding write_value store_value write_flag_values
write_value-WellSized unescape r key value h =
    let v = unescape_value unescape value in
    choice-WellSized (str_eq key (codes "cmd")) _ _ (cmd-WellSized r v h) (
      choice-WellSized (str_eq key (codes "status")) _ _ h (
        choice-WellSized (str_eq key (codes "sql_dbtype")) _ _ (sql_dbtype-WellSized r v h) (
          choice-WellSized (str_eq key (codes "sql_database")) _ _ (sql_database-WellSized r v h) (
            choice-WellSized (str_eq key (codes "sql_server")) _ _ (sql_server-WellSized r v h) (
              choice-WellSized (str_eq key (codes "sql_user")) _ _ (sql_user-WellSized r v h) (
                choice-WellSized (str_eq key (codes "sql_port")) _ _ (sql_port-WellSized r v h) (
                  choice-WellSized (str_eq key (codes "sql")) _ _ h (
                    choice-WellSized (str_eq key (codes "query_tag")) _ _
                      (query_tag-WellSized r v h)
                      (choice-WellSized (str_eq key (codes "sql_password")) _ _
                        (sql_password-WellSized r v h)
                        (choice-WellSized (str_eq key (codes "connection_name")) _ _
                          (connection_name-WellSized r v h)
                          (choice-WellSized (str_eq key (codes "connection_timeout")) _ _ h (
                            choice-WellSized (str_eq key (codes "http_keepalive")) _ _ h (
                              choice-WellSized (str_eq key (codes "log_level")) _ _ h (
                                choice-WellSized (str_eq key (codes "log_level_scope")) _ _ h (
                                  choice-WellSized (starts_with (codes "param") key) _ _
                                    (write_param-WellSized r (drop 5 key) v h)
                                    (choice-WellSized (str_eq key (codes "flags")) _ _ h (
                                      choice-WellSized (str_eq key (codes "js_callback")) _ _
                                        (js_callback-WellSized r v h)
                                        (choice-WellSized (str_eq key (codes "js_error")) _ _
                                          (js_error-WellSized r v h) (h)))))))))))))))))))
