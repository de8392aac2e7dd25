-- ===== src/Status.antt =====
-- `dbrelay_db_status` of src/db.c: the report on the pool. The build's name, the key of the shared
-- memory as text, and the text of a time (`localtime` and `strftime`) are arguments.
pub mod Report
use ngx_dbrelay.Base.{ℕ, Bool, not, List, [], ◌∷◌, Bytes, codes, ◌==◌, if◌then◌else◌}
use ngx_dbrelay.Base.Decimal.{decimal, decimal_ℤ}
use ngx_dbrelay.Json.{
  Json, json_new, json_to_string, json_new_object, json_end_object, json_new_array, json_end_array,
  json_add_key, json_add_string, json_add_number,
}
use ngx_dbrelay.Pool.{Connection, Connections}

module _ (format_time : ℕ → Bytes) where
  -- The object of a slot in use.
  unfoldable pub write_slot : Connection → Json → Json
  write_slot conn j =
      let j1 = json_add_number (json_new_object j) (codes "slot") (decimal conn.slot) in
      let j2 = json_add_number j1 (codes "pid") (decimal conn.pid) in
      let j3 = json_add_string j2 (codes "name") conn.connection_name in
      let j4 = json_add_string j3 (codes "tm_created") (format_time conn.tm_create) in
      let j5 = json_add_string j4 (codes "tm_accessed") (format_time conn.tm_accessed) in
      let j6 = json_add_string j5 (codes "sql_server") conn.sql_server in
      let j7 = json_add_string j6 (codes "sql_port") conn.sql_port in
      let j8 = json_add_string j7 (codes "sql_database") conn.sql_database in
      let j9 = json_add_string j8 (codes "sql_user") conn.sql_user in
      let j10 =
        json_add_number j9 (codes "connection_timeout") (decimal_ℤ conn.connection_timeout) in
      let j11 = json_add_number j10 (codes "in_use") (decimal conn.in_use) in
      let j12 = json_add_string j11 (codes "sock_path") conn.sock_path in
      json_end_object (json_add_number j12 (codes "helper_pid") (decimal conn.helper_pid))

  -- The loop over the slots.
  unfoldable pub status_loop : Connections → Json → Json
  status_loop [] j = j
  status_loop (c ∷ cs) j = status_loop cs (if not (c.pid == 0) then write_slot c j else j)

  unfoldable pub dbrelay_db_status : (build ipckey : Bytes) → Connections → Bytes
  dbrelay_db_status build ipckey conns =
      let status = json_new_object (json_add_key (json_new_object json_new) (codes "status")) in
      let info = json_new_object (json_add_key status (codes "info")) in
      let built = json_add_string info (codes "build") build in
      let informed = json_end_object (json_add_string built (codes "ipckey") ipckey) in
      let listed = json_new_array (json_add_key informed (codes "connections")) in
      let ended = json_end_array (status_loop conns listed) in
      json_to_string (json_end_object (json_end_object ended))
