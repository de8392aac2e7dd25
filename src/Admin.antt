-- ===== src/Admin.antt =====
-- src/admin.c: the commands of the administrator, which list tables, columns and keys, or kill the
-- connector of a named connection.
pub mod Killing
use ngx_dbrelay.Base.{
  ℕ, zero, suc, ◌+◌, Bool, true, false, not, ◌&&◌, List, [], ◌∷◌, ◌++◌, Option, none, some, Bytes,
  codes, get_elem?, str_eq, ◌==◌, if◌then◌else◌,
}
use ngx_dbrelay.Request.{Request}
use ngx_dbrelay.Json.{
  Json, json_new, json_to_string, json_new_object, json_end_object, json_add_key, json_add_string,
}
use ngx_dbrelay.Pool.{
  Connection, Connections, Effect, terminate, kill_connector, update_slot,
  dbrelay_db_close_connection,
}
use ngx_dbrelay.Results.{DbApi}
use ngx_dbrelay.Query.{Peer, Served, dbrelay_db_run_query}

-- What `dbrelay_admin_kill` returns.
pub data AdminResult : Type 0 where
  success fail not_found : AdminResult

unfoldable pub dbrelay_admin_result_text : AdminResult → Bytes
dbrelay_admin_result_text success = codes "succeeded"
dbrelay_admin_result_text fail = codes "failed"
dbrelay_admin_result_text not_found = codes "not found"

-- `params[0]`
abbrev pub first_param : List (Option Bytes) → Option Bytes
first_param [] = none
first_param (p ∷ ps) = p

abbrev pub is_some : Option Bytes → Bool
is_some none = false
is_some (some s) = true

-- The loop of `check_params`, with `left` rounds to go: each looks at the first parameter.
unfoldable pub check_params : List (Option Bytes) → ℕ → Bool
check_params params zero = true
check_params params (suc left) = is_some (first_param params) && check_params params left

unfoldable pub dbrelay_json_error : Bytes → Bytes
dbrelay_json_error error_string =
    let j = json_new_object (json_add_key (json_new_object json_new) (codes "log")) in
    json_to_string
      (json_end_object (json_end_object (json_add_string j (codes "error") error_string)))

-- `conn->pid!=0` and `!strcmp(conn->sock_path, sock_path)`
unfoldable pub has_path : Bytes → Connection → Bool
has_path sock_path conn = not (conn.pid == 0) && str_eq conn.sock_path sock_path

-- The loop over the slots from number `i`: the connector and the slot found last, `none` for -1.
unfoldable pub helper_loop : Bytes → ℕ → Connections → Option (ℕ × ℕ) → Option (ℕ × ℕ)
helper_loop sock_path i [] found = found
helper_loop sock_path i (conn ∷ conns) found =
    helper_loop sock_path (i + 1) conns
      (if has_path sock_path conn then some (conn.helper_pid, i) else found)

-- What a kill leaves.
pub record Killed : Type 0 where
  pub result : AdminResult
  pub connections : Connections
  pub effects : List Effect

-- The part that closes the slot, under the second hold of the semaphore.
unfoldable pub close_slot : ℕ → Connections → Connections × List Effect
close_slot slot conns = (
  update_slot slot (λ c. (dbrelay_db_close_connection c).0) conns,
  elim (get_elem? conns slot) [ none ↦ [] | some c ↦ (dbrelay_db_close_connection c).1 ],
)

-- `if (kill(pid, 0)) kill(pid, SIGTERM);`
abbrev pub signal_helper : (ℕ → Bool) → ℕ → List Effect
signal_helper is_alive pid = if not (is_alive pid) then terminate pid ∷ [] else []

-- `dbrelay_admin_kill`: `socket` is what `dbrelay_socket_connect` returns, `none` for -1, and
-- `meanwhile` what other processes do to the pool between the two holds of the semaphore.
unfoldable pub dbrelay_admin_kill :
    Option ℕ → (ℕ → Bool) → (Connections → Connections) → Bytes → Connections → Killed
dbrelay_admin_kill none is_alive meanwhile sock_path conns = record {
  result = fail;
  connections = conns;
  effects = [];
}
dbrelay_admin_kill (some s) is_alive meanwhile sock_path conns =
    elim (helper_loop sock_path 0 conns none) [
      | none ↦ record { result = not_found; connections = conns; effects = kill_connector s ∷ [] }
      | some (pid, slot) ↦
          let closed = close_slot slot (meanwhile conns) in
          record {
            result = success;
            connections = closed.0;
            effects = kill_connector s ∷ (signal_helper is_alive pid ++ closed.1);
          }
    ]

-- The statements that a driver's `catalogsql` makes for the administrator.
pub data CatalogCommand : Type 0 where
  tables columns pkey : CatalogCommand

-- The answer to a kill.
unfoldable pub kill_text : AdminResult → Bytes
kill_text result =
    let j = json_new_object (json_add_key (json_new_object json_new) (codes "cmd")) in
    json_to_string (
      json_end_object
        (json_end_object (json_add_string j (codes "status") (dbrelay_admin_result_text result))))

abbrev pub refused : Connections → Bytes → Option Served
refused conns message =
    some (record { answer = dbrelay_json_error message; connections = conns; effects = [] })

abbrev pub no_parameter : Bytes
no_parameter = codes "No parameter specified"

module _ {D : Type 0} (api : DbApi D)
    (catalogsql : CatalogCommand → List (Option Bytes) → Option Bytes) (fuel : ℕ) (magic : Bytes)
    (peer : Peer D) where
  -- `dbrelay_admin_tables`, `dbrelay_admin_columns` and `dbrelay_admin_pkey`
  unfoldable pub dbrelay_admin_catalog : CatalogCommand → Request → Connections → Option Served
  dbrelay_admin_catalog command request conns =
      dbrelay_db_run_query api fuel magic peer
        (record request { sql = catalogsql command request.params }) conns

  -- `dbrelay_db_cmd`
  unfoldable pub dbrelay_db_cmd :
      Option ℕ → (ℕ → Bool) → (Connections → Connections) → Request → Connections → Option Served
  dbrelay_db_cmd socket is_alive meanwhile request conns =
      if str_eq request.cmd (codes "kill")
      then if not (check_params request.params 1)
        then refused conns no_parameter
        else (elim (first_param request.params) [
          | none ↦ none
          | some sock_path ↦
              let killed = dbrelay_admin_kill socket is_alive meanwhile sock_path conns in
              some (record {
                answer = kill_text killed.result;
                connections = killed.connections;
                effects = killed.effects;
              })
        ])
      else if str_eq request.cmd (codes "tables")
      then dbrelay_admin_catalog tables request conns
      else if str_eq request.cmd (codes "columns")
      then (if not (check_params request.params 1)
          then refused conns no_parameter
          else dbrelay_admin_catalog columns request conns)
      else if str_eq request.cmd (codes "pkey")
      then (if not (check_params request.params 1)
          then refused conns no_parameter
          else dbrelay_admin_catalog pkey request conns)
      else refused conns (codes "Unknown admin command")
