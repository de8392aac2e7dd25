-- ===== src/Query.antt =====
-- `dbrelay_db_run_query` of src/db.c, from the request to the text of the answer, and the writers of
-- its parts. The database is reached through `DbApi`; the connector of a named connection through
-- what the functions of src/client.c return, which are fields of `Peer`.
pub mod Refusal
pub mod Lifetime
use ngx_dbrelay.Base.{
  ℕ, zero, suc, ◌+◌, ◌-◌, Bool, true, false, not, ◌&&◌, ◌||◌, List, [], ◌∷◌, ◌++◌, Option, none,
  some, Bytes, codes, length, is_set, is_empty, ◌==◌, if◌then◌else◌,
}
use ngx_dbrelay.Base.Decimal.{decimal}
use ngx_dbrelay.Request.{Request, has_flag, echosql, pp, dbrelay_copy_string}
use ngx_dbrelay.Params.{given_params, dbrelay_resolve_params, dbrelay_check_request}
use ngx_dbrelay.Json.{
  Json, json_new, json_pretty_print, json_to_string, json_new_object, json_end_object, json_add_key,
  json_add_string, json_add_json, json_add_callback, json_end_callback,
}
use ngx_dbrelay.Pool.{
  Connection, Connections, Effect, kill_connector, close_connector, World, update_slot,
}
use ngx_dbrelay.Pool.Reaping.{
  adopt, finish_query, Waited, with_timeout, dbrelay_wait_for_connection,
}
use ngx_dbrelay.Results.{DbApi, dbrelay_exec_query}

-- `if (IS_SET(value)) json_add_string(json, key, value);`
abbrev pub add_if_set : Json → Bytes → Bytes → Json
add_if_set j key value = if is_set value then json_add_string j key value else j

unfoldable pub dbrelay_append_request_json : Json → Request → Json
dbrelay_append_request_json j request =
    let j1 = json_new_object (json_add_key j (codes "request")) in
    let j2 = add_if_set j1 (codes "query_tag") request.query_tag in
    let j3 = json_add_string j2 (codes "sql_server") request.sql_server in
    let j4 = json_add_string j3 (codes "sql_user") request.sql_user in
    let j5 = add_if_set j4 (codes "sql_port") request.sql_port in
    json_end_object (json_add_string j5 (codes "sql_database") request.sql_database)

-- The loop over the parameters from number `i`.
unfoldable pub params_loop : ℕ → List Bytes → Json → Json
params_loop i [] j = j
params_loop i (p ∷ ps) j = params_loop (i + 1) ps (json_add_string j (codes "param" ++ decimal i) p)

-- `given` are the parameters up to the null pointer.
unfoldable pub dbrelay_append_log_json : Json → Request → List Bytes → Bytes → Json
dbrelay_append_log_json j request given error_string =
    let j1 = json_new_object (json_add_key j (codes "log")) in
    let j2 =
      if has_flag request.flags echosql
      then (elim request.sql [ none ↦ j1 | some sql ↦ json_add_string j1 (codes "sql") sql ])
      else j1 in
    let j3 = add_if_set j2 (codes "error") error_string in
    json_end_object (json_end_object (params_loop 0 given j3))

unfoldable pub dbrelay_write_json_log : Json → Request → Bytes → Json
dbrelay_write_json_log j request error_string =
    let j1 = json_new_object (json_add_key j (codes "log")) in
    let j2 : Json = elim request.sql [
      | none ↦ j1
      | some sql ↦ json_add_string j1 (codes "sql") sql
    ] in
    json_end_object (json_end_object (json_add_string j2 (codes "error") error_string))

unfoldable pub dbrelay_db_restart_json : Request → Json → Json
dbrelay_db_restart_json request j =
    if is_set request.js_error
    then dbrelay_append_request_json (json_new_object (json_add_callback json_new request.js_error))
        request
    else j

-- The writer in front of the checks.
unfoldable pub start_answer : Request → Json
start_answer request =
    let j = if has_flag request.flags pp then json_pretty_print json_new true else json_new in
    let called =
      if is_set request.js_callback then json_add_callback j request.js_callback else j in
    dbrelay_append_request_json (json_new_object called) request

-- `if (IS_SET(js_callback) || IS_SET(js_error)) json_end_callback(json);`, and the text.
unfoldable pub end_answer : Request → Json → Bytes
end_answer request j =
    json_to_string
      (if is_set request.js_callback || is_set request.js_error then json_end_callback j else j)

-- The early returns: restart, log, end.
unfoldable pub refuse : Request → Json → Bytes → Bytes
refuse request j message =
    end_answer request (dbrelay_write_json_log (dbrelay_db_restart_json request j) request message)

-- What a query meets outside: the rounds of its wait, the clock at its end, and the connector.
pub record Peer (D : Type 0) : Type 0 where
  pub rounds : List (World × Option ℕ)
  pub later : World
  -- `dbrelay_conn_initialize`, `none` for -1
  pub initialize : Option ℕ
  -- `dbrelay_conn_send_request`: the text, which never is a null pointer, and `have_error`
  pub send_request : Bytes × ℕ
  -- the state behind a handle
  pub opened : Option ℕ → D

-- What a query leaves: its answer, the pool, and what it asked of the world.
pub record Served : Type 0 where
  pub answer : Bytes
  pub connections : Connections
  pub effects : List Effect

abbrev pub text_of : Option Bytes → Bytes
text_of none = []
text_of (some s) = s

abbrev pub error_string_sz : ℕ
error_string_sz = 500

-- The answer so far and `error_string`, behind the part of a named connection.
unfoldable pub ask_connector : Request → Bytes × ℕ → Json → Json × Bytes
ask_connector request (ret, have_error) j =
    if not (have_error == 0)
    then (dbrelay_db_restart_json request j, dbrelay_copy_string ret error_string_sz)
    else if not (is_set ret)
    then (j, [])
    else (json_add_json (json_add_json j (codes ", ")) ret, [])

abbrev pub connector_effects : ℕ → ℕ → List Effect
connector_effects s have_error =
    (if have_error == 2 then kill_connector s ∷ [] else []) ++ close_connector s ∷ []

abbrev pub no_password : Bytes
no_password = codes "Login failed and no password was set, please check.\n"

-- The message of a connection that is not connected.
unfoldable pub login_error : Request → Bytes → Bytes
login_error request error =
    if is_empty request.sql_password
    then no_password ++ dbrelay_copy_string error (error_string_sz - length no_password)
    else if is_empty error
    then codes "Connection failed.\n"
    else dbrelay_copy_string error error_string_sz

module _ {D : Type 0} (api : DbApi D) where
  -- The same behind the part of a connection without a name; `none` if the fuel of the rows runs out.
  unfoldable pub ask_database : ℕ → Request → Bytes → D → Json → Option (Json × Bytes)
  ask_database fuel request newsql db j =
      if not (api.connected db)
      then some (dbrelay_db_restart_json request j, login_error request (api.error db))
      else (elim (dbrelay_exec_query api fuel db request.sql_database newsql request.flags) [
        | none ↦ none
        | some (none, db') ↦ some (dbrelay_db_restart_json request j, api.error db')
        | some (some ret, db') ↦ some (json_add_json (json_add_json j (codes ", ")) ret, [])
      ])

  -- The end of the query: the log, the text, and the lease given back.
  unfoldable pub finish_answer :
      World → Request → List Bytes → ℕ → Connections → List Effect → Json × Bytes → Served
  finish_answer later request given slot conns effects (j, error_string) = record {
    answer = end_answer request (dbrelay_append_log_json j request given error_string);
    connections = update_slot slot (λ c. (finish_query later c).0) conns;
    effects = effects ++ (elim (ngx_dbrelay.Base.get_elem? conns slot) [
      | none ↦ []
      | some c ↦ (finish_query later c).1
    ]);
  }

  -- A named connection whose connector cannot be initialized: the early return, which does not give
  -- the lease back.
  unfoldable pub fail_initialize : Request → Json → Connections → List Effect → Served
  fail_initialize request j conns effects = record {
    answer =
        refuse request (dbrelay_db_restart_json request j) (codes "Couldn't initialize connector");
    connections = conns;
    effects = effects;
  }

  -- The connector says its process number, which goes into the slot, and answers.
  unfoldable pub serve_named :
      Peer D → Request → List Bytes → Connection → ℕ → Json → Connections → List Effect → Served
  serve_named peer request given conn s j conns effects = elim peer.initialize [
    | none ↦ fail_initialize request j conns effects
    | some helper ↦
        finish_answer peer.later request given conn.slot
          (if not (helper == 0) then update_slot conn.slot (adopt helper) conns else conns)
          (effects ++ connector_effects s peer.send_request.1)
          (ask_connector request peer.send_request j)
  ]

  unfoldable pub serve_unnamed :
      ℕ
      → Peer D
      → Request
      → List Bytes
      → Bytes
      → Connection
      → Json
      → Connections
      → List Effect
      → Option Served
  serve_unnamed fuel peer request given newsql conn j conns effects =
      elim (ask_database fuel request newsql (peer.opened conn.db) j) [
        | none ↦ none
        | some asked ↦ some (finish_answer peer.later request given conn.slot conns effects asked)
      ]

  -- What follows the wait.
  unfoldable pub serve : ℕ → Peer D → Request → List Bytes → Bytes → Json → Waited → Option Served
  serve fuel peer request given newsql j waited = elim waited.lease [
    | none ↦ some (record {
      answer = refuse request j (codes "Couldn't allocate new connection");
      connections = waited.connections;
      effects = waited.effects;
    })
    | some (conn, s) ↦
        if is_set request.connection_name
        then some (serve_named peer request given conn s j waited.connections waited.effects)
        else serve_unnamed fuel peer request given newsql conn j waited.connections waited.effects
  ]

  -- `dbrelay_db_run_query`; `none` where the parameters have no defined result, the wait's rounds
  -- are used up, or the fuel of the rows is.
  unfoldable pub dbrelay_db_run_query :
      (fuel : ℕ) (magic : Bytes) → Peer D → Request → Connections → Option Served
  dbrelay_db_run_query fuel magic peer request conns =
      if not (dbrelay_check_request request)
      then some (record {
        answer =
            refuse request (start_answer request) (codes "Not all required parameters submitted.");
        connections = conns;
        effects = [];
      })
      else (elim (given_params request.params) [
        | none ↦ none
        | some given ↦ elim (dbrelay_resolve_params magic request (text_of request.sql)) [
          | none ↦ none
          | some newsql ↦ elim (dbrelay_wait_for_connection peer.rounds request conns []) [
            | none ↦ none
            | some waited ↦
                serve fuel peer (with_timeout request waited.timeout) given newsql
                  (start_answer request) waited
          ]
        ]
      ])
