-- ===== src/Tests/QueryRuns.antt =====
-- Runs of the status report, of the answer to a statement, and of a query.
use ngx_dbrelay.Base.{
  ℕ, zero, suc, ◌≡◌, refl, Bool, true, false, [], ◌∷◌, ◌++◌, inr, none, some, arith, Bytes, codes,
}
use ngx_dbrelay.Base.Int.{pos}
use ngx_dbrelay.Request.{dbrelay_max_conn, Request, dbrelay_alloc_request, has_flag, pp, embedcsv}
use ngx_dbrelay.Json.{std, json_new}
use ngx_dbrelay.Json.Print.{arr, end, tree_field, bare_key, print_tree}
use ngx_dbrelay.Json.Writer.Trees.{write_fields}
use ngx_dbrelay.Pool.{Connections, World, blank, dbrelay_create_shmem}
use ngx_dbrelay.Pool.Invariant.{created, get_elem?-replicate, Reachable-WellFormed}
use ngx_dbrelay.Results.{DbApi, transact, dbrelay_db_fill_data, dbrelay_exec_query}
use ngx_dbrelay.Results.Tables.{quoted, Table, table_items, Delivers}
use ngx_dbrelay.Results.Filling.{dbrelay_db_fill_data-Delivers, dbrelay_exec_query-Delivers}
use ngx_dbrelay.Status.{dbrelay_db_status}
use ngx_dbrelay.Status.Report.{status_tree, dbrelay_db_status-status_tree}
use ngx_dbrelay.Params.{
  dbrelay_check_request, given_params, dbrelay_find_placeholder, find_loop, toggle,
}
use ngx_dbrelay.Query.{Peer, Served, dbrelay_db_run_query}
use ngx_dbrelay.Query.Lifetime.{GivesBack, dbrelay_db_run_query-GivesBack}
use ngx_dbrelay.Pool.Reaping.{Waited, dbrelay_wait_for_connection, dbrelay_db_get_connection}
use ngx_dbrelay.Pool.Lease.{Countable}
use ngx_dbrelay.Params.Resolve.{magic_text, resolve_no_placeholder}
use ngx_dbrelay.Pool.Wait.{Leased}
use ngx_dbrelay.Query.Refusal.{refusal_text, dbrelay_db_run_query-refusal_text}

abbrev clock : ℕ → Bytes
clock t = codes "2011-01-01 00:00:00"

abbrev slots : Connections
slots = blank ∷ record blank { pid = 3; sql_server = codes "db" } ∷ []

dbrelay_db_status-status_tree_example :
    dbrelay_db_status clock (codes "1.0") (codes "0x00000001") slots
    ≡ print_tree false 0 (status_tree clock (codes "1.0") (codes "0x00000001") slots)
dbrelay_db_status-status_tree_example =
    dbrelay_db_status-status_tree clock (codes "1.0") (codes "0x00000001") slots

-- A database with one result of one row: 0 is the state before it, 1 behind its columns, 2 on its
-- row, 3 behind it, 4 behind the results.
abbrev next_result : ℕ → Bool × ℕ
next_result zero = (true, 1)
next_result (suc n) = (false, 4)

abbrev next_row : ℕ → Bool × ℕ
next_row (suc zero) = (true, 2)
next_row _ = (false, 3)

abbrev pub database : DbApi ℕ
database = record {
  has_results = next_result;
  numcols = λ d. 1;
  colname = λ d k. codes "a";
  coltype = λ d k. codes "varchar";
  collen = λ d k. pos 8;
  colprec = λ d k. pos 0;
  colscale = λ d k. pos 0;
  fetch_row = next_row;
  colvalue = λ d k. some (codes "x");
  is_quoted = λ d k. true;
  rowcount = λ d. pos 1;
  connected = λ d. true;
  error = λ d. [];
  change_db = λ d s. d;
  exec = λ d s. (true, d);
  begin_sql = codes "begin";
  commit_sql = codes "commit";
  rollback_sql = codes "rollback";
}

abbrev table : Table
table = record {
  columns =
      record {
        colname = codes "a";
        coltype = codes "varchar";
        collen = pos 8;
        colprec = pos 0;
        colscale = pos 0;
      }
      ∷ [];
  rows = (quoted (codes "x") ∷ []) ∷ [];
  count = pos 1;
}

database-Delivers : Delivers database 0 (table ∷ []) 4
database-Delivers = (
  1,
  3,
  refl,
  refl,
  (refl, refl, refl, refl, refl, tt),
  (2, refl, (refl, (refl, refl), tt), refl),
  refl,
  refl,
)

new_std : json_new.mode ≡ std
unfolding json_new
new_std = refl

dbrelay_db_fill_data-Delivers_example :
    dbrelay_db_fill_data database 4 0 json_new
    ≡ some
        (write_fields (tree_field (codes "data") (arr (table_items (table ∷ []))) end) json_new, 4)
dbrelay_db_fill_data-Delivers_example =
    dbrelay_db_fill_data-Delivers database 4 0 4 (table ∷ []) json_new new_std database-Delivers
      (omega arith)

no_csv : has_flag 4 embedcsv ≡ false
unfolding has_flag
no_csv = refl

accepted :
    database.exec
      (transact database 4 database.begin_sql (database.change_db 0 (codes "m")))
      (codes "select")
    ≡ (true, 0)
unfolding transact has_flag
accepted = refl

dbrelay_exec_query-Delivers_example :
    dbrelay_exec_query database 4 0 (codes "m") (codes "select") 4
    ≡ some (
      some (
          bare_key (has_flag 4 pp) (codes "data")
          ++ print_tree (has_flag 4 pp) 0 (arr (table_items (table ∷ [])))),
      transact database 4 database.commit_sql 4,
    )
dbrelay_exec_query-Delivers_example =
    dbrelay_exec_query-Delivers database 4 0 0 4 (table ∷ []) (codes "m") (codes "select") 4 no_csv
      accepted database-Delivers (omega arith)

abbrev world : World
world = record { now = 100; own_pid = 7; is_alive = λ p. true; temp_name = none; connect = some 5 }

abbrev peer : Peer ℕ
peer = record {
  rounds = (world, none) ∷ [];
  later = world;
  initialize = some 8;
  send_request = ([], 0);
  opened = λ h. 0;
}

abbrev request : Request
request = record dbrelay_alloc_request {
  sql = some (codes "select 1");
  sql_server = codes "db";
  sql_user = codes "u";
}

abbrev named_request : Request
named_request = record request { connection_name = codes "c" }

abbrev statement : Bytes
statement = codes "select 1"

-- A request that gives the path of its socket.
abbrev socket_request : Request
socket_request = record named_request { sock_path = codes "/tmp/s" }

complete : dbrelay_check_request socket_request ≡ true
unfolding dbrelay_check_request dbrelay_alloc_request
complete = refl

no_params : given_params socket_request.params ≡ some []
unfolding given_params dbrelay_alloc_request
no_params = refl

no_mark : dbrelay_find_placeholder statement ≡ none
unfolding dbrelay_find_placeholder find_loop toggle
no_mark = refl

abbrev connecting : Peer ℕ
connecting = record peer { rounds = (world, some 9) ∷ [] }

created-Countable : Countable dbrelay_create_shmem
unfolding dbrelay_create_shmem
created-Countable j c h = rw (get_elem?-replicate dbrelay_max_conn j c h) (omega arith)

dbrelay_db_run_query-GivesBack_example :
    (x : Waited) × (r : Served) × (dbrelay_wait_for_connection connecting.rounds socket_request
        dbrelay_create_shmem []
      ≡ some x)
    × Leased world socket_request x
        (dbrelay_db_get_connection world world socket_request dbrelay_create_shmem).slot
    × (dbrelay_db_run_query database 4 [] connecting socket_request dbrelay_create_shmem ≡ some r)
    × GivesBack connecting.initialize connecting.later x.connections r.connections x.lease
dbrelay_db_run_query-GivesBack_example =
    dbrelay_db_run_query-GivesBack database 4 [] connecting socket_request dbrelay_create_shmem []
      (magic_text [] socket_request ++ statement) world 9 [] refl complete no_params
      (resolve_no_placeholder [] socket_request statement [] (ground arith) no_params no_mark) refl
      (refl, omega arith, refl) created-Countable
      (Reachable-WellFormed dbrelay_create_shmem created)

abbrev bare_request : Request
bare_request = record request { sql_user = []; js_callback = codes "f" }

dbrelay_db_run_query-refusal_text_example :
    dbrelay_db_run_query database 4 [] peer bare_request dbrelay_create_shmem
    ≡ some (record {
      answer = refusal_text bare_request (codes "Not all required parameters submitted.");
      connections = dbrelay_create_shmem;
      effects = [];
    })
dbrelay_db_run_query-refusal_text_example =
    dbrelay_db_run_query-refusal_text database 4 [] peer bare_request dbrelay_create_shmem
      (inr (inr refl))
