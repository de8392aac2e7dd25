-- ===== src/Tests/ConnectorRuns.antt =====
-- Runs of the socket's lines, of the connector, and of a client on it.
use ngx_dbrelay.Base.{
  ℕ, ◌-◌, ◌≤◌, ◌≡◌, refl, true, false, List, [], ◌∷◌, ◌++◌, map, none, some, arith, Bytes, codes,
  contains, length, starts_with,
}
use ngx_dbrelay.Base.Int.{pos}
use ngx_dbrelay.Base.Decimal.{decimal}
use ngx_dbrelay.Request.{Request, dbrelay_alloc_request, has_flag, pp, embedcsv}
use ngx_dbrelay.Results.{transact, dbrelay_exec_query}
use ngx_dbrelay.Json.Print.{arr, bare_key, print_tree}
use ngx_dbrelay.Results.Filling.{dbrelay_exec_query-Delivers}
use ngx_dbrelay.Results.Tables.{table_items}
use ngx_dbrelay.Socket.{
  SendResult, accepted, Inbox, received, dbrelay_socket_send_string, dbrelay_socket_recv_string,
  dbrelay_socket_bufsize,
}
use ngx_dbrelay.Socket.Lines.{next_line, pending}
use ngx_dbrelay.Socket.Sending.{Sends, Proceeds, dbrelay_socket_send_string-Sends}
use ngx_dbrelay.Socket.Streams.{Answers, concat, dbrelay_socket_recv_string-Answers}
use ngx_dbrelay.Connector.{ok, Session}
use ngx_dbrelay.Connector.Answering.{IsAnswered, serve_line-IsAnswered}
use ngx_dbrelay.Connector.Options.{process_line-server}
use ngx_dbrelay.Connector.Serving.{
  Database, serve_line, accept_timed_out, accept_failed, connected_to, wait_for_client,
}
use ngx_dbrelay.Connector.Waiting.{wait_for_client-first_call}
use ngx_dbrelay.Client.{dbrelay_conn_send_request, option_line}
use ngx_dbrelay.Exchange.{connector_channel}
use ngx_dbrelay.Exchange.Lines.{newline, link_at}
use ngx_dbrelay.Exchange.Options.{Sendable, NoNewline-of}
use ngx_dbrelay.Exchange.Statements.{join, with_sql}
use ngx_dbrelay.Exchange.Requests.{stored}
use ngx_dbrelay.Exchange.RoundTrip.{answered, send_request-answer}
use ngx_dbrelay.Exchange.Queries.{
  conversation, conversation-answer, connector_answer, serve_named-connector_answer,
}
use ngx_dbrelay.Json.{json_new}
use ngx_dbrelay.Pool.{blank}
use ngx_dbrelay.Query.{Peer, serve_named}
use ngx_dbrelay.Tests.QueryRuns.{database}

abbrev parts : List SendResult
parts = accepted 2 ∷ accepted 1 ∷ accepted 1 ∷ []

dbrelay_socket_send_string-Sends_example :
    Sends (codes ":OK\n") (dbrelay_socket_send_string parts (codes ":OK\n"))
    × (Proceeds parts
        → length (codes ":OK\n") ≤ length parts
        → dbrelay_socket_send_string parts (codes ":OK\n") ≡ some (codes ":OK\n", true))
dbrelay_socket_send_string-Sends_example =
    dbrelay_socket_send_string-Sends parts (codes ":OK\n")
      (omega arith, (omega arith, (omega arith, tt)))

-- A line in three calls of `recv`, with the next one behind it.
abbrev chunks : List Bytes
chunks = codes "UN" ∷ codes "\n:Q" ∷ []

abbrev inbox : Inbox
inbox = record { in_buf = codes ":OK\n:R"; in_ptr = some 4 }

dbrelay_socket_recv_string-Answers_example :
    Answers []
      (next_line (dbrelay_socket_bufsize - 1) (pending inbox ++ concat chunks))
      (dbrelay_socket_recv_string (map received chunks) inbox)
dbrelay_socket_recv_string-Answers_example =
    dbrelay_socket_recv_string-Answers chunks inbox
      (((ground arith, omega arith), ((ground arith, omega arith), tt))) (omega arith) (omega arith)

abbrev fresh : Session ℕ
fresh = record {
  receive_sql = false;
  sb_sql = none;
  timeout_str = [];
  request = dbrelay_alloc_request;
  connected = false;
  db = none;
}

abbrev server_side : Database ℕ
server_side = record {
  api = database;
  connect = λ r. some 4;
  login_error = codes "Login failed.";
  isalive = λ o. true;
}

abbrev statement : Bytes
statement = join (codes "select ?" ∷ []) (codes "from t")

abbrev asked : Request
asked = record dbrelay_alloc_request {
  sql_server = codes "db";
  sql_user = codes "me";
  connection_name = codes "c";
  sql = some statement;
}

serve_line-IsAnswered_example :
    IsAnswered ok (serve_line server_side 9 8 fresh (option_line (codes "SERVER") (codes "db")))
serve_line-IsAnswered_example =
    serve_line-IsAnswered server_side 9 8 fresh _ (option_line (codes "SERVER") (codes "db")) ok
      (process_line-server fresh (codes "db") refl) tt

asked-Sendable : Sendable asked
unfolding dbrelay_alloc_request decimal
asked-Sendable = record {
  server = (ground arith, omega arith);
  database = (tt, omega arith);
  user = (ground arith, omega arith);
  password = (tt, omega arith);
  name = (ground arith, omega arith);
  seconds = 60;
  timeout = refl;
  timeout_digits = omega arith;
  flag_digits = omega arith;
}

abbrev answer : Bytes
answer =
    bare_key (has_flag 0 pp) (codes "data") ++ print_tree (has_flag 0 pp) 0 (arr (table_items []))

no_csv : has_flag 0 embedcsv ≡ false
unfolding has_flag
no_csv = refl

runs :
    dbrelay_exec_query database 9 4 [] (statement ++ newline) 0
    ≡ some (some answer, transact database 0 database.commit_sql 4)
unfolding transact has_flag
runs =
    dbrelay_exec_query-Delivers database 9 4 4 4 [] [] (statement ++ newline) 0 no_csv refl refl
      (omega arith)

send_request-answer_example :
    dbrelay_conn_send_request (connector_channel server_side 9 8) 99 (link_at fresh [] []) asked
    ≡ some (
      answer,
      0,
      link_at
          (answered server_side 9 8 fresh asked
            (statement ++ newline)
            (transact database 0 database.commit_sql 4))
          []
          [],
    )
unfolding dbrelay_alloc_request has_flag contains starts_with with_sql stored print_tree
send_request-answer_example =
    send_request-answer server_side 9 8 99 fresh asked (codes "select ?" ∷ []) (codes "from t") 4
      (transact database 0 database.commit_sql 4) (some answer) refl refl asked-Sendable
      (((ground arith, omega arith), refl), tt) ((ground arith, omega arith), refl) refl runs
      (NoNewline-of answer refl) refl (omega arith)

wait_for_client-first_call_example :
    wait_for_client (pos 0) 5 ((accept_timed_out, 35) ∷ (accept_failed, 36) ∷ [])
    ≡ connected_to accept_failed
wait_for_client-first_call_example =
    wait_for_client-first_call 5 ((accept_timed_out, 35) ∷ (accept_failed, 36) ∷ [])

abbrev connector_peer : Peer ℕ
connector_peer = record {
  rounds = [];
  later = record { now = 100; own_pid = 7; is_alive = λ p. true; temp_name = none; connect = none };
  initialize = some 8;
  send_request = (answer, 0);
  opened = λ h. 4;
}

talked : conversation server_side 9 8 99 (link_at fresh [] []) asked ≡ some (some 8, (answer, 0))
unfolding dbrelay_alloc_request has_flag contains starts_with with_sql stored print_tree decimal
talked = conversation-answer server_side 9 8 99 fresh asked answer 0 _ refl (omega arith) (
    send_request-answer server_side 9 8 99 fresh asked (codes "select ?" ∷ []) (codes "from t") 4
      (transact database 0 database.commit_sql 4) (some answer) refl refl asked-Sendable
      (((ground arith, omega arith), refl), tt) ((ground arith, omega arith), refl) refl runs
      (NoNewline-of answer refl) refl (omega arith))

serve_named-connector_answer_example :
    (serve_named database connector_peer asked (codes "7" ∷ []) blank 3 json_new [] []).answer
    ≡ connector_answer asked (codes "7" ∷ []) json_new false answer
unfolding dbrelay_alloc_request has_flag contains starts_with with_sql stored print_tree decimal
serve_named-connector_answer_example =
    serve_named-connector_answer database connector_peer server_side 9 8 99 fresh asked
      (codes "select ?" ∷ []) (codes "from t") 4 (transact database 0 database.commit_sql 4)
      (some answer) (codes "7" ∷ []) blank 3 json_new [] [] talked refl (omega arith) refl
      asked-Sendable (((ground arith, omega arith), refl), tt) ((ground arith, omega arith), refl)
      refl runs (NoNewline-of answer refl) refl refl (omega arith)
