-- ===== src/Exchange/RoundTrip.antt =====
-- A whole request: `dbrelay_conn_send_request` of src/client.c against the connector of
-- src/connector.c.
use ngx_dbrelay.Base.{
  ℕ, ◌+◌, ◌<◌, ◌≡◌, refl, sym, ap, ◌∙◌, Bool, true, false, List, [], ◌∷◌, ◌++◌, Option, none, some,
  Bytes, codes, contains, length, All, arith, append_assoc, if◌then◌else◌,
}
use ngx_dbrelay.Base.Int.{ℤ, pos}
use ngx_dbrelay.Request.{Request, dbrelay_hard_timeout}
use ngx_dbrelay.Results.{dbrelay_exec_query}
use ngx_dbrelay.Socket.{empty_inbox}
use ngx_dbrelay.Connector.{Session, with_request}
use ngx_dbrelay.Connector.Statements.{process_line-run}
use ngx_dbrelay.Connector.Serving.{
  Action, Database, Turn, timer_if, send_ok, answer_lines, send_answer, refuse_login, run_query,
  run_line, serve_line, answer,
}
use ngx_dbrelay.Client.{
  Channel, options, statement_strings, set_options, send_strings, reply_loop, run_request,
  dbrelay_conn_socket_error, send_statement, dbrelay_conn_send_request,
}
use ngx_dbrelay.Exchange.{Link, connector_channel, sent_bytes, link_send}
use ngx_dbrelay.Exchange.Lines.{NoNewline, newline, link_at, link_send_line, link_recv_line}
use ngx_dbrelay.Exchange.Options.{Sendable, NoNewline-of, sent_bytes-timer_if}
use ngx_dbrelay.Exchange.Requests.{stored, set_options-stored}
use ngx_dbrelay.Exchange.Statements.{IsText, join, with_sql, send_strings-with_sql}
use ngx_dbrelay.Exchange.Pieces.{EndsPlain}
use ngx_dbrelay.Exchange.Answers.{mark, error_code, closing, before_answer, reads_answer}

sent_bytes-append : (xs ys : List Action) → sent_bytes (xs ++ ys) ≡ sent_bytes xs ++ sent_bytes ys
sent_bytes-append [] ys = refl
sent_bytes-append (Action.dbrelay_socket_send_string str ∷ xs) ys =
    ap (◌++◌ str) (sent_bytes-append xs ys) ∙ sym (append_assoc str (sent_bytes xs) (sent_bytes ys))
sent_bytes-append (Action.set_timer secs ∷ xs) ys = sent_bytes-append xs ys
sent_bytes-append (Action.close ∷ xs) ys = sent_bytes-append xs ys
sent_bytes-append (Action.exit ∷ xs) ys = sent_bytes-append xs ys

-- The session that runs the statement.
abbrev pub cleared : {D : Type 0} → Session D → Session D
cleared s = with_request s (record s.request { error_message = [] })

abbrev pub running : {D : Type 0} → Session D → Request → Bytes → Session D
running s r sql = with_sql (stored s r) sql

-- Whether a statement failed.
abbrev pub failed : Option Bytes → Bool
failed none = true
failed (some text) = false

module _ {D : Type 0} (database : Database D) where
  -- The database that a session runs its statements on: the open one, or a new one.
  abbrev pub database_of : Session D → Option D
  database_of s = elim s.connected [ true ↦ s.db | false ↦ database.connect s.request ]

  -- The text of an answer.
  abbrev pub answer_text : D → Option Bytes → Bytes
  answer_text d none = database.api.error d
  answer_text d (some text) = text

  answer_lines-bytes :
      (fuel : ℕ) (d : D) (result : Option Bytes)
      → sent_bytes (answer_lines database fuel d result) ++ codes ":OK\n"
        ≡ mark (failed result) (codes "BEGIN")
          ++ b'\n' ∷ (answer_text d result ++ b'\n' ∷ closing (failed result))
  unfolding answer_lines
  answer_lines-bytes fuel d none =
      ap (◌++◌ (codes ":ERROR BEGIN\n"))
        (append_assoc (database.api.error d) (codes "\n:ERROR END\n") (codes ":OK\n"))
  answer_lines-bytes fuel d (some text) =
      ap (◌++◌ (codes ":RESULTS BEGIN\n"))
        (append_assoc text (codes "\n:RESULTS END\n") (codes ":OK\n"))

  -- The bytes of an answer.
  answer_bytes :
      (fuel : ℕ) (timeout secs : ℤ) (d : D) (result : Option Bytes)
      → sent_bytes (
          timer_if timeout secs
          ++ (answer_lines database fuel d result ++ send_ok ∷ timer_if timeout timeout))
        ≡ mark (failed result) (codes "BEGIN")
          ++ b'\n' ∷ (answer_text d result ++ b'\n' ∷ closing (failed result))
  answer_bytes fuel timeout secs d result =
      let lines = answer_lines database fuel d result in
      let last = send_ok ∷ timer_if timeout timeout in
      sent_bytes-append (timer_if timeout secs) (lines ++ last)
      ∙ ap (λ t. t ++ sent_bytes (lines ++ last)) (sent_bytes-timer_if timeout secs)
      ∙ sent_bytes-append lines last
      ∙ ap (λ t. sent_bytes lines ++ (codes ":OK\n" ++ t)) (sent_bytes-timer_if timeout timeout)
      ∙ answer_lines-bytes fuel d result

  module _ (fuel pid : ℕ) where
    -- A session behind a statement runs it.
    run_line-run_query :
        (s : Session D) (d : D)
        → database_of (cleared s) ≡ some d
        → run_line database fuel s ≡ run_query database fuel (cleared s) d
    unfolding run_line
    run_line-run_query s d e = go s.connected s.db (database.connect (cleared s).request) e
      where
        go :
            (b : Bool) (db new : Option D)
            → (elim b [ true ↦ db | false ↦ new ]) ≡ some d
            → (if b
                then (elim db [ none ↦ none | some x ↦ run_query database fuel (cleared s) x ])
                else elim new [
                  | none ↦ some (refuse_login database fuel (cleared s))
                  | some x ↦ run_query database fuel (cleared s) x
                ])
              ≡ run_query database fuel (cleared s) d
        go true db new h =
            ap
              (λ (o : Option D). elim o as (λ x. Option (Turn D)) [
                | none ↦ none
                | some x ↦ run_query database fuel (cleared s) x
              ])
              h
        go false db new h =
            ap
              (λ (o : Option D). elim o as (λ x. Option (Turn D)) [
                | none ↦ some (refuse_login database fuel (cleared s))
                | some x ↦ run_query database fuel (cleared s) x
              ])
              h

    -- What the connector answers to `:RUN` behind a request whose statement runs on `d`.
    serve_line-run :
        (s : Session D) (r : Request) (sql : Bytes) (d d' : D) (result : Option Bytes)
        → database_of (cleared (running s r sql)) ≡ some d
        → dbrelay_exec_query database.api fuel d r.sql_database sql r.flags ≡ some (result, d')
        → serve_line database fuel pid (running s r sql) (codes ":RUN\n")
          ≡ send_answer database fuel (cleared (running s r sql)) (some (result, d'))
    unfolding serve_line answer with_sql stored run_query
    serve_line-run s r sql d d' result ho he =
        rw (process_line-run (running s r sql) refl, serve_line)
          (run_line-run_query (running s r sql) d ho)
        ∙ ap (send_answer database fuel (cleared (running s r sql))) he

    -- The session behind an answer.
    abbrev pub answered : Session D → Request → Bytes → D → Session D
    answered s r sql d = record (cleared (running s r sql)) { connected = true; db = some d }

    link_send-run :
        (s : Session D) (r : Request) (sql : Bytes) (d d' : D) (result : Option Bytes)
        → database_of (cleared (running s r sql)) ≡ some d
        → dbrelay_exec_query database.api fuel d r.sql_database sql r.flags ≡ some (result, d')
        → link_send database fuel pid (link_at (running s r sql) [] []) (codes ":RUN\n") ≡ (
          true,
          link_at (answered s r sql d') [] (
              mark (failed result) (codes "BEGIN")
              ++ b'\n' ∷ (answer_text d' result ++ b'\n' ∷ closing (failed result))),
        )
    unfolding contains send_answer
    link_send-run s r sql d d' result ho he =
        let timeout = (cleared (running s r sql)).request.connection_timeout in
        link_send_line database fuel pid (running s r sql) (answered s r sql d') (codes ":RUN") []
          (timer_if timeout (pos dbrelay_hard_timeout)
            ++ (answer_lines database fuel d' result ++ send_ok ∷ timer_if timeout timeout))
          (NoNewline-of (codes ":RUN") refl, omega arith) (serve_line-run s r sql d d' result ho he)
        ∙ ap (λ u. (true, link_at (answered s r sql d') [] u))
            (answer_bytes fuel timeout (pos dbrelay_hard_timeout) d' result)

-- `:RUN` and the loop behind it, on a channel that sends it.
run_request_step :
    (S : Type 0) (ch : Channel S) (n : ℕ) (s s1 : S)
    → ch.send_string (ch.recv_string s empty_inbox).1.1 (codes ":RUN\n") ≡ (true, s1)
    → run_request ch n s ≡ reply_loop ch n before_answer (ch.recv_string s empty_inbox).1.0 s1
unfolding run_request
run_request_step S ch n s s1 e =
    ap
      (λ (x : Bool × S). elim x.0 as (λ b. Option (Bytes × ℕ × S)) [
        | false ↦ some (dbrelay_conn_socket_error, 0, x.1)
        | true ↦ reply_loop ch n before_answer (ch.recv_string s empty_inbox).1.0 x.1
      ])
      e

-- A request whose options and statement are sent.
send_request_step :
    (S : Type 0) (ch : Channel S) (n : ℕ) (s s1 s2 : S) (r : Request) (sql : Bytes)
    → r.sql ≡ some sql
    → set_options ch s (options r) ≡ (true, s1)
    → send_strings ch s1 (statement_strings sql) ≡ (true, s2)
    → dbrelay_conn_send_request ch n s r ≡ run_request ch n s2
unfolding dbrelay_conn_send_request send_statement
send_request_step S ch n s s1 s2 r sql e0 e1 e2 =
    ap
      (λ (x : Bool × S). elim x.0 as (λ b. Option (Bytes × ℕ × S)) [
        | false ↦ some (dbrelay_conn_socket_error, 2, x.1)
        | true ↦ elim r.sql [ none ↦ none | some text ↦ send_statement ch n x.1 text ]
      ])
      e1
    ∙ ap
        (λ (o : Option Bytes). elim o as (λ b. Option (Bytes × ℕ × S)) [
          | none ↦ none
          | some text ↦ send_statement ch n s1 text
        ])
        e0
    ∙ ap go e2
  where
    go : Bool × S → Option (Bytes × ℕ × S)
    go x = elim x.0 [
      | false ↦ some (dbrelay_conn_socket_error, 2, x.1)
      | true ↦ run_request ch n x.1
    ]

module _ {D : Type 0} (database : Database D) (fuel pid : ℕ) where
  -- A request with a statement, whose options and statement can be sent, on a connector whose database runs the
  -- statement: the client gets exactly the text of the answer, or with `*error` 1 exactly that of the
  -- error, if that is one line whose last byte is not that of a mark; enough rounds of its loop are one
  -- for each byte and four. The connector ran the statement of the request, with a newline behind it,
  -- under the request's database and flags, keeps the database open, and waits for the next request.
  pub send_request-answer :
      (n : ℕ) (s : Session D) (r : Request) (ls : List Bytes) (last : Bytes) (d d' : D)
      (result : Option Bytes)
      → s.receive_sql ≡ false
      → r.sql ≡ some (join ls last)
      → Sendable r
      → All IsText ls
      → IsText last
      → database_of database (cleared (running s r (join ls last ++ newline))) ≡ some d
      → dbrelay_exec_query database.api fuel d r.sql_database (join ls last ++ newline) r.flags
        ≡ some (result, d')
      → NoNewline (answer_text database d' result)
      → EndsPlain (answer_text database d' result)
      → length (answer_text database d' result) + 3 < n
      → dbrelay_conn_send_request (connector_channel database fuel pid) n (link_at s [] []) r
        ≡ some (
          answer_text database d' result,
          error_code (failed result),
          link_at (answered database fuel pid s r (join ls last ++ newline) d') [] [],
        )
  unfolding with_sql stored contains
  send_request-answer n s r ls last d d' result hs hq sendable hls hl ho he hn hp hf =
      let sql = join ls last ++ newline in
      let ch = connector_channel database fuel pid in
      let t = running s r sql in
      let done = answered database fuel pid s r sql d' in
      let bytes =
        mark (failed result) (codes "BEGIN")
        ++ b'\n' ∷ (answer_text database d' result ++ b'\n' ∷ closing (failed result)) in
      let ok_read =
        link_recv_line database fuel pid t (codes ":OK") [] [] empty_inbox
          (NoNewline-of (codes ":OK") refl, omega arith) in
      send_request_step (Link D) ch n (link_at s [] []) (link_at (stored s r) [] [])
        (link_at t [] (codes ":OK\n")) r (join ls last) hq
        (set_options-stored database fuel pid s r hs sendable)
        (send_strings-with_sql database fuel pid (stored s r) ls last hs hls hl)
      ∙ run_request_step (Link D) ch n (link_at t [] (codes ":OK\n")) (link_at done [] bytes) (
          ap (λ x. link_send database fuel pid x.1.1 (codes ":RUN\n")) ok_read
          ∙ link_send-run database fuel pid s r sql d d' result ho he)
      ∙ ap (λ x. reply_loop ch n before_answer x.1.0 (link_at done [] bytes)) ok_read
      ∙ reads_answer database fuel pid empty_inbox done n (failed result)
          (answer_text database d' result) hn hp hf
