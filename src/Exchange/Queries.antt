-- ===== src/Exchange/Queries.antt =====
-- A query of src/db.c over a named connection whose connector runs it: the part of
-- `dbrelay_db_run_query` behind the wait, with the client of src/client.c on the connector of
-- src/connector.c.
use ngx_dbrelay.Base.{
  ℕ, ◌+◌, ◌<◌, ◌≡◌, refl, sym, ap, ◌∙◌, Bool, true, false, List, [], ◌∷◌, ◌++◌, Option, none, some,
  Bytes, codes, is_set, contains, drop, starts_with, length, All, arith, append-nil, if◌then◌else◌,
}
use ngx_dbrelay.Base.Int.{ℤ, pos, pos_part}
use ngx_dbrelay.Base.Decimal.{decimal, atol, atol-decimal, is_digit}
use ngx_dbrelay.Request.{Request, dbrelay_copy_string}
use ngx_dbrelay.Json.{Json, json_add_json}
use ngx_dbrelay.Pool.{Connection, Connections, Effect}
use ngx_dbrelay.Results.{DbApi, dbrelay_exec_query}
use ngx_dbrelay.Query.{
  Peer, error_string_sz, dbrelay_append_log_json, dbrelay_db_restart_json, end_answer,
  ask_connector, finish_answer, serve_named,
}
use ngx_dbrelay.Exchange.Statements.{IsText, join}
use ngx_dbrelay.Exchange.Pieces.{EndsPlain}
use ngx_dbrelay.Exchange.Answers.{error_code}
use ngx_dbrelay.Exchange.RoundTrip.{
  cleared, running, database_of, failed, answer_text, send_request-answer,
}
use ngx_dbrelay.Socket.{Inbox, empty_inbox}
use ngx_dbrelay.Connector.{Session, commands, request_settings}
use ngx_dbrelay.Connector.Commands.{process_line-outcome}
use ngx_dbrelay.Connector.Serving.{Action, Database, reads_on, serve_line, answer}
use ngx_dbrelay.Client.{Channel, dbrelay_conn_initialize, dbrelay_conn_send_request}
use ngx_dbrelay.Exchange.{Link, connector_channel}
use ngx_dbrelay.Exchange.Lines.{NoNewline, newline, IsLine, link_at, link_send_line, link_recv_line}
use ngx_dbrelay.Exchange.Options.{NoNewline-append, NoNewline-of, decimal-NoNewline, Sendable}

-- `:HELO` on a channel that sends it.
initialize_step :
    (S : Type 0) (ch : Channel S) (s s1 s2 : S) (out : Bytes) (t : ℤ) (n : ℕ)
    → ch.send_string s (codes ":HELO\n") ≡ (true, s1)
    → ch.recv_string s1 empty_inbox ≡ ((t, codes ":PID " ++ out), (empty_inbox, s2))
    → atol out ≡ pos n
    → dbrelay_conn_initialize ch s ≡ (some (pos n), s2)
unfolding dbrelay_conn_initialize starts_with
initialize_step S ch s s1 s2 out t n e1 e2 e3 =
    ap
      (λ (x : Bool × S). elim x.0 as (λ b. Option ℤ × S) [
        | false ↦ (none, x.1)
        | true ↦ read_pid (ch.recv_string x.1 empty_inbox)
      ])
      e1
    ∙ ap read_pid e2
    ∙ ap (λ z. (some z, s2)) e3
  where
    read_pid : (ℤ × Bytes) × (Inbox × S) → Option ℤ × S
    read_pid read =
        if starts_with (codes ":PID ") read.0.1
        then (some (atol (drop 5 read.0.1)), read.1.1)
        else (none, read.1.1)

-- The process number as `pid_t`, where `atoi` gives no negative number.
abbrev pub helper_pid : Option ℤ → Option ℕ
helper_pid none = none
helper_pid (some z) = some (pos_part z)

module _ {D : Type 0} (database : Database D) (fuel pid : ℕ) where
  serve_line-helo :
      (s : Session D)
      → s.receive_sql ≡ false
      → serve_line database fuel pid s (codes ":HELO\n")
        ≡ some (record {
          actions =
              Action.dbrelay_socket_send_string (codes ":PID " ++ decimal pid ++ codes "\n") ∷ [];
          session = s;
          next = reads_on;
        })
  unfolding serve_line answer commands request_settings starts_with
  serve_line-helo s h = rw (process_line-outcome s (codes "HELO") h, serve_line) refl

  -- A client learns the connector's process number.
  pub initialize-pid :
      (s : Session D)
      → s.receive_sql ≡ false
      → length (decimal pid) < 100
      → dbrelay_conn_initialize (connector_channel database fuel pid) (link_at s [] [])
        ≡ (some (pos pid), link_at s [] [])
  unfolding contains is_digit
  initialize-pid s h hd =
      let line = codes ":PID " ++ decimal pid in
      let is_line : IsLine line = (
        NoNewline-append (codes ":PID ") (decimal pid) (NoNewline-of (codes ":PID ") refl)
            (decimal-NoNewline pid),
        omega arith,
      ) in
      initialize_step (Link D) (connector_channel database fuel pid) (link_at s [] [])
        (link_at s [] (line ++ newline)) (link_at s [] []) (decimal pid ++ newline) (pos 1) pid
        (link_send_line database fuel pid s s (codes ":HELO") []
            (Action.dbrelay_socket_send_string (line ++ newline) ∷ [])
            (NoNewline-of (codes ":HELO") refl, omega arith) (serve_line-helo s h)
          ∙ ap (λ u. (true, link_at s [] u)) (append-nil (line ++ newline)))
        (link_recv_line database fuel pid s line [] [] empty_inbox is_line)
        (atol-decimal pid newline refl)

  -- What a query learns from its connector: the process number, and the text and `*error` of the answer
  -- to the statement of the request.
  abbrev pub conversation : ℕ → Link D → Request → Option (Option ℕ × (Bytes × ℕ))
  conversation n link request =
      let (helper, link1) = dbrelay_conn_initialize (connector_channel database fuel pid) link in
      elim (dbrelay_conn_send_request (connector_channel database fuel pid) n link1 request) [
        | none ↦ none
        | some (ret, have_error, link2) ↦ some (helper_pid helper, (ret, have_error))
      ]

  pub conversation-answer :
      (n : ℕ) (s : Session D) (request : Request) (text : Bytes) (code : ℕ) (after : Link D)
      → s.receive_sql ≡ false
      → length (decimal pid) < 100
      → dbrelay_conn_send_request (connector_channel database fuel pid) n (link_at s [] []) request
        ≡ some (text, code, after)
      → conversation n (link_at s [] []) request ≡ some (some pid, (text, code))
  conversation-answer n s request text code after h hd e =
      ap
        (λ (x : Option ℤ × Link D).
          reply (helper_pid x.0)
            (dbrelay_conn_send_request (connector_channel database fuel pid) n x.1 request))
        (initialize-pid s h hd)
      ∙ ap (reply (some pid)) e
    where
      reply : Option ℕ → Option (Bytes × ℕ × Link D) → Option (Option ℕ × (Bytes × ℕ))
      reply helper o = elim o [
        | none ↦ none
        | some (ret, have_error, link2) ↦ some (helper, (ret, have_error))
      ]

-- The answer to a query by what its connector says: the text behind the document so far, or the error
-- in its log.
abbrev pub connector_answer : Request → List Bytes → Json → Bool → Bytes → Bytes
connector_answer request given j failed text =
    let answered =
      if failed
      then dbrelay_db_restart_json request j
      else json_add_json (json_add_json j (codes ", ")) text in
    let message = if failed then dbrelay_copy_string text error_string_sz else [] in
    end_answer request (dbrelay_append_log_json answered request given message)

pair_inj : (x y : Option ℕ × (Bytes × ℕ)) → some x ≡ some y → (x.0 ≡ y.0) × (x.1 ≡ y.1)
pair_inj x y e =
    let same : x ≡ y =
      ap
        (λ (o : Option (Option ℕ × (Bytes × ℕ))). elim o as (λ z. Option ℕ × (Bytes × ℕ)) [
          | none ↦ x
          | some z ↦ z
        ])
        e in
    (ap (λ z. z.0) same, ap (λ z. z.1) same)

ask_connector-answer :
    (request : Request) (j : Json) (failed : Bool) (text : Bytes)
    → is_set text ≡ true
    → ask_connector request (text, error_code failed) j ≡ (
      (if failed
          then dbrelay_db_restart_json request j
          else json_add_json (json_add_json j (codes ", ")) text),
      (if failed then dbrelay_copy_string text error_string_sz else []),
    )
unfolding ask_connector
ask_connector-answer request j true text h = refl
ask_connector-answer request j false text h = rw (h, ask_connector) refl

serve_named-answer :
    {E : Type 0} (api : DbApi E) (peer : Peer E) (request : Request) (given : List Bytes)
    (conn : Connection) (socket helper : ℕ) (j : Json) (conns : Connections) (effects : List Effect)
    (failed : Bool) (text : Bytes)
    → peer.initialize ≡ some helper
    → peer.send_request ≡ (text, error_code failed)
    → is_set text ≡ true
    → (serve_named api peer request given conn socket j conns effects).answer
      ≡ connector_answer request given j failed text
unfolding serve_named finish_answer
serve_named-answer api peer request given conn socket helper j conns effects failed text e1 e2 h =
    rw (e1, serve_named)
      (ap (λ (asked : Bytes × ℕ). finished (ask_connector request asked j)) e2
        ∙ ap finished (ask_connector-answer request j failed text h))
  where
    finished : Json × Bytes → Bytes
    finished x = end_answer request (dbrelay_append_log_json x.0 request given x.1)

-- A query over a named connection whose peer is the client on a connector: the answer has the text of
-- the answer of the connector's database, or its error in the log, to exactly the statement `sql` of the
-- request, which keeps its placeholders whatever parameters are given, with a newline behind it. The
-- request's options and statement can be sent, the database's text is one line, not empty, that does
-- not end like a mark, and there is a round of the client's loop for each byte and four.
pub serve_named-connector_answer :
    {E D : Type 0} (api : DbApi E) (peer : Peer E) (database : Database D) (fuel pid n : ℕ)
    (s : Session D) (request : Request) (ls : List Bytes) (last : Bytes) (d d' : D)
    (result : Option Bytes) (given : List Bytes) (conn : Connection) (socket : ℕ) (j : Json)
    (conns : Connections) (effects : List Effect)
    → conversation database fuel pid n (link_at s [] []) request
      ≡ some (peer.initialize, peer.send_request)
    → s.receive_sql ≡ false
    → length (decimal pid) < 100
    → request.sql ≡ some (join ls last)
    → Sendable request
    → All IsText ls
    → IsText last
    → database_of database (cleared (running s request (join ls last ++ newline))) ≡ some d
    → dbrelay_exec_query database.api fuel d request.sql_database
        (join ls last ++ newline)
        request.flags
      ≡ some (result, d')
    → NoNewline (answer_text database d' result)
    → EndsPlain (answer_text database d' result)
    → is_set (answer_text database d' result) ≡ true
    → length (answer_text database d' result) + 3 < n
    → (serve_named api peer request given conn socket j conns effects).answer
      ≡ connector_answer request given j (failed result) (answer_text database d' result)
serve_named-connector_answer api peer database fuel pid n s request ls last d d' result given conn
      socket j conns effects talk hs hd hq sendable hls hl ho he hn hp ht hf =
    let text = answer_text database d' result in
    let sent =
      send_request-answer database fuel pid n s request ls last d d' result hs hq sendable hls hl ho
        he hn hp hf in
    let said =
      conversation-answer database fuel pid n s request text (error_code (failed result)) _ hs hd
        sent in
    let both =
      pair_inj (peer.initialize, peer.send_request) (some pid, (text, error_code (failed result)))
        (sym talk ∙ said) in
    serve_named-answer api peer request given conn socket pid j conns effects (failed result) text
      both.0 both.1 ht
