-- ===== src/Connector/Serving.antt =====
-- `main` of src/connector.c: what it does for a line of its client, for a client, and while it waits
-- for the next one.
use ngx_dbrelay.Base.{
  ℕ, ◌+◌, Bool, true, false, not, ◌&&◌, List, [], ◌∷◌, ◌++◌, Option, none, some, Bytes, codes, ltb,
  if◌then◌else◌,
}
use ngx_dbrelay.Base.Int.{ℤ, pos, ltb_ℤ, ◌+ℤ◌}
use ngx_dbrelay.Base.Decimal.{decimal}
use ngx_dbrelay.Request.{Request, dbrelay_hard_timeout}
use ngx_dbrelay.Results.{DbApi, is_zero_ℤ, dbrelay_exec_query}
use ngx_dbrelay.Connector.{
  Reply, ok, quit, err, die, run, cont, helo, Session, process_line, with_request,
}

-- The calls that leave the process; the log is left out.
pub data Action : Type 0 where
  dbrelay_socket_send_string : Bytes → Action
  set_timer : ℤ → Action
  close : Action
  exit : Action

-- What `main` does next: it reads the next line, waits for the next client, or has ended.
pub data Next : Type 0 where
  reads_on waits ended : Next

-- The functions of `dbrelay_dbapi_t` that `main` calls itself; `login_error` is `error` of a null
-- pointer.
pub record Database (D : Type 0) : Type 0 where
  pub api : DbApi D
  pub connect : Request → Option D
  pub login_error : Bytes
  pub isalive : Option D → Bool

-- Text between two marks.
abbrev pub framed : Bytes → Bytes → Bytes → List Action
framed begin text end =
    dbrelay_socket_send_string begin
    ∷ dbrelay_socket_send_string text
    ∷ dbrelay_socket_send_string (codes "\n")
    ∷ dbrelay_socket_send_string end
    ∷ []

abbrev pub send_ok : Action
send_ok = dbrelay_socket_send_string (codes ":OK\n")

abbrev pub error_lines : Bytes → List Action
error_lines text = framed (codes ":ERROR BEGIN\n") text (codes ":ERROR END\n")

abbrev pub result_lines : Bytes → List Action
result_lines text = framed (codes ":RESULTS BEGIN\n") text (codes ":RESULTS END\n")

-- `if (request.connection_timeout) set_timer(secs);`
unfoldable pub timer_if : ℤ → ℤ → List Action
timer_if timeout secs = if is_zero_ℤ timeout then [] else set_timer secs ∷ []

-- What a line leads to.
pub record Turn (D : Type 0) : Type 0 where
  pub actions : List Action
  pub session : Session D
  pub next : Next

module _ {D : Type 0} (database : Database D) (fuel : ℕ) where
  -- The lines of an answer.
  unfoldable pub answer_lines : D → Option Bytes → List Action
  answer_lines d none = error_lines (database.api.error d)
  answer_lines d (some results) = result_lines results

  -- What follows `dbrelay_exec_query`.
  unfoldable pub send_answer : Session D → Option (Option Bytes × D) → Option (Turn D)
  send_answer s none = none
  send_answer s (some (results, d)) =
      let timeout = s.request.connection_timeout in
      some (record {
        actions =
            timer_if timeout (pos dbrelay_hard_timeout)
            ++ (answer_lines d results ++ send_ok ∷ timer_if timeout timeout);
        session = record s { connected = true; db = some d };
        next = reads_on;
      })

  -- The query of `:RUN` on an open database; a null pointer for a statement is `none`.
  unfoldable pub run_query : Session D → D → Option (Turn D)
  run_query s d = elim s.request.sql [
    | none ↦ none
    | some sql ↦
        send_answer s
          (dbrelay_exec_query database.api fuel d s.request.sql_database sql s.request.flags)
  ]

  -- The process ends if it cannot log in.
  unfoldable pub refuse_login : Session D → Turn D
  refuse_login s = record {
    actions = error_lines database.login_error ++ send_ok ∷ [];
    session = record s { connected = true; db = none };
    next = ended;
  }

  -- `:RUN`
  unfoldable pub run_line : Session D → Option (Turn D)
  run_line s =
      let cleared = with_request s (record s.request { error_message = [] }) in
      if cleared.connected
      then (elim cleared.db [ none ↦ none | some d ↦ run_query cleared d ])
      else elim (database.connect cleared.request) [
        | none ↦ some (refuse_login cleared)
        | some d ↦ run_query cleared d
      ]

  -- The answer to a line, for a process with number `pid`.
  unfoldable pub answer : ℕ → Reply → Session D → Option (Turn D)
  answer pid helo s =
      let pid_line = codes ":PID " ++ decimal pid ++ codes "\n" in
      some (record {
        actions = dbrelay_socket_send_string pid_line ∷ [];
        session = s;
        next = reads_on;
      })
  answer pid quit s = some (record {
    actions = dbrelay_socket_send_string (codes ":BYE\n") ∷ close ∷ [];
    session = s;
    next = waits;
  })
  answer pid run s = run_line s
  answer pid die s = some (record {
    actions = dbrelay_socket_send_string (codes ":BYE\n") ∷ close ∷ exit ∷ [];
    session = s;
    next = ended;
  })
  answer pid ok s =
      let timeout = s.request.connection_timeout in
      some (record { actions = send_ok ∷ timer_if timeout timeout; session = s; next = reads_on })
  answer pid cont s = some (record { actions = []; session = s; next = reads_on })
  answer pid err s = some (record {
    actions = dbrelay_socket_send_string (codes ":ERR\n") ∷ [];
    session = s;
    next = reads_on;
  })

  -- One round of `while (!done && dbrelay_socket_recv_string(...)>0)`.
  unfoldable pub serve_line : ℕ → Session D → Bytes → Option (Turn D)
  serve_line pid s line = elim (process_line s line) [
    | none ↦ none
    | some (reply, s') ↦ answer pid reply s'
  ]

  -- What a client leaves behind.
  unfoldable pub end_client : Session D → Session D
  end_client s = record s {
    receive_sql = false;
    connected = if database.isalive s.db then s.connected else false;
  }

  -- More actions in front of a turn's.
  abbrev pub prepend : List Action → Option (Turn D) → Option (Turn D)
  prepend actions none = none
  prepend actions (some turn) = some (record turn { actions = actions ++ turn.actions })

  -- A client: its lines, up to the one that makes it leave or to the end of its connection.
  unfoldable pub serve_client : ℕ → Session D → List Bytes → Option (Turn D)
  serve_client pid s [] = some (record { actions = []; session = end_client s; next = waits })
  serve_client pid s (line ∷ lines) = elim (serve_line pid s line) [
    | none ↦ none
    | some turn ↦ elim turn.next [
      | reads_on ↦ prepend turn.actions (serve_client pid turn.session lines)
      | waits ↦ some (record turn { session = end_client turn.session })
      | ended ↦ some turn
    ]
  ]

-- What `dbrelay_socket_accept` returns: -1 as an unsigned number, 0, or a socket.
pub data Accepted : Type 0 where
  accept_failed accept_timed_out accepted : Accepted

abbrev pub is_failed : Accepted → Bool
is_failed accept_failed = true
is_failed accept_timed_out = false
is_failed accepted = false

-- How the wait for a client ends: with what is taken for a socket, with the end of the process, or
-- not within the calls at hand.
pub data Wait : Type 0 where
  connected_to : Accepted → Wait
  exits : Wait
  still : Wait

-- `do ... while (s2==0)`, on what the calls return and the clock behind each.
unfoldable pub accept_loop : ℤ → ℕ → ℕ → List (Accepted × ℕ) → Wait
accept_loop timeout last_accessed tries [] = still
accept_loop timeout last_accessed tries ((s2, now) ∷ rest) =
    let failed = is_failed s2 in
    let tries' = if failed then tries + 1 else tries in
    let late = not (is_zero_ℤ timeout) && ltb_ℤ (timeout +ℤ pos last_accessed) (pos now) in
    let more = accept_loop timeout last_accessed tries' rest in
    if failed && ltb 3 tries' then exits else if late then exits else elim s2 [
      | accept_timed_out ↦ more
      | accept_failed ↦ connected_to accept_failed
      | accepted ↦ connected_to accepted
    ]

unfoldable pub wait_for_client : ℤ → ℕ → List (Accepted × ℕ) → Wait
wait_for_client timeout last_accessed calls = accept_loop timeout last_accessed 0 calls
