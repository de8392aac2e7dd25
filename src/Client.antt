-- ===== src/Client.antt =====
-- src/client.c: the side of the connection to a connector that the query runs. The socket is a
-- parameter, `Channel`: the sending and the receiving of src/socket.c on a state `S`.
pub mod Replies
use ngx_dbrelay.Base.{
  ℕ, zero, suc, Bool, true, false, ◌&&◌, ◌||◌, List, [], ◌∷◌, ◌++◌, Option, none, some, Bytes,
  codes, drop, is_set, starts_with, str_eq, if◌then◌else◌,
}
use ngx_dbrelay.Base.Int.{ℤ, pos, negsuc, ltb_ℤ}
use ngx_dbrelay.Base.Decimal.{decimal, decimal_ℤ, atol}
use ngx_dbrelay.Request.{Request}
use ngx_dbrelay.StringBuf.{StringBuf, sb_new, sb_put, sb_to_char}
use ngx_dbrelay.Socket.{Inbox, empty_inbox}
use ngx_dbrelay.Connector.{trim_newline}

-- `dbrelay_socket_send_string`, true for 0, and `dbrelay_socket_recv_string`: its result, the caller's
-- `out_buf`, and the caller's `in_buf` and `in_ptr`.
pub record Channel (S : Type 0) : Type 0 where
  pub send_string : S → Bytes → Bool × S
  pub recv_string : S → Inbox → (ℤ × Bytes) × (Inbox × S)

-- The flags of the loop over the answer, its text and `*error`.
pub record Reading : Type 0 where
  pub results : Bool
  pub errors : Bool
  pub sb_rslt : StringBuf
  pub error : ℕ

unfoldable pub socket_error_text : Bytes
socket_error_text = codes "Internal Error: connector terminated connection unexpectedly."

unfoldable pub dbrelay_conn_socket_error : Bytes
dbrelay_conn_socket_error = sb_to_char (sb_put (sb_new none) socket_error_text)

-- A line that ends an answer.
unfoldable pub is_last : Bytes → Bool
is_last out_buf =
    str_eq out_buf (codes ":BYE") || str_eq out_buf (codes ":OK") || str_eq out_buf (codes ":ERR")

-- Any other line of an answer.
unfoldable pub read_line : Reading → Bytes → Reading
read_line r out_buf =
    let results = if str_eq out_buf (codes ":RESULTS END") then false else r.results in
    let errors = if str_eq out_buf (codes ":ERROR END") then false else r.errors in
    let sb_rslt = if results || errors then sb_put r.sb_rslt out_buf else r.sb_rslt in
    let failed = str_eq out_buf (codes ":ERROR BEGIN") in
    record {
      results = if str_eq out_buf (codes ":RESULTS BEGIN") then true else results;
      errors = if failed then true else errors;
      sb_rslt = sb_rslt;
      error = if failed then 1 else r.error;
    }

-- The value of each option that is set, in order.
unfoldable pub options : Request → List (Bytes × Bytes)
options r =
    (codes "SERVER", r.sql_server)
      ∷ (codes "DATABASE", r.sql_database)
      ∷ (codes "USER", r.sql_user)
      ∷ (if is_set r.sql_password then (codes "PASSWORD", r.sql_password) ∷ [] else [])
    ++ (codes "TIMEOUT", decimal_ℤ r.connection_timeout)
      ∷ (codes "FLAGS", decimal r.flags)
      ∷ (codes "APPNAME", r.connection_name)
      ∷ []

-- `:SET %s %s`
unfoldable pub option_line : Bytes → Bytes → Bytes
option_line option value = codes ":SET " ++ option ++ codes " " ++ value ++ codes "\n"

-- The strings in which the statement is sent.
unfoldable pub statement_strings : Bytes → List Bytes
statement_strings sql = codes ":SQL BEGIN\n" ∷ sql ∷ codes "\n" ∷ codes ":SQL END\n" ∷ []

module _ {S : Type 0} (ch : Channel S) where
  -- A string that is sent, and one line of an answer that is read into fresh arrays: `out_buf`.
  unfoldable pub exchange : S → Bytes → Bytes × S
  exchange s str =
      let read = ch.recv_string ((ch.send_string s str).1) empty_inbox in (read.0.1, read.1.1)

  unfoldable pub dbrelay_conn_kill : S → S
  dbrelay_conn_kill s = (exchange s (codes ":DIE\n")).1

  unfoldable pub dbrelay_conn_close : S → S
  dbrelay_conn_close s = (exchange s (codes ":QUIT\n")).1

  -- The connector's process, `none` for -1. Newlines at the end do not matter to `atoi`.
  unfoldable pub dbrelay_conn_initialize : S → Option ℤ × S
  dbrelay_conn_initialize s =
      let (went, s1) = ch.send_string s (codes ":HELO\n") in
      elim went [
        | false ↦ (none, s1)
        | true ↦
            let read = ch.recv_string s1 empty_inbox in
            if starts_with (codes ":PID ") read.0.1
            then (some (atol (drop 5 read.0.1)), read.1.1)
            else (none, read.1.1)
      ]

  unfoldable pub dbrelay_conn_set_option : S → Bytes → Bytes → Bool × S
  dbrelay_conn_set_option s option value =
      let (went, s1) = ch.send_string s (option_line option value) in
      elim went [ false ↦ (false, s1) | true ↦ (true, (ch.recv_string s1 empty_inbox).1.1) ]

  -- The options one by one, up to the first that cannot be sent.
  unfoldable pub set_options : S → List (Bytes × Bytes) → Bool × S
  set_options s [] = (true, s)
  set_options s ((option, value) ∷ rest) =
      let (went, s1) = dbrelay_conn_set_option s option value in
      elim went [ false ↦ (false, s1) | true ↦ set_options s1 rest ]

  -- Strings one by one, up to the first that cannot be sent.
  unfoldable pub send_strings : S → List Bytes → Bool × S
  send_strings s [] = (true, s)
  send_strings s (str ∷ rest) =
      let (went, s1) = ch.send_string s str in
      elim went [ false ↦ (false, s1) | true ↦ send_strings s1 rest ]

  -- What the loop over the answer ends with: the text, `*error` and the socket.
  unfoldable pub end_reading : ℤ → Reading → S → Bytes × ℕ × S
  end_reading t r s = elim t [
    | pos n ↦ (sb_to_char r.sb_rslt, r.error, s)
    | negsuc zero ↦ (dbrelay_conn_socket_error, 2, s)
    | negsuc (suc n) ↦ (sb_to_char r.sb_rslt, r.error, s)
  ]

  -- `while ((t=dbrelay_socket_recv_string(...))>0)`, on fuel.
  unfoldable pub reply_loop : ℕ → Reading → Inbox → S → Option (Bytes × ℕ × S)
  reply_loop zero r inbox s = none
  reply_loop (suc fuel) r inbox s =
      let ((t, out), (inbox', s')) = ch.recv_string s inbox in
      elim (ltb_ℤ (pos 0) t) [
        | false ↦ some (end_reading t r s')
        | true ↦ elim (is_last (trim_newline out)) [
          | true ↦ some (end_reading t r s')
          | false ↦ reply_loop fuel (read_line r (trim_newline out)) inbox' s'
        ]
      ]

  -- The part from `:RUN` on; `*error` is 0 from here.
  unfoldable pub run_request : ℕ → S → Option (Bytes × ℕ × S)
  run_request fuel s =
      let asked = ch.recv_string s empty_inbox in
      let (went, s1) = ch.send_string asked.1.1 (codes ":RUN\n") in
      elim went [
        | false ↦ some (dbrelay_conn_socket_error, 0, s1)
        | true ↦
            reply_loop fuel
              (record { results = false; errors = false; sb_rslt = sb_new none; error = 0 })
              asked.1.0 s1
      ]

  -- The statement, and what follows it.
  unfoldable pub send_statement : ℕ → S → Bytes → Option (Bytes × ℕ × S)
  send_statement fuel s sql =
      let (went, s1) = send_strings s (statement_strings sql) in
      elim went [ false ↦ some (dbrelay_conn_socket_error, 2, s1) | true ↦ run_request fuel s1 ]

  -- `dbrelay_conn_send_request`: the text, `*error` and the socket; `none` where the fuel runs out, or
  -- where a null pointer would be sent for the statement.
  unfoldable pub dbrelay_conn_send_request : ℕ → S → Request → Option (Bytes × ℕ × S)
  dbrelay_conn_send_request fuel s request =
      let (went, s1) = set_options s (options request) in
      elim went [
        | false ↦ some (dbrelay_conn_socket_error, 2, s1)
        | true ↦ elim request.sql [ none ↦ none | some sql ↦ send_statement fuel s1 sql ]
      ]
