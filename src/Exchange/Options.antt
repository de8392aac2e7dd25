-- ===== src/Exchange/Options.antt =====
-- The options of a request, from `dbrelay_conn_send_request` of src/client.c into the session of
-- src/connector.c.
use ngx_dbrelay.Base.{
  ℕ, ◌<◌, ◌≡◌, refl, ap, ◌∙◌, Bool, true, false, [], ◌∷◌, ◌++◌, some, Bytes, codes, contains,
  length, Bool-cases, inl, inr, All, arith,
}
use ngx_dbrelay.Base.Int.{ℤ, pos}
use ngx_dbrelay.Base.Decimal.{decimal, decimal-All, is_digit}
use ngx_dbrelay.Request.{Request, dbrelay_copy_string, dbrelay_obj_sz, dbrelay_name_sz}
use ngx_dbrelay.Request.Copy.{dbrelay_copy_string_lem}
use ngx_dbrelay.Connector.{Session, ok, process_line, timeout_str_sz, flag_str_sz}
use ngx_dbrelay.Connector.Serving.{Database, timer_if, send_ok, reads_on, serve_line, answer}
use ngx_dbrelay.Results.{is_zero_ℤ}
use ngx_dbrelay.Socket.{empty_inbox}
use ngx_dbrelay.Client.{Channel, option_line, dbrelay_conn_set_option}
use ngx_dbrelay.Exchange.{Link, link_recv, connector_channel, sent_bytes}
use ngx_dbrelay.Exchange.Lines.{NoNewline, IsLine, newline, link_at, link_send_line, link_recv_line}

pub NoNewline-append : (a b : Bytes) → NoNewline a → NoNewline b → NoNewline (a ++ b)
NoNewline-append [] b ha hb = hb
NoNewline-append (c ∷ a) b ha hb = (ha.0, NoNewline-append a b ha.1 hb)

pub NoNewline-of : (s : Bytes) → contains b'\n' s ≡ false → NoNewline s
unfolding contains
NoNewline-of [] h = tt
NoNewline-of (c ∷ s) h = (ground arith, NoNewline-of s (ground arith))

pub decimal-NoNewline : (n : ℕ) → NoNewline (decimal n)
unfolding is_digit
decimal-NoNewline n = go (decimal n) (decimal-All n)
  where
    go : (s : Bytes) → All (λ c. is_digit c ≡ true) s → NoNewline s
    go [] h = tt
    go (c ∷ s) h = (ground (arith, h.0), go s h.1)

pub sent_bytes-timer_if : (timeout secs : ℤ) → sent_bytes (timer_if timeout secs) ≡ []
unfolding timer_if
sent_bytes-timer_if timeout secs = elim (Bool-cases (is_zero_ℤ timeout)) [
  | inl e ↦ rw e refl
  | inr e ↦ rw e refl
]

-- A value that the connector stores whole.
abbrev pub Storable : Bytes → ℕ → Type 0
Storable v sz = NoNewline v × (length v < sz)

pub copy_whole : (v : Bytes) (sz : ℕ) → length v < sz → dbrelay_copy_string v sz ≡ v
copy_whole v sz h = (dbrelay_copy_string_lem v sz (omega arith)).2 h

-- A request whose options arrive as they are: no value has a newline or is longer than its array; the
-- timeout and the flags have nine digits at most.
pub record Sendable (r : Request) : Type 0 where
  pub server : Storable r.sql_server dbrelay_name_sz
  pub database : Storable r.sql_database dbrelay_obj_sz
  pub user : Storable r.sql_user dbrelay_obj_sz
  pub password : Storable r.sql_password dbrelay_obj_sz
  pub name : Storable r.connection_name dbrelay_name_sz
  pub seconds : ℕ
  pub timeout : r.connection_timeout ≡ pos seconds
  pub timeout_digits : length (decimal seconds) < timeout_str_sz
  pub flag_digits : length (decimal r.flags) < flag_str_sz

-- What an option does on a channel that sends it.
set_option_step :
    (S : Type 0) (ch : Channel S) (s s1 : S) (option value : Bytes)
    → ch.send_string s (option_line option value) ≡ (true, s1)
    → dbrelay_conn_set_option ch s option value ≡ (true, (ch.recv_string s1 empty_inbox).1.1)
unfolding dbrelay_conn_set_option
set_option_step S ch s s1 option value e =
    ap
      (λ x. elim x.0 as (λ b. Bool × S) [
        | false ↦ (false, x.1)
        | true ↦ (true, (ch.recv_string x.1 empty_inbox).1.1)
      ])
      e

module _ {D : Type 0} (database : Database D) (fuel pid : ℕ) where
  pub link_recv_ok :
      (s : Session D)
      → (link_recv database fuel pid (link_at s [] (codes ":OK\n")) empty_inbox).1.1
        ≡ link_at s [] []
  unfolding contains
  link_recv_ok s =
      ap (λ x. x.1.1)
        (link_recv_line database fuel pid s (codes ":OK") [] [] empty_inbox
          (NoNewline-of (codes ":OK") refl, omega arith))

  pub serve_line_ok :
      (s s' : Session D) (line : Bytes)
      → process_line s line ≡ some (ok, s')
      → serve_line database fuel pid s line
        ≡ some (record {
          actions = send_ok ∷ timer_if s'.request.connection_timeout s'.request.connection_timeout;
          session = s';
          next = reads_on;
        })
  unfolding serve_line answer
  serve_line_ok s s' line p = rw (p, serve_line) refl

  -- One option, for a session that answers its line with `:OK`.
  pub set_option_ok :
      (s s' : Session D) (option value l : Bytes)
      → IsLine l
      → option_line option value ≡ l ++ newline
      → process_line s (l ++ newline) ≡ some (ok, s')
      → dbrelay_conn_set_option (connector_channel database fuel pid) (link_at s [] []) option value
        ≡ (true, link_at s' [] [])
  set_option_ok s s' option value l hl e p =
      let timeout = s'.request.connection_timeout in
      let sent =
        link_send_line database fuel pid s s' l [] _ hl (serve_line_ok s s' (l ++ newline) p) in
      let quiet : (true, link_at s' [] (codes ":OK\n" ++ sent_bytes (timer_if timeout timeout)))
          ≡ (true, link_at s' [] (codes ":OK\n")) =
        rw (sent_bytes-timer_if timeout timeout) refl in
      set_option_step (Link D) (connector_channel database fuel pid) (link_at s [] [])
        (link_at s' [] (codes ":OK\n")) option value (rw e sent ∙ quiet)
      ∙ ap (λ x. (true, x)) (link_recv_ok s')
