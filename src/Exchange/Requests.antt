-- ===== src/Exchange/Requests.antt =====
-- All options of a request, from `dbrelay_conn_send_request` of src/client.c into the session of
-- src/connector.c.
use ngx_dbrelay.Base.{
  ℕ, ◌≤◌, ◌<◌, ◌≡◌, refl, sym, ap, subst, ◌∙◌, Bool, true, false, List, [], ◌∷◌, ◌++◌, some, Bytes,
  codes, is_set, length, length-append, contains, arith, append-nil, if◌then◌else◌,
}
use ngx_dbrelay.Base.Int.{ℤ, pos}
use ngx_dbrelay.Base.Decimal.{decimal, decimal_ℤ, atol, atol-decimal}
use ngx_dbrelay.Request.{Request, dbrelay_copy_string, dbrelay_obj_sz, dbrelay_name_sz}
use ngx_dbrelay.Connector.{
  Session, ok, process_line, with_request, timeout_str_sz, flag_str_sz, unsigned_long,
}
use ngx_dbrelay.Connector.Options.{
  process_line-server, process_line-database, process_line-user, process_line-password,
  process_line-appname, process_line-timeout, process_line-flags,
}
use ngx_dbrelay.Connector.Serving.{Database}
use ngx_dbrelay.Client.{Channel, option_line, options, dbrelay_conn_set_option, set_options}
use ngx_dbrelay.Exchange.{Link, connector_channel}
use ngx_dbrelay.Exchange.Lines.{IsLine, newline, link_at}
use ngx_dbrelay.Exchange.Options.{
  NoNewline-append, NoNewline-of, decimal-NoNewline, Storable, copy_whole, Sendable, set_option_ok,
}

-- The session behind the options of `r`; a password that is not sent is not changed.
unfoldable pub stored : {D : Type 0} → Session D → Request → Session D
stored s r =
    with_request (record s { timeout_str = decimal_ℤ r.connection_timeout })
      (record s.request {
        sql_server = r.sql_server;
        sql_database = r.sql_database;
        sql_user = r.sql_user;
        sql_password = if is_set r.sql_password then r.sql_password else s.request.sql_password;
        connection_timeout = r.connection_timeout;
        flags = r.flags;
        connection_name = r.connection_name;
      })

atol-decimal_all : (n : ℕ) → atol (decimal n) ≡ pos n
atol-decimal_all n = subst (λ x. atol x ≡ pos n) (append-nil (decimal n)) (atol-decimal n [] tt)

set_options_step :
    (S : Type 0) (ch : Channel S) (s s1 : S) (option value : Bytes) (rest : List (Bytes × Bytes))
    → dbrelay_conn_set_option ch s option value ≡ (true, s1)
    → set_options ch s ((option, value) ∷ rest) ≡ set_options ch s1 rest
unfolding set_options
set_options_step S ch s s1 option value rest e =
    ap (λ x. elim x.0 as (λ b. Bool × S) [ false ↦ (false, x.1) | true ↦ set_options ch x.1 rest ])
      e

IsLine-value :
    (name v : Bytes) (sz : ℕ)
    → contains b'\n' name ≡ false
    → length name ≤ 14
    → sz ≤ 200
    → Storable v sz
    → IsLine (name ++ v)
IsLine-value name v sz hc hn hs h =
    (NoNewline-append name v (NoNewline-of name hc) h.0, omega (arith, length-append name v, h.1))

module _ {D : Type 0} (database : Database D) (fuel pid : ℕ) where
  -- The options from a session with nothing on its way.
  abbrev set_from : Session D → List (Bytes × Bytes) → Bool × Link D
  set_from s rest = set_options (connector_channel database fuel pid) (link_at s [] []) rest

  -- An option whose value is stored whole, in front of others.
  stored_step :
      (s : Session D) (put : Bytes → Session D) (option name v : Bytes) (sz : ℕ)
      (rest : List (Bytes × Bytes))
      → contains b'\n' name ≡ false
      → length name ≤ 14
      → sz ≤ 200
      → Storable v sz
      → option_line option v ≡ (name ++ v) ++ newline
      → process_line s (option_line option v) ≡ some (ok, put (dbrelay_copy_string v sz))
      → set_from s ((option, v) ∷ rest) ≡ set_from (put v) rest
  stored_step s put option name v sz rest hc hn hs h e p =
      set_options_step (Link D) (connector_channel database fuel pid) (link_at s [] [])
        (link_at (put v) [] []) option v rest
        (set_option_ok database fuel pid s (put v) option v (name ++ v)
          (IsLine-value name v sz hc hn hs h) e
          (subst (λ l. process_line s l ≡ some (ok, put v)) e
            (p ∙ ap (λ x. some (ok, put x)) (copy_whole v sz h.1))))

  module _ (s : Session D) (h : s.receive_sql ≡ false) (rest : List (Bytes × Bytes)) where
    server_step :
        (v : Bytes)
        → Storable v dbrelay_name_sz
        → set_from s ((codes "SERVER", v) ∷ rest)
          ≡ set_from (with_request s (record s.request { sql_server = v })) rest
    unfolding option_line contains
    server_step v hv =
        stored_step s (λ x. with_request s (record s.request { sql_server = x })) (codes "SERVER")
          (codes ":SET SERVER ") v dbrelay_name_sz rest refl (omega arith) (omega arith) hv refl
          (process_line-server s v h)

    database_step :
        (v : Bytes)
        → Storable v dbrelay_obj_sz
        → set_from s ((codes "DATABASE", v) ∷ rest)
          ≡ set_from (with_request s (record s.request { sql_database = v })) rest
    unfolding option_line contains
    database_step v hv =
        stored_step s (λ x. with_request s (record s.request { sql_database = x }))
          (codes "DATABASE") (codes ":SET DATABASE ") v dbrelay_obj_sz rest refl (omega arith)
          (omega arith) hv refl (process_line-database s v h)

    user_step :
        (v : Bytes)
        → Storable v dbrelay_obj_sz
        → set_from s ((codes "USER", v) ∷ rest)
          ≡ set_from (with_request s (record s.request { sql_user = v })) rest
    unfolding option_line contains
    user_step v hv =
        stored_step s (λ x. with_request s (record s.request { sql_user = x })) (codes "USER")
          (codes ":SET USER ") v dbrelay_obj_sz rest refl (omega arith) (omega arith) hv refl
          (process_line-user s v h)

    password_step :
        (v : Bytes)
        → Storable v dbrelay_obj_sz
        → set_from s ((codes "PASSWORD", v) ∷ rest)
          ≡ set_from (with_request s (record s.request { sql_password = v })) rest
    unfolding option_line contains
    password_step v hv =
        stored_step s (λ x. with_request s (record s.request { sql_password = x }))
          (codes "PASSWORD") (codes ":SET PASSWORD ") v dbrelay_obj_sz rest refl (omega arith)
          (omega arith) hv refl (process_line-password s v h)

    name_step :
        (v : Bytes)
        → Storable v dbrelay_name_sz
        → set_from s ((codes "APPNAME", v) ∷ rest)
          ≡ set_from (with_request s (record s.request { connection_name = v })) rest
    unfolding option_line contains
    name_step v hv =
        stored_step s (λ x. with_request s (record s.request { connection_name = x }))
          (codes "APPNAME") (codes ":SET APPNAME ") v dbrelay_name_sz rest refl (omega arith)
          (omega arith) hv refl (process_line-appname s v h)

    timeout_step :
        (n : ℕ)
        → length (decimal n) < timeout_str_sz
        → set_from s ((codes "TIMEOUT", decimal n) ∷ rest)
          ≡ set_from
              (with_request
                (record s { timeout_str = decimal n })
                (record s.request { connection_timeout = pos n }))
              rest
    unfolding option_line contains
    timeout_step n hn =
        stored_step s
          (λ x.
            with_request (record s { timeout_str = x })
              (record s.request { connection_timeout = atol x }))
          (codes "TIMEOUT") (codes ":SET TIMEOUT ") (decimal n) timeout_str_sz rest refl
          (omega arith) (omega arith) (decimal-NoNewline n, hn) refl
          (process_line-timeout s (decimal n) h)
        ∙ ap
            (λ t.
              set_from
                (with_request (record s { timeout_str = decimal n })
                  (record s.request { connection_timeout = t }))
                rest)
            (atol-decimal_all n)

    flags_step :
        (n : ℕ)
        → length (decimal n) < flag_str_sz
        → set_from s ((codes "FLAGS", decimal n) ∷ rest)
          ≡ set_from (with_request s (record s.request { flags = n })) rest
    unfolding option_line contains
    flags_step n hn =
        stored_step s (λ x. with_request s (record s.request { flags = unsigned_long (atol x) }))
          (codes "FLAGS") (codes ":SET FLAGS ") (decimal n) flag_str_sz rest refl (omega arith)
          (omega arith) (decimal-NoNewline n, hn) refl (process_line-flags s (decimal n) h)
        ∙ ap (λ t. set_from (with_request s (record s.request { flags = unsigned_long t })) rest)
            (atol-decimal_all n)

  -- The session behind the timeout, the flags and the name.
  abbrev tail_stored : Session D → Request → Session D
  tail_stored s r =
      with_request (record s { timeout_str = decimal_ℤ r.connection_timeout })
        (record s.request {
          connection_timeout = r.connection_timeout;
          flags = r.flags;
          connection_name = r.connection_name;
        })

  set_options-tail :
      (s : Session D) (r : Request)
      → s.receive_sql ≡ false
      → Sendable r
      → set_from s (
          (codes "TIMEOUT", decimal_ℤ r.connection_timeout)
          ∷ (codes "FLAGS", decimal r.flags)
          ∷ (codes "APPNAME", r.connection_name)
          ∷ [])
        ≡ (true, link_at (tail_stored s r) [] [])
  unfolding set_options decimal_ℤ
  set_options-tail s r h sendable =
      let n = sendable.seconds in
      let after : ℤ → Session D = λ t.
        with_request (record s { timeout_str = decimal_ℤ t })
          (record s.request { connection_timeout = t }) in
      let rest : List (Bytes × Bytes) =
        (codes "FLAGS", decimal r.flags) ∷ (codes "APPNAME", r.connection_name) ∷ [] in
      subst (λ t. set_from s ((codes "TIMEOUT", decimal_ℤ t) ∷ rest) ≡ set_from (after t) rest)
        (sym sendable.timeout) (timeout_step s h rest n sendable.timeout_digits)
      ∙ flags_step (after r.connection_timeout) h ((codes "APPNAME", r.connection_name) ∷ [])
          r.flags sendable.flag_digits
      ∙ name_step
          (with_request (after r.connection_timeout)
            (record (after r.connection_timeout).request { flags = r.flags }))
          h [] r.connection_name sendable.name

  -- The options of a request reach the session: behind them its fields are the request's.
  pub set_options-stored :
      (s : Session D) (r : Request)
      → s.receive_sql ≡ false
      → Sendable r
      → set_from s (options r) ≡ (true, link_at (stored s r) [] [])
  unfolding options stored
  set_options-stored s r h sendable =
      server_step s h ((codes "DATABASE", r.sql_database) ∷ (codes "USER", r.sql_user) ∷ guarded)
        r.sql_server sendable.server
      ∙ database_step s1 h ((codes "USER", r.sql_user) ∷ guarded) r.sql_database sendable.database
      ∙ user_step s2 h guarded r.sql_user sendable.user
      ∙ password (is_set r.sql_password)
      ∙ set_options-tail (s4 (is_set r.sql_password)) r h sendable
    where
      s1 : Session D
      s1 = with_request s (record s.request { sql_server = r.sql_server })

      s2 : Session D
      s2 = with_request s1 (record s1.request { sql_database = r.sql_database })

      s3 : Session D
      s3 = with_request s2 (record s2.request { sql_user = r.sql_user })

      s4 : Bool → Session D
      s4 b = with_request s3 (record s3.request {
        sql_password = if b then r.sql_password else s3.request.sql_password;
      })

      rest : List (Bytes × Bytes)
      rest =
          (codes "TIMEOUT", decimal_ℤ r.connection_timeout)
          ∷ (codes "FLAGS", decimal r.flags)
          ∷ (codes "APPNAME", r.connection_name)
          ∷ []

      guarded : List (Bytes × Bytes)
      guarded =
          (if is_set r.sql_password then (codes "PASSWORD", r.sql_password) ∷ [] else []) ++ rest

      password :
          (b : Bool)
          → set_from s3 ((if b then (codes "PASSWORD", r.sql_password) ∷ [] else []) ++ rest)
            ≡ set_from (s4 b) rest
      password true = password_step s3 h rest r.sql_password sendable.password
      password false = refl
