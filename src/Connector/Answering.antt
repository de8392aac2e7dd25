-- ===== src/Connector/Answering.antt =====
-- What `main` of src/connector.c sends for a line, by what `process_line` returns for it.
use ngx_dbrelay.Base.{
  ℕ, ◌≡◌, refl, sym, ap, subst, ◌∙◌, ◌⊎◌, Bool, true, false, ◌||◌, List, [], ◌∷◌, ◌++◌, Option,
  none, some, Bytes, codes, starts_with, str_eq, Bool-cases, inl, inr, if◌then◌else◌,
}
use ngx_dbrelay.Base.Int.{ℤ, pos}
use ngx_dbrelay.Request.{dbrelay_hard_timeout}
use ngx_dbrelay.Results.{is_zero_ℤ, dbrelay_exec_query}
use ngx_dbrelay.Connector.{
  Reply, ok, quit, err, die, run, cont, helo, Session, process_line, with_request,
}
use ngx_dbrelay.Connector.Serving.{
  Action, Database, Turn, timer_if, send_ok, answer_lines, send_answer, run_query, run_line,
  refuse_login, answer, serve_line,
}

-- The string that is sent last.
abbrev pub last_string : List Action → Option Bytes
last_string [] = none
last_string (Action.dbrelay_socket_send_string str ∷ rest) = elim (last_string rest) [
  | none ↦ some str
  | some later ↦ some later
]
last_string (Action.set_timer secs ∷ rest) = last_string rest
last_string (Action.close ∷ rest) = last_string rest
last_string (Action.exit ∷ rest) = last_string rest

-- A string that ends an answer: a client waits for one of these.
abbrev pub ends_answer : Option Bytes → Bool
ends_answer none = false
ends_answer (some str) =
    str_eq str (codes ":OK\n")
    || str_eq str (codes ":ERR\n")
    || str_eq str (codes ":BYE\n")
    || starts_with (codes ":PID ") str

-- A turn is answered, with the end of the answer last; where `process_line` returns CONT nothing is sent.
abbrev pub Answers : {D : Type 0} → Reply → Turn D → Type 0
Answers cont turn = turn.actions ≡ []
Answers _ turn = ends_answer (last_string turn.actions) ≡ true

-- There is such a turn.
abbrev pub IsAnswered : {D : Type 0} → Reply → Option (Turn D) → Type 0
IsAnswered {D} reply o = (turn : Turn D) × (o ≡ some turn) × Answers reply turn

-- The session with an empty error message.
abbrev cleared : {D : Type 0} → Session D → Session D
cleared s = with_request s (record s.request { error_message = [] })

-- What `:RUN` needs: a login that the database refuses, or an open database or a login, a statement, and
-- a run of it within the fuel.
abbrev pub Runs : {D : Type 0} → Database D → ℕ → Session D → Type 0
Runs {D} database fuel s =
    ((s.connected ≡ false) × (database.connect (cleared s).request ≡ none))
    ⊎ ((d : D) × (sql : Bytes) × (r : Option Bytes × D) × ((elim s.connected [
      | true ↦ s.db
      | false ↦ database.connect (cleared s).request
    ])
          ≡ some d)
        × (s.request.sql ≡ some sql)
        × (dbrelay_exec_query database.api fuel d s.request.sql_database sql s.request.flags
            ≡ some r))

-- Only `:RUN` needs anything.
abbrev pub Ready : {D : Type 0} → Database D → ℕ → Reply → Session D → Type 0
Ready database fuel run s = Runs database fuel s
Ready database fuel _ s = Unit

last_string-append :
    (xs ys : List Action) (str : Bytes)
    → last_string ys ≡ some str
    → last_string (xs ++ ys) ≡ some str
last_string-append [] ys str h = h
last_string-append (Action.dbrelay_socket_send_string s ∷ xs) ys str h =
    ap
      (λ (o : Option Bytes). elim o as (λ x. Option Bytes) [
        | none ↦ some s
        | some later ↦ some later
      ])
      (last_string-append xs ys str h)
last_string-append (Action.set_timer secs ∷ xs) ys str h = last_string-append xs ys str h
last_string-append (Action.close ∷ xs) ys str h = last_string-append xs ys str h
last_string-append (Action.exit ∷ xs) ys str h = last_string-append xs ys str h

last_string-ok :
    (timeout secs : ℤ) → last_string (send_ok ∷ timer_if timeout secs) ≡ some (codes ":OK\n")
unfolding timer_if
last_string-ok timeout secs = elim (Bool-cases (is_zero_ℤ timeout)) [
  | inl e ↦ rw e refl
  | inr e ↦ rw e refl
]

module _ {D : Type 0} (database : Database D) (fuel pid : ℕ) where
  send_answer-IsAnswered :
      (s : Session D) (r : Option Bytes × D) → IsAnswered run (send_answer database fuel s (some r))
  unfolding send_answer str_eq
  send_answer-IsAnswered s (results, d) =
      let timeout = s.request.connection_timeout in
      (
        _,
        refl,
        ap ends_answer (
            last_string-append (timer_if timeout (pos dbrelay_hard_timeout)) _ (codes ":OK\n") (
              last_string-append (answer_lines database fuel d results)
                (send_ok ∷ timer_if timeout timeout) (codes ":OK\n")
                (last_string-ok timeout timeout))),
      )

  run_query-IsAnswered :
      (s : Session D) (d : D) (sql : Bytes) (r : Option Bytes × D)
      → s.request.sql ≡ some sql
      → dbrelay_exec_query database.api fuel d s.request.sql_database sql s.request.flags ≡ some r
      → IsAnswered run (run_query database fuel s d)
  unfolding run_query
  run_query-IsAnswered s d sql r e ran =
      subst (IsAnswered run)
        (sym (
          ap
            (λ (o : Option Bytes). elim o as (λ x. Option (Turn D)) [
              | none ↦ none
              | some text ↦ send_answer database fuel s (
                  dbrelay_exec_query database.api fuel d s.request.sql_database text
                    s.request.flags)
            ])
            e
          ∙ ap (send_answer database fuel s) ran))
        (send_answer-IsAnswered s r)

  run_line-IsAnswered :
      (s : Session D) → Runs database fuel s → IsAnswered run (run_line database fuel s)
  unfolding run_line refuse_login str_eq
  run_line-IsAnswered s (inl (new, refused)) = rw (new, refused, run_line) (_, refl, refl)
  run_line-IsAnswered s (inr (d, sql, r, open_db, e, ran)) = go s.connected open_db
    where
      go :
          (b : Bool)
          → (elim b as (λ x. Option D) [
            | true ↦ s.db
            | false ↦ database.connect (cleared s).request
          ])
            ≡ some d
          → IsAnswered run (
              if b
              then (elim s.db [ none ↦ none | some d ↦ run_query database fuel (cleared s) d ])
              else elim (database.connect (cleared s).request) [
                | none ↦ some (refuse_login database fuel (cleared s))
                | some d ↦ run_query database fuel (cleared s) d
              ])
      go true h = rw h (run_query-IsAnswered (cleared s) d sql r e ran)
      go false h = rw h (run_query-IsAnswered (cleared s) d sql r e ran)

  answer-IsAnswered :
      (reply : Reply) (s : Session D)
      → Ready database fuel reply s
      → IsAnswered reply (answer database fuel pid reply s)
  unfolding answer str_eq starts_with
  answer-IsAnswered ok s h = (
    _,
    refl,
    ap ends_answer (last_string-ok s.request.connection_timeout s.request.connection_timeout),
  )
  answer-IsAnswered quit s h = (_, refl, refl)
  answer-IsAnswered err s h = (_, refl, refl)
  answer-IsAnswered die s h = (_, refl, refl)
  answer-IsAnswered run s h = run_line-IsAnswered s h
  answer-IsAnswered cont s h = (_, refl, refl)
  answer-IsAnswered helo s h = (_, refl, refl)

  -- A line has a turn, and what the connector sends in it ends with the end of an answer, also if the
  -- statement fails or the login is refused; if `process_line` returns CONT, as for `:SQL BEGIN` and for
  -- a line of a statement, nothing is sent. `process_line` has a result for the line, and if that is
  -- RUN the login is refused, or there are a database and a statement, which runs within the fuel.
  pub serve_line-IsAnswered :
      (s s' : Session D) (line : Bytes) (reply : Reply)
      → process_line s line ≡ some (reply, s')
      → Ready database fuel reply s'
      → IsAnswered reply (serve_line database fuel pid s line)
  unfolding serve_line
  serve_line-IsAnswered s s' line reply e h = rw (e, serve_line) (answer-IsAnswered reply s' h)
