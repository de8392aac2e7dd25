-- ===== src/Connector.antt =====
-- src/connector.c: the process that keeps the database of a named connection open. It reads commands,
-- a line each, and answers them; `Session` holds the globals of the file and what `main` keeps between
-- two lines.
pub mod Serving
pub mod Waiting
pub mod Commands
pub mod Options
pub mod Statements
pub mod Answering
pub mod Sizes
use ngx_dbrelay.Base.{
  ℕ, ◌+◌, ◌-◌, ◌^◌, Bool, true, false, not, ◌&&◌, ◌||◌, List, [], ◌∷◌, ◌++◌, map, Option, none,
  some, Bytes, codes, length, drop, starts_with, str_eq, ltb, leb, ◌==◌, if◌then◌else◌,
}
use ngx_dbrelay.Base.Int.{ℤ, pos, negsuc}
use ngx_dbrelay.Base.Decimal.{decimal, atol}
use ngx_dbrelay.Request.{
  Request, dbrelay_copy_string, dbrelay_obj_sz, dbrelay_name_sz, dbrelay_hard_timeout,
}
use ngx_dbrelay.StringBuf.{StringBuf, sb_new, sb_append, sb_put, sb_to_char}
use ngx_dbrelay.Results.{DbApi, dbrelay_exec_query}

-- What `process_line` returns.
pub data Reply : Type 0 where
  ok quit err die run cont helo : Reply

-- `sb_sql` is `none` as long as it is a null pointer, and when it was freed. `db` is `conn.db`, of a
-- database in state `D`.
pub record Session (D : Type 0) : Type 0 where
  pub receive_sql : Bool
  pub sb_sql : Option StringBuf
  pub timeout_str : Bytes
  pub request : Request
  pub connected : Bool
  pub db : Option D

-- `check_command`: whether the line has the command, what is copied, and what `dest` holds then.
unfoldable pub check_command : Bytes → Bytes → Bool
check_command line command =
    leb (length command + 1) (length line) && starts_with command (drop 1 line)

unfoldable pub argument : Bytes → Bytes → ℕ → Option Bytes
argument line command maxsz =
    if ltb (length command + 1) (length line)
    then some (dbrelay_copy_string (drop (length command + 2) line) maxsz)
    else none

abbrev pub or_else : Option Bytes → Bytes → Bytes
or_else none dest = dest
or_else (some value) dest = value

-- `if (line[strlen(line)-1]=='\n') line[strlen(line)-1]='\0';` of a string that is not empty.
unfoldable pub trim_newline : Bytes → Bytes
trim_newline [] = []
trim_newline (c ∷ []) = if c == b'\n' then [] else c ∷ []
trim_newline (c ∷ d ∷ s) = c ∷ trim_newline (d ∷ s)

-- `line[0]!=':'`
abbrev pub no_command : Bytes → Bool
no_command [] = true
no_command (c ∷ s) = not (c == b':')

-- `(unsigned long) n`
abbrev pub unsigned_long : ℤ → ℕ
unsigned_long (pos n) = n
unsigned_long (negsuc n) = 2 ^ 64 - (n + 1)

abbrev pub timeout_str_sz : ℕ
timeout_str_sz = 10

abbrev pub flag_str_sz : ℕ
flag_str_sz = 10

abbrev pub arg_sz : ℕ
arg_sz = 100

abbrev pub sql_port_sz : ℕ
sql_port_sz = 6

-- `check_command(line, command, dest, maxsz)`, for an array of the request: what it holds then.
abbrev pub field_value : Bytes → Bytes → Bytes → ℕ → Bytes
field_value line command dest maxsz = or_else (argument line command maxsz) dest

-- A run of commands: each is a name and what it does; the first one that the line has counts.
unfoldable pub first_command {ℓ} : {A : Type ℓ} → Bytes → List (Bytes × A) → Option A
first_command line [] = none
first_command line ((command, a) ∷ rest) =
    if check_command line command then some a else first_command line rest

-- The request behind the commands that set a field of it.
unfoldable pub request_settings : Request → Bytes → List (Bytes × Request)
request_settings r line =
    (
      codes "SET NAME",
      record r {
        connection_name = field_value line (codes "SET NAME") r.connection_name dbrelay_name_sz;
      },
    )
    ∷ (
      codes "SET PORT",
      record r { sql_port = field_value line (codes "SET PORT") r.sql_port sql_port_sz },
    )
    ∷ (
      codes "SET SERVER",
      record r { sql_server = field_value line (codes "SET SERVER") r.sql_server dbrelay_name_sz },
    )
    ∷ (
      codes "SET DATABASE",
      record r {
        sql_database = field_value line (codes "SET DATABASE") r.sql_database dbrelay_obj_sz;
      },
    )
    ∷ (
      codes "SET USER",
      record r { sql_user = field_value line (codes "SET USER") r.sql_user dbrelay_obj_sz },
    )
    ∷ (
      codes "SET PASSWORD",
      record r {
        sql_password = field_value line (codes "SET PASSWORD") r.sql_password dbrelay_obj_sz;
      },
    )
    ∷ (
      codes "SET APPNAME",
      record r {
        connection_name = field_value line (codes "SET APPNAME") r.connection_name dbrelay_name_sz;
      },
    )
    ∷ []

module _ {D : Type 0} where
  abbrev pub with_request : Session D → Request → Session D
  with_request s r = record s { request = r }

  -- `SET TIMEOUT`
  unfoldable pub set_timeout : Session D → Bytes → Reply × Session D
  set_timeout s line =
      let value = or_else (argument line (codes "SET TIMEOUT") timeout_str_sz) s.timeout_str in
      (
        ok,
        with_request (record s { timeout_str = value })
            (record s.request { connection_timeout = atol value }),
      )

  -- `SET FLAGS`; without a value an uninitialised array is read, which is `none` here.
  unfoldable pub set_flags : Session D → Bytes → Option (Reply × Session D)
  set_flags s line = elim (argument line (codes "SET FLAGS") flag_str_sz) [
    | none ↦ none
    | some value ↦
        some (ok, with_request s (record s.request { flags = unsigned_long (atol value) }))
  ]

  -- `:SQL END`; a null pointer or a freed one is `none`.
  unfoldable pub end_sql : Session D → Option (Reply × Session D)
  end_sql s = elim s.sb_sql [
    | none ↦ none
    | some sb ↦ some (
      ok,
      record s {
        receive_sql = false;
        sb_sql = none;
        request = record s.request { sql = some (sb_to_char sb) };
      },
    )
  ]

  -- `:SQL BEGIN` and `:SQL END`; without a word behind it an uninitialised array is read.
  unfoldable pub take_sql : Session D → Bytes → Option (Reply × Session D)
  take_sql s line = elim (argument line (codes "SQL") arg_sz) [
    | none ↦ none
    | some arg ↦
        if str_eq arg (codes "BEGIN")
        then some (
          cont,
          record s {
            receive_sql = true;
            sb_sql = some (sb_new none);
            request = record s.request { sql = none };
          },
        )
        else if str_eq arg (codes "END")
        then end_sql s
        else some (err, s)
  ]

  -- The commands of `process_line`, in the order in which they are tried.
  unfoldable pub commands : Session D → Bytes → List (Bytes × Option (Reply × Session D))
  commands s line =
      (codes "HELO", some (helo, s))
        ∷ (codes "QUIT", some (quit, s))
        ∷ (codes "RUN", some (run, s))
        ∷ (codes "DIE", some (die, s))
        ∷ map (λ (name, r). (name, some (ok, with_request s r))) (request_settings s.request line)
      ++ (codes "SET TIMEOUT", some (set_timeout s line))
        ∷ (codes "SET FLAGS", set_flags s line)
        ∷ (codes "SQL", take_sql s line)
        ∷ (codes "RUN", some (run, s))
        ∷ []

  -- The part of `process_line` outside a statement. `line` is not empty.
  unfoldable pub process_command : Session D → Bytes → Option (Reply × Session D)
  process_command s line =
      if ltb (length line) 1 || no_command (trim_newline line)
      then some (err, s)
      else elim (first_command (trim_newline line) (commands s (trim_newline line))) [
        | none ↦ some (err, s)
        | some result ↦ result
      ]

  -- The text of a statement is collected until a line starts with `:SQL END`.
  unfoldable pub process_line : Session D → Bytes → Option (Reply × Session D)
  process_line s line =
      if s.receive_sql && (ltb (length line) 8 || not (starts_with (codes ":SQL END") line))
      then (elim s.sb_sql [
        | none ↦ none
        | some sb ↦ some (cont, record s { sb_sql = some (sb_put sb line) })
      ])
      else process_command s line
