-- ===== src/Connector/Sizes.antt =====
-- `process_line` of src/connector.c and the arrays that it writes to.
use ngx_dbrelay.Base.{ℕ, Option, none, some, Bytes}
use ngx_dbrelay.StringBuf.{StringBuf}
use ngx_dbrelay.Request.{Request, dbrelay_obj_sz, dbrelay_name_sz}
use ngx_dbrelay.Form.Sizes.{Holds}
use ngx_dbrelay.Connector.{Reply, Session, argument, sql_port_sz, timeout_str_sz}

-- The strings of a request that a line can set fit into their arrays.
abbrev pub RequestFits : Request → Type 0
RequestFits r =
    Holds dbrelay_name_sz r.sql_server
    × Holds sql_port_sz r.sql_port
    × Holds dbrelay_obj_sz r.sql_database
    × Holds dbrelay_obj_sz r.sql_user
    × Holds dbrelay_obj_sz r.sql_password
    × Holds dbrelay_name_sz r.connection_name

abbrev pub SessionFits : {D : Type 0} → Session D → Type 0
SessionFits s = RequestFits s.request × Holds timeout_str_sz s.timeout_str

-- What a command's argument leaves in an array, if there is one.
abbrev pub ArgumentFits : Bytes → Bytes → ℕ → Type 0
ArgumentFits line command sz = elim (argument line command sz) [
  | none ↦ Unit
  | some arg ↦ Holds sz arg
]

-- A result that keeps the sizes; `none` is a line for which the code has no defined result.
abbrev pub ResultFits : {D : Type 0} → Option (Reply × Session D) → Type 0
ResultFits none = Unit
ResultFits (some (reply, s)) = SessionFits s
