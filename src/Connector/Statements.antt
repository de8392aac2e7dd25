-- ===== src/Connector/Statements.antt =====
-- The lines of a statement in the connector of src/connector.c, and `:RUN`.
use ngx_dbrelay.Base.{◌≡◌, true, false, none, some, Bytes, codes, starts_with, str_eq, arith}
use ngx_dbrelay.Request.{dbrelay_copy_string}
use ngx_dbrelay.StringBuf.{StringBuf, sb_new, sb_put, sb_to_char}
use ngx_dbrelay.Connector.{
  Session, ok, run, cont, process_line, commands, request_settings, take_sql, end_sql, argument,
}
use ngx_dbrelay.Connector.Commands.{process_line-outcome, process_command-outcome}

-- A session that collects a statement.
abbrev pub collecting : {D : Type 0} → Session D → StringBuf → Session D
collecting s sb = record s {
  receive_sql = true;
  sb_sql = some sb;
  request = record s.request { sql = none };
}

-- A session that has its statement.
abbrev pub collected : {D : Type 0} → Session D → StringBuf → Session D
collected s sb = record s {
  receive_sql = false;
  sb_sql = none;
  request = record s.request { sql = some (sb_to_char sb) };
}

module _ {D : Type 0} (s : Session D) where
  pub process_line-begin :
      s.receive_sql ≡ false
      → process_line s (codes ":SQL BEGIN\n") ≡ some (cont, collecting s (sb_new none))
  unfolding commands request_settings starts_with take_sql argument str_eq dbrelay_copy_string
  process_line-begin h = process_line-outcome s (codes "SQL BEGIN") h

  pub process_line-text :
      (sb : StringBuf) (line : Bytes)
      → starts_with (codes ":SQL END") line ≡ false
      → process_line (collecting s sb) line ≡ some (cont, collecting s (sb_put sb line))
  unfolding process_line
  process_line-text sb line h = ground arith

  pub process_line-end :
      (sb : StringBuf)
      → process_line (collecting s sb) (codes ":SQL END\n") ≡ some (ok, collected s sb)
  unfolding process_line commands request_settings starts_with take_sql end_sql argument str_eq
      dbrelay_copy_string
  process_line-end sb = process_command-outcome (collecting s sb) (codes "SQL END")

  pub process_line-run : s.receive_sql ≡ false → process_line s (codes ":RUN\n") ≡ some (run, s)
  unfolding commands request_settings starts_with
  process_line-run h = process_line-outcome s (codes "RUN") h
