-- ===== src/Connector/Options.antt =====
-- The option lines of src/client.c in the connector of src/connector.c: each sets its field, and no
-- other.
use ngx_dbrelay.Base.{◌≡◌, ap, ◌∙◌, false, ◌++◌, Option, none, some, Bytes, codes, starts_with}
use ngx_dbrelay.Base.Decimal.{atol}
use ngx_dbrelay.Request.{dbrelay_copy_string, dbrelay_obj_sz, dbrelay_name_sz}
use ngx_dbrelay.Client.{option_line}
use ngx_dbrelay.Connector.{
  Reply, Session, ok, or_else, process_line, commands, request_settings, with_request,
  timeout_str_sz, flag_str_sz, unsigned_long, set_timeout, set_flags,
}
use ngx_dbrelay.Connector.Commands.{argument_value, process_line-outcome}

module _ {D : Type 0} (s : Session D) (v : Bytes) (h : s.receive_sql ≡ false) where
  pub process_line-server :
      process_line s (option_line (codes "SERVER") v)
      ≡ some (
        ok,
        with_request s (record s.request { sql_server = dbrelay_copy_string v dbrelay_name_sz }),
      )
  unfolding option_line commands request_settings starts_with
  process_line-server =
      process_line-outcome s (codes "SET SERVER " ++ v) h
      ∙ ap
          (λ o.
            some (
              ok,
              with_request s (record s.request { sql_server = or_else o s.request.sql_server }),
            ))
          (argument_value b':' b' ' (codes "SET SERVER") v dbrelay_name_sz)

  pub process_line-database :
      process_line s (option_line (codes "DATABASE") v)
      ≡ some (
        ok,
        with_request s (record s.request { sql_database = dbrelay_copy_string v dbrelay_obj_sz }),
      )
  unfolding option_line commands request_settings starts_with
  process_line-database =
      process_line-outcome s (codes "SET DATABASE " ++ v) h
      ∙ ap
          (λ o. some (
            ok,
            with_request s (record s.request { sql_database = or_else o s.request.sql_database }),
          ))
          (argument_value b':' b' ' (codes "SET DATABASE") v dbrelay_obj_sz)

  pub process_line-user :
      process_line s (option_line (codes "USER") v)
      ≡ some (
        ok,
        with_request s (record s.request { sql_user = dbrelay_copy_string v dbrelay_obj_sz }),
      )
  unfolding option_line commands request_settings starts_with
  process_line-user =
      process_line-outcome s (codes "SET USER " ++ v) h
      ∙ ap
          (λ o.
            some
              (ok, with_request s (record s.request { sql_user = or_else o s.request.sql_user })))
          (argument_value b':' b' ' (codes "SET USER") v dbrelay_obj_sz)

  pub process_line-password :
      process_line s (option_line (codes "PASSWORD") v)
      ≡ some (
        ok,
        with_request s (record s.request { sql_password = dbrelay_copy_string v dbrelay_obj_sz }),
      )
  unfolding option_line commands request_settings starts_with
  process_line-password =
      process_line-outcome s (codes "SET PASSWORD " ++ v) h
      ∙ ap
          (λ o. some (
            ok,
            with_request s (record s.request { sql_password = or_else o s.request.sql_password }),
          ))
          (argument_value b':' b' ' (codes "SET PASSWORD") v dbrelay_obj_sz)

  pub process_line-appname :
      process_line s (option_line (codes "APPNAME") v)
      ≡ some (
        ok,
        with_request s
            (record s.request { connection_name = dbrelay_copy_string v dbrelay_name_sz }),
      )
  unfolding option_line commands request_settings starts_with
  process_line-appname =
      process_line-outcome s (codes "SET APPNAME " ++ v) h
      ∙ ap
          (λ o. some (
            ok,
            with_request s
                (record s.request { connection_name = or_else o s.request.connection_name }),
          ))
          (argument_value b':' b' ' (codes "SET APPNAME") v dbrelay_name_sz)

  pub process_line-timeout :
      process_line s (option_line (codes "TIMEOUT") v)
      ≡ some (
        ok,
        with_request
            (record s { timeout_str = dbrelay_copy_string v timeout_str_sz })
            (record s.request { connection_timeout = atol (dbrelay_copy_string v timeout_str_sz) }),
      )
  unfolding option_line commands request_settings starts_with set_timeout
  process_line-timeout =
      process_line-outcome s (codes "SET TIMEOUT " ++ v) h
      ∙ ap
          (λ o. some (
            ok,
            with_request (record s { timeout_str = or_else o s.timeout_str })
                (record s.request { connection_timeout = atol (or_else o s.timeout_str) }),
          ))
          (argument_value b':' b' ' (codes "SET TIMEOUT") v timeout_str_sz)

  pub process_line-flags :
      process_line s (option_line (codes "FLAGS") v)
      ≡ some (
        ok,
        with_request s
            (record s.request { flags = unsigned_long (atol (dbrelay_copy_string v flag_str_sz)) }),
      )
  unfolding option_line commands request_settings starts_with set_flags
  process_line-flags =
      process_line-outcome s (codes "SET FLAGS " ++ v) h
      ∙ ap
          (λ o. elim o as (λ x. Option (Reply × Session D)) [
            | none ↦ none
            | some value ↦
                some (ok, with_request s (record s.request { flags = unsigned_long (atol value) }))
          ])
          (argument_value b':' b' ' (codes "SET FLAGS") v flag_str_sz)
