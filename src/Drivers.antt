-- ===== src/Drivers.antt =====
-- What the drivers of src/mssql.c, src/mysql.c and src/odbc.c have of their own. Their client libraries
-- are arguments.
pub mod Mssql
pub mod Mysql
use ngx_dbrelay.Base.{ℕ, zero, suc, List, [], ◌∷◌, ◌++◌, Bytes, ◌==◌, ◌&&◌, if◌then◌else◌}

-- The commands of `catalogsql`.
pub data DbCommand : Type 0 where
  tables columns pkey begin commit rollback : DbCommand

-- `sprintf(dest, mask, ...)` with a mask whose only directives are `%s`.
unfoldable pub sprintf_s : Bytes → List Bytes → Bytes
sprintf_s [] args = []
sprintf_s (c ∷ []) args = c ∷ []
sprintf_s (c ∷ d ∷ mask) [] = c ∷ sprintf_s (d ∷ mask) []
sprintf_s (c ∷ d ∷ mask) (arg ∷ args) =
    let put = arg ++ sprintf_s mask args in
    let keep = c ∷ sprintf_s (d ∷ mask) (arg ∷ args) in if c == b'%' && d == b's' then put else keep
