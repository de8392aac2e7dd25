-- ===== src/Drivers/Mssql.antt =====
-- src/mssql.c: the driver of SQL Server over DB-Library.
pub mod Names
pub mod Blocks
use ngx_dbrelay.Base.{
  ℕ, zero, suc, ◌+◌, ◌-◌, Bool, true, false, not, ◌&&◌, ◌||◌, List, [], ◌∷◌, ◌++◌, Option, none,
  some, Bytes, codes, length, take, drop, is_set, ◌==◌, if◌then◌else◌,
}
use ngx_dbrelay.Base.Int.{ℤ, pos, negsuc}
use ngx_dbrelay.Base.Decimal.{decimal}
use ngx_dbrelay.Request.{Request}
use ngx_dbrelay.Drivers.{DbCommand, tables, columns, pkey, begin, commit, rollback, sprintf_s}

-- The types of DB-Library that the driver names, and any other by its number.
pub data SybType : Type 0 where
  sybvarchar sybchar sybtext sybimage : SybType
  sybint4 sybint2 sybint1 sybintn : SybType
  sybflt8 sybreal sybfltn : SybType
  sybmoney sybmoney4 sybbit : SybType
  sybdatetime sybdatetime4 sybdatetimn : SybType
  sybnumeric sybdecimal sybunique sybbinary sybvarbinary : SybType
  other_type : ℕ → SybType

unfoldable pub is_quoted : SybType → Bool
is_quoted sybvarchar = true
is_quoted sybchar = true
is_quoted sybtext = true
is_quoted sybdatetimn = true
is_quoted sybdatetime = true
is_quoted sybdatetime4 = true
is_quoted sybbinary = true
is_quoted sybvarbinary = true
is_quoted sybunique = true
is_quoted _ = false

abbrev integer_name : Bytes → ℕ → Bytes
integer_name dest collen =
    if collen == 1
    then codes "tinyint"
    else if collen == 2
    then codes "smallint"
    else if collen == 4
    then codes "int"
    else dest

abbrev float_name : Bytes → ℕ → Bytes
float_name dest collen =
    if collen == 4 then codes "real" else if collen == 8 then codes "float" else dest

abbrev datetime_name : Bytes → ℕ → Bytes
datetime_name dest collen =
    if collen == 4 then codes "smalldatetime" else if collen == 8 then codes "datetime" else dest

-- What `dest` holds behind the call; a number, a float or a date of another length leaves it as it was.
unfoldable pub get_sqltype_string : Bytes → SybType → ℕ → Bytes
get_sqltype_string dest sybvarchar collen = codes "varchar"
get_sqltype_string dest sybchar collen = codes "char"
get_sqltype_string dest sybint4 collen = integer_name dest collen
get_sqltype_string dest sybint2 collen = integer_name dest collen
get_sqltype_string dest sybint1 collen = integer_name dest collen
get_sqltype_string dest sybintn collen = integer_name dest collen
get_sqltype_string dest sybflt8 collen = float_name dest collen
get_sqltype_string dest sybreal collen = float_name dest collen
get_sqltype_string dest sybfltn collen = float_name dest collen
get_sqltype_string dest sybmoney collen = codes "money"
get_sqltype_string dest sybmoney4 collen = codes "smallmoney"
get_sqltype_string dest sybimage collen = codes "image"
get_sqltype_string dest sybtext collen = codes "text"
get_sqltype_string dest sybbit collen = codes "bit"
get_sqltype_string dest sybdatetime4 collen = datetime_name dest collen
get_sqltype_string dest sybdatetime collen = datetime_name dest collen
get_sqltype_string dest sybdatetimn collen = datetime_name dest collen
get_sqltype_string dest sybnumeric collen = codes "numeric"
get_sqltype_string dest sybdecimal collen = codes "decimal"
get_sqltype_string dest sybunique collen = codes "guid"
get_sqltype_string dest sybbinary collen = codes "binary"
get_sqltype_string dest sybvarbinary collen = codes "varbinary"
get_sqltype_string dest (other_type n) collen = codes "unknown type " ++ decimal n

unfoldable pub has_prec : SybType → Bool
has_prec sybdecimal = true
has_prec sybnumeric = true
has_prec _ = false

-- `dbrelay_mssql_colprec` and `dbrelay_mssql_colscale`, from a column's type information.
unfoldable pub colprec : SybType → ℕ → ℕ
colprec coltype precision = if has_prec coltype then precision else 0

unfoldable pub colscale : SybType → ℕ → ℕ
colscale coltype scale = if has_prec coltype then scale else 0

-- `dbrelay_mssql_colvalue`, from the column's null indicator and its buffer.
unfoldable pub colvalue : ℤ → Bytes → Option Bytes
colvalue (negsuc zero) value = none
colvalue (negsuc (suc n)) value = some value
colvalue (pos n) value = some value

-- The name of the application that `dbrelay_mssql_connect` logs in with, in `tmpbuf`.
abbrev pub tmpbuf_sz : ℕ
tmpbuf_sz = 30

unfoldable pub app_name : Request → Bytes
app_name request =
    let tmpbuf = codes "dbrelay (" in
    let name =
      if is_set request.connection_name then request.connection_name else request.remote_addr in
    (tmpbuf ++ take (tmpbuf_sz - length tmpbuf - 3) name) ++ codes ")"

-- The messages of the server: the request's text, and the static texts of a login.
pub record Messages : Type 0 where
  pub error_message : Bytes
  pub login_error : Bytes
  pub login_msgno : ℕ

-- `dbrelay_mssql_msg_handler` for a `dbproc` and for whether it has a request.
unfoldable pub msg_handler : Bool → Bool → ℕ → Bytes → Messages → Messages
msg_handler false has_request msgno msgtext m = m
msg_handler true has_request msgno msgtext m =
    if msgno == 5701 || msgno == 5703 || msgno == 5704
    then m
    else if has_request
    then record m {
      error_message =
          (if is_set msgtext then m.error_message ++ codes "\n" else m.error_message) ++ msgtext;
    }
    else record m { login_error = msgtext; login_msgno = msgno }

-- `dbrelay_mssql_error`: `connected` is `mssql && mssql->dbproc`.
unfoldable pub error : Bool → Bool → Messages → Option Bytes
error true true m = some m.error_message
error true false m = none
error false has_request m = some m.login_error

-- The loop of `split_tablename`: the first dot outside quotes and brackets.
unfoldable pub dot_loop : Bool → Bool → ℕ → Bytes → Option ℕ
dot_loop quote bracket i [] = none
dot_loop quote bracket i (c ∷ s) =
    let quote' = if c == b'"' then not quote else quote in
    let opened = if not bracket && c == b'[' then true else bracket in
    let bracket' = if opened && c == b']' then false else opened in
    if not quote' && not bracket' && c == b'.' then some i else dot_loop quote' bracket' (i + 1) s

-- A part of the name: the bytes between its quotes or brackets, which are its first and its last.
unfoldable pub strip_quotes : Bytes → Bytes
strip_quotes [] = []
strip_quotes (c ∷ s) = if c == b'"' || c == b'[' then take (length s - 1) s else c ∷ s

-- `split_tablename`: `schema` and `table`.
unfoldable pub split_tablename : Bytes → Bytes × Bytes
split_tablename orig = elim (dot_loop false false 0 orig) [
  | none ↦ ([], orig)
  | some firstdot ↦ (strip_quotes (take firstdot orig), strip_quotes (drop (firstdot + 1) orig))
]

abbrev pub columns_mask : Bytes
columns_mask =
    codes
      "SELECT COLUMN_NAME,IS_NULLABLE,DATA_TYPE,CHARACTER_MAXIMUM_LENGTH, NUMERIC_SCALE, CASE WHEN COLUMN_DEFAULT IS NULL THEN 0 ELSE 1 END AS HAS_DEFAULT, COLUMNPROPERTY(object_id(TABLE_NAME), COLUMN_NAME, 'IsIdentity') as IS_IDENTITY FROM INFORMATION_SCHEMA.COLUMNS WHERE TABLE_NAME = '%s'"

abbrev pub columns_mask2 : Bytes
columns_mask2 =
    codes
      "SELECT COLUMN_NAME,IS_NULLABLE,DATA_TYPE,CHARACTER_MAXIMUM_LENGTH, NUMERIC_SCALE, CASE WHEN COLUMN_DEFAULT IS NULL THEN 0 ELSE 1 END AS HAS_DEFAULT, COLUMNPROPERTY(object_id(TABLE_NAME), COLUMN_NAME, 'IsIdentity') as IS_IDENTITY FROM INFORMATION_SCHEMA.COLUMNS WHERE TABLE_NAME = '%s' AND TABLE_SCHEMA = '%s'"

abbrev pub pkey_mask : Bytes
pkey_mask =
    codes
      "SELECT c.COLUMN_NAME FROM  INFORMATION_SCHEMA.TABLE_CONSTRAINTS pk , INFORMATION_SCHEMA.KEY_COLUMN_USAGE c WHERE pk.TABLE_NAME = '%s' AND   CONSTRAINT_TYPE = 'PRIMARY KEY' AND   c.TABLE_NAME = pk.TABLE_NAME AND   c.CONSTRAINT_NAME = pk.CONSTRAINT_NAME"

abbrev pub pkey_mask2 : Bytes
pkey_mask2 =
    codes
      "SELECT c.COLUMN_NAME FROM  INFORMATION_SCHEMA.TABLE_CONSTRAINTS pk , INFORMATION_SCHEMA.KEY_COLUMN_USAGE c WHERE pk.TABLE_NAME = '%s' AND   pk.TABLE_SCHEMA = '%s' AND   CONSTRAINT_TYPE = 'PRIMARY KEY' AND   c.TABLE_NAME = pk.TABLE_NAME AND   c.TABLE_SCHEMA = pk.TABLE_SCHEMA AND   c.CONSTRAINT_NAME = pk.CONSTRAINT_NAME"

-- The statement about one table, by the mask with a schema or by that without.
unfoldable pub table_sql : Bytes → Bytes → Bytes → Bytes
table_sql mask mask2 name =
    let (schema, table) = split_tablename name in
    if is_set schema then sprintf_s mask2 (table ∷ schema ∷ []) else sprintf_s mask (table ∷ [])

-- `dbrelay_mssql_catalogsql`, for the first of the parameters.
unfoldable pub catalogsql : DbCommand → Bytes → Bytes
catalogsql begin name = codes "BEGIN TRAN"
catalogsql commit name = codes "COMMIT TRAN"
catalogsql rollback name = codes "ROLLBACK TRAN"
catalogsql tables name =
    codes "SELECT * FROM INFORMATION_SCHEMA.tables WHERE TABLE_TYPE='BASE TABLE'"
catalogsql columns name = table_sql columns_mask columns_mask2 name
catalogsql pkey name = table_sql pkey_mask pkey_mask2 name
