-- ===== src/Drivers/Mysql.antt =====
-- src/mysql.c: the driver of MySQL. Its client library is a record of the functions that the driver
-- calls.
use ngx_dbrelay.Base.{
  ℕ, Bool, true, false, Option, none, some, Bytes, codes, is_set, if◌then◌else◌, ◌==◌,
}
use ngx_dbrelay.Request.{Request}
use ngx_dbrelay.Drivers.{DbCommand, tables, columns, pkey, begin, commit, rollback}

-- The types of MySQL that the driver names, and any other by its number.
pub data MysqlType : Type 0 where
  varchar var_string string : MysqlType
  blob tiny_blob medium_blob long_blob : MysqlType
  date newdate time datetime timestamp year : MysqlType
  decimal newdecimal tiny short long longlong int24 float double : MysqlType
  null bit enum set geometry : MysqlType
  other_type : ℕ → MysqlType

-- `dbrelay_mysql_is_quoted`, of the type of the column's field.
unfoldable pub is_quoted : MysqlType → Bool
is_quoted varchar = true
is_quoted var_string = true
is_quoted date = true
is_quoted time = true
is_quoted datetime = true
is_quoted blob = true
is_quoted string = true
is_quoted long_blob = true
is_quoted tiny_blob = true
is_quoted newdate = true
is_quoted medium_blob = true
is_quoted _ = false

-- What `dest` holds behind the call; a type without a name leaves it as it was.
unfoldable pub get_sqltype_string : Bytes → MysqlType → Bytes
get_sqltype_string dest varchar = codes "varchar"
get_sqltype_string dest string = codes "varchar"
get_sqltype_string dest var_string = codes "varchar"
get_sqltype_string dest blob = codes "blob"
get_sqltype_string dest long_blob = codes "blob"
get_sqltype_string dest tiny_blob = codes "blob"
get_sqltype_string dest medium_blob = codes "blob"
get_sqltype_string dest date = codes "date"
get_sqltype_string dest newdate = codes "date"
get_sqltype_string dest time = codes "time"
get_sqltype_string dest datetime = codes "datetime"
get_sqltype_string dest decimal = codes "decimal"
get_sqltype_string dest newdecimal = codes "decimal"
get_sqltype_string dest tiny = codes "tinyint"
get_sqltype_string dest short = codes "shortint"
get_sqltype_string dest long = codes "longint"
get_sqltype_string dest float = codes "float"
get_sqltype_string dest double = codes "double"
get_sqltype_string dest null = codes "null"
get_sqltype_string dest timestamp = codes "timestamp"
get_sqltype_string dest longlong = codes "longlong"
get_sqltype_string dest int24 = codes "int24"
get_sqltype_string dest year = codes "year"
get_sqltype_string dest bit = codes "bit"
get_sqltype_string dest enum = codes "enum"
get_sqltype_string dest set = codes "enum"
get_sqltype_string dest geometry = codes "geometry"
get_sqltype_string dest (other_type n) = dest

-- The functions of the client library on its handle `M`; `none` is a null pointer, and a number is the
-- result.
pub record MysqlLib (M : Type 0) : Type 0 where
  pub mysql_init : Option M
  pub mysql_real_connect : M → Bytes → Bytes → Option Bytes → Option M
  pub mysql_select_db : M → Bytes → ℕ × M
  pub mysql_real_query : M → Bytes → ℕ × M
  pub mysql_ping : M → ℕ

module _ {M : Type 0} (lib : MysqlLib M) where
  -- The handle in the structure that `conn->db` points to, or none for a null pointer.
  unfoldable pub connect : Request → Option M
  connect request = elim lib.mysql_init [
    | none ↦ none
    | some mysql ↦
        lib.mysql_real_connect mysql request.sql_server request.sql_user
          (if is_set request.sql_password then some request.sql_password else none)
  ]

  unfoldable pub change_db : M → Bytes → Bool × M
  change_db mysql database =
      let (code, after) = lib.mysql_select_db mysql database in (code == 0, after)

  unfoldable pub exec : M → Bytes → Bool × M
  exec mysql sql = let (code, after) = lib.mysql_real_query mysql sql in (code == 0, after)

  unfoldable pub isalive : M → ℕ
  isalive mysql = lib.mysql_ping mysql

unfoldable pub connected : {M : Type 0} → Option M → Bool
connected none = false
connected (some mysql) = true

unfoldable pub catalogsql : DbCommand → Option Bytes
catalogsql begin = some (codes "BEGIN TRAN")
catalogsql commit = some (codes "COMMIT TRAN")
catalogsql rollback = some (codes "ROLLBACK TRAN")
catalogsql tables = none
catalogsql columns = none
catalogsql pkey = none
