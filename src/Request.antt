-- ===== src/Request.antt =====
-- src/dbrelay.h and the request helpers of src/db.c: `dbrelay_request_t`, the flags, the sizes, and
-- the bounded string copy.
pub mod Copy
use ngx_dbrelay.Base.{
  ℕ, ◌+◌, ◌-◌, ◌/◌, ◌%◌, ◌^◌, Bool, List, [], Option, none, some, Bytes, length, take, replicate,
  ltb, ◌==◌, if◌then◌else◌,
}
use ngx_dbrelay.Base.Int.{ℤ, pos}

abbrev pub dbrelay_max_conn : ℕ
dbrelay_max_conn = 1000

abbrev pub dbrelay_max_params : ℕ
dbrelay_max_params = 100

abbrev pub dbrelay_obj_sz : ℕ
dbrelay_obj_sz = 31

abbrev pub dbrelay_name_sz : ℕ
dbrelay_name_sz = 101

abbrev pub dbrelay_hard_timeout : ℕ
dbrelay_hard_timeout = 28800

-- The flags, by the number of their bit.
pub data Flag : Type 0 where
  echosql pp xact embedcsv nomagic : Flag

abbrev pub flag_mask : Flag → ℕ
flag_mask echosql = 0x01
flag_mask pp = 0x02
flag_mask xact = 0x04
flag_mask embedcsv = 0x08
flag_mask nomagic = 0x10

-- `flags & mask`, for a mask of one bit
unfoldable pub has_flag : ℕ → Flag → Bool
has_flag flags f = (flags / flag_mask f) % 2 == 1

-- `flags |= mask`, for a mask of one bit
unfoldable pub set_flag : ℕ → Flag → ℕ
set_flag flags f = if (flags / flag_mask f) % 2 == 1 then flags else flags + flag_mask f

-- `dbrelay_request_t`. A character array is its string. `log` and `nginx_request` are left out.
pub record Request : Type 0 where
  pub status : ℤ
  pub cmd : Bytes
  pub sql_server : Bytes
  pub sql_port : Bytes
  pub sql_database : Bytes
  pub sql_user : Bytes
  pub sql_password : Bytes
  pub sql : Option Bytes
  pub query_tag : Bytes
  pub connection_name : Bytes
  pub connection_timeout : ℤ
  pub http_keepalive : ℤ
  pub log_level : ℕ
  pub log_level_scope : ℕ
  pub error_message : Bytes
  pub params : List (Option Bytes)
  pub sql_dbtype : Bytes
  pub remote_addr : Bytes
  pub sock_path : Bytes
  pub flags : ℕ
  pub js_callback : Bytes
  pub js_error : Bytes

unfoldable pub dbrelay_alloc_request : Request
dbrelay_alloc_request = record {
  status = pos 0;
  cmd = [];
  sql_server = [];
  sql_port = [];
  sql_database = [];
  sql_user = [];
  sql_password = [];
  sql = none;
  query_tag = [];
  connection_name = [];
  connection_timeout = pos 60;
  http_keepalive = pos 1;
  log_level = 0;
  log_level_scope = 0;
  error_message = [];
  params = replicate dbrelay_max_params none;
  sql_dbtype = [];
  remote_addr = [];
  sock_path = [];
  flags = 0;
  js_callback = [];
  js_error = [];
}

-- The string in `dest`, an array of `sz` bytes, after the copy.
unfoldable pub dbrelay_copy_string : Bytes → ℕ → Bytes
dbrelay_copy_string src sz = if ltb (length src) sz then src else take (sz - 1) src
