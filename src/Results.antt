-- ===== src/Results.antt =====
-- The answer to a statement, src/db.c: `dbrelay_db_fill_data`, the writers of columns and values, and
-- `dbrelay_exec_query`, over the driver's functions `dbrelay_dbapi_t`.
pub mod Tables
pub mod Columns
pub mod Filling
use ngx_dbrelay.Base.{
  ℕ, zero, suc, ◌+◌, Bool, true, false, not, ◌&&◌, ◌||◌, List, [], ◌∷◌, Option, none, some, Bytes,
  codes, str_eq, is_set, contains, ◌==◌, if◌then◌else◌,
}
use ngx_dbrelay.Base.Int.{ℤ, pos, negsuc, pos_part, ltb_ℤ}
use ngx_dbrelay.Base.Decimal.{decimal, decimal_ℤ, atol}
use ngx_dbrelay.Request.{has_flag, pp, xact, embedcsv}
use ngx_dbrelay.Json.{
  Json, Mode, std, csv, json_new, json_pretty_print, json_set_mode, json_get_mode, json_to_string,
  json_new_object, json_end_object, json_new_array, json_end_array, json_add_key, json_add_string,
  json_add_number, json_add_null, json_add_json,
}

-- The functions of `dbrelay_dbapi_t` that answer a statement, on the state `D` behind `conn->db`.
-- Columns count from 1; a value is `none` for NULL.
pub record DbApi (D : Type 0) : Type 0 where
  pub has_results : D → Bool × D
  pub numcols : D → ℕ
  pub colname : D → ℕ → Bytes
  pub coltype : D → ℕ → Bytes
  pub collen : D → ℕ → ℤ
  pub colprec : D → ℕ → ℤ
  pub colscale : D → ℕ → ℤ
  pub fetch_row : D → Bool × D
  pub colvalue : D → ℕ → Option Bytes
  pub is_quoted : D → ℕ → Bool
  pub rowcount : D → ℤ
  pub connected : D → Bool
  pub error : D → Bytes
  pub change_db : D → Bytes → D
  pub exec : D → Bytes → Bool × D
  pub begin_sql : Bytes
  pub commit_sql : Bytes
  pub rollback_sql : Bytes

unfoldable pub dbrelay_is_unnamed_column : Bytes → Bool
dbrelay_is_unnamed_column colname = not (is_set colname) || str_eq colname (codes "?column?")

-- The name that a column gets, and `maxcolname` behind it.
unfoldable pub name_column : ℕ → Bytes → Bytes × ℕ
name_column max colname =
    if dbrelay_is_unnamed_column colname then (decimal (max + 1), max + 1) else (
      colname,
      if ltb_ℤ (pos 0) (atol colname) && ltb_ℤ (pos max) (atol colname)
          then pos_part (atol colname)
          else max,
    )

-- A test of the mode: what is done in CSV mode, and what else.
abbrev pub by_mode {ℓ} : {A : Type ℓ} → Mode → A → A → A
by_mode csv a b = a
by_mode std a b = b

abbrev pub is_zero_ℤ : ℤ → Bool
is_zero_ℤ (pos zero) = true
is_zero_ℤ _ = false

-- `if (l!=0) { sprintf(tmp, "%d", l); json_add_number(json, key, tmp); }`
unfoldable pub add_size : Json → Bytes → ℤ → Json
add_size j key l = if not (is_zero_ℤ l) then json_add_number j key (decimal_ℤ l) else j

-- The writer that `dbrelay_exec_query` sets up.
unfoldable pub answer_writer : ℕ → Json
answer_writer flags =
    let j = if has_flag flags pp then json_pretty_print json_new true else json_new in
    if has_flag flags embedcsv then json_set_mode j csv else j

module _ {D : Type 0} (api : DbApi D) where
  unfoldable pub dbrelay_write_json_colinfo : Json → D → ℕ → ℕ → Json × ℕ
  dbrelay_write_json_colinfo j db colnum max =
      let named = name_column max (api.colname db colnum) in
      let j1 = json_add_string (json_new_object j) (codes "name") named.0 in
      let j2 = json_add_string j1 (codes "sql_type") (api.coltype db colnum) in
      let j3 = add_size j2 (codes "length") (api.collen db colnum) in
      let j4 = add_size j3 (codes "precision") (api.colprec db colnum) in
      let j5 = add_size j4 (codes "scale") (api.colscale db colnum) in (json_end_object j5, named.1)

  unfoldable pub dbrelay_write_json_column_csv : Json → D → ℕ → Json
  dbrelay_write_json_column_csv j db colnum = elim (api.colvalue db colnum) [
    | none ↦ j
    | some tmp ↦
        let quote : Json → Json =
          λ x. if contains b',' tmp then json_add_json x (codes "\\\"") else x in
        quote (json_add_json (quote j) tmp)
  ]

  unfoldable pub dbrelay_write_json_column_std : Json → D → ℕ → Bytes → Json
  dbrelay_write_json_column_std j db colnum colname = elim (api.colvalue db colnum) [
    | none ↦ json_add_null j colname
    | some tmp ↦
        if api.is_quoted db colnum
        then json_add_string j colname tmp
        else json_add_number j colname tmp
  ]

  unfoldable pub dbrelay_write_json_column : Json → D → ℕ → ℕ → Json × ℕ
  dbrelay_write_json_column j db colnum max =
      let named = name_column max (api.colname db colnum) in
      by_mode (json_get_mode j) ((dbrelay_write_json_column_csv j db colnum, named.1))
        ((dbrelay_write_json_column_std j db colnum named.0, named.1))

  -- `for (colnum=1; colnum<=numcols; colnum++)` of the fields, with `left` rounds to go.
  unfoldable pub info_loop : ℕ → D → ℕ → ℕ → Json → Json
  info_loop zero db colnum max j = j
  info_loop (suc left) db colnum max j =
      let written = dbrelay_write_json_colinfo j db colnum max in
      info_loop left db (colnum + 1) written.1 written.0

  -- The same loop of a row, with the comma behind every value but the last in CSV mode.
  unfoldable pub value_loop : ℕ → D → ℕ → ℕ → Json → Json
  value_loop zero db colnum max j = j
  value_loop (suc left) db colnum max j =
      let written = dbrelay_write_json_column j db colnum max in
      let separated : Json =
        by_mode (json_get_mode written.0)
          (if not (left == 0) then json_add_json written.0 (codes ",") else written.0)
          (written.0) in
      value_loop left db (colnum + 1) written.1 separated

  -- One row.
  unfoldable pub write_row : ℕ → D → Json → Json
  write_row numcols db j =
      let opened : Json = by_mode (json_get_mode j) (j) (json_new_object j) in
      let filled = value_loop numcols db 1 0 opened in
      by_mode (json_get_mode filled) (json_add_json filled (codes "\\n")) (json_end_object filled)

  -- `while (api->fetch_row(conn->db))`, on fuel.
  unfoldable pub rows_loop : ℕ → ℕ → D → Json → Option (Json × D)
  rows_loop zero numcols db j = none
  rows_loop (suc fuel) numcols db j = elim (api.fetch_row db).0 [
    | false ↦ some (j, (api.fetch_row db).1)
    | true ↦ rows_loop fuel numcols (api.fetch_row db).1 (write_row numcols (api.fetch_row db).1 j)
  ]

  -- The text of a result in front of its rows, and behind them.
  unfoldable pub open_result : D → Json → Json
  open_result db j =
      let fields = json_new_array (json_add_key (json_new_object j) (codes "fields")) in
      let listed = json_end_array (info_loop (api.numcols db) db 1 0 fields) in
      let keyed = json_add_key listed (codes "rows") in
      by_mode (json_get_mode keyed) (json_add_json keyed (codes "\"")) (json_new_array keyed)

  unfoldable pub close_result : D → Json → Json
  close_result db j =
      let closed : Json =
        by_mode (json_get_mode j) (json_add_json j (codes "\",")) (json_end_array j) in
      let counted : Json = elim (api.rowcount db) [
        | negsuc zero ↦ json_add_null closed (codes "count")
        | negsuc (suc n) ↦ json_add_number closed (codes "count") (decimal_ℤ (negsuc (suc n)))
        | pos n ↦ json_add_number closed (codes "count") (decimal_ℤ (pos n))
      ] in
      json_end_object counted

  -- `while (api->has_results(conn->db))`, on fuel; the rows get what is left of it.
  unfoldable pub results_loop : ℕ → D → Json → Option (Json × D)
  results_loop zero db j = none
  results_loop (suc fuel) db j = elim (api.has_results db).0 [
    | false ↦ some (j, (api.has_results db).1)
    | true ↦
        let at = (api.has_results db).1 in
        elim (rows_loop fuel (api.numcols at) at (open_result at j)) [
          | none ↦ none
          | some (j', db') ↦ results_loop fuel db' (close_result db' j')
        ]
  ]

  unfoldable pub dbrelay_db_fill_data : ℕ → D → Json → Option (Json × D)
  dbrelay_db_fill_data fuel db j =
      elim (results_loop fuel db (json_new_array (json_add_key j (codes "data")))) [
        | none ↦ none
        | some (j', db') ↦ some (json_end_array j', db')
      ]

  -- A statement of the transaction, if the request wants one.
  unfoldable pub transact : ℕ → Bytes → D → D
  transact flags sql db = if has_flag flags xact then (api.exec db sql).1 else db

  -- `dbrelay_exec_query`: the text and the state, on the fuel of `dbrelay_db_fill_data`. The inner
  -- `none` is the null pointer that is returned if the statement fails.
  unfoldable pub dbrelay_exec_query : ℕ → D → Bytes → Bytes → ℕ → Option (Option Bytes × D)
  dbrelay_exec_query fuel db database sql flags =
      let begun = transact flags api.begin_sql (api.change_db db database) in
      elim (api.exec begun sql).0 [
        | false ↦ some (none, transact flags api.rollback_sql (api.exec begun sql).1)
        | true ↦ elim (dbrelay_db_fill_data fuel (api.exec begun sql).1 (answer_writer flags)) [
          | none ↦ none
          | some (j, db') ↦ some (some (json_to_string j), transact flags api.commit_sql db')
        ]
      ]
