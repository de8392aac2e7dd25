-- ===== src/Results/Filling.antt =====
-- `dbrelay_db_fill_data` and `dbrelay_exec_query` of src/db.c: the answer in standard mode is the
-- document of the tables that the driver delivers.
use ngx_dbrelay.Base.{
  ℕ, zero, suc, ◌<◌, ◌≤◌, ◌≡◌, refl, ap, ap₂, ◌∙◌, Bool, true, false, List, [], ◌∷◌, ◌++◌, Option,
  none, some, arith, Bytes, codes, length, Bool-cases, inl, inr,
}
use ngx_dbrelay.Base.Int.{ℤ, pos, negsuc}
use ngx_dbrelay.Base.Decimal.{decimal_ℤ}
use ngx_dbrelay.Request.{has_flag, pp, embedcsv}
use ngx_dbrelay.Json.{
  Json, std, json_new, json_pretty_print, json_get_mode, json_to_string, json_new_object,
  json_end_object, json_new_array, json_end_array, json_add_key, json_add_number, json_add_null,
  json_add_json,
}
use ngx_dbrelay.Json.Modes.{json_new_object-mode, json_new_array-mode, json_add_key-mode}
use ngx_dbrelay.Json.Print.{arr, end, tree_field, bare_key, print_tree}
use ngx_dbrelay.Json.Writer.Trees.{write_tree, write_items, write_fields, member-bare_key}
use ngx_dbrelay.Results.{
  DbApi, by_mode, write_row, rows_loop, open_result, close_result, results_loop,
  dbrelay_db_fill_data, answer_writer, transact, dbrelay_exec_query,
}
use ngx_dbrelay.Results.Tables.{
  Column, Cell, Table, column_items, row_items, count_field, table_tree, table_items, rounds,
  Describes, Fetches, Delivers,
}
use ngx_dbrelay.Results.Columns.{by_mode-std, info_loop-column_items, write_row-row_fields}
use ngx_dbrelay.Json.Writer.Styles.{write_tree-mode, write_items-mode}

rounds_row : (t : Table) (ts : List Table) (f : ℕ) → rounds (t ∷ ts) ≤ suc f → length t.rows < f
rounds_row t [] f h = omega arith
rounds_row t (u ∷ us) f h = omega arith

module _ {D : Type 0} (api : DbApi D) where
  rows_loop_done :
      (f n : ℕ) (db db' : D) (j : Json)
      → api.fetch_row db ≡ (false, db')
      → rows_loop api (suc f) n db j ≡ some (j, db')
  unfolding rows_loop
  rows_loop_done f n db db' j h = rw (h, rows_loop) (ap (λ (r : Bool × D). some (j, r.1)) h)

  rows_loop_row :
      (f n : ℕ) (db at : D) (j : Json)
      → api.fetch_row db ≡ (true, at)
      → rows_loop api (suc f) n db j ≡ rows_loop api f n at (write_row api n at j)
  unfolding rows_loop
  rows_loop_row f n db at j h =
      rw (h, rows_loop) (ap (λ (r : Bool × D). rows_loop api f n r.1 (write_row api n r.1 j)) h)

  -- The rows of a result.
  rows_loop-row_items :
      (fuel : ℕ) (db db' : D) (cs : List Column) (rows : List (List Cell)) (j : Json)
      → j.mode ≡ std
      → Fetches api db cs rows db'
      → length rows < fuel
      → rows_loop api fuel (length cs) db j ≡ some (write_items (row_items cs rows) j, db')
  rows_loop-row_items zero db db' cs rows j m h enough = absurd (omega arith)
  rows_loop-row_items (suc f) db db' cs [] j m h enough =
      rows_loop_done f (length cs) db db' j h ∙ unfold write_tree in refl
  rows_loop-row_items (suc f) db db' cs (r ∷ rows) j m (at, h, cells, more) enough =
      let (row, m') = write_row-row_fields api at cs r j m cells in
      rows_loop_row f (length cs) db at j h
      ∙ (rows_loop-row_items f at db' cs rows (write_row api (length cs) at j) m' more (omega arith)
          ∙ ap (λ (x : Json). some (write_items (row_items cs rows) x, db')) row
          ∙ unfold write_tree in refl)

  -- The writer in front of the rows of a result.
  abbrev keyed : List Column → Json → Json
  keyed cs j =
      json_add_key
        (write_tree (arr (column_items 0 cs)) (json_add_key (json_new_object j) (codes "fields")))
        (codes "rows")

  keyed-mode : (cs : List Column) (j : Json) → (keyed cs j).mode ≡ j.mode
  keyed-mode cs j =
      json_add_key-mode _ _
      ∙ (write_tree-mode (arr (column_items 0 cs)) _
          ∙ (json_add_key-mode _ _ ∙ json_new_object-mode j))

  open_result-keyed :
      (db : D) (cs : List Column) (j : Json)
      → j.mode ≡ std
      → api.numcols db ≡ length cs
      → Describes api db 1 cs
      → open_result api db j ≡ json_new_array (keyed cs j)
  unfolding open_result json_get_mode write_tree
  open_result-keyed db cs j m n h = rw n (
      ap
        (λ (x : Json).
          let k = json_add_key (json_end_array x) (codes "rows") in
          by_mode k.mode (json_add_json k (codes "\"")) (json_new_array k))
        (info_loop-column_items api db cs 1 0 _ h)
      ∙ by_mode-std _ _ _ (keyed-mode cs j ∙ m))

  close_result-count_field :
      (db : D) (count : ℤ) (j : Json)
      → j.mode ≡ std
      → api.rowcount db ≡ count
      → close_result api db j
        ≡ json_end_object (write_fields (count_field count) (json_end_array j))
  unfolding close_result json_get_mode write_tree
  close_result-count_field db (pos n) j m h =
      rw (h, close_result)
        (ap (λ (x : Json). json_end_object (json_add_number x (codes "count") (decimal_ℤ (pos n))))
          (by_mode-std _ _ _ m))
  close_result-count_field db (negsuc zero) j m h =
      rw (h, close_result)
        (ap (λ (x : Json). json_end_object (json_add_null x (codes "count"))) (by_mode-std _ _ _ m))
  close_result-count_field db (negsuc (suc n)) j m h =
      rw (h, close_result)
        (ap
          (λ (x : Json).
            json_end_object (json_add_number x (codes "count") (decimal_ℤ (negsuc (suc n)))))
          (by_mode-std _ _ _ m))

  results_loop_done :
      (f : ℕ) (db db' : D) (j : Json)
      → api.has_results db ≡ (false, db')
      → results_loop api (suc f) db j ≡ some (j, db')
  unfolding results_loop
  results_loop_done f db db' j h = rw (h, results_loop) (ap (λ (r : Bool × D). some (j, r.1)) h)

  abbrev continue : ℕ → Option (Json × D) → Option (Json × D)
  continue f none = none
  continue f (some (j, db)) = results_loop api f db (close_result api db j)

  results_loop_result :
      (f : ℕ) (db at : D) (j : Json)
      → api.has_results db ≡ (true, at)
      → results_loop api (suc f) db j
        ≡ continue f (rows_loop api f (api.numcols at) at (open_result api at j))
  unfolding results_loop
  results_loop_result f db at j h =
      rw (h, results_loop)
        (go _
          ∙ ap
              (λ (r : Bool × D).
                continue f (rows_loop api f (api.numcols r.1) r.1 (open_result api r.1 j)))
              h)
    where
      go :
          (r : Option (Json × D))
          → (elim r as (λ x. Option (Json × D)) [
            | none ↦ none
            | some (j', db') ↦ results_loop api f db' (close_result api db' j')
          ])
            ≡ continue f r
      go none = refl
      go (some (j', db')) = refl

  -- The results, in standard mode.
  results_loop-table_items :
      (fuel : ℕ) (db db' : D) (ts : List Table) (j : Json)
      → j.mode ≡ std
      → Delivers api db ts db'
      → rounds ts ≤ fuel
      → results_loop api fuel db j ≡ some (write_items (table_items ts) j, db')
  results_loop-table_items zero db db' [] j m h enough = absurd (omega arith)
  results_loop-table_items zero db db' (t ∷ ts) j m h enough = absurd (omega arith)
  results_loop-table_items (suc f) db db' [] j m h enough =
      results_loop_done f db db' j h ∙ unfold write_tree in refl
  results_loop-table_items (suc f) db db' (t ∷ ts) j m (at, behind, h, n, d, rows, count, more)
        enough =
      let key = keyed t.columns j in
      let arrayed = json_new_array key in
      let opened = open_result-keyed at t.columns j m n d in
      let m1 = json_new_array-mode key ∙ (keyed-mode t.columns j ∙ m) in
      let looped =
        rows_loop-row_items f at behind t.columns t.rows arrayed m1 rows
          (rounds_row t ts f enough) in
      let written = write_items (row_items t.columns t.rows) arrayed in
      let m2 = write_items-mode (row_items t.columns t.rows) arrayed ∙ m1 in
      let closed = close_result-count_field behind t.count written m2 count in
      let same : close_result api behind written ≡ write_tree (table_tree t) j =
        closed ∙ unfold write_tree in refl in
      results_loop_result f db at j h
      ∙ (ap₂ (λ (k : ℕ) (x : Json). continue f (rows_loop api f k at x)) n opened
          ∙ (ap (continue f) looped
              ∙ (ap (results_loop api f behind) same
                  ∙ (results_loop-table_items f behind db' ts (write_tree (table_tree t) j)
                        (write_tree-mode (table_tree t) j ∙ m) more (omega arith)
                      ∙ unfold write_tree in refl))))

  -- In standard mode `dbrelay_db_fill_data` writes the document of exactly the tables that the driver
  -- delivers, each row with the names that its columns are listed with, and stops where the driver
  -- reports the end; fuel for one round for each result and row and one more is enough.
  pub dbrelay_db_fill_data-Delivers :
      (fuel : ℕ) (db db' : D) (ts : List Table) (j : Json)
      → j.mode ≡ std
      → Delivers api db ts db'
      → rounds ts ≤ fuel
      → dbrelay_db_fill_data api fuel db j
        ≡ some (write_fields (tree_field (codes "data") (arr (table_items ts)) end) j, db')
  unfolding dbrelay_db_fill_data
  dbrelay_db_fill_data-Delivers fuel db db' ts j m h enough =
      let key = json_add_key j (codes "data") in
      let m' = json_new_array-mode key ∙ (json_add_key-mode j (codes "data") ∙ m) in
      rw
        (
          results_loop-table_items fuel db db' ts (json_new_array key) m' h enough,
          dbrelay_db_fill_data,
        )
        (unfold write_tree in refl)

  answer_writer-pretty :
      (flags : ℕ)
      → has_flag flags embedcsv ≡ false
      → answer_writer flags ≡ json_pretty_print json_new (has_flag flags pp)
  unfolding answer_writer json_pretty_print json_new
  answer_writer-pretty flags h = elim (Bool-cases (has_flag flags pp)) [
    | inl indented ↦ rw (h, indented) refl
    | inr compact ↦ rw (h, compact) refl
  ]

  exec_lem :
      (fuel : ℕ) (db at db' : D) (database sql : Bytes) (flags : ℕ) (j : Json)
      → api.exec (transact api flags api.begin_sql (api.change_db db database)) sql ≡ (true, at)
      → dbrelay_db_fill_data api fuel at (answer_writer flags) ≡ some (j, db')
      → dbrelay_exec_query api fuel db database sql flags
        ≡ some (some (json_to_string j), transact api flags api.commit_sql db')
  unfolding dbrelay_exec_query
  exec_lem fuel db at db' database sql flags j e h =
      rw (e, dbrelay_exec_query)
        (go _
          ∙ ap finish (
              ap (λ (r : Bool × D). dbrelay_db_fill_data api fuel r.1 (answer_writer flags)) e ∙ h))
    where
      finish : Option (Json × D) → Option (Option Bytes × D)
      finish none = none
      finish (some (x, y)) = some (some (json_to_string x), transact api flags api.commit_sql y)

      go :
          (r : Option (Json × D))
          → (elim r as (λ x. Option (Option Bytes × D)) [
            | none ↦ none
            | some (x, y) ↦ some (some (json_to_string x), transact api flags api.commit_sql y)
          ])
            ≡ finish r
      go none = refl
      go (some (x, y)) = refl

  -- A statement that the database accepts, not in CSV mode: the answer is the text of a field `data`
  -- with the tables that the driver delivers, indented if the request wants it; if it wants a
  -- transaction, begin is run before the statement, and commit after the last result.
  pub dbrelay_exec_query-Delivers :
      (fuel : ℕ) (db at db' : D) (ts : List Table) (database sql : Bytes) (flags : ℕ)
      → has_flag flags embedcsv ≡ false
      → api.exec (transact api flags api.begin_sql (api.change_db db database)) sql ≡ (true, at)
      → Delivers api at ts db'
      → rounds ts ≤ fuel
      → dbrelay_exec_query api fuel db database sql flags
        ≡ some (
          some (
              bare_key (has_flag flags pp) (codes "data")
              ++ print_tree (has_flag flags pp) 0 (arr (table_items ts))),
          transact api flags api.commit_sql db',
        )
  unfolding write_tree
  dbrelay_exec_query-Delivers fuel db at db' ts database sql flags std_mode e h enough =
      let w = answer_writer-pretty flags std_mode in
      let filled =
        dbrelay_db_fill_data-Delivers fuel at db' ts (answer_writer flags)
          (ap (λ (x : Json). x.mode) w ∙ unfold json_pretty_print json_new in refl) h enough in
      let shown =
        ap
          (λ (x : Json).
            json_to_string (write_tree (arr (table_items ts)) (json_add_key x (codes "data"))))
          w
        ∙ member-bare_key (has_flag flags pp) (codes "data") (arr (table_items ts)) in
      exec_lem fuel db at db' database sql flags _ e filled
      ∙ ap (λ (x : Bytes). some (some x, transact api flags api.commit_sql db')) shown
