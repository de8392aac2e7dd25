-- ===== src/Results/Columns.antt =====
-- The writers of columns and of the values of a row, `dbrelay_write_json_colinfo` and
-- `dbrelay_write_json_column` of src/db.c, against the trees that they should write.
use ngx_dbrelay.Base.{
  ℕ, zero, suc, ◌+◌, ◌≡◌, refl, sym, ap, ◌∙◌, not, List, [], ◌∷◌, Bytes, codes, length, ◌==◌,
  if◌then◌else◌,
}
use ngx_dbrelay.Base.Int.{ℤ, pos, negsuc}
use ngx_dbrelay.Json.{
  Json, Mode, std, csv, json_get_mode, json_new_object, json_end_object, json_add_string,
  json_add_json,
}
use ngx_dbrelay.Json.Modes.{
  json_new_object-mode, json_end_object-mode, json_add_string-mode, json_add_number-mode,
  json_add_null-mode,
}
use ngx_dbrelay.Json.Print.{obj, Fields, end}
use ngx_dbrelay.Json.Writer.Trees.{write_tree, write_items, write_fields}
use ngx_dbrelay.Results.{
  DbApi, name_column, add_size, by_mode, dbrelay_write_json_colinfo, dbrelay_write_json_column,
  dbrelay_write_json_column_std, info_loop, value_loop, write_row,
}
use ngx_dbrelay.Results.Tables.{
  Column, Cell, null, quoted, bare, size_field, column_tree, column_items, cell_field, row_fields,
  Describes, HasCell, HasCells,
}

pub by_mode-std {ℓ} : {A : Type ℓ} (a b : A) (m : Mode) → m ≡ std → by_mode m a b ≡ b
by_mode-std a b csv h = absurd (cc)
by_mode-std a b std h = refl

write_fields-size_field :
    (k : Bytes) (l : ℤ) (fs : Fields) (j : Json)
    → write_fields (size_field k l fs) j ≡ write_fields fs (add_size j k l)
unfolding write_tree add_size
write_fields-size_field k (pos zero) fs j = refl
write_fields-size_field k (pos (suc n)) fs j = refl
write_fields-size_field k (negsuc n) fs j = refl

write_fields-end : (j : Json) → write_fields end j ≡ j
unfolding write_tree
write_fields-end j = refl

three_sizes :
    (c : Column) (j : Json)
    → write_fields
        (size_field
          (codes "length")
          c.collen
          (size_field (codes "precision") c.colprec (size_field (codes "scale") c.colscale end)))
        j
      ≡ add_size
          (add_size (add_size j (codes "length") c.collen) (codes "precision") c.colprec)
          (codes "scale")
          c.colscale
three_sizes c j =
    let last = size_field (codes "scale") c.colscale end in
    let sized = add_size j (codes "length") c.collen in
    write_fields-size_field (codes "length") c.collen
      (size_field (codes "precision") c.colprec last) j
    ∙ (write_fields-size_field (codes "precision") c.colprec last sized
        ∙ (write_fields-size_field (codes "scale") c.colscale end
              (add_size sized (codes "precision") c.colprec)
            ∙ write_fields-end _))

-- The fields of a column's object.
write_column : (name : Bytes) (c : Column) (j : Json) → Json
write_column name c j =
    let named = json_add_string (json_new_object j) (codes "name") name in
    let typed = json_add_string named (codes "sql_type") c.coltype in
    let sized = add_size (add_size typed (codes "length") c.collen) (codes "precision") c.colprec in
    json_end_object (add_size sized (codes "scale") c.colscale)

write_column-column_tree :
    (name : Bytes) (c : Column) (j : Json)
    → write_column name c j ≡ write_tree (column_tree name c) j
unfolding write_column write_tree
write_column-column_tree name c j = ap json_end_object (sym (three_sizes c _))

module _ {D : Type 0} (api : DbApi D) where
  colinfo-column_tree :
      (db : D) (k max : ℕ) (c : Column) (cs : List Column) (j : Json)
      → Describes api db k (c ∷ cs)
      → dbrelay_write_json_colinfo api j db k max ≡ (
        write_tree (column_tree (name_column max c.colname).0 c) j,
        (name_column max c.colname).1,
      )
  unfolding dbrelay_write_json_colinfo write_column
  colinfo-column_tree db k max c cs j (n, t, l, p, s, _) =
      rw (n, t, l, p, s)
        (ap (λ (x : Json). (x, (name_column max c.colname).1))
          (write_column-column_tree (name_column max c.colname).0 c j))

  -- The list of the fields.
  pub info_loop-column_items :
      (db : D) (cs : List Column) (k max : ℕ) (j : Json)
      → Describes api db k cs
      → info_loop api (length cs) db k max j ≡ write_items (column_items max cs) j
  unfolding info_loop write_tree
  info_loop-column_items db [] k max j h = refl
  info_loop-column_items db (c ∷ cs) k max j h =
      ap (λ (r : Json × ℕ). info_loop api (length cs) db (k + 1) r.1 r.0)
        (colinfo-column_tree db k max c cs j h)
      ∙ info_loop-column_items db cs (k + 1) (name_column max c.colname).1
          (write_tree (column_tree (name_column max c.colname).0 c) j) h.5

  -- A value of a row, in standard mode.
  column_std-cell_field :
      (db : D) (k : ℕ) (name : Bytes) (v : Cell) (fs : Fields) (j : Json)
      → j.mode ≡ std
      → HasCell api db k v
      → (write_fields fs (dbrelay_write_json_column_std api j db k name)
          ≡ write_fields (cell_field name v fs) j)
        × ((dbrelay_write_json_column_std api j db k name).mode ≡ std)
  unfolding dbrelay_write_json_column_std write_tree
  column_std-cell_field db k name null fs j m h =
      rw (h, dbrelay_write_json_column_std) (refl, json_add_null-mode j name ∙ m)
  column_std-cell_field db k name (quoted v) fs j m (h, q) =
      rw (h, q, dbrelay_write_json_column_std) (refl, json_add_string-mode j name v ∙ m)
  column_std-cell_field db k name (bare v) fs j m (h, q) =
      rw (h, q, dbrelay_write_json_column_std) (refl, json_add_number-mode j name v ∙ m)

  column-std :
      (db : D) (k max : ℕ) (name : Bytes) (j : Json)
      → j.mode ≡ std
      → api.colname db k ≡ name
      → dbrelay_write_json_column api j db k max ≡ (
        dbrelay_write_json_column_std api j db k (name_column max name).0,
        (name_column max name).1,
      )
  unfolding dbrelay_write_json_column json_get_mode
  column-std db k max name j m n = rw n (by_mode-std _ _ _ m)

  value_loop_step :
      (db : D) (left k max : ℕ) (j : Json) (w : Json × ℕ)
      → dbrelay_write_json_column api j db k max ≡ w
      → w.0.mode ≡ std
      → value_loop api (suc left) db k max j ≡ value_loop api left db (k + 1) w.1 w.0
  unfolding value_loop json_get_mode
  value_loop_step db left k max j w e m =
      ap
        (λ (x : Json × ℕ).
          value_loop api left db (k + 1) x.1
            (by_mode x.0.mode (if not (left == 0) then json_add_json x.0 (codes ",") else x.0) x.0))
        e
      ∙ ap (value_loop api left db (k + 1) w.1) (by_mode-std _ _ _ m)

  -- The values of a row, in standard mode.
  value_loop-row_fields :
      (db : D) (cs : List Column) (vs : List Cell) (k max : ℕ) (j : Json)
      → j.mode ≡ std
      → HasCells api db k cs vs
      → (value_loop api (length cs) db k max j ≡ write_fields (row_fields max cs vs) j)
        × ((value_loop api (length cs) db k max j).mode ≡ std)
  value_loop-row_fields db [] [] k max j m h = unfold value_loop write_tree in (refl, m)
  value_loop-row_fields db [] (v ∷ vs) k max j m h = elim h [ ]
  value_loop-row_fields db (c ∷ cs) [] k max j m h = elim h [ ]
  value_loop-row_fields db (c ∷ cs) (v ∷ vs) k max j m (n, h, hs) =
      let name = name_column max c.colname in
      let next = dbrelay_write_json_column_std api j db k name.0 in
      let (same, m') = column_std-cell_field db k name.0 v (row_fields name.1 cs vs) j m h in
      let (rest, m'') = value_loop-row_fields db cs vs (k + 1) name.1 next m' hs in
      let step =
        value_loop_step db (length cs) k max j (next, name.1) (column-std db k max c.colname j m n)
          m' in
      (step ∙ (rest ∙ same), ap (λ (x : Json). x.mode) step ∙ m'')

  write_row_std :
      (db : D) (n : ℕ) (j o : Json)
      → by_mode j.mode j (json_new_object j) ≡ o
      → (value_loop api n db 1 0 o).mode ≡ std
      → write_row api n db j ≡ json_end_object (value_loop api n db 1 0 o)
  unfolding write_row json_get_mode
  write_row_std db n j o e m =
      ap
        (λ (x : Json).
          by_mode (value_loop api n db 1 0 x).mode
            (json_add_json (value_loop api n db 1 0 x) (codes "\\n"))
            (json_end_object (value_loop api n db 1 0 x)))
        e
      ∙ by_mode-std _ _ _ m

  -- A row, in standard mode.
  pub write_row-row_fields :
      (db : D) (cs : List Column) (vs : List Cell) (j : Json)
      → j.mode ≡ std
      → HasCells api db 1 cs vs
      → (write_row api (length cs) db j ≡ write_tree (obj (row_fields 0 cs vs)) j)
        × ((write_row api (length cs) db j).mode ≡ std)
  write_row-row_fields db cs vs j m h =
      let opened : by_mode j.mode j (json_new_object j) ≡ json_new_object j = by_mode-std _ _ _ m in
      let (filled, m') =
        value_loop-row_fields db cs vs 1 0 (json_new_object j) (json_new_object-mode j ∙ m) h in
      let written = write_row_std db (length cs) j (json_new_object j) opened m' in
      (
        written ∙ (ap json_end_object filled ∙ unfold write_tree in refl),
        ap (λ (x : Json). x.mode) written ∙ (json_end_object-mode _ ∙ m'),
      )
