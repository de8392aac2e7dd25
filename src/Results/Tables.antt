-- ===== src/Results/Tables.antt =====
-- A reference description of an answer: tables of columns and cells, the document that shows them,
-- and what it means that a driver delivers them. Nothing here mentions the writer.
use ngx_dbrelay.Base.{
  ℕ, zero, suc, ◌+◌, ◌≡◌, true, false, List, [], ◌∷◌, none, some, Bytes, codes, length,
  if◌then◌else◌,
}
use ngx_dbrelay.Base.Int.{ℤ, pos, negsuc}
use ngx_dbrelay.Base.Decimal.{decimal_ℤ}
use ngx_dbrelay.Json.Print.{
  Tree, arr, obj, Items, nil, cons, Fields, end, string_field, number_field, null_field, tree_field,
}
use ngx_dbrelay.Results.{DbApi, name_column, is_zero_ℤ}

pub record Column : Type 0 where
  pub colname : Bytes
  pub coltype : Bytes
  pub collen : ℤ
  pub colprec : ℤ
  pub colscale : ℤ

pub data Cell : Type 0 where
  null : Cell
  quoted bare : Bytes → Cell

-- A result; `count` is the driver's count of rows, -1 if it has none.
pub record Table : Type 0 where
  pub columns : List Column
  pub rows : List (List Cell)
  pub count : ℤ

abbrev pub size_field : Bytes → ℤ → Fields → Fields
size_field k l fs = if is_zero_ℤ l then fs else number_field k (decimal_ℤ l) fs

abbrev pub column_tree : Bytes → Column → Tree
column_tree name c = obj (
    string_field (codes "name") name (
      string_field (codes "sql_type") c.coltype (
        size_field (codes "length") c.collen
          (size_field (codes "precision") c.colprec (size_field (codes "scale") c.colscale end)))))

abbrev pub column_items : ℕ → List Column → Items
column_items max [] = nil
column_items max (c ∷ cs) =
    cons (column_tree (name_column max c.colname).0 c)
      (column_items (name_column max c.colname).1 cs)

abbrev pub cell_field : Bytes → Cell → Fields → Fields
cell_field k null fs = null_field k fs
cell_field k (quoted v) fs = string_field k v fs
cell_field k (bare v) fs = number_field k v fs

-- The fields of a row have the names that the columns are listed with.
abbrev pub row_fields : ℕ → List Column → List Cell → Fields
row_fields max (c ∷ cs) (v ∷ vs) =
    cell_field (name_column max c.colname).0 v (row_fields (name_column max c.colname).1 cs vs)
row_fields max _ _ = end

abbrev pub row_items : List Column → List (List Cell) → Items
row_items cs [] = nil
row_items cs (r ∷ rs) = cons (obj (row_fields 0 cs r)) (row_items cs rs)

abbrev pub count_field : ℤ → Fields
count_field (negsuc zero) = null_field (codes "count") end
count_field (negsuc (suc n)) = number_field (codes "count") (decimal_ℤ (negsuc (suc n))) end
count_field (pos n) = number_field (codes "count") (decimal_ℤ (pos n)) end

abbrev pub table_tree : Table → Tree
table_tree t = obj (
    tree_field (codes "fields") (arr (column_items 0 t.columns))
      (tree_field (codes "rows") (arr (row_items t.columns t.rows)) (count_field t.count)))

abbrev pub table_items : List Table → Items
table_items [] = nil
table_items (t ∷ ts) = cons (table_tree t) (table_items ts)

-- The rounds that the loops take for the tables.
abbrev pub rounds : List Table → ℕ
rounds [] = 1
rounds (t ∷ ts) = 1 + (length t.rows + rounds ts)

module _ {D : Type 0} (api : DbApi D) where
  -- The columns of a result, from number `k` on.
  abbrev pub Describes : D → ℕ → List Column → Type 0
  Describes db k [] = Unit
  Describes db k (c ∷ cs) =
      (api.colname db k ≡ c.colname)
      × (api.coltype db k ≡ c.coltype)
      × (api.collen db k ≡ c.collen)
      × (api.colprec db k ≡ c.colprec)
      × (api.colscale db k ≡ c.colscale)
      × Describes db (k + 1) cs

  -- What the driver says of a value.
  abbrev pub HasCell : D → ℕ → Cell → Type 0
  HasCell db k null = api.colvalue db k ≡ none
  HasCell db k (quoted v) = (api.colvalue db k ≡ some v) × (api.is_quoted db k ≡ true)
  HasCell db k (bare v) = (api.colvalue db k ≡ some v) × (api.is_quoted db k ≡ false)

  -- The values of a row, from number `k` on.
  abbrev pub HasCells : D → ℕ → List Column → List Cell → Type 0
  HasCells db k [] [] = Unit
  HasCells db k (c ∷ cs) (v ∷ vs) =
      (api.colname db k ≡ c.colname) × HasCell db k v × HasCells db (k + 1) cs vs
  HasCells db k _ _ = ⊥

  -- The fetches of the rows, up to the one that reports the end.
  abbrev pub Fetches : D → List Column → List (List Cell) → D → Type 0
  Fetches db cs [] db' = api.fetch_row db ≡ (false, db')
  Fetches db cs (r ∷ rs) db' =
      (at : D) × (api.fetch_row db ≡ (true, at)) × HasCells at 1 cs r × Fetches at cs rs db'

  -- The results, up to the call that reports the end.
  abbrev pub Delivers : D → List Table → D → Type 0
  Delivers db [] db' = api.has_results db ≡ (false, db')
  Delivers db (t ∷ ts) db' =
      (at : D) × (behind : D) × (api.has_results db ≡ (true, at))
      × (api.numcols at ≡ length t.columns)
      × Describes at 1 t.columns
      × Fetches at t.columns t.rows behind
      × (api.rowcount behind ≡ t.count)
      × Delivers behind ts db'
