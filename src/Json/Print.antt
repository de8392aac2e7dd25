-- ===== src/Json/Print.antt =====
-- A reference description of the JSON text: documents as trees, and what each looks like, compact
-- or indented. Nothing here mentions the writer's state.
use ngx_dbrelay.Base.{ℕ, zero, suc, Bool, true, false, [], ◌++◌, Bytes, codes, if◌then◌else◌}
use ngx_dbrelay.Json.Escape.{escape}

mutual
  pub data Tree : Type 0 where
    arr : Items → Tree
    obj : Fields → Tree

  pub data Items : Type 0 where
    nil : Items
    cons : Tree → Items → Items

  -- The values of a field: a string, a number's text, null, or a tree.
  pub data Fields : Type 0 where
    end : Fields
    string_field : Bytes → Bytes → Fields → Fields
    number_field : Bytes → Bytes → Fields → Fields
    null_field : Bytes → Fields → Fields
    tree_field : Bytes → Tree → Fields → Fields

-- Line ends, blanks and indents, all absent from compact text.
abbrev pub pretty : Bool → Bytes → Bytes
pretty pp s = if pp then s else []

abbrev pub indent_rounds : ℕ → Bytes
indent_rounds zero = []
indent_rounds (suc d) = codes "   " ++ indent_rounds d

abbrev pub indent : Bool → ℕ → Bytes
indent pp d = pretty pp (indent_rounds d)

-- In front of an element of an array; `more` if another element stands before it.
abbrev pub lead : Bool → ℕ → Bool → Bytes
lead pp d more = (if more then codes "," ++ pretty pp (codes "\n") else []) ++ indent pp d

abbrev pub print_key : Bool → ℕ → Bool → Bytes → Bytes
print_key pp d more k =
    (if more then codes ", " else indent pp d)
    ++ (codes "\""
        ++ (k ++ (codes "\"" ++ (pretty pp (codes " ") ++ (codes ":" ++ pretty pp (codes " "))))))

-- A key that stands outside any object.
abbrev pub bare_key : Bool → Bytes → Bytes
bare_key pp k =
    codes "\""
    ++ (k ++ (codes "\"" ++ (pretty pp (codes " ") ++ (codes ":" ++ pretty pp (codes " ")))))

abbrev pub print_string : Bytes → Bytes
print_string s = codes "\"" ++ (escape s ++ codes "\"")

unfoldable mutual
  pub print_tree : Bool → ℕ → Tree → Bytes
  print_tree pp d (arr xs) =
      codes "["
      ++ (pretty pp (codes "\n")
          ++ (print_items pp (suc d) false xs
              ++ (pretty pp (codes "\n") ++ (indent pp d ++ codes "]"))))
  print_tree pp d (obj fs) =
      codes "{"
      ++ (pretty pp (codes "\n")
          ++ (print_fields pp (suc d) false fs
              ++ (pretty pp (codes "\n") ++ (indent pp d ++ codes "}"))))

  pub print_items : Bool → ℕ → Bool → Items → Bytes
  print_items pp d more nil = []
  print_items pp d more (cons t xs) =
      lead pp d more ++ (print_tree pp d t ++ print_items pp d true xs)

  pub print_fields : Bool → ℕ → Bool → Fields → Bytes
  print_fields pp d more end = []
  print_fields pp d more (string_field k s fs) =
      print_key pp d more k ++ (print_string s ++ print_fields pp d true fs)
  print_fields pp d more (number_field k n fs) =
      print_key pp d more k ++ (n ++ print_fields pp d true fs)
  print_fields pp d more (null_field k fs) =
      print_key pp d more k ++ (codes "null" ++ print_fields pp d true fs)
  print_fields pp d more (tree_field k t fs) =
      print_key pp d more k ++ (print_tree pp d t ++ print_fields pp d true fs)
