-- ===== src/Json/Writer/Trees.antt =====
-- Trees written by the calls of src/json.c, as db.c nests them, and the text they leave.
use ngx_dbrelay.Base.{
  ℕ, zero, ◌+◌, ◌≡◌, ◌∙◌, sym, Bool, true, false, List, ◌∷◌, ◌++◌, arith, append_assoc, append-nil,
  Bytes, codes, ltb,
}
use ngx_dbrelay.Json.Print.{
  Tree, arr, obj, Items, nil, cons, Fields, end, string_field, number_field, null_field, tree_field,
  print_tree, print_items, print_fields, lead, bare_key,
}
use ngx_dbrelay.Json.Writer.Steps.{
  Shows, reshow, append-Shows, separate-Shows, separate_waiting, enter-Shows, leave-Shows,
}
use ngx_dbrelay.Json.Writer.Members.{
  json_add_key-Shows, json_add_key-bare_key, json_add_number-Shows, json_add_null-Shows,
  json_add_string-Shows, json_new-Shows, json_pretty_print-Shows,
}
use ngx_dbrelay.Json.{
  Json, Node, array, object, json_new, json_pretty_print, json_new_object, json_new_array,
  json_end_object, json_end_array, json_add_key, json_add_number, json_add_null, json_add_string,
  json_to_string, json_add_callback, json_end_callback, has_items, count_item,
}

unfoldable mutual
  pub write_tree : Tree → Json → Json
  write_tree (arr xs) j = json_end_array (write_items xs (json_new_array j))
  write_tree (obj fs) j = json_end_object (write_fields fs (json_new_object j))

  pub write_items : Items → Json → Json
  write_items nil j = j
  write_items (cons t xs) j = write_items xs (write_tree t j)

  pub write_fields : Fields → Json → Json
  write_fields end j = j
  write_fields (string_field k s fs) j = write_fields fs (json_add_string j k s)
  write_fields (number_field k n fs) j = write_fields fs (json_add_number j k n)
  write_fields (null_field k fs) j = write_fields fs (json_add_null j k)
  write_fields (tree_field k t fs) j = write_fields fs (write_tree t (json_add_key j k))

-- The count of a node behind the items or fields: a nested value counts twice, with its key.
mutual
  items_count : Items → ℕ → ℕ
  items_count nil n = n
  items_count (cons t xs) n = items_count xs (n + 1)

  fields_count : Fields → ℕ → ℕ
  fields_count end n = n
  fields_count (string_field k s fs) n = fields_count fs (n + 1)
  fields_count (number_field k v fs) n = fields_count fs (n + 1)
  fields_count (null_field k fs) n = fields_count fs (n + 1)
  fields_count (tree_field k t fs) n = fields_count fs (n + 1 + 1)

abbrev node : Bool → ℕ → Node
node true n = record { node_type = array; num_items = n }
node false n = record { node_type = object; num_items = n }

counted : (n : ℕ) → ltb 0 (n + 1) ≡ true
counted n = ground arith

mutual
  unfolding write_tree print_tree json_new_array json_new_object json_end_array json_end_object
      items_count fields_count count_item has_items

  tree-Shows :
      (t : Tree) {j : Json} {pp : Bool} {d : ℕ} {st : List Node} {out : Bytes}
      → Shows j pp d st false out
      → Shows
          (write_tree t j)
          pp
          d
          (count_item st)
          false
          (out ++ (lead pp d (has_items st) ++ print_tree pp d t))
  tree-Shows (arr xs) h = reshow (simp append_assoc) (
      leave-Shows (codes "]")
        (items-Shows xs zero (enter-Shows array (codes "[") (separate-Shows h))))
  tree-Shows (obj fs) h = reshow (simp append_assoc) (
      leave-Shows (codes "}")
        (fields-Shows fs zero (enter-Shows object (codes "{") (separate-Shows h))))

  -- Behind a key.
  value-Shows :
      (t : Tree) {j : Json} {pp : Bool} {d : ℕ} {st : List Node} {out : Bytes}
      → Shows j pp d st true out
      → Shows (write_tree t j) pp d (count_item st) false (out ++ print_tree pp d t)
  value-Shows (arr xs) h = rw (separate_waiting h) (
      reshow (simp append_assoc)
        (leave-Shows (codes "]") (items-Shows xs zero (enter-Shows array (codes "[") h))))
  value-Shows (obj fs) h = rw (separate_waiting h) (
      reshow (simp append_assoc)
        (leave-Shows (codes "}") (fields-Shows fs zero (enter-Shows object (codes "{") h))))

  items-Shows :
      (xs : Items) (n : ℕ) {j : Json} {pp : Bool} {d : ℕ} {st : List Node} {out : Bytes}
      → Shows j pp d (node true n ∷ st) false out
      → Shows
          (write_items xs j)
          pp
          d
          (node true (items_count xs n) ∷ st)
          false
          (out ++ print_items pp d (ltb 0 n) xs)
  items-Shows nil n h = reshow (sym (append-nil _)) h
  items-Shows (cons t xs) n h =
      reshow (rw (counted n) (simp append_assoc)) (items-Shows xs (n + 1) (tree-Shows t h))

  fields-Shows :
      (fs : Fields) (n : ℕ) {j : Json} {pp : Bool} {d : ℕ} {st : List Node} {out : Bytes}
      → Shows j pp d (node false n ∷ st) false out
      → Shows
          (write_fields fs j)
          pp
          d
          (node false (fields_count fs n) ∷ st)
          false
          (out ++ print_fields pp d (ltb 0 n) fs)
  fields-Shows end n h = reshow (sym (append-nil _)) h
  fields-Shows (string_field k s fs) n h =
      reshow (rw (counted n) (simp append_assoc))
        (fields-Shows fs (n + 1) (json_add_string-Shows (node false n) k h s))
  fields-Shows (number_field k v fs) n h =
      reshow (rw (counted n) (simp append_assoc))
        (fields-Shows fs (n + 1) (json_add_number-Shows (node false n) k h v))
  fields-Shows (null_field k fs) n h =
      reshow (rw (counted n) (simp append_assoc))
        (fields-Shows fs (n + 1) (json_add_null-Shows (node false n) k h))
  fields-Shows (tree_field k t fs) n h =
      reshow (rw (counted (n + 1)) (simp append_assoc))
        (fields-Shows fs (n + 1 + 1) (value-Shows t (json_add_key-Shows (node false n) k h)))

-- The document that the writer leaves for a tree.
abbrev pub document : Bool → Tree → Bytes
document pp t = json_to_string (write_tree t (json_pretty_print json_new pp))

-- Whatever tree is written, compact or indented, the text is the reference text of the tree: every
-- separator, bracket, indent and quote stands where the format wants it.
pub document-print_tree :
    (pp : Bool) (t : Tree) → document pp t ≡ lead pp 0 false ++ print_tree pp 0 t
unfolding has_items
document-print_tree pp t = (tree-Shows t (json_pretty_print-Shows pp json_new-Shows)).text

-- The text of a key and a tree that are written outside any object.
pub member-bare_key :
    (pp : Bool) (k : Bytes) (t : Tree)
    → json_to_string (write_tree t (json_add_key (json_pretty_print json_new pp) k))
      ≡ bare_key pp k ++ print_tree pp 0 t
member-bare_key pp k t =
    (value-Shows t (json_add_key-bare_key k (json_pretty_print-Shows pp json_new-Shows))).text

-- A text in the call of a JavaScript function.
abbrev pub call_text : Bytes → Bytes → Bytes
call_text name text = name ++ (codes "(" ++ (text ++ codes ");"))

-- The text of a tree that is written in a callback.
pub callback-call_text :
    (pp : Bool) (name : Bytes) (t : Tree)
    → json_to_string
        (json_end_callback (write_tree t (json_add_callback (json_pretty_print json_new pp) name)))
      ≡ call_text name (lead pp 0 false ++ print_tree pp 0 t)
unfolding json_add_callback json_end_callback has_items
callback-call_text pp name t =
    (append-Shows (codes ");") (
      tree-Shows t (
        append-Shows (codes "(")
          (append-Shows name (json_pretty_print-Shows pp json_new-Shows))))).text
    ∙ simp append_assoc
