-- ===== src/Json/Writer/Styles.antt =====
-- The calls that write a tree with the writer of src/json.c leave its mode.
use ngx_dbrelay.Base.{◌≡◌, refl, ◌∙◌}
use ngx_dbrelay.Json.{
  Json, json_new_object, json_new_array, json_add_key, json_add_string, json_add_number,
  json_add_null,
}
use ngx_dbrelay.Json.Modes.{
  json_new_object-mode, json_new_array-mode, json_end_object-mode, json_end_array-mode,
  json_add_key-mode, json_add_string-mode, json_add_number-mode, json_add_null-mode,
}
use ngx_dbrelay.Json.Print.{
  Tree, arr, obj, Items, nil, cons, Fields, end, string_field, number_field, null_field, tree_field,
}
use ngx_dbrelay.Json.Writer.Trees.{write_tree, write_items, write_fields}

mutual
  unfolding write_tree

  pub write_tree-mode : (t : Tree) (j : Json) → (write_tree t j).mode ≡ j.mode
  write_tree-mode (arr xs) j =
      json_end_array-mode _ ∙ (write_items-mode xs (json_new_array j) ∙ json_new_array-mode j)
  write_tree-mode (obj fs) j =
      json_end_object-mode _ ∙ (write_fields-mode fs (json_new_object j) ∙ json_new_object-mode j)

  pub write_items-mode : (xs : Items) (j : Json) → (write_items xs j).mode ≡ j.mode
  write_items-mode nil j = refl
  write_items-mode (cons t xs) j = write_items-mode xs (write_tree t j) ∙ write_tree-mode t j

  pub write_fields-mode : (fs : Fields) (j : Json) → (write_fields fs j).mode ≡ j.mode
  write_fields-mode end j = refl
  write_fields-mode (string_field k s fs) j =
      write_fields-mode fs (json_add_string j k s) ∙ json_add_string-mode j k s
  write_fields-mode (number_field k n fs) j =
      write_fields-mode fs (json_add_number j k n) ∙ json_add_number-mode j k n
  write_fields-mode (null_field k fs) j =
      write_fields-mode fs (json_add_null j k) ∙ json_add_null-mode j k
  write_fields-mode (tree_field k t fs) j =
      write_fields-mode fs (write_tree t (json_add_key j k))
      ∙ (write_tree-mode t (json_add_key j k) ∙ json_add_key-mode j k)
