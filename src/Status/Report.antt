-- ===== src/Status/Report.antt =====
-- The report of `dbrelay_db_status` of src/db.c against a description of it as a tree.
use ngx_dbrelay.Base.{
  ℕ, ◌≡◌, refl, ap, ◌∙◌, false, [], ◌∷◌, Bytes, codes, ◌==◌, if◌then◌else◌, Bool-cases, inl, inr,
}
use ngx_dbrelay.Base.Decimal.{decimal, decimal_ℤ}
use ngx_dbrelay.Json.{
  Json, json_new, json_pretty_print, json_to_string, json_end_object, json_end_array,
}
use ngx_dbrelay.Json.Print.{
  Tree, arr, obj, Items, nil, cons, end, string_field, number_field, tree_field, print_tree,
}
use ngx_dbrelay.Json.Writer.Trees.{write_tree, write_items, document-print_tree}
use ngx_dbrelay.Pool.{Connection, Connections}
use ngx_dbrelay.Status.{write_slot, status_loop, dbrelay_db_status}

module _ (format_time : ℕ → Bytes) where
  abbrev pub slot_tree : Connection → Tree
  slot_tree c = obj (
      number_field (codes "slot") (decimal c.slot) (
        number_field (codes "pid") (decimal c.pid) (
          string_field (codes "name") c.connection_name (
            string_field (codes "tm_created") (format_time c.tm_create) (
              string_field (codes "tm_accessed") (format_time c.tm_accessed) (
                string_field (codes "sql_server") c.sql_server (
                  string_field (codes "sql_port") c.sql_port (
                    string_field (codes "sql_database") c.sql_database (
                      string_field (codes "sql_user") c.sql_user (
                        number_field (codes "connection_timeout") (decimal_ℤ c.connection_timeout) (
                          number_field (codes "in_use") (decimal c.in_use) (
                            string_field (codes "sock_path") c.sock_path (
                              number_field (codes "helper_pid") (decimal c.helper_pid)
                                end)))))))))))))

  -- The slots in use, in the pool's order.
  abbrev pub slot_items : Connections → Items
  slot_items [] = nil
  slot_items (c ∷ cs) = if c.pid == 0 then slot_items cs else cons (slot_tree c) (slot_items cs)

  abbrev pub status_tree : (build ipckey : Bytes) → Connections → Tree
  status_tree build ipckey cs = obj (
      tree_field (codes "status")
        (obj (
          tree_field (codes "info")
            (obj (string_field (codes "build") build (string_field (codes "ipckey") ipckey end)))
            (tree_field (codes "connections") (arr (slot_items cs)) end)))
        end)

  status_loop-slot_items :
      (cs : Connections) (j : Json) → status_loop format_time cs j ≡ write_items (slot_items cs) j
  unfolding status_loop write_slot write_tree
  status_loop-slot_items [] j = refl
  status_loop-slot_items (c ∷ cs) j = elim (Bool-cases (c.pid == 0)) [
    | inl free ↦ rw free (status_loop-slot_items cs j)
    | inr used ↦ rw used (status_loop-slot_items cs _)
  ]

  -- The report is the compact text of a tree that lists exactly the slots in use, in order, each with
  -- its number, owner, times, database, users and connector; it has no field for a password.
  pub dbrelay_db_status-status_tree :
      (build ipckey : Bytes) (cs : Connections)
      → dbrelay_db_status format_time build ipckey cs
        ≡ print_tree false 0 (status_tree build ipckey cs)
  unfolding dbrelay_db_status write_tree json_pretty_print json_new
  dbrelay_db_status-status_tree build ipckey cs =
      ap (λ (x : Json). json_to_string (json_end_object (json_end_object (json_end_array x))))
        (status_loop-slot_items cs _)
      ∙ document-print_tree false (status_tree build ipckey cs)
