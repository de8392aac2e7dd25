-- ===== src/Json/Modes.antt =====
-- The mode of the writer of src/json.c: only `json_set_mode` changes it.
use ngx_dbrelay.Base.{
  ℕ, zero, suc, ◌≡◌, refl, ◌∙◌, List, [], ◌∷◌, ◌++◌, arith, Bytes, codes, Bool-cases, inl, inr,
}
use ngx_dbrelay.Json.{
  Json, Node, NodeType, append, append_pretty, tab_rounds, rounds_of, json_tab, separate, enter,
  leave, json_push, key_lead, json_new_object, json_new_array, json_end_object, json_end_array,
  json_add_key, json_add_number, json_add_null, json_add_string, is_printable, append_nonprintable,
  add_string_loop,
}

append-mode : (j : Json) (s : Bytes) → (append j s).mode ≡ j.mode
unfolding append
append-mode j s = refl

append_pretty-mode : (j : Json) (s : Bytes) → (append_pretty j s).mode ≡ j.mode
unfolding append_pretty append
append_pretty-mode j s = ground arith

tab_rounds-mode : (n : ℕ) (j : Json) → (tab_rounds n j).mode ≡ j.mode
unfolding tab_rounds append
tab_rounds-mode zero j = refl
tab_rounds-mode (suc n) j = tab_rounds-mode n (append j (codes "   "))

json_tab-mode : (j : Json) → (json_tab j).mode ≡ j.mode
unfolding json_tab
json_tab-mode j = ground (arith, tab_rounds-mode (rounds_of j.tab_level) j)

separate-mode : (j : Json) → (separate j).mode ≡ j.mode
unfolding separate append_pretty append
separate-mode j = elim (Bool-cases j.pending) [
  | inl waits ↦ rw waits refl
  | inr free ↦ rw free (json_tab-mode _ ∙ ground arith)
]

enter-mode : (t : NodeType) (s : Bytes) (j : Json) → (enter t s j).mode ≡ j.mode
unfolding enter json_push
enter-mode t s j = append_pretty-mode (append j s) (codes "\n") ∙ append-mode j s

leave-mode : (s : Bytes) (j : Json) → (leave s j).mode ≡ j.mode
unfolding leave append
leave-mode s j = json_tab-mode _ ∙ append_pretty-mode _ (codes "\n")

pub json_new_object-mode : (j : Json) → (json_new_object j).mode ≡ j.mode
unfolding json_new_object
json_new_object-mode j = enter-mode _ _ (separate j) ∙ separate-mode j

pub json_new_array-mode : (j : Json) → (json_new_array j).mode ≡ j.mode
unfolding json_new_array
json_new_array-mode j = enter-mode _ _ (separate j) ∙ separate-mode j

pub json_end_object-mode : (j : Json) → (json_end_object j).mode ≡ j.mode
unfolding json_end_object
json_end_object-mode j = leave-mode _ j

pub json_end_array-mode : (j : Json) → (json_end_array j).mode ≡ j.mode
unfolding json_end_array
json_end_array-mode j = leave-mode _ j

key_lead-mode : (ns : List Node) (j : Json) → (key_lead ns j).mode ≡ j.mode
unfolding key_lead append
key_lead-mode [] j = refl
key_lead-mode (n ∷ ns) j = ground (arith, json_tab-mode j)

pub json_add_key-mode : (j : Json) (k : Bytes) → (json_add_key j k).mode ≡ j.mode
unfolding json_add_key append
json_add_key-mode j k =
    append_pretty-mode _ (codes " ") ∙ append_pretty-mode _ (codes " ") ∙ key_lead-mode j.stack j

pub json_add_number-mode : (j : Json) (k v : Bytes) → (json_add_number j k v).mode ≡ j.mode
unfolding json_add_number append
json_add_number-mode j k v = json_add_key-mode j k

pub json_add_null-mode : (j : Json) (k : Bytes) → (json_add_null j k).mode ≡ j.mode
unfolding json_add_null append
json_add_null-mode j k = json_add_key-mode j k

add_string_loop-mode : (j : Json) (first s : Bytes) → (add_string_loop j first s).mode ≡ j.mode
unfolding add_string_loop append_nonprintable append
add_string_loop-mode j first [] = refl
add_string_loop-mode j first (c ∷ s) = elim (Bool-cases (is_printable c)) [
  | inl plain ↦ rw (plain, add_string_loop) (add_string_loop-mode j (first ++ c ∷ []) s)
  | inr odd ↦
      rw (odd, add_string_loop) (add_string_loop-mode (append_nonprintable (append j first) c) [] s)
]

pub json_add_string-mode : (j : Json) (k v : Bytes) → (json_add_string j k v).mode ≡ j.mode
unfolding json_add_string append
json_add_string-mode j k v =
    add_string_loop-mode (append (json_add_key j k) (codes "\"")) [] v ∙ json_add_key-mode j k
