-- ===== src/Json/Writer/Members.antt =====
-- What the calls of the writer in src/json.c for the keys and the values of an object do, and how a
-- document starts.
use ngx_dbrelay.Base.{
  ℕ, ◌≡◌, refl, sym, ap, subst, Bool, true, false, List, [], ◌∷◌, ◌++◌, none, append_assoc,
  append-nil, Bytes, codes, ltb, if◌then◌else◌, Bool-cases, inl, inr,
}
use ngx_dbrelay.StringBuf.Laws.{sb_to_char-sb_new}
use ngx_dbrelay.Json.Print.{bare_key, indent, print_key, print_string}
use ngx_dbrelay.Json.Escape.{escape}
use ngx_dbrelay.Json.{
  Json, Node, json_new, json_to_string, append, json_tab, count_item, key_lead, json_add_key,
  json_add_number, json_add_null, is_printable, escape_sequence, append_nonprintable,
  add_string_loop, json_add_string, json_pretty_print,
}
use ngx_dbrelay.Json.Writer.Steps.{
  Shows, reshow, append-Shows, append_pretty-Shows, json_tab-Shows, recount-Shows, wait-Shows,
}

key_lead_more :
    (j : Json) (n : Node) (st : List Node)
    → ltb 0 n.num_items ≡ true
    → j.pending ≡ false
    → key_lead (n ∷ st) j
      ≡ record (append j (codes ", ")) { stack = count_item (append j (codes ", ")).stack }
unfolding key_lead
key_lead_more j n st h k = simp (h, k)

key_lead_first :
    (j : Json) (n : Node) (st : List Node)
    → ltb 0 n.num_items ≡ false
    → key_lead (n ∷ st) j ≡ record (json_tab j) { stack = count_item (json_tab j).stack }
unfolding key_lead
key_lead_first j n st h = simp h

-- In front of a key of the object whose node is `n`.
key_lead-Shows :
    {j : Json} {pp : Bool} {d : ℕ} {st : List Node} {out : Bytes} (n : Node)
    → Shows j pp d (n ∷ st) false out
    → Shows
        (key_lead (n ∷ st) j)
        pp
        d
        (count_item (n ∷ st))
        false
        (out ++ (if ltb 0 n.num_items then codes ", " else indent pp d))
key_lead-Shows {j} {pp} {d} {st} {out} n h = elim (Bool-cases (ltb 0 n.num_items)) [
  | inl more ↦
      rw (key_lead_more j n st more h.waiting, more) (recount-Shows (append-Shows (codes ", ") h))
  | inr first ↦ rw (key_lead_first j n st first, first) (recount-Shows (json_tab-Shows h))
]

key_lead_open :
    {j : Json} {pp : Bool} {d : ℕ} {st : List Node} {out : Bytes} (n : Node)
    → Shows j pp d (n ∷ st) false out
    → Shows
        (key_lead j.stack j)
        pp
        d
        (count_item (n ∷ st))
        false
        (out ++ (if ltb 0 n.num_items then codes ", " else indent pp d))
key_lead_open {j} {pp} {d} {st} {out} n h =
    subst
      (λ s.
        Shows (key_lead s j) pp d (count_item (n ∷ st)) false
          (out ++ (if ltb 0 n.num_items then codes ", " else indent pp d)))
      (sym h.open_nodes) (key_lead-Shows n h)

pub json_add_key-Shows :
    {j : Json} {pp : Bool} {d : ℕ} {st : List Node} {out : Bytes} (n : Node) (k : Bytes)
    → Shows j pp d (n ∷ st) false out
    → Shows
        (json_add_key j k)
        pp
        d
        (count_item (n ∷ st))
        true
        (out ++ print_key pp d (ltb 0 n.num_items) k)
unfolding json_add_key
json_add_key-Shows n k h = wait-Shows true (
    reshow (simp append_assoc) (
      append_pretty-Shows (codes " ") (
        append-Shows (codes ":") (
          append_pretty-Shows (codes " ") (
            append-Shows (codes "\"")
              (append-Shows k (append-Shows (codes "\"") (key_lead_open n h))))))))

-- A key in front of which nothing is open.
pub json_add_key-bare_key :
    {j : Json} {pp : Bool} {d : ℕ} {out : Bytes} (k : Bytes)
    → Shows j pp d [] false out
    → Shows (json_add_key j k) pp d [] true (out ++ bare_key pp k)
unfolding json_add_key key_lead
json_add_key-bare_key {j} {pp} {d} {out} k h =
    let lead = subst (λ s. Shows (key_lead s j) pp d [] false out) (sym h.open_nodes) h in
    wait-Shows true (
      reshow (simp append_assoc) (
        append_pretty-Shows (codes " ") (
          append-Shows (codes ":") (
            append_pretty-Shows (codes " ")
              (append-Shows (codes "\"") (append-Shows k (append-Shows (codes "\"") lead)))))))

add_string_loop-Shows :
    (s first : Bytes) {j : Json} {pp : Bool} {d : ℕ} {st : List Node} {waits : Bool} {out : Bytes}
    → Shows j pp d st waits out
    → Shows (add_string_loop j first s) pp d st waits (out ++ (first ++ escape s))
unfolding escape append_nonprintable add_string_loop
add_string_loop-Shows [] first {out = o} h =
    unfold add_string_loop escape in
    reshow (ap (λ t. o ++ t) (sym (append-nil first))) (append-Shows first h)
add_string_loop-Shows (c ∷ s) first {out = o} h = elim (Bool-cases (is_printable c)) [
  | inl shown ↦
      rw (shown, add_string_loop)
        (reshow (simp append_assoc) (add_string_loop-Shows s (first ++ c ∷ []) h))
  | inr hidden ↦
      rw (hidden, add_string_loop)
        (reshow (simp append_assoc)
          (add_string_loop-Shows s [] (append-Shows (escape_sequence c) (append-Shows first h))))
]

module _ {j : Json} {pp : Bool} {d : ℕ} {st : List Node} {out : Bytes} (n : Node) (k : Bytes)
    (h : Shows j pp d (n ∷ st) false out) where
  pub json_add_number-Shows :
      (v : Bytes)
      → Shows
          (json_add_number j k v)
          pp
          d
          (count_item (n ∷ st))
          false
          (out ++ (print_key pp d (ltb 0 n.num_items) k ++ v))
  unfolding json_add_number
  json_add_number-Shows v =
      wait-Shows false (reshow (append_assoc out _ v) (append-Shows v (json_add_key-Shows n k h)))

  pub json_add_null-Shows :
      Shows
        (json_add_null j k)
        pp
        d
        (count_item (n ∷ st))
        false
        (out ++ (print_key pp d (ltb 0 n.num_items) k ++ codes "null"))
  unfolding json_add_null
  json_add_null-Shows = wait-Shows false (
      reshow (append_assoc out _ (codes "null"))
        (append-Shows (codes "null") (json_add_key-Shows n k h)))

  pub json_add_string-Shows :
      (v : Bytes)
      → Shows
          (json_add_string j k v)
          pp
          d
          (count_item (n ∷ st))
          false
          (out ++ (print_key pp d (ltb 0 n.num_items) k ++ print_string v))
  unfolding json_add_string
  json_add_string-Shows v = wait-Shows false (
      reshow (simp append_assoc) (
        append-Shows (codes "\"")
          (add_string_loop-Shows v [] (append-Shows (codes "\"") (json_add_key-Shows n k h)))))

pub json_new-Shows : Shows json_new false 0 [] false []
unfolding json_new json_to_string
json_new-Shows = record {
  text = sb_to_char-sb_new none;
  style = refl;
  level = refl;
  open_nodes = refl;
  waiting = refl;
}

pub json_pretty_print-Shows :
    {j : Json} {pp : Bool} {d : ℕ} {st : List Node} {waits : Bool} {out : Bytes} (style : Bool)
    → Shows j pp d st waits out
    → Shows (json_pretty_print j style) style d st waits out
unfolding json_pretty_print json_to_string
json_pretty_print-Shows style h = record {
  text = h.text;
  style = refl;
  level = h.level;
  open_nodes = h.open_nodes;
  waiting = h.waiting;
}
