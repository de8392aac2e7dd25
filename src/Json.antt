-- ===== src/Json.antt =====
-- src/json.c: the JSON writer. `json_t` keeps the output so far, the nesting level, the stack of
-- open arrays and objects with the count of their items, and whether a key waits for its value.
pub mod Print
pub mod Writer
pub mod Escape
pub mod Modes
use ngx_dbrelay.Base.{
  ℕ, zero, suc, ◌+◌, ◌/◌, ◌%◌, Bool, true, false, not, ◌&&◌, ◌||◌, List, [], ◌∷◌, ◌++◌, Option,
  none, some, Bytes, codes, ◌==◌, ltb, leb, if◌then◌else◌, ◌≡◌,
}
use ngx_dbrelay.Base.Int.{ℤ, pos, negsuc, ◌+ℤ◌}
use ngx_dbrelay.StringBuf.{StringBuf, sb_new, sb_put, sb_to_char}

pub data NodeType : Type 0 where
  array object : NodeType

-- `json_node_t`; the stack is a list of these, the innermost first.
pub record Node : Type 0 where
  pub node_type : NodeType
  pub num_items : ℕ

pub data Mode : Type 0 where
  std csv : Mode

pub record Json : Type 0 where
  pub sb : StringBuf
  pub tab_level : ℤ
  pub stack : List Node
  pub pending : Bool
  pub prettyprint : Bool
  pub mode : Mode

unfoldable pub json_new : Json
json_new = record {
  sb = sb_new none;
  tab_level = pos 0;
  stack = [];
  pending = false;
  prettyprint = false;
  mode = std;
}

unfoldable pub json_pretty_print : Json → Bool → Json
json_pretty_print j pp = record j { prettyprint = pp }

unfoldable pub json_set_mode : Json → Mode → Json
json_set_mode j m = record j { mode = m }

unfoldable pub json_get_mode : Json → Mode
json_get_mode j = j.mode

unfoldable pub json_to_string : Json → Bytes
json_to_string j = sb_to_char j.sb

-- `sb_append(json->sb, "...")`
unfoldable pub append : Json → Bytes → Json
append j s = record j { sb = sb_put j.sb s }

-- `if (json->prettyprint) sb_append(json->sb, "...")`
unfoldable pub append_pretty : Json → Bytes → Json
append_pretty j s = if j.prettyprint then append j s else j

-- The loop of `json_tab` on the rounds left.
tab_rounds : ℕ → Json → Json
tab_rounds zero j = j
tab_rounds (suc n) j = tab_rounds n (append j (codes "   "))

-- The rounds of `for (i=0; i<json->tab_level; i++)`.
rounds_of : ℤ → ℕ
rounds_of (pos n) = n
rounds_of (negsuc n) = 0

unfoldable pub json_tab : Json → Json
unfolding tab_rounds rounds_of
json_tab j = if not j.prettyprint then j else tab_rounds (rounds_of j.tab_level) j

-- `json->stack && json->stack->num_items`
unfoldable pub has_items : List Node → Bool
has_items [] = false
has_items (n ∷ ns) = ltb 0 n.num_items

-- `if (json->stack) json->stack->num_items++`
unfoldable pub count_item : List Node → List Node
count_item [] = []
count_item (n ∷ ns) = record n { num_items = n.num_items + 1 } ∷ ns

unfoldable pub json_push : Json → NodeType → Json
json_push j t = record j { stack = record { node_type = t; num_items = 0 } ∷ j.stack }

-- `if (!json->pending) { ... }` at the head of `json_new_object` and `json_new_array`
unfoldable pub separate : Json → Json
separate j =
    if not j.pending
    then json_tab
        (if has_items j.stack then append_pretty (append j (codes ",")) (codes "\n") else j)
    else j

-- The rest of both, from the bracket on.
unfoldable pub enter : NodeType → Bytes → Json → Json
enter t bracket j =
    let opened = append_pretty (append j bracket) (codes "\n") in
    let counted = record opened {
      tab_level = opened.tab_level +ℤ pos 1;
      stack = count_item opened.stack;
    } in
    record (json_push counted t) { pending = false }

unfoldable pub json_new_object : Json → Json
json_new_object j = enter object (codes "{") (separate j)

unfoldable pub json_new_array : Json → Json
json_new_array j = enter array (codes "[") (separate j)

-- `json->stack = node->next`, if there is a node
unfoldable pub pop_node : List Node → List Node
pop_node [] = []
pop_node (n ∷ ns) = ns

-- The body that `json_end_object` and `json_end_array` share.
unfoldable pub leave : Bytes → Json → Json
leave bracket j =
    let dedented = record j { tab_level = j.tab_level +ℤ negsuc 0 } in
    let closed = append (json_tab (append_pretty dedented (codes "\n"))) bracket in
    record closed { stack = pop_node closed.stack }

unfoldable pub json_end_object : Json → Json
json_end_object j = leave (codes "}") j

unfoldable pub json_end_array : Json → Json
json_end_array j = leave (codes "]") j

unfoldable pub json_add_value : Json → Bytes → Json
json_add_value j value =
    let separated = if has_items j.stack && not j.pending then append j (codes ",") else j in
    let added = append separated value in record added { stack = count_item added.stack }

-- The part of `json_add_key` in front of the key's opening quote, by the node on top.
unfoldable pub key_lead : List Node → Json → Json
key_lead [] j = j
key_lead (node ∷ ns) j =
    let separated =
      if ltb 0 node.num_items
      then (if not j.pending then append j (codes ", ") else j)
      else json_tab j in
    record separated { stack = count_item separated.stack }

unfoldable pub json_add_key : Json → Bytes → Json
json_add_key j key =
    let quoted = append (append (append (key_lead j.stack j) (codes "\"")) key) (codes "\"") in
    let spaced =
      append_pretty (append (append_pretty quoted (codes " ")) (codes ":")) (codes " ") in
    record spaced { pending = true }

unfoldable pub json_add_number : Json → Bytes → Bytes → Json
json_add_number j key value = record (append (json_add_key j key) value) { pending = false }

unfoldable pub json_add_null : Json → Bytes → Json
json_add_null j key = record (append (json_add_key j key) (codes "null")) { pending = false }

-- `char` is signed on the target, so the bytes from 128 on are below the space.
unfoldable pub is_printable : ℕ → Bool
is_printable c = not (ltb c b' ' || leb 128 c || c == b'"' || c == b'\\')

unfoldable pub hex_digit : ℕ → ℕ
hex_digit d = if ltb d 10 then b'0' + d else 87 + d

-- What `append_nonprintable` appends.
unfoldable pub escape_sequence : ℕ → Bytes
escape_sequence c =
    if c == b'"'
    then codes "\\\""
    else if c == b'\\'
    then codes "\\\\"
    else if c == b'/'
    then codes "\\/"
    else if c == 8
    then codes "\\b"
    else if c == 12
    then codes "\\f"
    else if c == b'\n'
    then codes "\\n"
    else if c == b'\r'
    then codes "\\r"
    else if c == b'\t'
    then codes "\\t"
    else b'\\' ∷ b'u' ∷ b'0' ∷ b'0' ∷ hex_digit (c / 16) ∷ hex_digit (c % 16) ∷ []

unfoldable pub append_nonprintable : Json → ℕ → Json
append_nonprintable j c = append j (escape_sequence c)

-- The loop of `json_add_string`: `first` is the run of printable bytes from the pointer of that
-- name up to `s`.
add_string_loop : Json → Bytes → Bytes → Json
add_string_loop j first [] = append j first
add_string_loop j first (c ∷ s) = elim (is_printable c) [
  | false ↦ add_string_loop (append_nonprintable (append j first) c) [] s
  | true ↦ add_string_loop j (first ++ c ∷ []) s
]

unfoldable pub json_add_string : Json → Bytes → Bytes → Json
unfolding add_string_loop
json_add_string j key value =
    let opened = append (json_add_key j key) (codes "\"") in
    record (append (add_string_loop opened [] value) (codes "\"")) { pending = false }

unfoldable pub json_add_json : Json → Bytes → Json
json_add_json j value = append j value

unfoldable pub json_add_callback : Json → Bytes → Json
json_add_callback j value = append (append j value) (codes "(")

unfoldable pub json_end_callback : Json → Json
json_end_callback j = append j (codes ");")
