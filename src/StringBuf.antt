-- ===== src/StringBuf.antt =====
-- src/stringbuf.c: a string buffer as a chain of parts, each a copied string or a null pointer.
pub mod Laws
use ngx_dbrelay.Base.{ℕ, zero, ◌+◌, List, [], ◌∷◌, ◌++◌, Option, none, some, Bytes, length}

-- `stringbuf_t`. The chain from `head` never is empty: `sb_new` allocates its first node.
-- `others` are the nodes behind the first, the last of them being `tail`.
pub record StringBuf : Type 0 where
  pub head : Option Bytes
  pub others : List (Option Bytes)

unfoldable pub sb_new : Option Bytes → StringBuf
sb_new s = record { head = s; others = [] }

unfoldable pub sb_append : StringBuf → Option Bytes → StringBuf
sb_append b s = record b { others = b.others ++ s ∷ [] }

-- One round of the loop of `sb_len`.
pub add_part_len : ℕ → Option Bytes → ℕ
add_part_len len none = len
add_part_len len (some s) = len + length s

len_loop : ℕ → List (Option Bytes) → ℕ
len_loop len [] = len
len_loop len (p ∷ ps) = len_loop (add_part_len len p) ps

unfoldable pub sb_len : StringBuf → ℕ
unfolding len_loop add_part_len
sb_len b = len_loop (add_part_len 0 b.head) b.others

-- One round of the loop of `sb_to_char`: `strcpy` at the end of what was written.
pub copy_part : Bytes → Option Bytes → Bytes
copy_part out none = out
copy_part out (some s) = out ++ s

copy_loop : Bytes → List (Option Bytes) → Bytes
copy_loop out [] = out
copy_loop out (p ∷ ps) = copy_loop (copy_part out p) ps

unfoldable pub sb_to_char : StringBuf → Bytes
unfolding copy_loop copy_part
sb_to_char b = copy_loop (copy_part [] b.head) b.others

-- `sb_append(sb, "...")`
abbrev pub sb_put : StringBuf → Bytes → StringBuf
sb_put b s = sb_append b (some s)
