-- ===== src/StringBuf/Laws.antt =====
-- Laws of the string buffer of src/stringbuf.c.
use ngx_dbrelay.Base.{
  ◌≡◌, refl, sym, ap, ◌∙◌, List, [], ◌∷◌, ◌++◌, Option, none, some, arith, Bytes, length,
  length-append, append-nil,
}
use ngx_dbrelay.StringBuf.{
  StringBuf, sb_new, sb_append, sb_len, sb_to_char, add_part_len, len_loop, copy_part, copy_loop,
}

abbrev pub part_text : Option Bytes → Bytes
part_text none = []
part_text (some s) = s

copy_loop-concat :
    (ps : List (Option Bytes)) (out : Bytes) (p : Option Bytes)
    → copy_loop out (ps ++ p ∷ []) ≡ copy_part (copy_loop out ps) p
unfolding copy_loop
copy_loop-concat [] out p = refl
copy_loop-concat (q ∷ ps) out p = copy_loop-concat ps (copy_part out q) p

copy_part-append : (out : Bytes) (p : Option Bytes) → copy_part out p ≡ out ++ part_text p
unfolding copy_part
copy_part-append out none = simp append-nil
copy_part-append out (some s) = refl

-- The text after an append is the text before it, followed by the appended string; a null pointer
-- adds nothing.
pub sb_to_char-sb_append :
    (b : StringBuf) (s : Option Bytes) → sb_to_char (sb_append b s) ≡ sb_to_char b ++ part_text s
unfolding sb_append
sb_to_char-sb_append b s =
    unfold sb_to_char in (copy_loop-concat b.others _ s ∙ copy_part-append _ s)

pub sb_to_char-sb_new : (s : Option Bytes) → sb_to_char (sb_new s) ≡ part_text s
unfolding sb_to_char sb_new
sb_to_char-sb_new none = refl
sb_to_char-sb_new (some s) = refl

add_part_len-copy_part :
    (out : Bytes) (p : Option Bytes) → add_part_len (length out) p ≡ length (copy_part out p)
unfolding add_part_len copy_part
add_part_len-copy_part out none = refl
add_part_len-copy_part out (some s) = omega (arith, length-append out s)

len_loop-copy_loop :
    (ps : List (Option Bytes)) (out : Bytes) → len_loop (length out) ps ≡ length (copy_loop out ps)
unfolding len_loop copy_loop
len_loop-copy_loop [] out = refl
len_loop-copy_loop (p ∷ ps) out =
    rw add_part_len-copy_part (len_loop-copy_loop ps (copy_part out p))

-- `sb_to_char` fills the block of `sb_len(string) + 1` bytes that it allocates, no less and no more.
pub length-sb_to_char : (b : StringBuf) → length (sb_to_char b) ≡ sb_len b
length-sb_to_char b =
    unfold sb_to_char sb_len in
    sym (
      ap (λ n. len_loop n b.others) (add_part_len-copy_part [] b.head)
      ∙ len_loop-copy_loop b.others (copy_part [] b.head))
