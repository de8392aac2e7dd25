-- ===== src/Tests/JsonRuns.antt =====
-- Runs of the JSON writer, the string buffer and the request helpers.
use ngx_dbrelay.Base.{
  ◌+◌, ◌≤◌, ◌<◌, ◌≡◌, true, false, [], ◌∷◌, ◌++◌, none, some, arith, Bytes, codes, length,
}
use ngx_dbrelay.Json.{is_printable, escape_sequence, json_to_string}
use ngx_dbrelay.Json.Escape.{plain, decode, escape, decode-escape}
use ngx_dbrelay.Json.Print.{
  Tree, arr, obj, nil, cons, end, string_field, number_field, null_field, tree_field, lead,
  print_tree,
}
use ngx_dbrelay.Json.Writer.Trees.{document, document-print_tree}
use ngx_dbrelay.StringBuf.{StringBuf, sb_new, sb_append, sb_len, sb_to_char}
use ngx_dbrelay.StringBuf.Laws.{length-sb_to_char}
use ngx_dbrelay.Request.{pp, xact, has_flag, set_flag, dbrelay_copy_string}
use ngx_dbrelay.Request.Copy.{dbrelay_copy_string_lem, has_flag-set_flag}

abbrev reply : Tree
reply = arr (
    cons
      (obj (
        string_field (codes "cmd") (codes "a\"b") (
          tree_field (codes "rows")
            (arr (cons (obj (number_field (codes "n") (codes "1") end)) nil))
            (null_field (codes "error") end))))
      nil)

document-reply :
    document false reply ≡ codes "[{\"cmd\":\"a\\\"b\", \"rows\":[{\"n\":1}], \"error\":null}]"
unfolding json_to_string print_tree escape is_printable escape_sequence
document-reply = document-print_tree false reply

document-print_tree_example : document true reply ≡ lead true 0 false ++ print_tree true 0 reply
document-print_tree_example = document-print_tree true reply

abbrev odd_text : Bytes
odd_text = codes "say \"hi\"\n\\" ++ 7 ∷ 200 ∷ []

decode-escape_example :
    decode plain (escape odd_text ++ (codes "\"" ++ codes ", 1")) ≡ some (odd_text, codes ", 1")
decode-escape_example = decode-escape odd_text (codes ", 1") (ground arith)

abbrev buffer : StringBuf
buffer = sb_append (sb_new none) (some (codes "select "))

length-sb_to_char_example : length (sb_to_char buffer) ≡ sb_len buffer
length-sb_to_char_example = length-sb_to_char buffer

dbrelay_copy_string_lem_example :
    (length (dbrelay_copy_string (codes "database") 5) + 1 ≤ 5)
    × ((rest : Bytes) × (dbrelay_copy_string (codes "database") 5 ++ rest ≡ codes "database"))
    × (length (codes "database") < 5 → dbrelay_copy_string (codes "database") 5 ≡ codes "database")
dbrelay_copy_string_lem_example = dbrelay_copy_string_lem (codes "database") 5 (omega arith)

has_flag-set_flag_example : has_flag (set_flag 5 pp) xact ≡ has_flag 5 xact
has_flag-set_flag_example = has_flag-set_flag 5 pp xact
