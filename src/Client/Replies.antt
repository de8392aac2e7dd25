-- ===== src/Client/Replies.antt =====
-- What the loop of `dbrelay_conn_send_request` of src/client.c makes of the lines of an answer.
use ngx_dbrelay.Base.{
  ◌≡◌, refl, Bool, true, false, ◌||◌, List, [], ◌∷◌, ◌++◌, Bytes, codes, str_eq, if◌then◌else◌,
}
use ngx_dbrelay.StringBuf.{StringBuf, sb_put}
use ngx_dbrelay.Connector.{trim_newline}
use ngx_dbrelay.Client.{Reading, is_last, read_line}

-- A line that means nothing but itself: no end of an answer and no mark of a part.
abbrev pub IsPlain : Bytes → Type 0
IsPlain l =
    (is_last l ≡ false)
    × (str_eq l (codes ":RESULTS END") ≡ false)
    × (str_eq l (codes ":ERROR END") ≡ false)
    × (str_eq l (codes ":RESULTS BEGIN") ≡ false)
    × (str_eq l (codes ":ERROR BEGIN") ≡ false)

-- The lines without their newlines, one behind the other.
abbrev pub glue : List Bytes → Bytes
glue [] = []
glue (l ∷ ls) = trim_newline l ++ glue ls

abbrev put_trimmed : StringBuf → List Bytes → StringBuf
put_trimmed sb [] = sb
put_trimmed sb (l ∷ ls) = put_trimmed (sb_put sb (trim_newline l)) ls

-- A plain line is kept within a part, and dropped outside.
pub read_line_plain :
    (r : Reading) (l : Bytes)
    → IsPlain l
    → read_line r l
      ≡ (if r.results || r.errors then record r { sb_rslt = sb_put r.sb_rslt l } else r)
unfolding read_line
read_line_plain r l (h1, h2, h3, h4, h5) =
    rw (h2, h3, h4, h5, read_line) (go (r.results || r.errors))
  where
    go :
        (b : Bool)
        → ◌≡◌ {A = Reading}
            (record r { sb_rslt = if b then sb_put r.sb_rslt l else r.sb_rslt })
            (if b then record r { sb_rslt = sb_put r.sb_rslt l } else r)
    go true = refl
    go false = refl
