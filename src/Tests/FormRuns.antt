-- ===== src/Tests/FormRuns.antt =====
-- Runs of the form data of a request.
use ngx_dbrelay.Base.{
  str_eq, none, true, false, Bool, ◌↔◌, ◌≡◌, refl, ◌||◌, List, [], ◌∷◌, some, arith, Bytes, codes,
  replicate,
}
use ngx_dbrelay.Request.{Request, xact, has_flag, dbrelay_alloc_request}
use ngx_dbrelay.Form.{write_flag_values, write_value}
use ngx_dbrelay.Form.Sizes.{WellSized, write_value-WellSized}
use ngx_dbrelay.Form.Scan.{parse_post}
use ngx_dbrelay.Form.Pairs.{Plain, stored, parse_post-form_text}
use ngx_dbrelay.Headers.{
  tokens, origin_matches, cut_quality, accepts_loop, accepts_application_json,
}
use ngx_dbrelay.Headers.Origins.{AllShort, AnyAllows, origin_matches-AnyAllows}
use ngx_dbrelay.Form.Flags.{flag_name, is_listed, has_flag-write_flag_values}

abbrev keep : Bytes → Bytes
keep s = s

abbrev fresh : Request
fresh = dbrelay_alloc_request

fresh-WellSized : WellSized fresh
unfolding dbrelay_alloc_request
fresh-WellSized = (
  omega arith,
  omega arith,
  omega arith,
  omega arith,
  omega arith,
  omega arith,
  omega arith,
  omega arith,
  omega arith,
  omega arith,
  omega arith,
  omega arith,
  omega arith,
  omega arith,
  refl,
)

write_value-WellSized_example :
    WellSized (write_value keep fresh (codes "sql_port") (codes "14330000"))
write_value-WellSized_example =
    write_value-WellSized keep fresh (codes "sql_port") (codes "14330000") fresh-WellSized

abbrev server : Bytes × Bytes
server = (codes "sql_server", codes "db")

abbrev rest : List (Bytes × Bytes)
rest = (codes "flags", codes "pp,xact") ∷ []

pair-Plain : Plain keep server rest
pair-Plain = ground arith

parse_post-form_text_example :
    parse_post keep fresh (replicate 40 b'\n') (codes "sql_server=db&flags=pp,xact")
    ≡ some (stored keep fresh server rest)
parse_post-form_text_example =
    parse_post-form_text keep server rest fresh (replicate 40 b'\n') pair-Plain (omega arith)

has_flag-write_flag_values_example :
    has_flag (write_flag_values fresh (codes "pp,xact")).flags xact
    ≡ (is_listed (flag_name xact) (codes "pp" ∷ codes "xact" ∷ []) || has_flag fresh.flags xact)
has_flag-write_flag_values_example =
    has_flag-write_flag_values fresh (codes "pp") (codes "xact" ∷ []) xact (ground arith)

abbrev origins : Bytes
origins = codes "http://a.org,*.b.org"

short_origins : AllShort (codes "http://x.b.org") (tokens [] origins)
unfolding tokens
short_origins = ((λ star. omega arith), ((λ star. omega arith), tt))

origin_matches-AnyAllows_example :
    (origin_matches none origins ≡ some false)
    × ((b : Bool) × (origin_matches (some (codes "http://x.b.org")) origins ≡ some b)
        × ((b ≡ true) ↔ AnyAllows (codes "http://x.b.org") (tokens [] origins)))
origin_matches-AnyAllows_example =
    origin_matches-AnyAllows (codes "http://x.b.org") origins short_origins

-- A quality behind the type is not cut off.
quality_refused : accepts_application_json (some (codes "text/html,application/json;q=0.9")) ≡ false
unfolding accepts_application_json accepts_loop tokens cut_quality str_eq
quality_refused = refl
