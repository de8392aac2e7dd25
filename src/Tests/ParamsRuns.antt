-- ===== src/Tests/ParamsRuns.antt =====
-- Runs of the query parameters.
use ngx_dbrelay.Base.{
  ◌≡◌, refl, List, [], ◌∷◌, ◌++◌, Option, none, some, arith, Bytes, codes, index_of, str_case_eq,
}
use ngx_dbrelay.Request.{Request, dbrelay_alloc_request}
use ngx_dbrelay.Params.{
  is_quoted_param, param_value, quoted_type, find_loop, toggle, dbrelay_find_placeholder,
  given_params, dbrelay_resolve_params,
}
use ngx_dbrelay.Params.Placeholders.{FindsFirst, dbrelay_find_placeholder_lem}
use ngx_dbrelay.Params.Split.{fill, split, literal}
use ngx_dbrelay.Params.Resolve.{magic_text, resolve_filled, resolve_no_placeholder}
use ngx_dbrelay.Params.Surplus.{resolve_surplus}

abbrev query : Bytes
query = codes "select '?' from t where a = ? and b = ?"

abbrev with_params : List (Option Bytes) → Request
with_params ps = record dbrelay_alloc_request { params = ps }

abbrev two : List Bytes
two = codes "varchar:x" ∷ codes "int:2" ∷ []

abbrev two_request : Request
two_request = with_params (some (codes "varchar:x") ∷ some (codes "int:2") ∷ none ∷ [])

dbrelay_find_placeholder_lem_example : FindsFirst query (dbrelay_find_placeholder query)
dbrelay_find_placeholder_lem_example = dbrelay_find_placeholder_lem query

abbrev filled : Bytes
filled = codes "select '?' from t where a = 'x' and b = 2"

given_two : given_params two_request.params ≡ some two
unfolding given_params
given_two = refl

fill-two : fill two query ≡ some (filled, [])
unfolding fill split literal is_quoted_param index_of param_value quoted_type str_case_eq
fill-two = refl

resolve_filled_example :
    dbrelay_resolve_params (codes "/**/") two_request query
    ≡ some (magic_text (codes "/**/") two_request ++ (filled ++ []))
resolve_filled_example =
    resolve_filled (codes "/**/") two_request query two filled [] (ground arith) given_two fill-two

abbrev plain_query : Bytes
plain_query = codes "select '?'"

no_mark : dbrelay_find_placeholder plain_query ≡ none
unfolding dbrelay_find_placeholder find_loop toggle
no_mark = refl

resolve_no_placeholder_example :
    dbrelay_resolve_params [] two_request plain_query
    ≡ some (magic_text [] two_request ++ plain_query)
resolve_no_placeholder_example =
    resolve_no_placeholder [] two_request plain_query two (ground arith) given_two no_mark

abbrev one_mark : Bytes
one_mark = codes "select ? as a"

fill_one : fill (codes "varchar:x" ∷ []) one_mark ≡ some (codes "select 'x'", codes " as a")
unfolding fill split literal is_quoted_param index_of param_value quoted_type str_case_eq
fill_one = refl

no_mark_left : dbrelay_find_placeholder (codes " as a") ≡ none
unfolding dbrelay_find_placeholder find_loop toggle
no_mark_left = refl

literal_two : literal (codes "int:2") ≡ some (codes "2")
unfolding literal is_quoted_param index_of param_value quoted_type str_case_eq
literal_two = refl

resolve_surplus_example :
    dbrelay_resolve_params [] two_request one_mark
    ≡ some (
        magic_text [] two_request
        ++ (codes "select 'x'" ++ (codes " as a" ++ (codes "2" ++ codes " as a"))))
resolve_surplus_example =
    resolve_surplus [] two_request one_mark (codes "varchar:x" ∷ []) (codes "int:2")
      (codes "select 'x'") (codes " as a") (codes "2") (ground arith) given_two (omega arith)
      fill_one no_mark_left literal_two
