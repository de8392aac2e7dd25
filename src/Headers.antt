-- ===== src/Headers.antt =====
-- The tests of request headers in src/ngx_http_dbrelay_module.c: `origin_matches` and
-- `accepts_application_json`, on what `get_header_value` returns.
pub mod Origins
use ngx_dbrelay.Base.{
  ℕ, zero, suc, ◌+◌, ◌-◌, Bool, true, false, not, ◌&&◌, ◌||◌, List, [], ◌∷◌, ◌++◌, Option, none,
  some, Bytes, codes, length, drop, is_set, str_eq, ltb, ◌==◌, if◌then◌else◌,
}

-- `strtok(s, ",")` up to the null pointer: the parts between commas that are not empty, `part` being
-- the bytes of the first one so far.
unfoldable pub tokens : Bytes → Bytes → List Bytes
tokens part [] = if is_set part then part ∷ [] else []
tokens part (c ∷ s) =
    let next = tokens [] s in
    let same = tokens (part ++ c ∷ []) s in
    if c == b',' then (if is_set part then part ∷ next else next) else same

-- One round of the loop of `origin_matches`; `none` is a read in front of the header's value.
unfoldable pub origin_token : Bytes → Bytes → Option Bool
origin_token header [] = some (str_eq [] header)
origin_token header (c ∷ s) =
    if c == b'*'
    then if ltb (length header) (length s)
      then none
      else some (str_eq s (drop (length header - length s) header))
    else some (str_eq (c ∷ s) header)

unfoldable pub origin_loop : Bool → Bytes → List Bytes → Option Bool
origin_loop match header [] = some match
origin_loop match header (s ∷ ss) = elim (origin_token header s) [
  | none ↦ none
  | some hit ↦ origin_loop (hit || match) header ss
]

unfoldable pub origin_matches : Option Bytes → Bytes → Option Bool
origin_matches none origin = some false
origin_matches (some header) origin = origin_loop false header (tokens [] origin)

-- The inner loop of `accepts_application_json`, which ends behind the first byte.
unfoldable pub cut_quality : Bytes → Bytes
cut_quality [] = []
cut_quality (c ∷ s) = if c == b';' then [] else c ∷ s

unfoldable pub accepts_loop : Bool → List Bytes → Bool
accepts_loop have [] = have
accepts_loop have (s ∷ ss) =
    accepts_loop (if str_eq (codes "application/json") (cut_quality s) then true else have) ss

unfoldable pub accepts_application_json : Option Bytes → Bool
accepts_application_json none = false
accepts_application_json (some header) = accepts_loop false (tokens [] header)
