-- ===== src/Form/Scan.antt =====
-- The parsers of src/ngx_http_dbrelay_module.c: `parse_post_query_string`, `parse_post_query_file` and
-- `parse_get_query_string`, which share their loop.
use ngx_dbrelay.Base.{
  ℕ, zero, suc, ◌+◌, Bool, true, false, not, ◌&&◌, ◌||◌, [], ◌∷◌, ◌++◌, Option, none, some, Bytes,
  map, c_str, length, get_elem?, set, drop, ltb, ◌==◌, if◌then◌else◌,
}
use ngx_dbrelay.Request.{Request}
use ngx_dbrelay.Form.{unplus, write_value}

-- The variables of the loop: the bytes written to `key`, the whole array `value` with what it held
-- before, the place of `v` in it, and `target`.
pub record Scan : Type 0 where
  pub request : Request
  pub key : Bytes
  pub value : Bytes
  pub at : ℕ
  pub target : Bool

abbrev pub key_sz : ℕ
key_sz = 100

abbrev pub is_line_end : ℕ → Bool
is_line_end c = c == b'\n' || c == b'\r'

-- A write into an array; `none` is behind its end.
abbrev pub poke : Bytes → ℕ → ℕ → Option Bytes
poke array i c = if ltb i (length array) then some (set array i c) else none

-- The array behind `write_value`, which unescapes the string `s` in it in place.
unfoldable pub unescaped_in_place : (Bytes → Bytes) → Bytes → Bytes → Bytes
unescaped_in_place unescape s array =
    let out = unescape (map unplus s) in
    out ++ 0 ∷ drop (length out + 1) (map unplus s ++ drop (length s) array)

module _ (unescape : Bytes → Bytes) where
  -- `write_value(request, key, value)` with the strings in the two arrays.
  unfoldable pub flush_scan : Scan → Scan
  flush_scan s = record s {
    request = write_value unescape s.request (c_str s.key) (c_str s.value);
    value = unescaped_in_place unescape (c_str s.value) s.value;
  }

  -- One round of the loop; `none` is a write behind the end of an array.
  unfoldable pub scan_byte : Scan → ℕ → Option Scan
  scan_byte s c =
      if c == b'&'
      then if ltb (length s.key) key_sz
        then (elim (poke s.value s.at 0) [
          | none ↦ none
          | some value ↦
              some (record (flush_scan (record s { value = value })) { key = []; target = false })
        ])
        else none
      else if c == b'='
      then some (record s { target = true; at = 0 })
      else if not s.target
      then if ltb (length s.key) key_sz then some (record s { key = s.key ++ c ∷ [] }) else none
      else (elim (poke s.value s.at c) [
        | none ↦ none
        | some value ↦ some (record s { value = value; at = s.at + 1 })
      ])

  unfoldable pub scan_loop : Bytes → Scan → Option Scan
  scan_loop [] s = some s
  scan_loop (c ∷ cs) s = elim (scan_byte s c) [ none ↦ none | some next ↦ scan_loop cs next ]

  abbrev pub start_scan : Request → Bytes → Scan
  start_scan r array = record { request = r; key = []; value = array; at = 0; target = false }

  -- `while (v>=value && (*v=='\n' || *v=='\r')) *v--='\0';` from place `at`: the array, and the place
  -- it ends at, `none` being the one before the array.
  unfoldable pub chop_loop : ℕ → Bytes → Bytes × Option ℕ
  chop_loop zero array = elim (get_elem? array 0) [
    | none ↦ (array, some 0)
    | some c ↦ if is_line_end c then (set array 0 0, none) else (array, some 0)
  ]
  chop_loop (suc at) array = elim (get_elem? array (suc at)) [
    | none ↦ (array, some (suc at))
    | some c ↦ elim (is_line_end c) [
      | true ↦ chop_loop at (set array (suc at) 0)
      | false ↦ (array, some (suc at))
    ]
  ]

  -- `chop`: the byte at the end was a line end.
  abbrev pub chops : Bytes → ℕ → Bool
  chops array at = elim (get_elem? array at) [ none ↦ false | some c ↦ is_line_end c ]

  -- The end of the parsers of a body.
  unfoldable pub end_post : Scan → Option Request
  end_post s =
      if ltb (length s.key) key_sz && ltb s.at (length s.value)
      then (let value =
            if chops s.value s.at then (chop_loop s.at s.value).0 else set s.value s.at 0 in
          some (flush_scan (record s { value = value })).request)
      else none

  -- `parse_post_query_string` and `parse_post_query_file` on the bytes of the body; `array` is what
  -- `malloc` returns. `none` is a write outside an array.
  unfoldable pub parse_post : Request → Bytes → Bytes → Option Request
  parse_post r array body = elim (scan_loop body (start_scan r array)) [
    | none ↦ none
    | some s ↦ end_post s
  ]

  -- The end of `parse_get_query_string`, where the last write may fall before the array.
  unfoldable pub end_get : Scan → Option Request
  end_get s =
      if ltb (length s.key) key_sz && ltb s.at (length s.value)
      then (let (value, place) = chop_loop s.at s.value in
          elim place [
            | none ↦ none
            | some at ↦ some (flush_scan (record s { value = set value at 0 })).request
          ])
      else none

  -- `array` is what the 4000 bytes of `value` hold at first.
  unfoldable pub parse_get_query_string : Request → Bytes → Bytes → Option Request
  parse_get_query_string r array args =
      if length args == 0
      then some r
      else (elim (scan_loop (c_str args) (start_scan r array)) [ none ↦ none | some s ↦ end_get s ])
