-- ===== src/Json/Escape.antt =====
-- Strings in the JSON text: what `json_add_string` of src/json.c writes, and a decoder that reads
-- it back by the rules of the JSON grammar.
use ngx_dbrelay.Base.{
  ℕ, zero, suc, ◌+◌, ◌*◌, ◌/◌, ◌%◌, ◌-◌, ◌<◌, ◌≡◌, refl, ap, ◌∙◌, true, false, ◌&&◌, [], ◌∷◌, ◌++◌,
  Option, none, some, arith, append_assoc, Bytes, IsBytes, codes, ◌==◌, ltb, leb, if◌then◌else◌,
  Bool-cases, inl, inr,
}
use ngx_dbrelay.Json.{is_printable, hex_digit, escape_sequence}

-- One byte of a string in the text, and all of them.
abbrev pub escape_byte : ℕ → Bytes
escape_byte c = if is_printable c then c ∷ [] else escape_sequence c

unfoldable pub escape : Bytes → Bytes
escape [] = []
escape (c ∷ s) = escape_byte c ++ escape s

-- The value of a hexadecimal digit.
unfoldable pub hex_value : ℕ → Option ℕ
hex_value c =
    if leb b'0' c && leb c b'9'
    then some (c - b'0')
    else if leb b'a' c && leb c b'f'
    then some (c - 87)
    else if leb b'A' c && leb c b'F'
    then some (c - 55)
    else none

-- What the byte behind a backslash stands for, but for `u`.
unfoldable pub short_escape : ℕ → Option ℕ
short_escape c =
    if c == b'"'
    then some b'"'
    else if c == b'\\'
    then some b'\\'
    else if c == b'/'
    then some b'/'
    else if c == b'b'
    then some 8
    else if c == b'f'
    then some 12
    else if c == b'n'
    then some b'\n'
    else if c == b'r'
    then some b'\r'
    else if c == b't'
    then some b'\t'
    else none

-- Where a reader of a string stands: between characters, behind a backslash, or with `n + 1` of the
-- digits of a `\u` escape to come, those read being worth `v`.
pub data Reading : Type 0 where
  plain escaped : Reading
  hex : ℕ → ℕ → Reading

abbrev pub push_byte : ℕ → Option (Bytes × Bytes) → Option (Bytes × Bytes)
push_byte c none = none
push_byte c (some (s, rest)) = some (c ∷ s, rest)

-- The string behind an opening quote, and the text behind its closing one. Bytes below the space
-- may not stand in a string.
unfoldable pub decode : Reading → Bytes → Option (Bytes × Bytes)
unfolding hex_value short_escape
decode r [] = none
decode plain (c ∷ s) = elim (c == b'"') [
  | true ↦ some ([], s)
  | false ↦ elim (c == b'\\') [
    | true ↦ decode escaped s
    | false ↦ elim (ltb c 32) [ true ↦ none | false ↦ push_byte c (decode plain s) ]
  ]
]
decode escaped (c ∷ s) = elim (c == b'u') [
  | true ↦ decode (hex 3 0) s
  | false ↦ elim (short_escape c) [ none ↦ none | some b ↦ push_byte b (decode plain s) ]
]
decode (hex zero v) (c ∷ s) = elim (hex_value c) [
  | none ↦ none
  | some d ↦ push_byte (v * 16 + d) (decode plain s)
]
decode (hex (suc n) v) (c ∷ s) = elim (hex_value c) [
  | none ↦ none
  | some d ↦ decode (hex n (v * 16 + d)) s
]

hex_value-hex_digit : (d : ℕ) → d < 16 → hex_value (hex_digit d) ≡ some d
unfolding hex_value hex_digit
hex_value-hex_digit d h = ground arith

decode_u00 :
    (d e : ℕ) (t : Bytes)
    → d < 16
    → e < 16
    → decode plain (b'\\' ∷ b'u' ∷ b'0' ∷ b'0' ∷ hex_digit d ∷ hex_digit e ∷ t)
      ≡ push_byte (d * 16 + e) (decode plain t)
unfolding decode
decode_u00 d e t hd he =
    rw (hex_value-hex_digit d hd, decode)
      (rw (hex_value-hex_digit e he, decode)
        (ap (λ n. push_byte (n * 16 + e) (decode plain t)) (omega arith)))

decode_printable :
    (c : ℕ) (t : Bytes)
    → is_printable c ≡ true
    → decode plain (c ∷ t) ≡ push_byte c (decode plain t)
unfolding decode is_printable
decode_printable c t h = ground arith

decode-escape_sequence :
    (c : ℕ) (t : Bytes)
    → c < 256
    → decode plain (escape_sequence c ++ t) ≡ push_byte c (decode plain t)
unfolding decode escape_sequence
decode-escape_sequence c t h = ground (arith, decode_u00 (c / 16) (c % 16) t)

decode-escape_byte :
    (c : ℕ) (t : Bytes) → c < 256 → decode plain (escape_byte c ++ t) ≡ push_byte c (decode plain t)
decode-escape_byte c t h = elim (Bool-cases (is_printable c)) [
  | inl yes_print ↦ rw yes_print (decode_printable c t yes_print)
  | inr no_print ↦ rw no_print (decode-escape_sequence c t h)
]

-- A JSON reader gets back every byte of a string that was escaped, whatever follows it.
pub decode-escape :
    (s rest : Bytes) → IsBytes s → decode plain (escape s ++ (codes "\"" ++ rest)) ≡ some (s, rest)
unfolding escape
decode-escape [] rest h = unfold decode in refl
decode-escape (c ∷ s) rest h =
    rw (append_assoc (escape_byte c) (escape s))
      (decode-escape_byte c _ h.0 ∙ ap (push_byte c) (decode-escape s rest h.1))

-- Every byte is ASCII and no control character below the space; DEL, 127, may be one.
abbrev pub IsAscii : Bytes → Type 0
IsAscii [] = Unit
IsAscii (c ∷ s) = (31 < c) × (c < 128) × IsAscii s
