-- ===== src/Form/Pairs.antt =====
-- What the parsers of a body in src/ngx_http_dbrelay_module.c make of a well-formed form.
use ngx_dbrelay.Base.{
  ℕ, suc, ◌≤◌, ◌<◌, ◌≡◌, refl, sym, ap, ◌∙◌, true, false, List, [], ◌∷◌, ◌++◌, append-nil, Option,
  none, some, arith, Bytes, length, length-append, drop,
}
use ngx_dbrelay.Request.{Request}
use ngx_dbrelay.Form.{write_value}
use ngx_dbrelay.Form.Scan.{
  Scan, key_sz, unescaped_in_place, scan_loop, start_scan, end_post, parse_post,
}
use ngx_dbrelay.Form.Plain.{PlainBytes, scan, scan_loop_cons, scan_pair, flush_byte}
use ngx_dbrelay.Form.Ends.{split_drop, drop_ge, in_place_ge, end_post_value}

module _ (unescape : Bytes → Bytes) where
  -- The body of a form: `key=value`, with `&` between.
  abbrev pub form_text : Bytes × Bytes → List (Bytes × Bytes) → Bytes
  form_text (k, v) [] = k ++ b'=' ∷ v
  form_text (k, v) (p ∷ ps) = k ++ b'=' ∷ (v ++ b'&' ∷ form_text p ps)

  -- The values stored in their order.
  abbrev pub stored : Request → Bytes × Bytes → List (Bytes × Bytes) → Request
  stored r (k, v) [] = write_value unescape r k v
  stored r (k, v) (p ∷ ps) = stored (write_value unescape r k v) p ps

  -- Keys and values without separators, zeroes and line ends, the keys shorter than their array.
  abbrev pub Plain : Bytes × Bytes → List (Bytes × Bytes) → Type 0
  Plain (k, v) [] = PlainBytes k × PlainBytes v × (length k < key_sz)
  Plain (k, v) (p ∷ ps) = (PlainBytes k × PlainBytes v × (length k < key_sz)) × Plain p ps

  finish_post : Option Scan → Option Request
  finish_post none = none
  finish_post (some s) = end_post unescape s

  parse_last :
      (k v : Bytes) (r : Request) (array : Bytes) (at : ℕ)
      → PlainBytes k
      → PlainBytes v
      → length k < key_sz
      → length v < length array
      → finish_post (scan_loop unescape (k ++ b'=' ∷ v) (scan r [] array at false))
        ≡ some (write_value unescape r k v)
  unfolding finish_post scan_loop
  parse_last k v r array at pk pv room fits =
      let (x, m, e) = split_drop (length v) array fits in
      ap
        (λ (s : Bytes). finish_post (scan_loop unescape (k ++ b'=' ∷ s) (scan r [] array at false)))
        (sym (append-nil v))
      ∙ (ap finish_post (scan_pair unescape k v [] r array at pk pv room (omega arith))
          ∙ (ap (λ (a : Bytes). end_post unescape (scan r k (v ++ a) (length v) true)) e
              ∙ end_post_value unescape v m x r k pk pv room))

  parse_next :
      (k v rest : Bytes) (r : Request) (array : Bytes) (at : ℕ)
      → PlainBytes k
      → PlainBytes v
      → length k < key_sz
      → length v < length array
      → (array' : Bytes) × (length array ≤ length array')
        × (scan_loop unescape (k ++ b'=' ∷ (v ++ b'&' ∷ rest)) (scan r [] array at false)
            ≡ scan_loop unescape rest
                (scan (write_value unescape r k v) [] array' (length v) false))
  parse_next k v rest r array at pk pv room fits =
      let (x, m, e) = split_drop (length v) array fits in
      let a = drop_ge (length v) array in
      let b : length (drop (length v) array) ≡ suc (length m) = ap length e in
      let c = length-append v (0 ∷ m) in
      let d = in_place_ge unescape v (v ++ 0 ∷ m) in
      (
        unescaped_in_place unescape v (v ++ 0 ∷ m),
        omega arith,
        scan_pair unescape k v (b'&' ∷ rest) r array at pk pv room (omega arith)
            ∙ (ap
                  (λ (s : Bytes).
                    scan_loop unescape (b'&' ∷ rest) (scan r k (v ++ s) (length v) true))
                  e
                ∙ scan_loop_cons unescape b'&' rest _ _ (flush_byte unescape v x m r k pk pv room)),
      )

  parse_form :
      (p : Bytes × Bytes) (ps : List (Bytes × Bytes)) (r : Request) (array : Bytes) (at : ℕ)
      → Plain p ps
      → length (form_text p ps) ≤ length array
      → finish_post (scan_loop unescape (form_text p ps) (scan r [] array at false))
        ≡ some (stored r p ps)
  parse_form (k, v) [] r array at (pk, pv, room) fits =
      let l = length-append k (b'=' ∷ v) in parse_last k v r array at pk pv room (omega arith)
  parse_form (k, v) (p ∷ ps) r array at ((pk, pv, room), plain) fits =
      let rest = form_text p ps in
      let l = length-append k (b'=' ∷ (v ++ b'&' ∷ rest)) in
      let l' = length-append v (b'&' ∷ rest) in
      let (array', larger, e) = parse_next k v rest r array at pk pv room (omega arith) in
      ap finish_post e
      ∙ parse_form p ps (write_value unescape r k v) array' (length v) plain (omega arith)

  -- From the body of a form whose keys and values have no separators, zeroes or line ends and whose
  -- keys are shorter than their array, the parser stores the values under their keys in order, without
  -- a write outside an array, whatever the array held that it got and whatever unescaping leaves in it.
  pub parse_post-form_text :
      (p : Bytes × Bytes) (ps : List (Bytes × Bytes)) (r : Request) (array : Bytes)
      → Plain p ps
      → length (form_text p ps) ≤ length array
      → parse_post unescape r array (form_text p ps) ≡ some (stored r p ps)
  unfolding parse_post finish_post
  parse_post-form_text p ps r array plain fits =
      go (scan_loop unescape (form_text p ps) (start_scan unescape r array))
      ∙ parse_form p ps r array 0 plain fits
    where
      go :
          (s : Option Scan)
          → (elim s as (λ x. Option Request) [ none ↦ none | some t ↦ end_post unescape t ])
            ≡ finish_post s
      go none = refl
      go (some t) = refl
