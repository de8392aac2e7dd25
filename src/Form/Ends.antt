-- ===== src/Form/Ends.antt =====
-- How the parsers of a body in src/ngx_http_dbrelay_module.c end a value: the chopping of line ends, and
-- the array that unescaping in place leaves.
use ngx_dbrelay.Base.{
  ℕ, zero, suc, ◌+◌, ◌≤◌, ◌<◌, ◌≡◌, refl, ap, ap₂, ◌∙◌, true, false, ◌&&◌, [], ◌∷◌, ◌++◌, Option,
  some, arith, Bytes, map, c_str, c_str-NoZero, length, length-append, get_elem?, set, drop, ltb,
  if◌then◌else◌, Bool-cases, inl, inr,
}
use ngx_dbrelay.Request.{Request}
use ngx_dbrelay.Params.Split.{set_middle, c_str_cut}
use ngx_dbrelay.Form.{unplus, write_value}
use ngx_dbrelay.Form.Scan.{
  key_sz, is_line_end, unescaped_in_place, flush_scan, chop_loop, chops, end_post,
}
use ngx_dbrelay.Form.Plain.{PlainBytes, scan, PlainBytes-NoZero}

-- What is left of an array behind a place inside it.
pub split_drop :
    (n : ℕ) (array : Bytes) → n < length array → (x : ℕ) × (m : Bytes) × (drop n array ≡ x ∷ m)
split_drop n [] h = absurd (omega arith)
split_drop zero (x ∷ m) h = (x, m, refl)
split_drop (suc n) (x ∷ m) h = split_drop n m (omega arith)

pub drop_ge : (n : ℕ) (s : Bytes) → length s ≤ length (drop n s) + n
drop_ge zero s = omega arith
drop_ge (suc n) [] = omega arith
drop_ge (suc n) (c ∷ s) = let h = drop_ge n s in omega arith

length-map-unplus : (s : Bytes) → length (map unplus s) ≡ length s
length-map-unplus [] = refl
length-map-unplus (c ∷ s) = ap suc (length-map-unplus s)

module _ (unescape : Bytes → Bytes) where
  pub in_place_ge : (s array : Bytes) → length array ≤ length (unescaped_in_place unescape s array)
  unfolding unescaped_in_place
  in_place_ge s array =
      let out = unescape (map unplus s) in
      let whole = map unplus s ++ drop (length s) array in
      let a = length-append out (0 ∷ drop (length out + 1) whole) in
      let b = drop_ge (length out + 1) whole in
      let c = length-append (map unplus s) (drop (length s) array) in
      let d = drop_ge (length s) array in let e = length-map-unplus s in omega arith

  chop_stays :
      (at : ℕ) (array : Bytes) (c : ℕ)
      → get_elem? array at ≡ some c
      → is_line_end c ≡ false
      → (chop_loop unescape at array).0 ≡ array
  unfolding chop_loop
  chop_stays zero array c h e = rw (h, chop_loop) (rw e refl)
  chop_stays (suc n) array c h e = rw (h, chop_loop) (rw e refl)

  chop_first :
      (array : Bytes) (c : ℕ)
      → get_elem? array 0 ≡ some c
      → is_line_end c ≡ true
      → (chop_loop unescape 0 array).0 ≡ set array 0 0
  unfolding chop_loop
  chop_first array c h e = rw (h, chop_loop) (rw e refl)

  chop_next :
      (n : ℕ) (array : Bytes) (c : ℕ)
      → get_elem? array (suc n) ≡ some c
      → is_line_end c ≡ true
      → chop_loop unescape (suc n) array ≡ chop_loop unescape n (set array (suc n) 0)
  unfolding chop_loop
  chop_next n array c h e = rw (h, chop_loop) (rw (e, chop_loop) refl)

  get_elem?_middle : (p m : Bytes) (x : ℕ) → get_elem? (p ++ x ∷ m) (length p) ≡ some x
  get_elem?_middle [] m x = refl
  get_elem?_middle (c ∷ p) m x = get_elem?_middle p m x

  -- A byte of a plain value is no line end.
  plain_at :
      (v m : Bytes) (n : ℕ)
      → PlainBytes v
      → n < length v
      → (c : ℕ) × (get_elem? (v ++ m) n ≡ some c) × (is_line_end c ≡ false)
  plain_at [] m n h lt = absurd (omega arith)
  plain_at (c ∷ v) m zero h lt = (c, refl, h.0.3)
  plain_at (c ∷ v) m (suc n) h lt = plain_at v m n h.1 (omega arith)

  -- Whatever stood behind the value, chopping ends it there.
  chop_value :
      (v m : Bytes) (x : ℕ)
      → PlainBytes v
      → is_line_end x ≡ true
      → (chop_loop unescape (length v) (v ++ x ∷ m)).0 ≡ v ++ 0 ∷ m
  chop_value [] m x h e = chop_first (x ∷ m) x refl e
  chop_value (c ∷ v) m x h e =
      let (d, at, plain) = plain_at (c ∷ v) (0 ∷ m) (length v) h (omega arith) in
      ap (λ (r : Bytes × Option ℕ). r.0)
        (chop_next (length v) (c ∷ v ++ x ∷ m) x (get_elem?_middle v m x) e)
      ∙ (ap (λ (s : Bytes). (chop_loop unescape (length v) s).0) (set_middle (c ∷ v) m x 0)
          ∙ chop_stays (length v) (c ∷ v ++ 0 ∷ m) d at plain)

  chops_middle : (v m : Bytes) (x : ℕ) → chops unescape (v ++ x ∷ m) (length v) ≡ is_line_end x
  chops_middle [] m x = refl
  chops_middle (c ∷ v) m x = chops_middle v m x

  end_value :
      (v m : Bytes) (x : ℕ)
      → PlainBytes v
      → (if chops unescape (v ++ x ∷ m) (length v)
          then (chop_loop unescape (length v) (v ++ x ∷ m)).0
          else set (v ++ x ∷ m) (length v) 0)
        ≡ v ++ 0 ∷ m
  end_value v m x h = elim (Bool-cases (is_line_end x)) [
    | inl chopped ↦ rw (chops_middle v m x ∙ chopped) (chop_value v m x h chopped)
    | inr kept ↦ rw (chops_middle v m x ∙ kept) (set_middle v m x 0)
  ]

  pub end_post_value :
      (v m : Bytes) (x : ℕ) (r : Request) (key : Bytes)
      → PlainBytes key
      → PlainBytes v
      → length key < key_sz
      → end_post unescape (scan r key (v ++ x ∷ m) (length v) true)
        ≡ some (write_value unescape r key v)
  unfolding end_post flush_scan
  end_post_value v m x r key pk pv room =
      let l = length-append v (x ∷ m) in
      let fits : (ltb (length key) key_sz && ltb (length v) (length (v ++ x ∷ m))) ≡ true =
        ground arith in
      rw (fits, end_post)
        (ap₂ (λ (a b : Bytes). some (write_value unescape r a b))
          (c_str-NoZero key (PlainBytes-NoZero key pk))
          (ap c_str (end_value v m x pv) ∙ c_str_cut v m (PlainBytes-NoZero v pv)))
