-- ===== src/Form/Plain.antt =====
-- How the parsers of a body in src/ngx_http_dbrelay_module.c read a key and a value without separators.
use ngx_dbrelay.Base.{
  ℕ, ◌+◌, ◌≤◌, ◌<◌, ◌≡◌, ◌≢◌, refl, sym, ap, ap₂, ◌∙◌, Bool, true, false, [], ◌∷◌, ◌++◌,
  append_assoc, append-nil, some, arith, Bytes, NoZero, c_str-NoZero, length, length-append, drop,
  ltb, ◌==◌,
}
use ngx_dbrelay.Request.{Request}
use ngx_dbrelay.Params.Split.{set_middle, c_str_cut}
use ngx_dbrelay.Form.{write_value}
use ngx_dbrelay.Form.Scan.{
  Scan, key_sz, is_line_end, poke, unescaped_in_place, flush_scan, scan_byte, scan_loop,
}

-- Bytes that may stand in a key or a value: no separator, no zero, no line end.
abbrev pub PlainBytes : Bytes → Type 0
PlainBytes [] = Unit
PlainBytes (c ∷ s) = ((c ≢ 0) × (c ≢ b'&') × (c ≢ b'=') × (is_line_end c ≡ false)) × PlainBytes s

abbrev pub scan : Request → Bytes → Bytes → ℕ → Bool → Scan
scan r key value at target = record {
  request = r;
  key = key;
  value = value;
  at = at;
  target = target;
}

pub PlainBytes-NoZero : (s : Bytes) → PlainBytes s → NoZero s
PlainBytes-NoZero [] h = tt
PlainBytes-NoZero (c ∷ s) h = (h.0.0, PlainBytes-NoZero s h.1)

module _ (unescape : Bytes → Bytes) where
  pub scan_loop_cons :
      (c : ℕ) (cs : Bytes) (s next : Scan)
      → scan_byte unescape s c ≡ some next
      → scan_loop unescape (c ∷ cs) s ≡ scan_loop unescape cs next
  unfolding scan_loop
  scan_loop_cons c cs s next h = rw (h, scan_loop) refl

  key_byte :
      (c : ℕ) (r : Request) (key value : Bytes) (at : ℕ)
      → c ≢ b'&'
      → c ≢ b'='
      → length key < key_sz
      → scan_byte unescape (scan r key value at false) c
        ≡ some (scan r (key ++ c ∷ []) value at false)
  unfolding scan_byte
  key_byte c r key value at h k room = ground arith

  scan_key :
      (k rest : Bytes) (r : Request) (key value : Bytes) (at : ℕ)
      → PlainBytes k
      → length key + length k < key_sz
      → scan_loop unescape (k ++ rest) (scan r key value at false)
        ≡ scan_loop unescape rest (scan r (key ++ k) value at false)
  scan_key [] rest r key value at h room =
      ap (λ x. scan_loop unescape rest (scan r x value at false)) (sym (append-nil key))
  scan_key (c ∷ k) rest r key value at h room =
      let longer = length-append key (c ∷ []) in
      scan_loop_cons c (k ++ rest) _ _ (key_byte c r key value at h.0.1 h.0.2 (omega arith))
      ∙ (scan_key k rest r (key ++ c ∷ []) value at h.1 (omega arith)
          ∙ ap (λ x. scan_loop unescape rest (scan r x value at false))
              (append_assoc key (c ∷ []) k))

  equals_byte :
      (r : Request) (key value : Bytes) (at : ℕ)
      → scan_byte unescape (scan r key value at false) b'=' ≡ some (scan r key value 0 true)
  unfolding scan_byte
  equals_byte r key value at = refl

  poke_middle : (p m : Bytes) (x c : ℕ) → poke (p ++ x ∷ m) (length p) c ≡ some (p ++ c ∷ m)
  poke_middle p m x c =
      let l = length-append p (x ∷ m) in
      let inside : ltb (length p) (length (p ++ x ∷ m)) ≡ true = ground arith in
      rw inside (ap some (set_middle p m x c))

  value_byte :
      (c x : ℕ) (r : Request) (key p m : Bytes)
      → c ≢ b'&'
      → c ≢ b'='
      → scan_byte unescape (scan r key (p ++ x ∷ m) (length p) true) c
        ≡ some (scan r key (p ++ c ∷ m) (length p + 1) true)
  unfolding scan_byte
  value_byte c x r key p m h k =
      let poked = poke_middle p m x c in
      let not_and : (c == b'&') ≡ false = ground arith in
      let not_equals : (c == b'=') ≡ false = ground arith in
      rw (not_and, scan_byte) (rw (not_equals, scan_byte) (rw (poked, scan_byte) refl))

  scan_value :
      (v rest : Bytes) (r : Request) (key p m : Bytes)
      → PlainBytes v
      → length v ≤ length m
      → scan_loop unescape (v ++ rest) (scan r key (p ++ m) (length p) true)
        ≡ scan_loop unescape rest
            (scan r key ((p ++ v) ++ drop (length v) m) (length (p ++ v)) true)
  scan_value [] rest r key p m h room =
      ap (λ x. scan_loop unescape rest (scan r key (x ++ m) (length x) true)) (sym (append-nil p))
  scan_value (c ∷ v) rest r key p [] h room = absurd (omega arith)
  scan_value (c ∷ v) rest r key p (x ∷ m) h room =
      let step = scan_loop_cons c (v ++ rest) _ _ (value_byte c x r key p m h.0.1 h.0.2) in
      let longer : length p + 1 ≡ length (p ++ c ∷ []) =
        let l = length-append p (c ∷ []) in omega arith in
      step
      ∙ (ap₂ (λ (y : Bytes) (n : ℕ). scan_loop unescape (v ++ rest) (scan r key y n true))
            (sym (append_assoc p (c ∷ []) m)) longer
          ∙ (scan_value v rest r key (p ++ c ∷ []) m h.1 (omega arith)
              ∙ ap
                  (λ (y : Bytes).
                    scan_loop unescape rest (scan r key (y ++ drop (length v) m) (length y) true))
                  (append_assoc p (c ∷ []) v)))

  -- A key, the sign, and a value, in front of what follows.
  pub scan_pair :
      (k v rest : Bytes) (r : Request) (array : Bytes) (at : ℕ)
      → PlainBytes k
      → PlainBytes v
      → length k < key_sz
      → length v ≤ length array
      → scan_loop unescape (k ++ b'=' ∷ (v ++ rest)) (scan r [] array at false)
        ≡ scan_loop unescape rest (scan r k (v ++ drop (length v) array) (length v) true)
  scan_pair k v rest r array at pk pv room fits =
      scan_key k (b'=' ∷ (v ++ rest)) r [] array at pk (omega arith)
      ∙ (scan_loop_cons b'=' (v ++ rest) _ _ (equals_byte r k array at)
          ∙ scan_value v rest r k [] array pv fits)

  pub flush_byte :
      (v : Bytes) (x : ℕ) (m : Bytes) (r : Request) (key : Bytes)
      → PlainBytes key
      → PlainBytes v
      → length key < key_sz
      → scan_byte unescape (scan r key (v ++ x ∷ m) (length v) true) b'&'
        ≡ some (
            scan
              (write_value unescape r key v)
              []
              (unescaped_in_place unescape v (v ++ 0 ∷ m))
              (length v)
              false)
  unfolding scan_byte flush_scan
  flush_byte v x m r key pk pv room =
      let short : ltb (length key) key_sz ≡ true = ground arith in
      rw (short, scan_byte)
        (rw (poke_middle v m x 0, scan_byte)
          (rw (c_str_cut v m (PlainBytes-NoZero v pv), c_str-NoZero key (PlainBytes-NoZero key pk))
            refl))
