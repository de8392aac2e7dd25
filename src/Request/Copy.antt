-- ===== src/Request/Copy.antt =====
-- The bounded copy `dbrelay_copy_string` of src/db.c, and the flag bits.
use ngx_dbrelay.Base.{
  ℕ, ◌+◌, ◌≤◌, ◌<◌, ◌≡◌, refl, Bool, true, false, ◌-◌, [], ◌++◌, arith, Bytes, length, drop,
  length-take-le, take-append-drop, ltb, if◌then◌else◌, Bool-cases, inl, inr, append-nil,
}
use ngx_dbrelay.Request.{
  Flag, echosql, pp, xact, embedcsv, nomagic, has_flag, set_flag, dbrelay_copy_string,
}

-- The copy and its terminating zero fit into the `sz` bytes; the copy is a prefix of the source; and a source that
-- fits is copied whole.
pub dbrelay_copy_string_lem :
    (src : Bytes) (sz : ℕ)
    → 0 < sz
    → (length (dbrelay_copy_string src sz) + 1 ≤ sz)
      × ((rest : Bytes) × (dbrelay_copy_string src sz ++ rest ≡ src))
      × (length src < sz → dbrelay_copy_string src sz ≡ src)
unfolding dbrelay_copy_string
dbrelay_copy_string_lem src sz h = elim (Bool-cases (ltb (length src) sz)) [
  | inl fits ↦ rw fits (ground arith, ([], append-nil src), λ _. refl)
  | inr long ↦ rw long (
    omega (arith, length-take-le (sz - 1) src),
    (drop (sz - 1) src, take-append-drop (sz - 1) src),
    ground arith,
  )
]

abbrev pub same : Flag → Flag → Bool
same echosql echosql = true
same pp pp = true
same xact xact = true
same embedcsv embedcsv = true
same nomagic nomagic = true
same _ _ = false

-- Setting a flag sets that flag and no other.
pub has_flag-set_flag :
    (flags : ℕ) (f g : Flag)
    → has_flag (set_flag flags f) g ≡ (if same f g then true else has_flag flags g)
unfolding has_flag set_flag
has_flag-set_flag flags echosql echosql = ground arith
has_flag-set_flag flags _ _ = ground arith
