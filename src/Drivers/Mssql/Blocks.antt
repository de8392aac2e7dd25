-- ===== src/Drivers/Mssql/Blocks.antt =====
-- The blocks that `dbrelay_mssql_catalogsql` of src/mssql.c allocates are large enough.
use ngx_dbrelay.Base.{
  ℕ, suc, ◌+◌, ◌-◌, ◌*◌, ◌≤◌, ◌≡◌, refl, ap, false, ◌&&◌, List, [], ◌∷◌, Bytes, length, take, drop,
  is_set, arith, length-append, length-drop, length-take-le, take-append-drop, ◌==◌, if◌then◌else◌,
  Bool-cases, Option-cases, inl, inr,
}
use ngx_dbrelay.Drivers.{sprintf_s, columns, pkey}
use ngx_dbrelay.Drivers.Mssql.{
  dot_loop, strip_quotes, split_tablename, columns_mask, columns_mask2, pkey_mask, pkey_mask2,
  table_sql, catalogsql,
}

-- The directives `%s` of a mask.
unfoldable directives : Bytes → ℕ
directives [] = 0
directives (c ∷ []) = 0
directives (c ∷ d ∷ mask) =
    if c == b'%' && d == b's' then suc (directives mask) else directives (d ∷ mask)

abbrev total : List Bytes → ℕ
total [] = 0
total (arg ∷ args) = length arg + total args

length-sprintf_s :
    (mask : Bytes) (args : List Bytes)
    → length args ≤ directives mask
    → length (sprintf_s mask args) + 2 * length args ≡ length mask + total args
unfolding sprintf_s directives
length-sprintf_s [] [] h = omega arith
length-sprintf_s [] (arg ∷ args) h = absurd (omega arith)
length-sprintf_s (c ∷ []) [] h = omega arith
length-sprintf_s (c ∷ []) (arg ∷ args) h = absurd (omega arith)
length-sprintf_s (c ∷ d ∷ mask) [] h = omega (arith, length-sprintf_s (d ∷ mask) [] (omega arith))
length-sprintf_s (c ∷ d ∷ mask) (arg ∷ args) h = elim (Bool-cases (c == b'%' && d == b's')) [
  | inl hit ↦ rw hit (
      omega (
        arith,
        length-append arg (sprintf_s mask args),
        length-sprintf_s mask args (omega (arith, rw hit at h)),
      ))
  | inr miss ↦ rw miss (omega (arith, length-sprintf_s (d ∷ mask) (arg ∷ args) (rw miss at h)))
]

length-strip_quotes-le : (s : Bytes) → length (strip_quotes s) ≤ length s
unfolding strip_quotes
length-strip_quotes-le [] = omega arith
length-strip_quotes-le (c ∷ s) = ground (arith, length-take-le (length s - 1) s)

-- The two parts together are no longer than the name.
split_tablename-le :
    (name : Bytes) → length (split_tablename name).0 + length (split_tablename name).1 ≤ length name
unfolding split_tablename
split_tablename-le name = elim (Option-cases (dot_loop false false 0 name)) [
  | inl e ↦ rw (e, split_tablename) (omega arith)
  | inr (n, e) ↦
      rw (e, split_tablename)
        (omega (
          arith,
          length-strip_quotes-le (take n name),
          length-strip_quotes-le (drop (n + 1) name),
          length-drop (n + 1) name,
          length-append (take n name) (drop n name),
          length-drop n name,
          ap length (take-append-drop n name),
        ))
]

length-table_sql :
    (mask mask2 name : Bytes)
    → directives mask ≡ 1
    → directives mask2 ≡ 2
    → length mask ≤ length mask2
    → length (table_sql mask mask2 name) + 1 ≤ length mask2 + length name
unfolding table_sql
length-table_sql mask mask2 name h1 h2 h =
    let schema = (split_tablename name).0 in
    let table = (split_tablename name).1 in
    let both = split_tablename-le name in
    elim (Bool-cases (is_set schema)) [
      | inl e ↦
          rw (e, table_sql)
            (omega (arith, length-sprintf_s mask2 (table ∷ schema ∷ []) (omega arith), both))
      | inr e ↦
          rw (e, table_sql) (omega (arith, length-sprintf_s mask (table ∷ []) (omega arith), both))
    ]

-- Whatever the name, the two parts fit into their blocks, which have the name's length and one byte, and
-- the statements about columns and keys with their terminating zero into theirs, which have the longer
-- mask's length and the name's.
pub catalogsql-fits :
    (name : Bytes)
    → (length (split_tablename name).0 + 1 ≤ length name + 1)
      × (length (split_tablename name).1 + 1 ≤ length name + 1)
      × (length (catalogsql columns name) + 1 ≤ length columns_mask2 + length name)
      × (length (catalogsql pkey name) + 1 ≤ length pkey_mask2 + length name)
unfolding catalogsql directives
catalogsql-fits name = (
  omega (arith, split_tablename-le name),
  omega (arith, split_tablename-le name),
  length-table_sql columns_mask columns_mask2 name refl refl (omega arith),
  length-table_sql pkey_mask pkey_mask2 name refl refl (omega arith),
)
