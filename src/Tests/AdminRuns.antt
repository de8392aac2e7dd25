-- ===== src/Tests/AdminRuns.antt =====
-- Runs of the administrator's kill and of the names of tables.
use ngx_dbrelay.Base.{◌+◌, ◌≤◌, ◌≡◌, refl, true, [], ◌∷◌, ◌++◌, some, codes, length, contains}
use ngx_dbrelay.Pool.{Connections, blank}
use ngx_dbrelay.Admin.{dbrelay_admin_kill}
use ngx_dbrelay.Admin.Killing.{Kills, dbrelay_admin_kill-Kills}
use ngx_dbrelay.Drivers.{columns, pkey}
use ngx_dbrelay.Drivers.Mssql.{split_tablename, catalogsql, columns_mask2, pkey_mask2}
use ngx_dbrelay.Drivers.Mssql.Names.{plain, bracketed, written, split_tablename-written}
use ngx_dbrelay.Drivers.Mssql.Blocks.{catalogsql-fits}

abbrev pool : Connections
pool =
    record blank { pid = 4; helper_pid = 5; sock_path = codes "/tmp/a" }
    ∷ record blank { pid = 6; helper_pid = 7; sock_path = codes "/tmp/b" }
    ∷ blank
    ∷ []

abbrev same_pool : Connections → Connections
same_pool cs = cs

dbrelay_admin_kill-Kills_example :
    Kills
      (codes "/tmp/b")
      pool
      pool
      (dbrelay_admin_kill (some 3) (λ p. true) same_pool (codes "/tmp/b") pool)
dbrelay_admin_kill-Kills_example =
    dbrelay_admin_kill-Kills 3 (λ p. true) same_pool (codes "/tmp/b") pool

split_tablename-written_example :
    split_tablename (written (bracketed (codes "a.b")) ++ b'.' ∷ written (plain (codes "t")))
    ≡ (codes "a.b", codes "t")
unfolding contains
split_tablename-written_example =
    split_tablename-written (bracketed (codes "a.b")) (plain (codes "t")) (refl, (refl, (refl, tt)))
      (refl, tt)

catalogsql-fits_example :
    (length (split_tablename (codes "s.t")).0 + 1 ≤ length (codes "s.t") + 1)
    × (length (split_tablename (codes "s.t")).1 + 1 ≤ length (codes "s.t") + 1)
    × (length (catalogsql columns (codes "s.t")) + 1 ≤ length columns_mask2 + length (codes "s.t"))
    × (length (catalogsql pkey (codes "s.t")) + 1 ≤ length pkey_mask2 + length (codes "s.t"))
catalogsql-fits_example = catalogsql-fits (codes "s.t")
