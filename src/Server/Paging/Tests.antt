-- ===== src/Server/Paging/Tests.antt =====
-- Tables listed one by one.
use ice_core.Base.{◌≡◌, refl, true, some, [], map, length, arith, suc}
use ice_core.Base.Int.{pos}
use ice_core.Db.Rows.{TableRow}
use ice_core.Db.Select.{order_by}
use ice_core.Catalog.Registry.{new_partition_registry}
use ice_core.Catalog.Samples.{one_table}
use ice_core.Server.{new_server}
use ice_core.Server.Samples.{sample_env}
use ice_core.Server.Paging.{read_all, live_tables}
use ice_core.Server.Paging.Complete.{read_all_complete}

read_all_complete_example :
    read_all sample_env
      (suc (length (live_tables one_table.committed)))
      (pos 1)
      []
      (new_server one_table (pos 2) true 60)
    ≡ some (map (λ (r : TableRow). r.table_name) (live_tables one_table.committed))
unfolding new_server order_by new_partition_registry
read_all_complete_example =
    read_all_complete sample_env (λ n. refl) one_table.committed 1
      (new_server one_table (pos 2) true 60) (omega arith) (omega arith) (omega arith) refl
