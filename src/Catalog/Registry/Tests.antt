-- ===== src/Catalog/Registry/Tests.antt =====
-- The registry with a cache of one list.
use ice_core.Base.{
  ℕ, ◌≡◌, refl, false, none, some, [], ◌∷◌, ◌++◌, arith, Text, codes, nat_eq, text_eq, text_beq_iff,
}
use ice_core.Base.Int.{int_eq, to_int64, to_uint64, to_int32, add64}
use ice_core.Db.Rows.{Db}
use ice_core.Db.Exec.{
  Outcome, done, pure, throw, ◌>>=◌, ◌>>◌, unless_found, reading, on_pool, on_tx, casting,
  or_message, require, begin_tx, commit_tx,
}
use ice_core.Db.Select.{live_row, first_row, update_where}
use ice_core.Db.Tables.{get_table_spec_version, get_current_snapshot, update_table_snapshot_tx}
use ice_core.Db.Snapshots.{insert_snapshot_tx}
use ice_core.Db.Manifests.{insert_manifest_file_tx, insert_manifest_list_tx}
use ice_core.Transaction.{validate_parent_snapshot}
use ice_core.Db.Partitions.{insert_partition_tx, mark_partition_deleted_tx, marshal_column_stats}
use ice_core.Catalog.Commit.{
  commit_to_db, commit_in_tx, commit_changes, insert_partitions, mark_deleted_all, added_manifest,
  deleted_manifest, total_rows,
}
use ice_core.Base.Dict.{lookup}
use ice_core.Base.Range.{IsOrder}
use ice_core.Cache.{find}
use ice_core.Cache.Shape.{IsValid}
use ice_core.Cache.Order.{view}
use ice_core.Catalog.Samples.{sound_pg, users, added, one_table}
use ice_core.Catalog.Registry.{
  PartitionRegistry, Answer, make_cache_key, has_prefix, get_partitions, commit_snapshot,
}
use ice_core.Catalog.Registry.Answers.{rows_at, wanted, make_cache_key_injective}
use ice_core.Catalog.Registry.Cached.{Coherent, Answered, get_partitions-Answered}
use ice_core.Catalog.Registry.Emptied.{commit_snapshot-emptied}

make_cache_key_injective_example : (users ≡ codes "users") × (◌≡◌ {A = ℕ} 12 12)
make_cache_key_injective_example = make_cache_key_injective users (codes "users") 12 12 refl

-- No list is kept yet.
abbrev cold : PartitionRegistry
cold = record {
  db = one_table;
  cache = record {
    capacity = 2;
    items = [];
    list = [];
    next_id = 0;
    hits = 0;
    misses = 0;
    evictions = 0;
  };
  disable_cache = false;
}

cold-Coherent : Coherent sound_pg cold
unfolding lookup view
cold-Coherent = record {
  valid = record {
    positive = omega arith;
    bounded = omega arith;
    tidy = tt;
    agree = λ k. refl;
    distinct = tt;
    counted = refl;
  };
  kept = λ t s x l. cc l;
}

get_partitions_example :
    (a : Answer) × (r' : PartitionRegistry) × (get_partitions sound_pg cold users 0 ≡ some (a, r'))
    × Answered sound_pg one_table.committed one_table.sequences
        (rows_at sound_pg users (wanted users 0 one_table.committed) one_table.committed)
        a
        r'
get_partitions_example = get_partitions-Answered sound_pg cold users 0 cold-Coherent

-- A list of the table and one of another.
abbrev warm : PartitionRegistry
warm = record {
  db = one_table;
  cache = record {
    capacity = 2;
    items = (codes "users:1", 0) ∷ (codes "orders:1", 1) ∷ [];
    list =
        record { id = 1; key = codes "orders:1"; value = [] }
        ∷ record { id = 0; key = codes "users:1"; value = [] }
        ∷ [];
    next_id = 2;
    hits = 0;
    misses = 0;
    evictions = 0;
  };
  disable_cache = false;
}

warm-IsValid : IsValid warm.cache
unfolding lookup find
warm-IsValid = record {
  positive = omega arith;
  bounded = omega arith;
  tidy = (refl, refl, omega arith, (refl, refl, omega arith, tt));
  agree = λ k. two_orders k;
  distinct = (refl, (refl, tt));
  counted = refl;
}
  where
    two_orders :
        (k : Text)
        → lookup {V = ℕ} k ((codes "users:1", 0) ∷ (codes "orders:1", 1) ∷ [])
          ≡ lookup k ((codes "orders:1", 1) ∷ (codes "users:1", 0) ∷ [])
    two_orders k =
        ground (arith, text_beq_iff (codes "users:1") k, text_beq_iff (codes "orders:1") k)

warm-IsOrder : IsOrder warm.cache.items warm.cache.items
unfolding lookup
warm-IsOrder = record { once = (refl, (refl, tt)); same = λ k. refl }

abbrev after : Outcome ℕ × Db
after = commit_to_db sound_pg users 1 (codes "append") (added ∷ []) (codes "a" ∷ []) one_table

was_committed : after ≡ (done 2, after.1)
unfolding commit_to_db ◌>>=◌ or_message get_table_spec_version unless_found on_pool reading live_row
    get_current_snapshot pure ◌>>◌ require validate_parent_snapshot to_uint64 commit_in_tx begin_tx
    insert_snapshot_tx on_tx add64 to_int32 to_int64 added_manifest commit_changes deleted_manifest
    insert_partitions mark_deleted_all total_rows casting commit_tx throw insert_manifest_file_tx
    insert_manifest_list_tx insert_partition_tx mark_partition_deleted_tx marshal_column_stats
    first_row update_where update_table_snapshot_tx
was_committed = refl

commit_snapshot-emptied_example :
    (r' : PartitionRegistry) × (commit_snapshot sound_pg warm users 1
        (codes "append")
        (added ∷ [])
        (codes "a" ∷ [])
        warm.cache.items
      ≡ (done 2, r'))
    × (r'.db ≡ after.1)
    × IsValid r'.cache
    × ((snapshot : ℕ) → lookup (make_cache_key users snapshot) (view r'.cache) ≡ none)
    × ((key : Text)
        → has_prefix (users ++ codes ":") key ≡ false
        → lookup key (view r'.cache) ≡ lookup key (view warm.cache))
commit_snapshot-emptied_example =
    commit_snapshot-emptied sound_pg warm users 1 (codes "append") (added ∷ []) (codes "a" ∷ [])
      warm.cache.items 2 after.1 warm-IsValid warm-IsOrder was_committed
