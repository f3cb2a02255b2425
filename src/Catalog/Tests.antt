-- ===== src/Catalog/Tests.antt =====
-- `CommitSnapshot` at a table with one partition, with a database that never fails.
use ice_core.Base.{ℕ, suc, ◌≡◌, refl, [], ◌∷◌, arith, Text, codes, nat_eq, text_eq}
use ice_core.Base.Int.{pos, int_eq, to_int64, to_uint64, to_int32, add64}
use ice_core.Base.Decimal.{format_uint}
use ice_core.Db.Rows.{Db}
use ice_core.Db.Exec.{
  Outcome, DbError, done, raised, failed, pure, throw, ◌>>=◌, ◌>>◌, unless_found, reading, on_pool,
  on_tx, casting, or_message, require, begin_tx, commit_tx,
}
use ice_core.Db.Select.{live_row, first_row, update_where}
use ice_core.Db.Tables.{get_table_spec_version, get_current_snapshot, update_table_snapshot_tx}
use ice_core.Db.Snapshots.{insert_snapshot_tx}
use ice_core.Db.Manifests.{insert_manifest_file_tx, insert_manifest_list_tx}
use ice_core.Transaction.{validate_parent_snapshot}
use ice_core.Db.Partitions.{
  select_partitions, insert_partition_tx, mark_partition_deleted_tx, marshal_column_stats,
}
use ice_core.Catalog.Commit.{
  commit_to_db, commit_in_tx, commit_changes, insert_partitions, mark_deleted_all, added_manifest,
  deleted_manifest, total_rows,
}
use ice_core.Catalog.Commit.Outcome.{pointed, current_of}
use ice_core.Catalog.Commit.Atomic.{
  commit_to_db-success, commit_to_db-failure, commit_to_db-isolation, commit_to_db-conflict,
}
use ice_core.Catalog.Commit.Progress.{commit_to_db-completes}
use ice_core.Catalog.Samples.{sound_pg, users, users_row, added, one_table}

abbrev after : Db
after = (commit_to_db sound_pg users 1 (codes "append") (added ∷ []) (codes "a" ∷ []) one_table).1

committed :
    commit_to_db sound_pg users 1 (codes "append") (added ∷ []) (codes "a" ∷ []) one_table
    ≡ (done 2, after)
unfolding commit_to_db ◌>>=◌ or_message get_table_spec_version unless_found on_pool reading live_row
    get_current_snapshot pure ◌>>◌ require validate_parent_snapshot to_uint64 commit_in_tx begin_tx
    insert_snapshot_tx on_tx add64 to_int32 to_int64 added_manifest commit_changes deleted_manifest
    insert_partitions mark_deleted_all total_rows casting commit_tx throw insert_manifest_file_tx
    insert_manifest_list_tx insert_partition_tx mark_partition_deleted_tx marshal_column_stats
    first_row update_where update_table_snapshot_tx
committed = refl

commit_to_db-success_example :
    (1 ≡ current_of users one_table.committed.tables)
    × (2 ≡ suc 1)
    × (after.committed.tables ≡ pointed users (pos 2) one_table.committed.tables)
commit_to_db-success_example =
    commit_to_db-success sound_pg one_table users (omega arith) 1 (codes "append") (added ∷ [])
      (codes "a" ∷ []) 2 after committed

-- A commit whose parent is not current.
abbrev refused : Outcome ℕ × Db
refused = commit_to_db sound_pg users 9 (codes "append") (added ∷ []) [] one_table

abbrev conflict : Text
conflict = codes "conflict: snapshot 9 is no longer current (current=1)"

was_refused : refused ≡ (raised (failed conflict), refused.1)
unfolding commit_to_db ◌>>=◌ or_message get_table_spec_version unless_found on_pool reading live_row
    get_current_snapshot pure ◌>>◌ require validate_parent_snapshot to_uint64 commit_in_tx begin_tx
    insert_snapshot_tx on_tx add64 to_int32 to_int64 added_manifest commit_changes deleted_manifest
    insert_partitions mark_deleted_all total_rows casting commit_tx throw insert_manifest_file_tx
    insert_manifest_list_tx insert_partition_tx mark_partition_deleted_tx marshal_column_stats
    first_row update_where update_table_snapshot_tx format_uint
was_refused = refl

commit_to_db-failure_example : refused.1.committed ≡ one_table.committed
commit_to_db-failure_example =
    commit_to_db-failure sound_pg one_table users (omega arith) 9 (codes "append") (added ∷ []) []
      (failed conflict) refused.1 was_refused

commit_to_db-isolation_example :
    select_partitions sound_pg (pos 1) (pos 1) after.committed
    ≡ select_partitions sound_pg (pos 1) (pos 1) one_table.committed
commit_to_db-isolation_example =
    commit_to_db-isolation sound_pg one_table users (omega arith) 1 (codes "append") (added ∷ [])
      (codes "a" ∷ []) (pos 1) (pos 1) (omega arith)

after_seq : after.sequences.snapshot_seq ≡ 2
unfolding commit_to_db ◌>>=◌ or_message get_table_spec_version unless_found on_pool reading live_row
    get_current_snapshot pure ◌>>◌ require validate_parent_snapshot to_uint64 commit_in_tx begin_tx
    insert_snapshot_tx on_tx add64 to_int32 to_int64 added_manifest commit_changes deleted_manifest
    insert_partitions mark_deleted_all total_rows casting commit_tx throw insert_manifest_file_tx
    insert_manifest_list_tx insert_partition_tx mark_partition_deleted_tx marshal_column_stats
    first_row update_where update_table_snapshot_tx
after_seq = refl

was_live : live_row users one_table.committed.tables ≡ done users_row
unfolding live_row first_row
was_live = refl

commit_to_db-conflict_example :
    (x : DbError) × (d' : Db) × (commit_to_db sound_pg users 1
        (codes "append")
        (added ∷ [])
        []
        after
      ≡ (raised x, d'))
    × (d'.committed ≡ after.committed)
commit_to_db-conflict_example =
    commit_to_db-conflict sound_pg one_table users users_row 1 2 (codes "append") (added ∷ [])
      (codes "a" ∷ []) after (codes "append") (added ∷ []) [] (omega arith)
      (rw after_seq (omega arith)) was_live (omega arith) committed

one_live : live_row users one_table.committed.tables ≡ done users_row
unfolding live_row first_row
one_live = refl

is_current : 1 ≡ current_of users one_table.committed.tables
unfolding current_of live_row first_row to_uint64
is_current = refl

commit_to_db-completes_example :
    (a : ℕ) × (d' : Db) × (commit_to_db sound_pg users 1
        (codes "append")
        (added ∷ [])
        (codes "a" ∷ [])
        one_table
      ≡ (done a, d'))
unfolding marshal_column_stats
commit_to_db-completes_example =
    commit_to_db-completes sound_pg users users_row one_table 1 (codes "append") (added ∷ [])
      (codes "a" ∷ []) (λ n. refl) ((codes "[]", refl), tt) (codes "[]", refl) (codes "[]", refl)
      (omega arith) one_live is_current refl
