-- ===== src/Catalog/Commit.antt =====
-- internal/catalog/partition_registry.go: the database part of `CommitSnapshot`. An early return
-- with an `ErrorMsg` is an outcome `raised (failed message)`.
pub mod Harmless
pub mod Isolation
pub mod Outcome
pub mod Effect
pub mod Atomic
pub mod Ready
pub mod Progress
use ice_core.Base.{
  ℕ, suc, ◌+◌, not, List, [], ◌∷◌, ◌++◌, map, ◌==◌, nat_eq, if◌then◌else◌, Text, codes, length,
}
use ice_core.Base.Int.{ℤ, pos, to_int32, to_int64, add64}
use ice_core.Base.Decimal.{format_uint}
use ice_core.Db.Rows.{PartitionRow}
use ice_core.Db.Exec.{Pg, Exec, pure, ◌>>=◌, ◌>>◌, or_message, require, begin_tx, commit_tx}
use ice_core.Db.Tables.{get_table_spec_version, get_current_snapshot, update_table_snapshot_tx}
use ice_core.Db.Partitions.{insert_partition_tx, mark_partition_deleted_tx}
use ice_core.Db.Snapshots.{insert_snapshot_tx}
use ice_core.Db.Manifests.{insert_manifest_file_tx, insert_manifest_list_tx}
use ice_core.Transaction.{validate_parent_snapshot}

abbrev pub same : Text → Text
same t = t

abbrev pub conflict_text : ℕ → ℕ → Text
conflict_text parent current =
    codes "conflict: snapshot "
    ++ (format_uint parent
        ++ (codes " is no longer current (current=" ++ (format_uint current ++ codes ")")))

-- fmt.Sprintf("iceberg://%s/%d/%d.avro", …)
abbrev pub manifest_path : Text → ℕ → ℕ → Text
manifest_path table_name snapshot count =
    codes "iceberg://"
    ++ (table_name
        ++ (codes "/"
            ++ (format_uint snapshot ++ (codes "/" ++ (format_uint count ++ codes ".avro")))))

-- `totalRows += p.RowCount`
unfoldable pub total_rows : ℤ → List PartitionRow → ℤ
total_rows acc [] = acc
total_rows acc (p ∷ ps) = total_rows (add64 acc p.row_count) ps

module _ (pg : Pg) where
  unfoldable pub insert_partitions : Text → ℕ → List PartitionRow → Exec (Unit {0})
  insert_partitions table_name new_snap [] = pure tt
  insert_partitions table_name new_snap (part ∷ parts) = do
    or_message pg (λ _. codes "failed to insert partition: " ++ part.partition_key)
        (insert_partition_tx pg table_name new_snap part)
    insert_partitions table_name new_snap parts

  unfoldable pub mark_deleted_all : Text → ℕ → List Text → Exec (Unit {0})
  mark_deleted_all table_name new_snap [] = pure tt
  mark_deleted_all table_name new_snap (key ∷ keys) = do
    or_message pg (λ _. codes "failed to mark partition deleted: " ++ key)
        (mark_partition_deleted_tx pg table_name key new_snap)
    mark_deleted_all table_name new_snap keys

  -- The manifest of the added files, if there are any; the count of manifests after it.
  unfoldable pub added_manifest : Text → ℕ → ℤ → ℤ → List PartitionRow → ℕ → Exec ℕ
  added_manifest table_name new_snap table_id spec_version [] count = pure count
  added_manifest table_name new_snap table_id spec_version (p ∷ ps) count = do
    or_message pg (λ e. codes "failed to insert added manifest: " ++ e)
        (insert_manifest_file_tx pg (record {
          manifest_file_id = pos 0;
          table_id = table_id;
          snapshot_id = to_int64 new_snap;
          manifest_path = manifest_path table_name new_snap count;
          partition_spec_id = spec_version;
          added_files_count = to_int32 (pos (length (p ∷ ps)));
          deleted_files_count = pos 0;
          added_rows_count = total_rows (pos 0) (p ∷ ps);
          deleted_rows_count = pos 0;
          partition_summaries =
              pg.marshal_summaries (map (λ (r : PartitionRow). r.partition_key) (p ∷ ps));
        }))
    pure (suc count)

  unfoldable pub deleted_manifest : Text → ℕ → ℤ → ℤ → List Text → ℕ → Exec ℕ
  deleted_manifest table_name new_snap table_id spec_version [] count = pure count
  deleted_manifest table_name new_snap table_id spec_version (k ∷ ks) count = do
    or_message pg (λ e. codes "failed to insert deleted manifest: " ++ e)
        (insert_manifest_file_tx pg (record {
          manifest_file_id = pos 0;
          table_id = table_id;
          snapshot_id = to_int64 new_snap;
          manifest_path = manifest_path table_name new_snap count;
          partition_spec_id = spec_version;
          added_files_count = pos 0;
          deleted_files_count = to_int32 (pos (length (k ∷ ks)));
          added_rows_count = pos 0;
          deleted_rows_count = pos 0;
          partition_summaries = pg.marshal_summaries (k ∷ ks);
        }))
    pure (suc count)

  -- What follows the insertion of the snapshot, up to the commit of the transaction.
  unfoldable pub commit_changes : Text → ℕ → ℤ → ℤ → List PartitionRow → List Text → Exec ℕ
  commit_changes table_name new_snap table_id spec_version new_partitions deleted_keys = do
    insert_partitions table_name new_snap new_partitions
    mark_deleted_all table_name new_snap deleted_keys
    added ← added_manifest table_name new_snap table_id spec_version new_partitions 0
    count ← deleted_manifest table_name new_snap table_id spec_version deleted_keys added
    or_message pg (λ e. codes "failed to insert manifest list: " ++ e)
        (insert_manifest_list_tx pg (to_int64 new_snap) table_id (to_int32 (pos count)))
    or_message pg (λ _. codes "failed to update table snapshot pointer")
        (update_table_snapshot_tx pg table_name new_snap)
    or_message pg same (commit_tx pg)
    pure new_snap

  -- The transaction, from `BeginTx`.
  unfoldable pub commit_in_tx : Text → ℕ → Text → ℤ → List PartitionRow → List Text → Exec ℕ
  commit_in_tx table_name parent operation spec_version new_partitions deleted_keys = do
    or_message pg same (begin_tx pg)
    (new_snap, table_id) ← or_message pg same (
        insert_snapshot_tx pg table_name parent operation (to_int32 (pos (length new_partitions)))
          (to_int32 (pos (length deleted_keys))))
    require (not (new_snap == 0)) (codes "failed to insert snapshot record")
    commit_changes table_name new_snap table_id spec_version new_partitions deleted_keys

  unfoldable pub commit_to_db : Text → ℕ → Text → List PartitionRow → List Text → Exec ℕ
  commit_to_db table_name parent operation new_partitions deleted_keys = do
    spec_version ←
        or_message pg (λ e. codes "failed to get spec version: " ++ e)
          (get_table_spec_version pg table_name)
    current ← or_message pg same (get_current_snapshot pg table_name)
    require (validate_parent_snapshot table_name parent current) (conflict_text parent current)
    commit_in_tx table_name parent operation spec_version new_partitions deleted_keys
