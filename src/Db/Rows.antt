-- ===== src/Db/Rows.antt =====
-- internal/db/models.go, and the columns of scripts/init_db.sql that the client reads or writes.
-- A BIGINT or INT is an integer; a JSONB is its text.
use ice_core.Base.{ℕ, Bool, Option, List, Text}
use ice_core.Base.Int.{ℤ}

pub record ColumnStats : Type 0 where
  pub column_id : ℤ
  pub null_count : ℤ
  pub nan_count : ℤ
  pub value_count : ℤ
  pub min_value : Text
  pub max_value : Text
  pub size_bytes : ℤ

pub record PartitionRow : Type 0 where
  pub partition_id : ℤ
  pub table_id : ℤ
  pub snapshot_id : ℤ
  pub partition_key : Text
  pub data_file_path : Text
  pub file_format : Text
  pub row_count : ℤ
  pub size_bytes : ℤ
  pub column_stats : List ColumnStats

pub record TableRow : Type 0 where
  pub table_id : ℤ
  pub table_name : Text
  pub schema_json : Text
  pub schema_version : ℤ
  pub partition_spec : Text
  pub partition_spec_version : ℤ
  pub current_snapshot_id : ℤ
  pub properties_json : Text

pub record PartitionSpecRow : Type 0 where
  pub partition_spec_id : ℤ
  pub table_id : ℤ
  pub spec_version : ℤ
  pub spec_json : Text
  pub changed_at : Text
  pub change_summary : Text

pub record SnapshotRow : Type 0 where
  pub snapshot_id : ℤ
  pub table_id : ℤ
  pub parent_snapshot_id : ℤ
  pub operation : Text
  pub added_files_count : ℤ
  pub deleted_files_count : ℤ
  pub committed_at : Text

pub record ManifestFileRow : Type 0 where
  pub manifest_file_id : ℤ
  pub table_id : ℤ
  pub snapshot_id : ℤ
  pub manifest_path : Text
  pub partition_spec_id : ℤ
  pub added_files_count : ℤ
  pub deleted_files_count : ℤ
  pub added_rows_count : ℤ
  pub deleted_rows_count : ℤ
  pub partition_summaries : Text

pub record ManifestListRow : Type 0 where
  pub manifest_list_id : ℤ
  pub snapshot_id : ℤ
  pub table_id : ℤ
  pub manifest_count : ℤ

-- The stored rows that have columns which the structs of models.go lack. A time is the number that
-- `now()` gave.
pub record StoredTable : Type 0 where
  pub row : TableRow
  pub open row use *
  pub is_deleted : Bool

pub record StoredPartition : Type 0 where
  pub partition_id : ℤ
  pub table_id : ℤ
  pub snapshot_id : ℤ
  pub partition_key : Text
  pub data_file_path : Text
  pub file_format : Text
  pub row_count : ℤ
  pub size_bytes : ℤ
  pub column_stats : Text
  pub is_deleted : Bool
  pub deleted_snapshot_id : Option ℤ

pub record StoredSnapshot : Type 0 where
  pub snapshot_id : ℤ
  pub table_id : ℤ
  pub parent_snapshot_id : ℤ
  pub operation : Text
  pub added_files_count : ℤ
  pub deleted_files_count : ℤ
  pub committed_at : ℕ

pub record StoredSchema : Type 0 where
  pub table_id : ℤ
  pub schema_version : ℤ
  pub schema_json : Text
  pub changed_at : ℕ
  pub change_summary : Text

pub record StoredSpec : Type 0 where
  pub partition_spec_id : ℤ
  pub table_id : ℤ
  pub spec_version : ℤ
  pub spec_json : Text
  pub changed_at : ℕ
  pub change_summary : Text

pub record StoredTransaction : Type 0 where
  pub txn_id : ℤ
  pub client_id : Text
  pub table_id : ℤ
  pub read_snapshot_id : ℤ
  pub status : Text
  pub isolation_level : Text
  pub started_at : ℕ
  pub committed_at : Option ℕ

pub record Tables : Type 0 where
  pub tables : List StoredTable
  pub schema_history : List StoredSchema
  pub snapshots : List StoredSnapshot
  pub partitions : List StoredPartition
  pub transactions : List StoredTransaction
  pub manifest_files : List ManifestFileRow
  pub manifest_lists : List ManifestListRow
  pub partition_specs : List StoredSpec

-- The last value that each BIGSERIAL has given. A rollback does not take a value back.
pub record Sequences : Type 0 where
  pub table_seq : ℕ
  pub snapshot_seq : ℕ
  pub partition_seq : ℕ
  pub txn_seq : ℕ
  pub manifest_file_seq : ℕ
  pub manifest_list_seq : ℕ
  pub spec_seq : ℕ

-- `committed` is what other connections see, `pending` what the open transaction sees;
-- `statements` counts the statements sent so far, and `begun` is the number of the one that began the
-- transaction.
pub record Db : Type 0 where
  pub committed : Tables
  pub pending : Tables
  pub sequences : Sequences
  pub statements : ℕ
  pub begun : ℕ
