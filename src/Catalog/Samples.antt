-- ===== src/Catalog/Samples.antt =====
-- A database that never fails, with one table of one partition.
use ice_core.Base.{false, none, some, [], ◌∷◌, Text, codes, Result, ok, err, true}
use ice_core.Base.Int.{pos}
use ice_core.Db.Rows.{PartitionRow, StoredPartition, TableRow, Db}
use ice_core.Db.Exec.{Pg}

-- The empty text is no JSON; any other is taken for JSON.
abbrev pub cast_some : Text → Result Text
cast_some [] = err (codes "invalid input syntax for type json")
cast_some (c ∷ cs) = ok (c ∷ cs)

abbrev pub sound_pg : Pg
sound_pg = record {
  fault = λ n. none;
  now = λ n. n;
  jsonb = cast_some;
  consumed = λ n. true;
  show_time = λ n. [];
  marshal_stats = λ s. some (codes "[]");
  unmarshal_stats = λ t. some [];
  marshal_summaries = λ s. codes "[]";
  unique_violation = codes "unique";
  foreign_key_violation = codes "foreign key";
  negative_offset = codes "offset";
  no_rows_text = codes "no rows in result set";
}

abbrev pub users : Text
users = codes "users"

abbrev pub users_row : TableRow
users_row = record {
  table_id = pos 1;
  table_name = users;
  schema_json = [];
  schema_version = pos 1;
  partition_spec = [];
  partition_spec_version = pos 1;
  current_snapshot_id = pos 1;
  properties_json = [];
}

abbrev pub stored : StoredPartition
stored = record {
  partition_id = pos 1;
  table_id = pos 1;
  snapshot_id = pos 1;
  partition_key = codes "a";
  data_file_path = [];
  file_format = [];
  row_count = pos 10;
  size_bytes = pos 100;
  column_stats = [];
  is_deleted = false;
  deleted_snapshot_id = none;
}

abbrev pub added : PartitionRow
added = record {
  partition_id = pos 0;
  table_id = pos 0;
  snapshot_id = pos 0;
  partition_key = codes "b";
  data_file_path = [];
  file_format = [];
  row_count = pos 5;
  size_bytes = pos 50;
  column_stats = [];
}

abbrev pub one_table : Db
one_table = record {
  committed = record {
    tables = record { row = users_row; is_deleted = false } ∷ [];
    schema_history = [];
    snapshots = [];
    partitions = stored ∷ [];
    transactions = [];
    manifest_files = [];
    manifest_lists = [];
    partition_specs = [];
  };
  pending = record {
    tables = [];
    schema_history = [];
    snapshots = [];
    partitions = [];
    transactions = [];
    manifest_files = [];
    manifest_lists = [];
    partition_specs = [];
  };
  sequences = record {
    table_seq = 1;
    snapshot_seq = 1;
    partition_seq = 1;
    txn_seq = 0;
    manifest_file_seq = 0;
    manifest_list_seq = 0;
    spec_seq = 0;
  };
  statements = 0;
  begun = 0;
}
