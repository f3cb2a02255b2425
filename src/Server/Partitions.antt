-- ===== src/Server/Partitions.antt =====
-- internal/server/metadata_server.go: the handlers on the partitions of a table.
use ice_core.Base.{
  ℕ, Bool, true, false, not, Option, some, List, [], ◌∷◌, ◌++◌, map, ◌==◌, nat_eq, text_eq,
  if◌then◌else◌, Text, codes, length, inl, inr, ◌⊎◌,
}
use ice_core.Base.Int.{ℤ, pos, leb_ℤ, ltb_ℤ, int_eq}
use ice_core.Base.Decimal.{format_int}
use ice_core.Db.Rows.{ColumnStats, PartitionRow}
use ice_core.Db.Exec.{Outcome, done, raised, error_text}
use ice_core.Db.Tables.{get_current_snapshot}
use ice_core.Db.ColumnBounds.{get_column_stats_for_snapshot}
use ice_core.Catalog.Registry
use ice_core.Server.{
  Env, MetadataServer, Reply, Handler, response, not_found, answer, ◌>>=◌, ◌>>◌, demand, query,
}
use ice_core.Server.Convert.{PartitionInfo, default_string, proto_to_column_stats, info_of}
use ice_core.Server.Tables.{named, present, read_partitions, offset_of}

pub record PartitionListResponse : Type 0 where
  pub partitions : List PartitionInfo
  pub next_page_token : Text
  pub total_count : ℤ

pub record SnapshotResponse : Type 0 where
  pub success : Bool
  pub snapshot_id : ℕ
  pub error_msg : Text

pub record ColumnBounds : Type 0 where
  pub column_id : ℤ
  pub min_value : Text
  pub max_value : Text
  pub null_count : ℤ
  pub nan_count : ℤ
  pub value_count : ℤ

pub record GetColumnStatsResponse : Type 0 where
  pub snapshot_id : ℕ
  pub column_bounds : List ColumnBounds

-- `rows[len(rows)-1].PartitionID`, of a list that is not empty.
unfoldable pub last_id : PartitionRow → List PartitionRow → ℤ
last_id p [] = p.partition_id
last_id p (q ∷ qs) = last_id q qs

unfoldable pub next_partition_token : ℤ → List PartitionRow → Text
unfolding last_id
next_partition_token page_size [] = []
next_partition_token page_size (p ∷ ps) =
    if ltb_ℤ (pos 0) page_size then format_int (last_id p ps) else []

abbrev pub list_response : ℤ → List PartitionRow → PartitionListResponse
list_response page_size rows = record {
  partitions = map (info_of []) rows;
  next_page_token = next_partition_token page_size rows;
  total_count = pos (length rows);
}

-- The row of a new partition; the ids are given by the database.
abbrev pub row_of_info : PartitionInfo → PartitionRow
row_of_info p = record {
  partition_id = pos 0;
  table_id = pos 0;
  snapshot_id = pos 0;
  partition_key = p.partition_key;
  data_file_path = p.data_file_path;
  file_format = default_string p.file_format (codes "parquet");
  row_count = p.row_count;
  size_bytes = p.size_bytes;
  column_stats = proto_to_column_stats p.column_stats;
}

-- The loop over the new partitions: the rows, or the partition that has none.
unfoldable pub new_parts :
    List PartitionInfo → List PartitionRow → PartitionInfo ⊎ List PartitionRow
new_parts [] acc = inr acc
new_parts (p ∷ ps) acc =
    let rest = new_parts ps (acc ++ row_of_info p ∷ []) in
    if leb_ℤ p.row_count (pos 0) then inl p else rest

abbrev pub rejection : Text → SnapshotResponse
rejection message = record { success = false; snapshot_id = 0; error_msg = message }

abbrev pub bounds_of_stats : ColumnStats → ColumnBounds
bounds_of_stats cs = record {
  column_id = cs.column_id;
  min_value = cs.min_value;
  max_value = cs.max_value;
  null_count = cs.null_count;
  nan_count = cs.nan_count;
  value_count = cs.value_count;
}

module _ (env : Env) where
  -- `s.partitions.CommitSnapshot`, as a response.
  abbrev pub committed :
      MetadataServer
      → Outcome ℕ × Registry.PartitionRegistry
      → Option (Reply SnapshotResponse × MetadataServer)
  committed s (done new_snap, r) = some (
    response (record { success = true; snapshot_id = new_snap; error_msg = [] }),
    record s { partitions = r },
  )
  committed s (raised e, r) =
      some (response (rejection (error_text env.pg e)), record s { partitions = r })

  unfoldable pub commit_rows :
      Text → ℕ → Text → List Text → PartitionInfo ⊎ List PartitionRow → Handler SnapshotResponse
  unfolding answer
  commit_rows table_name parent operation deleted_keys (inl p) s =
      answer
        (rejection
          (codes "partition " ++ (env.quote p.partition_key ++ codes ": row_count must be > 0")))
        s
  commit_rows table_name parent operation deleted_keys (inr rows) s = committed s (
      Registry.commit_snapshot env.pg s.partitions table_name parent
        (default_string operation (codes "append")) rows deleted_keys
        (env.range_items s.partitions.cache.items))

  unfoldable pub commit_snapshot :
      Text → ℕ → Text → List PartitionInfo → List Text → Handler SnapshotResponse
  unfolding commit_rows
  commit_snapshot table_name parent operation new_partitions deleted_keys =
      commit_rows table_name parent operation deleted_keys (new_parts new_partitions [])

  -- `filter_expr` of the request is not read.
  unfoldable pub get_partitions : Text → ℕ → ℤ → Text → Handler PartitionListResponse
  get_partitions table_name snapshot_id page_size page_token = do
    found ←
        (if ltb_ℤ (pos 0) page_size
          then query env.pg (
              Registry.get_partitions_paged env.pg table_name snapshot_id page_size
                (offset_of env page_token))
          else read_partitions env table_name snapshot_id)
    rows ← present (codes "table not found: " ++ table_name) found
    answer (list_response page_size rows)

  unfoldable pub get_partition_stats : Text → Handler Registry.PartitionStats
  get_partition_stats table_name = do
    named table_name
    query env.pg (Registry.get_stats env.pg table_name)

  -- The snapshot 0 asks for the current one.
  unfoldable pub snapshot_asked : Text → ℕ → Handler ℕ
  snapshot_asked table_name snapshot_id =
      if snapshot_id == 0
      then (do
        current ← query env.pg (get_current_snapshot env.pg table_name)
        demand (not (current == 0)) not_found (codes "table has no snapshots: " ++ table_name)
        answer current)
      else answer snapshot_id

  unfoldable pub get_column_stats : Text → ℕ → Handler GetColumnStatsResponse
  get_column_stats table_name snapshot_id = do
    named table_name
    asked ← snapshot_asked table_name snapshot_id
    stats ← query env.pg (get_column_stats_for_snapshot env.pg env.range_bounds table_name asked)
    answer (record { snapshot_id = asked; column_bounds = map bounds_of_stats stats })
