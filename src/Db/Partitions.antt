-- ===== src/Db/Partitions.antt =====
-- internal/db/pg_client.go: the statements on `partitions`, and the column bounds over them.
use ice_core.Base.{
  ℕ, suc, Bool, true, false, ◌&&◌, ◌||◌, not, Option, none, some, List, [], ◌∷◌, ◌++◌, map, ◌==◌,
  text_eq, if◌then◌else◌, Text, codes, length, filter, take,
}
use ice_core.Base.Int.{ℤ, pos, ltb_ℤ, leb_ℤ, int_eq, to_int64, pos_part}
use ice_core.Db.Rows.{ColumnStats, PartitionRow, StoredPartition, Tables}
use ice_core.Db.Exec.{Pg, Exec, Sql, done, pure, ◌>>=◌, reading, on_pool, on_tx, casting}
use ice_core.Db.Select.{update_where, order_by}
use ice_core.Db.Tables.{get_table_id, select_table_id}

-- `is_deleted = false OR deleted_snapshot_id > $2`; a NULL is not greater.
abbrev pub survives : ℤ → StoredPartition → Bool
survives snapshot p =
    not p.is_deleted || (elim p.deleted_snapshot_id [ none ↦ false | some d ↦ ltb_ℤ snapshot d ])

-- `WHERE table_id = $1 AND snapshot_id <= $2 AND (…)`
unfoldable pub is_visible : ℤ → ℤ → StoredPartition → Bool
is_visible table_id snapshot p =
    p.table_id == table_id && leb_ℤ p.snapshot_id snapshot && survives snapshot p

module _ (pg : Pg) where
  unfoldable pub unmarshal_column_stats : Text → List ColumnStats
  unmarshal_column_stats raw =
      if raw == [] || raw == codes "null" || raw == codes "{}"
      then []
      else elim (pg.unmarshal_stats raw) [ none ↦ [] | some stats ↦ stats ]

  unfoldable pub marshal_column_stats : List ColumnStats → Text
  marshal_column_stats [] = codes "[]"
  marshal_column_stats (c ∷ cs) = elim (pg.marshal_stats (c ∷ cs)) [
    | none ↦ codes "[]"
    | some b ↦ b
  ]

  -- `rows.Scan`, into the struct.
  unfoldable pub scan_partition : StoredPartition → PartitionRow
  scan_partition p = record {
    partition_id = p.partition_id;
    table_id = p.table_id;
    snapshot_id = p.snapshot_id;
    partition_key = p.partition_key;
    data_file_path = p.data_file_path;
    file_format = p.file_format;
    row_count = p.row_count;
    size_bytes = p.size_bytes;
    column_stats = unmarshal_column_stats p.column_stats;
  }

  -- The SELECT of `QueryPartitions`.
  unfoldable pub select_partitions : ℤ → ℤ → Tables → List PartitionRow
  select_partitions table_id snapshot t =
      map scan_partition
        (order_by (λ p. p.partition_id) (filter (is_visible table_id snapshot) t.partitions))

  -- The SELECT of `QueryPartitionsPaged`.
  unfoldable pub select_partitions_paged : ℤ → ℤ → ℤ → ℤ → Tables → List PartitionRow
  select_partitions_paged table_id snapshot last_partition_id limit t = map scan_partition (
      take (pos_part limit) (
        order_by (λ p. p.partition_id)
          (filter (λ p. is_visible table_id snapshot p && ltb_ℤ last_partition_id p.partition_id)
            t.partitions)))

  -- None is the nil slice of a table that is not there.
  unfoldable pub query_partitions : Text → ℕ → Exec (Option (List PartitionRow))
  query_partitions table_name snapshot_id = do
    table_id ← get_table_id pg table_name
    if ltb_ℤ table_id (pos 0) then pure none else do
      rows ← on_pool pg (reading λ t. done (select_partitions table_id (to_int64 snapshot_id) t))
      pure (some rows)

  unfoldable pub query_partitions_paged : Text → ℕ → ℤ → ℤ → Exec (Option (List PartitionRow))
  query_partitions_paged table_name snapshot_id page_size last_partition_id = do
    table_id ← get_table_id pg table_name
    if ltb_ℤ table_id (pos 0) then pure none else do
      rows ← on_pool pg (
          reading λ t. done (
            select_partitions_paged table_id (to_int64 snapshot_id) last_partition_id
              (if leb_ℤ page_size (pos 0) then pos 1000 else page_size) t))
      pure (some rows)

  abbrev pub insert_partition : ℤ → ℤ → PartitionRow → Text → Sql (Unit {0})
  insert_partition table_id snapshot part stats n t s = (
    done tt,
    record t {
      partitions =
          t.partitions
          ++ record {
            partition_id = pos (suc s.partition_seq);
            table_id = table_id;
            snapshot_id = snapshot;
            partition_key = part.partition_key;
            data_file_path = part.data_file_path;
            file_format = part.file_format;
            row_count = part.row_count;
            size_bytes = part.size_bytes;
            column_stats = stats;
            is_deleted = false;
            deleted_snapshot_id = none;
          }
            ∷ [];
    },
    record s { partition_seq = suc s.partition_seq },
  )

  unfoldable pub insert_partition_tx : Text → ℕ → PartitionRow → Exec (Unit {0})
  insert_partition_tx table_name snapshot_id part = do
    table_id ← on_tx pg (select_table_id pg table_name)
    on_tx pg (
        casting pg (marshal_column_stats part.column_stats)
          λ stats. insert_partition table_id (to_int64 snapshot_id) part stats)

  -- `WHERE table_id = $2 AND partition_key = $3 AND is_deleted = false`
  abbrev pub is_target : ℤ → Text → StoredPartition → Bool
  is_target table_id key p = p.table_id == table_id && p.partition_key == key && not p.is_deleted

  abbrev pub mark_deleted : ℤ → StoredPartition → StoredPartition
  mark_deleted snapshot p = record p { is_deleted = true; deleted_snapshot_id = some snapshot }

  unfoldable pub mark_partition_deleted_tx : Text → Text → ℕ → Exec (Unit {0})
  mark_partition_deleted_tx table_name partition_key deleted_snapshot_id = do
    table_id ← on_tx pg (select_table_id pg table_name)
    on_tx pg λ n t s. (
      done tt,
      record t {
        partitions =
            update_where (is_target table_id partition_key)
              (mark_deleted (to_int64 deleted_snapshot_id)) t.partitions;
      },
      s,
    )

  unfoldable pub get_visible_partition_count : Text → ℕ → Exec ℤ
  get_visible_partition_count table_name snapshot_id = do
    table_id ← get_table_id pg table_name
    if ltb_ℤ table_id (pos 0)
        then pure (pos 0)
        else on_pool pg (
            reading λ t.
              done
                (pos (length (filter (is_visible table_id (to_int64 snapshot_id)) t.partitions))))
