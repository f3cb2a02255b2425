-- ===== src/Db/Snapshots.antt =====
-- internal/db/pg_client.go: the statements on `snapshots`.
use ice_core.Base.{
  ℕ, suc, ◌&&◌, Option, none, some, List, [], ◌∷◌, ◌++◌, map, ◌==◌, if◌then◌else◌, Text, filter,
  take,
}
use ice_core.Base.Int.{ℤ, pos, ltb_ℤ, leb_ℤ, int_eq, to_int64, to_uint64, pos_part}
use ice_core.Db.Rows.{SnapshotRow, StoredSnapshot}
use ice_core.Db.Exec.{Pg, Exec, Sql, done, pure, ◌>>=◌, unless_found, reading, on_pool, on_tx}
use ice_core.Db.Select.{first_row, order_by_desc}
use ice_core.Db.Tables.{get_table_id, select_table_id}

module _ (pg : Pg) where
  abbrev pub insert_snapshot : ℤ → ℤ → Text → ℤ → ℤ → Sql ℤ
  insert_snapshot table_id parent operation added deleted n t s = (
    done (pos (suc s.snapshot_seq)),
    record t {
      snapshots =
          t.snapshots
          ++ record {
            snapshot_id = pos (suc s.snapshot_seq);
            table_id = table_id;
            parent_snapshot_id = parent;
            operation = operation;
            added_files_count = added;
            deleted_files_count = deleted;
            committed_at = pg.now n;
          }
            ∷ [];
    },
    record s { snapshot_seq = suc s.snapshot_seq },
  )

  -- The new snapshot's id and the table's; the id is 0 where the table is not there.
  unfoldable pub insert_snapshot_tx : Text → ℕ → Text → ℤ → ℤ → Exec (ℕ × ℤ)
  insert_snapshot_tx table_name parent_snapshot_id operation added_count deleted_count =
      unless_found (0, pos 0)
        (do
          table_id ← on_tx pg (select_table_id pg table_name)
          raw_id ← on_tx pg (
              insert_snapshot table_id (to_int64 parent_snapshot_id) operation added_count
                deleted_count)
          pure (if ltb_ℤ raw_id (pos 0) then 0 else to_uint64 raw_id, table_id))

  abbrev pub scan_snapshot : StoredSnapshot → SnapshotRow
  scan_snapshot s = record {
    snapshot_id = s.snapshot_id;
    table_id = s.table_id;
    parent_snapshot_id = s.parent_snapshot_id;
    operation = s.operation;
    added_files_count = s.added_files_count;
    deleted_files_count = s.deleted_files_count;
    committed_at = pg.show_time s.committed_at;
  }

  unfoldable pub get_snapshot : Text → ℕ → Exec (Option SnapshotRow)
  get_snapshot table_name snapshot_id = do
    table_id ← get_table_id pg table_name
    if ltb_ℤ table_id (pos 0)
        then pure none
        else unless_found none (do
          s ← on_pool pg (
              reading λ t. first_row (
                filter
                  (λ (s : StoredSnapshot).
                    s.table_id == table_id && s.snapshot_id == to_int64 snapshot_id)
                  t.snapshots))
          pure (some (scan_snapshot s)))

  -- `ORDER BY committed_at DESC LIMIT $2`; rows of one time come in the order of their insertion.
  unfoldable pub list_snapshots : Text → ℤ → Exec (List SnapshotRow)
  list_snapshots table_name limit = do
    table_id ← get_table_id pg table_name
    if ltb_ℤ table_id (pos 0)
        then pure []
        else on_pool pg (
            reading λ t. done (
              map scan_snapshot (
                take (pos_part (if leb_ℤ limit (pos 0) then pos 50 else limit)) (
                  order_by_desc (λ s. pos s.committed_at)
                    (filter (λ (s : StoredSnapshot). s.table_id == table_id) t.snapshots)))))
