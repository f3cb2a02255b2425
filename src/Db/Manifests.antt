-- ===== src/Db/Manifests.antt =====
-- internal/db/pg_client.go: the statements on `manifest_files` and `manifest_lists`.
use ice_core.Base.{
  ℕ, suc, Bool, true, false, ◌&&◌, not, Option, none, some, List, [], ◌∷◌, ◌++◌, ◌==◌,
  if◌then◌else◌, Text, text_eq, filter, length, nat_eq,
}
use ice_core.Base.Int.{ℤ, pos, ltb_ℤ, int_eq, to_int64}
use ice_core.Db.Rows.{ManifestFileRow, ManifestListRow, StoredTable, Sequences}
use ice_core.Db.Exec.{
  Pg, Exec, Sql, done, raised, failed, pure, ◌>>=◌, unless_found, reading, on_pool, on_tx, casting,
}
use ice_core.Db.Select.{first_row, order_by}
use ice_core.Db.Tables.{get_table_id}

module _ (pg : Pg) where
  abbrev pub insert_manifest_file : ManifestFileRow → Text → Sql ℤ
  insert_manifest_file row summaries n t s = (
    done (pos (suc s.manifest_file_seq)),
    record t {
      manifest_files =
          t.manifest_files
          ++ record row {
            manifest_file_id = pos (suc s.manifest_file_seq);
            partition_summaries = summaries;
          }
            ∷ [];
    },
    record s { manifest_file_seq = suc s.manifest_file_seq },
  )

  unfoldable pub insert_manifest_file_tx : ManifestFileRow → Exec ℤ
  insert_manifest_file_tx row =
      on_tx pg (casting pg row.partition_summaries λ summaries. insert_manifest_file row summaries)

  -- `snapshot_id` is UNIQUE.
  abbrev pub insert_manifest_list : ℤ → ℤ → ℤ → Sql ℤ
  insert_manifest_list snapshot_id table_id manifest_count n t s =
      let s' : Sequences = record s { manifest_list_seq = suc s.manifest_list_seq } in
      if length (filter (λ (l : ManifestListRow). l.snapshot_id == snapshot_id) t.manifest_lists)
        == 0
      then (
        done (pos (suc s.manifest_list_seq)),
        record t {
          manifest_lists =
              t.manifest_lists
              ++ record {
                manifest_list_id = pos (suc s.manifest_list_seq);
                snapshot_id = snapshot_id;
                table_id = table_id;
                manifest_count = manifest_count;
              }
                ∷ [];
        },
        s',
      )
      else (raised (failed pg.unique_violation), t, s')

  unfoldable pub insert_manifest_list_tx : ℤ → ℤ → ℤ → Exec ℤ
  insert_manifest_list_tx snapshot_id table_id manifest_count =
      on_tx pg (insert_manifest_list snapshot_id table_id manifest_count)

  -- The files are those of the snapshot, of whatever table.
  unfoldable pub get_manifest_list :
      Text → ℕ → Exec (Option (ManifestListRow × List ManifestFileRow))
  get_manifest_list table_name snapshot_id = do
    table_id ← get_table_id pg table_name
    if ltb_ℤ table_id (pos 0) then pure none else do
      found ← unless_found none (do
        row ← on_pool pg (
            reading λ t. first_row (
              filter
                (λ (l : ManifestListRow).
                  l.snapshot_id == to_int64 snapshot_id && l.table_id == table_id)
                t.manifest_lists))
        pure (some row))
      elim found [
        | none ↦ pure none
        | some row ↦ do
          files ← on_pool pg (
              reading λ t. done (
                order_by (λ f. f.manifest_file_id)
                  (filter (λ (f : ManifestFileRow). f.snapshot_id == to_int64 snapshot_id)
                    t.manifest_files)))
          pure (some (row, files))
      ]

  -- `JOIN tables t ON t.table_id = mf.table_id WHERE … t.table_name = $2 AND t.is_deleted = false`
  abbrev pub owned : Text → ℤ → List StoredTable → Bool
  owned table_name table_id [] = false
  owned table_name table_id (t ∷ ts) =
      if t.table_id == table_id && (t.table_name == table_name && not t.is_deleted)
      then true
      else owned table_name table_id ts

  unfoldable pub get_manifest_file : Text → ℤ → Exec (Option ManifestFileRow)
  get_manifest_file table_name manifest_file_id = unless_found none (do
    row ← on_pool pg (
        reading λ t. first_row (
          filter
            (λ (f : ManifestFileRow).
              f.manifest_file_id == manifest_file_id && owned table_name f.table_id t.tables)
            t.manifest_files))
    pure (some row))
