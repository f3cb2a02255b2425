-- ===== src/Db/Tables.antt =====
-- internal/db/pg_client.go: the statements on `tables` and `schema_history`.
use ice_core.Base.{
  ℕ, suc, Bool, true, false, ◌&&◌, not, Option, none, some, List, [], ◌∷◌, ◌++◌, map, ◌==◌, nat_eq,
  text_eq, if◌then◌else◌, Text, length, filter, take, drop,
}
use ice_core.Base.Int.{ℤ, pos, negsuc, ltb_ℤ, leb_ℤ, int_eq, to_uint64, to_int64, pos_part}
use ice_core.Base.Decimal.{parse_int64}
use ice_core.Db.Rows.{TableRow, StoredTable, Sequences}
use ice_core.Db.Exec.{
  Pg, Exec, Sql, done, raised, failed, no_rows, pure, ◌>>=◌, ◌>>◌, unless_found, reading, on_pool,
  on_tx, casting,
}
use ice_core.Db.Select.{update_where, order_by, is_live, live_row}

module _ (pg : Pg) where
  -- The row of a new table, with the defaults of the schema.
  abbrev pub new_table : ℤ → Text → Text → Text → Text → StoredTable
  new_table id name schema spec properties = record {
    row = record {
      table_id = id;
      table_name = name;
      schema_json = schema;
      schema_version = pos 1;
      partition_spec = spec;
      partition_spec_version = pos 1;
      current_snapshot_id = pos 0;
      properties_json = properties;
    };
    is_deleted = false;
  }

  -- `table_name` is UNIQUE over all rows, the deleted ones too.
  unfoldable pub name_taken : Text → List StoredTable → Bool
  name_taken name [] = false
  name_taken name (t ∷ ts) = if t.table_name == name then true else name_taken name ts

  -- INSERT … ON CONFLICT (table_name) DO NOTHING RETURNING table_id
  unfoldable pub insert_table : Text → Text → Text → Text → Sql ℤ
  insert_table name schema spec properties n t s =
      let s' : Sequences = record s { table_seq = suc s.table_seq } in
      if name_taken name t.tables then (raised no_rows, t, s') else (
        done (pos (suc s.table_seq)),
        record t {
          tables = t.tables ++ new_table (pos (suc s.table_seq)) name schema spec properties ∷ [];
        },
        s',
      )

  unfoldable pub create_table_tx : Text → Text → Text → Text → Exec (ℤ × Bool)
  create_table_tx table_name schema_json partition_spec_json properties_json =
      unless_found (pos 0, false)
        (do
          table_id ← on_tx pg (
              casting pg schema_json λ schema. casting pg partition_spec_json λ spec.
                casting pg properties_json
                  λ properties. insert_table table_name schema spec properties)
          pure (table_id, true))

  unfoldable pub get_table : Text → Exec (Option TableRow)
  get_table table_name =
      unless_found none
        (do t ← on_pool pg (reading (λ t. live_row table_name t.tables)); pure (some t))

  -- `SELECT table_id …`, on the pool and in a transaction.
  abbrev pub select_table_id : Text → Sql ℤ
  select_table_id table_name =
      reading (λ t. elim (live_row table_name t.tables) [
        | done r ↦ done r.table_id
        | raised e ↦ raised e
      ])

  unfoldable pub get_table_id : Text → Exec ℤ
  get_table_id table_name = unless_found (negsuc 0) (on_pool pg (select_table_id table_name))

  -- UPDATE tables SET … WHERE table_name = $n AND is_deleted = false
  abbrev pub update_live : Text → (TableRow → TableRow) → Sql (Unit {0})
  update_live table_name f n t s = (
    done tt,
    record t {
      tables = update_where (is_live table_name) (λ r. record r { row = f r.row }) t.tables;
    },
    s,
  )

  -- INSERT INTO schema_history
  abbrev pub insert_schema : ℤ → ℤ → Text → Text → Sql (Unit {0})
  insert_schema table_id version schema summary n t s = (
    done tt,
    record t {
      schema_history =
          t.schema_history
          ++ record {
            table_id = table_id;
            schema_version = version;
            schema_json = schema;
            changed_at = pg.now n;
            change_summary = summary;
          }
            ∷ [];
    },
    s,
  )

  unfoldable pub update_table_schema : Text → Text → ℤ → Text → Exec (Unit {0})
  update_table_schema table_name new_schema_json new_version change_summary = do
    on_tx pg (
        casting pg new_schema_json λ schema.
          update_live table_name
            (λ r. record r { schema_json = schema; schema_version = new_version }))
    table_id ← on_tx pg (select_table_id table_name)
    on_tx pg (
        casting pg new_schema_json
          λ schema. insert_schema table_id new_version schema change_summary)

  -- The UPDATE of `RenameTable`: a name in use by another row violates UNIQUE.
  unfoldable pub rename_row : Text → Text → Sql Bool
  rename_row old_name new_name n t s =
      if length (filter (is_live old_name) t.tables) == 0
      then (done false, t, s)
      else if name_taken new_name t.tables && not (new_name == old_name)
      then (raised (failed pg.unique_violation), t, s)
      else (
        done true,
        record t {
          tables =
              update_where (is_live old_name)
                (λ r. record r { row = record r.row { table_name = new_name } }) t.tables;
        },
        s,
      )

  unfoldable pub rename_table : Text → Text → Exec Bool
  rename_table old_name new_name = on_pool pg (rename_row old_name new_name)

  unfoldable pub list_tables : Text → ℤ → Text → Exec (List TableRow)
  list_tables namespace page_size page_token =
      let limit = if leb_ℤ page_size (pos 0) then pos 100 else page_size in
      let offset : ℤ = elim (parse_int64 page_token) [ none ↦ pos 0 | some n ↦ n ] in
      on_pool pg (
        reading λ t.
          if ltb_ℤ offset (pos 0)
          then raised (failed pg.negative_offset)
          else done (
              take (pos_part limit) (
                drop (pos_part offset) (
                  order_by (λ r. r.table_id)
                    (map (λ r. r.row) (filter (λ r. not r.is_deleted) t.tables))))))

  unfoldable pub get_current_snapshot : Text → Exec ℕ
  get_current_snapshot table_name = unless_found 0 (do
    snapshot_id ← on_pool pg (
        reading λ t. elim (live_row table_name t.tables) [
          | done r ↦ done r.current_snapshot_id
          | raised e ↦ raised e
        ])
    pure (if ltb_ℤ snapshot_id (pos 0) then 0 else to_uint64 snapshot_id))

  unfoldable pub update_table_snapshot_tx : Text → ℕ → Exec (Unit {0})
  update_table_snapshot_tx table_name snapshot_id =
      on_tx pg
        (update_live table_name (λ r. record r { current_snapshot_id = to_int64 snapshot_id }))

  unfoldable pub update_table_partition_spec_tx : Text → Text → ℤ → Exec (Unit {0})
  update_table_partition_spec_tx table_name new_spec_json new_version = on_tx pg (
      casting pg new_spec_json λ spec.
        update_live table_name
          (λ r. record r { partition_spec = spec; partition_spec_version = new_version }))

  unfoldable pub get_table_spec_version : Text → Exec ℤ
  get_table_spec_version table_name = unless_found (pos 0) (
      on_pool pg (
        reading λ t. elim (live_row table_name t.tables) [
          | done r ↦ done r.partition_spec_version
          | raised e ↦ raised e
        ]))
