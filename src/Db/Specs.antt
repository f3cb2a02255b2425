-- ===== src/Db/Specs.antt =====
-- internal/db/pg_client.go: the statements on `partition_specs`.
use ice_core.Base.{
  suc, Bool, ◌&&◌, Option, none, some, List, [], ◌∷◌, ◌++◌, map, ◌==◌, if◌then◌else◌, Text, filter,
  length, nat_eq,
}
use ice_core.Base.Int.{ℤ, pos, int_eq}
use ice_core.Db.Rows.{PartitionSpecRow, StoredSpec, Sequences}
use ice_core.Db.Exec.{
  Pg, Exec, Sql, done, raised, failed, pure, ◌>>=◌, unless_found, reading, on_pool, on_tx, casting,
}
use ice_core.Db.Select.{first_row, order_by_desc}

module _ (pg : Pg) where
  abbrev pub is_version : ℤ → ℤ → StoredSpec → Bool
  is_version table_id spec_version r = r.table_id == table_id && r.spec_version == spec_version

  -- UNIQUE (table_id, spec_version)
  abbrev pub insert_spec : ℤ → ℤ → Text → Text → Sql (Unit {0})
  insert_spec table_id spec_version spec summary n t s =
      let s' : Sequences = record s { spec_seq = suc s.spec_seq } in
      if length (filter (is_version table_id spec_version) t.partition_specs) == 0
      then (
        done tt,
        record t {
          partition_specs =
              t.partition_specs
              ++ record {
                partition_spec_id = pos (suc s.spec_seq);
                table_id = table_id;
                spec_version = spec_version;
                spec_json = spec;
                changed_at = pg.now n;
                change_summary = summary;
              }
                ∷ [];
        },
        s',
      )
      else (raised (failed pg.unique_violation), t, s')

  unfoldable pub insert_partition_spec_tx : ℤ → ℤ → Text → Text → Exec (Unit {0})
  insert_partition_spec_tx table_id spec_version spec_json change_summary =
      on_tx pg (casting pg spec_json λ spec. insert_spec table_id spec_version spec change_summary)

  abbrev pub scan_spec : StoredSpec → PartitionSpecRow
  scan_spec r = record {
    partition_spec_id = r.partition_spec_id;
    table_id = r.table_id;
    spec_version = r.spec_version;
    spec_json = r.spec_json;
    changed_at = pg.show_time r.changed_at;
    change_summary = r.change_summary;
  }

  unfoldable pub get_partition_spec_by_version : ℤ → ℤ → Exec (Option PartitionSpecRow)
  get_partition_spec_by_version table_id spec_version = unless_found none (do
    row ←
        on_pool pg
          (reading λ t. first_row (filter (is_version table_id spec_version) t.partition_specs))
    pure (some (scan_spec row)))

  unfoldable pub list_partition_spec_history : ℤ → Exec (List PartitionSpecRow)
  list_partition_spec_history table_id = on_pool pg (
      reading λ t. done (
        map scan_spec (
          order_by_desc (λ r. r.spec_version)
            (filter (λ (r : StoredSpec). r.table_id == table_id) t.partition_specs))))
