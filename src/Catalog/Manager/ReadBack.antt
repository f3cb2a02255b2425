-- ===== src/Catalog/Manager/ReadBack.antt =====
-- The schema that is read after `AlterTableSchema`.
use ice_core.Base.{
  ◌≡◌, refl, ap, ◌∙◌, some, [], Text, codes, ok, arith, inl, inr, ◌⊎◌, Option-cases,
}
use ice_core.Base.Int.{pos, add32}
use ice_core.Db.Rows.{TableRow, Tables, Db}
use ice_core.Db.Exec.{Pg, done, raised, failed, pure, ◌>>=◌, on_pool, reading, unless_found}
use ice_core.Db.Select.{live_row}
use ice_core.Db.Live.{live_row-updated}
use ice_core.Db.Tables.{get_table}
use ice_core.Catalog.Stores.{get_current_schema, current_schema}
use ice_core.Catalog.Manager.{alter_table_schema}
use ice_core.Catalog.Manager.Altered.{next_version, alter_table_schema-success}

-- At a live row the answer is of that row, or the statement fails.
get_current_schema-live :
    (pg : Pg) (table_name : Text) (row : TableRow) (d : Db)
    → live_row table_name d.committed.tables ≡ done row
    → ((get_current_schema pg table_name d).0 ≡ done (current_schema pg (some row)))
      ⊎ ((e : Text) × ((get_current_schema pg table_name d).0 ≡ raised (failed e)))
unfolding get_current_schema get_table unless_found ◌>>=◌ on_pool reading pure
get_current_schema-live pg table_name row d live = elim (Option-cases (pg.fault d.statements)) [
  | inl no_fault ↦ inl (ground (arith, no_fault, live))
  | inr (e, fault) ↦ inr (e, ground (arith, fault))
]

-- After an `AlterTableSchema` that succeeds, `GetCurrentSchema` answers the new schema, as the text that
-- it casts to, under the version after the one that the live row had (with the wrap-around of 32 bits),
-- or it answers the error of its statement.
pub get_current_schema-alter_table_schema :
    (pg : Pg) (table_name json summary : Text) (d d' : Db)
    → alter_table_schema pg table_name json summary d ≡ (done tt, d')
    → (row : TableRow) × (schema : Text) × (live_row table_name d.committed.tables ≡ done row)
      × (pg.jsonb json ≡ ok schema)
      × (((get_current_schema pg table_name d').0
            ≡ done (
                some (record {
                  version = add32 row.schema_version (pos 1);
                  schema_json = schema;
                  changed_at = [];
                  change_summary = codes "current";
                })))
          ⊎ ((e : Text) × ((get_current_schema pg table_name d').0 ≡ raised (failed e))))
get_current_schema-alter_table_schema pg table_name json summary d d' e =
    let altered = alter_table_schema-success pg table_name json summary d d' e in
    (
      altered.row,
      altered.schema,
      altered.live,
      altered.parsed,
      get_current_schema-live pg table_name _ d' (
          ap (λ (t : Tables). live_row table_name t.tables) altered.made
          ∙ live_row-updated table_name
              (next_version pg table_name json summary d.committed altered.row altered.schema)
              altered.row d.committed.tables (λ r. refl) altered.live),
    )
