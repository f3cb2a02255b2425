-- ===== src/Catalog/Manager/Tests.antt =====
-- Operations of the catalog manager: some are refused, an alteration succeeds.
use ice_core.Base.{
  ℕ, none, ◌==◌, if◌then◌else◌, ◌≡◌, ok, ◌⊎◌, refl, true, some, [], ◌∷◌, Text, codes, text_eq,
  nat_eq,
}
use ice_core.Base.Int.{pos, add32, int_eq}
use ice_core.Db.Rows.{TableRow, Db}
use ice_core.Db.Exec.{
  Pg, Outcome, raised, failed, pure, throw, ◌>>=◌, ◌>>◌, unless_found, reading, on_pool, on_tx,
  casting, or_message, require, begin_tx, commit_tx, done,
}
use ice_core.Db.Select.{live_row, first_row, update_where}
use ice_core.Db.Tables.{
  create_table_tx, insert_table, name_taken, get_table, update_table_schema,
  update_table_partition_spec_tx,
}
use ice_core.Db.Specs.{insert_partition_spec_tx}
use ice_core.Db.Transactions.{drop_table, purge_rows, delete_table_row, any_refers}
use ice_core.Catalog.Samples.{sound_pg, users, one_table}
use ice_core.Catalog.Manager.{
  create_table, existing_table, alter_table_partition_spec, alter_table_schema, drop_from_catalog,
}
use ice_core.Catalog.Manager.Altered.{IsAltered, alter_table_schema-success}
use ice_core.Catalog.Manager.ReadBack.{get_current_schema-alter_table_schema}
use ice_core.Catalog.Stores.{get_current_schema}
use ice_core.Catalog.Manager.Atomic.{
  create_table-failure, alter_table_schema-failure, alter_table_partition_spec-failure,
  drop_from_catalog-failure,
}

abbrev created : Outcome (Unit {0}) × Db
created = create_table sound_pg users (codes "{}") (codes "{}") (codes "{}") one_table

was_taken : created ≡ (raised (failed (codes "table already exists: users")), created.1)
unfolding create_table ◌>>=◌ ◌>>◌ or_message begin_tx create_table_tx unless_found on_tx casting
    insert_table name_taken pure throw require
was_taken = refl

create_table-failure_example : created.1.committed ≡ one_table.committed
create_table-failure_example =
    create_table-failure sound_pg one_table created.1 (failed (codes "table already exists: users"))
      users (codes "{}") (codes "{}") (codes "{}") was_taken

-- The n-th statement fails.
abbrev lost_at : ℕ → Pg
lost_at k = record sound_pg { fault = λ n. if n == k then some (codes "lost") else none }

-- The commit is the sixth statement: both writes were made.
abbrev altered : Outcome (Unit {0}) × Db
altered = alter_table_schema (lost_at 5) users (codes "{}") [] one_table

was_lost : altered ≡ (raised (failed (codes "lost")), altered.1)
unfolding alter_table_schema ◌>>=◌ ◌>>◌ or_message get_table unless_found on_pool on_tx reading
    casting live_row first_row pure existing_table begin_tx update_table_schema update_where
    commit_tx
was_lost = refl

alter_table_schema-failure_example : altered.1.committed ≡ one_table.committed
alter_table_schema-failure_example =
    alter_table_schema-failure (lost_at 5) one_table altered.1 (failed (codes "lost")) users
      (codes "{}") [] was_lost

abbrev widened : Outcome (Unit {0}) × Db
widened = alter_table_schema sound_pg users (codes "[]") (codes "wider") one_table

was_widened : widened ≡ (done tt, widened.1)
unfolding alter_table_schema ◌>>=◌ ◌>>◌ or_message get_table unless_found on_pool on_tx reading
    casting live_row first_row pure existing_table begin_tx update_table_schema update_where
    commit_tx
was_widened = refl

alter_table_schema-success_example :
    IsAltered sound_pg users (codes "[]") (codes "wider") one_table.committed widened.1.committed
alter_table_schema-success_example =
    alter_table_schema-success sound_pg users (codes "[]") (codes "wider") one_table widened.1
      was_widened

get_current_schema-alter_table_schema_example :
    (row : TableRow) × (schema : Text) × (live_row users one_table.committed.tables ≡ done row)
    × (sound_pg.jsonb (codes "[]") ≡ ok schema)
    × (((get_current_schema sound_pg users widened.1).0
          ≡ done (
              some (record {
                version = add32 row.schema_version (pos 1);
                schema_json = schema;
                changed_at = [];
                change_summary = codes "current";
              })))
        ⊎ ((e : Text) × ((get_current_schema sound_pg users widened.1).0 ≡ raised (failed e))))
get_current_schema-alter_table_schema_example =
    get_current_schema-alter_table_schema sound_pg users (codes "[]") (codes "wider") one_table
      widened.1 was_widened

-- The commit is the fifth statement.
abbrev respecified : Outcome (Unit {0}) × Db
respecified = alter_table_partition_spec (lost_at 4) users (codes "{}") [] one_table

was_lost_too : respecified ≡ (raised (failed (codes "lost")), respecified.1)
unfolding alter_table_partition_spec ◌>>=◌ ◌>>◌ or_message get_table unless_found on_pool on_tx
    reading casting live_row first_row pure existing_table begin_tx update_table_partition_spec_tx
    insert_partition_spec_tx update_where commit_tx
was_lost_too = refl

alter_table_partition_spec-failure_example : respecified.1.committed ≡ one_table.committed
alter_table_partition_spec-failure_example =
    alter_table_partition_spec-failure (lost_at 4) one_table respecified.1 (failed (codes "lost"))
      users (codes "{}") [] was_lost_too

-- A transaction was begun on the table once: the purge is refused by the foreign key.
abbrev referred : Db
referred = record one_table {
  committed = record one_table.committed {
    transactions =
        record {
          txn_id = pos 1;
          client_id = [];
          table_id = pos 1;
          read_snapshot_id = pos 1;
          status = codes "committed";
          isolation_level = codes "snapshot";
          started_at = 0;
          committed_at = some 1;
        }
        ∷ [];
  };
}

abbrev dropped : Outcome (Unit {0}) × Db
dropped = drop_from_catalog sound_pg users true referred

was_referred : dropped ≡ (raised (failed (codes "foreign key")), dropped.1)
unfolding drop_from_catalog ◌>>=◌ ◌>>◌ or_message begin_tx drop_table unless_found on_tx reading
    live_row first_row pure purge_rows delete_table_row any_refers
was_referred = refl

drop_from_catalog-failure_example : dropped.1.committed ≡ referred.committed
drop_from_catalog-failure_example =
    drop_from_catalog-failure sound_pg referred dropped.1 (failed (codes "foreign key")) users true
      was_referred
