-- ===== src/Catalog/Manager.antt =====
-- internal/catalog/catalog_manager.go: the operations on whole tables. A result without success is
-- an outcome `raised (failed message)`; a transaction that is not committed is rolled back. The lock
-- of the table makes each method one step.
pub mod Atomic
pub mod Altered
pub mod ReadBack
mod Tests
use ice_core.Base.{
  Bool, ◌||◌, Option, none, some, [], ◌∷◌, ◌++◌, ◌==◌, text_eq, if◌then◌else◌, Text, codes,
}
use ice_core.Base.Int.{ℤ, pos, add32}
use ice_core.Db.Rows.{TableRow}
use ice_core.Db.Exec.{
  Pg, Exec, raised, failed, pure, throw, ◌>>=◌, ◌>>◌, or_message, require, begin_tx, commit_tx,
}
use ice_core.Db.Tables.{
  create_table_tx, get_table, update_table_schema, rename_table, update_table_partition_spec_tx,
}
use ice_core.Db.Specs.{insert_partition_spec_tx}
use ice_core.Db.Transactions.{drop_table}
use ice_core.Catalog.Commit.{same}

module _ (pg : Pg) where
  -- The first version of the spec is recorded, if there is a spec.
  unfoldable pub record_initial_spec : ℤ → Text → Exec (Unit {0})
  record_initial_spec table_id partition_spec_json =
      if partition_spec_json == [] || partition_spec_json == codes "null"
      then pure tt
      else or_message pg (λ e. codes "failed to record initial partition spec: " ++ e)
          (insert_partition_spec_tx pg table_id (pos 1) partition_spec_json (codes "initial spec"))

  unfoldable pub create_table : Text → Text → Text → Text → Exec (Unit {0})
  create_table table_name schema_json partition_spec_json properties_json = do
    or_message pg (λ e. codes "failed to begin tx: " ++ e) (begin_tx pg)
    (table_id, created) ←
        or_message pg (λ e. codes "failed to create table: " ++ e)
          (create_table_tx pg table_name schema_json partition_spec_json properties_json)
    require created (codes "table already exists: " ++ table_name)
    record_initial_spec table_id partition_spec_json
    or_message pg same (commit_tx pg)

  -- `if existing == nil { … }`
  unfoldable pub existing_table : Text → Option TableRow → Exec TableRow
  existing_table table_name none = throw (failed (codes "table not found: " ++ table_name))
  existing_table table_name (some row) = pure row

  unfoldable pub alter_table_partition_spec : Text → Text → Text → Exec (Unit {0})
  alter_table_partition_spec table_name new_spec_json change_summary = do
    found ← or_message pg same (get_table pg table_name)
    existing ← existing_table table_name found
    or_message pg same (begin_tx pg)
    or_message pg (λ e. codes "failed to update partition spec: " ++ e)
        (update_table_partition_spec_tx pg table_name new_spec_json
          (add32 existing.partition_spec_version (pos 1)))
    or_message pg (λ e. codes "failed to record spec history: " ++ e)
        (insert_partition_spec_tx pg existing.table_id
          (add32 existing.partition_spec_version (pos 1)) new_spec_json change_summary)
    or_message pg same (commit_tx pg)

  unfoldable pub alter_table_schema : Text → Text → Text → Exec (Unit {0})
  alter_table_schema table_name new_schema_json change_summary = do
    found ← or_message pg same (get_table pg table_name)
    existing ← existing_table table_name found
    or_message pg same (begin_tx pg)
    or_message pg (λ _. codes "failed to update schema for: " ++ table_name)
        (update_table_schema pg table_name new_schema_json (add32 existing.schema_version (pos 1))
          change_summary)
    or_message pg same (commit_tx pg)

  -- `RenameTable`, between its locks.
  unfoldable pub rename_in_catalog : Text → Text → Exec (Unit {0})
  rename_in_catalog old_name new_name = do
    renamed ← or_message pg same (rename_table pg old_name new_name)
    require renamed (codes "failed to rename " ++ (old_name ++ (codes " to " ++ new_name)))

  unfoldable pub drop_from_catalog : Text → Bool → Exec (Unit {0})
  drop_from_catalog table_name purge = do
    or_message pg same (begin_tx pg)
    dropped ← or_message pg same (drop_table pg table_name purge)
    require dropped (codes "failed to drop table: " ++ table_name)
    or_message pg same (commit_tx pg)
