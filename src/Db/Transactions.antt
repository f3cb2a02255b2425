-- ===== src/Db/Transactions.antt =====
-- internal/db/pg_client.go: the statements on `transactions`, and `DropTable`, which the foreign
-- keys of scripts/init_db.sql bind to every other table.
use ice_core.Base.{
  ℕ, suc, Bool, true, false, ◌&&◌, ◌||◌, not, none, some, List, [], ◌∷◌, ◌++◌, ◌==◌, if◌then◌else◌,
  Text, codes, text_eq, filter, length, nat_eq,
}
use ice_core.Base.Int.{ℤ, pos, ltb_ℤ, int_eq, to_int64, to_uint64}
use ice_core.Db.Rows.{
  StoredTransaction, StoredTable, StoredSchema, StoredSnapshot, StoredPartition, StoredSpec,
  ManifestFileRow, ManifestListRow, Tables,
}
use ice_core.Db.Exec.{
  Pg, Exec, Sql, done, raised, failed, pure, ◌>>=◌, ◌>>◌, unless_found, on_pool, on_tx,
}
use ice_core.Db.Select.{update_where, is_live}
use ice_core.Db.Tables.{select_table_id}

module _ (pg : Pg) where
  abbrev pub insert_transaction_row : Text → ℤ → ℤ → Text → Sql ℤ
  insert_transaction_row client_id table_id read_snapshot isolation n t s = (
    done (pos (suc s.txn_seq)),
    record t {
      transactions =
          t.transactions
          ++ record {
            txn_id = pos (suc s.txn_seq);
            client_id = client_id;
            table_id = table_id;
            read_snapshot_id = read_snapshot;
            status = codes "active";
            isolation_level = isolation;
            started_at = pg.now n;
            committed_at = none;
          }
            ∷ [];
    },
    record s { txn_seq = suc s.txn_seq },
  )

  unfoldable pub insert_transaction : Text → ℤ → ℕ → Text → Exec ℕ
  insert_transaction client_id table_id read_snapshot_id isolation = do
    txn_id ←
        on_pool pg (insert_transaction_row client_id table_id (to_int64 read_snapshot_id) isolation)
    pure (if ltb_ℤ txn_id (pos 0) then 0 else to_uint64 txn_id)

  -- `SET status = $1`, and `committed_at = now()` if the status is "committed".
  abbrev pub set_status : Text → ℕ → StoredTransaction → StoredTransaction
  set_status status n r =
      if status == codes "committed"
      then record r { status = status; committed_at = some (pg.now n) }
      else record r { status = status }

  unfoldable pub update_transaction_status : ℕ → Text → Exec (Unit {0})
  update_transaction_status txn_id status = on_pool pg λ n t s. (
    done tt,
    record t {
      transactions =
          update_where (λ r. r.txn_id == to_int64 txn_id) (set_status status n) t.transactions;
    },
    s,
  )

  -- DELETE FROM tables WHERE table_name = $1: a row of another table that names one of these by
  -- its `table_id` forbids it.
  abbrev pub refers : ℤ → Tables → Bool
  refers id t =
      not (length (filter (λ (r : StoredTransaction). r.table_id == id) t.transactions) == 0)
      || not (length (filter (λ (r : StoredSchema). r.table_id == id) t.schema_history) == 0)
      || not (length (filter (λ (r : StoredSnapshot). r.table_id == id) t.snapshots) == 0)
      || not (length (filter (λ (r : StoredPartition). r.table_id == id) t.partitions) == 0)
      || not (length (filter (λ (r : ManifestFileRow). r.table_id == id) t.manifest_files) == 0)
      || not (length (filter (λ (r : ManifestListRow). r.table_id == id) t.manifest_lists) == 0)
      || not (length (filter (λ (r : StoredSpec). r.table_id == id) t.partition_specs) == 0)

  unfoldable pub any_refers : Text → List StoredTable → Tables → Bool
  any_refers name [] t = false
  any_refers name (r ∷ rs) t =
      if r.table_name == name && refers r.table_id t then true else any_refers name rs t

  unfoldable pub delete_table_row : Text → Sql Bool
  delete_table_row table_name n t s =
      if any_refers table_name t.tables t
      then (raised (failed pg.foreign_key_violation), t, s)
      else (
        done
            (not (length (filter (λ (r : StoredTable). r.table_name == table_name) t.tables) == 0)),
        record t { tables = filter (λ r. not (r.table_name == table_name)) t.tables },
        s,
      )

  -- The six DELETEs of a purge, in the order of the code, each by `table_id`.
  abbrev pub delete_from : (Tables → Tables) → Exec (Unit {0})
  delete_from f = on_tx pg λ n t s. (done tt, f t, s)

  unfoldable pub purge_rows : ℤ → Exec (Unit {0})
  purge_rows id = do
    delete_from
        λ t. record t { manifest_files = filter (λ r. not (r.table_id == id)) t.manifest_files }
    delete_from
        λ t. record t { manifest_lists = filter (λ r. not (r.table_id == id)) t.manifest_lists }
    delete_from λ t. record t { partitions = filter (λ r. not (r.table_id == id)) t.partitions }
    delete_from λ t. record t { snapshots = filter (λ r. not (r.table_id == id)) t.snapshots }
    delete_from
        λ t. record t { schema_history = filter (λ r. not (r.table_id == id)) t.schema_history }
    delete_from
        λ t. record t { partition_specs = filter (λ r. not (r.table_id == id)) t.partition_specs }

  -- UPDATE tables SET is_deleted = true WHERE table_name = $1 AND is_deleted = false
  abbrev pub soft_delete : Text → Sql Bool
  soft_delete table_name n t s = (
    done (not (length (filter (is_live table_name) t.tables) == 0)),
    record t {
      tables = update_where (is_live table_name) (λ r. record r { is_deleted = true }) t.tables;
    },
    s,
  )

  unfoldable pub drop_table : Text → Bool → Exec Bool
  unfolding purge_rows
  drop_table table_name true = do
    found ←
        unless_found none
          (do table_id ← on_tx pg (select_table_id pg table_name); pure (some table_id))
    elim found [
      | none ↦ pure false
      | some table_id ↦ do purge_rows table_id; on_tx pg (delete_table_row table_name)
    ]
  drop_table table_name false = on_tx pg (soft_delete table_name)
