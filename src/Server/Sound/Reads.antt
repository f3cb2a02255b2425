-- ===== src/Server/Sound/Reads.antt =====
-- The calls of the database that the handlers read with, and the two that record a transaction: none
-- of them changes `tables` or `partitions`.
use ice_core.Base.{ℕ, Bool, true, false, Option, none, some, Text, nat_eq, if◌then◌else◌, arith}
use ice_core.Base.Int.{ℤ}
use ice_core.Base.Dict.{Dict}
use ice_core.Db.Rows.{Tables}
use ice_core.Db.Exec.{Pg, Exec, Outcome, pure, ◌>>=◌, unless_found, on_pool, reading}
use ice_core.Db.Tables.{get_table, get_table_id, list_tables, get_current_snapshot}
use ice_core.Db.Partitions.{query_partitions, query_partitions_paged, get_visible_partition_count}
use ice_core.Db.Snapshots.{get_snapshot, list_snapshots}
use ice_core.Db.Manifests.{get_manifest_list, get_manifest_file}
use ice_core.Db.Specs.{get_partition_spec_by_version, list_partition_spec_history}
use ice_core.Db.Transactions.{insert_transaction, update_transaction_status}
use ice_core.Db.ColumnBounds.{Agg, get_column_stats_for_snapshot}
use ice_core.Db.Triples.{triple_pure, triple_bind, triple_unless, triple_read_pool, triple_on_pool}
use ice_core.Catalog.Registry.{resolve_snapshot, get_partitions_paged, get_stats}
use ice_core.Catalog.Stores.{
  get_current_schema, get_current_spec, get_spec_at_version, list_spec_history, manifest_list_of,
  manifest_file_of,
}
use ice_core.Server.Sound.{Quiet}

module _ (pg : Pg) where
  Quiet-pool : {A : Type 0} (f : Tables → Outcome A) → Quiet pg (on_pool pg (reading f))
  Quiet-pool f d0 = triple_read_pool pg f (λ d h. h)

  Quiet-pure : {A : Type 0} (a : A) → Quiet pg (pure a)
  Quiet-pure a d0 = triple_pure a (λ d h. h)

  Quiet-bind :
      {A B : Type 0} {m : Exec A} {f : A → Exec B}
      → Quiet pg m
      → ((a : A) → Quiet pg (f a))
      → Quiet pg (m >>= f)
  Quiet-bind h k d0 = triple_bind (h d0) (λ a. k a d0)

  Quiet-unless : {A : Type 0} {m : Exec A} (a : A) → Quiet pg m → Quiet pg (unless_found a m)
  Quiet-unless a h d0 = triple_unless a (h d0) (λ d k. k)

  Quiet-if :
      {A : Type 0} (c : Bool) {m k : Exec A}
      → Quiet pg m
      → Quiet pg k
      → Quiet pg (if c then m else k)
  Quiet-if true h k = h
  Quiet-if false h k = k

  Quiet-option :
      {A X : Type 0} (o : Option X) {m : Exec A} {f : X → Exec A}
      → Quiet pg m
      → ((x : X) → Quiet pg (f x))
      → Quiet pg (elim o [ none ↦ m | some x ↦ f x ])
  Quiet-option none h k = h
  Quiet-option (some x) h k = k x

  pub get_table-Quiet : (name : Text) → Quiet pg (get_table pg name)
  unfolding get_table
  get_table-Quiet name = Quiet-unless _ (Quiet-bind (Quiet-pool _) (λ t. Quiet-pure _))

  get_table_id-Quiet : (name : Text) → Quiet pg (get_table_id pg name)
  unfolding get_table_id
  get_table_id-Quiet name = Quiet-unless _ (Quiet-pool _)

  pub list_tables-Quiet :
      (namespace : Text) (size : ℤ) (token : Text) → Quiet pg (list_tables pg namespace size token)
  unfolding list_tables
  list_tables-Quiet namespace size token = Quiet-pool _

  pub get_current_snapshot-Quiet : (name : Text) → Quiet pg (get_current_snapshot pg name)
  unfolding get_current_snapshot
  get_current_snapshot-Quiet name =
      Quiet-unless _ (Quiet-bind (Quiet-pool _) (λ found. Quiet-pure _))

  query_partitions-Quiet :
      (name : Text) (snapshot : ℕ) → Quiet pg (query_partitions pg name snapshot)
  unfolding query_partitions
  query_partitions-Quiet name snapshot =
      Quiet-bind (get_table_id-Quiet name)
        (λ id. Quiet-if _ (Quiet-pure _) (Quiet-bind (Quiet-pool _) (λ rows. Quiet-pure _)))

  query_partitions_paged-Quiet :
      (name : Text) (snapshot : ℕ) (size last : ℤ)
      → Quiet pg (query_partitions_paged pg name snapshot size last)
  unfolding query_partitions_paged
  query_partitions_paged-Quiet name snapshot size last =
      Quiet-bind (get_table_id-Quiet name)
        (λ id. Quiet-if _ (Quiet-pure _) (Quiet-bind (Quiet-pool _) (λ rows. Quiet-pure _)))

  pub get_visible_partition_count-Quiet :
      (name : Text) (snapshot : ℕ) → Quiet pg (get_visible_partition_count pg name snapshot)
  unfolding get_visible_partition_count
  get_visible_partition_count-Quiet name snapshot =
      Quiet-bind (get_table_id-Quiet name) (λ id. Quiet-if _ (Quiet-pure _) (Quiet-pool _))

  resolve_snapshot-Quiet :
      (name : Text) (snapshot : ℕ) → Quiet pg (resolve_snapshot pg name snapshot)
  unfolding resolve_snapshot
  resolve_snapshot-Quiet name snapshot = Quiet-if _ (get_current_snapshot-Quiet name) (Quiet-pure _)

  pub get_partitions_paged-Quiet :
      (name : Text) (snapshot : ℕ) (size last : ℤ)
      → Quiet pg (get_partitions_paged pg name snapshot size last)
  unfolding get_partitions_paged
  get_partitions_paged-Quiet name snapshot size last =
      Quiet-bind (resolve_snapshot-Quiet name snapshot)
        (λ s. query_partitions_paged-Quiet name s size last)

  pub get_stats-Quiet : (name : Text) → Quiet pg (get_stats pg name)
  unfolding get_stats
  get_stats-Quiet name =
      Quiet-bind (resolve_snapshot-Quiet name 0)
        (λ s. Quiet-bind (query_partitions-Quiet name s) (λ rows. Quiet-pure _))

  pub get_column_stats-Quiet :
      (ranges : Dict ℤ Agg → Dict ℤ Agg) (name : Text) (snapshot : ℕ)
      → Quiet pg (get_column_stats_for_snapshot pg ranges name snapshot)
  unfolding get_column_stats_for_snapshot
  get_column_stats-Quiet ranges name snapshot =
      Quiet-bind (query_partitions-Quiet name snapshot) (λ rows. Quiet-pure _)

  pub get_snapshot-Quiet : (name : Text) (snapshot : ℕ) → Quiet pg (get_snapshot pg name snapshot)
  unfolding get_snapshot
  get_snapshot-Quiet name snapshot = Quiet-bind (get_table_id-Quiet name) (λ id.
      Quiet-if _ (Quiet-pure _) (Quiet-unless _ (Quiet-bind (Quiet-pool _) (λ s. Quiet-pure _))))

  pub list_snapshots-Quiet : (name : Text) (limit : ℤ) → Quiet pg (list_snapshots pg name limit)
  unfolding list_snapshots
  list_snapshots-Quiet name limit =
      Quiet-bind (get_table_id-Quiet name) (λ id. Quiet-if _ (Quiet-pure _) (Quiet-pool _))

  pub get_current_schema-Quiet : (name : Text) → Quiet pg (get_current_schema pg name)
  unfolding get_current_schema
  get_current_schema-Quiet name = Quiet-bind (get_table-Quiet name) (λ t. Quiet-pure _)

  pub get_current_spec-Quiet : (name : Text) → Quiet pg (get_current_spec pg name)
  unfolding get_current_spec
  get_current_spec-Quiet name = Quiet-bind (get_table-Quiet name) (λ t. Quiet-pure _)

  pub get_spec_at_version-Quiet :
      (name : Text) (version : ℤ) → Quiet pg (get_spec_at_version pg name version)
  unfolding get_spec_at_version get_partition_spec_by_version
  get_spec_at_version-Quiet name version = Quiet-bind (get_table_id-Quiet name) (λ id.
      Quiet-if _ (Quiet-pure _) (
        Quiet-bind (Quiet-unless _ (Quiet-bind (Quiet-pool _) (λ r. Quiet-pure _)))
          (λ found. Quiet-pure _)))

  pub list_spec_history-Quiet : (name : Text) → Quiet pg (list_spec_history pg name)
  unfolding list_spec_history list_partition_spec_history
  list_spec_history-Quiet name =
      Quiet-bind (get_table_id-Quiet name)
        (λ id. Quiet-if _ (Quiet-pure _) (Quiet-bind (Quiet-pool _) (λ rows. Quiet-pure _)))

  pub manifest_list_of-Quiet :
      (name : Text) (snapshot : ℕ) → Quiet pg (manifest_list_of pg name snapshot)
  unfolding manifest_list_of get_manifest_list
  manifest_list_of-Quiet name snapshot = Quiet-bind (get_table_id-Quiet name) (λ id.
      Quiet-if _ (Quiet-pure _) (
        Quiet-bind (Quiet-unless none (Quiet-bind (Quiet-pool _) (λ row. Quiet-pure (some row))))
          (λ found.
            Quiet-option found (Quiet-pure _)
              (λ row. Quiet-bind (Quiet-pool _) (λ files. Quiet-pure _)))))

  pub manifest_file_of-Quiet : (name : Text) (id : ℤ) → Quiet pg (manifest_file_of pg name id)
  unfolding manifest_file_of get_manifest_file
  manifest_file_of-Quiet name id = Quiet-unless _ (Quiet-bind (Quiet-pool _) (λ row. Quiet-pure _))

  pub insert_transaction-Quiet :
      (client : Text) (id : ℤ) (snapshot : ℕ) (isolation : Text)
      → Quiet pg (insert_transaction pg client id snapshot isolation)
  unfolding insert_transaction
  insert_transaction-Quiet client id snapshot isolation =
      Quiet-bind (λ d0. triple_on_pool pg _ (λ d h. h) (λ d h c. (h.0, h.1, ground (arith, h.2))))
        (λ raw. Quiet-pure _)

  pub update_transaction_status-Quiet :
      (txn_id : ℕ) (status : Text) → Quiet pg (update_transaction_status pg txn_id status)
  unfolding update_transaction_status
  update_transaction_status-Quiet txn_id status d0 =
      triple_on_pool pg _ (λ d h. h) (λ d h c. (h.0, h.1, ground (arith, h.2)))
