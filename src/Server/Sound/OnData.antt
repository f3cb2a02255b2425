-- ===== src/Server/Sound/OnData.antt =====
-- The handlers on partitions, snapshots, specs, manifests and transactions keep the server sound.
use ice_core.Base.{
  ℕ, ◌≡◌, ◌≢◌, refl, sym, List, Text, codes, Result-cases, ◌==◌, nat_eq, inl, inr, ◌⊎◌, arith,
  Bool-cases,
}
use ice_core.Base.Int.{ℤ, pos, int_eq}
use ice_core.Db.Rows.{PartitionRow, Db}
use ice_core.Db.Exec.{Outcome, done, raised}
use ice_core.Db.Triples.{Post}
use ice_core.Catalog.Registry
use ice_core.Catalog.Commit.{commit_to_db}
use ice_core.Catalog.Aside.{Idle, Closed}
use ice_core.Catalog.Aside.Changes.{commit_to_db-Aside}
use ice_core.Server.{Env, MetadataServer, answer, with_db}
use ice_core.Server.Convert.{PartitionInfo, default_string}
use ice_core.Server.Partitions
use ice_core.Server.Snapshots
use ice_core.Server.Sessions
use ice_core.Server.Sound.{
  IsSound, AllNames, After, runs_refuse, runs_bind, runs_then, runs_demand, runs_query,
}
use ice_core.Server.Sound.Reads.{
  get_table-Quiet, get_current_snapshot-Quiet, get_partitions_paged-Quiet, get_stats-Quiet,
  get_column_stats-Quiet, get_snapshot-Quiet, list_snapshots-Quiet, get_current_spec-Quiet,
  get_spec_at_version-Quiet, list_spec_history-Quiet, manifest_list_of-Quiet,
  manifest_file_of-Quiet, insert_transaction-Quiet, update_transaction_status-Quiet,
}
use ice_core.Server.Sound.Changes.{Ranges, Aside-SoundFor, idle-IsSound, emptied-SoundFor}
use ice_core.Server.Sound.OnTables.{
  Keeps, answer-Keeps, named-Keeps, present-Keeps, if-Keeps, read_partitions-Keeps,
}

module _ (env : Env) where
  module _ (ranges : Ranges env) where
    After-finish :
        (s : MetadataServer) (name : Text) (o : Outcome ℕ) (d : Db)
        → IsSound env.pg s
        → Post
            (λ _.
              Closed env.pg
                (λ n. n ≢ name)
                s.partitions.db.committed
                s.partitions.db.sequences.table_seq)
            (Idle env.pg
              (λ n. n ≢ name)
              s.partitions.db.committed
              s.partitions.db.sequences.table_seq)
            (o, d)
        → After
            (λ _. IsSound env.pg)
            (IsSound env.pg)
            (Partitions.committed env s (
              Registry.finish_commit s.partitions name
                (env.range_items s.partitions.cache.items)
                (o, d)))
    unfolding Registry.finish_commit
    After-finish s name (done a) d h p =
        emptied-SoundFor env (λ n. n ≢ name) AllNames name (with_db d s) ranges (λ n o apart. apart)
          (Aside-SoundFor env.pg (λ n. n ≢ name) s d h p)
    After-finish s name (raised e) d h p = idle-IsSound env.pg (λ n. n ≢ name) s d h p

    commit_rows-Keeps :
        (name : Text) (parent : ℕ) (operation : Text) (keys : List Text)
        (rows : PartitionInfo ⊎ List PartitionRow)
        → Keeps env.pg (Partitions.commit_rows env name parent operation keys rows)
    unfolding Partitions.commit_rows Registry.commit_snapshot answer
    commit_rows-Keeps name parent operation keys (inl p) = record { at = λ s h. h }
    commit_rows-Keeps name parent operation keys (inr rows) = record {
      at = λ s h.
          let m =
            commit_to_db env.pg name parent (default_string operation (codes "append")) rows keys
              s.partitions.db in
          After-finish s name m.0 m.1 h (
            (commit_to_db-Aside env.pg (λ n. n ≢ name) _ _ h.unique h.below name (λ n o. o) parent _
                rows keys).at
              s.partitions.db (refl, omega arith));
    }

    pub commit_snapshot-Keeps :
        (name : Text) (parent : ℕ) (operation : Text) (parts : List PartitionInfo)
        (keys : List Text)
        → Keeps env.pg (Partitions.commit_snapshot env name parent operation parts keys)
    unfolding Partitions.commit_snapshot
    commit_snapshot-Keeps name parent operation parts keys =
        commit_rows-Keeps name parent operation keys _

  pub get_partitions-Keeps :
      (name : Text) (snapshot : ℕ) (size : ℤ) (token : Text)
      → Keeps env.pg (Partitions.get_partitions env name snapshot size token)
  unfolding Partitions.get_partitions
  get_partitions-Keeps name snapshot size token =
      runs_bind
        (if-Keeps env.pg _
          (runs_query env.pg _ (get_partitions_paged-Quiet env.pg name snapshot size _))
          (read_partitions-Keeps env name snapshot))
        (λ found. runs_bind (present-Keeps env.pg _ found) (λ rows. answer-Keeps env.pg _))

  pub get_partition_stats-Keeps :
      (name : Text) → Keeps env.pg (Partitions.get_partition_stats env name)
  unfolding Partitions.get_partition_stats
  get_partition_stats-Keeps name =
      runs_then (named-Keeps env.pg name) (λ _. runs_query env.pg _ (get_stats-Quiet env.pg name))

  snapshot_asked-Keeps :
      (name : Text) (snapshot : ℕ) → Keeps env.pg (Partitions.snapshot_asked env name snapshot)
  unfolding Partitions.snapshot_asked
  snapshot_asked-Keeps name snapshot =
      if-Keeps env.pg _
        (runs_bind (runs_query env.pg _ (get_current_snapshot-Quiet env.pg name))
          (λ current. runs_then (runs_demand _ _ _ (λ s h. h)) (λ _. answer-Keeps env.pg current)))
        (answer-Keeps env.pg snapshot)

  pub get_column_stats-Keeps :
      (name : Text) (snapshot : ℕ) → Keeps env.pg (Partitions.get_column_stats env name snapshot)
  unfolding Partitions.get_column_stats
  get_column_stats-Keeps name snapshot = runs_then (named-Keeps env.pg name) (λ _.
      runs_bind (snapshot_asked-Keeps name snapshot) (λ asked.
        runs_bind (runs_query env.pg _ (get_column_stats-Quiet env.pg env.range_bounds name asked))
          (λ stats. answer-Keeps env.pg _)))

  pub get_snapshot-Keeps :
      (name : Text) (snapshot : ℕ) → Keeps env.pg (Snapshots.get_snapshot env name snapshot)
  unfolding Snapshots.get_snapshot
  get_snapshot-Keeps name snapshot =
      runs_bind (runs_query env.pg _ (get_snapshot-Quiet env.pg name snapshot))
        (λ found. runs_bind (present-Keeps env.pg _ found) (λ snap. answer-Keeps env.pg _))

  pub list_snapshots-Keeps :
      (name : Text) (limit : ℤ) → Keeps env.pg (Snapshots.list_snapshots env name limit)
  unfolding Snapshots.list_snapshots
  list_snapshots-Keeps name limit =
      runs_bind (runs_query env.pg _ (list_snapshots-Quiet env.pg name limit))
        (λ found. answer-Keeps env.pg _)

  parsed_spec-Keeps : (json : Text) → Keeps env.pg (Snapshots.parsed_spec env json)
  unfolding Snapshots.parsed_spec
  parsed_spec-Keeps json = elim (Result-cases (env.json.unmarshal json)) [
    | inl (spec, good) ↦ rw (good, Snapshots.parsed_spec) (answer-Keeps env.pg spec)
    | inr (e, bad) ↦ rw (bad, Snapshots.parsed_spec) (runs_refuse _ _ (λ s h. h))
  ]

  pub get_partition_spec-Keeps :
      (name : Text) (version : ℤ) → Keeps env.pg (Snapshots.get_partition_spec env name version)
  unfolding Snapshots.get_partition_spec
  get_partition_spec-Keeps name version = runs_then (named-Keeps env.pg name) (λ _.
      runs_bind
        (runs_query env.pg _ (λ d0. elim (Bool-cases (version == pos 0)) [
          | inl current ↦ rw current (get_current_spec-Quiet env.pg name d0)
          | inr older ↦ rw older (get_spec_at_version-Quiet env.pg name version d0)
        ]))
        (λ found.
          runs_bind (present-Keeps env.pg _ found)
            (λ sv. runs_bind (parsed_spec-Keeps sv.spec_json) (λ spec. answer-Keeps env.pg _))))

  pub list_partition_specs-Keeps :
      (name : Text) → Keeps env.pg (Snapshots.list_partition_specs env name)
  unfolding Snapshots.list_partition_specs
  list_partition_specs-Keeps name = runs_then (named-Keeps env.pg name) (λ _.
      runs_bind (runs_query env.pg _ (list_spec_history-Quiet env.pg name))
        (λ history. answer-Keeps env.pg _))

  pub get_manifest_list-Keeps :
      (name : Text) (snapshot : ℕ) → Keeps env.pg (Snapshots.get_manifest_list env name snapshot)
  unfolding Snapshots.get_manifest_list
  get_manifest_list-Keeps name snapshot = runs_then (named-Keeps env.pg name) (λ _.
      runs_then (runs_demand _ _ _ (λ s h. h)) (λ _.
        runs_bind (runs_query env.pg _ (manifest_list_of-Quiet env.pg name snapshot))
          (λ found. runs_bind (present-Keeps env.pg _ found) (λ pair. answer-Keeps env.pg _))))

  pub get_manifest-Keeps :
      (name : Text) (id : ℤ) → Keeps env.pg (Snapshots.get_manifest env name id)
  unfolding Snapshots.get_manifest
  get_manifest-Keeps name id = runs_then (named-Keeps env.pg name) (λ _.
      runs_then (runs_demand _ _ _ (λ s h. h)) (λ _.
        runs_bind (runs_query env.pg _ (manifest_file_of-Quiet env.pg name id))
          (λ found. runs_bind (present-Keeps env.pg _ found) (λ f. answer-Keeps env.pg _))))

  -- What changes only the transactions in memory.
  mvcc-IsSound :
      (s s' : MetadataServer) → s'.partitions ≡ s.partitions → IsSound env.pg s → IsSound env.pg s'
  mvcc-IsSound s s' e h = record {
    valid = rw e h.valid;
    kept = λ n snapshot rows o l. rw e (h.kept n snapshot rows o (rw (sym e) l));
    unique = rw e h.unique;
    below = rw e h.below;
  }

  record_status-Keeps :
      (txn_id : ℕ) (status : Text) → Keeps env.pg (Sessions.record_status env txn_id status)
  unfolding Sessions.record_status
  record_status-Keeps txn_id status =
      runs_then (runs_query env.pg _ (update_transaction_status-Quiet env.pg txn_id status))
        (λ _. answer-Keeps env.pg _)

  pub begin_transaction-Keeps :
      (now : ℕ) (client name : Text) (isolation : Sessions.IsolationLevel)
      → Keeps env.pg (Sessions.begin_transaction env now client name isolation)
  unfolding Sessions.begin_transaction Sessions.register
  begin_transaction-Keeps now client name isolation = runs_then (runs_demand _ _ _ (λ s h. h)) (λ _.
      runs_then (named-Keeps env.pg name) (λ _.
        runs_bind (runs_query env.pg _ (get_table-Quiet env.pg name)) (λ found.
          runs_bind (present-Keeps env.pg _ found) (λ table.
            runs_bind (runs_query env.pg _ (insert_transaction-Quiet env.pg client _ _ _))
              (λ txn_id.
                runs_then {Q = λ _. IsSound env.pg} (record { at = λ s h. mvcc-IsSound s _ refl h })
                  (λ _. answer-Keeps env.pg _))))))

  pub commit_transaction-Keeps :
      (now txn_id : ℕ) → Keeps env.pg (Sessions.commit_transaction env now txn_id)
  unfolding Sessions.commit_transaction Sessions.commit_in_memory
  commit_transaction-Keeps now txn_id =
      runs_bind {Q = λ _. IsSound env.pg} (record { at = λ s h. mvcc-IsSound s _ refl h })
        (λ found. if-Keeps env.pg found (record_status-Keeps txn_id _) (answer-Keeps env.pg _))

  pub abort_transaction-Keeps : (txn_id : ℕ) → Keeps env.pg (Sessions.abort_transaction env txn_id)
  unfolding Sessions.abort_transaction Sessions.abort_in_memory
  abort_transaction-Keeps txn_id =
      runs_then {Q = λ _. IsSound env.pg} (record { at = λ s h. mvcc-IsSound s _ refl h })
        (λ _. record_status-Keeps txn_id _)

  pub cleanup-Keeps : (now : ℕ) → Keeps env.pg (Sessions.cleanup_expired_transactions env now)
  unfolding Sessions.cleanup_expired_transactions
  cleanup-Keeps now = record { at = λ s h. mvcc-IsSound s _ refl h }
