-- ===== src/Catalog/Aside/Changes.antt =====
-- internal/catalog/partition_registry.go: `CommitSnapshot` leaves the other tables as they were.
use ice_core.Base.{ℕ, suc, ◌≢◌, refl, List, [], ◌∷◌, nat_eq, Text, arith}
use ice_core.Base.Int.{ℤ, pos, int_eq}
use ice_core.Db.Rows.{PartitionRow, ManifestFileRow, Tables, Db}
use ice_core.Db.Exec.{Pg, Exec, Sql, on_tx}
use ice_core.Db.Live.{UniqueIds, IdsBelow}
use ice_core.Db.Tables.{get_table_spec_version, get_current_snapshot, update_table_snapshot_tx}
use ice_core.Db.Partitions.{insert_partition_tx, mark_partition_deleted_tx}
use ice_core.Db.Snapshots.{insert_snapshot_tx}
use ice_core.Db.Manifests.{insert_manifest_file_tx, insert_manifest_list_tx}
use ice_core.Db.Triples.{
  Triple, triple_pure, triple_bind, triple_then, triple_message, triple_unless, triple_require,
  triple_read_pool, triple_given, triple_weaken,
}
use ice_core.Catalog.Commit.{
  insert_partitions, mark_deleted_all, added_manifest, deleted_manifest, commit_changes,
  commit_in_tx, commit_to_db,
}
use ice_core.Catalog.Aside.{
  Local, Idle, Open, Closed, triple-Local, triple-Open, triple_close, triple_id,
}
use ice_core.Catalog.Aside.Statements.{Inert-Local, reading-Local, casting-Local, update_live-Local}
use ice_core.Catalog.Aside.OnPartitions.{insert_partition-Local, mark_deleted-Local}

module _ (pg : Pg) (others : Text → Type 0) (before : Tables) (base : ℕ)
    (u : UniqueIds before.tables) (b : IdsBelow base before.tables) where
  abbrev Out : Db → Type 0
  Out = Idle pg others before base

  abbrev In : Db → Type 0
  In = Open pg others before base

  abbrev Fin : Db → Type 0
  Fin = Closed pg others before base

  Local-In :
      {A : Type 0} (q : Sql A) → Local pg others before q → Triple In (on_tx pg q) (λ _. In) In
  Local-In q l = triple-Local pg others before base q l

  insert_manifest_file-In :
      (row : ManifestFileRow) → Triple In (insert_manifest_file_tx pg row) (λ _. In) In
  unfolding insert_manifest_file_tx
  insert_manifest_file-In row = Local-In _ (
      casting-Local pg others before _ _ (λ summaries. Inert-Local pg others before _ (record {
        same_tables = λ m t s. refl;
        same_partitions = λ m t s. refl;
        same_seq = λ m t s. refl;
      })))

  insert_manifest_list-In :
      (snapshot id count : ℤ)
      → Triple In (insert_manifest_list_tx pg snapshot id count) (λ _. In) In
  unfolding insert_manifest_list_tx
  insert_manifest_list-In snapshot id count = Local-In _ (
      Inert-Local pg others before _ (record {
        same_tables = λ m t s. ground arith;
        same_partitions = λ m t s. ground arith;
        same_seq = λ m t s. ground arith;
      }))

  added_manifest-In :
      (name : Text) (snap : ℕ) (id spec : ℤ) (parts : List PartitionRow) (count : ℕ)
      → Triple In (added_manifest pg name snap id spec parts count) (λ _. In) In
  unfolding added_manifest
  added_manifest-In name snap id spec [] count = triple_pure count (λ d h. h)
  added_manifest-In name snap id spec (p ∷ ps) count =
      triple_then (triple_message pg _ (insert_manifest_file-In _))
        (λ _. triple_pure (suc count) (λ d h. h))

  deleted_manifest-In :
      (name : Text) (snap : ℕ) (id spec : ℤ) (keys : List Text) (count : ℕ)
      → Triple In (deleted_manifest pg name snap id spec keys count) (λ _. In) In
  unfolding deleted_manifest
  deleted_manifest-In name snap id spec [] count = triple_pure count (λ d h. h)
  deleted_manifest-In name snap id spec (k ∷ ks) count =
      triple_then (triple_message pg _ (insert_manifest_file-In _))
        (λ _. triple_pure (suc count) (λ d h. h))

  read_spec-Out : (name : Text) → Triple Out (get_table_spec_version pg name) (λ _. Out) Out
  unfolding get_table_spec_version
  read_spec-Out name = triple_unless _ (triple_read_pool pg _ (λ d h. h)) (λ d h. h)

  read_current-Out : (name : Text) → Triple Out (get_current_snapshot pg name) (λ _. Out) Out
  unfolding get_current_snapshot
  read_current-Out name =
      triple_unless _
        (triple_bind (triple_read_pool pg _ (λ d h. h)) (λ found. triple_pure _ (λ d h. h)))
        (λ d h. h)

  module _ (name : Text) (apart : (n : Text) → others n → n ≢ name) where
    insert_partition_tx-In :
        (snap : ℕ) (part : PartitionRow)
        → Triple In (insert_partition_tx pg name snap part) (λ _. In) In
    unfolding insert_partition_tx
    insert_partition_tx-In snap part =
        triple_bind (triple_id pg others before base name apart) (λ id. triple_given (λ foreign.
          Local-In _ (
            casting-Local pg others before _ _
              (λ stats. insert_partition-Local pg others before id _ part stats foreign))))

    insert_partitions-In :
        (snap : ℕ) (parts : List PartitionRow)
        → Triple In (insert_partitions pg name snap parts) (λ _. In) In
    unfolding insert_partitions
    insert_partitions-In snap [] = triple_pure tt (λ d h. h)
    insert_partitions-In snap (part ∷ parts) =
        triple_then (triple_message pg _ (insert_partition_tx-In snap part))
          (λ _. insert_partitions-In snap parts)

    mark_partition_deleted_tx-In :
        (key : Text) (snap : ℕ)
        → Triple In (mark_partition_deleted_tx pg name key snap) (λ _. In) In
    unfolding mark_partition_deleted_tx
    mark_partition_deleted_tx-In key snap =
        triple_bind (triple_id pg others before base name apart) (λ id.
          triple_given
            (λ foreign. Local-In _ (mark_deleted-Local pg others before id key _ foreign)))

    mark_deleted_all-In :
        (snap : ℕ) (keys : List Text) → Triple In (mark_deleted_all pg name snap keys) (λ _. In) In
    unfolding mark_deleted_all
    mark_deleted_all-In snap [] = triple_pure tt (λ d h. h)
    mark_deleted_all-In snap (key ∷ keys) =
        triple_then (triple_message pg _ (mark_partition_deleted_tx-In key snap))
          (λ _. mark_deleted_all-In snap keys)

    commit_changes-Aside :
        (snap : ℕ) (id spec : ℤ) (parts : List PartitionRow) (keys : List Text)
        → Triple In (commit_changes pg name snap id spec parts keys) (λ _. Fin) Out
    unfolding commit_changes update_table_snapshot_tx
    commit_changes-Aside snap id spec parts keys =
        triple_then (quietly (insert_partitions-In snap parts)) (λ _.
          triple_then (quietly (mark_deleted_all-In snap keys)) (λ _.
            triple_bind (quietly (added_manifest-In name snap id spec parts 0)) (λ added.
              triple_bind (quietly (deleted_manifest-In name snap id spec keys added)) (λ count.
                triple_then (quietly (triple_message pg _ (insert_manifest_list-In _ _ _))) (λ _.
                  triple_then
                    (quietly (
                      triple_message pg _ (
                        Local-In _ (
                          update_live-Local pg others before name _ apart (λ r. refl)
                            (λ r. refl)))))
                    (λ _.
                      triple_then (triple_message pg _ (triple_close pg others before base))
                        (λ _. triple_pure snap (λ d h. h))))))))
      where
        quietly : {A : Type 0} {m : Exec A} → Triple In m (λ _. In) In → Triple In m (λ _. In) Out
        quietly h = triple_weaken h (λ d k. k.idle)

    commit_in_tx-Aside :
        (parent : ℕ) (operation : Text) (spec : ℤ) (parts : List PartitionRow) (keys : List Text)
        → Triple Out (commit_in_tx pg name parent operation spec parts keys) (λ _. Fin) Out
    unfolding commit_in_tx insert_snapshot_tx
    commit_in_tx-Aside parent operation spec parts keys =
        triple_then (triple_message pg _ (triple-Open pg others before base u b)) (λ _.
          triple_bind
            (triple_weaken
              (triple_message pg _ (
                triple_unless {E = In} (0, pos 0)
                  (triple_bind (Local-In _ (reading-Local pg others before _)) (λ id.
                    triple_bind
                      (Local-In _ (
                        Inert-Local pg others before _ (record {
                          same_tables = λ m t s. refl;
                          same_partitions = λ m t s. refl;
                          same_seq = λ m t s. refl;
                        })))
                      (λ raw. triple_pure _ (λ d h. h))))
                  (λ d h. h)))
              (λ d h. h.idle))
            (λ made.
              triple_then (triple_require _ _ (λ d e h. h) (λ d h. h.idle))
                (λ _. commit_changes-Aside made.0 made.1 spec parts keys)))

    -- `CommitSnapshot`, up to the cache.
    pub commit_to_db-Aside :
        (parent : ℕ) (operation : Text) (parts : List PartitionRow) (keys : List Text)
        → Triple Out (commit_to_db pg name parent operation parts keys) (λ _. Fin) Out
    unfolding commit_to_db
    commit_to_db-Aside parent operation parts keys =
        triple_bind (triple_message pg _ (read_spec-Out name)) (λ spec.
          triple_bind (triple_message pg _ (read_current-Out name)) (λ current.
            triple_then (triple_require _ _ (λ d e h. h) (λ d h. h))
              (λ _. commit_in_tx-Aside parent operation spec parts keys)))
