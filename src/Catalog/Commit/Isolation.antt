-- ===== src/Catalog/Commit/Isolation.antt =====
-- The transaction of a commit, from its first statement to its last.
use ice_core.Base.{ℕ, suc, ◌≡◌, ◌∙◌, List, [], ◌∷◌, nat_eq, Text}
use ice_core.Base.Int.{ℤ, ◌<ℤ◌, to_int64}
use ice_core.Db.Rows.{PartitionRow, ManifestFileRow, Tables, Sequences, Db}
use ice_core.Db.Exec.{Pg, Sql, Outcome, done, raised, on_tx}
use ice_core.Db.Partitions.{select_partitions, insert_partition_tx, mark_partition_deleted_tx}
use ice_core.Db.Manifests.{insert_manifest_file_tx}
use ice_core.Db.Triples.{
  Post, Triple, triple_pure, triple_bind, triple_message, triple_on_tx, triple_then,
}
use ice_core.Catalog.Commit.{insert_partitions, mark_deleted_all, added_manifest, deleted_manifest}
use ice_core.Catalog.Commit.Harmless.{
  Harmless, reading-Harmless, casting-Harmless, insert_partition-Harmless, mark_deleted-Harmless,
  insert_manifest_file-Harmless,
}

module _ (pg : Pg) (d0 : Db) (bound : ℤ) where
  -- Nothing is committed, no row of `tables` has changed, and below the bound the open transaction
  -- sees what was committed.
  pub record Unmoved (d : Db) : Type 0 where
    pub committed : d.committed ≡ d0.committed
    pub tables : d.pending.tables ≡ d0.committed.tables
    pub view :
        (table_id snapshot : ℤ)
        → snapshot <ℤ bound
        → select_partitions pg table_id snapshot d.pending
          ≡ select_partitions pg table_id snapshot d0.committed

  abbrev pub Untouched : Db → Type 0
  Untouched d = d.committed ≡ d0.committed

  Post-Unmoved :
      {A : Type 0} (d : Db) (r : Outcome A) (t : Tables) (s : Sequences)
      → Unmoved d
      → t.tables ≡ d.pending.tables
      → ((table_id snapshot : ℤ)
          → snapshot <ℤ bound
          → select_partitions pg table_id snapshot t
            ≡ select_partitions pg table_id snapshot d.pending)
      → Post
          (λ _. Unmoved)
          Untouched
          (r, record d { pending = t; sequences = s; statements = suc d.statements })
  Post-Unmoved d (done a) t s u e v = record {
    committed = u.committed;
    tables = e ∙ u.tables;
    view = λ i sn h. v i sn h ∙ u.view i sn h;
  }
  Post-Unmoved d (raised x) t s u e v = u.committed

  pub Harmless-step :
      {A : Type 0} (q : Sql A)
      → Harmless pg bound q
      → Triple Unmoved (on_tx pg q) (λ _. Unmoved) Untouched
  Harmless-step q h =
      triple_on_tx pg q
        (λ d u.
          Post-Unmoved d (q d.begun d.pending d.sequences).0 (q d.begun d.pending d.sequences).1
            (q d.begun d.pending d.sequences).2 u (h.same_tables d.begun d.pending d.sequences)
            (h.same_view d.begun d.pending d.sequences))
        (λ d u c. u.committed)

  module _ (table_name : Text) (new_snap : ℕ) (fits : to_int64 new_snap ≡ bound) where
    insert_partition_tx-Unmoved :
        (part : PartitionRow)
        → Triple Unmoved (insert_partition_tx pg table_name new_snap part) (λ _. Unmoved) Untouched
    unfolding insert_partition_tx
    insert_partition_tx-Unmoved part =
        triple_bind (Harmless-step _ (reading-Harmless pg bound _)) (λ table_id. Harmless-step _ (
          casting-Harmless pg bound _ _
            (λ stats. insert_partition-Harmless pg bound table_id _ part stats fits)))

    pub insert_partitions-Unmoved :
        (parts : List PartitionRow)
        → Triple Unmoved (insert_partitions pg table_name new_snap parts) (λ _. Unmoved) Untouched
    unfolding insert_partitions
    insert_partitions-Unmoved [] = triple_pure tt (λ d u. u)
    insert_partitions-Unmoved (part ∷ parts) =
        triple_then (triple_message pg _ (insert_partition_tx-Unmoved part))
          (λ _. insert_partitions-Unmoved parts)

    mark_partition_deleted_tx-Unmoved :
        (key : Text)
        → Triple Unmoved
            (mark_partition_deleted_tx pg table_name key new_snap)
            (λ _. Unmoved)
            Untouched
    unfolding mark_partition_deleted_tx
    mark_partition_deleted_tx-Unmoved key =
        triple_bind (Harmless-step _ (reading-Harmless pg bound _))
          (λ table_id. Harmless-step _ (mark_deleted-Harmless pg bound table_id key _ fits))

    pub mark_deleted_all-Unmoved :
        (keys : List Text)
        → Triple Unmoved (mark_deleted_all pg table_name new_snap keys) (λ _. Unmoved) Untouched
    unfolding mark_deleted_all
    mark_deleted_all-Unmoved [] = triple_pure tt (λ d u. u)
    mark_deleted_all-Unmoved (key ∷ keys) =
        triple_then (triple_message pg _ (mark_partition_deleted_tx-Unmoved key))
          (λ _. mark_deleted_all-Unmoved keys)

    insert_manifest_file_tx-Unmoved :
        (row : ManifestFileRow)
        → Triple Unmoved (insert_manifest_file_tx pg row) (λ _. Unmoved) Untouched
    unfolding insert_manifest_file_tx
    insert_manifest_file_tx-Unmoved row =
        Harmless-step _ (casting-Harmless pg bound _ _ (insert_manifest_file-Harmless pg bound row))

    pub added_manifest-Unmoved :
        (table_id spec : ℤ) (parts : List PartitionRow) (count : ℕ)
        → Triple Unmoved
            (added_manifest pg table_name new_snap table_id spec parts count)
            (λ _. Unmoved)
            Untouched
    unfolding added_manifest
    added_manifest-Unmoved table_id spec [] count = triple_pure count (λ d u. u)
    added_manifest-Unmoved table_id spec (p ∷ ps) count =
        triple_then (triple_message pg _ (insert_manifest_file_tx-Unmoved _))
          (λ _. triple_pure (suc count) (λ d u. u))

    pub deleted_manifest-Unmoved :
        (table_id spec : ℤ) (keys : List Text) (count : ℕ)
        → Triple Unmoved
            (deleted_manifest pg table_name new_snap table_id spec keys count)
            (λ _. Unmoved)
            Untouched
    unfolding deleted_manifest
    deleted_manifest-Unmoved table_id spec [] count = triple_pure count (λ d u. u)
    deleted_manifest-Unmoved table_id spec (k ∷ ks) count =
        triple_then (triple_message pg _ (insert_manifest_file_tx-Unmoved _))
          (λ _. triple_pure (suc count) (λ d u. u))
