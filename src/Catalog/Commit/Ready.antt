-- ===== src/Catalog/Commit/Ready.antt =====
-- The statements of `CommitSnapshot` after its snapshot is inserted, where none of them fails.
use ice_core.Base.{
  ℕ, suc, ◌≡◌, sym, Bool, true, none, List, [], ◌∷◌, ◌==◌, nat_eq, Text, ok, length, filter, map,
  All,
}
use mathlib.Core.Path.{subst}
use ice_core.Base.Int.{ℤ, int_eq, to_int64}
use ice_core.Db.Rows.{PartitionRow, ManifestFileRow, ManifestListRow, TableRow, Tables, Db}
use ice_core.Db.Exec.{Pg, Sql, done, on_tx, casting, commit_tx}
use ice_core.Db.Select.{live_row}
use ice_core.Db.Tables.{update_table_snapshot_tx, select_table_id}
use ice_core.Db.Partitions.{marshal_column_stats, insert_partition_tx, mark_partition_deleted_tx}
use ice_core.Db.Manifests.{insert_manifest_file_tx, insert_manifest_list_tx}
use ice_core.Db.Casting.{casting-parsed}
use ice_core.Db.Calm.{Never, calm_tx}
use ice_core.Db.Live.{select_live}
use ice_core.Db.Triples.{
  Post, Triple, triple_pure, triple_bind, triple_then, triple_message, sent_tx,
}
use ice_core.Catalog.Commit.{
  insert_partitions, mark_deleted_all, added_manifest, deleted_manifest, commit_changes,
}

-- No manifest list of the snapshot is there yet.
abbrev pub free : ℤ → Tables → Bool
free snapshot t =
    length (filter (λ (l : ManifestListRow). l.snapshot_id == snapshot) t.manifest_lists) == 0

-- The open transaction sees the table, and no manifest list of the new snapshot.
pub record Ready (table_name : Text) (row : TableRow) (snapshot : ℤ) (d : Db) : Type 0 where
  pub live : live_row table_name d.pending.tables ≡ done row
  pub unlisted : free snapshot d.pending ≡ true

-- The text casts to JSONB.
abbrev pub Casts : Pg → Text → Type 0
Casts pg raw = (json : Text) × (pg.jsonb raw ≡ ok json)

-- What a commit sends of the added files and of the keys of a manifest casts: encoding/json writes
-- JSON. An empty manifest is not sent.
abbrev pub StatsCast : Pg → List PartitionRow → Type 0
StatsCast pg = All (λ (p : PartitionRow). Casts pg (marshal_column_stats pg p.column_stats))

abbrev pub SummariesCast : Pg → List Text → Type 0
SummariesCast pg [] = Unit
SummariesCast pg (k ∷ ks) = Casts pg (pg.marshal_summaries (k ∷ ks))

abbrev pub keys_of : List PartitionRow → List Text
keys_of = map (λ (r : PartitionRow). r.partition_key)

module _ (pg : Pg) (calm : (n : ℕ) → pg.fault n ≡ none) (table_name : Text) (row : TableRow) where
  calm_cast :
      {A : Type 0} {P : Db → Type 0} {Q : A → Db → Type 0} (raw : Text) (f : Text → Sql A)
      → Casts pg raw
      → ((json : Text) (d : Db)
          → P d
          → Post Q Never (sent_tx d (f json d.begun d.pending d.sequences)))
      → Triple P (on_tx pg (casting pg raw f)) Q Never
  calm_cast {Q} raw f c h = calm_tx pg calm _ (λ d p.
      subst (λ o. Post Q Never (sent_tx d o))
        (sym (casting-parsed pg raw f d.begun d.pending d.sequences c.0 c.1)) (h c.0 d p))

  module _ (snapshot : ℤ) where
    find_table :
        Triple
          (Ready table_name row snapshot)
          (on_tx pg (select_table_id pg table_name))
          (λ _. (Ready table_name row snapshot))
          Never
    find_table = calm_tx pg calm _ (λ d r.
        subst (λ o. Post (λ _. (Ready table_name row snapshot)) Never (sent_tx d o))
          (sym (select_live pg table_name row d.begun d.pending d.sequences r.live))
          (record { live = r.live; unlisted = r.unlisted }))

    insert_partitions-Ready :
        (new_snap : ℕ) (parts : List PartitionRow)
        → StatsCast pg parts
        → Triple
            (Ready table_name row snapshot)
            (insert_partitions pg table_name new_snap parts)
            (λ _. (Ready table_name row snapshot))
            Never
    unfolding insert_partitions insert_partition_tx
    insert_partitions-Ready new_snap [] c = triple_pure tt (λ d r. r)
    insert_partitions-Ready new_snap (part ∷ parts) c =
        triple_then
          (triple_message pg _ (
            triple_bind find_table (λ id.
              calm_cast _ _ c.0 (λ json d r. record { live = r.live; unlisted = r.unlisted }))))
          (λ _. insert_partitions-Ready new_snap parts c.1)

    mark_deleted_all-Ready :
        (new_snap : ℕ) (keys : List Text)
        → Triple
            (Ready table_name row snapshot)
            (mark_deleted_all pg table_name new_snap keys)
            (λ _. (Ready table_name row snapshot))
            Never
    unfolding mark_deleted_all mark_partition_deleted_tx
    mark_deleted_all-Ready new_snap [] = triple_pure tt (λ d r. r)
    mark_deleted_all-Ready new_snap (key ∷ keys) =
        triple_then
          (triple_message pg _ (
            triple_bind find_table
              (λ id. calm_tx pg calm _ (λ d r. record { live = r.live; unlisted = r.unlisted }))))
          (λ _. mark_deleted_all-Ready new_snap keys)

    insert_manifest-Ready :
        (m : ManifestFileRow)
        → Casts pg m.partition_summaries
        → Triple
            (Ready table_name row snapshot)
            (insert_manifest_file_tx pg m)
            (λ _. (Ready table_name row snapshot))
            Never
    unfolding insert_manifest_file_tx
    insert_manifest-Ready m c =
        calm_cast _ _ c (λ json d r. record { live = r.live; unlisted = r.unlisted })

    added_manifest-Ready :
        (new_snap : ℕ) (id spec : ℤ) (parts : List PartitionRow) (count : ℕ)
        → SummariesCast pg (keys_of parts)
        → Triple
            (Ready table_name row snapshot)
            (added_manifest pg table_name new_snap id spec parts count)
            (λ _. (Ready table_name row snapshot))
            Never
    unfolding added_manifest
    added_manifest-Ready new_snap id spec [] count c = triple_pure count (λ d r. r)
    added_manifest-Ready new_snap id spec (p ∷ ps) count c =
        triple_then (triple_message pg _ (insert_manifest-Ready _ c))
          (λ _. triple_pure (suc count) (λ d r. r))

    deleted_manifest-Ready :
        (new_snap : ℕ) (id spec : ℤ) (keys : List Text) (count : ℕ)
        → SummariesCast pg keys
        → Triple
            (Ready table_name row snapshot)
            (deleted_manifest pg table_name new_snap id spec keys count)
            (λ _. (Ready table_name row snapshot))
            Never
    unfolding deleted_manifest
    deleted_manifest-Ready new_snap id spec [] count c = triple_pure count (λ d r. r)
    deleted_manifest-Ready new_snap id spec (k ∷ ks) count c =
        triple_then (triple_message pg _ (insert_manifest-Ready _ c))
          (λ _. triple_pure (suc count) (λ d r. r))

    insert_list-Done :
        (id count : ℤ)
        → Triple
            (Ready table_name row snapshot)
            (insert_manifest_list_tx pg snapshot id count)
            (λ _ d. Unit)
            Never
    unfolding insert_manifest_list_tx
    insert_list-Done id count = calm_tx pg calm _ (λ d r. rw (Post, r.unlisted) tt)

    pub commit_changes-Done :
        (new_snap : ℕ) (id spec : ℤ) (parts : List PartitionRow) (keys : List Text)
        → StatsCast pg parts
        → SummariesCast pg (keys_of parts)
        → SummariesCast pg keys
        → to_int64 new_snap ≡ snapshot
        → Triple
            (Ready table_name row snapshot)
            (commit_changes pg table_name new_snap id spec parts keys)
            (λ _ d. Unit)
            Never
    unfolding commit_changes update_table_snapshot_tx commit_tx
    commit_changes-Done new_snap id spec parts keys stats added_keys deleted_keys same =
        triple_then (insert_partitions-Ready new_snap parts stats) (λ _.
          triple_then (mark_deleted_all-Ready new_snap keys) (λ _.
            triple_bind (added_manifest-Ready new_snap id spec parts 0 added_keys) (λ added.
              triple_bind (deleted_manifest-Ready new_snap id spec keys added deleted_keys)
                (λ count.
                  triple_then {Q = λ _ d. Unit}
                    (triple_message pg _ (rw same (insert_list-Done id _)))
                    (λ _.
                      triple_then
                        (triple_message pg _ (calm_tx pg calm {Q = λ _ d. Unit} _ (λ d r. tt)))
                        (λ _.
                          triple_then {Q = λ _ d. Unit}
                            (triple_message pg _
                              (record { at = λ d r. rw (Post, calm d.statements, commit_tx) tt }))
                            (λ _. triple_pure new_snap (λ d r. tt))))))))
