-- ===== src/Catalog/Commit/Harmless.antt =====
-- The statements of a commit, one by one: none of them changes what an older snapshot shows or, up
-- to the last, a row of `tables`.
use ice_core.Base.{
  ℕ, ◌≡◌, refl, Bool, ◌==◌, nat_eq, Text, Result-cases, Bool-cases, inl, inr, length, filter,
}
use ice_core.Base.Int.{ℤ, ◌<ℤ◌, int_eq}
use ice_core.Db.Rows.{PartitionRow, ManifestFileRow, ManifestListRow, Tables, Sequences}
use ice_core.Db.Exec.{Pg, Sql, Outcome, done, reading, casting}
use ice_core.Db.Select.{update_where}
use ice_core.Db.Partitions.{select_partitions, insert_partition, is_target, mark_deleted}
use ice_core.Db.Snapshots.{insert_snapshot}
use ice_core.Db.Manifests.{insert_manifest_file, insert_manifest_list}
use ice_core.Db.Visible.{select-mark_deleted, select-append}

module _ (pg : Pg) (bound : ℤ) where
  -- The statement leaves `tables`, and what every snapshot below the bound shows.
  pub record Harmless {A : Type 0} (q : Sql A) : Type 0 where
    pub same_tables : (n : ℕ) (t : Tables) (s : Sequences) → (q n t s).1.tables ≡ t.tables
    pub same_view :
        (n : ℕ) (t : Tables) (s : Sequences) (table_id snapshot : ℤ)
        → snapshot <ℤ bound
        → select_partitions pg table_id snapshot (q n t s).1
          ≡ select_partitions pg table_id snapshot t

  pub reading-Harmless : {A : Type 0} (f : Tables → Outcome A) → Harmless (reading f)
  unfolding reading
  reading-Harmless f = record { same_tables = λ n t s. refl; same_view = λ n t s i sn h. refl }

  pub casting-Harmless :
      {A : Type 0} (raw : Text) (f : Text → Sql A)
      → ((json : Text) → Harmless (f json))
      → Harmless (casting pg raw f)
  unfolding casting
  casting-Harmless raw f h = record {
    same_tables = λ n t s. elim (Result-cases (pg.jsonb raw)) [
      | inl (json, good) ↦ rw (good, casting) ((h json).same_tables n t s)
      | inr (e, bad) ↦ rw (bad, casting) refl
    ];
    same_view = λ n t s i sn b. elim (Result-cases (pg.jsonb raw)) [
      | inl (json, good) ↦ rw (good, casting) ((h json).same_view n t s i sn b)
      | inr (e, bad) ↦ rw (bad, casting) refl
    ];
  }

  pub insert_snapshot-Harmless :
      (table_id parent : ℤ) (operation : Text) (added deleted : ℤ)
      → Harmless (insert_snapshot pg table_id parent operation added deleted)
  unfolding select_partitions
  insert_snapshot-Harmless table_id parent operation added deleted = record {
    same_tables = λ n t s. refl;
    same_view = λ n t s i sn h. refl;
  }

  pub insert_partition-Harmless :
      (table_id snapshot : ℤ) (part : PartitionRow) (stats : Text)
      → snapshot ≡ bound
      → Harmless (insert_partition pg table_id snapshot part stats)
  insert_partition-Harmless table_id snapshot part stats e = record {
    same_tables = λ n t s. refl;
    same_view = λ n t s i sn h. select-append pg i sn _ t (rw e h);
  }

  pub mark_deleted-Harmless :
      (target : ℤ) (key : Text) (snapshot : ℤ)
      → snapshot ≡ bound
      → Harmless {A = Unit {0}} (λ n t s. (
        done tt,
        record t {
          partitions =
              update_where (is_target pg target key) (mark_deleted pg snapshot) t.partitions;
        },
        s,
      ))
  mark_deleted-Harmless target key snapshot e = record {
    same_tables = λ n t s. refl;
    same_view = λ n t s i sn h. select-mark_deleted pg i sn target key snapshot t (rw e h);
  }

  pub insert_manifest_file-Harmless :
      (row : ManifestFileRow) (summaries : Text) → Harmless (insert_manifest_file pg row summaries)
  unfolding select_partitions
  insert_manifest_file-Harmless row summaries = record {
    same_tables = λ n t s. refl;
    same_view = λ n t s i sn h. refl;
  }

  list_free : ℤ → Tables → Bool
  list_free snapshot t =
      length (filter (λ (l : ManifestListRow). l.snapshot_id == snapshot) t.manifest_lists) == 0

  pub insert_manifest_list-Harmless :
      (snapshot table_id count : ℤ) → Harmless (insert_manifest_list pg snapshot table_id count)
  unfolding select_partitions list_free
  insert_manifest_list-Harmless snapshot table_id count = record {
    same_tables = λ n t s. elim (Bool-cases (list_free snapshot t)) [
      | inl free ↦ rw free refl
      | inr used ↦ rw used refl
    ];
    same_view = λ n t s i sn h. elim (Bool-cases (list_free snapshot t)) [
      | inl free ↦ rw free refl
      | inr used ↦ rw used refl
    ];
  }
