-- ===== src/Catalog/Commit/Outcome.antt =====
-- What `CommitSnapshot` leaves in the database, on every path.
use ice_core.Base.{
  ℕ, suc, ◌≡◌, refl, ap, List, nat_eq, Text, if◌then◌else◌, Option-cases, ◌⊎◌, inl, inr, arith,
}
use ice_core.Base.Int.{ℤ, pos, ◌<ℤ◌, ltb_ℤ, to_int64, to_uint64}
use ice_core.Db.Rows.{PartitionRow, StoredTable, Tables, Db}
use ice_core.Db.Exec.{Pg, done, raised, failed, pure, ◌>>=◌, unless_found, reading, on_pool}
use ice_core.Db.Select.{update_where, is_live, live_row, live_row-cases}
use ice_core.Db.Tables.{update_table_snapshot_tx, get_current_snapshot}
use ice_core.Db.Partitions.{select_partitions}
use ice_core.Db.Manifests.{insert_manifest_list_tx}
use ice_core.Db.Triples.{
  Triple, triple_pure, triple_bind, triple_then, triple_message, triple_on_tx, triple_commit,
}
use ice_core.Catalog.Commit.{commit_changes}
use ice_core.Catalog.Commit.Harmless.{insert_manifest_list-Harmless}
use ice_core.Catalog.Commit.Isolation.{
  Unmoved, Untouched, Harmless-step, insert_partitions-Unmoved, mark_deleted_all-Unmoved,
  added_manifest-Unmoved, deleted_manifest-Unmoved,
}

-- The rows of `tables` after the pointer of one table has moved.
abbrev pub pointed : Text → ℤ → List StoredTable → List StoredTable
pointed table_name snapshot =
    update_where (is_live table_name)
      (λ r. record r { row = record r.row { current_snapshot_id = snapshot } })

-- The current snapshot of a table, 0 for one that is not there.
unfoldable pub current_of : Text → List StoredTable → ℕ
current_of table_name ts = elim (live_row table_name ts) [
  | done r ↦ if ltb_ℤ r.current_snapshot_id (pos 0) then 0 else to_uint64 r.current_snapshot_id
  | raised e ↦ 0
]

abbrev pub sent : Db → Db
sent d = record d { statements = suc d.statements }

-- `GetCurrentSnapshot` answers that or an error, and changes nothing.
pub get_current_snapshot-current_of :
    (pg : Pg) (table_name : Text) (d : Db)
    → (get_current_snapshot pg table_name d
        ≡ (done (current_of table_name d.committed.tables), sent d))
      ⊎ ((e : Text) × (get_current_snapshot pg table_name d ≡ (raised (failed e), sent d)))
unfolding get_current_snapshot current_of unless_found ◌>>=◌ on_pool reading pure
get_current_snapshot-current_of pg table_name d = elim (Option-cases (pg.fault d.statements)) [
  | inl no_fault ↦ elim (live_row-cases table_name d.committed.tables) [
    | inl (r, live) ↦ inl (ground (arith, no_fault, live))
    | inr missing ↦ inl (ground (arith, no_fault, missing))
  ]
  | inr (e, fault) ↦ inr (e, ground (arith, fault))
]

module _ (pg : Pg) (d0 : Db) (bound : ℤ) (table_name : Text) where
  pub record Moved (snapshot : ℤ) (committed t : Tables) : Type 0 where
    pub before : committed ≡ d0.committed
    pub tables : t.tables ≡ pointed table_name snapshot d0.committed.tables
    pub view :
        (table_id at : ℤ)
        → at <ℤ bound
        → select_partitions pg table_id at t ≡ select_partitions pg table_id at d0.committed

  update_table_snapshot_tx-Moved :
      (new_snap : ℕ)
      → Triple
          (Unmoved pg d0 bound)
          (update_table_snapshot_tx pg table_name new_snap)
          (λ _ d. Moved (to_int64 new_snap) d.committed d.pending)
          (Untouched pg d0 bound)
  unfolding update_table_snapshot_tx select_partitions
  update_table_snapshot_tx-Moved new_snap =
      triple_on_tx pg _
        (λ d u. record {
          before = u.committed;
          tables = ap (pointed table_name (to_int64 new_snap)) u.tables;
          view = u.view;
        })
        (λ d u c. u.committed)

  -- After the commit of the transaction.
  pub record Settled (snapshot : ℤ) (d : Db) : Type 0 where
    pub tables : d.committed.tables ≡ pointed table_name snapshot d0.committed.tables
    pub view :
        (table_id at : ℤ)
        → at <ℤ bound
        → select_partitions pg table_id at d.committed
          ≡ select_partitions pg table_id at d0.committed

  pub commit_changes-Settled :
      (new_snap : ℕ) (table_id spec : ℤ) (parts : List PartitionRow) (keys : List Text)
      → to_int64 new_snap ≡ bound
      → Triple
          (Unmoved pg d0 bound)
          (commit_changes pg table_name new_snap table_id spec parts keys)
          (λ a d. (a ≡ new_snap) × Settled (to_int64 new_snap) d)
          (Untouched pg d0 bound)
  unfolding commit_changes insert_manifest_list_tx
  commit_changes-Settled new_snap table_id spec parts keys fits =
      triple_then (insert_partitions-Unmoved pg d0 bound table_name new_snap fits parts) (λ _.
        triple_then (mark_deleted_all-Unmoved pg d0 bound table_name new_snap fits keys) (λ _.
          triple_bind
            (added_manifest-Unmoved pg d0 bound table_name new_snap fits table_id spec parts 0)
            (λ added.
              triple_bind
                (deleted_manifest-Unmoved pg d0 bound table_name new_snap fits table_id spec keys
                  added)
                (λ count.
                  triple_then
                    (triple_message pg _ (
                      Harmless-step pg d0 bound _
                        (insert_manifest_list-Harmless pg bound _ table_id _)))
                    (λ _.
                      triple_then (triple_message pg _ (update_table_snapshot_tx-Moved new_snap))
                        (λ _.
                          triple_then
                            (triple_message pg _ (
                              triple_commit {Q = λ _. Settled (to_int64 new_snap)} pg
                                (λ d m. record { tables = m.tables; view = m.view })
                                (λ d m. m.before)))
                            (λ _. triple_pure new_snap (λ d m. (refl, m)))))))))
