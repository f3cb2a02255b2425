-- ===== src/Catalog/Commit/Progress.antt =====
-- A `CommitSnapshot` on the current snapshot succeeds where no statement fails.
use ice_core.Base.{
  ℕ, suc, ◌<◌, ◌^◌, ◌≡◌, refl, sym, ap, ◌∙◌, true, none, List, nat_eq, nat_beq_iff, arith, Text,
  if◌then◌else◌,
}
use mathlib.Core.Path.{subst}
use ice_core.Base.Int.{ℤ, pos, ltb_ℤ, int_eq, to_int64, to_uint64, to_int64_small, to_uint64_small}
use ice_core.Db.Rows.{PartitionRow, TableRow, Db}
use ice_core.Db.Exec.{Pg, Outcome, done, raised, reading, begin_tx}
use ice_core.Db.Select.{live_row}
use ice_core.Db.Tables.{get_table_spec_version, get_current_snapshot}
use ice_core.Db.Snapshots.{insert_snapshot_tx}
use ice_core.Db.Calm.{Never, calm_tx, calm_pool, holding}
use ice_core.Db.Live.{select_live}
use ice_core.Db.Triples.{
  Post, Triple, triple_pure, triple_bind, triple_then, triple_message, triple_unless, triple_given,
  sent_tx,
}
use ice_core.Transaction.{validate_parent_snapshot}
use ice_core.Catalog.Commit.{commit_in_tx, commit_to_db}
use ice_core.Catalog.Commit.Ready.{
  free, Ready, StatsCast, SummariesCast, keys_of, commit_changes-Done,
}
use ice_core.Catalog.Commit.Outcome.{current_of}

module _ (pg : Pg) (calm : (n : ℕ) → pg.fault n ≡ none) (table_name : Text) (row : TableRow) where
  module _ (seq : ℕ) (small : suc seq < 2 ^ 63) where
    abbrev new_id : ℤ
    new_id = pos (suc seq)

    -- No transaction is open yet; or one has just begun.
    record Idle (d : Db) : Type 0 where
      live : live_row table_name d.committed.tables ≡ done row
      unlisted : free new_id d.committed ≡ true
      number : d.sequences.snapshot_seq ≡ seq

    record Opened (d : Db) : Type 0 where
      live : live_row table_name d.pending.tables ≡ done row
      unlisted : free new_id d.pending ≡ true
      number : d.sequences.snapshot_seq ≡ seq

    numbered : (raw : ℤ) → raw ≡ new_id → (if ltb_ℤ raw (pos 0) then 0 else to_uint64 raw) ≡ suc seq
    numbered raw e = rw e (ground (arith, to_uint64_small (suc seq) small))

    insert_snapshot_tx-Ready :
        (parent : ℕ) (operation : Text) (added deleted : ℤ)
        → Triple Opened
            (insert_snapshot_tx pg table_name parent operation added deleted)
            (λ a d. (a.0 ≡ suc seq) × Ready table_name row new_id d)
            Never
    unfolding insert_snapshot_tx
    insert_snapshot_tx-Ready parent operation added deleted =
        triple_unless (0, pos 0)
          (triple_bind {Q = λ _. Opened}
            (calm_tx pg calm _ (λ d r.
              subst (λ o. Post (λ _. Opened) Never (sent_tx d o))
                (sym (select_live pg table_name row d.begun d.pending d.sequences r.live))
                (record { live = r.live; unlisted = r.unlisted; number = r.number })))
            (λ id.
              triple_bind {Q = λ raw d. (raw ≡ new_id) × Ready table_name row new_id d}
                (calm_tx pg calm _ (λ d r. (
                  ap (λ n. pos (suc n)) r.number,
                  record { live = r.live; unlisted = r.unlisted },
                )))
                (λ raw. triple_given λ same. triple_pure _ (λ d r. (numbered raw same, r)))))
          (λ d impossible. absurd impossible)

    commit_in_tx-Done :
        (parent : ℕ) (operation : Text) (spec : ℤ) (parts : List PartitionRow) (keys : List Text)
        → StatsCast pg parts
        → SummariesCast pg (keys_of parts)
        → SummariesCast pg keys
        → Triple Idle
            (commit_in_tx pg table_name parent operation spec parts keys)
            (λ _ d. Unit)
            Never
    unfolding commit_in_tx begin_tx
    commit_in_tx-Done parent operation spec parts keys stats added_keys deleted_keys =
        triple_then {Q = λ _. Opened}
          (triple_message pg _ (record {
            at = λ d r.
                rw (Post, calm d.statements, begin_tx)
                  (record { live = r.live; unlisted = r.unlisted; number = r.number });
          }))
          (λ _.
            triple_bind (triple_message pg _ (insert_snapshot_tx-Ready parent operation _ _)) (λ a.
              triple_then
                (holding {P = λ d. (a.0 ≡ suc seq) × Ready table_name row new_id d} _ _
                  (λ d r. ground (arith, r.0)))
                (λ _. triple_given λ same.
                  commit_changes-Done pg calm table_name row new_id a.0 a.1 spec parts keys stats
                    added_keys deleted_keys (ap to_int64 same ∙ to_int64_small (suc seq) small))))

    shown : ℕ
    shown = if ltb_ℤ row.current_snapshot_id (pos 0) then 0 else to_uint64 row.current_snapshot_id

    read_spec-Idle : Triple Idle (get_table_spec_version pg table_name) (λ _. Idle) Never
    unfolding get_table_spec_version reading
    read_spec-Idle =
        triple_unless (pos 0)
          (calm_pool pg calm _ (λ d r.
            rw (Post, r.live) (record { live = r.live; unlisted = r.unlisted; number = r.number })))
          (λ d impossible. absurd impossible)

    read_current-Idle :
        Triple Idle (get_current_snapshot pg table_name) (λ a d. (a ≡ shown) × Idle d) Never
    unfolding get_current_snapshot reading shown
    read_current-Idle =
        triple_unless 0
          (triple_bind {Q = λ id d. (id ≡ row.current_snapshot_id) × Idle d}
            (calm_pool pg calm _ (λ d r.
              rw (Post, r.live)
                (refl, record { live = r.live; unlisted = r.unlisted; number = r.number })))
            (λ id. triple_given λ same. triple_pure _ (λ d r. (ground (arith, same), r))))
          (λ d impossible. absurd impossible)

    commit_to_db-Done :
        (parent : ℕ) (operation : Text) (parts : List PartitionRow) (keys : List Text)
        → StatsCast pg parts
        → SummariesCast pg (keys_of parts)
        → SummariesCast pg keys
        → parent ≡ shown
        → Triple Idle (commit_to_db pg table_name parent operation parts keys) (λ _ d. Unit) Never
    unfolding commit_to_db validate_parent_snapshot
    commit_to_db-Done parent operation parts keys stats added_keys deleted_keys same =
        triple_bind (triple_message pg _ read_spec-Idle) (λ spec.
          triple_bind (triple_message pg _ read_current-Idle) (λ current.
            triple_then
              (holding {P = λ d. (current ≡ shown) × Idle d} _ _
                (λ d r. (nat_beq_iff parent current).1 (same ∙ sym r.0)))
              (λ _. triple_given λ e.
                commit_in_tx-Done parent operation spec parts keys stats added_keys deleted_keys)))

-- Where no statement fails, a `CommitSnapshot` to a live table whose parent is the current snapshot of
-- the table succeeds, if the texts that it marshals cast to JSONB, which are the column statistics of
-- each added file and the summaries of the manifests that have files, and if no manifest list has the
-- next snapshot id. (The snapshot sequence stays below 2^63.)
pub commit_to_db-completes :
    (pg : Pg) (table_name : Text) (row : TableRow) (d : Db) (parent : ℕ) (operation : Text)
    (parts : List PartitionRow) (keys : List Text)
    → ((n : ℕ) → pg.fault n ≡ none)
    → StatsCast pg parts
    → SummariesCast pg (keys_of parts)
    → SummariesCast pg keys
    → suc d.sequences.snapshot_seq < 2 ^ 63
    → live_row table_name d.committed.tables ≡ done row
    → parent ≡ current_of table_name d.committed.tables
    → free (pos (suc d.sequences.snapshot_seq)) d.committed ≡ true
    → (a : ℕ) × (d' : Db) × (commit_to_db pg table_name parent operation parts keys d
        ≡ (done a, d'))
unfolding current_of shown
commit_to_db-completes pg table_name row d parent operation parts keys calm stats added_keys
      deleted_keys small live current unlisted =
    finished (commit_to_db pg table_name parent operation parts keys d) (
      (commit_to_db-Done pg calm table_name row d.sequences.snapshot_seq small parent operation
          parts keys stats added_keys deleted_keys (rw (live, current_of) at current)).at
        d (record { live = live; unlisted = unlisted; number = refl }))
  where
    finished :
        (r : Outcome ℕ × Db)
        → Post (λ _ d. Unit) (λ d. ⊥) r
        → (a : ℕ) × (d' : Db) × (r ≡ (done a, d'))
    finished (done a, d') q = (a, d', refl)
    finished (raised e, d') q = absurd q
