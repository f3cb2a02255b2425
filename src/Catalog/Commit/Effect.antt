-- ===== src/Catalog/Commit/Effect.antt =====
-- `CommitSnapshot` from its first statement: what the database holds after it, on every path.
use ice_core.Base.{
  ℕ, suc, ◌<◌, ◌^◌, ◌≡◌, refl, ap, ◌∙◌, List, nat_eq, nat_beq_iff, arith, Text, if◌then◌else◌, ◌⊎◌,
  inl, inr,
}
use ice_core.Base.Int.{ℤ, pos, ltb_ℤ, to_int64, to_uint64, to_int64_small, to_uint64_small}
use ice_core.Db.Rows.{PartitionRow, Tables, Sequences, Db}
use ice_core.Db.Exec.{Pg, reading}
use ice_core.Db.Tables.{get_current_snapshot, get_table_spec_version}
use ice_core.Db.Partitions.{select_partitions}
use ice_core.Db.Snapshots.{insert_snapshot_tx}
use ice_core.Db.Triples.{
  Triple, triple_pure, triple_bind, triple_then, triple_message, triple_unless, triple_require,
  triple_on_tx, triple_begin, triple_weaken, triple_given, triple_to, triple_read_tx,
  triple_read_pool,
}
use ice_core.Transaction.{validate_parent_snapshot}
use ice_core.Catalog.Commit.{commit_in_tx, commit_to_db}
use ice_core.Catalog.Commit.Isolation.{Unmoved, Untouched}
use ice_core.Catalog.Commit.Outcome.{
  current_of, get_current_snapshot-current_of, Settled, commit_changes-Settled,
}

module _ (pg : Pg) (d0 : Db) (table_name : Text)
    (small : suc d0.sequences.snapshot_seq < 2 ^ 63) where
  -- The id that the sequence gives next.
  abbrev pub next : ℕ
  next = suc d0.sequences.snapshot_seq

  -- Only statements that read were sent.
  pub record Fresh (d : Db) : Type 0 where
    pub committed : d.committed ≡ d0.committed
    pub sequences : d.sequences ≡ d0.sequences

  record Begun (d : Db) : Type 0 where
    committed : d.committed ≡ d0.committed
    pending : d.pending ≡ d0.committed
    sequences : d.sequences ≡ d0.sequences

  insert_snapshot_tx-Unmoved :
      (parent : ℕ) (operation : Text) (added deleted : ℤ)
      → Triple Begun
          (insert_snapshot_tx pg table_name parent operation added deleted)
          (λ a d. ((a.0 ≡ 0) ⊎ (a.0 ≡ next)) × Unmoved pg d0 (pos next) d)
          (Unmoved pg d0 (pos next))
  unfolding insert_snapshot_tx select_partitions reading
  insert_snapshot_tx-Unmoved parent operation added deleted =
      triple_unless (0, pos 0)
        (triple_bind
          (triple_weaken
            (triple_read_tx {P = Begun} pg _ (λ d b. record {
              committed = b.committed;
              pending = b.pending;
              sequences = b.sequences;
            }))
            unmoved)
          (λ table_id.
            triple_bind {Q = λ raw d. (raw ≡ pos next) × Unmoved pg d0 (pos next) d}
              (triple_on_tx pg _
                (λ d b. (
                  ap (λ (s : Sequences). pos (suc s.snapshot_seq)) b.sequences,
                  record {
                    committed = b.committed;
                    tables = ap (λ (t : Tables). t.tables) b.pending;
                    view = λ i sn h. ap (select_partitions pg i sn) b.pending;
                  },
                ))
                (λ d b c. record {
                  committed = b.committed;
                  tables = ap (λ (t : Tables). t.tables) b.pending;
                  view = λ i sn h. ap (select_partitions pg i sn) b.pending;
                }))
              (λ raw. triple_given λ same. triple_pure _ (λ d u. (inr (number raw same), u)))))
        (λ d u. (inl refl, u))
    where
      unmoved : (d : Db) → Begun d → Unmoved pg d0 (pos next) d
      unmoved d b = record {
        committed = b.committed;
        tables = ap (λ (t : Tables). t.tables) b.pending;
        view = λ i sn h. ap (select_partitions pg i sn) b.pending;
      }

      number : (raw : ℤ) → raw ≡ pos next → (if ltb_ℤ raw (pos 0) then 0 else to_uint64 raw) ≡ next
      number raw same = rw same (ground (arith, to_uint64_small next small))

  pub commit_in_tx-Settled :
      (parent : ℕ) (operation : Text) (spec : ℤ) (parts : List PartitionRow) (keys : List Text)
      → Triple Fresh
          (commit_in_tx pg table_name parent operation spec parts keys)
          (λ a d. (a ≡ next) × Settled pg d0 (pos next) table_name (to_int64 next) d)
          (Untouched pg d0 (pos next))
  unfolding commit_in_tx
  commit_in_tx-Settled parent operation spec parts keys =
      triple_then
        (triple_message pg _ (
          triple_begin {Q = λ _. Begun} pg
            (λ d f. record {
              committed = f.committed;
              pending = f.committed;
              sequences = f.sequences;
            })
            (λ d f. f.committed)))
        (λ _.
          triple_bind
            (triple_message pg _ (
              triple_weaken (insert_snapshot_tx-Unmoved parent operation _ _) (λ d u. u.committed)))
            (λ a.
              triple_then
                (triple_require {Q = λ _ d. (a.0 ≡ next) × Unmoved pg d0 (pos next) d} _ _
                  (λ d b u. (ground (arith, b, u.0), u.1)) (λ d u. u.1.committed))
                (λ _. triple_given λ same. rw same (
                  commit_changes-Settled pg d0 (pos next) table_name next a.1 spec parts keys
                    (to_int64_small next small)))))

  read_spec-Fresh : Triple Fresh (get_table_spec_version pg table_name) (λ _. Fresh) Fresh
  unfolding get_table_spec_version
  read_spec-Fresh =
      triple_unless (pos 0)
        (triple_read_pool pg _ (λ d f. record { committed = f.committed; sequences = f.sequences }))
        (λ d f. f)

  read_current-Fresh :
      Triple Fresh
        (get_current_snapshot pg table_name)
        (λ a d. (a ≡ current_of table_name d0.committed.tables) × Fresh d)
        Fresh
  read_current-Fresh = record {
    at = λ d f. elim (get_current_snapshot-current_of pg table_name d) [
      | inl fine ↦ rw fine (
        ap (λ (t : Tables). current_of table_name t.tables) f.committed,
        record { committed = f.committed; sequences = f.sequences },
      )
      | inr (e, fault) ↦ rw fault (record { committed = f.committed; sequences = f.sequences })
    ];
  }

  module _ (parent : ℕ) (operation : Text) (parts : List PartitionRow) (keys : List Text) where
    -- What a call that succeeds has done.
    pub record Applied (a : ℕ) (d : Db) : Type 0 where
      pub current : parent ≡ current_of table_name d0.committed.tables
      pub fresh : a ≡ next
      pub settled : Settled pg d0 (pos next) table_name (to_int64 next) d

    pub commit_to_db-Applied :
        Triple Fresh
          (commit_to_db pg table_name parent operation parts keys)
          Applied
          (Untouched pg d0 (pos next))
    unfolding commit_to_db validate_parent_snapshot
    commit_to_db-Applied =
        triple_bind (triple_message pg _ (triple_weaken read_spec-Fresh (λ d f. f.committed)))
          (λ spec.
            triple_bind
              (triple_message pg _ (triple_weaken read_current-Fresh (λ d f. f.committed)))
              (λ current.
                triple_then
                  (triple_require
                    {Q = λ _ d. (parent ≡ current_of table_name d0.committed.tables) × Fresh d} _ _
                    (λ d b f. ((nat_beq_iff parent current).0 b ∙ f.0, f.1)) (λ d f. f.1.committed))
                  (λ _. triple_given λ same.
                    triple_to (commit_in_tx-Settled parent operation spec parts keys)
                      (λ a d q. record { current = same; fresh = q.0; settled = q.1 }))))
