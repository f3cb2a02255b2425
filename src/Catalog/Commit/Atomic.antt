-- ===== src/Catalog/Commit/Atomic.antt =====
-- What a caller of `CommitSnapshot` may rely on: all of the commit or nothing of it, older snapshots
-- stay as they are, and of two commits on one parent the second is refused.
use ice_core.Base.{
  ℕ, suc, ◌<◌, ◌≤◌, ◌^◌, ◌≡◌, refl, sym, ap, ◌∙◌, List, [], ◌∷◌, text_eq, arith, Text,
}
use mathlib.Core.Path.{subst}
use ice_core.Base.Int.{ℤ, pos, ◌<ℤ◌, to_int64_small, to_uint64_small}
use ice_core.Db.Rows.{PartitionRow, StoredTable, TableRow, Db}
use ice_core.Db.Exec.{Pg, Outcome, DbError, done, raised}
use ice_core.Db.Select.{first_row, update_where, live_row}
use ice_core.Db.Partitions.{select_partitions}
use ice_core.Db.Triples.{Post}
use ice_core.Catalog.Commit.{commit_to_db}
use ice_core.Catalog.Commit.Isolation.{Untouched}
use ice_core.Catalog.Commit.Outcome.{pointed, current_of}
use ice_core.Catalog.Commit.Effect.{Applied, commit_to_db-Applied}

-- The pointer that was moved is the one that is read.
pub current_of-pointed :
    (table_name : Text) (snapshot : ℕ) (ts : List StoredTable) (r : TableRow)
    → snapshot < 2 ^ 63
    → live_row table_name ts ≡ done r
    → current_of table_name (pointed table_name (pos snapshot) ts) ≡ snapshot
unfolding current_of live_row update_where first_row
current_of-pointed table_name snapshot [] r small live = ground (arith, live)
current_of-pointed table_name snapshot (t ∷ ts) r small live =
    ground (
      arith,
      to_uint64_small snapshot small,
      live,
      current_of-pointed table_name snapshot ts r small,
    )

module _ (pg : Pg) (d0 : Db) (table_name : Text) (small : suc d0.sequences.snapshot_seq < 2 ^ 63)
    (parent : ℕ) (operation : Text) (parts : List PartitionRow) (keys : List Text) where
  post :
      Post
        (Applied pg d0 table_name small parent operation parts keys)
        (Untouched pg d0 (pos (suc d0.sequences.snapshot_seq)))
        (commit_to_db pg table_name parent operation parts keys d0)
  post =
      (commit_to_db-Applied pg d0 table_name small parent operation parts keys).at d0
        (record { committed = refl; sequences = refl })

  -- A `CommitSnapshot` that succeeds was given the current snapshot of the table as its parent; it
  -- returns the next snapshot id, and in `tables` it moves the pointer of this table to it and
  -- changes nothing else. (The snapshot sequence stays below 2^63.)
  pub commit_to_db-success :
      (a : ℕ) (d : Db)
      → commit_to_db pg table_name parent operation parts keys d0 ≡ (done a, d)
      → (parent ≡ current_of table_name d0.committed.tables)
        × (a ≡ suc d0.sequences.snapshot_seq)
        × (d.committed.tables ≡ pointed table_name (pos a) d0.committed.tables)
  commit_to_db-success a d e = (
    done_case.current,
    done_case.fresh,
    done_case.settled.tables
        ∙ ap (λ i. pointed table_name i d0.committed.tables)
            (to_int64_small _ small ∙ ap pos (sym done_case.fresh)),
  )
    where
      done_case : Applied pg d0 table_name small parent operation parts keys a d
      done_case =
          subst
            (Post (Applied pg d0 table_name small parent operation parts keys)
              (Untouched pg d0 (pos (suc d0.sequences.snapshot_seq))))
            e post

  -- A `CommitSnapshot` that fails, at whatever statement or test, leaves the committed tables as they
  -- were. (The snapshot sequence stays below 2^63.)
  pub commit_to_db-failure :
      (x : DbError) (d : Db)
      → commit_to_db pg table_name parent operation parts keys d0 ≡ (raised x, d)
      → d.committed ≡ d0.committed
  commit_to_db-failure x d e =
      subst
        (Post (Applied pg d0 table_name small parent operation parts keys)
          (Untouched pg d0 (pos (suc d0.sequences.snapshot_seq))))
        e post

  -- Whether a `CommitSnapshot` succeeds or fails, a read of any table at a snapshot older than the new
  -- one lists the same partitions, in the same order, after it as before it. (The snapshot sequence
  -- stays below 2^63.)
  pub commit_to_db-isolation :
      (table_id snapshot : ℤ)
      → snapshot <ℤ pos (suc d0.sequences.snapshot_seq)
      → select_partitions pg table_id snapshot
          (commit_to_db pg table_name parent operation parts keys d0).1.committed
        ≡ select_partitions pg table_id snapshot d0.committed
  commit_to_db-isolation table_id snapshot older =
      go (commit_to_db pg table_name parent operation parts keys d0).0
        (commit_to_db pg table_name parent operation parts keys d0).1 post
    where
      go :
          (o : Outcome ℕ) (d : Db)
          → Post
              (Applied pg d0 table_name small parent operation parts keys)
              (Untouched pg d0 (pos (suc d0.sequences.snapshot_seq)))
              (o, d)
          → select_partitions pg table_id snapshot d.committed
            ≡ select_partitions pg table_id snapshot d0.committed
      go (done a) d p = p.settled.view table_id snapshot older
      go (raised x) d p = ap (select_partitions pg table_id snapshot) p

-- Of two commits to a live table on the same parent, whose id the sequence has given before, the
-- second is refused once the first has succeeded, and changes nothing that is committed. (The
-- snapshot sequence stays below 2^63.)
pub commit_to_db-conflict :
    (pg : Pg) (d0 : Db) (table_name : Text) (r : TableRow) (parent a : ℕ) (operation : Text)
    (parts : List PartitionRow) (keys : List Text) (d : Db) (operation' : Text)
    (parts' : List PartitionRow) (keys' : List Text)
    → suc d0.sequences.snapshot_seq < 2 ^ 63
    → suc d.sequences.snapshot_seq < 2 ^ 63
    → live_row table_name d0.committed.tables ≡ done r
    → parent ≤ d0.sequences.snapshot_seq
    → commit_to_db pg table_name parent operation parts keys d0 ≡ (done a, d)
    → (x : DbError) × (d' : Db) × (commit_to_db pg table_name parent operation' parts' keys' d
        ≡ (raised x, d'))
      × (d'.committed ≡ d.committed)
commit_to_db-conflict pg d0 table_name r parent a operation parts keys d operation' parts' keys'
      small small' live old e =
    go (commit_to_db pg table_name parent operation' parts' keys' d) refl
  where
    first :
        (parent ≡ current_of table_name d0.committed.tables)
        × (a ≡ suc d0.sequences.snapshot_seq)
        × (d.committed.tables ≡ pointed table_name (pos a) d0.committed.tables)
    first = commit_to_db-success pg d0 table_name small parent operation parts keys a d e

    moved : current_of table_name d.committed.tables ≡ a
    moved =
        ap (current_of table_name) first.2
        ∙ current_of-pointed table_name a d0.committed.tables r (rw first.1 small) live

    go :
        (q : Outcome ℕ × Db)
        → commit_to_db pg table_name parent operation' parts' keys' d ≡ q
        → (x : DbError) × (d' : Db) × (commit_to_db pg table_name parent operation' parts' keys' d
            ≡ (raised x, d'))
          × (d'.committed ≡ d.committed)
    go (raised x, d') f = (
      x,
      d',
      f,
      commit_to_db-failure pg d table_name small' parent operation' parts' keys' x d' f,
    )
    go (done b, d') f = ground (
      arith,
      (commit_to_db-success pg d table_name small' parent operation' parts' keys' b d' f).0,
      moved,
      first.1,
      old,
    )
