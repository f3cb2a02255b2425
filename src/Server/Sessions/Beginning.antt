-- ===== src/Server/Sessions/Beginning.antt =====
-- The statements of `BeginTransaction`: what they find, and the row that they write.
use ice_core.Base.{
  ℕ, zero, suc, ◌≡◌, refl, sym, ap, Option, none, some, [], ◌∷◌, ◌++◌, Text, codes, inl, inr,
  if◌then◌else◌, arith,
}
use mathlib.Core.Path.{subst}
use ice_core.Base.Int.{ℤ, pos, negsuc, ltb_ℤ, to_uint64, to_int64}
use ice_core.Db.Rows.{TableRow, Tables, Db}
use ice_core.Db.Exec.{done, reading}
use ice_core.Db.Select.{live_row, live_row-cases}
use ice_core.Db.Tables.{get_table}
use ice_core.Db.Transactions.{insert_transaction}
use ice_core.Db.Triples.{Post, Triple, triple_pure, triple_bind, triple_unless, triple_on_pool}
use ice_core.Catalog.Commit.Outcome.{current_of}
use ice_core.Transaction.{MvccManager}
use ice_core.Server.{Env}
use ice_core.Server.Tables.{present, current_or_zero}
use ice_core.Server.Sound.{Runs, On, runs_answer, runs_refuse}

-- After a transaction has begun there is one more row: it is active, its table is the live one of the
-- name, its snapshot the current one of that table, and its number the next of the sequence.
pub record IsRecorded (client table_name isolation : Text) (before : Tables) (last : ℕ)
    (txn_id read_snapshot : ℕ) (after : Tables) : Type 0 where
  pub table : TableRow
  pub started_at : ℕ
  pub live : live_row table_name before.tables ≡ done table
  pub current : read_snapshot ≡ current_of table_name before.tables
  pub same_number : txn_id ≡ to_uint64 (pos (suc last))
  pub made : after ≡ record before {
    transactions =
        before.transactions
        ++ record {
          txn_id = pos (suc last);
          client_id = client;
          table_id = table.table_id;
          read_snapshot_id = to_int64 read_snapshot;
          status = codes "active";
          isolation_level = isolation;
          started_at = started_at;
          committed_at = none;
        }
          ∷ [];
  }

same_current :
    (c : ℤ)
    → (if ltb_ℤ (pos 0) c then to_uint64 c else 0) ≡ (if ltb_ℤ c (pos 0) then 0 else to_uint64 c)
unfolding to_uint64
same_current (pos zero) = refl
same_current (pos (suc n)) = ground arith
same_current (negsuc n) = ground arith

current_or_zero-current_of :
    (table_name : Text) (before : Tables) (table : TableRow)
    → live_row table_name before.tables ≡ done table
    → current_or_zero table ≡ current_of table_name before.tables
unfolding current_of
current_or_zero-current_of table_name before table live =
    rw (live, current_of) (same_current table.current_snapshot_id)

module _ (env : Env) (table_name : Text) (m0 : MvccManager) (before : Tables) (last : ℕ) where
  -- Nothing is recorded yet; or nothing will be, though a value of the sequence may be taken.
  abbrev pub Unrecorded : MvccManager → Db → Type 0
  Unrecorded m d = (m ≡ m0) × (d.committed ≡ before) × (d.sequences.txn_seq ≡ last)

  abbrev pub Unchanged : MvccManager → Db → Type 0
  Unchanged m d = (m ≡ m0) × (d.committed ≡ before)

  abbrev pub Found : Option TableRow → MvccManager → Db → Type 0
  Found none m d = Unrecorded m d
  Found (some table) m d = (live_row table_name before.tables ≡ done table) × Unrecorded m d

  pub get_table-Found :
      (v : MvccManager)
      → Triple (Unrecorded v) (get_table env.pg table_name) (λ found. Found found v) (Unrecorded v)
  unfolding get_table reading
  get_table-Found v =
      triple_unless none
        (triple_bind {Q = λ table. Found (some table) v}
          (triple_on_pool env.pg _
            (λ d h. elim (live_row-cases table_name d.committed.tables) [
              | inl (r, live) ↦
                  rw (Post, live) (subst (λ t. live_row table_name t.tables ≡ done r) h.1 live, h)
              | inr missing ↦ rw (Post, missing) h
            ])
            (λ d h c. (h.0, h.1, ground (arith, h.2))))
          (λ table. triple_pure (some table) (λ d h. h)))
        (λ d h. h)

  pub present-Found :
      (message : Text) (found : Option TableRow)
      → Runs
          (On (Found found))
          (present message found)
          (λ table. On (Found (some table)))
          (On Unchanged)
  unfolding present
  present-Found message none = runs_refuse _ message (λ s h. (h.0, h.1))
  present-Found message (some table) = runs_answer table (λ s h. h)

  number_of :
      (raw : ℤ)
      → raw ≡ pos (suc last)
      → (if ltb_ℤ raw (pos 0) then 0 else to_uint64 raw) ≡ to_uint64 (pos (suc last))
  number_of raw e = ground (arith, e)

  pub insert_transaction-IsRecorded :
      (client isolation : Text) (table : TableRow) (v : MvccManager)
      → Triple
          (Found (some table) v)
          (insert_transaction env.pg client table.table_id (current_or_zero table) isolation)
          (λ txn_id d.
            (v ≡ m0)
            × IsRecorded client table_name isolation before last txn_id
                (current_or_zero table)
                d.committed)
          (Unchanged v)
  unfolding insert_transaction
  insert_transaction-IsRecorded client isolation table v =
      triple_bind
        {Q = λ raw d.
          (raw ≡ pos (suc last))
          × (v ≡ m0)
          × IsRecorded client table_name isolation before last (to_uint64 (pos (suc last)))
              (current_or_zero table) d.committed}
        (triple_on_pool env.pg _
          (λ d h. (
            ap (λ k. pos (suc k)) h.1.2,
            h.1.0,
            record {
              table = table;
              started_at = env.pg.now d.statements;
              live = h.0;
              current = current_or_zero-current_of table_name before table h.0;
              same_number = refl;
              made = rw (h.1.1, h.1.2) refl;
            },
          ))
          (λ d h c. (h.1.0, h.1.1)))
        (λ raw. triple_pure _ (λ d h. (
          h.1,
          subst
              (λ n.
                IsRecorded client table_name isolation before last n (current_or_zero table)
                  d.committed)
              (sym (number_of raw h.0)) h.2,
        )))
