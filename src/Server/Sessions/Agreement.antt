-- ===== src/Server/Sessions/Agreement.antt =====
-- The transactions in memory and their rows in the database.
mod Tests
use ice_core.Base.{ℕ, ◌≡◌, sym, ap, if◌then◌else◌, Bool, true, false, not, List, Text, codes, ◌==◌}
use ice_core.Base.Int.{to_int64, int_eq}
use ice_core.Db.Rows.{StoredTransaction, Tables, Db}
use ice_core.Db.Select.{update_where}
use ice_core.Db.Transactions.{update_transaction_status, set_status}
use ice_core.Db.Triples.{Triple, triple_on_pool}
use ice_core.Transaction.{MvccManager, register_transaction}
use ice_core.Transaction
use ice_core.Server.{Env, answer, failing}
use ice_core.Server.Tables.{current_or_zero}
use ice_core.Server.Sessions.{
  IsolationLevel, isolation_text, register, commit_in_memory, begin_transaction, record_status,
  commit_transaction,
}
use ice_core.Server.Sessions.Beginning.{
  IsRecorded, Unrecorded, Unchanged, Found, get_table-Found, present-Found,
  insert_transaction-IsRecorded,
}
use ice_core.Server.Sound.{
  Runs, After, On, runs_call, runs_answer, runs_bind, runs_then, runs_demand, runs_to_status,
}

module _ (env : Env) (table_name : Text) (m0 : MvccManager) (before : Tables) (last : ℕ) where
  -- `BeginTransaction` records a transaction in the committed tables and in memory, or it does neither.
  -- After a response the table of the request has a live row; the response gives the current snapshot of
  -- that table; the committed tables are as before but for one more row at the end of `transactions`,
  -- active, with the next number of the sequence, the id of the table, the client and the isolation of
  -- the request and the snapshot of the response; and the manager has registered the number of the
  -- response, which is that of the row (as a `uint64`), at its snapshot. After a status the manager and the committed
  -- tables are as before.
  pub begin_transaction-agrees :
      (now : ℕ) (client : Text) (isolation : IsolationLevel)
      → Runs
          (On (Unrecorded env table_name m0 before last))
          (begin_transaction env now client table_name isolation)
          (λ resp. On (λ m d.
            (m ≡ register_transaction now m0 resp.txn_id resp.read_snapshot_id)
            × IsRecorded client table_name
                (isolation_text isolation)
                before
                last
                resp.txn_id
                resp.read_snapshot_id
                d.committed))
          (On (Unchanged env table_name m0 before last))
  unfolding begin_transaction register
  begin_transaction-agrees now client isolation =
      runs_then (runs_demand _ _ _ (λ s h. (h.0, h.1))) (λ _.
        runs_then (runs_demand _ _ _ (λ s h. (h.0, h.1))) (λ _.
          runs_bind
            (runs_to_status
              (runs_call {Q = Found env table_name m0 before last} env.pg _
                (get_table-Found env table_name m0 before last))
              (λ s h. (h.0, h.1)))
            (λ found. runs_bind (present-Found env table_name m0 before last _ found) (λ table.
              runs_bind
                (runs_call
                  {Q = λ txn_id m d.
                    (m ≡ m0)
                    × IsRecorded client table_name (isolation_text isolation) before last txn_id
                        (current_or_zero table) d.committed}
                  env.pg _
                  (insert_transaction-IsRecorded env table_name m0 before last client
                    (isolation_text isolation) table))
                (λ txn_id.
                  runs_then
                    {Q = λ _. On (λ m d.
                      (m ≡ register_transaction now m0 txn_id (current_or_zero table))
                      × IsRecorded client table_name (isolation_text isolation) before last txn_id
                          (current_or_zero table) d.committed)}
                    (record {
                      at = λ s h. (
                        ap (λ m. register_transaction now m txn_id (current_or_zero table)) h.0,
                        h.1,
                      );
                    })
                    (λ _. runs_answer _ (λ s h. h)))))))

module _ (env : Env) (now txn_id : ℕ) (m0 : MvccManager) (d0 : Db) where
  -- What the manager answers to a commit, and what it keeps.
  abbrev pub granted : Bool
  granted = (Transaction.commit_transaction now m0 txn_id).1

  abbrev pub forgotten : MvccManager
  forgotten = (Transaction.commit_transaction now m0 txn_id).0

  -- The rows after the response.
  abbrev pub marked : Bool → List StoredTransaction
  marked success =
      if success
      then update_where (λ r. r.txn_id == to_int64 txn_id)
          (set_status env.pg (codes "committed") d0.statements) d0.committed.transactions
      else d0.committed.transactions

  update_status-marked :
      (v : MvccManager)
      → Triple
          (λ d. (v ≡ forgotten) × (d ≡ d0))
          (update_transaction_status env.pg txn_id (codes "committed"))
          (λ _ d. (v ≡ forgotten) × (d.committed.transactions ≡ marked true))
          (λ d. (v ≡ forgotten) × (d.committed.transactions ≡ d0.committed.transactions))
  unfolding update_transaction_status
  update_status-marked v =
      triple_on_pool env.pg _
        (λ d h. (
          h.0,
          ap
              (λ (d : Db).
                update_where (λ (r : StoredTransaction). r.txn_id == to_int64 txn_id)
                  (set_status env.pg (codes "committed") d.statements) d.committed.transactions)
              h.1,
        ))
        (λ d h c. (h.0, ap (λ (d : Db). d.committed.transactions) h.1))

  after_grant :
      (c : Bool)
      → c ≡ granted
      → Runs
          (On (λ m d. (m ≡ forgotten) × (d ≡ d0)))
          (if c
            then record_status env txn_id (codes "committed")
            else answer (failing (codes "transaction not found or expired")))
          (λ resp. On (λ m d.
            (resp.success ≡ granted)
            × (m ≡ forgotten)
            × (d.committed.transactions ≡ marked resp.success)))
          (On (λ m d.
            (granted ≡ true)
            × (m ≡ forgotten)
            × (d.committed.transactions ≡ d0.committed.transactions)))
  unfolding record_status
  after_grant true e =
      runs_then
        (runs_to_status
          (runs_call {P = λ m d. (m ≡ forgotten) × (d ≡ d0)}
            {E = λ m d. (m ≡ forgotten) × (d.committed.transactions ≡ d0.committed.transactions)}
            {Q = λ _ m d. (m ≡ forgotten) × (d.committed.transactions ≡ marked true)} env.pg _
            update_status-marked)
          (λ s h. (sym e, h.0, h.1)))
        (λ _. runs_answer _ (λ s h. (e, h.0, h.1)))
  after_grant false e =
      runs_answer _ (λ s h. (e, h.0, ap (λ (d : Db). d.committed.transactions) h.1))

  -- `CommitTransaction` answers success exactly when the manager grants the commit. The manager has
  -- forgotten the transaction whatever the reply, as its commit does. After a success the rows of that
  -- number are marked as committed; after a failure that is answered, and after a status, which comes only
  -- if the commit was granted, all rows are as before.
  pub commit_transaction-agrees :
      Runs
        (On (λ m d. (m ≡ m0) × (d ≡ d0)))
        (commit_transaction env now txn_id)
        (λ resp. On (λ m d.
          (resp.success ≡ granted)
          × (m ≡ forgotten)
          × (d.committed.transactions ≡ marked resp.success)))
        (On (λ m d.
          (granted ≡ true)
          × (m ≡ forgotten)
          × (d.committed.transactions ≡ d0.committed.transactions)))
  unfolding commit_transaction commit_in_memory
  commit_transaction-agrees =
      runs_bind {Q = λ c. On (λ m d. (c ≡ granted) × (m ≡ forgotten) × (d ≡ d0))}
        (record {
          at = λ s h. (
            ap (λ m. (Transaction.commit_transaction now m txn_id).1) h.0,
            ap (λ m. (Transaction.commit_transaction now m txn_id).0) h.0,
            h.1,
          );
        })
        (λ c. record { at = λ s h. (after_grant c h.0).at s (h.1, h.2) })
