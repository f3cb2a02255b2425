-- ===== src/Server/Sessions.antt =====
-- internal/server/metadata_server.go: the handlers of transactions, and the cleanup of the expired
-- ones. `now` is the time of the call.
pub mod Beginning
pub mod Agreement
use ice_core.Base.{ℕ, Bool, not, some, [], ◌∷◌, ◌++◌, ◌==◌, text_eq, if◌then◌else◌, Text, codes}
use ice_core.Base.Int.{ℤ}
use ice_core.Db.Tables.{get_table}
use ice_core.Db.Transactions.{insert_transaction, update_transaction_status}
use ice_core.Transaction
use ice_core.Server.{
  Env, Handler, OperationResponse, response, invalid_argument, answer, ◌>>=◌, ◌>>◌, demand, query,
  succeeded, failing,
}
use ice_core.Server.Tables.{named, present, current_or_zero}

-- The enum of the protocol, which is open.
pub data IsolationLevel : Type 0 where
  snapshot : IsolationLevel
  read_committed : IsolationLevel
  unrecognized : ℤ → IsolationLevel

pub record TransactionResponse : Type 0 where
  pub txn_id : ℕ
  pub read_snapshot_id : ℕ

abbrev pub isolation_text : IsolationLevel → Text
isolation_text snapshot = codes "snapshot"
isolation_text read_committed = codes "read_committed"
isolation_text (unrecognized n) = codes "snapshot"

-- `s.mvcc.RegisterTransaction`, `CommitTransaction` and `AbortTransaction`
unfoldable pub register : ℕ → ℕ → ℕ → Handler (Unit {0})
register now txn_id read_snapshot s = some (
  response tt,
  record s { mvcc = Transaction.register_transaction now s.mvcc txn_id read_snapshot },
)

unfoldable pub commit_in_memory : ℕ → ℕ → Handler Bool
commit_in_memory now txn_id s =
    let (m, ok) = Transaction.commit_transaction now s.mvcc txn_id in
    some (response ok, record s { mvcc = m })

unfoldable pub abort_in_memory : ℕ → Handler (Unit {0})
abort_in_memory txn_id s =
    some (response tt, record s { mvcc = Transaction.abort_transaction s.mvcc txn_id })

module _ (env : Env) where
  unfoldable pub begin_transaction : ℕ → Text → Text → IsolationLevel → Handler TransactionResponse
  begin_transaction now client_id table_name isolation = do
    demand (not (client_id == [])) invalid_argument (codes "client_id is required")
    named table_name
    found ← query env.pg (get_table env.pg table_name)
    table ← present (codes "table not found: " ++ table_name) found
    txn_id ← query env.pg (
        insert_transaction env.pg client_id table.table_id (current_or_zero table)
          (isolation_text isolation))
    register now txn_id (current_or_zero table)
    answer (record { txn_id = txn_id; read_snapshot_id = current_or_zero table })

  -- `UpdateTransactionStatus`, and the response.
  unfoldable pub record_status : ℕ → Text → Handler OperationResponse
  record_status txn_id status = do
    query env.pg (update_transaction_status env.pg txn_id status)
    answer succeeded

  unfoldable pub commit_transaction : ℕ → ℕ → Handler OperationResponse
  commit_transaction now txn_id = do
    ok ← commit_in_memory now txn_id
    if ok
        then record_status txn_id (codes "committed")
        else answer (failing (codes "transaction not found or expired"))

  unfoldable pub abort_transaction : ℕ → Handler OperationResponse
  abort_transaction txn_id = do abort_in_memory txn_id; record_status txn_id (codes "aborted")

  unfoldable pub cleanup_expired_transactions : ℕ → Handler ℕ
  cleanup_expired_transactions now s =
      let (m, cleaned) =
        Transaction.cleanup_expired_transactions now (env.range_active s.mvcc.active_transactions)
          s.mvcc in
      some (response cleaned, record s { mvcc = m })
