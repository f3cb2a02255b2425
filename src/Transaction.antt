-- ===== src/Transaction.antt =====
-- internal/transaction/mvcc_manager.go: the transactions that are active in memory, and how many
-- of them read each snapshot. `now` is what `time.Now` answers; a time is a number of nanoseconds
-- on the monotonic clock. The mutex makes each method one step.
pub mod Pins
pub mod Cleanup
pub mod Reached
mod Tests
use ice_core.Base.{
  ℕ, ◌+◌, ◌-◌, Bool, true, false, none, some, [], ◌∷◌, ltb, leb, ◌==◌, nat_eq, if◌then◌else◌,
  length, Text,
}
use ice_core.Base.Dict.{Dict, lookup, insert, erase}

pub record TransactionState : Type 0 where
  pub txn_id : ℕ
  pub read_snapshot_id : ℕ
  pub started_at : ℕ

pub record MvccManager : Type 0 where
  pub active_transactions : Dict ℕ TransactionState
  pub pinned_snapshots : Dict ℕ ℕ
  pub txn_timeout : ℕ

unfoldable pub new_mvcc_manager : ℕ → MvccManager
new_mvcc_manager timeout = record {
  active_transactions = [];
  pinned_snapshots = [];
  txn_timeout = timeout;
}

-- `m.pinnedSnapshots[snapshotID]`: the zero value where the key is missing.
unfoldable pub pin_count : ℕ → Dict ℕ ℕ → ℕ
pin_count snapshot pins = elim (lookup snapshot pins) [ none ↦ 0 | some n ↦ n ]

unfoldable pub register_transaction : ℕ → MvccManager → ℕ → ℕ → MvccManager
register_transaction now m txn_id read_snapshot = record m {
  active_transactions =
      insert txn_id (record { txn_id = txn_id; read_snapshot_id = read_snapshot; started_at = now })
        m.active_transactions;
  pinned_snapshots =
      insert read_snapshot (pin_count read_snapshot m.pinned_snapshots + 1) m.pinned_snapshots;
}

-- `unpinSnapshotLocked`
unfoldable pub unpin_snapshot : ℕ → Dict ℕ ℕ → Dict ℕ ℕ
unpin_snapshot snapshot pins =
    let count = pin_count snapshot pins in
    if leb count 1 then erase snapshot pins else insert snapshot (count - 1) pins

-- `time.Since(tx.StartedAt) > m.txnTimeout`
unfoldable pub expired : ℕ → ℕ → TransactionState → Bool
expired now timeout tx = ltb (tx.started_at + timeout) now

-- The pin and the entry of a transaction go together.
unfoldable pub forget : MvccManager → ℕ → TransactionState → MvccManager
forget m txn_id tx = record m {
  pinned_snapshots = unpin_snapshot tx.read_snapshot_id m.pinned_snapshots;
  active_transactions = erase txn_id m.active_transactions;
}

unfoldable pub commit_transaction : ℕ → MvccManager → ℕ → MvccManager × Bool
commit_transaction now m txn_id = elim (lookup txn_id m.active_transactions) [
  | none ↦ (m, false)
  | some tx ↦
      if expired now m.txn_timeout tx
      then (forget m txn_id tx, false)
      else (forget m txn_id tx, true)
]

unfoldable pub abort_transaction : MvccManager → ℕ → MvccManager
abort_transaction m txn_id = elim (lookup txn_id m.active_transactions) [
  | none ↦ m
  | some tx ↦ forget m txn_id tx
]

unfoldable pub validate_parent_snapshot : Text → ℕ → ℕ → Bool
validate_parent_snapshot table_name parent_snapshot_id current_snapshot_id =
    parent_snapshot_id == current_snapshot_id

-- The loop of `CleanupExpiredTransactions`, over the entries in the order in which Go ranges.
unfoldable pub cleanup_range : ℕ → Dict ℕ TransactionState → MvccManager → ℕ → MvccManager × ℕ
cleanup_range now [] m cleaned = (m, cleaned)
cleanup_range now ((txn_id, tx) ∷ range) m cleaned =
    cleanup_range now range (if expired now m.txn_timeout tx then forget m txn_id tx else m)
      (if expired now m.txn_timeout tx then cleaned + 1 else cleaned)

unfoldable pub cleanup_expired_transactions :
    ℕ → Dict ℕ TransactionState → MvccManager → MvccManager × ℕ
unfolding cleanup_range
cleanup_expired_transactions now range m = cleanup_range now range m 0

unfoldable pub active_transaction_count : MvccManager → ℕ
active_transaction_count m = length m.active_transactions

unfoldable pub is_snapshot_pinned : MvccManager → ℕ → Bool
is_snapshot_pinned m snapshot = ltb 0 (pin_count snapshot m.pinned_snapshots)
