-- ===== src/Transaction/Reached.antt =====
-- The states of the manager from its making on, and what IsSnapshotPinned answers in them.
use ice_core.Base.{
  ℕ, ◌≡◌, ◌↔◌, true, none, some, [], ◌∷◌, arith, ltb, ◌==◌, nat_eq, nat_beq_iff, Bool-cases, inl,
  inr,
}
use ice_core.Base.Dict.{Dict, lookup, Distinct}
use ice_core.Base.Range.{IsOrder}
use ice_core.Transaction.{
  TransactionState, MvccManager, new_mvcc_manager, register_transaction, commit_transaction,
  abort_transaction, cleanup_expired_transactions, is_snapshot_pinned,
}
use ice_core.Transaction.Pins.{
  readers, IsValid, new_mvcc_manager-IsValid, register_transaction-IsValid,
  commit_transaction-outcome, abort_transaction-outcome,
}
use ice_core.Transaction.Cleanup.{cleanup_expired-outcome}

-- The calls that change the manager, in any order and at any time. A number that is registered is not
-- active, as it is fresh from its sequence; a cleanup ranges over the map in any order.
pub data Reach : MvccManager → Type 0 where
  made : (timeout : ℕ) → Reach (new_mvcc_manager timeout)
  registered :
      {m : MvccManager} (now txn_id read_snapshot : ℕ)
      → Reach m
      → lookup txn_id m.active_transactions ≡ none
      → Reach (register_transaction now m txn_id read_snapshot)
  committed :
      {m : MvccManager} (now txn_id : ℕ) → Reach m → Reach (commit_transaction now m txn_id).0
  aborted : {m : MvccManager} (txn_id : ℕ) → Reach m → Reach (abort_transaction m txn_id)
  cleaned :
      {m : MvccManager} (now : ℕ) (range : Dict ℕ TransactionState)
      → Reach m
      → IsOrder m.active_transactions range
      → Reach (cleanup_expired_transactions now range m).0

pub Reach-IsValid : {m : MvccManager} → Reach m → IsValid m
Reach-IsValid (made timeout) = new_mvcc_manager-IsValid timeout
Reach-IsValid (registered now txn_id read_snapshot r new) =
    register_transaction-IsValid now _ txn_id read_snapshot (Reach-IsValid r) new
Reach-IsValid (committed now txn_id r) =
    (commit_transaction-outcome now _ txn_id (Reach-IsValid r)).0
Reach-IsValid (aborted txn_id r) = (abort_transaction-outcome _ txn_id (Reach-IsValid r)).0
Reach-IsValid (cleaned now range r order) =
    (cleanup_expired-outcome now range _ (Reach-IsValid r) order).0

-- An active transaction that reads the snapshot.
pub record Reader (s : ℕ) (d : Dict ℕ TransactionState) : Type 0 where
  pub txn_id : ℕ
  pub state : TransactionState
  pub active : lookup txn_id d ≡ some state
  pub reads : state.read_snapshot_id ≡ s

readers-Reader :
    (s : ℕ) (d : Dict ℕ TransactionState) → Distinct d → ltb 0 (readers s d) ≡ true → Reader s d
unfolding lookup
readers-Reader s [] t h = absurd (ground (arith, h))
readers-Reader s ((k, tx) ∷ d) t h = elim (Bool-cases (tx.read_snapshot_id == s)) [
  | inl same ↦ record {
    txn_id = k;
    state = tx;
    active = ground (arith, nat_beq_iff k k);
    reads = (nat_beq_iff tx.read_snapshot_id s).0 same;
  }
  | inr other ↦
      let r = readers-Reader s d t.1 (ground (arith, h, other)) in
      record {
        txn_id = r.txn_id;
        state = r.state;
        active = ground (arith, r.active, t.0, nat_beq_iff k r.txn_id);
        reads = r.reads;
      }
]

Reader-readers :
    (s : ℕ) (d : Dict ℕ TransactionState) (j : ℕ) (tx : TransactionState)
    → lookup j d ≡ some tx
    → tx.read_snapshot_id ≡ s
    → ltb 0 (readers s d) ≡ true
unfolding lookup
Reader-readers s [] j tx a e = cc
Reader-readers s ((k, ty) ∷ d) j tx a e =
    ground (arith, a, e, nat_beq_iff ty.read_snapshot_id s, Reader-readers s d j tx)

-- Whatever calls the manager has had since it was made, IsSnapshotPinned answers true exactly if some
-- active transaction reads the snapshot, provided that each number registered was not active then.
pub is_snapshot_pinned_iff :
    (m : MvccManager) (s : ℕ)
    → Reach m
    → (is_snapshot_pinned m s ≡ true) ↔ Reader s m.active_transactions
unfolding is_snapshot_pinned
is_snapshot_pinned_iff m s reached =
    let v = Reach-IsValid reached in
    (
      λ h. readers-Reader s m.active_transactions v.distinct (rw (v.pinned s) at h),
      λ r.
          rw (v.pinned s)
            (Reader-readers s m.active_transactions r.txn_id r.state r.active r.reads),
    )
