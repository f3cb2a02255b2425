-- ===== src/Transaction/Tests.antt =====
-- internal/transaction/mvcc_manager.go with two transactions on one snapshot.
use ice_core.Base.{
  ℕ, ◌+◌, ◌≡◌, ◌↔◌, refl, true, false, not, none, some, [], ◌∷◌, ◌==◌, nat_eq, arith, if◌then◌else◌,
}
use ice_core.Base.Dict.{lookup, insert}
use ice_core.Base.Range.{IsOrder}
use ice_core.Transaction.{
  TransactionState, MvccManager, new_mvcc_manager, pin_count, register_transaction,
  commit_transaction, abort_transaction, cleanup_expired_transactions, active_transaction_count,
  is_snapshot_pinned, expired,
}
use ice_core.Transaction.Pins.{
  IsValid, register_transaction-IsValid, commit_transaction-outcome, abort_transaction-outcome,
}
use ice_core.Transaction.Reached.{
  Reach, made, registered, committed, Reader, is_snapshot_pinned_iff,
}
use ice_core.Transaction.Cleanup.{survivor, cleanup_expired-outcome}

abbrev old_one : TransactionState
old_one = record { txn_id = 1; read_snapshot_id = 7; started_at = 0 }

abbrev young_one : TransactionState
young_one = record { txn_id = 2; read_snapshot_id = 7; started_at = 50 }

abbrev two : MvccManager
two = record {
  active_transactions = (1, old_one) ∷ (2, young_one) ∷ [];
  pinned_snapshots = (7, 2) ∷ [];
  txn_timeout = 30;
}

two-IsValid : IsValid two
unfolding lookup pin_count
two-IsValid = record { distinct = (refl, (refl, tt)); pinned = λ s. ground arith }

register_transaction_example : IsValid (register_transaction 60 two 3 7)
unfolding lookup
register_transaction_example = register_transaction-IsValid 60 two 3 7 two-IsValid refl

commit_transaction_example :
    IsValid (commit_transaction 60 two 1).0
    × ((commit_transaction 60 two 1).1 ≡ (elim (lookup 1 two.active_transactions) [
      | none ↦ false
      | some tx ↦ not (expired 60 30 tx)
    ]))
    × ((j : ℕ)
        → lookup j (commit_transaction 60 two 1).0.active_transactions
          ≡ (if 1 == j then none else lookup j two.active_transactions))
commit_transaction_example = commit_transaction-outcome 60 two 1 two-IsValid

abort_transaction_example :
    IsValid (abort_transaction two 2)
    × ((j : ℕ)
        → lookup j (abort_transaction two 2).active_transactions
          ≡ (if 2 == j then none else lookup j two.active_transactions))
abort_transaction_example = abort_transaction-outcome two 2 two-IsValid

-- Two transactions have begun on snapshot 7, and the first has committed.
abbrev one_left : MvccManager
one_left =
    (commit_transaction 20
      (register_transaction 10 (register_transaction 5 (new_mvcc_manager 30) 1 7) 2 7) 1).0

one_left-Reach : Reach one_left
unfolding new_mvcc_manager register_transaction insert lookup
one_left-Reach = committed 20 1 (registered 10 2 7 (registered 5 1 7 (made 30) refl) refl)

is_snapshot_pinned_example :
    (is_snapshot_pinned one_left 7 ≡ true) ↔ Reader 7 one_left.active_transactions
is_snapshot_pinned_example = is_snapshot_pinned_iff one_left 7 one_left-Reach

two-IsOrder : IsOrder two.active_transactions ((2, young_one) ∷ (1, old_one) ∷ [])
unfolding lookup
two-IsOrder = record { once = (refl, (refl, tt)); same = λ k. ground arith }

cleanup_expired_example :
    IsValid (cleanup_expired_transactions 60 ((2, young_one) ∷ (1, old_one) ∷ []) two).0
    × ((cleanup_expired_transactions 60 ((2, young_one) ∷ (1, old_one) ∷ []) two).1
          + active_transaction_count
              (cleanup_expired_transactions 60 ((2, young_one) ∷ (1, old_one) ∷ []) two).0
        ≡ active_transaction_count two)
    × ((k : ℕ)
        → lookup k
            (cleanup_expired_transactions 60
              ((2, young_one) ∷ (1, old_one) ∷ [])
              two).0.active_transactions
          ≡ survivor 60 30 (lookup k two.active_transactions))
cleanup_expired_example =
    cleanup_expired-outcome 60 ((2, young_one) ∷ (1, old_one) ∷ []) two two-IsValid two-IsOrder
