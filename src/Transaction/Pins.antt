-- ===== src/Transaction/Pins.antt =====
-- The invariant of the manager: a snapshot is pinned once for each active transaction that reads
-- it. Every operation keeps it.
use ice_core.Base.{
  ℕ, ◌+◌, ◌-◌, ◌≡◌, refl, false, none, some, [], ◌∷◌, arith, ◌==◌, nat_eq, nat_beq_iff,
  if◌then◌else◌, Bool-cases, Option-cases, inl, inr, not,
}
use ice_core.Base.Dict.{
  Dict, lookup, insert, erase, lookup-insert, lookup-erase, erase_absent, Distinct, erase-Distinct,
  insert-Distinct,
}
use ice_core.Transaction.{
  TransactionState, MvccManager, new_mvcc_manager, pin_count, register_transaction, unpin_snapshot,
  expired, forget, commit_transaction, abort_transaction,
}

-- How many active transactions read a snapshot.
abbrev pub readers : ℕ → Dict ℕ TransactionState → ℕ
readers s [] = 0
readers s ((k, tx) ∷ d) = (if tx.read_snapshot_id == s then 1 else 0) + readers s d

pub record IsValid (m : MvccManager) : Type 0 where
  pub distinct : Distinct m.active_transactions
  pub pinned : (s : ℕ) → pin_count s m.pinned_snapshots ≡ readers s m.active_transactions

readers-insert_new :
    (s k : ℕ) (tx : TransactionState) (d : Dict ℕ TransactionState)
    → lookup k d ≡ none
    → readers s (insert k tx d) ≡ (if tx.read_snapshot_id == s then 1 else 0) + readers s d
unfolding lookup insert
readers-insert_new s k tx [] h = refl
readers-insert_new s k tx ((j, ty) ∷ d) h = ground (arith, readers-insert_new s k tx d)

readers-erase :
    (s k : ℕ) (tx : TransactionState) (d : Dict ℕ TransactionState)
    → Distinct d
    → lookup k d ≡ some tx
    → (if tx.read_snapshot_id == s then 1 else 0) + readers s (erase k d) ≡ readers s d
unfolding lookup erase
readers-erase s k tx [] t h = cc
readers-erase s k tx ((j, ty) ∷ d) t h =
    ground (arith, erase_absent k d, nat_beq_iff j k, readers-erase s k tx d t.1)

pin_count-unpin :
    (s r : ℕ) (pins : Dict ℕ ℕ)
    → pin_count s (unpin_snapshot r pins)
      ≡ (if r == s then pin_count s pins - 1 else pin_count s pins)
unfolding pin_count unpin_snapshot
pin_count-unpin s r pins =
    ground
      (arith, nat_beq_iff r s, lookup-erase r s pins, lookup-insert r s (pin_count r pins - 1) pins)

pub new_mvcc_manager-IsValid : (timeout : ℕ) → IsValid (new_mvcc_manager timeout)
unfolding new_mvcc_manager pin_count lookup
new_mvcc_manager-IsValid timeout = record { distinct = tt; pinned = λ s. refl }

-- On a valid manager, to register a transaction whose number is not active keeps the invariant:
-- each snapshot is pinned once for each active transaction that reads it.
pub register_transaction-IsValid :
    (now : ℕ) (m : MvccManager) (txn_id read_snapshot : ℕ)
    → IsValid m
    → lookup txn_id m.active_transactions ≡ none
    → IsValid (register_transaction now m txn_id read_snapshot)
unfolding register_transaction pin_count
register_transaction-IsValid now m txn_id read_snapshot v new = record {
  distinct = insert-Distinct txn_id _ m.active_transactions v.distinct;
  pinned = λ s. ground (
    arith,
    readers-insert_new s txn_id
        (record { txn_id = txn_id; read_snapshot_id = read_snapshot; started_at = now })
        m.active_transactions,
    lookup-insert read_snapshot s (pin_count read_snapshot m.pinned_snapshots + 1)
        m.pinned_snapshots,
    nat_beq_iff read_snapshot s,
    v.pinned s,
  );
}

-- To forget an active transaction takes exactly its own pin away.
pub forget-IsValid :
    (m : MvccManager) (txn_id : ℕ) (tx : TransactionState)
    → IsValid m
    → lookup txn_id m.active_transactions ≡ some tx
    → IsValid (forget m txn_id tx)
unfolding forget
forget-IsValid m txn_id tx v h = record {
  distinct = erase-Distinct txn_id m.active_transactions v.distinct;
  pinned = λ s. ground (
    arith,
    pin_count-unpin s tx.read_snapshot_id m.pinned_snapshots,
    readers-erase s txn_id tx m.active_transactions v.distinct h,
    v.pinned s,
  );
}

pub lookup-forget :
    (m : MvccManager) (txn_id : ℕ) (tx : TransactionState) (j : ℕ)
    → lookup j (forget m txn_id tx).active_transactions
      ≡ (if txn_id == j then none else lookup j m.active_transactions)
unfolding forget
lookup-forget m txn_id tx j = lookup-erase txn_id j m.active_transactions

-- On a valid manager a commit, whether it succeeds, finds the transaction expired or does not find
-- it, keeps the invariant, and the transaction is not active after it. It succeeds exactly when the transaction
-- was active and its age was within the timeout; every other transaction stays as it was.
pub commit_transaction-outcome :
    (now : ℕ) (m : MvccManager) (txn_id : ℕ)
    → IsValid m
    → IsValid (commit_transaction now m txn_id).0
      × ((commit_transaction now m txn_id).1 ≡ (elim (lookup txn_id m.active_transactions) [
        | none ↦ false
        | some tx ↦ not (expired now m.txn_timeout tx)
      ]))
      × ((j : ℕ)
          → lookup j (commit_transaction now m txn_id).0.active_transactions
            ≡ (if txn_id == j then none else lookup j m.active_transactions))
unfolding commit_transaction
commit_transaction-outcome now m txn_id v =
    elim (Option-cases (lookup txn_id m.active_transactions)) [
      | inl gone ↦
          rw (gone, commit_transaction) (v, refl, λ j. ground (arith, nat_beq_iff txn_id j))
      | inr (tx, found) ↦ elim (Bool-cases (expired now m.txn_timeout tx)) [
        | inl late ↦
            rw (found, commit_transaction, late)
              (forget-IsValid m txn_id tx v found, refl, lookup-forget m txn_id tx)
        | inr fresh ↦
            rw (found, commit_transaction, fresh)
              (forget-IsValid m txn_id tx v found, refl, lookup-forget m txn_id tx)
      ]
    ]

-- On a valid manager an abort keeps the invariant; the transaction is not active after it, and every
-- other transaction stays as it was.
pub abort_transaction-outcome :
    (m : MvccManager) (txn_id : ℕ)
    → IsValid m
    → IsValid (abort_transaction m txn_id)
      × ((j : ℕ)
          → lookup j (abort_transaction m txn_id).active_transactions
            ≡ (if txn_id == j then none else lookup j m.active_transactions))
unfolding abort_transaction
abort_transaction-outcome m txn_id v = elim (Option-cases (lookup txn_id m.active_transactions)) [
  | inl gone ↦ rw (gone, abort_transaction) (v, λ j. ground (arith, nat_beq_iff txn_id j))
  | inr (tx, found) ↦
      rw (found, abort_transaction) (forget-IsValid m txn_id tx v found, lookup-forget m txn_id tx)
]
