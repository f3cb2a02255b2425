-- ===== src/Transaction/Cleanup.antt =====
-- `CleanupExpiredTransactions`: whatever order Go ranges over the map in, exactly the expired
-- transactions go, each with its pin.
use ice_core.Base.{
  ℕ, ◌+◌, ◌≡◌, refl, sym, ◌∙◌, Option, none, some, [], ◌∷◌, arith, nat_eq, nat_beq_iff,
  if◌then◌else◌, length, Bool-cases, inl, inr,
}
use ice_core.Base.Dict.{Dict, lookup, lookup-erase, length-erase}
use ice_core.Base.Range.{IsRange, IsOrder, IsRange-erase, IsOrder-IsRange}
use ice_core.Transaction.{
  TransactionState, MvccManager, expired, forget, cleanup_range, cleanup_expired_transactions,
  active_transaction_count,
}
use ice_core.Transaction.Pins.{IsValid, forget-IsValid}

-- What a sweep leaves of one entry.
abbrev pub survivor : ℕ → ℕ → Option TransactionState → Option TransactionState
survivor now timeout none = none
survivor now timeout (some tx) = if expired now timeout tx then none else some tx

record AfterSweep (now : ℕ) (r : Dict ℕ TransactionState) (m m' : MvccManager) (cleaned n : ℕ)
    : Type 0 where
  valid : IsValid m'
  counted : n + length m'.active_transactions ≡ cleaned + length m.active_transactions
  timeout : m'.txn_timeout ≡ m.txn_timeout
  entries :
      (k : ℕ)
      → lookup k m'.active_transactions ≡ (elim (lookup k r) [
        | none ↦ lookup k m.active_transactions
        | some tx ↦ survivor now m.txn_timeout (some tx)
      ])

cleanup_range-AfterSweep :
    (now : ℕ) (r : Dict ℕ TransactionState) (m : MvccManager) (cleaned : ℕ)
    → IsValid m
    → IsRange m.active_transactions r
    → AfterSweep now r m (cleanup_range now r m cleaned).0 cleaned (cleanup_range now r m cleaned).1
unfolding cleanup_range lookup forget
cleanup_range-AfterSweep now [] m cleaned v t = record {
  valid = v;
  counted = refl;
  timeout = refl;
  entries = λ k. refl;
}
cleanup_range-AfterSweep now ((k, tx) ∷ r) m cleaned v t =
    elim (Bool-cases (expired now m.txn_timeout tx)) [
      | inl late ↦
          let m1 : MvccManager = forget m k tx in
          let ih =
            cleanup_range-AfterSweep now r m1 (cleaned + 1) (forget-IsValid m k tx v t.0)
              (IsRange-erase m.active_transactions k r t.1 t.2) in
          rw (late, cleanup_range)
            (record {
              valid = ih.valid;
              counted =
                  omega (arith, ih.counted, length-erase k tx m.active_transactions v.distinct t.0);
              timeout = ih.timeout;
              entries = λ j.
                  ground
                    (arith, ih.entries j, nat_beq_iff k j, lookup-erase k j m.active_transactions);
            })
      | inr fresh ↦
          let ih = cleanup_range-AfterSweep now r m cleaned v t.2 in
          rw (fresh, cleanup_range)
            (record {
              valid = ih.valid;
              counted = ih.counted;
              timeout = ih.timeout;
              entries = λ j. ground (arith, ih.entries j, nat_beq_iff k j, t.0, t.1);
            })
    ]

-- From a valid manager the sweep keeps the invariant, takes out exactly the transactions that are
-- past the timeout, leaves the others as they are, and returns how many went, whatever the order
-- of the range.
pub cleanup_expired-outcome :
    (now : ℕ) (r : Dict ℕ TransactionState) (m : MvccManager)
    → IsValid m
    → IsOrder m.active_transactions r
    → IsValid (cleanup_expired_transactions now r m).0
      × ((cleanup_expired_transactions now r m).1
            + active_transaction_count (cleanup_expired_transactions now r m).0
          ≡ active_transaction_count m)
      × ((k : ℕ)
          → lookup k (cleanup_expired_transactions now r m).0.active_transactions
            ≡ survivor now m.txn_timeout (lookup k m.active_transactions))
unfolding cleanup_expired_transactions active_transaction_count
cleanup_expired-outcome now r m v o =
    let t : IsRange m.active_transactions r =
      IsOrder-IsRange m.active_transactions r o.once (λ k tx h. sym (o.same k) ∙ h) in
    let a = cleanup_range-AfterSweep now r m 0 v t in
    (a.valid, omega (arith, a.counted), λ k. ground (arith, a.entries k, o.same k))
