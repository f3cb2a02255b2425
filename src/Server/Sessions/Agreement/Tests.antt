-- ===== src/Server/Sessions/Agreement/Tests.antt =====
-- A transaction that begins and one that commits.
use ice_core.Base.{◌≡◌, true, [], ◌∷◌, codes}
use ice_core.Catalog.Samples.{users, one_table}
use ice_core.Transaction.{MvccManager, register_transaction}
use ice_core.Server.Samples.{sample_env}
use ice_core.Server.Sound.{Runs, On}
use ice_core.Server.Sessions.Beginning.{IsRecorded, Unrecorded, Unchanged}
use ice_core.Server.Sessions.{read_committed, begin_transaction, commit_transaction}
use ice_core.Server.Sessions.Agreement.{
  begin_transaction-agrees, granted, forgotten, marked, commit_transaction-agrees,
}

abbrev idle : MvccManager
idle = record { active_transactions = []; pinned_snapshots = []; txn_timeout = 60 }

-- The transaction 7 reads snapshot 1 since time 5.
abbrev busy : MvccManager
busy = record {
  active_transactions = (7, record { txn_id = 7; read_snapshot_id = 1; started_at = 5 }) ∷ [];
  pinned_snapshots = (1, 1) ∷ [];
  txn_timeout = 60;
}

begin_transaction-agrees_example :
    Runs
      (On (Unrecorded sample_env users idle one_table.committed 0))
      (begin_transaction sample_env 5 (codes "client") users read_committed)
      (λ resp. On (λ m d.
        (m ≡ register_transaction 5 idle resp.txn_id resp.read_snapshot_id)
        × IsRecorded
            (codes "client")
            users
            (codes "read_committed")
            one_table.committed
            0
            resp.txn_id
            resp.read_snapshot_id
            d.committed))
      (On (Unchanged sample_env users idle one_table.committed 0))
begin_transaction-agrees_example =
    begin_transaction-agrees sample_env users idle one_table.committed 0 5 (codes "client")
      read_committed

commit_transaction-agrees_example :
    Runs
      (On (λ m d. (m ≡ busy) × (d ≡ one_table)))
      (commit_transaction sample_env 9 7)
      (λ resp. On (λ m d.
        (resp.success ≡ granted sample_env 9 7 busy one_table)
        × (m ≡ forgotten sample_env 9 7 busy one_table)
        × (d.committed.transactions ≡ marked sample_env 9 7 busy one_table resp.success)))
      (On (λ m d.
        (granted sample_env 9 7 busy one_table ≡ true)
        × (m ≡ forgotten sample_env 9 7 busy one_table)
        × (d.committed.transactions ≡ one_table.committed.transactions)))
commit_transaction-agrees_example = commit_transaction-agrees sample_env 9 7 busy one_table
