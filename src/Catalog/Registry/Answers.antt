-- ===== src/Catalog/Registry/Answers.antt =====
-- What the database answers to the registry, and the keys under which the cache keeps it.
use ice_core.Base.{
  ℕ, suc, ◌≡◌, refl, Option, none, some, List, ◌==◌, nat_eq, text_eq, if◌then◌else◌, arith, Text,
  inl, inr, ◌⊎◌, Bool-cases, Option-cases,
}
use ice_core.Base.Int.{pos, to_int64, ltb_ℤ}
use ice_core.Base.Decimal.{format_uint}
use ice_core.Base.Digits.{format_uint_injective, split_at_colon, no_colon}
use ice_core.Db.Rows.{PartitionRow, Tables, Db}
use ice_core.Db.Exec.{
  Pg, DbError, done, raised, failed, pure, ◌>>=◌, unless_found, reading, on_pool,
}
use ice_core.Db.Select.{live_row, live_row-cases}
use ice_core.Db.Tables.{get_table_id}
use ice_core.Db.Partitions.{select_partitions, query_partitions}
use ice_core.Catalog.Commit.Outcome.{current_of, get_current_snapshot-current_of}
use ice_core.Catalog.Registry.{make_cache_key, resolve_snapshot}

-- The keys of the cache of two tables, or of two snapshots, are different.
pub make_cache_key_injective :
    (table table' : Text) (snapshot snapshot' : ℕ)
    → make_cache_key table snapshot ≡ make_cache_key table' snapshot'
    → (table ≡ table') × (snapshot ≡ snapshot')
unfolding make_cache_key
make_cache_key_injective table table' snapshot snapshot' e =
    let (same, digits) =
      split_at_colon table table' (format_uint snapshot) (format_uint snapshot') (no_colon snapshot)
        (no_colon snapshot') e in
    (same, format_uint_injective snapshot snapshot' digits)

-- What `QueryPartitions` answers when no statement fails.
unfoldable pub rows_at : Pg → Text → ℕ → Tables → Option (List PartitionRow)
rows_at pg table_name snapshot t = elim (live_row table_name t.tables) [
  | raised e ↦ none
  | done r ↦
      if ltb_ℤ r.table_id (pos 0)
      then none
      else some (select_partitions pg r.table_id (to_int64 snapshot) t)
]

abbrev pub asked : ℕ → Db → Db
asked n d = record d { statements = n }

-- The query answers that or an error, and changes nothing that is committed.
pub query_partitions-rows_at :
    (pg : Pg) (table_name : Text) (snapshot : ℕ) (d : Db)
    → (n : ℕ) × ((query_partitions pg table_name snapshot d
          ≡ (done (rows_at pg table_name snapshot d.committed), asked n d))
        ⊎ ((e : DbError) × (query_partitions pg table_name snapshot d ≡ (raised e, asked n d))))
unfolding query_partitions get_table_id unless_found ◌>>=◌ on_pool reading pure rows_at
query_partitions-rows_at pg table_name snapshot d = elim (Option-cases (pg.fault d.statements)) [
  | inr (e, fault) ↦ (suc d.statements, inr (failed e, ground (arith, fault)))
  | inl fine ↦ elim (live_row-cases table_name d.committed.tables) [
    | inr missing ↦ (suc d.statements, inl (ground (arith, fine, missing)))
    | inl (r, live) ↦ elim (Bool-cases (ltb_ℤ r.table_id (pos 0))) [
      | inl negative ↦ (suc d.statements, inl (ground (arith, fine, live, negative)))
      | inr positive ↦ elim (Option-cases (pg.fault (suc d.statements))) [
        | inr (e, fault) ↦
            (suc (suc d.statements), inr (failed e, ground (arith, fine, live, positive, fault)))
        | inl fine' ↦ (suc (suc d.statements), inl (ground (arith, fine, live, positive, fine')))
      ]
    ]
  ]
]

-- The snapshot that a read at `snapshot_id` is about: 0 asks for the current one.
abbrev pub wanted : Text → ℕ → Tables → ℕ
wanted table_name snapshot_id t =
    if snapshot_id == 0 then current_of table_name t.tables else snapshot_id

pub resolve_snapshot-wanted :
    (pg : Pg) (table_name : Text) (snapshot_id : ℕ) (d : Db)
    → (n : ℕ) × ((resolve_snapshot pg table_name snapshot_id d
          ≡ (done (wanted table_name snapshot_id d.committed), asked n d))
        ⊎ ((e : DbError) × (resolve_snapshot pg table_name snapshot_id d ≡ (raised e, asked n d))))
unfolding resolve_snapshot pure
resolve_snapshot-wanted pg table_name snapshot_id d = elim (Bool-cases (snapshot_id == 0)) [
  | inr given ↦ (d.statements, inl (rw given refl))
  | inl zero ↦ elim (get_current_snapshot-current_of pg table_name d) [
    | inl fine ↦ (suc d.statements, inl (rw (zero, fine) refl))
    | inr (e, fault) ↦ (suc d.statements, inr (failed e, rw (zero, fault) refl))
  ]
]
