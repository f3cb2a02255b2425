-- ===== src/Catalog/Registry.antt =====
-- internal/catalog/partition_registry.go: the reads through the cache, and what a commit does to it.
-- `none` is the nil dereference of the cache. The lock of the table makes each method one step.
pub mod Answers
pub mod Cached
pub mod Emptied
mod Tests
use ice_core.Base.{
  ℕ, Bool, Option, none, some, List, [], ◌∷◌, ◌++◌, ◌==◌, nat_eq, text_eq, if◌then◌else◌, Text,
  codes, length, take, leb, ◌&&◌,
}
use ice_core.Base.Int.{ℤ, pos, add64, div64}
use ice_core.Base.Decimal.{format_uint}
use ice_core.Base.Dict.{Dict}
use ice_core.Db.Rows.{PartitionRow, Db}
use ice_core.Db.Exec.{Pg, Exec, Outcome, done, raised, pure, ◌>>=◌}
use ice_core.Db.Tables.{get_current_snapshot}
use ice_core.Db.Partitions.{query_partitions, query_partitions_paged}
use ice_core.Cache.{Lru, get, put, invalidate_if, new_lru}
use ice_core.Catalog.Commit.{commit_to_db}

-- The state that the registry keeps, and the database that it works on.
pub record PartitionRegistry : Type 0 where
  pub db : Db
  pub cache : Lru Text (List PartitionRow)
  pub disable_cache : Bool

unfoldable pub new_partition_registry : Db → ℤ → Bool → PartitionRegistry
new_partition_registry db cache_capacity disable_cache = record {
  db = db;
  cache = new_lru cache_capacity;
  disable_cache = disable_cache;
}

unfoldable pub make_cache_key : Text → ℕ → Text
make_cache_key table snapshot = table ++ (codes ":" ++ format_uint snapshot)

-- The snapshot 0 asks for the current one.
unfoldable pub resolve_snapshot : Pg → Text → ℕ → Exec ℕ
resolve_snapshot pg table_name snapshot_id =
    if snapshot_id == 0 then get_current_snapshot pg table_name else pure snapshot_id

abbrev pub Answer : Type 0
Answer = Outcome (Option (List PartitionRow))

-- `r.cache.Put(key, rows)`, unless the cache is off.
unfoldable pub store_rows :
    PartitionRegistry → Text → List PartitionRow → Option (Answer × PartitionRegistry)
store_rows r key rows =
    if r.disable_cache then some (done (some rows), r) else elim (put r.cache key rows) [
      | none ↦ none
      | some c ↦ some (done (some rows), record r { cache = c })
    ]

-- What follows an answer of the database; a nil slice is not kept.
unfoldable pub keep_rows : PartitionRegistry → Text → Answer → Option (Answer × PartitionRegistry)
unfolding store_rows
keep_rows r key (raised e) = some (raised e, r)
keep_rows r key (done none) = some (done none, r)
keep_rows r key (done (some rows)) = store_rows r key rows

-- The database is asked, and its rows are kept.
unfoldable pub fetch_rows : Pg → PartitionRegistry → Text → ℕ → Option (Answer × PartitionRegistry)
unfolding keep_rows
fetch_rows pg r table_name snapshot =
    let (answer, db) = query_partitions pg table_name snapshot r.db in
    keep_rows (record r { db = db }) (make_cache_key table_name snapshot) answer

-- `if cached, ok := r.cache.Get(key); ok { return cached, nil }`
unfoldable pub cached_rows :
    Pg
    → PartitionRegistry
    → Text
    → ℕ
    → Option (Option (List PartitionRow) × Lru Text (List PartitionRow))
    → Option (Answer × PartitionRegistry)
unfolding fetch_rows
cached_rows pg r table_name snapshot none = none
cached_rows pg r table_name snapshot (some (none, c)) =
    fetch_rows pg (record r { cache = c }) table_name snapshot
cached_rows pg r table_name snapshot (some (some rows, c)) =
    some (done (some rows), record r { cache = c })

unfoldable pub read_rows : Pg → PartitionRegistry → Text → ℕ → Option (Answer × PartitionRegistry)
unfolding cached_rows
read_rows pg r table_name snapshot =
    if r.disable_cache
    then fetch_rows pg r table_name snapshot
    else cached_rows pg r table_name snapshot (get r.cache (make_cache_key table_name snapshot))

-- What follows `resolveSnapshot`.
unfoldable pub read_resolved :
    Pg → PartitionRegistry → Text → Outcome ℕ × Db → Option (Answer × PartitionRegistry)
unfolding read_rows
read_resolved pg r table_name (raised e, d) = some (raised e, record r { db = d })
read_resolved pg r table_name (done read_snap, d) =
    read_rows pg (record r { db = d }) table_name read_snap

unfoldable pub get_partitions :
    Pg → PartitionRegistry → Text → ℕ → Option (Answer × PartitionRegistry)
unfolding read_resolved
get_partitions pg r table_name snapshot_id =
    read_resolved pg r table_name (resolve_snapshot pg table_name snapshot_id r.db)

unfoldable pub get_partitions_paged : Pg → Text → ℕ → ℤ → ℤ → Exec (Option (List PartitionRow))
get_partitions_paged pg table_name snapshot_id page_size last_partition_id = do
  read_snap ← resolve_snapshot pg table_name snapshot_id
  query_partitions_paged pg table_name read_snap page_size last_partition_id

pub record PartitionStats : Type 0 where
  pub total_partitions : ℤ
  pub total_rows : ℤ
  pub total_bytes : ℤ
  pub avg_size_bytes : ℤ

abbrev pub no_stats : PartitionStats
no_stats = record {
  total_partitions = pos 0;
  total_rows = pos 0;
  total_bytes = pos 0;
  avg_size_bytes = pos 0;
}

-- The loop of `GetStats` over the rows.
unfoldable pub sum_rows : PartitionStats → List PartitionRow → PartitionStats
sum_rows stats [] = stats
sum_rows stats (p ∷ ps) =
    sum_rows
      (record stats {
        total_rows = add64 stats.total_rows p.row_count;
        total_bytes = add64 stats.total_bytes p.size_bytes;
      })
      ps

unfoldable pub stats_of : Option (List PartitionRow) → PartitionStats
unfolding sum_rows
stats_of none = no_stats
stats_of (some []) = no_stats
stats_of (some (p ∷ ps)) =
    let count = length (p ∷ ps) in
    let stats : PartitionStats =
      sum_rows (record no_stats { total_partitions = pos count }) (p ∷ ps) in
    record stats { avg_size_bytes = div64 stats.total_bytes count }

unfoldable pub get_stats : Pg → Text → Exec PartitionStats
get_stats pg table_name = do
  read_snap ← resolve_snapshot pg table_name 0
  rows ← query_partitions pg table_name read_snap
  pure (stats_of rows)

-- `len(key) >= len(prefix) && key[:len(prefix)] == prefix`
unfoldable pub has_prefix : Text → Text → Bool
has_prefix prefix key = leb (length prefix) (length key) && take (length prefix) key == prefix

-- `range` is the order in which Go ranges over the map of the cache.
unfoldable pub invalidate_table_cache :
    PartitionRegistry → Text → Dict Text ℕ → ℕ × PartitionRegistry
invalidate_table_cache r table_name range =
    let (c, removed) = invalidate_if (has_prefix (table_name ++ codes ":")) range r.cache in
    (removed, record r { cache = c })

-- The cache is emptied of the table after a commit that succeeded.
unfoldable pub finish_commit :
    PartitionRegistry → Text → Dict Text ℕ → Outcome ℕ × Db → Outcome ℕ × PartitionRegistry
finish_commit r table_name range (raised e, d) = (raised e, record r { db = d })
finish_commit r table_name range (done new_snap, d) =
    (done new_snap, (invalidate_table_cache (record r { db = d }) table_name range).1)

-- `CommitSnapshot`
unfoldable pub commit_snapshot :
    Pg
    → PartitionRegistry
    → Text
    → ℕ
    → Text
    → List PartitionRow
    → List Text
    → Dict Text ℕ
    → Outcome ℕ × PartitionRegistry
unfolding finish_commit
commit_snapshot pg r table_name parent operation new_partitions deleted_keys range =
    finish_commit r table_name range
      (commit_to_db pg table_name parent operation new_partitions deleted_keys r.db)
