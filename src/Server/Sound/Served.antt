-- ===== src/Server/Sound/Served.antt =====
-- internal/server/metadata_server.go: a server that handles requests one after another, from its start.
mod Tests
use ice_core.Base.{ℕ, zero, suc, text_eq, ◌≡◌, refl, Bool, Option, none, some, List, [], ◌∷◌, Text}
use ice_core.Base.Int.{ℤ, pos, negsuc}
use ice_core.Base.Dict.{Dict, lookup}
use ice_core.Db.Rows.{PartitionRow, Db}
use ice_core.Db.Exec.{Pg}
use ice_core.Db.Live.{UniqueIds, IdsBelow}
use ice_core.Cache.{new_lru}
use ice_core.Cache.Order.{view, new_lru-IsValid}
use ice_core.Catalog.Registry
use ice_core.Catalog.Registry.{new_partition_registry, make_cache_key}
use ice_core.Catalog.Registry.Answers.{rows_at, wanted}
use ice_core.Catalog.Registry.Cached.{Answered, get_partitions-Answered}
use ice_core.Server.{Env, MetadataServer, Reply, Handler, response, status, new_server}
use ice_core.Server.Convert.{PartitionInfo}
use ice_core.Server.Tables
use ice_core.Server.Partitions
use ice_core.Server.Snapshots
use ice_core.Server.Sessions
use ice_core.Server.Sound.{IsSound, After}
use ice_core.Server.Sound.Changes.{Ranges}
use ice_core.Server.Sound.OnTables.{
  Keeps, create_table-Keeps, get_table_metadata-Keeps, alter_table-Keeps, drop_table-Keeps,
  list_tables-Keeps,
}
use ice_core.Server.Sound.OnData.{
  commit_snapshot-Keeps, get_partitions-Keeps, get_partition_stats-Keeps, get_column_stats-Keeps,
  get_snapshot-Keeps, list_snapshots-Keeps, get_partition_spec-Keeps, list_partition_specs-Keeps,
  get_manifest_list-Keeps, get_manifest-Keeps, begin_transaction-Keeps, commit_transaction-Keeps,
  abort_transaction-Keeps, cleanup-Keeps,
}

-- The requests of the service, with their arguments, and the cleanup that a timer starts.
pub data Request : Type 0 where
  create_table : Text → Text → Text → Dict Text Text → Request
  get_table_metadata : Text → ℕ → Request
  alter_table : Text → Tables.Alteration → Request
  drop_table : Text → Bool → Request
  list_tables : Text → ℤ → Text → Request
  get_partitions : Text → ℕ → ℤ → Text → Request
  get_partition_stats : Text → Request
  commit_snapshot : Text → ℕ → Text → List PartitionInfo → List Text → Request
  get_column_stats : Text → ℕ → Request
  get_snapshot : Text → ℕ → Request
  list_snapshots : Text → ℤ → Request
  begin_transaction : Text → Text → Sessions.IsolationLevel → Request
  commit_transaction : ℕ → Request
  abort_transaction : ℕ → Request
  cleanup : Request
  get_partition_spec : Text → ℤ → Request
  list_partition_specs : Text → Request
  get_manifest_list : Text → ℕ → Request
  get_manifest : Text → ℤ → Request

-- The state after a handler, whatever it replied.
abbrev pub state_of : {A : Type 0} → Option (Reply A × MetadataServer) → Option MetadataServer
state_of none = none
state_of (some (reply, s)) = some s

unfoldable pub handle : Env → ℕ → Request → MetadataServer → Option MetadataServer
handle env now (create_table a b c d) s = state_of (Tables.create_table env a b c d s)
handle env now (get_table_metadata a b) s = state_of (Tables.get_table_metadata env a b s)
handle env now (alter_table a b) s = state_of (Tables.alter_table env a b s)
handle env now (drop_table a b) s = state_of (Tables.drop_table env a b s)
handle env now (list_tables a b c) s = state_of (Tables.list_tables env a b c s)
handle env now (get_partitions a b c d) s = state_of (Partitions.get_partitions env a b c d s)
handle env now (get_partition_stats a) s = state_of (Partitions.get_partition_stats env a s)
handle env now (commit_snapshot a b c d e) s = state_of (Partitions.commit_snapshot env a b c d e s)
handle env now (get_column_stats a b) s = state_of (Partitions.get_column_stats env a b s)
handle env now (get_snapshot a b) s = state_of (Snapshots.get_snapshot env a b s)
handle env now (list_snapshots a b) s = state_of (Snapshots.list_snapshots env a b s)
handle env now (begin_transaction a b c) s = state_of (Sessions.begin_transaction env now a b c s)
handle env now (commit_transaction a) s = state_of (Sessions.commit_transaction env now a s)
handle env now (abort_transaction a) s = state_of (Sessions.abort_transaction env a s)
handle env now cleanup s = state_of (Sessions.cleanup_expired_transactions env now s)
handle env now (get_partition_spec a b) s = state_of (Snapshots.get_partition_spec env a b s)
handle env now (list_partition_specs a) s = state_of (Snapshots.list_partition_specs env a s)
handle env now (get_manifest_list a b) s = state_of (Snapshots.get_manifest_list env a b s)
handle env now (get_manifest a b) s = state_of (Snapshots.get_manifest env a b s)

-- The requests with their times.
unfoldable pub serve : Env → List (ℕ × Request) → MetadataServer → Option MetadataServer
serve env [] s = some s
serve env ((now, r) ∷ rest) s = elim (handle env now r s) [
  | none ↦ none
  | some s' ↦ serve env rest s'
]

-- There is a state, and it is sound.
abbrev pub StaysSound : Env → Option MetadataServer → Type 0
StaysSound env o = (s : MetadataServer) × (o ≡ some s) × IsSound env.pg s

module _ (env : Env) (ranges : Ranges env) where
  After-StaysSound :
      {A : Type 0} (o : Option (Reply A × MetadataServer))
      → After (λ _. IsSound env.pg) (IsSound env.pg) o
      → StaysSound env (state_of o)
  After-StaysSound none h = absurd h
  After-StaysSound (some (response a, s)) h = (s, refl, h)
  After-StaysSound (some (status code message, s)) h = (s, refl, h)

  ends :
      {A : Type 0} (h : Handler A) (s : MetadataServer)
      → Keeps env.pg h
      → IsSound env.pg s
      → StaysSound env (state_of (h s))
  ends h s k i = After-StaysSound (h s) (k.at s i)

  pub handle-IsSound :
      (now : ℕ) (r : Request) (s : MetadataServer)
      → IsSound env.pg s
      → StaysSound env (handle env now r s)
  unfolding handle
  handle-IsSound now (create_table a b c d) s = ends _ s (create_table-Keeps env a b c d)
  handle-IsSound now (get_table_metadata a b) s = ends _ s (get_table_metadata-Keeps env a b)
  handle-IsSound now (alter_table a b) s = ends _ s (alter_table-Keeps env ranges a b)
  handle-IsSound now (drop_table a b) s = ends _ s (drop_table-Keeps env ranges a b)
  handle-IsSound now (list_tables a b c) s = ends _ s (list_tables-Keeps env a b c)
  handle-IsSound now (get_partitions a b c d) s = ends _ s (get_partitions-Keeps env a b c d)
  handle-IsSound now (get_partition_stats a) s = ends _ s (get_partition_stats-Keeps env a)
  handle-IsSound now (commit_snapshot a b c d e) s =
      ends _ s (commit_snapshot-Keeps env ranges a b c d e)
  handle-IsSound now (get_column_stats a b) s = ends _ s (get_column_stats-Keeps env a b)
  handle-IsSound now (get_snapshot a b) s = ends _ s (get_snapshot-Keeps env a b)
  handle-IsSound now (list_snapshots a b) s = ends _ s (list_snapshots-Keeps env a b)
  handle-IsSound now (begin_transaction a b c) s = ends _ s (begin_transaction-Keeps env now a b c)
  handle-IsSound now (commit_transaction a) s = ends _ s (commit_transaction-Keeps env now a)
  handle-IsSound now (abort_transaction a) s = ends _ s (abort_transaction-Keeps env a)
  handle-IsSound now cleanup s = ends _ s (cleanup-Keeps env now)
  handle-IsSound now (get_partition_spec a b) s = ends _ s (get_partition_spec-Keeps env a b)
  handle-IsSound now (list_partition_specs a) s = ends _ s (list_partition_specs-Keeps env a)
  handle-IsSound now (get_manifest_list a b) s = ends _ s (get_manifest_list-Keeps env a b)
  handle-IsSound now (get_manifest a b) s = ends _ s (get_manifest-Keeps env a b)

  -- Whatever requests a server handles one after another, from a sound state on: no handler meets a nil
  -- element of the cache, and in the state after them the cache is valid and holds, for each table and
  -- snapshot, only what the database answers, and no two tables have one id.
  pub serve-IsSound :
      (requests : List (ℕ × Request)) (s : MetadataServer)
      → IsSound env.pg s
      → StaysSound env (serve env requests s)
  unfolding serve
  serve-IsSound [] s h = (s, refl, h)
  serve-IsSound ((now, r) ∷ rest) s h =
      let (s', runs, sound) = handle-IsSound now r s h in
      let (end, runs', sound') = serve-IsSound rest s' sound in
      (end, rw (runs, serve) runs', sound')

empty_cache :
    (cache_capacity : ℤ) (key : Text) (rows : List PartitionRow)
    → lookup key (view (new_lru {K = Text} {V = List PartitionRow} cache_capacity)) ≡ some rows
    → ⊥
unfolding new_lru view lookup
empty_cache (pos zero) key rows l = cc l
empty_cache (pos (suc n)) key rows l = cc l
empty_cache (negsuc n) key rows l = cc l

-- A server that starts on a database in which no two tables have one id is sound.
pub new_server-IsSound :
    (pg : Pg) (d : Db) (cache_capacity : ℤ) (disable_cache : Bool) (txn_timeout : ℕ)
    → UniqueIds d.committed.tables
    → IdsBelow d.sequences.table_seq d.committed.tables
    → IsSound pg (new_server d cache_capacity disable_cache txn_timeout)
unfolding new_server new_partition_registry
new_server-IsSound pg d cache_capacity disable_cache txn_timeout u b = record {
  valid = new_lru-IsValid cache_capacity;
  kept =
      λ n snapshot rows o l. absurd (empty_cache cache_capacity (make_cache_key n snapshot) rows l);
  unique = u;
  below = b;
}

-- Whatever requests a server has handled one after another, from a sound state on, `GetPartitions` of the
-- registry then answers for each table and snapshot what the database answers, or an error of the
-- database: no list that the cache kept is stale.
pub serve-get_partitions :
    (env : Env)
    → Ranges env
    → (requests : List (ℕ × Request)) (s : MetadataServer) (name : Text) (snapshot : ℕ)
    → IsSound env.pg s
    → (s' : MetadataServer) × (serve env requests s ≡ some s')
      × (a : Registry.Answer) × (r : Registry.PartitionRegistry) × (Registry.get_partitions env.pg
            s'.partitions name snapshot
          ≡ some (a, r))
      × Answered env.pg s'.partitions.db.committed s'.partitions.db.sequences
          (rows_at env.pg name
            (wanted name snapshot s'.partitions.db.committed)
            s'.partitions.db.committed)
          a
          r
serve-get_partitions env ranges requests s name snapshot h =
    let (s', runs, sound) = serve-IsSound env ranges requests s h in
    let (a, r, reads, answered) =
      get_partitions-Answered env.pg s'.partitions name snapshot
        (record { valid = sound.valid; kept = λ n v rows l. sound.kept n v rows tt l }) in
    (s', runs, a, r, reads, answered)
