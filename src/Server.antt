-- ===== src/Server.antt =====
-- internal/server/metadata_server.go: the gRPC handlers, over the catalog, the registry and the
-- transactions. A handler is a function of the state of the server; `none` is the nil dereference
-- of the cache, and a reply is a response or a gRPC status.
pub mod Convert
pub mod Tables
pub mod Partitions
pub mod Snapshots
pub mod Sessions
pub mod RoundTrip
pub mod Paging
pub mod Samples
pub mod Sound
use ice_core.Base.{ℕ, Bool, true, false, Option, none, some, [], ◌∷◌, Text, Result}
use ice_core.Base.Int.{ℤ}
use ice_core.Base.Dict.{Dict}
use ice_core.Db.Rows.{Db}
use ice_core.Db.Exec.{Pg, Exec, Outcome, done, raised, error_text}
use ice_core.Db.ColumnBounds.{Agg}
use ice_core.Spec.{SpecJson}
use ice_core.Transaction.{TransactionState, MvccManager, new_mvcc_manager}
use ice_core.Catalog.Stores.{JsonObject}
use ice_core.Catalog.Registry.{PartitionRegistry, new_partition_registry, invalidate_table_cache}

-- google.golang.org/grpc/codes, as far as the handlers use it.
pub data Code : Type 0 where
  invalid_argument : Code
  not_found : Code
  internal : Code

pub data Reply (A : Type 0) : Type 0 where
  response : A → Reply A
  status : Code → Text → Reply A

-- The database and the driver; encoding/json at the types of the handlers; `%q` of fmt; and the
-- orders in which Go ranges over maps.
pub record Env : Type 0 where
  pub pg : Pg
  pub json : SpecJson
  pub marshal_properties : Dict Text Text → Option Text
  pub unmarshal_properties : Text → Option (Dict Text Text)
  pub unmarshal_object : Text → Result JsonObject
  pub quote : Text → Text
  pub range_items : Dict Text ℕ → Dict Text ℕ
  pub range_bounds : Dict ℤ Agg → Dict ℤ Agg
  pub range_active : Dict ℕ TransactionState → Dict ℕ TransactionState

-- The client of the database is the one of the registry; the stores keep no state of their own.
pub record MetadataServer : Type 0 where
  pub partitions : PartitionRegistry
  pub mvcc : MvccManager

-- `New`, once the pool is connected; the timeout is not negative.
unfoldable pub new_server : Db → ℤ → Bool → ℕ → MetadataServer
new_server db cache_capacity disable_cache txn_timeout = record {
  partitions = new_partition_registry db cache_capacity disable_cache;
  mvcc = new_mvcc_manager txn_timeout;
}

abbrev pub Handler : Type 0 → Type 0
Handler A = MetadataServer → Option (Reply A × MetadataServer)

module _ {A : Type 0} where
  unfoldable pub answer : A → Handler A
  answer a s = some (response a, s)

  unfoldable pub refuse : Code → Text → Handler A
  refuse code message s = some (status code message, s)

-- What follows a call, unless the handler has returned.
abbrev pub continue :
    {A B : Type 0}
    → (A → Handler B)
    → Option (Reply A × MetadataServer)
    → Option (Reply B × MetadataServer)
continue f none = none
continue f (some (response a, s)) = f a s
continue f (some (status code message, s)) = some (status code message, s)

infixl 5 ◌>>=◌ ◌>>◌
unfoldable pub ◌>>=◌ : {A B : Type 0} → Handler A → (A → Handler B) → Handler B
◌>>=◌ m f s = continue f (m s)

unfoldable pub ◌>>◌ : {A B : Type 0} → Handler A → Handler B → Handler B
unfolding ◌>>=◌
m >> k = m >>= λ _. k

-- `if … { return nil, status.Error(…) }`, unless the test holds.
unfoldable pub demand : Bool → Code → Text → Handler (Unit {0})
unfolding answer refuse
demand true code message = answer tt
demand false code message = refuse code message

abbrev pub with_db : Db → MetadataServer → MetadataServer
with_db d s = record s { partitions = record s.partitions { db = d } }

-- A call of the database; an error is `codes.Internal`.
abbrev pub queried :
    {A : Type 0} → Pg → MetadataServer → Outcome A × Db → Option (Reply A × MetadataServer)
queried pg s (done a, d) = some (response a, with_db d s)
queried pg s (raised e, d) = some (status internal (error_text pg e), with_db d s)

unfoldable pub query : {A : Type 0} → Pg → Exec A → Handler A
query pg m s = queried pg s (m s.partitions.db)

pub record OperationResponse : Type 0 where
  pub success : Bool
  pub error_msg : Text

abbrev pub succeeded : OperationResponse
succeeded = record { success = true; error_msg = [] }

abbrev pub failing : Text → OperationResponse
failing message = record { success = false; error_msg = message }

-- An operation of the catalog, whose result has `Success` and `ErrorMsg`.
abbrev pub attempted :
    Pg
    → MetadataServer
    → Outcome (Unit {0}) × Db
    → Option (Reply OperationResponse × MetadataServer)
attempted pg s (done _, d) = some (response succeeded, with_db d s)
attempted pg s (raised e, d) = some (response (failing (error_text pg e)), with_db d s)

unfoldable pub attempt : Pg → Exec (Unit {0}) → Handler OperationResponse
attempt pg m s = attempted pg s (m s.partitions.db)

-- `s.partitions.InvalidateTableCache(tableName)`
unfoldable pub invalidate : Env → Text → Handler (Unit {0})
invalidate env table_name s = some (
  response tt,
  record s {
    partitions =
        (invalidate_table_cache s.partitions table_name
          (env.range_items s.partitions.cache.items)).1;
  },
)
