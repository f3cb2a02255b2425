-- ===== src/Lib.antt =====
-- The metadata service of IceCore: an Iceberg-like catalog on PostgreSQL.
--
-- The server (internal/server) answers calls by the catalog (internal/catalog), which locks a table
-- by name (internal/lock), reads and writes rows through a client of PostgreSQL (internal/db), keeps
-- lists of partitions in an LRU cache (internal/cache), and the server keeps the active transactions
-- in memory (internal/transaction).
--
-- Which file models which part; a definition has the name of the Go function in snake_case:
-- - Cache: internal/cache/lru.go. The map and the list with its element pointers are both kept; an
--   element is named by a number. Shape ties the two, Order, Writes and Ranges describe the methods
--   by the list of entries from the most to the least recently used.
-- - Transaction: internal/transaction/mvcc_manager.go. Pins has the invariant of the pins, Cleanup
--   the sweep of what is past the timeout, Reached the states that the calls lead to. The clock is an
--   argument.
-- - Lock: internal/lock/lock_manager.go as a step relation over goroutines. A writer that waits does
--   not hold up readers in the model, so it has more interleavings than sync.RWMutex. Deadlock is
--   about the two locks of `RenameTable` of internal/catalog/catalog_manager.go.
-- - Spec: internal/catalog/partition_spec.go, and `ValidateSpecChange` of
--   internal/catalog/partition_spec_store.go. Rules states what a spec and a change must satisfy
--   without the code; Messages has the texts of the problems. encoding/json is a parameter (SpecJson).
-- - Db: internal/db. The tables of scripts/init_db.sql are lists of rows in the order of insertion;
--   each statement of internal/db/pg_client.go is a function on them (Tables, Partitions, Snapshots,
--   Manifests, Specs, Transactions). Exec has calls, errors and the two places a statement may run:
--   on the pool, where it commits by itself, or in the open transaction, whose tables are `pending`
--   until its commit. Triples reasons about calls by what holds before and after, Casting about casts
--   to JSONB; Visible is about what a read at a snapshot sees, Live and Foreign about the rows of one
--   table and of the others.
--   ColumnBounds is `GetColumnStatsForSnapshot`; Merged is about what it sums up, in the order of Go's
--   strings, with Pass and Attained about one column.
-- - Catalog: Commit is `CommitSnapshot` of internal/catalog/partition_registry.go between its lock
--   and its call of InvalidateTableCache. Its children go from one statement to the whole call:
--   Harmless, Isolation, Outcome, Effect, Atomic; Ready and Progress are about a database that does
--   not fail.
--   Registry has the other methods of partition_registry.go, and `CommitSnapshot` with that call:
--   Answers and Cached are about the reads through the cache, Emptied about the cache after a
--   commit. Stores has schema_store.go, manifest_store.go and the reads of
--   partition_spec_store.go. Manager is internal/catalog/catalog_manager.go (its `RenameTable` and
--   `DropTable` are `rename_in_catalog` and `drop_from_catalog`): Atomic is about its errors, Altered
--   and ReadBack about an `AlterTableSchema` that succeeds. Samples has a database for the tests.
--   Aside follows each operation of the catalog from the side of the tables that it does not name.
-- - Server: internal/server/metadata_server.go. A handler is a function of the state of the server,
--   which is the registry with its database and cache and the transactions in memory; it replies with
--   a response or a status, and has no result if it meets a nil element of the cache. Convert has the
--   translation of messages (the records have the fields of proto/metadata_service.proto); Tables,
--   Partitions, Snapshots and Sessions the handlers. Sound is about the cache and the database between
--   requests: Reads and Changes go through the calls, OnTables and OnData through the handlers, Served
--   through a run of requests. Paging is about a client that follows the page tokens, RoundTrip about
--   specs in both forms, Agreement and Beginning (in Sessions) about transactions in memory and their rows.
-- - Config: internal/config/config.go, over a map of the variables that are set.
-- - Base: what they share. Lists, maps as association lists, Go's fixed-width integers, texts as
--   bytes, strconv.
--
-- PostgreSQL is a parameter (Pg): any statement may fail with any error, and one that fails, a COMMIT
-- too, is taken to change no table; the values of sequences that it has taken may stay taken. The driver's
-- casts, the texts of errors and encoding/json at the column statistics are fields of that parameter too,
-- and so is `now()`, the time at which the transaction of a statement began. One transaction is open at a
-- time: the table lock holds other commits to the table off, and other tables' commits are not
-- interleaved with it. A rollback does not give the values of a sequence back, as in PostgreSQL.
--
-- A `uint64` id is a natural number and an `int64` an integer, with Go's conversions between them
-- written out; where a theorem needs a number to fit, it says so. Loops are recursion on lists. Fuel
-- is used for strconv's digits (the number itself plus one) and for the client of Paging, for which one
-- page more than there are live tables is enough.
--
-- Requests are handled one after another: two handlers that run at once on one table are not
-- interleaved. The orders in which Go ranges over maps, `%q` and encoding/json are fields of a
-- parameter (Env); a timeout in the manager is not negative.
--
-- Not modelled: the commands and the connection pool (I/O), the generated protocol code, and
-- `pgtypeInt8Scan` and `IsUniqueViolation` of pg_client.go, which nothing calls.
pub mod Base
pub mod Cache
pub mod Transaction
pub mod Lock
pub mod Spec
pub mod Db
pub mod Catalog
pub mod Server
pub mod Config
