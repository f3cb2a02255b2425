-- ===== src/Db.antt =====
-- internal/db: the PostgreSQL client. Each method is an action of `Exec`; its SQL statements are
-- read over the rows of the eight tables of scripts/init_db.sql. The driver and the server are the
-- parameter `Pg`.
pub mod Rows
pub mod Exec
pub mod Select
pub mod Tables
pub mod Partitions
pub mod Snapshots
pub mod Manifests
pub mod Specs
pub mod Transactions
pub mod Triples
pub mod Visible
pub mod ColumnBounds
pub mod Live
pub mod Foreign
pub mod Calm
pub mod Casting
