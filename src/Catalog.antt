-- ===== src/Catalog.antt =====
-- internal/catalog: what the catalog does with the database, the cache and the locks.
pub mod Commit
pub mod Registry
pub mod Manager
pub mod Aside
pub mod Stores
pub mod Samples
mod Tests
