-- ===== src/TreeDb.antt =====
-- backends/tree_db: drives, folders and items, kept in four tables.
pub mod Models
pub mod Docs
pub mod Access
pub mod Listing
pub mod DefaultDrive
pub mod Handlers
pub mod Invariant
pub mod Laws
