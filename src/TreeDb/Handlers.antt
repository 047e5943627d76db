-- ===== src/TreeDb/Handlers.antt =====
-- src/youwol/backends/tree_db/routers: the endpoints, one module for each router.
pub mod Items
pub mod Folders
pub mod Drives
pub mod Entities
pub mod Groups
