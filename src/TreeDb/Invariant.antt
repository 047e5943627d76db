-- ===== src/TreeDb/Invariant.antt =====
-- The four tables stay well-formed under every endpoint of the tree database.
pub mod Every
pub mod Tables
pub mod Rules
pub mod Helpers
pub mod Handlers
pub mod Move
pub mod Purge
pub mod Serve
