-- ===== src/Examples.antt =====
-- Concrete tables, and the theorems at them.
pub mod Sample
mod Tables
mod Tree
mod Moves
mod Requests
mod Libraries
mod Releases
mod Sessions
pub mod AssetSample
mod AssetChanges
mod Assets
mod Services
