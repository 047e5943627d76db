-- ===== src/Assets.antt =====
-- src/youwol/backends/assets: the assets, who may read and share them, and their access policies.
pub mod Models
pub mod Docs
pub mod Store
pub mod Permissions
pub mod Handlers
pub mod Access
pub mod Invariant
pub mod Laws
