-- ===== src/Assets/Laws.antt =====
-- What the endpoints of the assets do.
pub mod Tables
pub mod Policies
pub mod Inherited
pub mod Permission
pub mod Members
pub mod Permissions
pub mod Sharing
pub mod Creation
pub mod Columns
pub mod Update
pub mod Removals
pub mod Files
pub mod Listed
pub mod Deletion
