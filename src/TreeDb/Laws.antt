-- ===== src/TreeDb/Laws.antt =====
-- What the endpoints of the tree database do.
pub mod Blocks
pub mod Store
pub mod Parent
pub mod Folders
pub mod Rename
pub mod Moved
pub mod Move
pub mod Trash
pub mod Items
pub mod Path
pub mod Content
pub mod Drives
pub mod Docs
