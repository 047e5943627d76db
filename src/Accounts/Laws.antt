-- ===== src/Accounts/Laws.antt =====
-- What is proved of the sessions, and the keys under which they are cached.
pub mod Keys
pub mod Storage
pub mod Found
pub mod Restore
pub mod Session
pub mod Logout
pub mod Login
pub mod SessionLess
