-- ===== src/Cdn.antt =====
-- src/youwol/backends/cdn: the resolution of the libraries that a page loads.
pub mod Models
pub mod Graph
pub mod Versions
