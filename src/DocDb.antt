-- ===== src/DocDb.antt =====
-- utils/clients/docdb: the document database that the backends keep their tables in.
pub mod Models
pub mod Parse
pub mod Local
pub mod Write
pub mod Table
pub mod Pairs
