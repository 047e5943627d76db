-- ===== src/DocDb/Table.antt =====
-- What a table of the local database promises, over the plain list of its documents: one document
-- for a key, found by key and owner. The proofs that local_docdb.py keeps it are in the children.
pub mod Rows
pub mod Reads
pub mod Writes
pub mod Store
pub mod Removal
