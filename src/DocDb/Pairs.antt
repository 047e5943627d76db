-- ===== src/DocDb/Pairs.antt =====
-- Tables that are found by two columns and belong to one owner: the partition key and one
-- clustering column, in its order. The proofs that local_docdb.py keeps them are in `Methods`.
pub mod Cells
pub mod Methods
pub mod Listing
