-- ===== src/Store.antt =====
-- The symbol index's writer: lib/semindex_index_db/index_db_writer.c.
pub mod Rows
pub mod Sql
pub mod Index
pub mod Session
pub mod Stage
pub mod Merge
pub mod Open
pub mod Run
