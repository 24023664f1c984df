-- ===== src/Psql.antt =====
-- pgsql.c: the file system operations as SQL. Parameters and columns that go through a matching
-- pair of byte order conversions are plain values here, by the laws of Wire; where the pair does
-- not match the conversion is written out.
pub mod Tx
pub mod Meta
pub mod Path
pub mod Data
pub mod Stat
pub mod Tablespace
pub mod Stored
pub mod Resized
pub mod Words
pub mod Removed
pub mod Inserted
pub mod Moved
pub mod Uncommitted
