-- ===== src/Wal.antt =====
-- The write-ahead log, src/wal.c: its index, and the savepoints of a write transaction.
pub mod Index
pub mod Checksum
pub mod Frame
pub mod Savepoint
pub mod Undo
pub mod Recover
