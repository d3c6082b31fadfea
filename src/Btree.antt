-- ===== src/Btree.antt =====
-- src/btree.c: the B-tree layer.
pub mod Key
pub mod Page
pub mod Cursor
pub mod Tree
