-- ===== src/Util.antt =====
-- Number helpers of src/util.c.
pub mod Word
