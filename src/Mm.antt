-- ===== src/Mm.antt =====
-- mm/: the memory manager.
pub mod Page
