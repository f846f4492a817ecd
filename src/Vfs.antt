-- ===== src/Vfs.antt =====
-- fs/vfs.cc and include/kernel/vfs.h: descriptors, mount points, paths and file positions.
pub mod Fd
pub mod File
pub mod Path
pub mod Mounts
mod Tests
