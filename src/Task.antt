-- ===== src/Task.antt =====
-- src/task: processes, their scheduling and their communication.
pub mod Lock
pub mod RbTree
pub mod RunQueue
pub mod Sem
pub mod Pipe
pub mod Ipc
pub mod Cfs
