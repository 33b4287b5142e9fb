-- ===== src/OsLayer.antt =====
-- src/os_layer: the worker pool, the scheduler, child processes, the dashboard socket, mappings.
pub mod UnixSocket
pub mod ThreadPool
pub mod Mapping
pub mod Sessions
pub mod Wire
pub mod Worker
pub mod Process
pub mod Scheduler
mod Tests
