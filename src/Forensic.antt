-- ===== src/Forensic.antt =====
-- src/system/subsystem3/forensic: requests to forensic laboratories.
pub mod Status
pub mod Repository
pub mod Body
pub mod Manager
mod Tests
