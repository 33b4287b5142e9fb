-- ===== src/Enforcement.antt =====
-- src/system/subsystem3/enforcement: warrants, arrests and bail.
pub mod Custody
pub mod Database
pub mod Arrest
pub mod Warrant
pub mod Bail
pub mod Memory
mod Tests
