-- ===== src/Cases.antt =====
-- src/system/subsystem2: charge sheets, and the registration and listing of cases.
pub mod ChargeSheet
pub mod Evidence
pub mod Registration
mod Tests
