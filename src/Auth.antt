-- ===== src/Auth.antt =====
-- src/system/shr_infra/auth: sessions, duty status, tokens, and the manager that joins them.
pub mod SessionStore
pub mod Token
pub mod Manager
pub mod DutyCache
mod Tests
