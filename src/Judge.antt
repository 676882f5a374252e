-- ===== src/Judge.antt =====
-- Judge Source: the events that collected values give rise to.
pub mod FailureLog
pub mod Config
pub mod Queue
mod Tests
