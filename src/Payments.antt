-- ===== src/Payments.antt =====
-- Payments (payments/).
pub mod Models
pub mod Services
pub mod Attempts
pub mod Reconciliation
pub mod History
