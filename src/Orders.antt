-- ===== src/Orders.antt =====
-- Orders and their lifecycle (orders/).
pub mod Models
pub mod Drafts
pub mod Contracts
pub mod Lines
pub mod Services
pub mod Lifecycle
pub mod Total
pub mod Locking
pub mod Replacement
pub mod Updates
