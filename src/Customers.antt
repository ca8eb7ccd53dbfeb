-- ===== src/Customers.antt =====
-- customers/: the business customers.
pub mod Models
pub mod Services
pub mod Registry
pub mod Changes
