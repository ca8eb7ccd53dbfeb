-- ===== src/Business.antt =====
-- business/: the orders of business customers.
pub mod Drafts
pub mod Policies
pub mod Services
pub mod Placing
pub mod MergedLines
