-- ===== src/Pricing.antt =====
-- pricing/: the offers of the sales channels, their amounts, and the stock that they draw from.
pub mod Models
pub mod Selectors
pub mod Services
pub mod Pools
pub mod Constraints
pub mod Changes
