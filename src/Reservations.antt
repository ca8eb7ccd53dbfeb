-- ===== src/Reservations.antt =====
-- Stock reservations (reservations/).
pub mod Models
pub mod Planning
pub mod Selectors
pub mod Services
pub mod Policies
pub mod Overbooking
pub mod Release
pub mod Consumption
pub mod Readiness
pub mod History
pub mod Promises
