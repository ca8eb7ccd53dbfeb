-- ===== src/Fulfillment.antt =====
-- Fulfillment (fulfillment/): packing and cancelling with reservations.
pub mod Services
pub mod Packing
pub mod Cancelling
pub mod Placing
