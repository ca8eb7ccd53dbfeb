-- ===== src/Inventory.antt =====
-- Physical stock (inventory/): the batch with its methods, what they do, and the expiry rules.
pub mod Models
pub mod Stock
pub mod Services
pub mod Expiry
pub mod Reserved
