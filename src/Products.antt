-- ===== src/Products.antt =====
-- products/: the products of the catalogue, and the conversion of quantities into stock units.
pub mod Models
pub mod Units
