-- ===== src/Tests.antt =====
-- Runs of the program on small databases, at which the theorems are applied.
mod Data
mod Planning
mod Stock
mod Orders
mod Payments
mod Sales
mod Checkouts
mod Business
mod Customers
