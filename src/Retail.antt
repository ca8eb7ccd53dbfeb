-- ===== src/Retail.antt =====
-- retail/: carts, checkouts and payments of the retail channel.
pub mod Models
pub mod Rules
pub mod Carts
pub mod Baskets
pub mod CartCommands
pub mod CartAdding
pub mod CartRefinement
pub mod Selectors
pub mod Checkouts
pub mod CheckoutLines
pub mod CheckoutOrders
pub mod PaymentServices
pub mod StartedPayments
pub mod SettledPayments
pub mod HostedPayments
pub mod ReconciledRows
pub mod Recovery
pub mod Reconciliation
