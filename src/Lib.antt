-- ===== src/Lib.antt =====
-- SwedeSweets operations: stock, offers, reservations, orders, fulfillment, payments, and the retail
-- and business channels.
--
-- The program is a Django application. A batch is physical stock (inventory/); an allocation claims
-- units of a batch for a line of an order (reservations/), for good or until an instant; an order
-- is drafted, placed, packed and delivered, or cancelled (orders/). Packing consumes the order's
-- allocations and takes their units from the batches, cancelling releases them (fulfillment/). A
-- payment attempt is made for the total of an order and follows what the provider reports
-- (payments/).
--
-- A product is sold under offers, one for each channel and perhaps more for single batches, with an
-- amount for each currency (pricing/); an offer determines the pool of batches that serve it. In the
-- retail channel an anonymous buyer fills a cart, checks it out into a draft order, and pays: the
-- stock is reserved while the provider is asked, and the order is placed when the payment succeeds
-- (retail/). In the business channel a customer's selections become the lines of a draft order,
-- whose stock is reserved when it is placed (business/). Weights become stock units in products/,
-- and customers/ keeps the contact data that orders take over.
--
-- Files and source:
--   Inventory/Models, Services, Expiry: inventory/models.py, services.py, expiry.py, a function for
--     each method; Stock and Reserved hold what they do to a batch and to the claims on it.
--   Reservations/Planning: reservations/planning.py and protocols.py (plan_batch_picks), with its
--     loop in Planning/Loop and its contract in Planning/Fefo.
--   Reservations/Models, Selectors, Services, Policies: the files of these names in reservations/,
--     and providers.py; Overbooking, Release, Consumption, Readiness and History
--     follow the claims.
--   Orders/Models, Drafts, Contracts: orders/models.py, drafts.py, contracts.py and decorators.py.
--   Orders/Lines, Services, Replacement, Updates: orders/services.py. Lifecycle, Total and Locking
--     are about the status machine, the total, and the mutations under the row lock.
--   Fulfillment/Services: fulfillment/services.py; Placing, Packing and Cancelling follow one call
--     through all parts.
--   Payments/Models, Services: payments/models.py, contracts.py, services.py; Attempts,
--     History and Reconciliation are about the attempts of an order, their life, and repeated reports.
--   Products/Models, Units: the conversions of products/models.py and products/units.py;
--     Customers/Models, Services: customers/models.py and customers/services.py; Registry and
--     Changes are about the rows of customers. `update_fields` names all contact fields or none.
--   Pricing/Models, Selectors, Services: the files of these names in pricing/, and the orderable
--     batches of inventory/selectors.py. Pools, Constraints and Changes are about the pools of stock
--     that offers are served from, and the rows.
--   Retail/Models, Rules, Selectors: the files of these names in retail/. Carts, Checkouts and
--     PaymentServices: retail/services.py, in this order. Baskets, CartCommands, CartAdding and
--     CartRefinement follow the carts, CheckoutLines and CheckoutOrders a checkout, StartedPayments
--     and SettledPayments the payment of an order.
--   Retail/HostedPayments, Reconciliation: retail/payments.py, retail/reconciliation.py and
--     payments/selectors.py. ReconciledRows and Recovery are about what is stored after
--     a reconciliation and what a customer is told.
--   Business/Drafts, Policies, Services: the files of these names in business/, with the lines of
--     orders/datatypes.py. MergedLines and Placing are about merged selections and placed orders.
--   Database: the tables as lists of rows, and the transaction. Tests: runs at concrete rows.
--
-- How the code is modelled:
--   An operation is a function from the rows to a result and the new rows, or to an exception; an
--     exception undoes the transaction, so it carries no rows. The row locks are taken
--     to make each transaction appear at once, so concurrent requests are sequences of operations.
--   A query is a filter over a table in the order of its keys, `order_by` a stable sort, `save` the
--     replacement of the row with the same key; the tables share one sequence of keys. A deleted
--     order or line takes with it what refers to it. Constraints of the tables that an operation can
--     break are checked where it writes, and give IntegrityError.
--   Exceptions are told apart by class; messages are left out, and the quantities that
--     InsufficientReservationCapacity carries are kept.
--   Days, instants, keys and stored quantities are natural numbers, quantities in arguments are
--     integers, and money is in cents. An operation reads the clock once; `updated_at` is kept for
--     orders only. Column widths and decimal digits are not modelled, but for the amount of an
--     offer, which has at most ten digits, and the e-mail address of a customer, at most 254
--     characters. A quantity that is ordered is a number of millionths, so that a kilogram has
--     decimals.
--   `now` is the instant of a transaction and `today` its local day; code that asks twice is taken
--     to get the same answer.
--   A row that is given to a service is its key, since the services read it again under a lock, and
--     the selections of retail lines are rows of their own. `iexact`, the comparison of cities
--     without case, is the database's, and an argument.
--   Code that runs several transactions in a row is a Process, which keeps the rows as they are when
--     a later step raises. Other requests run while the provider is called, and in a recovery before
--     the attempt is read again after an exception. The reading of an attempt after the provider's
--     answer, the callback, which reads it again under its lock, and the last reading are one step.
--   Offers, amounts, carts and lines are inserted under the unique constraints of their tables; a
--     violation that a service catches is undone first, by the savepoint around it.
--   Texts are lists of code points; `upper` and `lower` cover ASCII and Latin-1, and the
--     database compares texts by code points.
--   The loops are recursions over lists, so no fuel is needed.
--   The payment provider and the callbacks of a reconciliation are arguments. A provider's call
--     is a process: it answers or raises, and the rows are then those that other requests have left.
--
-- Not modelled: views, forms, templates, settings and the read models for pages; the adapter of the
-- payment provider; accounts; images and translations of products, and their services; the creation
-- of batches; the delivery areas' synchronisation; in business/services.py, the services on single
-- lines that read the catalogue.
pub mod Prelude
pub mod Inventory
pub mod Pricing
pub mod Products
pub mod Customers
pub mod Orders
pub mod Reservations
pub mod Payments
pub mod Retail
pub mod Business
pub mod Database
pub mod Fulfillment
pub mod Tests
