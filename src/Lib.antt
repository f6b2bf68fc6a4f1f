-- ===== src/Lib.antt =====
-- The SOPET backend: the pet shop marketplace's orders, stock, promotions and payouts.
--
-- A vendor's store sells products through orders. Order creation takes stock; vendors accept, ship
-- and cancel orders and customers confirm their delivery; a cancellation gives the stock back and
-- the header status of an order follows from the fulfillment statuses of its items; the platform
-- pays vendors out, less its commission. Promotion codes take amounts off an order. Customers and
-- guests fill a cart, and pay an order by a charge at the gateway, a bank transfer or on delivery.
--
-- Prelude            shared names, Boolean tests on numbers, lists, texts (UTF-16 code units with
--                    trim), results of handlers that may throw
-- Commission         src/modules/payouts/payout-commission.calculator.ts, every function
-- Cart               src/modules/cart/cart.service.ts: Cart reads a cart, Requests changes and merges
--                    it, Basket is the abstract view of a cart from variants to quantities
-- Inventory          src/modules/inventory/inventory.service.ts, and the stock loop of createOrder
--                    in src/modules/orders/orders.service.ts (reserve_lines)
-- Orders/Status      deriveOrderStatusFromFulfillment and the status sets of
--                    src/modules/orders/order-fulfillment.util.ts
-- Orders/Tracking    the validators of the same file
-- Orders/Queue       src/modules/orders/vendor-order-action-queue.util.ts: isVendorOrderActionable,
--                    and the rows that the SQL of applyVendorActionQueueFilter selects
-- Orders/PayToken    src/common/utils/guest-pay-token.util.ts
-- Orders/Rows        the rows of orders and payments, and the steps that the handlers of
--                    src/modules/orders/order-fulfillment.service.ts share
-- Orders/Fulfillment every handler of that service; it uses the modules above and the stock restore
--                    of Inventory
-- Orders/Requests    the handlers of that service as requests, served one after another
-- Orders/Hold        src/modules/orders/store-suspension-hold.service.ts: hold and release; Expiry is the
--                    job that cancels expired holds, with src/modules/orders/order-totals.util.ts;
--                    without the notifications
-- Payments           src/modules/payments/payments.service.ts: the QR expiry and the cancellation of stale
--                    orders; Access (assertCanPayForOrder), Checkout and Charge (createCharge), Cancel
--                    (which charges are cancelled at the gateway), Webhook (handleWebhook), Transfer
--                    (confirmBankTransferPaid) and Events (these as they come, one after another, on
--                    the tables of Orders/Rows); without the saved cards
-- Payouts            src/modules/payouts/payouts.service.ts and payout-scheduler.service.ts: Sold (the
--                    queries on the orders of Orders/Rows), Owed (the balance, by Commission), Insert
--                    (a payout with its snapshot), Requests (requests and transfers), Schedule (the
--                    summaries and the scheduler), Settle (manual settlement, transfer webhooks, and
--                    these as they come); Steps has the kinds of change that they make to the tables
-- Promotions         src/modules/promotions/promotions.service.ts: Code is validateCode with the gates
--                    of Gates and the buy-x-get-y rule of BuyGet, Batch is validatePromotionsBatch,
--                    Stack is applyStackedPromotions, Manage is create, update, toggle and softDelete
--                    with their checks; the listing queries are left out
-- SaleCampaigns      src/modules/sale-campaigns/sale-campaign-pricing.ts, every function
--
-- Tables are lists of rows and a handler is a function on the tables that returns the new tables or
-- the exception. A record has the columns that the modelled code reads or writes. A handler
-- is one step, also where the source reads without a lock, outside the transaction, or awaits the
-- gateway between its reads and writes (handleWebhook, the load before persistOrderTransition): that
-- requests do not interleave within a handler is an assumption of the model, which database
-- transactions and row locks back only in part.
-- Identifiers, times (milliseconds) and quantities are natural numbers. What happens after a
-- commit (notification, vendor mail, webhook) is one entry of a log.
--
-- Money: doubles are not modelled; amounts in baht are exact, in units of 1/10000 baht (the
-- rounding to satang is the source's), and commission rates are whole percentages. Promotions
-- and sale prices count in units of 1/1000000 baht, in which a percentage with two decimals is
-- exact on whole satang and is rounded down on a finer amount.
--
-- The bisection of largestPostProduct runs on fuel, one more than the number of amounts it searches;
-- Commission/Bisect shows that the interval is empty before the fuel is.
--
-- Parameters: the stores that a user may access (StoresService), SHA-256 with the random bytes of a
-- token, new URL, JSON.parse, toUpperCase, the live prices of a variant (the sale campaign
-- service), the catalogue that a cart is read against, the answers of the payment gateway, and the
-- day of the week and of the month at which the payout scheduler runs.
--
-- Not modelled: controllers, resolvers and entities' declarations, the SQL of reports and searches,
-- e-mail, SMS, storage, queues, authentication, and the payment gateway.
pub mod Prelude
pub mod Commission
pub mod Cart
pub mod Inventory
pub mod Orders
pub mod Payments
pub mod Payouts
pub mod Promotions
pub mod SaleCampaigns
