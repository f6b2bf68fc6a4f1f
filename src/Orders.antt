-- ===== src/Orders.antt =====
-- modules/orders: the order and item statuses, the vendor's action queue, the payable totals and
-- the fulfillment service.
pub mod Status
pub mod Queue
pub mod Tracking
pub mod PayToken
pub mod Rows
pub mod Fulfillment
pub mod Requests
pub mod Hold
