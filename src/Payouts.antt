-- ===== src/Payouts.antt =====
-- modules/payouts/payouts.service.ts: the rows of the payouts.
-- Amounts are in 1/10000 baht, as in Commission. The orders are the rows of Orders/Rows, whose satang are
-- a hundred of them; the joins of the queries are written out on these rows.
pub mod Sold
pub mod Owed
pub mod Insert
pub mod Requests
pub mod Schedule
pub mod Settle
pub mod Steps
pub mod OneOpen
pub mod Closed
pub mod Amount
pub mod Summary
mod Tests
use new_sopet_backend.Prelude.{
  ℕ, suc, ◌+◌, ◌-◌, ◌*◌, min, Bool, true, false, not, ◌&&◌, ◌||◌, Option, none, some, List, [], ◌∷◌,
  map, ◌==◌, leb, ltb, if◌then◌else◌, any, keep, find, sum_by, length,
}
use new_sopet_backend.Prelude.Int.{ℤ, pos, negsuc}
use new_sopet_backend.Commission.{
  UnpaidBuckets, PriorPayout, Breakdown, OrderShare, effective_rate, consume_prior_payouts,
  unpaid_shipping_for_remaining_product, finalize_breakdown,
}
use new_sopet_backend.Orders.Status.{
  OrderStatus, PaymentMethod, FulfillmentStatus, same_order, same_item,
}
use new_sopet_backend.Orders.Rows.{OrderItem, Order, OrderStoreShipping, in_store, is_held}

pub data PayoutStatus : Type 0 where
  pending processing completed failed : PayoutStatus

pub data PayoutSettlementRail : Type 0 where
  omise manual : PayoutSettlementRail

pub record Payout : Type 0 where
  pub id : ℕ
  pub store_id : ℕ
  pub amount : ℕ
  pub net_amount : ℕ
  pub commission_rate : Option ℕ
  pub product_sold : Option ℕ
  pub shipping_fees : Option ℕ
  pub commission_amount : Option ℕ
  pub status : PayoutStatus
  pub settlement_rail : PayoutSettlementRail
  pub transfer_reference : Option ℕ

pub data PayoutSchedule : Type 0 where
  daily weekly biweekly monthly by_hand : PayoutSchedule  -- `MANUAL`

-- The columns of a store that the services read; `is_recipient_active` is `omiseRecipientStatus`.
pub record Store : Type 0 where
  pub id : ℕ
  pub commission_rate : Option ℕ
  pub omise_recipient_id : Option ℕ
  pub is_recipient_active : Bool
  pub is_approved : Bool
  pub payout_schedule : PayoutSchedule
  pub payout_schedule_paused : Bool

-- An order with the import flag of its `source`.
pub record SoldOrder : Type 0 where
  pub order : Order
  pub is_vendor_import : Bool

-- A usage of a promotion of scope STORE, joined with its promotion.
pub record StorePromotionUsage : Type 0 where
  pub store_id : ℕ
  pub order_id : ℕ
  pub discount_amount : ℕ

-- What the balances are read from.
pub record Sales : Type 0 where
  pub orders : List SoldOrder
  pub usages : List StorePromotionUsage

pub record Settings : Type 0 where
  pub go_live_at : Option ℕ
  pub default_rate_percent : ℕ
  pub min_payout_amount : ℕ

-- `PAID_OUT_STATUSES` and `PENDING_STATUSES`
abbrev pub is_open_status : PayoutStatus → Bool
is_open_status pending = true
is_open_status processing = true
is_open_status _ = false

abbrev pub is_paid_out_status : PayoutStatus → Bool
is_paid_out_status failed = false
is_paid_out_status _ = true

abbrev pub is_rail : PayoutSettlementRail → PayoutSettlementRail → Bool
is_rail omise omise = true
is_rail manual manual = true
is_rail _ _ = false

-- `OMISE_PAYMENT_METHODS` and `MANUAL_PAYMENT_METHODS`
abbrev pub is_method_of : PayoutSettlementRail → PaymentMethod → Bool
is_method_of omise PaymentMethod.promptpay = true
is_method_of omise PaymentMethod.credit_card = true
is_method_of omise PaymentMethod.truemoney = true
is_method_of omise PaymentMethod.shopeepay = true
is_method_of manual PaymentMethod.bank_transfer = true
is_method_of _ _ = false

abbrev pub is_pending_payout : ℕ → PayoutSettlementRail → Payout → Bool
is_pending_payout store_id rail p =
    p.store_id == store_id && is_rail p.settlement_rail rail && is_open_status p.status
