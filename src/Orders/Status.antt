-- ===== src/Orders/Status.antt =====
-- database/entities/enums/order.enums.ts, the enum of database/entities/order-item.entity.ts, and
-- the status ladder of modules/orders/order-fulfillment.util.ts.
pub mod Summary
pub mod Ladder
mod Tests
use new_sopet_backend.Prelude.{
  Bool, true, false, not, ◌||◌, List, [], ◌∷◌, if◌then◌else◌, every, any, keep,
}

pub data OrderStatus : Type 0 where
  pending_payment paid processing on_hold shipped delivered cancelled refunded : OrderStatus

pub data PaymentMethod : Type 0 where
  promptpay credit_card cod bank_transfer truemoney shopeepay : PaymentMethod

pub data FulfillmentStatus : Type 0 where
  pending processing on_hold shipped delivered cancelled : FulfillmentStatus

-- `===` on the two enums.
abbrev pub same_order : OrderStatus → OrderStatus → Bool
same_order pending_payment pending_payment = true
same_order paid paid = true
same_order OrderStatus.processing OrderStatus.processing = true
same_order OrderStatus.on_hold OrderStatus.on_hold = true
same_order OrderStatus.shipped OrderStatus.shipped = true
same_order OrderStatus.delivered OrderStatus.delivered = true
same_order OrderStatus.cancelled OrderStatus.cancelled = true
same_order refunded refunded = true
same_order _ _ = false

abbrev pub same_item : FulfillmentStatus → FulfillmentStatus → Bool
same_item pending pending = true
same_item FulfillmentStatus.processing FulfillmentStatus.processing = true
same_item FulfillmentStatus.on_hold FulfillmentStatus.on_hold = true
same_item FulfillmentStatus.shipped FulfillmentStatus.shipped = true
same_item FulfillmentStatus.delivered FulfillmentStatus.delivered = true
same_item FulfillmentStatus.cancelled FulfillmentStatus.cancelled = true
same_item _ _ = false

-- `TERMINAL_ORDER_STATUSES`
abbrev pub is_terminal_order : OrderStatus → Bool
is_terminal_order s = same_order s OrderStatus.cancelled || same_order s refunded

-- `VENDOR_CANCELLABLE_ORDER_STATUSES`
abbrev pub is_vendor_cancellable : OrderStatus → Bool
is_vendor_cancellable s =
    same_order s pending_payment || same_order s paid || same_order s OrderStatus.processing

-- The steps of `deriveOrderStatusFromFulfillment` on the progressing statuses.
unfoldable pub derive_from_progressing : List FulfillmentStatus → OrderStatus
derive_from_progressing [] = paid
derive_from_progressing (x ∷ xs) =
    if every (λ s. same_item s FulfillmentStatus.delivered) (x ∷ xs)
    then OrderStatus.delivered
    else if every
        (λ s. same_item s FulfillmentStatus.shipped || same_item s FulfillmentStatus.delivered)
        (x ∷ xs)
    then OrderStatus.shipped
    else if any
        (λ s.
          same_item s FulfillmentStatus.processing
          || same_item s FulfillmentStatus.shipped
          || same_item s FulfillmentStatus.delivered)
        (x ∷ xs)
    then OrderStatus.processing
    else paid

-- The steps on the statuses that are not cancelled.
unfoldable pub derive_from_active : List FulfillmentStatus → OrderStatus
derive_from_active [] = paid
derive_from_active (x ∷ xs) =
    if every (λ s. same_item s FulfillmentStatus.on_hold) (x ∷ xs)
    then OrderStatus.on_hold
    else derive_from_progressing (keep (λ s. not (same_item s FulfillmentStatus.on_hold)) (x ∷ xs))

unfoldable pub derive_order_status : OrderStatus → List FulfillmentStatus → OrderStatus
derive_order_status current statuses =
    if is_terminal_order current
    then current
    else if same_order current pending_payment
    then pending_payment
    else derive_from_active (keep (λ s. not (same_item s FulfillmentStatus.cancelled)) statuses)
