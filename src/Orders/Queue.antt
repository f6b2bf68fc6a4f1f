-- ===== src/Orders/Queue.antt =====
-- modules/orders/vendor-order-action-queue.util.ts: which orders wait for an action of the vendor,
-- as the predicate of the code and as the SQL filter that the list query uses.
-- Payment methods and statuses are the enum values that the columns hold. No column is NULL, so the
-- conditions of the query are two-valued: `EXISTS` is `any`, `NOT EXISTS` its negation.
pub mod Filter
mod Tests
use new_sopet_backend.Prelude.{
  ℕ, min, max, Bool, true, false, not, ◌&&◌, ◌||◌, Option, none, some, List, [], ◌∷◌, map, ◌==◌,
  if◌then◌else◌, length, every, any, keep,
}
use new_sopet_backend.Orders.Status.{
  OrderStatus, pending_payment, paid, refunded, PaymentMethod, bank_transfer, FulfillmentStatus,
  pending, same_order, same_item,
}

pub record QueueItem : Type 0 where
  pub store_id : ℕ
  pub fulfillment_status : FulfillmentStatus

pub record QueueOrder : Type 0 where
  pub status : OrderStatus
  pub payment_method : PaymentMethod
  pub items : List QueueItem

-- `TERMINAL_FULFILLMENT`
abbrev pub is_terminal_item : FulfillmentStatus → Bool
is_terminal_item s =
    same_item s FulfillmentStatus.shipped
    || same_item s FulfillmentStatus.delivered
    || same_item s FulfillmentStatus.cancelled

abbrev pub is_bank_transfer : PaymentMethod → Bool
is_bank_transfer bank_transfer = true
is_bank_transfer _ = false

-- `nonTerminal.length > 0 && nonTerminal.every(on_hold)`
abbrev pub is_held_only : List FulfillmentStatus → Bool
is_held_only [] = false
is_held_only (s ∷ ss) = every (λ t. same_item t FulfillmentStatus.on_hold) (s ∷ ss)

-- The early returns of `isVendorOrderActionable`, on the statuses of the store's items.
unfoldable pub is_actionable : OrderStatus → PaymentMethod → List FulfillmentStatus → Bool
is_actionable status method xs =
    if length xs == 0
    then false
    else if same_order status OrderStatus.cancelled
        || same_order status refunded
        || same_order status OrderStatus.delivered
        || same_order status OrderStatus.on_hold
    then false
    else if is_held_only (keep (λ s. not (is_terminal_item s)) xs)
    then false
    else if same_order status pending_payment
    then not (is_bank_transfer method)
    else if every (λ s. same_item s FulfillmentStatus.delivered) xs
    then false
    else if every
        (λ s. same_item s FulfillmentStatus.shipped || same_item s FulfillmentStatus.delivered) xs
    then false
    else if every (λ s. same_item s FulfillmentStatus.processing) xs
    then true
    else if same_order status paid
        || same_order status OrderStatus.processing
        || every (λ s. same_item s pending) xs
    then true
    else false

-- The statuses of the items of one store.
unfoldable pub store_statuses : ℕ → List QueueItem → List FulfillmentStatus
store_statuses store items =
    map (λ (i : QueueItem). i.fulfillment_status)
      (keep (λ (i : QueueItem). i.store_id == store) items)

unfoldable pub is_vendor_order_actionable : QueueOrder → ℕ → Bool
is_vendor_order_actionable o store =
    is_actionable o.status o.payment_method (store_statuses store o.items)

-- `EXISTS (SELECT 1 FROM order_items oi WHERE oi.order_id = order.id AND oi.store_id = :id AND …)`
unfoldable pub exists_item : QueueOrder → ℕ → (FulfillmentStatus → Bool) → Bool
exists_item o store p =
    any (λ (i : QueueItem). i.store_id == store && p i.fulfillment_status) o.items

-- The conjunction of the three `andWhere` of `applyVendorActionQueueFilter`.
unfoldable pub vendor_action_queue_filter : QueueOrder → ℕ → Bool
vendor_action_queue_filter o store =
    not (
      same_order o.status OrderStatus.cancelled
      || same_order o.status refunded
      || same_order o.status OrderStatus.delivered
      || same_order o.status OrderStatus.on_hold)
    && ((not (exists_item o store (λ s. not (is_terminal_item s)))
          || exists_item o store
              (λ s. not (is_terminal_item s) && not (same_item s FulfillmentStatus.on_hold)))
        && ((same_order o.status pending_payment && not (is_bank_transfer o.payment_method))
            || (not (same_order o.status pending_payment)
                && (not (exists_item o store (λ s. not (same_item s FulfillmentStatus.processing)))
                    || (((same_order o.status paid || same_order o.status OrderStatus.processing)
                          || not (exists_item o store (λ s. not (same_item s pending))))
                        && exists_item o store (λ s. not (
                            same_item s FulfillmentStatus.shipped
                            || same_item s FulfillmentStatus.delivered)))))))

-- `Math.max(page ?? 1, 1)`
unfoldable pub normalize_vendor_orders_page : Option ℕ → ℕ
normalize_vendor_orders_page none = max 1 1
normalize_vendor_orders_page (some page) = max page 1

-- `Math.min(Math.max(limit ?? 20, 1), 50)`
unfoldable pub normalize_vendor_orders_limit : Option ℕ → ℕ
normalize_vendor_orders_limit none = min (max 20 1) 50
normalize_vendor_orders_limit (some limit) = min (max limit 1) 50
