-- ===== src/Orders/Rows.antt =====
-- The rows that the order services share, and the steps of order-fulfillment.service.ts that its
-- handlers have in common: loading an order, the checks of access, stores and holds, the changes of
-- items, and `persistOrderTransition`. A record has the columns that the modelled code reads or writes.
use new_sopet_backend.Prelude.{
  ℕ, Bool, not, ◌&&◌, Option, none, some, List, [], ◌∷◌, ◌++◌, map, ◌==◌, if◌then◌else◌, length,
  every, any, keep, find,
}
use new_sopet_backend.Prelude.Text.{Text}
use new_sopet_backend.Prelude.Result.{Result, ok, err, ◌>>◌, throw_if}
use new_sopet_backend.Inventory.{Db}
use new_sopet_backend.Orders.Status.{
  OrderStatus, PaymentMethod, FulfillmentStatus, same_order, same_item,
}
use new_sopet_backend.Orders.Tracking.{
  Error, order_not_found, forbidden_store, forbidden_order, multi_vendor_order,
}

pub record OrderItem : Type 0 where
  pub id : ℕ
  pub store_id : ℕ
  pub variant_id : ℕ
  pub quantity : ℕ
  pub subtotal : ℕ
  pub fulfillment_status : FulfillmentStatus
  pub previous_fulfillment_status : Option FulfillmentStatus
  pub hold_started_at : Option ℕ
  pub tracking_number : Option Text
  pub fulfillment_provider : Option Text
  pub tracking_url : Option Text
  pub shipped_at : Option ℕ
  pub delivered_at : Option ℕ
  pub updated_at : ℕ

pub record OrderStoreShipping : Type 0 where
  pub store_id : ℕ
  pub shipping_fee : ℕ

-- `paymentReference`: a charge of the gateway, or `bank_transfer:` and the admin who confirmed.
pub data PaymentReference : Type 0 where
  charge bank_transfer_by : ℕ → PaymentReference

-- Amounts are satang.
pub record Order : Type 0 where
  pub id : ℕ
  pub status : OrderStatus
  pub previous_status : Option OrderStatus
  pub payment_method : PaymentMethod
  pub customer_id : Option ℕ
  pub guest_phone : Option Text
  pub guest_pay_token_hash : Option Text
  pub guest_pay_token_expires_at : Option ℕ
  pub paid_at : Option ℕ
  pub subtotal : ℕ
  pub discount_amount : ℕ
  pub shipping_fee : ℕ
  pub total : ℕ
  pub payment_reference : Option PaymentReference
  pub created_at : ℕ
  pub items : List OrderItem
  pub store_shippings : List OrderStoreShipping

pub data PaymentStatus : Type 0 where
  pending paid failed refunded : PaymentStatus

pub record Payment : Type 0 where
  pub id : ℕ
  pub order_id : ℕ
  pub amount : ℕ
  pub payment_method : PaymentMethod
  pub status : PaymentStatus
  pub expires_at : Option ℕ
  pub omise_charge_id : Option ℕ
  pub created_at : ℕ

-- `changedBy`: a user, a customer, the literal `'guest'`, or null for the system.
pub data Actor : Type 0 where
  user customer : ℕ → Actor
  guest system : Actor

pub record HistoryRow : Type 0 where
  pub order_id : ℕ
  pub status : OrderStatus
  pub changed_by : Actor

pub record World : Type 0 where
  pub orders : List Order
  pub payments : List Payment
  pub inventory : Db
  pub history : List HistoryRow
  -- The orders of the audit entries ORDER_ACCEPTED, PAYMENT_METHOD_CHANGED and PAYMENT_APPROVED.
  pub accepted : List ℕ
  pub method_changed : List ℕ
  pub approved : List ℕ
  pub notified : List (ℕ × OrderStatus)

-- The stores that a user may access.
abbrev pub Access : Type 0
Access = ℕ → List ℕ

-- The row with this id, `none` if there is none, and the write of a row.
unfoldable pub load_order : ℕ → World → Result Error Order
load_order id w = elim (find (λ (o : Order). o.id == id) w.orders) [
  | none ↦ err order_not_found
  | some o ↦ ok o
]

abbrev pub save_in : Order → List Order → List Order
save_in o [] = []
save_in o (p ∷ ps) = let rest = save_in o ps in if p.id == o.id then o ∷ rest else p ∷ rest

abbrev pub in_store : ℕ → OrderItem → Bool
in_store store i = i.store_id == store

abbrev pub is_held : OrderItem → Bool
is_held i = same_item i.fulfillment_status FulfillmentStatus.on_hold

abbrev pub statuses : List OrderItem → List FulfillmentStatus
statuses = map (λ (i : OrderItem). i.fulfillment_status)

-- Returns the store's items.
unfoldable pub assert_vendor_store_access : Access → ℕ → Order → ℕ → Result Error (List OrderItem)
assert_vendor_store_access access user_id o store = do
  throw_if (not (any (λ s. s == store) (access user_id))) forbidden_store
  throw_if (length (keep (in_store store) o.items) == 0) forbidden_order
  ok (keep (in_store store) o.items)

-- The set of the items' stores is `{ storeId }`: some item is of that store, and every item is.
unfoldable pub assert_single_store_order : Order → ℕ → Result Error (Unit {0})
assert_single_store_order o store =
    throw_if (not (any (in_store store) o.items && every (in_store store) o.items))
      multi_vendor_order

unfoldable pub assert_no_held_items : List OrderItem → Error → Result Error (Unit {0})
assert_no_held_items store_items e = throw_if (any is_held store_items) e

-- The loops over `storeItems` write the rows of `order.items`, which they share.
unfoldable pub update_items :
    (OrderItem → Bool) → (OrderItem → OrderItem) → List OrderItem → List OrderItem
update_items p f [] = []
update_items p f (i ∷ is) = (if p i then f i else i) ∷ update_items p f is

abbrev pub mark_cancelled : ℕ → OrderItem → OrderItem
mark_cancelled now i = record i {
  fulfillment_status = FulfillmentStatus.cancelled;
  previous_fulfillment_status = none;
  hold_started_at = none;
  updated_at = now;
}

abbrev pub mark_processing : ℕ → OrderItem → OrderItem
mark_processing now i = record i {
  fulfillment_status = FulfillmentStatus.processing;
  updated_at = now;
}

abbrev pub mark_tracked : ℕ → Text → Text → Option Text → OrderItem → OrderItem
mark_tracked now number provider url i = record i {
  tracking_number = some number;
  fulfillment_provider = some provider;
  tracking_url = url;
  updated_at = now;
}

abbrev pub mark_shipped : ℕ → Text → Text → Option Text → OrderItem → OrderItem
mark_shipped now number provider url i = record i {
  fulfillment_status = FulfillmentStatus.shipped;
  tracking_number = some number;
  fulfillment_provider = some provider;
  tracking_url = url;
  shipped_at = some now;
  updated_at = now;
}

abbrev pub mark_delivered : ℕ → OrderItem → OrderItem
mark_delivered now i = record i {
  fulfillment_status = FulfillmentStatus.delivered;
  delivered_at = some now;
  updated_at = now;
}

-- `paidAt ?? now`
abbrev pub or_now : Option ℕ → ℕ → Option ℕ
or_now none now = some now
or_now (some t) now = some t

-- `persistOrderTransition`; `o` has the changed items, and its status is still the previous one.
unfoldable pub persist_order_transition : ℕ → Order → OrderStatus → Actor → World → World
persist_order_transition now o next actor w =
    let saved = record o {
      status = next;
      paid_at = if same_order next OrderStatus.paid then or_now o.paid_at now else o.paid_at;
    } in
    record w {
      orders = save_in saved w.orders;
      history = w.history ++ record { order_id = o.id; status = next; changed_by = actor } ∷ [];
      notified = if same_order o.status next then w.notified else w.notified ++ (o.id, next) ∷ [];
    }
