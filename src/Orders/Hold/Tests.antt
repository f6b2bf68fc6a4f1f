-- ===== src/Orders/Hold/Tests.antt =====
-- A suspension and a reactivation of a store, and the theorems at a concrete order.
use new_sopet_backend.Prelude.{
  ℕ, ◌≡◌, refl, inr, none, some, List, [], ◌∷◌, All, map, find, any, ◌==◌, false,
}
use new_sopet_backend.Prelude.Result.{◌>>=◌, throw_if}
use new_sopet_backend.Orders.Status.{
  OrderStatus, promptpay, FulfillmentStatus, pending, derive_order_status, derive_from_active,
  derive_from_progressing,
}
use new_sopet_backend.Orders.Fulfillment.{OrderItem, Order, World, update_items}
use new_sopet_backend.Orders.Fulfillment.Coherent.{AllCoherent}
use new_sopet_backend.Orders.Hold.{
  held_order, apply_hold_to, apply_hold_for_order, restored_order, restore_to,
  restore_hold_for_order, apply_hold_loop, apply_hold_for_store, restore_hold_loop,
  restore_hold_for_store,
}
use new_sopet_backend.Orders.Hold.Coherent.{
  apply_hold_for_store-AllCoherent, restore_hold_for_store-AllCoherent,
}
use new_sopet_backend.Inventory.{
  restore_stock_for_items, restore_loop, restore_item, already_restored, find_variant,
}
use new_sopet_backend.Orders.Hold.Expiry.{
  recompute_order_payable_totals, is_expired_hold, expired_order, expire_order,
  cancel_expired_held_items_for_order, cancel_expired_loop, cancel_expired_held_items,
}
use new_sopet_backend.Orders.Hold.Expired.{cancel_expired_held_items-clears}
use new_sopet_backend.Orders.Hold.RoundTrip.{IsUnheld, restored_order-held_order}

abbrev an_item : ℕ → ℕ → FulfillmentStatus → OrderItem
an_item id store_id s = record {
  id = id;
  store_id = store_id;
  variant_id = id;
  quantity = 1;
  subtotal = 0;
  fulfillment_status = s;
  previous_fulfillment_status = none;
  hold_started_at = none;
  tracking_number = none;
  fulfillment_provider = none;
  tracking_url = none;
  shipped_at = none;
  delivered_at = none;
  updated_at = 0;
}

-- Two items of the store 7, one of which is shipped, and one of the store 8.
abbrev order : Order
order = record {
  id = 1;
  status = OrderStatus.processing;
  previous_status = none;
  payment_method = promptpay;
  customer_id = some 9;
  guest_phone = none;
  guest_pay_token_hash = none;
  guest_pay_token_expires_at = none;
  paid_at = none;
  subtotal = 0;
  discount_amount = 0;
  shipping_fee = 0;
  total = 0;
  payment_reference = none;
  created_at = 0;
  store_shippings = [];
  items =
      an_item 1 7 FulfillmentStatus.processing
      ∷ an_item 2 7 FulfillmentStatus.shipped
      ∷ an_item 3 8 pending
      ∷ [];
}

abbrev start : World
start = record {
  orders = order ∷ [];
  payments = [];
  inventory = record { items = []; variants = []; transactions = [] };
  history = [];
  accepted = [];
  method_changed = [];
  approved = [];
  notified = [];
}

abbrev item_states : World → List (List FulfillmentStatus)
item_states w = map (λ (o : Order). map (λ (i : OrderItem). i.fulfillment_status) o.items) w.orders

runs :
    let held = apply_hold_for_store 7 50 start in
    let back = restore_hold_for_store 7 held.world in
    (item_states held.world
      ≡ (FulfillmentStatus.on_hold ∷ FulfillmentStatus.shipped ∷ pending ∷ []) ∷ [])
    × (held.items_changed ≡ 1)
    × (back.0 ≡ none)
    × (back.1.world.orders ≡ order ∷ [])
unfolding apply_hold_for_store apply_hold_loop apply_hold_for_order apply_hold_to held_order
    restore_hold_for_store restore_hold_loop restore_hold_for_order restore_to restored_order
    update_items derive_order_status derive_from_active derive_from_progressing ◌>>=◌ throw_if
runs = (refl, refl, refl, refl)

start-AllCoherent : AllCoherent start
unfolding derive_order_status derive_from_active derive_from_progressing
start-AllCoherent = (record { derived = refl; has_item = refl }, tt)

restore_hold_for_store-AllCoherent_example :
    AllCoherent (restore_hold_for_store 7 (apply_hold_for_store 7 50 start).world).1.world
restore_hold_for_store-AllCoherent_example =
    restore_hold_for_store-AllCoherent 7 (apply_hold_for_store 7 50 start).world
      (apply_hold_for_store-AllCoherent 7 50 start start-AllCoherent)

order_derived :
    derive_order_status OrderStatus.processing
      (FulfillmentStatus.processing ∷ FulfillmentStatus.shipped ∷ pending ∷ [])
    ≡ OrderStatus.processing
unfolding derive_order_status derive_from_active derive_from_progressing
order_derived = refl

order-All-IsUnheld : All (IsUnheld 7) order.items
order-All-IsUnheld =
    ((refl, inr (refl, refl)), ((refl, inr (refl, refl)), ((refl, inr (refl, refl)), tt)))

restored_order-held_order_example :
    ((restored_order 7 (held_order 7 50 order)).items ≡ order.items)
    × ((restored_order 7 (held_order 7 50 order)).status ≡ order.status)
restored_order-held_order_example =
    restored_order-held_order 7 50 order refl order_derived order-All-IsUnheld

-- The held item is cancelled when its time is over.
abbrev after_hold : Order
after_hold = record order {
  items =
      record (an_item 1 7 FulfillmentStatus.cancelled) { updated_at = 201 }
      ∷ an_item 2 7 FulfillmentStatus.shipped
      ∷ an_item 3 8 pending
      ∷ [];
}

hold_ends :
    find
      (λ (o : Order). o.id == 1)
      (cancel_expired_held_items
        (some 100)
        200
        201
        (apply_hold_for_store 7 50 start).world).0.orders
    ≡ some after_hold
unfolding apply_hold_for_store apply_hold_loop apply_hold_for_order apply_hold_to held_order
    update_items derive_order_status derive_from_active derive_from_progressing
    cancel_expired_held_items cancel_expired_loop cancel_expired_held_items_for_order expire_order
    expired_order recompute_order_payable_totals restore_stock_for_items restore_loop restore_item
    already_restored find_variant
hold_ends = refl

cancel_expired_held_items-clears_example : any (is_expired_hold 100 200) after_hold.items ≡ false
cancel_expired_held_items-clears_example =
    cancel_expired_held_items-clears (some 100) 200 201 (apply_hold_for_store 7 50 start).world 1
      after_hold hold_ends
