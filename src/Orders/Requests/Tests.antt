-- ===== src/Orders/Requests/Tests.antt =====
-- Runs of the fulfillment service, and its theorems at a concrete series of requests.
use new_sopet_backend.Prelude.{some, ℕ, ◌+◌, ◌≡◌, refl, none, some, List, [], ◌∷◌, map}
use new_sopet_backend.Prelude.Text.{codes, trim}
use new_sopet_backend.Prelude.Result.{ok, ◌>>=◌, throw_if}
use new_sopet_backend.Orders.Status.{
  OrderStatus, paid, pending_payment, promptpay, FulfillmentStatus, pending, derive_order_status,
  derive_from_active, derive_from_progressing,
}
use new_sopet_backend.Orders.Tracking.{
  validate_tracking_number, validate_fulfillment_provider, validate_optional_tracking_url,
  assert_vendor_items_uniform, tracking_number_required,
}
use new_sopet_backend.Orders.Fulfillment.{
  OrderItem, Order, World, user, load_order, assert_vendor_store_access, assert_no_held_items,
  assert_single_store_order, update_items, persist_order_transition, mark_vendor_order_paid,
  acknowledge_vendor_order, ship_vendor_order, track, tracked_items, update_tracking_for_public_api,
  cancel_vendor_order, cancel_order,
}
use new_sopet_backend.Orders.Fulfillment.Cancel.{Cancelled, cancel_vendor_order_lem}
use new_sopet_backend.Orders.Fulfillment.Coherent.{AllCoherent}
use new_sopet_backend.Orders.Fulfillment.Kept.{AllKept}
use new_sopet_backend.Orders.Requests.{
  Request, mark_paid, acknowledge, cancel, ship, update_tracking, Env, handle, serve,
}
use new_sopet_backend.Orders.Requests.Coherent.{serve-AllCoherent}
use new_sopet_backend.Orders.Requests.Kept.{serve-AllKept}

abbrev an_item : ℕ → FulfillmentStatus → OrderItem
an_item id s = record {
  id = id;
  store_id = 7;
  variant_id = 30 + id;
  quantity = 2;
  subtotal = 0;
  fulfillment_status = s;
  previous_fulfillment_status = none;
  hold_started_at = none;
  tracking_number = none;
  fulfillment_provider = none;
  tracking_url = none;
  shipped_at = none;
  delivered_at = none;
  updated_at = 0;
}

abbrev an_order : ℕ → OrderStatus → List OrderItem → Order
an_order id s is = record {
  id = id;
  status = s;
  previous_status = none;
  payment_method = promptpay;
  customer_id = some 9;
  guest_phone = none;
  guest_pay_token_hash = none;
  guest_pay_token_expires_at = none;
  paid_at = none;
  subtotal = 0;
  discount_amount = 0;
  shipping_fee = 0;
  total = 0;
  payment_reference = none;
  created_at = 0;
  store_shippings = [];
  items = is;
}

-- One order that was paid, one that was not, and one whose vendor is suspended.
abbrev start : World
start = record {
  orders =
      an_order 1 paid (an_item 1 pending ∷ an_item 2 pending ∷ [])
      ∷ an_order 2 pending_payment (an_item 3 pending ∷ [])
      ∷ an_order 3 OrderStatus.on_hold (an_item 4 FulfillmentStatus.on_hold ∷ [])
      ∷ [];
  payments = [];
  inventory = record { items = []; variants = []; transactions = [] };
  history = [];
  accepted = [];
  method_changed = [];
  approved = [];
  notified = [];
}

abbrev env : Env
env = record {
  parse = λ t. some record { protocol = codes "https:"; href = t };
  access = λ u. 7 ∷ [];
  sha256 = λ t. t;
}

-- A vendor accepts and ships the first order, takes payment of the second and cancels it, and tries
-- to accept the third.
abbrev requests : List (ℕ × Request)
requests =
    (10, acknowledge 5 7 1)
    ∷ (11, ship 5 7 1 (codes " TH1 ") (codes "Post") none)
    ∷ (12, mark_paid 5 7 2)
    ∷ (13, cancel 5 7 2)
    ∷ (14, acknowledge 5 7 3)
    ∷ []

abbrev order_states : World → List (OrderStatus × List FulfillmentStatus)
order_states w =
    map (λ (o : Order). (o.status, map (λ (i : OrderItem). i.fulfillment_status) o.items)) w.orders

serve_run :
    order_states (serve env requests start)
    ≡ (OrderStatus.shipped, FulfillmentStatus.shipped ∷ FulfillmentStatus.shipped ∷ [])
      ∷ (OrderStatus.cancelled, FulfillmentStatus.cancelled ∷ [])
      ∷ (OrderStatus.on_hold, FulfillmentStatus.on_hold ∷ [])
      ∷ []
unfolding serve handle load_order acknowledge_vendor_order ship_vendor_order mark_vendor_order_paid
    cancel_vendor_order cancel_order assert_vendor_store_access assert_no_held_items
    assert_single_store_order update_items persist_order_transition assert_vendor_items_uniform
    derive_order_status derive_from_active derive_from_progressing validate_tracking_number trim
    validate_fulfillment_provider validate_optional_tracking_url ◌>>=◌ throw_if
serve_run = refl

start-AllCoherent : AllCoherent start
unfolding derive_order_status derive_from_active derive_from_progressing
start-AllCoherent = (
  record { derived = refl; has_item = refl },
  (record { derived = refl; has_item = refl }, (record { derived = refl; has_item = refl }, tt)),
)

serve-AllCoherent_example : AllCoherent (serve env requests start)
serve-AllCoherent_example = serve-AllCoherent env requests start start-AllCoherent

third_loaded :
    load_order 3 start
    ≡ ok (an_order 3 OrderStatus.on_hold (an_item 4 FulfillmentStatus.on_hold ∷ []))
unfolding load_order
third_loaded = refl

serve-AllKept_example :
    (o' : Order) × (load_order 3 (serve env requests start) ≡ ok o')
    × AllKept (an_item 4 FulfillmentStatus.on_hold ∷ []) o'.items
serve-AllKept_example =
    serve-AllKept env requests start 3
      (an_order 3 OrderStatus.on_hold (an_item 4 FulfillmentStatus.on_hold ∷ [])) third_loaded

-- A tracking update with a blank number throws, and the order is accepted all the same.
update_tracking_run :
    let outcome = handle env 20 (update_tracking 5 7 1 (codes " ") (codes "Post") none) start in
    (outcome.0 ≡ some tracking_number_required)
    × (outcome.1.accepted ≡ 1 ∷ [])
    × (order_states outcome.1
        ≡ (OrderStatus.processing, FulfillmentStatus.processing ∷ FulfillmentStatus.processing ∷ [])
          ∷ (pending_payment, pending ∷ [])
          ∷ (OrderStatus.on_hold, FulfillmentStatus.on_hold ∷ [])
          ∷ [])
unfolding handle load_order acknowledge_vendor_order ship_vendor_order
    update_tracking_for_public_api track tracked_items assert_vendor_store_access
    assert_no_held_items update_items persist_order_transition assert_vendor_items_uniform
    derive_order_status derive_from_active derive_from_progressing validate_tracking_number trim
    ◌>>=◌ throw_if
update_tracking_run = (refl, refl, refl)

abbrev first : Order
first = an_order 1 paid (an_item 1 pending ∷ an_item 2 pending ∷ [])

first_cancelled :
    cancel_vendor_order env.access 13 5 7 1 start ≡ ok (cancel_order 13 first (user 5) start)
unfolding cancel_vendor_order load_order assert_vendor_store_access assert_no_held_items
    assert_single_store_order ◌>>=◌ throw_if
first_cancelled = refl

cancel_vendor_order_lem_example :
    (o : Order) × (o' : Order) × Cancelled 1 start (cancel_order 13 first (user 5) start) o o'
cancel_vendor_order_lem_example =
    cancel_vendor_order_lem env.access 13 5 7 1 start (cancel_order 13 first (user 5) start)
      first_cancelled
