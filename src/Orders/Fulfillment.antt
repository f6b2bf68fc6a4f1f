-- ===== src/Orders/Fulfillment.antt =====
-- modules/orders/order-fulfillment.service.ts: the vendor's and the customer's steps on an order.
-- A handler is a function on the tables that returns the new tables or the exception. What happens
-- after the commit (notification, vendor mail, webhook) is one entry of `notified`. `new Date()` is
-- the argument `now`. Parameters: the stores that a user may access (`StoresService`), SHA-256
-- and `new URL`.
pub mod Coherent
pub mod Handlers
pub mod Kept
pub mod Forward
pub mod Cancel
pub mod Outcomes
use new_sopet_backend.Prelude.{
  ℕ, Bool, true, false, not, ◌&&◌, ◌||◌, Option, none, some, List, [], ◌∷◌, ◌++◌, map, ◌==◌, leb,
  if◌then◌else◌, length, every, any, keep, find,
}
use new_sopet_backend.Prelude.Text.{Text, text_eq, is_empty}
use new_sopet_backend.Prelude.Result.{Result, ok, err, ◌>>=◌, ◌>>◌, throw_if}
use new_sopet_backend.Inventory
use new_sopet_backend.Inventory.{Db, restore_stock_for_items}
use new_sopet_backend.Orders.Status.{
  OrderStatus, pending_payment, paid, refunded, PaymentMethod, bank_transfer, FulfillmentStatus,
  same_order, same_item, is_vendor_cancellable, derive_order_status,
}
use new_sopet_backend.Orders.Queue.{is_bank_transfer}
use new_sopet_backend.Orders.PayToken.{is_absent, assert_guest_pay_token_access}
use new_sopet_backend.Orders.Tracking.{
  Error, order_not_found, forbidden_store, forbidden_order, multi_vendor_order,
  hold_transition_forbidden, hold_cancel_forbidden, bank_transfer_admin_only, invalid_order_status,
  changed_by_not_uuid, order_not_fully_shipped, order_already_cancelled, UrlParser,
  validate_optional_tracking_url, validate_tracking_number, validate_fulfillment_provider,
  assert_vendor_items_uniform,
}
pub use new_sopet_backend.Orders.Rows.{
  OrderItem, Order, PaymentStatus, Payment, Actor, HistoryRow, World, Access, save_in, in_store,
  is_held, statuses, mark_cancelled, mark_processing, mark_tracked, mark_shipped, mark_delivered,
  or_now, user, customer, guest, system, failed,
}
unfoldable pub use new_sopet_backend.Orders.Rows.{
  load_order, assert_vendor_store_access, assert_single_store_order, assert_no_held_items,
  update_items, persist_order_transition,
}

unfoldable pub mark_vendor_order_paid : Access → ℕ → ℕ → ℕ → ℕ → World → Result Error World
mark_vendor_order_paid access now user_id store order_id w = do
  o ← load_order order_id w
  store_items ← assert_vendor_store_access access user_id o store
  throw_if (is_bank_transfer o.payment_method) bank_transfer_admin_only
  throw_if (not (same_order o.status pending_payment)) invalid_order_status
  ok (
      persist_order_transition now (record o { paid_at = or_now o.paid_at now })
        (derive_order_status paid (statuses o.items)) (user user_id) w)

unfoldable pub acknowledge_vendor_order : Access → ℕ → ℕ → ℕ → ℕ → World → Result Error World
acknowledge_vendor_order access now user_id store order_id w = do
  o ← load_order order_id w
  store_items ← assert_vendor_store_access access user_id o store
  assert_no_held_items store_items hold_transition_forbidden
  throw_if (not (same_order o.status paid || same_order o.status OrderStatus.processing))
      invalid_order_status
  assert_vendor_items_uniform (statuses store_items) FulfillmentStatus.pending
  let items = update_items (in_store store) (mark_processing now) o.items
  let w' =
      persist_order_transition now (record o { items = items })
        (derive_order_status o.status (statuses items)) (user user_id) w
  ok (record w' { accepted = w'.accepted ++ o.id ∷ [] })

module _ (parse : UrlParser) (access : Access) (now : ℕ) where
  unfoldable pub ship_vendor_order :
      ℕ → ℕ → ℕ → Text → Text → Option Text → World → Result Error World
  ship_vendor_order user_id store order_id tracking_number provider tracking_url w = do
    o ← load_order order_id w
    store_items ← assert_vendor_store_access access user_id o store
    assert_no_held_items store_items hold_transition_forbidden
    number ← validate_tracking_number tracking_number
    normalized_provider ← validate_fulfillment_provider provider
    url ← validate_optional_tracking_url parse tracking_url
    throw_if
        (not (
          same_order o.status paid
          || same_order o.status OrderStatus.processing
          || same_order o.status OrderStatus.shipped))
        invalid_order_status
    assert_vendor_items_uniform (statuses store_items) FulfillmentStatus.processing
    let items =
        update_items (in_store store) (mark_shipped now number normalized_provider url) o.items
    ok (
        persist_order_transition now (record o { items = items })
          (derive_order_status o.status (statuses items)) (user user_id) w)

  -- The branch of `updateTrackingForPublicApi` for items that are all shipped.
  unfoldable pub replace_tracking :
      Order → ℕ → Text → Text → Option Text → World → Result Error World
  replace_tracking o store tracking_number provider tracking_url w = do
    number ← validate_tracking_number tracking_number
    normalized_provider ← validate_fulfillment_provider provider
    url ← validate_optional_tracking_url parse tracking_url
    let items =
        update_items (in_store store) (mark_tracked now number normalized_provider url) o.items
    ok (record w { orders = save_in (record o { items = items }) w.orders })

-- A handler that commits on the way returns the tables also when it throws.
abbrev pub Outcome : Type 0
Outcome = Option Error × World

abbrev pub commit : World → Result Error World → Outcome
commit w (ok w') = (none, w')
commit w (err e) = (some e, w)

abbrev pub and_then : Outcome → (World → Outcome) → Outcome
and_then (none, w) f = f w
and_then (some e, w) f = (some e, w)

-- The set of the statuses is `{ s }`.
abbrev pub all_are : FulfillmentStatus → List OrderItem → Bool
all_are s items =
    any (λ (i : OrderItem). same_item i.fulfillment_status s) items
    && every (λ (i : OrderItem). same_item i.fulfillment_status s) items

module _ (parse : UrlParser) (access : Access) (now : ℕ) where
  -- From the checked order on.
  unfoldable pub track :
      ℕ → ℕ → ℕ → Text → Text → Option Text → World → Order → List OrderItem → Outcome
  track user_id store order_id number provider url w o store_items =
      let ship = λ (v : World).
        commit v
          (ship_vendor_order parse access now user_id store order_id number provider url v) in
      if all_are FulfillmentStatus.shipped store_items
      then commit w (replace_tracking parse access now o store number provider url w)
      else if all_are FulfillmentStatus.pending store_items
      then and_then (commit w (acknowledge_vendor_order access now user_id store order_id w)) ship
      else ship w

  unfoldable pub tracked_items : ℕ → ℕ → ℕ → World → Result Error (Order × List OrderItem)
  tracked_items user_id store order_id w = do
    o ← load_order order_id w
    store_items ← assert_vendor_store_access access user_id o store
    assert_no_held_items store_items hold_transition_forbidden
    ok (o, store_items)

  unfoldable pub update_tracking_for_public_api :
      ℕ → ℕ → ℕ → Text → Text → Option Text → World → Outcome
  update_tracking_for_public_api user_id store order_id number provider url w =
      elim (tracked_items user_id store order_id w) [
        | err e ↦ (some e, w)
        | ok (o, store_items) ↦ track user_id store order_id number provider url w o store_items
      ]

-- `phone.replace(/\D/g, '')`
abbrev pub digits : Text → Text
digits = keep (λ c. leb b'0' c && leb c b'9')

-- Who asks for the delivery to be confirmed; empty texts count as absent, as in the source's tests.
pub record Requester : Type 0 where
  pub customer_id : Option ℕ
  pub guest_phone : Option Text
  pub guest_pay_token : Option Text

abbrev pub some_eq : Option ℕ → ℕ → Bool
some_eq none n = false
some_eq (some m) n = m == n

abbrev pub phone_matches : Option Text → Text → Bool
phone_matches none phone = false
phone_matches (some own) phone = not (is_empty (digits own)) && text_eq (digits own) (digits phone)

-- Paid legacy guest orders may lack a token hash; the phone is enough for them.
abbrev pub check_token : (Text → Text) → Order → Option Text → ℕ → Result Error (Unit {0})
check_token sha256 o token now =
    if is_absent o.guest_pay_token_hash
    then ok tt
    else assert_guest_pay_token_access sha256 o.guest_pay_token_hash o.guest_pay_token_expires_at
        token now

abbrev pub check_guest :
    (Text → Text) → Order → Option Text → Option Text → ℕ → Result Error (Unit {0})
check_guest sha256 o none token now = err forbidden_order
check_guest sha256 o (some phone) token now =
    if is_empty phone
    then err forbidden_order
    else if phone_matches o.guest_phone phone
    then check_token sha256 o token now
    else err forbidden_order

-- The access checks of `confirmOrderDelivered`.
unfoldable pub check_requester : (Text → Text) → Order → Requester → ℕ → Result Error (Unit {0})
check_requester sha256 o r now = elim r.customer_id [
  | some c ↦ if some_eq o.customer_id c then ok tt else err forbidden_order
  | none ↦ check_guest sha256 o r.guest_phone r.guest_pay_token now
]

abbrev pub confirming_actor : Requester → Actor
confirming_actor r = elim r.customer_id [ none ↦ guest | some c ↦ customer c ]

abbrev pub is_guest : Actor → Bool
is_guest guest = true
is_guest _ = false

-- The history row of a guest does not fit its column, a uuid, so that the transaction is rolled back.
unfoldable pub confirm_order_delivered :
    (Text → Text) → ℕ → ℕ → Requester → World → Result Error World
confirm_order_delivered sha256 now order_id r w = do
  o ← load_order order_id w
  check_requester sha256 o r now
  throw_if (not (same_order o.status OrderStatus.shipped)) invalid_order_status
  throw_if
      (not (
        every
          (λ (i : OrderItem).
            same_item i.fulfillment_status FulfillmentStatus.shipped
            || same_item i.fulfillment_status FulfillmentStatus.delivered)
          o.items))
      order_not_fully_shipped
  throw_if (is_guest (confirming_actor r)) changed_by_not_uuid
  ok (
      persist_order_transition now
        (record o { items = update_items (λ i. true) (mark_delivered now) o.items })
        OrderStatus.delivered (confirming_actor r) w)

-- The pending payments of an order fail.
unfoldable pub fail_pending : ℕ → List Payment → List Payment
fail_pending order_id [] = []
fail_pending order_id (p ∷ ps) =
    elim p.status [
      | PaymentStatus.pending ↦ (if p.order_id == order_id then record p { status = failed } else p)
      | _ ↦ p
    ]
    ∷ fail_pending order_id ps

-- The order rows as the stock service reads them.
unfoldable pub stock_items : ℕ → List OrderItem → List Inventory.Item
stock_items order_id = map (λ (i : OrderItem). record {
  id = i.id;
  order_id = order_id;
  variant_id = i.variant_id;
  quantity = i.quantity;
})

-- The writes of `cancelVendorOrder`.
unfoldable pub cancel_order : ℕ → Order → Actor → World → World
cancel_order now o actor w =
    let items = update_items (λ i. true) (mark_cancelled now) o.items in
    record w {
      orders = save_in (record o { status = OrderStatus.cancelled; items = items }) w.orders;
      inventory = (restore_stock_for_items o.id (stock_items o.id items) w.inventory).0;
      payments = fail_pending o.id w.payments;
      history =
          w.history
          ++ record { order_id = o.id; status = OrderStatus.cancelled; changed_by = actor } ∷ [];
      notified = w.notified ++ (o.id, OrderStatus.cancelled) ∷ [];
    }

unfoldable pub cancel_vendor_order : Access → ℕ → ℕ → ℕ → ℕ → World → Result Error World
cancel_vendor_order access now user_id store order_id w = do
  o ← load_order order_id w
  store_items ← assert_vendor_store_access access user_id o store
  assert_single_store_order o store
  assert_no_held_items store_items hold_cancel_forbidden
  throw_if (same_order o.status OrderStatus.cancelled || same_order o.status refunded)
      order_already_cancelled
  throw_if (not (is_vendor_cancellable o.status)) invalid_order_status
  ok (cancel_order now o (user user_id) w)
