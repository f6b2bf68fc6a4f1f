-- ===== src/Payments/Tests.antt =====
-- The life of three payments, and the theorems at concrete tables.
use new_sopet_backend.Prelude.{
  ℕ, ◌≡◌, ◌⊎◌, refl, true, Option, none, some, List, [], ◌∷◌, find, ◌==◌, map, count, arith,
}
use new_sopet_backend.Prelude.Result.{ok, ◌>>=◌, throw_if}
use new_sopet_backend.Orders.Status.{
  OrderStatus, pending_payment, PaymentMethod, promptpay, FulfillmentStatus, pending,
  derive_order_status, derive_from_active, derive_from_progressing,
}
use new_sopet_backend.Orders.Fulfillment.{
  fail_pending, OrderItem, Order, PaymentStatus, Payment, World,
}
use new_sopet_backend.Orders.Rows.{PaymentReference, charge}
use new_sopet_backend.Payments.{
  Config, expire_pending_qr_payments, cancel_stale_unpaid_orders, cancel_stale_loop,
  cancel_stale_one,
}
use new_sopet_backend.Payments.Access.{order_by_id, check_payer, assert_can_pay_for_order}
use new_sopet_backend.Payments.Checkout.{CheckoutPaymentMethod}
use new_sopet_backend.Payments.Charge.{
  Services, CreateCharge, create_charge, assert_order_payable_for_create, replace_payment,
  insert_charged, charge_body, charge_source, after_charge, insert_payment,
}
use new_sopet_backend.Payments.Webhook.{
  charge_complete, charge_fail, ChargeStatus, successful, Payload, FetchCharge, handle_webhook,
  handle_charge_event, handle_charge, settle, mark_order_paid, fail_charge,
}
use new_sopet_backend.Payments.Events.{
  Event, stale_order_job, checkout, webhook, confirmation, react, react_all,
}
use new_sopet_backend.Payments.OnePending.{OnePending}
use new_sopet_backend.Payments.Overdue.{
  is_open, is_overdue, expire_pending_qr_payments-none_overdue,
}
use new_sopet_backend.Payments.Stale.{Closed, cancel_stale_unpaid_orders-Closed}
use new_sopet_backend.Payments.Confirmed.{PaidBy, handle_webhook-PaidBy}
use new_sopet_backend.Payments.Final.{Has}
use new_sopet_backend.Payments.Final.Runs.{react_all-Has}
use new_sopet_backend.Payments.Transfer.{
  find_confirmable, confirm_transfer, confirm_bank_transfer_paid,
}
use new_sopet_backend.Payments.Coherent.{TransferConfirmed, confirm_bank_transfer_paid_lem}
use new_sopet_backend.Orders.Fulfillment.Coherent.{AllCoherent}
use new_sopet_backend.Payments.OnePending.Requests.{react_all-OnePending}

abbrev an_item : ℕ → FulfillmentStatus → OrderItem
an_item id s = record {
  id = id;
  store_id = 7;
  variant_id = id;
  quantity = 1;
  subtotal = 500;
  fulfillment_status = s;
  previous_fulfillment_status = none;
  hold_started_at = none;
  tracking_number = none;
  fulfillment_provider = none;
  tracking_url = none;
  shipped_at = none;
  delivered_at = none;
  updated_at = 0;
}

abbrev an_order : ℕ → OrderStatus → PaymentMethod → Option PaymentReference → Order
an_order id s method reference = record {
  id = id;
  status = s;
  previous_status = none;
  payment_method = method;
  customer_id = some 9;
  guest_phone = none;
  guest_pay_token_hash = none;
  guest_pay_token_expires_at = none;
  paid_at = none;
  subtotal = 500;
  discount_amount = 0;
  shipping_fee = 0;
  total = 500;
  payment_reference = reference;
  created_at = 1000;
  items = an_item id pending ∷ [];
  store_shippings = [];
}

abbrev a_payment : ℕ → ℕ → PaymentMethod → Option ℕ → Payment
a_payment id order_id method charge_id = record {
  id = id;
  order_id = order_id;
  amount = 500;
  payment_method = method;
  status = PaymentStatus.pending;
  expires_at = none;
  omise_charge_id = charge_id;
  created_at = 1000;
}

-- A QR payment, a bank transfer, and an order that was cancelled.
abbrev start : World
start = record {
  orders =
      an_order 1 pending_payment promptpay (some (charge 77))
      ∷ an_order 2 pending_payment PaymentMethod.bank_transfer none
      ∷ an_order 3 OrderStatus.cancelled promptpay none
      ∷ [];
  payments =
      a_payment 4 1 promptpay (some 77) ∷ a_payment 5 2 PaymentMethod.bank_transfer none ∷ [];
  inventory = record { items = []; variants = []; transactions = [] };
  history = [];
  accepted = [];
  method_changed = [];
  approved = [];
  notified = [];
}

abbrev config : Config
config = record {
  qr_expiry_minutes = none;
  unpaid_order_cancel_after_ms = none;
  has_secret_key = true;
}

abbrev services : Services
services = record {
  config = config;
  sha256 = λ t. t;
  id_text = λ n. n ∷ [];
  post_charge = λ b. some record { id = 78; status = ChargeStatus.other };
  storefront_url = none;
  bank_transfer_configured = true;
  saved_card = λ m c. none;
  omise_customer = λ c. none;
}

abbrev fetch : FetchCharge
fetch n = some record { status = successful; amount = some 500 }

abbrev complete : ℕ → Payload
complete id = record { key = charge_complete; charge_id = some id; status = successful }

abbrev new_qr : CreateCharge
new_qr = record {
  order_id = 1;
  payment_method = CheckoutPaymentMethod.promptpay;
  omise_token = none;
  saved_payment_method_id = none;
  payer = record { customer_id = some 9; guest_pay_token = none };
  platform = none;
}

abbrev events : List (ℕ × Event)
events =
    (2000, checkout 6 new_qr)
    ∷ (3000, webhook fetch (complete 78))
    ∷ (4000, confirmation 8 2)
    ∷ (90000000, stale_order_job)
    ∷ []

abbrev order_states : World → List OrderStatus
order_states w = map (λ (o : Order). o.status) w.orders

abbrev payment_states : World → List PaymentStatus
payment_states w = map (λ (p : Payment). p.status) w.payments

runs :
    let after = react_all services events start in
    (order_states after ≡ OrderStatus.paid ∷ OrderStatus.paid ∷ OrderStatus.cancelled ∷ [])
    × (payment_states after ≡ PaymentStatus.failed ∷ PaymentStatus.paid ∷ PaymentStatus.paid ∷ [])
unfolding react_all react create_charge assert_can_pay_for_order order_by_id check_payer
    assert_order_payable_for_create replace_payment insert_charged charge_body charge_source
    after_charge insert_payment fail_pending handle_webhook handle_charge_event handle_charge settle
    mark_order_paid confirm_bank_transfer_paid find_confirmable confirm_transfer
    cancel_stale_unpaid_orders cancel_stale_loop cancel_stale_one derive_order_status
    derive_from_active derive_from_progressing ◌>>=◌ throw_if
runs = (refl, refl)

start-OnePending : OnePending start
start-OnePending id = ground arith

react_all-OnePending_example : OnePending (react_all services events start)
react_all-OnePending_example = react_all-OnePending services events start start-OnePending

start-Has : Has 3 OrderStatus.cancelled start
start-Has = record {
  unique = (refl, (refl, (refl, tt)));
  order = an_order 3 OrderStatus.cancelled promptpay none;
  is = refl;
  status = refl;
}

react_all-Has_example : Has 3 OrderStatus.cancelled (react_all services events start)
react_all-Has_example = react_all-Has 3 OrderStatus.cancelled services events start refl start-Has

handle_webhook-PaidBy_example :
    (o' : Order) × (find
        (λ (p : Order). p.id == 1)
        (handle_webhook config fetch 3000 (complete 77) start).orders
      ≡ some o')
    × ((o'.status ≡ pending_payment)
        ⊎ PaidBy config fetch
            (complete 77)
            start
            (an_order 1 pending_payment promptpay (some (charge 77)))
            o')
handle_webhook-PaidBy_example =
    handle_webhook-PaidBy config fetch 3000 (complete 77) start 1
      (an_order 1 pending_payment promptpay (some (charge 77))) (refl, (refl, (refl, tt))) refl

-- The quarter of an hour of the QR payment has passed, and a day for the orders.
expire_pending_qr_payments-none_overdue_example :
    let after = (expire_pending_qr_payments config 901000 start).0 in
    count (is_overdue config 901000 (λ id. is_open id after.orders)) after.payments ≡ 0
expire_pending_qr_payments-none_overdue_example =
    expire_pending_qr_payments-none_overdue config 901000 start

cancel_stale_unpaid_orders-Closed_example :
    Closed 1 (cancel_stale_unpaid_orders config 86401000 start).0
cancel_stale_unpaid_orders-Closed_example =
    cancel_stale_unpaid_orders-Closed config 86401000 1 start
      (an_order 1 pending_payment promptpay (some (charge 77))) refl refl refl refl

start-AllCoherent : AllCoherent start
unfolding derive_order_status derive_from_active derive_from_progressing
start-AllCoherent = (
  record { derived = refl; has_item = refl },
  (record { derived = refl; has_item = refl }, (record { derived = refl; has_item = refl }, tt)),
)

abbrev transferred : World
transferred =
    confirm_transfer 4000 8 (an_order 2 pending_payment PaymentMethod.bank_transfer none)
      (a_payment 5 2 PaymentMethod.bank_transfer none) start

second_confirmed : confirm_bank_transfer_paid 4000 8 2 start ≡ ok transferred
unfolding confirm_bank_transfer_paid order_by_id find_confirmable ◌>>=◌ throw_if
second_confirmed = refl

confirm_bank_transfer_paid_lem_example : TransferConfirmed 4000 8 2 start transferred
confirm_bank_transfer_paid_lem_example =
    confirm_bank_transfer_paid_lem 4000 8 2 start transferred start-AllCoherent second_confirmed

-- An order whose only item was put on hold while its charge was on its way.
abbrev held : World
held = record start {
  orders =
      record (an_order 1 pending_payment promptpay (some (charge 77))) {
        items = an_item 1 FulfillmentStatus.on_hold ∷ [];
      }
      ∷ [];
}

-- The webhook sets `paid`, where the ladder gives `on_hold` for the items.
webhook_of_held :
    (order_states (handle_webhook config fetch 3000 (complete 77) held) ≡ OrderStatus.paid ∷ [])
    × (derive_order_status OrderStatus.paid (FulfillmentStatus.on_hold ∷ []) ≡ OrderStatus.on_hold)
unfolding handle_webhook handle_charge_event handle_charge settle mark_order_paid
    derive_order_status derive_from_active
webhook_of_held = (refl, refl)

-- A shipped order, which its vendor had marked as paid while the charge was on its way, is set back to `paid`.
abbrev shipped_world : World
shipped_world = record start {
  orders =
      record (an_order 1 OrderStatus.shipped promptpay (some (charge 77))) {
        items = an_item 1 FulfillmentStatus.shipped ∷ [];
      }
      ∷ [];
}

webhook_of_shipped :
    order_states (handle_webhook config fetch 3000 (complete 77) shipped_world)
    ≡ OrderStatus.paid ∷ []
unfolding handle_webhook handle_charge_event handle_charge settle mark_order_paid
webhook_of_shipped = refl

-- A late `charge.fail` of a paid order: its payment fails although the gateway says `successful`.
late_failure :
    let after =
      handle_webhook config fetch 3000
        record { key = charge_fail; charge_id = some 77; status = ChargeStatus.other }
        (handle_webhook config fetch 2000 (complete 77) start) in
    payment_states after ≡ PaymentStatus.failed ∷ PaymentStatus.pending ∷ []
unfolding handle_webhook handle_charge_event handle_charge settle mark_order_paid fail_charge
late_failure = refl
