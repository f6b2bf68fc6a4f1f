-- ===== src/Payments/Webhook.antt =====
-- modules/payments/payments.service.ts: `handleWebhook` and `markOrderPaid`.
-- The gateway belongs to Omise: what `GET /charges/{id}` answers is a parameter, `none` where it throws.
use new_sopet_backend.Prelude.{
  ℕ, Bool, true, false, ◌&&◌, ◌||◌, Option, none, some, ◌==◌, if◌then◌else◌, find,
}
use new_sopet_backend.Orders.Status.{OrderStatus, same_order, is_terminal_order}
use new_sopet_backend.Orders.Fulfillment.{Order, PaymentStatus, Payment, World, save_in}
use new_sopet_backend.Orders.Rows.{charge}
use new_sopet_backend.Payments.{Config, is_paid, is_charge, save_payment, latest_payment, fail}

pub data EventKey : Type 0 where
  charge_complete charge_fail other_charge transfer recipient : EventKey

pub data ChargeStatus : Type 0 where
  successful failed other : ChargeStatus

-- The parts of the payload that are read; `none` is an absent or empty field.
pub record Payload : Type 0 where
  pub key : EventKey
  pub charge_id : Option ℕ
  pub status : ChargeStatus

-- A charge as the gateway gives it, with its amount in satang.
pub record OmiseCharge : Type 0 where
  pub status : ChargeStatus
  pub amount : Option ℕ

abbrev pub FetchCharge : Type 0
FetchCharge = ℕ → Option OmiseCharge

abbrev pub is_complete : EventKey → Bool
is_complete charge_complete = true
is_complete _ = false

abbrev pub is_fail : EventKey → Bool
is_fail charge_fail = true
is_fail _ = false

abbrev pub is_successful : ChargeStatus → Bool
is_successful successful = true
is_successful _ = false

abbrev pub is_failed_charge : ChargeStatus → Bool
is_failed_charge failed = true
is_failed_charge _ = false

abbrev pub is_amount : ℕ → Option ℕ → Bool
is_amount expected none = false
is_amount expected (some n) = n == expected

unfoldable pub mark_order_paid : ℕ → Order → Payment → ℕ → World → World
mark_order_paid now o p charge_id w = record w {
  payments = save_payment (record p { status = PaymentStatus.paid }) w.payments;
  orders =
      save_in
        (record o {
          status = OrderStatus.paid;
          payment_reference = some (charge charge_id);
          paid_at = some now;
        })
        w.orders;
}

-- The transaction of a failed charge.
unfoldable pub fail_charge : Order → Payment → ℕ → World → World
fail_charge o p charge_id w = record w {
  payments = save_payment (fail p) w.payments;
  orders =
      if is_charge charge_id o.payment_reference
      then save_in (record o { payment_reference = none }) w.orders
      else w.orders;
}

-- What is done once the status of the charge is known.
unfoldable pub settle : ℕ → EventKey → OmiseCharge → Order → Payment → ℕ → World → World
settle now key c o p charge_id w =
    if is_complete key && is_successful c.status
    then (if is_amount o.total c.amount then mark_order_paid now o p charge_id w else w)
    else if is_fail key || is_failed_charge c.status
    then fail_charge o p charge_id w
    else w

-- The charge as the gateway confirms it, or the payload's where there is no key to ask with.
abbrev pub confirmed : Config → FetchCharge → ℕ → ChargeStatus → Option OmiseCharge
confirmed c fetch id status =
    if c.has_secret_key then fetch id else some record { status = status; amount = none }

-- The early returns that leave a webhook unheard.
abbrev pub is_ignored : Payload → Order → Payment → Bool
is_ignored e o p =
    (is_complete e.key
      && (same_order o.status OrderStatus.paid || is_paid p.status || is_terminal_order o.status))
    || ((is_fail e.key || is_failed_charge e.status) && is_terminal_order o.status)

unfoldable pub handle_charge :
    Config → FetchCharge → ℕ → Payload → ℕ → Order → Payment → World → World
handle_charge c fetch now e id o p w =
    if is_ignored e o p then w else elim (confirmed c fetch id e.status) [
      | none ↦ w
      | some answer ↦ settle now e.key answer o p id w
    ]

-- `transfer.*` and `recipient.*`, which go to the services of payouts and stores.
abbrev pub is_of_charge : EventKey → Bool
is_of_charge transfer = false
is_of_charge recipient = false
is_of_charge _ = true

unfoldable pub handle_charge_event : Config → FetchCharge → ℕ → Payload → ℕ → World → World
handle_charge_event c fetch now e id w =
    elim (find (λ (o : Order). is_charge id o.payment_reference) w.orders) [
      | none ↦ w
      | some o ↦ elim (latest_payment o.id w.payments) [
        | none ↦ w
        | some p ↦ handle_charge c fetch now e id o p w
      ]
    ]

-- The tables of orders and payments after a webhook.
unfoldable pub handle_webhook : Config → FetchCharge → ℕ → Payload → World → World
handle_webhook c fetch now e w =
    if is_of_charge e.key
    then elim e.charge_id [ none ↦ w | some id ↦ handle_charge_event c fetch now e id w ]
    else w
