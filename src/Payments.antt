-- ===== src/Payments.antt =====
-- modules/payments/payments.service.ts: the tables it shares, the expiry of QR payments, and the
-- cancellation of stale unpaid orders, which payment-expiry.scheduler.ts runs.
-- Dates are milliseconds, and `now` is `new Date()`. A transaction is one step. What is published after
-- a commit (payment events, vendor webhooks, mails) is left out.
pub mod Access
pub mod Checkout
pub mod Charge
pub mod Webhook
pub mod Transfer
pub mod Cancel
pub mod Events
pub mod Tables
pub mod OnePending
pub mod Overdue
pub mod Stale
pub mod Confirmed
pub mod Final
pub mod Coherent
mod Tests
use new_sopet_backend.Prelude.{
  ℕ, suc, ◌+◌, ◌*◌, Bool, true, false, not, ◌&&◌, ◌||◌, Option, none, some, List, [], ◌∷◌, ◌==◌,
  leb, ltb, if◌then◌else◌, any, keep, find,
}
use new_sopet_backend.Inventory.{restore_stock_for_items}
use new_sopet_backend.Orders.Status.{
  OrderStatus, pending_payment, PaymentMethod, promptpay, same_order, is_terminal_order,
}
use new_sopet_backend.Orders.Fulfillment.{
  Order, PaymentStatus, Payment, World, save_in, is_held, stock_items,
}
use new_sopet_backend.Orders.Rows.{PaymentReference, charge}

-- The settings that the service reads.
pub record Config : Type 0 where
  pub qr_expiry_minutes : Option ℕ
  pub unpaid_order_cancel_after_ms : Option ℕ
  pub has_secret_key : Bool

-- `configured && configured > 0 ? configured : fallback`
abbrev pub positive_or : ℕ → Option ℕ → ℕ
positive_or fallback none = fallback
positive_or fallback (some n) = if ltb 0 n then n else fallback

abbrev pub compute_qr_expires_at : Config → ℕ → ℕ
compute_qr_expires_at c from = from + positive_or 15 c.qr_expiry_minutes * 60000

abbrev pub unpaid_order_cancel_after : Config → ℕ
unpaid_order_cancel_after c = positive_or 86400000 c.unpaid_order_cancel_after_ms

-- `===` on the statuses of a payment.
abbrev pub is_pending : PaymentStatus → Bool
is_pending PaymentStatus.pending = true
is_pending _ = false

abbrev pub is_paid : PaymentStatus → Bool
is_paid PaymentStatus.paid = true
is_paid _ = false

abbrev pub is_failed : PaymentStatus → Bool
is_failed PaymentStatus.failed = true
is_failed _ = false

abbrev pub is_promptpay : PaymentMethod → Bool
is_promptpay promptpay = true
is_promptpay _ = false

abbrev pub effective_expires_at : Config → Payment → Option ℕ
effective_expires_at c p = elim p.expires_at [
  | some t ↦ some t
  | none ↦
      if is_promptpay p.payment_method && is_pending p.status
      then some (compute_qr_expires_at c p.created_at)
      else none
]

abbrev pub is_qr_payment_expired : Config → Payment → ℕ → Bool
is_qr_payment_expired c p now = elim (effective_expires_at c p) [
  | none ↦ false
  | some t ↦ leb t now
]

-- The write of a row that is there.
abbrev pub save_payment : Payment → List Payment → List Payment
save_payment p [] = []
save_payment p (q ∷ qs) =
    let rest = save_payment p qs in if q.id == p.id then p ∷ rest else q ∷ rest

-- The newest payment of an order (`createdAt: 'DESC'`); of two of one time, the later row.
abbrev pub newer : Payment → Option Payment → Payment
newer p none = p
newer p (some q) = if leb p.created_at q.created_at then q else p

abbrev pub latest_payment : ℕ → List Payment → Option Payment
latest_payment order_id [] = none
latest_payment order_id (p ∷ ps) =
    let rest = latest_payment order_id ps in
    if p.order_id == order_id then some (newer p rest) else rest

abbrev pub fail : Payment → Payment
fail p = record p { status = PaymentStatus.failed }

-- `===` on references.
abbrev pub is_charge : ℕ → Option PaymentReference → Bool
is_charge id (some (charge n)) = n == id
is_charge id _ = false

-- The loop over `paymentsToFail`.
unfoldable pub save_failed : List Payment → List Payment → List Payment
save_failed [] ps = ps
save_failed (p ∷ qs) ps =
    save_failed qs (if is_pending p.status then save_payment (fail p) ps else ps)

unfoldable pub cancel_order_restore_stock_and_fail_payments : Order → List Payment → World → World
cancel_order_restore_stock_and_fail_payments o payments_to_fail w = record w {
  payments = save_failed payments_to_fail w.payments;
  orders = save_in (record o { status = OrderStatus.cancelled; payment_reference = none }) w.orders;
  inventory = (restore_stock_for_items o.id (stock_items o.id o.items) w.inventory).0;
}

-- `order.paymentReference && (!payment.omiseChargeId || order.paymentReference === it)`
abbrev pub refers_to_payment : Option PaymentReference → Option ℕ → Bool
refers_to_payment none _ = false
refers_to_payment (some r) none = true
refers_to_payment (some r) (some id) = is_charge id (some r)

-- The payment as it is returned, with the tables. The cancellation of the charge at the gateway is best
-- effort and changes no table.
unfoldable pub finalize_expired : Order → Payment → World → World × Payment
finalize_expired o p w =
    if is_terminal_order o.status || not (is_pending p.status) then (w, p) else (
      record w {
        payments = save_payment (fail p) w.payments;
        orders =
            if refers_to_payment o.payment_reference p.omise_charge_id
            then save_in (record o { payment_reference = none }) w.orders
            else w.orders;
      },
      fail p,
    )

unfoldable pub finalize_expired_payment : Payment → World → World × Payment
finalize_expired_payment p w = elim (find (λ (o : Order). o.id == p.order_id) w.orders) [
  | none ↦ (w, p)
  | some o ↦ finalize_expired o p w
]

-- One round of `expirePendingQrPayments`, with the number of payments that have failed.
unfoldable pub expire_one : Config → ℕ → Payment → World × ℕ → World × ℕ
expire_one c now p (w, n) =
    let (w', updated) = finalize_expired_payment p w in
    if not (is_qr_payment_expired c p now)
    then (w, n)
    else (w', if is_failed updated.status then suc n else n)

unfoldable pub expire_loop : Config → ℕ → List Payment → World × ℕ → World × ℕ
expire_loop c now [] s = s
expire_loop c now (p ∷ ps) s = expire_loop c now ps (expire_one c now p s)

abbrev pub is_pending_qr : Payment → Bool
is_pending_qr p = is_promptpay p.payment_method && is_pending p.status

unfoldable pub expire_pending_qr_payments : Config → ℕ → World → World × ℕ
expire_pending_qr_payments c now w = expire_loop c now (keep is_pending_qr w.payments) (w, 0)

unfoldable pub expire_pending_qr_payment_if_needed : Config → ℕ → Payment → World → World × Payment
expire_pending_qr_payment_if_needed c now p w =
    if not (is_pending_qr p) || not (is_qr_payment_expired c p now)
    then (w, p)
    else finalize_expired_payment p w

abbrev pub is_null : {A : Type 0} → Option A → Bool
is_null none = true
is_null (some a) = false

-- The two alternatives of the query.
abbrev pub is_stale : Config → ℕ → Order → Bool
is_stale c now o =
    same_order o.status pending_payment
    && (leb (o.created_at + unpaid_order_cancel_after c) now
        || not (is_null o.guest_phone) && is_null o.guest_pay_token_hash)

abbrev pub is_paid_of : ℕ → Payment → Bool
is_paid_of order_id p = p.order_id == order_id && is_paid p.status

abbrev pub is_pending_payment_of : ℕ → Payment → Bool
is_pending_payment_of order_id p = p.order_id == order_id && is_pending p.status

-- The `continue`s of the loop.
abbrev pub is_skipped : Order → World → Bool
is_skipped o w =
    not (same_order o.status pending_payment)
    || any is_held o.items
    || any (is_paid_of o.id) w.payments

unfoldable pub cancel_stale_one : Order → World × ℕ → World × ℕ
cancel_stale_one o (w, n) = if is_skipped o w then (w, n) else (
  cancel_order_restore_stock_and_fail_payments o (keep (is_pending_payment_of o.id) w.payments) w,
  suc n,
)

unfoldable pub cancel_stale_loop : List Order → World × ℕ → World × ℕ
cancel_stale_loop [] s = s
cancel_stale_loop (o ∷ os) s = cancel_stale_loop os (cancel_stale_one o s)

-- No step throws here, so the `catch` of the loop has nothing to do.
unfoldable pub cancel_stale_unpaid_orders : Config → ℕ → World → World × ℕ
cancel_stale_unpaid_orders c now w = cancel_stale_loop (keep (is_stale c now) w.orders) (w, 0)
