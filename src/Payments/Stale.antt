-- ===== src/Payments/Stale.antt =====
-- What the job for stale orders leaves: no unpaid order beyond its time.
mod Payments
use new_sopet_backend.Prelude.{
  ℕ, suc, ◌≡◌, ◌≤◌, ◌+◌, refl, sym, subst, ap, ◌∙◌, Bool, true, false, not, ◌&&◌, ◌||◌, inl, inr,
  Option, none, some, List, [], ◌∷◌, arith, ◌==◌, if◌then◌else◌, count, count-le, count-keep_hit,
  find, any, keep, Bool-cases, Option-cases, ==_refl,
}
use new_sopet_backend.Orders.Status.{OrderStatus, same_order, pending_payment}
use new_sopet_backend.Orders.Fulfillment.{Order, Payment, World, save_in, is_held}
use new_sopet_backend.Orders.Rows.{PaymentReference}
use new_sopet_backend.Orders.Fulfillment.Kept.{find-test, find-save_in_self, find-save_in_cases}
use new_sopet_backend.Payments.{
  Config, is_pending, is_pending_payment_of, is_paid_of, is_skipped, is_stale, fail, save_payment,
  save_failed, cancel_order_restore_stock_and_fail_payments, cancel_stale_one, cancel_stale_loop,
  cancel_stale_unpaid_orders,
}
use new_sopet_backend.Payments.Tables.{find-keep}
use new_sopet_backend.Payments.Stale.Payments.{
  save_failed-none_pending, save_failed-AtMost, save_failed-unpaid,
}
use new_sopet_backend.Payments.OnePending.{count-save_payment}

-- The order is cancelled, off the gateway, and nothing of it waits for money.
pub record Closed (id : ℕ) (w : World) : Type 0 where
  pub order : Order
  pub is : find (λ (p : Order). p.id == id) w.orders ≡ some order
  pub status : order.status ≡ OrderStatus.cancelled
  pub off : order.payment_reference ≡ none
  pub unpaid : count (is_pending_payment_of id) w.payments ≡ 0

cancel_order-Closed :
    (o o' : Order) (w : World)
    → find (λ (p : Order). p.id == o.id) w.orders ≡ some o'
    → Closed o.id (
        cancel_order_restore_stock_and_fail_payments o
          (keep (is_pending_payment_of o.id) w.payments)
          w)
unfolding cancel_order_restore_stock_and_fail_payments
cancel_order-Closed o o' w found = record {
  order = record o { status = OrderStatus.cancelled; payment_reference = none };
  is = find-save_in_self o.id o' _ w.orders found refl;
  status = refl;
  off = refl;
  unpaid = save_failed-none_pending o.id w.payments;
}

-- A round leaves a closed order closed.
cancel_order-stays :
    (id : ℕ) (o : Order) (qs : List Payment) (w : World)
    → Closed id w
    → Closed id (cancel_order_restore_stock_and_fail_payments o qs w)
unfolding cancel_order_restore_stock_and_fail_payments
cancel_order-stays id o qs w h =
    let saved : Order = record o { status = OrderStatus.cancelled; payment_reference = none } in
    let unpaid : count (is_pending_payment_of id) (save_failed qs w.payments) ≡ 0 =
      omega (arith, save_failed-AtMost id qs w.payments, h.unpaid) in
    elim (find-save_in_cases id saved w.orders) [
      | inl same ↦ record {
        order = h.order;
        is = same ∙ h.is;
        status = h.status;
        off = h.off;
        unpaid = unpaid;
      }
      | inr (own, found) ↦ record {
        order = saved;
        is = found;
        status = refl;
        off = refl;
        unpaid = unpaid;
      }
    ]

cancel_stale_one-stays :
    (id : ℕ) (o : Order) (s : World × ℕ) → Closed id s.0 → Closed id (cancel_stale_one o s).0
unfolding cancel_stale_one
cancel_stale_one-stays id o (w, n) h = elim (Bool-cases (is_skipped o w)) [
  | inl skip ↦ rw (skip, cancel_stale_one) h
  | inr go ↦ rw (go, cancel_stale_one) (cancel_order-stays id o _ w h)
]

cancel_stale_loop-stays :
    (id : ℕ) (os : List Order) (s : World × ℕ)
    → Closed id s.0
    → Closed id (cancel_stale_loop os s).0
unfolding cancel_stale_loop
cancel_stale_loop-stays id [] s h = h
cancel_stale_loop-stays id (o ∷ os) s h =
    cancel_stale_loop-stays id os _ (cancel_stale_one-stays id o s h)

-- The order is there, and no payment of it is paid.
record Unpaid (id : ℕ) (w : World) : Type 0 where
  order : Order
  is : find (λ (p : Order). p.id == id) w.orders ≡ some order
  none_paid : any (is_paid_of id) w.payments ≡ false

cancel_order-Unpaid :
    (id : ℕ) (o : Order) (qs : List Payment) (w : World)
    → Unpaid id w
    → Unpaid id (cancel_order_restore_stock_and_fail_payments o qs w)
unfolding cancel_order_restore_stock_and_fail_payments
cancel_order-Unpaid id o qs w h =
    let saved : Order = record o { status = OrderStatus.cancelled; payment_reference = none } in
    elim (find-save_in_cases id saved w.orders) [
      | inl same ↦ record {
        order = h.order;
        is = same ∙ h.is;
        none_paid = save_failed-unpaid id qs w.payments h.none_paid;
      }
      | inr (own, found) ↦ record {
        order = saved;
        is = found;
        none_paid = save_failed-unpaid id qs w.payments h.none_paid;
      }
    ]

cancel_stale_one-Unpaid :
    (id : ℕ) (o : Order) (s : World × ℕ) → Unpaid id s.0 → Unpaid id (cancel_stale_one o s).0
unfolding cancel_stale_one
cancel_stale_one-Unpaid id o (w, n) h = elim (Bool-cases (is_skipped o w)) [
  | inl skip ↦ rw (skip, cancel_stale_one) h
  | inr go ↦ rw (go, cancel_stale_one) (cancel_order-Unpaid id o _ w h)
]

cancel_stale_one-Closed :
    (o : Order) (s : World × ℕ)
    → same_order o.status pending_payment ≡ true
    → any is_held o.items ≡ false
    → Unpaid o.id s.0
    → Closed o.id (cancel_stale_one o s).0
unfolding cancel_stale_one
cancel_stale_one-Closed o (w, n) open_ free h =
    let none_paid = h.none_paid in
    let go : is_skipped o w ≡ false = ground arith in
    rw (go, cancel_stale_one) (cancel_order-Closed o h.order w h.is)

cancel_stale_loop-Closed :
    (id : ℕ) (o : Order) (os : List Order) (s : World × ℕ)
    → find (λ (p : Order). p.id == id) os ≡ some o
    → same_order o.status pending_payment ≡ true
    → any is_held o.items ≡ false
    → Unpaid id s.0
    → Closed id (cancel_stale_loop os s).0
unfolding cancel_stale_loop
cancel_stale_loop-Closed id o [] s found open_ free h = cc
cancel_stale_loop-Closed id o (p ∷ ps) s found open_ free h = elim (Bool-cases (p.id == id)) [
  | inl this ↦
      let own : o.id ≡ id = find-test id (p ∷ ps) o found in
      let same : p ≡ o = ground arith in
      cancel_stale_loop-stays id ps _ (
        subst (λ x. Closed id (cancel_stale_one x s).0) (sym same)
          (subst (λ j. Closed j (cancel_stale_one o s).0) own
            (cancel_stale_one-Closed o s open_ free (subst (λ j. Unpaid j s.0) (sym own) h))))
  | inr next ↦
      let later : find (λ (q : Order). q.id == id) ps ≡ some o = ground arith in
      cancel_stale_loop-Closed id o ps _ later open_ free (cancel_stale_one-Unpaid id p s h)
]

-- The job for stale orders cancels every unpaid order that is beyond its time, or is a guest's without a
-- token, and holds no item and has no paid payment: the order is then cancelled, has no charge that a
-- webhook could find, and no payment of it is pending.
pub cancel_stale_unpaid_orders-Closed :
    (c : Config) (now id : ℕ) (w : World) (o : Order)
    → find (λ (p : Order). p.id == id) w.orders ≡ some o
    → is_stale c now o ≡ true
    → any is_held o.items ≡ false
    → any (is_paid_of id) w.payments ≡ false
    → Closed id (cancel_stale_unpaid_orders c now w).0
unfolding cancel_stale_unpaid_orders
cancel_stale_unpaid_orders-Closed c now id w o found stale free unpaid =
    cancel_stale_loop-Closed id o (keep (is_stale c now) w.orders) (w, 0)
      (find-keep id (is_stale c now) w.orders o found stale) (ground arith) free
      record { order = o; is = found; none_paid = unpaid }
