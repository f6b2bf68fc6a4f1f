-- ===== src/Payments/OnePending.antt =====
-- An order never has two pending payments.
pub mod Requests
use new_sopet_backend.Prelude.{
  ℕ, ◌≡◌, ◌≤◌, ◌+◌, refl, subst, Bool, true, false, not, ◌&&◌, ◌||◌, inl, inr, Option, none, some,
  List, [], ◌∷◌, ◌++◌, arith, ◌==◌, if◌then◌else◌, count, count-append, find, keep, Bool-cases,
  Option-cases,
}
use new_sopet_backend.Prelude.Result.{
  Result, ok, err, Ensures, Ensures-ok, Ensures-err, Ensures-bind, Ensures-throw_if,
}
use new_sopet_backend.Orders.Status.{is_terminal_order}
use new_sopet_backend.Orders.Fulfillment.{Order, PaymentStatus, Payment, World, fail_pending}
use new_sopet_backend.Payments.{
  Config, is_pending, is_pending_payment_of, is_skipped, is_qr_payment_expired, fail, save_payment,
  save_failed, latest_payment, is_charge, cancel_order_restore_stock_and_fail_payments,
  finalize_expired, finalize_expired_payment, expire_one, expire_loop, expire_pending_qr_payments,
  cancel_stale_one, cancel_stale_loop, cancel_stale_unpaid_orders,
}

abbrev pub AtMostOne : List Payment → Type 0
AtMostOne ps = (id : ℕ) → count (is_pending_payment_of id) ps ≤ 1

abbrev pub OnePending : World → Type 0
OnePending w = AtMostOne w.payments

-- A row that is not pending adds nothing.
pub count-save_payment :
    (id : ℕ) (p : Payment) (ps : List Payment)
    → is_pending p.status ≡ false
    → count (is_pending_payment_of id) (save_payment p ps) ≤ count (is_pending_payment_of id) ps
count-save_payment id p [] h = omega arith
count-save_payment id p (q ∷ qs) h = ground (arith, count-save_payment id p qs h)

pub save_payment-AtMostOne :
    (p : Payment) (ps : List Payment)
    → is_pending p.status ≡ false
    → AtMostOne ps
    → AtMostOne (save_payment p ps)
save_payment-AtMostOne p ps h one id = omega (arith, count-save_payment id p ps h, one id)

save_failed-AtMostOne : (qs ps : List Payment) → AtMostOne ps → AtMostOne (save_failed qs ps)
unfolding save_failed
save_failed-AtMostOne [] ps one = one
save_failed-AtMostOne (q ∷ qs) ps one = elim (Bool-cases (is_pending q.status)) [
  | inl live ↦ rw live (save_failed-AtMostOne qs _ (save_payment-AtMostOne (fail q) ps refl one))
  | inr done ↦ rw done (save_failed-AtMostOne qs ps one)
]

pub count-fail_pending :
    (id order_id : ℕ) (ps : List Payment)
    → count (is_pending_payment_of id) (fail_pending order_id ps)
      ≡ (if order_id == id then 0 else count (is_pending_payment_of id) ps)
unfolding fail_pending
count-fail_pending id order_id [] = ground arith
count-fail_pending id order_id (p ∷ ps) = ground (arith, count-fail_pending id order_id ps)

finalize_expired-OnePending :
    (o : Order) (p : Payment) (w : World) → OnePending w → OnePending (finalize_expired o p w).0
unfolding finalize_expired
finalize_expired-OnePending o p w one =
    elim (Bool-cases (is_terminal_order o.status || not (is_pending p.status))) [
      | inl skip ↦ rw (skip, finalize_expired) one
      | inr go ↦ rw (go, finalize_expired) (save_payment-AtMostOne (fail p) w.payments refl one)
    ]

finalize_expired_payment-OnePending :
    (p : Payment) (w : World) → OnePending w → OnePending (finalize_expired_payment p w).0
unfolding finalize_expired_payment
finalize_expired_payment-OnePending p w one =
    elim (Option-cases (find (λ (o : Order). o.id == p.order_id) w.orders)) [
      | inl missing ↦ rw (missing, finalize_expired_payment) one
      | inr (o, found) ↦
          rw (found, finalize_expired_payment) (finalize_expired-OnePending o p w one)
    ]

expire_one-OnePending :
    (c : Config) (now : ℕ) (p : Payment) (s : World × ℕ)
    → OnePending s.0
    → OnePending (expire_one c now p s).0
unfolding expire_one
expire_one-OnePending c now p (w, n) one = elim (Bool-cases (not (is_qr_payment_expired c p now))) [
  | inl live ↦ rw (live, expire_one) one
  | inr expired ↦ rw (expired, expire_one) (finalize_expired_payment-OnePending p w one)
]

expire_loop-OnePending :
    (c : Config) (now : ℕ) (ps : List Payment) (s : World × ℕ)
    → OnePending s.0
    → OnePending (expire_loop c now ps s).0
unfolding expire_loop
expire_loop-OnePending c now [] s one = one
expire_loop-OnePending c now (p ∷ ps) s one =
    expire_loop-OnePending c now ps _ (expire_one-OnePending c now p s one)

pub expire_pending_qr_payments-OnePending :
    (c : Config) (now : ℕ) (w : World)
    → OnePending w
    → OnePending (expire_pending_qr_payments c now w).0
unfolding expire_pending_qr_payments
expire_pending_qr_payments-OnePending c now w one = expire_loop-OnePending c now _ (w, 0) one

cancel_stale_one-OnePending :
    (o : Order) (s : World × ℕ) → OnePending s.0 → OnePending (cancel_stale_one o s).0
unfolding cancel_stale_one cancel_order_restore_stock_and_fail_payments
cancel_stale_one-OnePending o (w, n) one = elim (Bool-cases (is_skipped o w)) [
  | inl skip ↦ rw (skip, cancel_stale_one) one
  | inr go ↦ rw (go, cancel_stale_one) (save_failed-AtMostOne _ w.payments one)
]

cancel_stale_loop-OnePending :
    (os : List Order) (s : World × ℕ) → OnePending s.0 → OnePending (cancel_stale_loop os s).0
unfolding cancel_stale_loop
cancel_stale_loop-OnePending [] s one = one
cancel_stale_loop-OnePending (o ∷ os) s one =
    cancel_stale_loop-OnePending os _ (cancel_stale_one-OnePending o s one)

pub cancel_stale_unpaid_orders-OnePending :
    (c : Config) (now : ℕ) (w : World)
    → OnePending w
    → OnePending (cancel_stale_unpaid_orders c now w).0
unfolding cancel_stale_unpaid_orders
cancel_stale_unpaid_orders-OnePending c now w one = cancel_stale_loop-OnePending _ (w, 0) one
