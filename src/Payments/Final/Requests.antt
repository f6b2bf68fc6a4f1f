-- ===== src/Payments/Final/Requests.antt =====
-- The job for stale orders and the webhooks leave a cancelled or refunded order as it is.
use new_sopet_backend.Prelude.{
  ℕ, ◌≡◌, refl, sym, ap, subst, ◌∙◌, Bool, true, false, ◌&&◌, ◌||◌, inl, inr, none, some, List, [],
  ◌∷◌, arith, ◌==◌, find, any, keep, Bool-cases, Option-cases, ==_iff,
}
use new_sopet_backend.Orders.Status.{OrderStatus, pending_payment, same_order, is_terminal_order}
use new_sopet_backend.Orders.Fulfillment.{Order, Payment, World}
use new_sopet_backend.Payments.{
  Config, is_charge, latest_payment, is_skipped, cancel_order_restore_stock_and_fail_payments,
  cancel_stale_one, cancel_stale_loop, cancel_stale_unpaid_orders,
}
use new_sopet_backend.Payments.Tables.{UniqueIds}
use new_sopet_backend.Payments.Webhook.{
  EventKey, Payload, OmiseCharge, FetchCharge, is_ignored, confirmed, is_of_charge, is_complete,
  is_fail, is_successful, is_failed_charge, is_amount, mark_order_paid, fail_charge, settle,
  handle_charge, handle_charge_event, handle_webhook,
}
use new_sopet_backend.Payments.Final.{Has, save-Has, found-status}

terminal-pending :
    (s : OrderStatus) → is_terminal_order s ≡ true → same_order s pending_payment ≡ false
terminal-pending s h = ground arith

any-and :
    (n : ℕ) (q : Order → Bool) (os : List Order)
    → any (λ (p : Order). p.id == n) os ≡ false
    → any (λ (p : Order). p.id == n && q p) os ≡ false
any-and n q [] h = refl
any-and n q (o ∷ os) h = ground (arith, any-and n q os)

any-keep-false :
    (q t : Order → Bool) (os : List Order) → any q os ≡ false → any q (keep t os) ≡ false
any-keep-false q t [] h = refl
any-keep-false q t (o ∷ os) h = ground (arith, any-keep-false q t os)

any-pending :
    (id : ℕ) (os : List Order) (o : Order)
    → UniqueIds os
    → find (λ (p : Order). p.id == id) os ≡ some o
    → same_order o.status pending_payment ≡ false
    → any (λ (p : Order). p.id == id && same_order p.status pending_payment) os ≡ false
any-pending id [] o u found h = refl
any-pending id (p ∷ ps) o u found h = elim (Bool-cases (p.id == id)) [
  | inl this ↦
      let same : p ≡ o = ground arith in
      let calm : same_order p.status pending_payment ≡ false = cc (same, h) in
      let e : p.id ≡ id = (==_iff p.id id).0 this in
      let alone =
        any-and id (λ (x : Order). same_order x.status pending_payment) ps
          (subst (λ n. any (λ (x : Order). x.id == n) ps ≡ false) e u.0) in
      ground arith
  | inr next ↦
      let later : find (λ (x : Order). x.id == id) ps ≡ some o = ground arith in
      ground (arith, any-pending id ps o u.1 later h)
]

module _ (id : ℕ) (s : OrderStatus) (terminal : is_terminal_order s ≡ true) where
  cancel_stale_one-Has :
      (o : Order) (x : World × ℕ)
      → (o.id == id && same_order o.status pending_payment) ≡ false
      → Has id s x.0
      → Has id s (cancel_stale_one o x).0
  unfolding cancel_stale_one cancel_order_restore_stock_and_fail_payments
  cancel_stale_one-Has o (w, n) ne h = elim (Bool-cases (is_skipped o w)) [
    | inl skip ↦ rw (skip, cancel_stale_one) h
    | inr go ↦
        rw (go, cancel_stale_one, cancel_order_restore_stock_and_fail_payments)
          (save-Has id s (record o { status = OrderStatus.cancelled; payment_reference = none }) w _
            refl
            (λ own.
              let hit : (o.id == id) ≡ true = (==_iff o.id id).1 own in
              let open_ : same_order o.status pending_payment ≡ true = ground arith in
              let bad : true ≡ false = rw (hit, open_) at ne in cc)
            h)
  ]

  cancel_stale_loop-Has :
      (os : List Order) (x : World × ℕ)
      → any (λ (p : Order). p.id == id && same_order p.status pending_payment) os ≡ false
      → Has id s x.0
      → Has id s (cancel_stale_loop os x).0
  unfolding cancel_stale_loop
  cancel_stale_loop-Has [] x ne h = h
  cancel_stale_loop-Has (o ∷ os) x ne h =
      cancel_stale_loop-Has os _ (ground arith) (cancel_stale_one-Has o x (ground arith) h)

  pub cancel_stale_unpaid_orders-Has :
      (c : Config) (now : ℕ) (w : World)
      → Has id s w
      → Has id s (cancel_stale_unpaid_orders c now w).0
  unfolding cancel_stale_unpaid_orders
  cancel_stale_unpaid_orders-Has c now w h =
      cancel_stale_loop-Has _ (w, 0)
        (any-keep-false _ _ w.orders (
          any-pending id w.orders h.order h.unique h.is (
            subst (λ x. same_order x pending_payment ≡ false) (sym h.status)
              (terminal-pending s terminal))))
        h

  -- An order that still waits for its payment is another one.
  pub waiting-ne :
      (t : Order → Bool) (o : Order) (w : World) (next : OrderStatus)
      → Has id s w
      → find t w.orders ≡ some o
      → is_terminal_order o.status ≡ false
      → o.id ≡ id
      → next ≡ s
  waiting-ne t o w next h found open_ own =
      let same = found-status id s t o w h found own in
      let bad : true ≡ false = sym terminal ∙ (ap is_terminal_order (sym same) ∙ open_) in cc

  settle-Has :
      (now : ℕ) (key : EventKey) (a : OmiseCharge) (t : Order → Bool) (o : Order) (p : Payment)
      (n : ℕ) (w : World)
      → find t w.orders ≡ some o
      → (is_complete key ≡ true → is_terminal_order o.status ≡ false)
      → Has id s w
      → Has id s (settle now key a o p n w)
  unfolding settle mark_order_paid fail_charge
  settle-Has now key a t o p n w found open_ h =
      elim (Bool-cases (is_complete key && is_successful a.status)) [
        | inl good ↦ elim (Bool-cases (is_amount o.total a.amount)) [
          | inr off ↦ rw (good, off) h
          | inl exact ↦
              rw (good, exact)
                (save-Has id s _ w _ refl (waiting-ne t o w _ h found (open_ (ground arith))) h)
        ]
        | inr bad ↦ elim (Bool-cases (is_fail key || is_failed_charge a.status)) [
          | inr neither ↦ rw (bad, neither) h
          | inl failed ↦ elim (Bool-cases (is_charge n o.payment_reference)) [
            | inr other ↦
                rw (bad, failed, fail_charge, other)
                  record { unique = h.unique; order = h.order; is = h.is; status = h.status }
            | inl own ↦
                rw (bad, failed, fail_charge, own)
                  (save-Has id s (record o { payment_reference = none }) w _ refl
                    (found-status id s t o w h found) h)
          ]
        ]
      ]

  handle_charge-Has :
      (c : Config) (fetch : FetchCharge) (now : ℕ) (e : Payload) (n : ℕ) (o : Order) (p : Payment)
      (w : World)
      → find (λ (x : Order). is_charge n x.payment_reference) w.orders ≡ some o
      → Has id s w
      → Has id s (handle_charge c fetch now e n o p w)
  unfolding handle_charge
  handle_charge-Has c fetch now e n o p w found h = elim (Bool-cases (is_ignored e o p)) [
    | inl skip ↦ rw (skip, handle_charge) h
    | inr heard ↦ elim (Option-cases (confirmed c fetch n e.status)) [
      | inl unknown ↦ rw (heard, unknown, handle_charge) h
      | inr (a, known) ↦
          rw (heard, known, handle_charge)
            (settle-Has now e.key a _ o p n w found (λ complete. ground arith) h)
    ]
  ]

  pub handle_webhook-Has :
      (c : Config) (fetch : FetchCharge) (now : ℕ) (e : Payload) (w : World)
      → Has id s w
      → Has id s (handle_webhook c fetch now e w)
  unfolding handle_webhook handle_charge_event handle_charge
  handle_webhook-Has c fetch now e w h = elim (Bool-cases (is_of_charge e.key)) [
    | inr other ↦ rw (handle_webhook, other) h
    | inl ours ↦ elim (Option-cases e.charge_id) [
      | inl absent ↦ rw (handle_webhook, ours, absent) h
      | inr (n, present) ↦
          elim (Option-cases (find (λ (o : Order). is_charge n o.payment_reference) w.orders)) [
            | inl missing ↦ rw (handle_webhook, ours, present, handle_charge_event, missing) h
            | inr (o, found) ↦ elim (Option-cases (latest_payment o.id w.payments)) [
              | inl unpaid ↦
                  rw (handle_webhook, ours, present, handle_charge_event, found, unpaid) h
              | inr (p, newest) ↦
                  rw (handle_webhook, ours, present, handle_charge_event, found, newest)
                    (handle_charge-Has c fetch now e n o p w found h)
            ]
          ]
    ]
  ]
