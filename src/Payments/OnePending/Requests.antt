-- ===== src/Payments/OnePending/Requests.antt =====
-- Checkouts, webhooks and confirmations leave an order with one pending payment at most.
use new_sopet_backend.Prelude.{
  ℕ, ◌≡◌, refl, ◌&&◌, ◌||◌, inl, inr, List, [], ◌∷◌, arith, count-append, find, Bool-cases,
  Option-cases,
}
use new_sopet_backend.Prelude.Result.{
  Result, ok, err, Ensures, Ensures-ok, Ensures-err, Ensures-bind, Ensures-throw_if,
}
use new_sopet_backend.Orders.Fulfillment.{Order, PaymentStatus, Payment, World, fail_pending}
use new_sopet_backend.Payments.{Config, is_pending_payment_of, latest_payment, is_charge, fail}
use new_sopet_backend.Payments.Charge.{
  Services, CreateCharge, CreatedCharge, insert_payment, after_charge, insert_non_omise,
  insert_charged, replace_payment, create_charge, charged_payment, new_payment,
}
use new_sopet_backend.Payments.Webhook.{
  EventKey, Payload, OmiseCharge, FetchCharge, is_ignored, confirmed, is_of_charge, is_complete,
  is_fail, is_successful, is_failed_charge, is_amount, mark_order_paid, fail_charge, settle,
  handle_charge, handle_charge_event, handle_webhook,
}
use new_sopet_backend.Payments.Checkout.{is_non_omise, to_order_payment_method}
use new_sopet_backend.Payments.Transfer.{confirm_transfer, confirm_bank_transfer_paid}
use new_sopet_backend.Payments.Access.{PayError}
use new_sopet_backend.Payments.Events.{
  Event, react, react_all, committed, qr_expiry_job, stale_order_job, checkout, webhook,
  confirmation,
}
use new_sopet_backend.Payments.OnePending.{
  OnePending, save_payment-AtMostOne, count-fail_pending, expire_pending_qr_payments-OnePending,
  cancel_stale_unpaid_orders-OnePending,
}

mark_order_paid-OnePending :
    (now : ℕ) (o : Order) (p : Payment) (id : ℕ) (w : World)
    → OnePending w
    → OnePending (mark_order_paid now o p id w)
unfolding mark_order_paid
mark_order_paid-OnePending now o p id w one =
    save_payment-AtMostOne (record p { status = PaymentStatus.paid }) w.payments refl one

settle-OnePending :
    (now : ℕ) (key : EventKey) (c : OmiseCharge) (o : Order) (p : Payment) (id : ℕ) (w : World)
    → OnePending w
    → OnePending (settle now key c o p id w)
unfolding settle fail_charge
settle-OnePending now key c o p id w one =
    elim (Bool-cases (is_complete key && is_successful c.status)) [
      | inl good ↦ elim (Bool-cases (is_amount o.total c.amount)) [
        | inl exact ↦ rw (good, exact) (mark_order_paid-OnePending now o p id w one)
        | inr off ↦ rw (good, off) one
      ]
      | inr bad ↦ elim (Bool-cases (is_fail key || is_failed_charge c.status)) [
        | inl failed ↦
            rw (bad, failed, fail_charge) (save_payment-AtMostOne (fail p) w.payments refl one)
        | inr neither ↦ rw (bad, neither) one
      ]
    ]

handle_charge-OnePending :
    (c : Config) (fetch : FetchCharge) (now : ℕ) (e : Payload) (id : ℕ) (o : Order) (p : Payment)
    (w : World)
    → OnePending w
    → OnePending (handle_charge c fetch now e id o p w)
unfolding handle_charge
handle_charge-OnePending c fetch now e id o p w one = elim (Bool-cases (is_ignored e o p)) [
  | inl skip ↦ rw (skip, handle_charge) one
  | inr go ↦ elim (Option-cases (confirmed c fetch id e.status)) [
    | inl unknown ↦ rw (go, unknown, handle_charge) one
    | inr (a, known) ↦ rw (go, known, handle_charge) (settle-OnePending now e.key a o p id w one)
  ]
]

handle_charge_event-OnePending :
    (c : Config) (fetch : FetchCharge) (now : ℕ) (e : Payload) (id : ℕ) (w : World)
    → OnePending w
    → OnePending (handle_charge_event c fetch now e id w)
unfolding handle_charge_event
handle_charge_event-OnePending c fetch now e id w one =
    elim (Option-cases (find (λ (o : Order). is_charge id o.payment_reference) w.orders)) [
      | inl missing ↦ rw (missing, handle_charge_event) one
      | inr (o, found) ↦ elim (Option-cases (latest_payment o.id w.payments)) [
        | inl unpaid ↦ rw (found, unpaid, handle_charge_event) one
        | inr (p, newest) ↦
            rw (found, newest, handle_charge_event)
              (handle_charge-OnePending c fetch now e id o p w one)
      ]
    ]

handle_webhook-OnePending :
    (c : Config) (fetch : FetchCharge) (now : ℕ) (e : Payload) (w : World)
    → OnePending w
    → OnePending (handle_webhook c fetch now e w)
unfolding handle_webhook
handle_webhook-OnePending c fetch now e w one = elim (Bool-cases (is_of_charge e.key)) [
  | inr other ↦ rw (other, handle_webhook) one
  | inl ours ↦ elim (Option-cases e.charge_id) [
    | inl absent ↦ rw (ours, absent, handle_webhook) one
    | inr (id, present) ↦
        rw (ours, present, handle_webhook) (handle_charge_event-OnePending c fetch now e id w one)
  ]
]

confirm_bank_transfer_paid-OnePending :
    (now admin order_id : ℕ) (w : World)
    → OnePending w
    → Ensures OnePending (confirm_bank_transfer_paid now admin order_id w)
unfolding confirm_bank_transfer_paid confirm_transfer
confirm_bank_transfer_paid-OnePending now admin order_id w one =
    Ensures-bind OnePending _ _ λ o loaded. Ensures-throw_if OnePending _ _ _ λ method.
      Ensures-throw_if OnePending _ _ _ λ open_. Ensures-bind OnePending _ _ λ p newest.
        Ensures-ok OnePending _
          (save_payment-AtMostOne (record p { status = PaymentStatus.paid }) w.payments refl one)

-- A new payment of an order whose pending ones have failed.
insert_payment-OnePending :
    (o : Order) (p : Payment) (w : World)
    → p.order_id ≡ o.id
    → OnePending w
    → OnePending (insert_payment o p (record w { payments = fail_pending o.id w.payments }))
unfolding insert_payment
insert_payment-OnePending o p w same one id = ground (
  arith,
  count-append (is_pending_payment_of id) (fail_pending o.id w.payments) (p ∷ []),
  count-fail_pending id o.id w.payments,
  one id,
)

after_charge-OnePending :
    (s : Services) (now new_id : ℕ) (d : CreateCharge) (o : Order) (ch : CreatedCharge) (w : World)
    → OnePending w
    → OnePending
        (after_charge s now new_id d o ch (record w { payments = fail_pending o.id w.payments }))
unfolding after_charge
after_charge-OnePending s now new_id d o ch w one =
    let charged =
      insert_payment-OnePending o (charged_payment s.config now new_id d.payment_method o ch) w refl
        one in
    elim (Bool-cases (is_successful ch.status)) [
      | inl good ↦ rw (good, after_charge) (mark_order_paid-OnePending now _ _ ch.id _ charged)
      | inr bad ↦ rw (bad, after_charge) charged
    ]

insert_non_omise-OnePending :
    (s : Services) (now new_id : ℕ) (d : CreateCharge) (o : Order) (w : World)
    → OnePending w
    → Ensures OnePending
        (insert_non_omise s now new_id d o (record w { payments = fail_pending o.id w.payments }))
unfolding insert_non_omise
insert_non_omise-OnePending s now new_id d o w one = Ensures-throw_if OnePending _ _ _ λ ready.
    Ensures-ok OnePending _ (
      insert_payment-OnePending o
        (new_payment now new_id (to_order_payment_method d.payment_method) o) w refl one)

insert_charged-OnePending :
    (s : Services) (now new_id : ℕ) (d : CreateCharge) (o : Order) (w : World)
    → OnePending w
    → Ensures OnePending
        (insert_charged s now new_id d o (record w { payments = fail_pending o.id w.payments }))
unfolding insert_charged
insert_charged-OnePending s now new_id d o w one = Ensures-throw_if OnePending _ _ _ λ ready.
    Ensures-bind OnePending _ _ λ body built. elim (Option-cases (s.post_charge body)) [
      | inl refused ↦ rw refused (Ensures-err OnePending _)
      | inr (ch, made) ↦
          rw made (Ensures-ok OnePending _ (after_charge-OnePending s now new_id d o ch w one))
    ]

create_charge-OnePending :
    (s : Services) (now new_id : ℕ) (d : CreateCharge) (w : World)
    → OnePending w
    → Ensures OnePending (create_charge s now new_id d w)
unfolding create_charge replace_payment
create_charge-OnePending s now new_id d w one = Ensures-bind OnePending _ _ λ a allowed.
    Ensures-bind OnePending _ _ λ u payable. Ensures-bind OnePending _ _ λ o loaded.
      Ensures-bind OnePending _ _ λ v again. elim (Bool-cases (is_non_omise d.payment_method)) [
        | inl direct ↦
            rw (direct, replace_payment) (insert_non_omise-OnePending s now new_id d o w one)
        | inr online ↦
            rw (online, replace_payment) (insert_charged-OnePending s now new_id d o w one)
      ]

committed-OnePending :
    (w : World) (r : Result PayError World)
    → OnePending w
    → Ensures OnePending r
    → OnePending (committed w r)
committed-OnePending w (ok w') one h = h.at w' refl
committed-OnePending w (err e) one h = one

react-OnePending :
    (s : Services) (e : ℕ × Event) (w : World) → OnePending w → OnePending (react s e w)
unfolding react
react-OnePending s (now, qr_expiry_job) w one =
    expire_pending_qr_payments-OnePending s.config now w one
react-OnePending s (now, stale_order_job) w one =
    cancel_stale_unpaid_orders-OnePending s.config now w one
react-OnePending s (now, checkout new_id d) w one =
    committed-OnePending w _ one (create_charge-OnePending s now new_id d w one)
react-OnePending s (now, webhook fetch e) w one =
    handle_webhook-OnePending s.config fetch now e w one
react-OnePending s (now, confirmation admin order_id) w one =
    committed-OnePending w _ one (confirm_bank_transfer_paid-OnePending now admin order_id w one)

-- Whatever checkouts, webhooks, confirmations and scheduler jobs come, in any order, no order ever has
-- two pending payments, if none has at the start.
pub react_all-OnePending :
    (s : Services) (es : List (ℕ × Event)) (w : World)
    → OnePending w
    → OnePending (react_all s es w)
unfolding react_all
react_all-OnePending s [] w one = one
react_all-OnePending s (e ∷ es) w one =
    react_all-OnePending s es (react s e w) (react-OnePending s e w one)
