-- ===== src/Payments/Final/Runs.antt =====
-- No series of events revives a cancelled or refunded order.
use new_sopet_backend.Prelude.{
  ℕ, ◌≡◌, refl, Bool, true, false, inl, inr, Option, some, List, [], ◌∷◌, arith, ◌==◌, find,
  Bool-cases, Option-cases,
}
use new_sopet_backend.Prelude.Result.{
  Result, ok, err, ◌>>=◌, throw_if, Ensures, Ensures-ok, Ensures-err, Ensures-bind,
  Ensures-throw_if,
}
use new_sopet_backend.Orders.Status.{OrderStatus, is_terminal_order}
use new_sopet_backend.Orders.Fulfillment.{Order, Payment, World}
use new_sopet_backend.Payments.Charge.{
  Services, CreateCharge, CreatedCharge, insert_payment, after_charge, insert_non_omise,
  insert_charged, replace_payment, assert_order_payable_for_create, create_charge, charged_payment,
}
use new_sopet_backend.Payments.Webhook.{is_successful, mark_order_paid}
use new_sopet_backend.Payments.Checkout.{is_non_omise}
use new_sopet_backend.Payments.Transfer.{confirm_transfer, confirm_bank_transfer_paid}
use new_sopet_backend.Payments.Access.{PayError, order_by_id}
use new_sopet_backend.Payments.Events.{
  Event, react, react_all, committed, qr_expiry_job, stale_order_job, checkout, webhook,
  confirmation,
}
use new_sopet_backend.Payments.Final.Requests.{
  cancel_stale_unpaid_orders-Has, waiting-ne, handle_webhook-Has,
}
use new_sopet_backend.Payments.Final.{Has, save-Has, expire_pending_qr_payments-Has}

pub order_by_id-find :
    (order_id : ℕ) (w : World) (o : Order)
    → order_by_id order_id w ≡ ok o
    → find (λ (p : Order). p.id == order_id) w.orders ≡ some o
unfolding order_by_id
order_by_id-find order_id w o h = ground arith

payable-open :
    (o : Order) (latest : Option Payment)
    → assert_order_payable_for_create o latest ≡ ok tt
    → is_terminal_order o.status ≡ false
unfolding assert_order_payable_for_create ◌>>=◌ throw_if
payable-open o latest h = ground arith

module _ (id : ℕ) (s : OrderStatus) (terminal : is_terminal_order s ≡ true) where
  -- A payment of an order that waits for one.
  insert_payment-Has :
      (t : Order → Bool) (o : Order) (p : Payment) (w : World) (ps : List Payment)
      → find t w.orders ≡ some o
      → is_terminal_order o.status ≡ false
      → Has id s w
      → Has id s (insert_payment o p (record w { payments = ps }))
  unfolding insert_payment
  insert_payment-Has t o p w ps found open_ h =
      save-Has id s _ w _ refl (waiting-ne id s terminal t o w o.status h found open_) h

  after_charge-Has :
      (sv : Services) (now new_id : ℕ) (d : CreateCharge) (t : Order → Bool) (o : Order)
      (ch : CreatedCharge) (w : World) (ps : List Payment)
      → find t w.orders ≡ some o
      → is_terminal_order o.status ≡ false
      → Has id s w
      → Has id s (after_charge sv now new_id d o ch (record w { payments = ps }))
  unfolding after_charge mark_order_paid
  after_charge-Has sv now new_id d t o ch w ps found open_ h =
      let p = charged_payment sv.config now new_id d.payment_method o ch in
      let charged = insert_payment-Has t o p w ps found open_ h in
      elim (Bool-cases (is_successful ch.status)) [
        | inl good ↦
            rw (good, after_charge)
              (save-Has id s _ _ _ refl
                (waiting-ne id s terminal t o w OrderStatus.paid h found open_) charged)
        | inr bad ↦ rw (bad, after_charge) charged
      ]

  replace_payment-Has :
      (sv : Services) (now new_id : ℕ) (d : CreateCharge) (t : Order → Bool) (o : Order) (w : World)
      → find t w.orders ≡ some o
      → is_terminal_order o.status ≡ false
      → Has id s w
      → Ensures (Has id s) (replace_payment sv now new_id d o w)
  unfolding replace_payment insert_non_omise insert_charged
  replace_payment-Has sv now new_id d t o w found open_ h =
      elim (Bool-cases (is_non_omise d.payment_method)) [
        | inl direct ↦
            rw (direct, replace_payment, insert_non_omise)
              (Ensures-throw_if (Has id s) _ _ _
                λ ready. Ensures-ok (Has id s) _ (insert_payment-Has t o _ w _ found open_ h))
        | inr online ↦
            rw (online, replace_payment, insert_charged)
              (Ensures-throw_if (Has id s) _ _ _ λ ready. Ensures-bind (Has id s) _ _ λ body built.
                elim (Option-cases (sv.post_charge body)) [
                  | inl refused ↦ rw refused (Ensures-err (Has id s) _)
                  | inr (ch, made) ↦ rw made (
                      Ensures-ok (Has id s) _
                        (after_charge-Has sv now new_id d t o ch w _ found open_ h))
                ])
      ]

  create_charge-Has :
      (sv : Services) (now new_id : ℕ) (d : CreateCharge) (w : World)
      → Has id s w
      → Ensures (Has id s) (create_charge sv now new_id d w)
  unfolding create_charge
  create_charge-Has sv now new_id d w h = Ensures-bind (Has id s) _ _ λ a allowed.
      Ensures-bind (Has id s) _ _ λ u payable. Ensures-bind (Has id s) _ _ λ o loaded.
        Ensures-bind (Has id s) _ _ λ v again.
          replace_payment-Has sv now new_id d _ o w (order_by_id-find d.order_id w o loaded)
            (payable-open o _ again) h

  confirm_bank_transfer_paid-Has :
      (now admin order_id : ℕ) (w : World)
      → Has id s w
      → Ensures (Has id s) (confirm_bank_transfer_paid now admin order_id w)
  unfolding confirm_bank_transfer_paid confirm_transfer
  confirm_bank_transfer_paid-Has now admin order_id w h = Ensures-bind (Has id s) _ _ λ o loaded.
      Ensures-throw_if (Has id s) _ _ _ λ method. Ensures-throw_if (Has id s) _ _ _ λ open_.
        Ensures-bind (Has id s) _ _ λ p newest. Ensures-ok (Has id s) _ (
          save-Has id s _ w _ refl
            (waiting-ne id s terminal _ o w _ h (order_by_id-find order_id w o loaded)
              (ground arith))
            h)

  committed-Has :
      (w : World) (r : Result PayError World)
      → Has id s w
      → Ensures (Has id s) r
      → Has id s (committed w r)
  committed-Has w (ok w') h k = k.at w' refl
  committed-Has w (err e) h k = h

  react-Has : (sv : Services) (e : ℕ × Event) (w : World) → Has id s w → Has id s (react sv e w)
  unfolding react
  react-Has sv (now, qr_expiry_job) w h = expire_pending_qr_payments-Has id s sv.config now w h
  react-Has sv (now, stale_order_job) w h =
      cancel_stale_unpaid_orders-Has id s terminal sv.config now w h
  react-Has sv (now, checkout new_id d) w h =
      committed-Has w _ h (create_charge-Has sv now new_id d w h)
  react-Has sv (now, webhook fetch e) w h =
      handle_webhook-Has id s terminal sv.config fetch now e w h
  react-Has sv (now, confirmation admin order_id) w h =
      committed-Has w _ h (confirm_bank_transfer_paid-Has now admin order_id w h)

-- An order that is cancelled or refunded stays so: no checkout, webhook, confirmation or scheduler job, in
-- whatever order they come, gives it another status. The ids of the orders are distinct.
pub react_all-Has :
    (id : ℕ) (s : OrderStatus) (sv : Services) (es : List (ℕ × Event)) (w : World)
    → is_terminal_order s ≡ true
    → Has id s w
    → Has id s (react_all sv es w)
unfolding react_all
react_all-Has id s sv [] w terminal h = h
react_all-Has id s sv (e ∷ es) w terminal h =
    react_all-Has id s sv es _ terminal (react-Has id s terminal sv e w h)
