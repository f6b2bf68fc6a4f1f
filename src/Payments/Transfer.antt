-- ===== src/Payments/Transfer.antt =====
-- modules/payments/payments.service.ts: `confirmBankTransferPaid`, by which an admin confirms a bank
-- transfer.
use new_sopet_backend.Prelude.{ℕ, not, none, some, [], ◌∷◌, ◌++◌}
use new_sopet_backend.Prelude.Result.{Result, ok, err, ◌>>=◌, ◌>>◌, throw_if}
use new_sopet_backend.Orders.Status.{OrderStatus, pending_payment, same_order, derive_order_status}
use new_sopet_backend.Orders.Queue.{is_bank_transfer}
use new_sopet_backend.Orders.Fulfillment.{
  Order, PaymentStatus, Payment, World, save_in, statuses, or_now, user,
}
use new_sopet_backend.Orders.Rows.{bank_transfer_by}
use new_sopet_backend.Payments.{is_paid, save_payment, latest_payment}
use new_sopet_backend.Payments.Access.{
  PayError, not_bank_transfer, invalid_order_status, payment_not_confirmable, order_by_id,
}

unfoldable pub find_confirmable : ℕ → World → Result PayError Payment
find_confirmable order_id w = elim (latest_payment order_id w.payments) [
  | none ↦ err payment_not_confirmable
  | some p ↦ do
    throw_if (is_paid p.status) payment_not_confirmable
    throw_if (not (is_bank_transfer p.payment_method)) not_bank_transfer
    ok p
]

-- The transaction; `items` may have been loaded for it.
unfoldable pub confirm_transfer : ℕ → ℕ → Order → Payment → World → World
confirm_transfer now admin o p w =
    let next = derive_order_status OrderStatus.paid (statuses o.items) in
    record w {
      payments = save_payment (record p { status = PaymentStatus.paid }) w.payments;
      orders =
          save_in
            (record o {
              status = next;
              payment_reference = some (bank_transfer_by admin);
              paid_at = or_now o.paid_at now;
            })
            w.orders;
      history =
          w.history ++ record { order_id = o.id; status = next; changed_by = user admin } ∷ [];
      approved = w.approved ++ o.id ∷ [];
    }

unfoldable pub confirm_bank_transfer_paid : ℕ → ℕ → ℕ → World → Result PayError World
confirm_bank_transfer_paid now admin order_id w = do
  o ← order_by_id order_id w
  throw_if (not (is_bank_transfer o.payment_method)) not_bank_transfer
  throw_if (not (same_order o.status pending_payment)) invalid_order_status
  p ← find_confirmable order_id w
  ok (confirm_transfer now admin o p w)
