-- ===== src/Payments/Events.antt =====
-- What reaches modules/payments/payments.service.ts, in any order: the jobs of the scheduler, checkouts,
-- webhooks and the confirmations of admins. A request that throws leaves the tables as they were.
use new_sopet_backend.Prelude.{ℕ, List, [], ◌∷◌}
use new_sopet_backend.Prelude.Result.{Result, ok, err}
use new_sopet_backend.Orders.Fulfillment.{World}
use new_sopet_backend.Payments.{expire_pending_qr_payments, cancel_stale_unpaid_orders}
use new_sopet_backend.Payments.Access.{PayError}
use new_sopet_backend.Payments.Charge.{Services, CreateCharge, create_charge}
use new_sopet_backend.Payments.Webhook.{Payload, FetchCharge, handle_webhook}
use new_sopet_backend.Payments.Transfer.{confirm_bank_transfer_paid}

pub data Event : Type 0 where
  qr_expiry_job stale_order_job : Event
  checkout : ℕ → CreateCharge → Event  -- with the id of the new row
  webhook : FetchCharge → Payload → Event  -- with the answers of the gateway
  confirmation : ℕ → ℕ → Event  -- the admin, the order

abbrev pub committed : World → Result PayError World → World
committed w (ok w') = w'
committed w (err e) = w

-- One event at a time.
unfoldable pub react : Services → ℕ × Event → World → World
react s (now, qr_expiry_job) w = (expire_pending_qr_payments s.config now w).0
react s (now, stale_order_job) w = (cancel_stale_unpaid_orders s.config now w).0
react s (now, checkout new_id d) w = committed w (create_charge s now new_id d w)
react s (now, webhook fetch e) w = handle_webhook s.config fetch now e w
react s (now, confirmation admin order_id) w =
    committed w (confirm_bank_transfer_paid now admin order_id w)

unfoldable pub react_all : Services → List (ℕ × Event) → World → World
react_all s [] w = w
react_all s (e ∷ es) w = react_all s es (react s e w)
