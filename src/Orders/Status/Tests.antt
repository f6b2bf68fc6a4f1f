-- ===== src/Orders/Status/Tests.antt =====
-- Runs of the status ladder, and its theorems at concrete orders.
use new_sopet_backend.Prelude.{true, false, ◌≡◌, refl, List, [], ◌∷◌}
use new_sopet_backend.Orders.Status.{
  OrderStatus, paid, FulfillmentStatus, pending, derive_from_progressing, derive_from_active,
  derive_order_status,
}
use new_sopet_backend.Orders.Status.Ladder.{header, derive_order_status-header}

-- One item on its way, one held by a suspended store, one cancelled.
abbrev mixed : List FulfillmentStatus
mixed = FulfillmentStatus.shipped ∷ FulfillmentStatus.on_hold ∷ FulfillmentStatus.cancelled ∷ []

runs :
    (derive_order_status paid mixed ≡ OrderStatus.shipped)
    × (derive_order_status paid (pending ∷ mixed) ≡ OrderStatus.processing)
    × (derive_order_status OrderStatus.cancelled mixed ≡ OrderStatus.cancelled)
    × (derive_order_status paid (FulfillmentStatus.on_hold ∷ []) ≡ OrderStatus.on_hold)
unfolding derive_order_status derive_from_active derive_from_progressing
runs = (refl, refl, refl, refl)

derive_order_status-header_example :
    derive_order_status paid mixed ≡ header false false true true false
derive_order_status-header_example = derive_order_status-header paid mixed
