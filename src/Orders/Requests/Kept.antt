-- ===== src/Orders/Requests/Kept.antt =====
-- What any requests do to the items of the orders.
use new_sopet_backend.Prelude.{ℕ, ◌≡◌, List, [], ◌∷◌}
use new_sopet_backend.Orders.Fulfillment.{Order, World, load_order}
use new_sopet_backend.Orders.Fulfillment.Kept.{AllKept, WorldKept, WorldKept-refl, WorldKept-trans}
use new_sopet_backend.Prelude.Result.{ok}
use new_sopet_backend.Orders.Fulfillment.Outcomes.{commit-Keeps}
use new_sopet_backend.Orders.Fulfillment.Forward.{
  mark_vendor_order_paid-WorldKept, acknowledge_vendor_order-WorldKept, ship_vendor_order-WorldKept,
  update_tracking_for_public_api-WorldKept, confirm_order_delivered-WorldKept,
  cancel_vendor_order-WorldKept,
}
use new_sopet_backend.Orders.Requests.{
  Request, mark_paid, acknowledge, cancel, ship, update_tracking, confirm_delivered, Env, handle,
  serve,
}

handle-WorldKept : (e : Env) (now : ℕ) (r : Request) (w : World) → WorldKept w (handle e now r w).1
unfolding handle
handle-WorldKept e now (mark_paid u s o) w =
    commit-Keeps (WorldKept w) w _ (WorldKept-refl w)
      (mark_vendor_order_paid-WorldKept w e.access now u s o)
handle-WorldKept e now (acknowledge u s o) w =
    commit-Keeps (WorldKept w) w _ (WorldKept-refl w)
      (acknowledge_vendor_order-WorldKept w e.access now u s o)
handle-WorldKept e now (cancel u s o) w =
    commit-Keeps (WorldKept w) w _ (WorldKept-refl w)
      (cancel_vendor_order-WorldKept w e.access now u s o)
handle-WorldKept e now (ship u s o n p url) w =
    commit-Keeps (WorldKept w) w _ (WorldKept-refl w)
      (ship_vendor_order-WorldKept w e.parse e.access now u s o n p url)
handle-WorldKept e now (update_tracking u s o n p url) w =
    update_tracking_for_public_api-WorldKept e.parse e.access now u s o n p url w
handle-WorldKept e now (confirm_delivered o r) w =
    commit-Keeps (WorldKept w) w _ (WorldKept-refl w)
      (confirm_order_delivered-WorldKept w e.sha256 now o r)

serve-WorldKept : (e : Env) (rs : List (ℕ × Request)) (w : World) → WorldKept w (serve e rs w)
unfolding serve
serve-WorldKept e [] w = WorldKept-refl w
serve-WorldKept e ((now, r) ∷ rs) w =
    WorldKept-trans w (handle e now r w).1 _ (handle-WorldKept e now r w)
      (serve-WorldKept e rs (handle e now r w).1)

-- After any requests, whatever each of them answered, an order is still there. It has the same items,
-- of the same stores, variants and quantities; no item is back at an earlier step, and an item that a
-- suspension holds is exactly as it was.
pub serve-AllKept :
    (e : Env) (rs : List (ℕ × Request)) (w : World) (id : ℕ) (o : Order)
    → load_order id w ≡ ok o
    → (o' : Order) × (load_order id (serve e rs w) ≡ ok o') × AllKept o.items o'.items
serve-AllKept e rs w id o loaded = (serve-WorldKept e rs w).at id o loaded
