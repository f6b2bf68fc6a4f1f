-- ===== src/Orders/Requests/Coherent.antt =====
-- The header status agrees with the items after any requests.
use new_sopet_backend.Prelude.{ℕ, List, [], ◌∷◌}
use new_sopet_backend.Orders.Fulfillment.{World}
use new_sopet_backend.Orders.Fulfillment.Coherent.{AllCoherent}
use new_sopet_backend.Orders.Fulfillment.Outcomes.{commit-Keeps}
use new_sopet_backend.Orders.Fulfillment.Handlers.{
  mark_vendor_order_paid-AllCoherent, acknowledge_vendor_order-AllCoherent,
  ship_vendor_order-AllCoherent, update_tracking_for_public_api-AllCoherent,
  confirm_order_delivered-AllCoherent, cancel_vendor_order-AllCoherent,
}
use new_sopet_backend.Orders.Requests.{
  Request, mark_paid, acknowledge, cancel, ship, update_tracking, confirm_delivered, Env, handle,
  serve,
}

handle-AllCoherent :
    (e : Env) (now : ℕ) (r : Request) (w : World) → AllCoherent w → AllCoherent (handle e now r w).1
unfolding handle
handle-AllCoherent e now (mark_paid u s o) w h =
    commit-Keeps AllCoherent w _ h (mark_vendor_order_paid-AllCoherent w h e.access now u s o)
handle-AllCoherent e now (acknowledge u s o) w h =
    commit-Keeps AllCoherent w _ h (acknowledge_vendor_order-AllCoherent w h e.access now u s o)
handle-AllCoherent e now (cancel u s o) w h =
    commit-Keeps AllCoherent w _ h (cancel_vendor_order-AllCoherent w h e.access now u s o)
handle-AllCoherent e now (ship u s o n p url) w h =
    commit-Keeps AllCoherent w _ h
      (ship_vendor_order-AllCoherent w h e.parse e.access now u s o n p url)
handle-AllCoherent e now (update_tracking u s o n p url) w h =
    update_tracking_for_public_api-AllCoherent e.parse e.access now u s o n p url w h
handle-AllCoherent e now (confirm_delivered o r) w h =
    commit-Keeps AllCoherent w _ h (confirm_order_delivered-AllCoherent w h e.sha256 now o r)

-- Where every order has an item and the header status that its items give, the same holds after
-- any requests, whether they succeed or throw.
pub serve-AllCoherent :
    (e : Env) (rs : List (ℕ × Request)) (w : World) → AllCoherent w → AllCoherent (serve e rs w)
unfolding serve
serve-AllCoherent e [] w h = h
serve-AllCoherent e ((now, r) ∷ rs) w h =
    serve-AllCoherent e rs (handle e now r w).1 (handle-AllCoherent e now r w h)
