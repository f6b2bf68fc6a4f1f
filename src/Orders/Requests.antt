-- ===== src/Orders/Requests.antt =====
-- The requests of vendors and customers to the fulfillment service, one after another. Requests of
-- one order do not interleave: each handler is taken as one step.
pub mod Coherent
pub mod Kept
mod Tests
use new_sopet_backend.Prelude.{ℕ, Option, List, [], ◌∷◌}
use new_sopet_backend.Prelude.Text.{Text}
use new_sopet_backend.Orders.Tracking.{UrlParser}
use new_sopet_backend.Orders.Fulfillment.{
  World, Access, Requester, Outcome, commit, mark_vendor_order_paid, acknowledge_vendor_order,
  ship_vendor_order, update_tracking_for_public_api, confirm_order_delivered, cancel_vendor_order,
}

-- The user, the store and the order come first; then the tracking number, provider and URL.
pub data Request : Type 0 where
  mark_paid acknowledge cancel : ℕ → ℕ → ℕ → Request
  ship update_tracking : ℕ → ℕ → ℕ → Text → Text → Option Text → Request
  confirm_delivered : ℕ → Requester → Request

-- What the service takes from outside.
pub record Env : Type 0 where
  pub parse : UrlParser
  pub access : Access
  pub sha256 : Text → Text

-- A request that arrives at a time.
unfoldable pub handle : Env → ℕ → Request → World → Outcome
handle e now (mark_paid u s o) w = commit w (mark_vendor_order_paid e.access now u s o w)
handle e now (acknowledge u s o) w = commit w (acknowledge_vendor_order e.access now u s o w)
handle e now (cancel u s o) w = commit w (cancel_vendor_order e.access now u s o w)
handle e now (ship u s o n p url) w =
    commit w (ship_vendor_order e.parse e.access now u s o n p url w)
handle e now (update_tracking u s o n p url) w =
    update_tracking_for_public_api e.parse e.access now u s o n p url w
handle e now (confirm_delivered o r) w = commit w (confirm_order_delivered e.sha256 now o r w)

-- The tables after a series of requests, whatever each of them answered.
unfoldable pub serve : Env → List (ℕ × Request) → World → World
serve e [] w = w
serve e ((now, r) ∷ rs) w = serve e rs (handle e now r w).1
