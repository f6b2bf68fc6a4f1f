-- ===== src/Orders/Hold.antt =====
-- modules/orders/store-suspension-hold.service.ts: the hold on a suspended store's items and its
-- release. A function returns the tables and how many items it changed; an order's transaction is one
-- step. The notifications after a commit are left out. `new Date()` is the argument `now`.
pub mod RoundTrip
pub mod Coherent
pub mod Expiry
pub mod Expired
mod Tests
use new_sopet_backend.Prelude.{
  ℕ, ◌+◌, Bool, true, false, not, ◌&&◌, ◌||◌, Option, none, some, List, [], ◌∷◌, ◌++◌, ◌==◌,
  if◌then◌else◌, any, count, keep, map, find,
}
use new_sopet_backend.Prelude.Result.{Result, ok, err, ◌>>=◌, ◌>>◌, throw_if}
use new_sopet_backend.Orders.Status.{
  OrderStatus, pending_payment, paid, refunded, FulfillmentStatus, pending, same_order, same_item,
  derive_order_status,
}
use new_sopet_backend.Orders.Tracking.{
  Error, hold_restore_snapshot_missing, hold_transition_forbidden,
}
use new_sopet_backend.Orders.Fulfillment.{
  OrderItem, Order, system, World, save_in, in_store, is_held, statuses, update_items,
}

-- Setting or clearing `on_hold` by hand.
unfoldable pub assert_not_manual_hold_transition :
    OrderStatus → OrderStatus → Result Error (Unit {0})
assert_not_manual_hold_transition from to = do
  throw_if (same_order to OrderStatus.on_hold) hold_transition_forbidden
  throw_if
      (same_order from OrderStatus.on_hold
        && not (same_order to OrderStatus.cancelled || same_order to refunded))
      hold_transition_forbidden

-- `HOLD_ELIGIBLE_FULFILLMENT` and `HOLD_ELIGIBLE_ORDER_STATUSES`
abbrev pub is_eligible_item : FulfillmentStatus → Bool
is_eligible_item s = same_item s pending || same_item s FulfillmentStatus.processing

abbrev pub is_eligible_order : OrderStatus → Bool
is_eligible_order s =
    same_order s pending_payment || same_order s paid || same_order s OrderStatus.processing

-- The items that the hold takes; a held item is not eligible.
abbrev pub to_hold : ℕ → OrderItem → Bool
to_hold store_id i = in_store store_id i && is_eligible_item i.fulfillment_status

abbrev pub hold_item : ℕ → OrderItem → OrderItem
hold_item now i = record i {
  previous_fulfillment_status = some i.fulfillment_status;
  hold_started_at = some now;
  fulfillment_status = FulfillmentStatus.on_hold;
}

abbrev pub find_order : ℕ → World → Option Order
find_order id w = find (λ (o : Order). o.id == id) w.orders

-- The order with its items held, and the header status that they give.
unfoldable pub held_order : ℕ → ℕ → Order → Order
held_order store_id now o =
    let items = update_items (to_hold store_id) (hold_item now) o.items in
    let next = derive_order_status o.status (statuses items) in
    record o {
      items = items;
      status = next;
      previous_status =
          if not (same_order next o.status) && same_order next OrderStatus.on_hold
          then some o.status
          else o.previous_status;
    }

unfoldable pub apply_hold_to : ℕ → ℕ → Order → World → World × ℕ
apply_hold_to store_id now o w =
    let held = count (to_hold store_id) o.items in
    if not (is_eligible_order o.status) || held == 0 then (w, 0) else (
      record w {
        orders = save_in (held_order store_id now o) w.orders;
        history =
            w.history
            ++ record {
              order_id = o.id;
              status = (held_order store_id now o).status;
              changed_by = system;
            }
              ∷ [];
      },
      held,
    )

unfoldable pub apply_hold_for_order : ℕ → ℕ → ℕ → World → World × ℕ
apply_hold_for_order store_id now order_id w = elim (find_order order_id w) [
  | none ↦ (w, 0)
  | some o ↦ apply_hold_to store_id now o w
]

-- The items that the release restores.
abbrev pub to_restore : ℕ → OrderItem → Bool
to_restore store_id i = in_store store_id i && is_held i

abbrev pub has_snapshot_item : OrderItem → Bool
has_snapshot_item i = elim i.previous_fulfillment_status [ none ↦ false | some s ↦ true ]

abbrev pub snapshot_or : FulfillmentStatus → Option FulfillmentStatus → FulfillmentStatus
snapshot_or s none = s
snapshot_or s (some t) = t

abbrev pub release_item : OrderItem → OrderItem
release_item i = record i {
  fulfillment_status = snapshot_or i.fulfillment_status i.previous_fulfillment_status;
  previous_fulfillment_status = none;
  hold_started_at = none;
}

-- The order row is saved only where its status changes, or was `on_hold` with no snapshot left; in the
-- second case the row stays as it was.
unfoldable pub restored_order : ℕ → Order → Order
restored_order store_id o =
    let items = update_items (to_restore store_id) release_item o.items in
    let next = derive_order_status o.status (statuses items) in
    record o {
      items = items;
      status = next;
      previous_status =
          if same_order next o.status || same_order next OrderStatus.on_hold
          then o.previous_status
          else none;
    }

unfoldable pub restore_to : ℕ → Order → World → Result Error (World × ℕ)
restore_to store_id o w = do
  throw_if (any (λ i. to_restore store_id i && not (has_snapshot_item i)) o.items)
      hold_restore_snapshot_missing
  if count (to_restore store_id) o.items == 0
      then ok (w, 0)
      else ok (
        record w {
          orders = save_in (restored_order store_id o) w.orders;
          history =
              if same_order (restored_order store_id o).status o.status
              then w.history
              else w.history
                ++ record {
                  order_id = o.id;
                  status = (restored_order store_id o).status;
                  changed_by = system;
                }
                  ∷ [];
        },
        count (to_restore store_id) o.items,
      )

unfoldable pub restore_hold_for_order : ℕ → ℕ → World → Result Error (World × ℕ)
restore_hold_for_order store_id order_id w = elim (find_order order_id w) [
  | none ↦ ok (w, 0)
  | some o ↦ restore_to store_id o w
]

-- The orders that the two queries select, in the order of the table.
abbrev pub eligible_order_ids : ℕ → World → List ℕ
eligible_order_ids store_id w =
    map (λ (o : Order). o.id)
      (keep (λ (o : Order). is_eligible_order o.status && any (to_hold store_id) o.items) w.orders)

abbrev pub held_order_ids : ℕ → World → List ℕ
held_order_ids store_id w =
    map (λ (o : Order). o.id) (keep (λ (o : Order). any (to_restore store_id) o.items) w.orders)

-- The tables with `ordersTouched` and the number of items.
pub record HoldResult : Type 0 where
  pub world : World
  pub orders_touched : ℕ
  pub items_changed : ℕ

abbrev pub touched : HoldResult → World × ℕ → HoldResult
touched r (w, n) = record {
  world = w;
  orders_touched = r.orders_touched + (if n == 0 then 0 else 1);
  items_changed = r.items_changed + n;
}

-- The loop of `applyHoldForStore`; no order's transaction throws here.
unfoldable pub apply_hold_loop : ℕ → ℕ → List ℕ → HoldResult → HoldResult
apply_hold_loop store_id now [] r = r
apply_hold_loop store_id now (id ∷ ids) r =
    apply_hold_loop store_id now ids (touched r (apply_hold_for_order store_id now id r.world))

unfoldable pub apply_hold_for_store : ℕ → ℕ → World → HoldResult
apply_hold_for_store store_id now w =
    apply_hold_loop store_id now (eligible_order_ids store_id w)
      record { world = w; orders_touched = 0; items_changed = 0 }

-- The loop of `restoreHoldForStore`: an exception ends it, and the orders before stay restored.
unfoldable pub restore_hold_loop : ℕ → List ℕ → HoldResult → Option Error × HoldResult
restore_hold_loop store_id [] r = (none, r)
restore_hold_loop store_id (id ∷ ids) r = elim (restore_hold_for_order store_id id r.world) [
  | err e ↦ (some e, r)
  | ok step ↦ restore_hold_loop store_id ids (touched r step)
]

unfoldable pub restore_hold_for_store : ℕ → World → Option Error × HoldResult
restore_hold_for_store store_id w =
    restore_hold_loop store_id (held_order_ids store_id w)
      record { world = w; orders_touched = 0; items_changed = 0 }
