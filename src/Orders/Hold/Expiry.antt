-- ===== src/Orders/Hold/Expiry.antt =====
-- modules/orders/store-suspension-hold.service.ts: the job that cancels items which are held for too
-- long, with the totals of modules/orders/order-totals.util.ts. `now` is when the job starts and `at`
-- when it writes. No order's transaction throws here.
use new_sopet_backend.Prelude.{
  ℕ, ◌+◌, ◌-◌, Bool, false, not, ◌&&◌, Option, none, some, List, [], ◌∷◌, ◌++◌, ltb, leb,
  if◌then◌else◌, any, count, keep, map, sum_by,
}
use new_sopet_backend.Inventory.{restore_stock_for_items}
use new_sopet_backend.Orders.Status.{
  OrderStatus, pending_payment, FulfillmentStatus, same_order, same_item, derive_order_status,
}
use new_sopet_backend.Orders.Rows.{
  OrderItem, OrderStoreShipping, Order, HistoryRow, system, World, save_in, in_store, is_held,
  statuses, update_items, mark_cancelled,
}
use new_sopet_backend.Orders.Fulfillment.{stock_items}
use new_sopet_backend.Orders.Hold.{find_order}

-- 30 days, unless a positive value is configured.
abbrev pub hold_sla_after_ms : Option ℕ → ℕ
hold_sla_after_ms none = 2592000000
hold_sla_after_ms (some n) = if ltb 0 n then n else 2592000000

abbrev pub is_remaining : OrderItem → Bool
is_remaining i = not (same_item i.fulfillment_status FulfillmentStatus.cancelled)

unfoldable pub recompute_order_payable_totals : Order → Order
recompute_order_payable_totals o =
    let remaining = keep is_remaining o.items in
    let subtotal = sum_by (λ (i : OrderItem). i.subtotal) remaining in
    let fee =
      sum_by (λ (s : OrderStoreShipping). s.shipping_fee)
        (keep (λ (s : OrderStoreShipping). any (in_store s.store_id) remaining)
          o.store_shippings) in
    record o { subtotal = subtotal; shipping_fee = fee; total = subtotal + fee - o.discount_amount }

-- `holdStartedAt <= now - sla`
abbrev pub started_before : ℕ → ℕ → Option ℕ → Bool
started_before sla now none = false
started_before sla now (some t) = leb (t + sla) now

abbrev pub is_expired_hold : ℕ → ℕ → OrderItem → Bool
is_expired_hold sla now i = is_held i && started_before sla now i.hold_started_at

abbrev pub has_expired_hold : ℕ → ℕ → Order → Bool
has_expired_hold sla now o = any (is_expired_hold sla now) o.items

-- The order row that is saved.
unfoldable pub expired_order : ℕ → ℕ → ℕ → Order → Order
expired_order sla now at o =
    let items = update_items (is_expired_hold sla now) (mark_cancelled at) o.items in
    let next = derive_order_status o.status (statuses items) in
    let moved = record o {
      items = items;
      status = next;
      previous_status = if same_order next OrderStatus.on_hold then o.previous_status else none;
    } in
    if same_order next pending_payment then recompute_order_payable_totals moved else moved

abbrev pub system_row : ℕ → OrderStatus → HistoryRow
system_row id s = record { order_id = id; status = s; changed_by = system }

-- An entry for each cancelled item, and one for the new status.
abbrev pub expiry_rows : ℕ → ℕ → ℕ → Order → List HistoryRow
expiry_rows sla now at o =
    map (λ (i : OrderItem). system_row o.id o.status) (keep (is_expired_hold sla now) o.items)
    ++ (if same_order (expired_order sla now at o).status o.status
        then []
        else system_row o.id (expired_order sla now at o).status ∷ [])

unfoldable pub expire_order : ℕ → ℕ → ℕ → Order → World → World × ℕ
expire_order sla now at o w = if not (has_expired_hold sla now o) then (w, 0) else (
  record w {
    orders = save_in (expired_order sla now at o) w.orders;
    inventory =
        (restore_stock_for_items o.id (stock_items o.id (keep (is_expired_hold sla now) o.items))
          w.inventory).0;
    history = w.history ++ expiry_rows sla now at o;
  },
  count (is_expired_hold sla now) o.items,
)

unfoldable pub cancel_expired_held_items_for_order : ℕ → ℕ → ℕ → ℕ → World → World × ℕ
cancel_expired_held_items_for_order sla now at order_id w = elim (find_order order_id w) [
  | none ↦ (w, 0)
  | some o ↦ expire_order sla now at o w
]

abbrev pub expired_order_ids : ℕ → ℕ → List Order → List ℕ
expired_order_ids sla now os = map (λ (o : Order). o.id) (keep (has_expired_hold sla now) os)

unfoldable pub cancel_expired_loop : ℕ → ℕ → ℕ → List ℕ → World × ℕ → World × ℕ
cancel_expired_loop sla now at [] s = s
cancel_expired_loop sla now at (id ∷ ids) (w, n) =
    let (w', k) = cancel_expired_held_items_for_order sla now at id w in
    cancel_expired_loop sla now at ids (w', n + k)

unfoldable pub cancel_expired_held_items : Option ℕ → ℕ → ℕ → World → World × ℕ
cancel_expired_held_items configured now at w =
    let sla = hold_sla_after_ms configured in
    cancel_expired_loop sla now at (expired_order_ids sla now w.orders) (w, 0)
