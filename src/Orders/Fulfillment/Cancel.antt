-- ===== src/Orders/Fulfillment/Cancel.antt =====
-- What a vendor's cancellation does.
use new_sopet_backend.Prelude.{
  ℕ, ◌≡◌, refl, sym, Bool, true, false, not, ◌&&◌, none, some, List, [], ◌∷◌, ◌==◌, arith, count,
  All, find,
}
use new_sopet_backend.Prelude.Result.{ok, Ensures, Ensures-bind, Ensures-throw_if, Ensures-ok}
use new_sopet_backend.Inventory.Restore.{stock_of, add_stock, due, restore_stock_for_items-stock}
use new_sopet_backend.Orders.Status.{OrderStatus, FulfillmentStatus, is_vendor_cancellable}
use new_sopet_backend.Orders.Fulfillment.{
  OrderItem, Order, user, PaymentStatus, Payment, World, Access, load_order, update_items,
  mark_cancelled, fail_pending, stock_items, cancel_order, cancel_vendor_order,
}
use new_sopet_backend.Orders.Fulfillment.Kept.{
  load_order-find, find-load_order, find-test, find-save_in_self,
}

-- A payment of the order that is still pending.
abbrev pub is_pending_of : ℕ → Payment → Bool
is_pending_of id p = p.order_id == id && elim p.status [ PaymentStatus.pending ↦ true | _ ↦ false ]

pub record Cancelled (id : ℕ) (w w' : World) (o o' : Order) : Type 0 where
  pub was : load_order id w ≡ ok o
  pub early : is_vendor_cancellable o.status ≡ true
  pub is : load_order id w' ≡ ok o'
  pub status : o'.status ≡ OrderStatus.cancelled
  pub items :
      All
        (λ (i : OrderItem).
          (i.fulfillment_status ≡ FulfillmentStatus.cancelled)
          × (i.previous_fulfillment_status ≡ none))
        o'.items
  pub unpaid : count (is_pending_of id) w'.payments ≡ 0
  pub stock :
      (j : ℕ)
      → stock_of j w'.inventory.variants
        ≡ add_stock
            (due id j (stock_items id o'.items) w.inventory.transactions)
            (stock_of j w.inventory.variants)

count-fail_pending :
    (id : ℕ) (ps : List Payment) → count (is_pending_of id) (fail_pending id ps) ≡ 0
unfolding fail_pending
count-fail_pending id [] = refl
count-fail_pending id (p ∷ ps) = ground (arith, count-fail_pending id ps)

mark_cancelled-All :
    (now : ℕ) (is : List OrderItem)
    → All
        (λ (i : OrderItem).
          (i.fulfillment_status ≡ FulfillmentStatus.cancelled)
          × (i.previous_fulfillment_status ≡ none))
        (update_items (λ i. true) (mark_cancelled now) is)
unfolding update_items
mark_cancelled-All now [] = tt
mark_cancelled-All now (i ∷ is) = ((refl, refl), mark_cancelled-All now is)

cancel_order-Cancelled :
    (now order_id user_id : ℕ) (w : World) (o : Order)
    → load_order order_id w ≡ ok o
    → is_vendor_cancellable o.status ≡ true
    → Cancelled order_id w (cancel_order now o (user user_id) w) o (record o {
      status = OrderStatus.cancelled;
      items = update_items (λ i. true) (mark_cancelled now) o.items;
    })
unfolding cancel_order
cancel_order-Cancelled now order_id user_id w o loaded early =
    let found : find (λ (p : Order). p.id == order_id) w.orders ≡ some o =
      load_order-find order_id w o loaded in
    let same : o.id ≡ order_id = find-test order_id w.orders o found in
    record {
      was = loaded;
      early = early;
      is = find-load_order order_id _ _ (find-save_in_self order_id o _ w.orders found same);
      status = refl;
      items = mark_cancelled-All now o.items;
      unpaid = rw (sym same) (count-fail_pending o.id w.payments);
      stock = λ j. rw (sym same) (restore_stock_for_items-stock o.id j _ w.inventory);
    }

abbrev IsCancelled : ℕ → World → World → Type 0
IsCancelled order_id w w' = (o : Order) × (o' : Order) × Cancelled order_id w w' o o'

not-false : (b : Bool) → not b ≡ false → b ≡ true
not-false true h = refl
not-false false h = cc

cancel_vendor_order-IsCancelled :
    (access : Access) (now user_id store order_id : ℕ) (w : World)
    → Ensures (IsCancelled order_id w) (cancel_vendor_order access now user_id store order_id w)
unfolding cancel_vendor_order
cancel_vendor_order-IsCancelled access now user_id store order_id w =
    let P : World → Type 0 = IsCancelled order_id w in
    Ensures-bind P _ _ λ o loaded. Ensures-bind P _ _ λ items granted.
      Ensures-bind P _ _ λ u single. Ensures-bind P _ _ λ v free. Ensures-throw_if P _ _ _ λ open_.
        Ensures-throw_if P _ _ _ λ late. Ensures-ok P _ (
          o,
          _,
          cancel_order-Cancelled now order_id user_id w o loaded
              (not-false (is_vendor_cancellable o.status) late),
        )

-- A vendor's cancellation that succeeds finds the order not yet shipped and leaves it and all its items
-- cancelled, with no hold and no pending payment of it, and gives the stock back as the restore of its items does.
pub cancel_vendor_order_lem :
    (access : Access) (now user_id store order_id : ℕ) (w w' : World)
    → cancel_vendor_order access now user_id store order_id w ≡ ok w'
    → (o : Order) × (o' : Order) × Cancelled order_id w w' o o'
cancel_vendor_order_lem access now user_id store order_id w w' h =
    (cancel_vendor_order-IsCancelled access now user_id store order_id w).at w' h
