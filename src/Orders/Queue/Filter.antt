-- ===== src/Orders/Queue/Filter.antt =====
-- The SQL filter of the action queue selects exactly the orders that the predicate calls actionable.
use new_sopet_backend.Prelude.{
  ℕ, ◌≡◌, refl, ◌∙◌, Bool, true, not, ◌&&◌, List, [], ◌∷◌, arith, ◌==◌, length, every, any, keep,
}
use new_sopet_backend.Orders.Status.{FulfillmentStatus, same_item}
use new_sopet_backend.Orders.Status.Summary.{some_of, any-occurs, every-any, any-keep}
use new_sopet_backend.Orders.Queue.{
  QueueItem, QueueOrder, is_terminal_item, is_held_only, is_actionable, store_statuses,
  is_vendor_order_actionable, exists_item, vendor_action_queue_filter,
}

any-store_statuses :
    (store : ℕ) (p : FulfillmentStatus → Bool) (items : List QueueItem)
    → any (λ (i : QueueItem). i.store_id == store && p i.fulfillment_status) items
      ≡ any p (store_statuses store items)
unfolding store_statuses
any-store_statuses store p [] = refl
any-store_statuses store p (i ∷ items) = ground (arith, any-store_statuses store p items)

-- A subquery over the items asks which statuses the store's items have.
exists_item-some_of :
    (o : QueueOrder) (store : ℕ) (p : FulfillmentStatus → Bool)
    → exists_item o store p ≡ some_of p (store_statuses store o.items)
unfolding exists_item
exists_item-some_of o store p =
    any-store_statuses store p o.items ∙ any-occurs p (store_statuses store o.items)

every-some_of :
    (p : FulfillmentStatus → Bool) (xs : List FulfillmentStatus)
    → every p xs ≡ not (some_of (λ s. not (p s)) xs)
every-some_of p xs = rw (every-any, any-occurs)

is_held_only-any :
    (xs : List FulfillmentStatus)
    → is_held_only xs
      ≡ (any (λ s. true) xs && not (any (λ s. not (same_item s FulfillmentStatus.on_hold)) xs))
is_held_only-any [] = refl
is_held_only-any (x ∷ xs) =
    ground (arith, every-any (λ s. same_item s FulfillmentStatus.on_hold) xs)

some_of-keep :
    (p q : FulfillmentStatus → Bool) (xs : List FulfillmentStatus)
    → any p (keep q xs) ≡ some_of (λ s. q s && p s) xs
some_of-keep p q xs = any-keep p q xs ∙ any-occurs (λ s. q s && p s) xs

length-some_of : (xs : List FulfillmentStatus) → (length xs == 0) ≡ not (some_of (λ s. true) xs)
length-some_of [] = refl
length-some_of (x ∷ xs) = rw (← any-occurs (λ s. true) (x ∷ xs)) (ground arith)

held_only-some_of :
    (xs : List FulfillmentStatus)
    → is_held_only (keep (λ s. not (is_terminal_item s)) xs) ≡ (
        some_of (λ s. not (is_terminal_item s)) xs
        && not (
            some_of
              (λ s. not (is_terminal_item s) && not (same_item s FulfillmentStatus.on_hold))
              xs))
held_only-some_of xs = rw (is_held_only-any, some_of-keep, some_of-keep) (ground arith)

-- On an order that has an item of the store, as the rows of the list query have, the filter and the
-- predicate agree.
pub vendor_action_queue_filter-eq-is_vendor_order_actionable :
    (o : QueueOrder) (store : ℕ)
    → exists_item o store (λ s. true) ≡ true
    → vendor_action_queue_filter o store ≡ is_vendor_order_actionable o store
unfolding vendor_action_queue_filter is_vendor_order_actionable is_actionable
vendor_action_queue_filter-eq-is_vendor_order_actionable o store h =
    let xs : List FulfillmentStatus = store_statuses store o.items in
    let some_item : some_of (λ s. true) xs ≡ true = rw exists_item-some_of at h in
    simp (exists_item-some_of, length-some_of xs, held_only-some_of xs, every-some_of)
      (ground arith)
