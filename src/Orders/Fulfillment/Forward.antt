-- ===== src/Orders/Fulfillment/Forward.antt =====
-- Every handler of the fulfillment service keeps the items of every order.
use new_sopet_backend.Prelude.{
  ℕ, ◌≡◌, refl, sym, true, false, ◌||◌, inl, Option, List, [], ◌∷◌, arith, any, every, keep, All,
}
use new_sopet_backend.Prelude.Text.{Text}
use new_sopet_backend.Prelude.Result.{
  ok, Ensures, Ensures-bind, Ensures-throw_if, Ensures-ok, ◌>>=◌, throw_if,
}
use new_sopet_backend.Orders.Status.{OrderStatus, FulfillmentStatus, same_item}
use new_sopet_backend.Orders.Tracking.{UrlParser, assert_vendor_items_uniform}
use new_sopet_backend.Orders.Fulfillment.{
  OrderItem, Order, World, Actor, Access, Requester, load_order, statuses, update_items, in_store,
  is_held, mark_processing, mark_shipped, mark_tracked, mark_delivered, mark_cancelled,
  persist_order_transition, mark_vendor_order_paid, acknowledge_vendor_order, ship_vendor_order,
  replace_tracking, assert_vendor_store_access, update_tracking_for_public_api,
  confirm_order_delivered, cancel_order, cancel_vendor_order,
}
use new_sopet_backend.Orders.Fulfillment.Outcomes.{
  update_tracking-Keeps, assert_vendor_store_access_lem, assert_no_held_items_lem,
  assert_single_store_order_lem,
}
use new_sopet_backend.Orders.Fulfillment.Kept.{
  Kept, AllKept, AllKept-refl, update_items-AllKept, All-store, All-every, WorldKept,
  WorldKept-refl, WorldKept-trans, save_in-WorldKept,
}

assert_vendor_items_uniform_lem :
    (ss : List FulfillmentStatus) (s : FulfillmentStatus) (u : Unit {0})
    → assert_vendor_items_uniform ss s ≡ ok u
    → every (λ t. same_item t s) ss ≡ true
unfolding assert_vendor_items_uniform ◌>>=◌ throw_if
assert_vendor_items_uniform_lem ss s u h = ground arith

mark_processing-Kept :
    (now : ℕ) (i : OrderItem)
    → same_item i.fulfillment_status FulfillmentStatus.pending ≡ true
    → Kept i (mark_processing now i)
mark_processing-Kept now i h = record {
  same_id = refl;
  same_store = refl;
  same_variant = refl;
  same_quantity = refl;
  forward = ground arith;
  unheld_or_same = inl (ground arith);
}

mark_shipped-Kept :
    (now : ℕ) (n v : Text) (u : Option Text) (i : OrderItem)
    → same_item i.fulfillment_status FulfillmentStatus.processing ≡ true
    → Kept i (mark_shipped now n v u i)
mark_shipped-Kept now n v u i h = record {
  same_id = refl;
  same_store = refl;
  same_variant = refl;
  same_quantity = refl;
  forward = ground arith;
  unheld_or_same = inl (ground arith);
}

mark_delivered-Kept :
    (now : ℕ) (i : OrderItem)
    → (same_item i.fulfillment_status FulfillmentStatus.shipped
        || same_item i.fulfillment_status FulfillmentStatus.delivered)
      ≡ true
    → Kept i (mark_delivered now i)
mark_delivered-Kept now i h = record {
  same_id = refl;
  same_store = refl;
  same_variant = refl;
  same_quantity = refl;
  forward = ground arith;
  unheld_or_same = inl (ground arith);
}

mark_tracked-Kept :
    (now : ℕ) (n v : Text) (u : Option Text) (i : OrderItem)
    → is_held i ≡ false
    → Kept i (mark_tracked now n v u i)
mark_tracked-Kept now n v u i h = record {
  same_id = refl;
  same_store = refl;
  same_variant = refl;
  same_quantity = refl;
  forward = omega arith;
  unheld_or_same = inl h;
}

mark_cancelled-Kept : (now : ℕ) (i : OrderItem) → is_held i ≡ false → Kept i (mark_cancelled now i)
mark_cancelled-Kept now i h = record {
  same_id = refl;
  same_store = refl;
  same_variant = refl;
  same_quantity = refl;
  forward = ground arith;
  unheld_or_same = inl h;
}

-- No item is held where all are of one store and none of that store's is.
All-free :
    (store : ℕ) (is : List OrderItem)
    → every (in_store store) is ≡ true
    → any is_held (keep (in_store store) is) ≡ false
    → All (λ i. true ≡ true → is_held i ≡ false) is
All-free store [] h q = tt
All-free store (i ∷ is) h q = (λ _. ground arith, All-free store is (ground arith) (ground arith))

-- None of a store's items is held.
All-free_of :
    (store : ℕ) (is : List OrderItem)
    → any is_held (keep (in_store store) is) ≡ false
    → All (λ i. in_store store i ≡ true → is_held i ≡ false) is
All-free_of store [] q = tt
All-free_of store (i ∷ is) q = (λ r. ground arith, All-free_of store is (ground arith))

All-imp :
    (P Q : OrderItem → Type 0) (is : List OrderItem)
    → ((i : OrderItem) → P i → Q i)
    → All P is
    → All Q is
All-imp P Q [] f h = tt
All-imp P Q (i ∷ is) f h = (f i h.0, All-imp P Q is f h.1)

module _ (w : World) where
  persist-WorldKept :
      (now order_id : ℕ) (o p : Order) (next : OrderStatus) (actor : Actor)
      → load_order order_id w ≡ ok o
      → p.id ≡ o.id
      → AllKept o.items p.items
      → WorldKept w (persist_order_transition now p next actor w)
  unfolding persist_order_transition
  persist-WorldKept now order_id o p next actor loaded e k =
      save_in-WorldKept order_id o _ w _ loaded e k refl

  pub mark_vendor_order_paid-WorldKept :
      (access : Access) (now user_id store order_id : ℕ)
      → Ensures (WorldKept w) (mark_vendor_order_paid access now user_id store order_id w)
  unfolding mark_vendor_order_paid
  mark_vendor_order_paid-WorldKept access now user_id store order_id =
      Ensures-bind (WorldKept w) _ _ λ o loaded. Ensures-bind (WorldKept w) _ _ λ items granted.
        Ensures-throw_if (WorldKept w) _ _ _ λ card. Ensures-throw_if (WorldKept w) _ _ _ λ unpaid.
          Ensures-ok (WorldKept w) _
            (persist-WorldKept now order_id o _ _ _ loaded refl (AllKept-refl o.items))

  -- The items of a store that are all in one state move on from it.
  uniform-AllKept :
      (access : Access) (user_id store : ℕ) (o : Order) (items : List OrderItem)
      (s : FulfillmentStatus) (f : OrderItem → OrderItem) (u : Unit {0})
      → assert_vendor_store_access access user_id o store ≡ ok items
      → assert_vendor_items_uniform (statuses items) s ≡ ok u
      → ((i : OrderItem) → same_item i.fulfillment_status s ≡ true → Kept i (f i))
      → AllKept o.items (update_items (in_store store) f o.items)
  uniform-AllKept access user_id store o items s f u granted uniform k =
      update_items-AllKept (in_store store) f o.items (
        All-store store (λ t. same_item t s) (λ i. Kept i (f i)) o.items k
          (rw (sym (assert_vendor_store_access_lem access user_id o store items granted))
            (assert_vendor_items_uniform_lem (statuses items) s u uniform)))

  pub acknowledge_vendor_order-WorldKept :
      (access : Access) (now user_id store order_id : ℕ)
      → Ensures (WorldKept w) (acknowledge_vendor_order access now user_id store order_id w)
  unfolding acknowledge_vendor_order persist_order_transition
  acknowledge_vendor_order-WorldKept access now user_id store order_id =
      Ensures-bind (WorldKept w) _ _ λ o loaded. Ensures-bind (WorldKept w) _ _ λ items granted.
        Ensures-bind (WorldKept w) _ _ λ _ free. Ensures-throw_if (WorldKept w) _ _ _ λ ready.
          Ensures-bind (WorldKept w) _ _ λ u uniform. Ensures-ok (WorldKept w) _ (
            save_in-WorldKept order_id o _ w _ loaded refl
              (uniform-AllKept access user_id store o items FulfillmentStatus.pending
                (mark_processing now) u granted uniform (mark_processing-Kept now))
              refl)

  module _ (parse : UrlParser) (access : Access) (now user_id store order_id : ℕ)
      (number provider : Text) (url : Option Text) where
    pub ship_vendor_order-WorldKept :
        Ensures
          (WorldKept w)
          (ship_vendor_order parse access now user_id store order_id number provider url w)
    unfolding ship_vendor_order
    ship_vendor_order-WorldKept = Ensures-bind (WorldKept w) _ _ λ o loaded.
        Ensures-bind (WorldKept w) _ _ λ items granted. Ensures-bind (WorldKept w) _ _ λ _ free.
          Ensures-bind (WorldKept w) _ _ λ n named. Ensures-bind (WorldKept w) _ _ λ v carried.
            Ensures-bind (WorldKept w) _ _ λ l linked. Ensures-throw_if (WorldKept w) _ _ _ λ ready.
              Ensures-bind (WorldKept w) _ _ λ u uniform. Ensures-ok (WorldKept w) _ (
                persist-WorldKept now order_id o _ _ _ loaded refl (
                  uniform-AllKept access user_id store o items FulfillmentStatus.processing
                    (mark_shipped now n v l) u granted uniform (mark_shipped-Kept now n v l)))

    replace_tracking-WorldKept :
        (o : Order)
        → load_order order_id w ≡ ok o
        → any is_held (keep (in_store store) o.items) ≡ false
        → Ensures (WorldKept w) (replace_tracking parse access now o store number provider url w)
    unfolding replace_tracking
    replace_tracking-WorldKept o loaded free = Ensures-bind (WorldKept w) _ _ λ n named.
        Ensures-bind (WorldKept w) _ _ λ v carried. Ensures-bind (WorldKept w) _ _ λ l linked.
          Ensures-ok (WorldKept w) _ (
            save_in-WorldKept order_id o _ w _ loaded refl
              (update_items-AllKept (in_store store) (mark_tracked now n v l) o.items (
                All-imp _ _ o.items (λ i h q. mark_tracked-Kept now n v l i (h q))
                  (All-free_of store o.items free)))
              refl)

  pub confirm_order_delivered-WorldKept :
      (sha256 : Text → Text) (now order_id : ℕ) (r : Requester)
      → Ensures (WorldKept w) (confirm_order_delivered sha256 now order_id r w)
  unfolding confirm_order_delivered
  confirm_order_delivered-WorldKept sha256 now order_id r =
      Ensures-bind (WorldKept w) _ _ λ o loaded. Ensures-bind (WorldKept w) _ _ λ _ allowed.
        Ensures-throw_if (WorldKept w) _ _ _ λ ready. Ensures-throw_if (WorldKept w) _ _ _ λ out.
          Ensures-throw_if (WorldKept w) _ _ _ λ written. Ensures-ok (WorldKept w) _ (
            persist-WorldKept now order_id o _ _ _ loaded refl (
              update_items-AllKept (λ i. true) (mark_delivered now) o.items
                (All-every _ _ o.items (mark_delivered-Kept now) (ground arith))))

  pub cancel_vendor_order-WorldKept :
      (access : Access) (now user_id store order_id : ℕ)
      → Ensures (WorldKept w) (cancel_vendor_order access now user_id store order_id w)
  unfolding cancel_vendor_order cancel_order
  cancel_vendor_order-WorldKept access now user_id store order_id =
      Ensures-bind (WorldKept w) _ _ λ o loaded. Ensures-bind (WorldKept w) _ _ λ items granted.
        Ensures-bind (WorldKept w) _ _ λ u single. Ensures-bind (WorldKept w) _ _ λ v free.
          Ensures-throw_if (WorldKept w) _ _ _ λ open_.
            Ensures-throw_if (WorldKept w) _ _ _ λ early. Ensures-ok (WorldKept w) _ (
              save_in-WorldKept order_id o _ w _ loaded refl
                (update_items-AllKept (λ i. true) (mark_cancelled now) o.items
                  (All-imp _ _ o.items (λ i h q. mark_cancelled-Kept now i (h q))
                    (All-free store o.items (assert_single_store_order_lem o store u single) (
                      rw (sym (assert_vendor_store_access_lem access user_id o store items granted))
                        (assert_no_held_items_lem items _ v free)))))
                refl)

pub update_tracking_for_public_api-WorldKept :
    (parse : UrlParser) (access : Access) (now user_id store order_id : ℕ) (number provider : Text)
    (url : Option Text) (w : World)
    → WorldKept w
        (update_tracking_for_public_api parse access now user_id store order_id number provider url
          w).1
update_tracking_for_public_api-WorldKept parse access now user store id number provider url w =
    update_tracking-Keeps (WorldKept w) parse access now user store id number provider url w
      (WorldKept-refl w) (acknowledge_vendor_order-WorldKept w access now user store id)
      (λ v k. record {
        at = λ x e. WorldKept-trans w v x k (
            (ship_vendor_order-WorldKept v parse access now user store id number provider url).at x
              e);
      })
      (λ o h free.
        replace_tracking-WorldKept w parse access now user store id number provider url o h free)
