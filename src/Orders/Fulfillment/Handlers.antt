-- ===== src/Orders/Fulfillment/Handlers.antt =====
-- Every handler of the fulfillment service keeps every order coherent.
use new_sopet_backend.Prelude.{ℕ, ◌≡◌, Bool, true, Option}
use new_sopet_backend.Prelude.Text.{Text}
use new_sopet_backend.Prelude.Result.{ok, Ensures, Ensures-bind, Ensures-throw_if, Ensures-ok}
use new_sopet_backend.Orders.Status.{paid, derive_order_status}
use new_sopet_backend.Orders.Tracking.{UrlParser}
use new_sopet_backend.Orders.Fulfillment.{
  OrderItem, Order, World, Actor, Access, Requester, load_order, statuses, update_items, in_store,
  mark_processing, mark_shipped, mark_tracked, mark_cancelled, persist_order_transition,
  mark_vendor_order_paid, acknowledge_vendor_order, ship_vendor_order, replace_tracking,
  update_tracking_for_public_api, confirm_order_delivered, cancel_order, cancel_vendor_order,
}
use new_sopet_backend.Orders.Fulfillment.Outcomes.{update_tracking-Keeps}
use new_sopet_backend.Orders.Fulfillment.Coherent.{
  IsCoherent, AllCoherent, save_in-All, load_order-IsCoherent, persist-AllCoherent,
  has_item-update_items, derived-Coherent, delivered-Coherent, cancelled-Coherent, statuses-tracked,
}

module _ (w : World) (hs : AllCoherent w) where
  -- Marking an order paid keeps every order coherent.
  pub mark_vendor_order_paid-AllCoherent :
      (access : Access) (now user_id store order_id : ℕ)
      → Ensures AllCoherent (mark_vendor_order_paid access now user_id store order_id w)
  unfolding mark_vendor_order_paid
  mark_vendor_order_paid-AllCoherent access now user_id store order_id =
      Ensures-bind AllCoherent _ _ λ o loaded. Ensures-bind AllCoherent _ _ λ items granted.
        Ensures-throw_if AllCoherent _ _ _ λ card. Ensures-throw_if AllCoherent _ _ _ λ unpaid.
          Ensures-ok AllCoherent _ (
            persist-AllCoherent now _ _ _ w
              (derived-Coherent paid o.items
                (load_order-IsCoherent order_id w o hs loaded).has_item)
              hs)

  -- The order that is saved has items that some step updated, and the header derived from them.
  saved-AllCoherent :
      (now order_id : ℕ) (o : Order) (p : OrderItem → Bool) (f : OrderItem → OrderItem)
      (actor : Actor)
      → load_order order_id w ≡ ok o
      → let items = update_items p f o.items in
        AllCoherent (
          persist_order_transition now
            (record o { items = items })
            (derive_order_status o.status (statuses items))
            actor
            w)
  saved-AllCoherent now order_id o p f actor loaded =
      persist-AllCoherent now _ _ actor w
        (derived-Coherent o.status (update_items p f o.items) (
          has_item-update_items p f o.items
            (load_order-IsCoherent order_id w o hs loaded).has_item))
        hs

  -- Acknowledging an order keeps every order coherent.
  pub acknowledge_vendor_order-AllCoherent :
      (access : Access) (now user_id store order_id : ℕ)
      → Ensures AllCoherent (acknowledge_vendor_order access now user_id store order_id w)
  unfolding acknowledge_vendor_order
  acknowledge_vendor_order-AllCoherent access now user_id store order_id =
      Ensures-bind AllCoherent _ _ λ o loaded. Ensures-bind AllCoherent _ _ λ items granted.
        Ensures-bind AllCoherent _ _ λ _ free. Ensures-throw_if AllCoherent _ _ _ λ ready.
          Ensures-bind AllCoherent _ _ λ _ uniform.
            Ensures-ok AllCoherent _
              (saved-AllCoherent now order_id o (in_store store) (mark_processing now) _ loaded)

  module _ (parse : UrlParser) (access : Access) (now user_id store order_id : ℕ)
      (number provider : Text) (url : Option Text) where
    -- Shipping an order keeps every order coherent.
    pub ship_vendor_order-AllCoherent :
        Ensures AllCoherent
          (ship_vendor_order parse access now user_id store order_id number provider url w)
    unfolding ship_vendor_order
    ship_vendor_order-AllCoherent = Ensures-bind AllCoherent _ _ λ o loaded.
        Ensures-bind AllCoherent _ _ λ items granted. Ensures-bind AllCoherent _ _ λ _ free.
          Ensures-bind AllCoherent _ _ λ n named. Ensures-bind AllCoherent _ _ λ v carried.
            Ensures-bind AllCoherent _ _ λ u linked. Ensures-throw_if AllCoherent _ _ _ λ ready.
              Ensures-bind AllCoherent _ _ λ _ uniform. Ensures-ok AllCoherent _ (
                saved-AllCoherent now order_id o (in_store store) (mark_shipped now n v u) _ loaded)

    replace_tracking-AllCoherent :
        (o : Order)
        → IsCoherent o
        → Ensures AllCoherent (replace_tracking parse access now o store number provider url w)
    unfolding replace_tracking
    replace_tracking-AllCoherent o h = Ensures-bind AllCoherent _ _ λ n named.
        Ensures-bind AllCoherent _ _ λ v carried. Ensures-bind AllCoherent _ _ λ u linked.
          Ensures-ok AllCoherent _ (
            save_in-All
              (record o { items = update_items (in_store store) (mark_tracked now n v u) o.items })
              w.orders
              (record {
                derived = rw (statuses-tracked (in_store store) now n v u o.items) h.derived;
                has_item =
                    has_item-update_items (in_store store) (mark_tracked now n v u) o.items
                      h.has_item;
              })
              hs)

  -- Confirming a delivery keeps every order coherent.
  pub confirm_order_delivered-AllCoherent :
      (sha256 : Text → Text) (now order_id : ℕ) (r : Requester)
      → Ensures AllCoherent (confirm_order_delivered sha256 now order_id r w)
  unfolding confirm_order_delivered
  confirm_order_delivered-AllCoherent sha256 now order_id r =
      Ensures-bind AllCoherent _ _ λ o loaded. Ensures-bind AllCoherent _ _ λ _ allowed.
        Ensures-throw_if AllCoherent _ _ _ λ ready. Ensures-throw_if AllCoherent _ _ _ λ out.
          Ensures-throw_if AllCoherent _ _ _ λ written. Ensures-ok AllCoherent _ (
            persist-AllCoherent now _ _ _ w
              (delivered-Coherent now o.items
                (load_order-IsCoherent order_id w o hs loaded).has_item)
              hs)

  -- A vendor's cancellation keeps every order coherent.
  pub cancel_vendor_order-AllCoherent :
      (access : Access) (now user_id store order_id : ℕ)
      → Ensures AllCoherent (cancel_vendor_order access now user_id store order_id w)
  unfolding cancel_vendor_order cancel_order
  cancel_vendor_order-AllCoherent access now user_id store order_id =
      Ensures-bind AllCoherent _ _ λ o loaded. Ensures-bind AllCoherent _ _ λ items granted.
        Ensures-bind AllCoherent _ _ λ _ single. Ensures-bind AllCoherent _ _ λ _ free.
          Ensures-throw_if AllCoherent _ _ _ λ open_. Ensures-throw_if AllCoherent _ _ _ λ early.
            Ensures-ok AllCoherent _ (
              save_in-All _ w.orders
                (cancelled-Coherent _ (
                  has_item-update_items (λ i. true) (mark_cancelled now) o.items
                    (load_order-IsCoherent order_id w o hs loaded).has_item))
                hs)

-- A tracking update of the public API keeps every order coherent, also when it throws after it has
-- acknowledged the order.
pub update_tracking_for_public_api-AllCoherent :
    (parse : UrlParser) (access : Access) (now user_id store order_id : ℕ) (number provider : Text)
    (url : Option Text) (w : World)
    → AllCoherent w
    → AllCoherent
        (update_tracking_for_public_api parse access now user_id store order_id number provider url
          w).1
update_tracking_for_public_api-AllCoherent parse access now user store id number provider url w hs =
    update_tracking-Keeps AllCoherent parse access now user store id number provider url w hs
      (acknowledge_vendor_order-AllCoherent w hs access now user store id)
      (λ v k. ship_vendor_order-AllCoherent v k parse access now user store id number provider url)
      (λ o h _.
        replace_tracking-AllCoherent w hs parse access now user store id number provider url o
          (load_order-IsCoherent id w o hs h))
