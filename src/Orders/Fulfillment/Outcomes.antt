-- ===== src/Orders/Fulfillment/Outcomes.antt =====
-- What the guards of the handlers ensure, and what a tracking update of the public API keeps: whatever its three handlers keep, also when it
-- throws after a commit.
use new_sopet_backend.Prelude.{
  ℕ, ◌≡◌, refl, sym, arith, any, every, keep, Bool, true, false, Option, none, some, List,
  if◌then◌else◌,
}
use new_sopet_backend.Prelude.Text.{Text}
use new_sopet_backend.Prelude.Result.{
  Result, ok, err, Ensures, Ensures-bind, Ensures-ok, ◌>>=◌, throw_if,
}
use new_sopet_backend.Orders.Status.{FulfillmentStatus}
use new_sopet_backend.Orders.Tracking.{Error, UrlParser}
use new_sopet_backend.Orders.Fulfillment.{
  OrderItem, Order, World, Access, Outcome, all_are, load_order, acknowledge_vendor_order,
  ship_vendor_order, replace_tracking, track, tracked_items, update_tracking_for_public_api, commit,
  and_then, assert_vendor_store_access, assert_no_held_items, assert_single_store_order, in_store,
  is_held,
}

pub assert_vendor_store_access_lem :
    (access : Access) (user_id : ℕ) (o : Order) (store : ℕ) (items : List OrderItem)
    → assert_vendor_store_access access user_id o store ≡ ok items
    → items ≡ keep (in_store store) o.items
unfolding assert_vendor_store_access ◌>>=◌ throw_if
assert_vendor_store_access_lem access user_id o store items h = ground arith

pub assert_no_held_items_lem :
    (items : List OrderItem) (e : Error) (u : Unit {0})
    → assert_no_held_items items e ≡ ok u
    → any is_held items ≡ false
unfolding assert_no_held_items throw_if
assert_no_held_items_lem items e u h = ground arith

pub assert_single_store_order_lem :
    (o : Order) (store : ℕ) (u : Unit {0})
    → assert_single_store_order o store ≡ ok u
    → every (in_store store) o.items ≡ true
unfolding assert_single_store_order throw_if
assert_single_store_order_lem o store u h = ground arith

module _ (P : World → Type 0) where
  if-Keeps : (b : Bool) (x y : Outcome) → P x.1 → P y.1 → P (if b then x else y).1
  if-Keeps true x y hx hy = hx
  if-Keeps false x y hx hy = hy

  pub commit-Keeps : (w : World) (r : Result Error World) → P w → Ensures P r → P (commit w r).1
  commit-Keeps w (ok w') hs h = h.at w' refl
  commit-Keeps w (err e) hs h = hs

  and_then-Keeps :
      (c : Outcome) (f : World → Outcome)
      → P c.1
      → ((w : World) → P w → P (f w).1)
      → P (and_then c f).1
  and_then-Keeps (none, w) f hs h = h w hs
  and_then-Keeps (some e, w) f hs h = hs

  module _ (parse : UrlParser) (access : Access) (now user_id store order_id : ℕ)
      (number provider : Text) (url : Option Text) (w : World) (hs : P w)
      (acknowledging : Ensures P (acknowledge_vendor_order access now user_id store order_id w))
      (shipping : (v : World)
        → P v
        → Ensures P
            (ship_vendor_order parse access now user_id store order_id number provider url v))
      (replacing : (o : Order)
        → load_order order_id w ≡ ok o
        → any is_held (keep (in_store store) o.items) ≡ false
        → Ensures P (replace_tracking parse access now o store number provider url w)) where
    track-Keeps :
        (o : Order) (items : List OrderItem)
        → load_order order_id w ≡ ok o
        → any is_held (keep (in_store store) o.items) ≡ false
        → P (track parse access now user_id store order_id number provider url w o items).1
    unfolding track
    track-Keeps o items h free =
        let ship : World → Outcome = λ v.
          commit v
            (ship_vendor_order parse access now user_id store order_id number provider url v) in
        let replaced : Outcome =
          commit w (replace_tracking parse access now o store number provider url w) in
        let accepted : Outcome =
          commit w (acknowledge_vendor_order access now user_id store order_id w) in
        let ship_keeps : (v : World) → P v → P (ship v).1 =
          λ v k. commit-Keeps v _ k (shipping v k) in
        if-Keeps (all_are FulfillmentStatus.shipped items) replaced
          (if all_are FulfillmentStatus.pending items then and_then accepted ship else ship w)
          (commit-Keeps w _ hs (replacing o h free))
          (if-Keeps (all_are FulfillmentStatus.pending items) (and_then accepted ship) (ship w)
            (and_then-Keeps accepted ship (commit-Keeps w _ hs acknowledging) ship_keeps)
            (ship_keeps w hs))

    abbrev Checked : Order × List OrderItem → Type 0
    Checked r =
        (load_order order_id w ≡ ok r.0) × (any is_held (keep (in_store store) r.0.items) ≡ false)

    tracked_items-Checked :
        Ensures Checked (tracked_items parse access now user_id store order_id w)
    unfolding tracked_items
    tracked_items-Checked = Ensures-bind _ _ _ λ o loaded. Ensures-bind _ _ _ λ items granted.
        Ensures-bind _ _ _ λ u free. Ensures-ok _ _ (
          loaded,
          rw (sym (assert_vendor_store_access_lem access user_id o store items granted))
              (assert_no_held_items_lem items _ u free),
        )

    pub update_tracking-Keeps :
        P
          (update_tracking_for_public_api parse access now user_id store order_id number provider
            url w).1
    unfolding update_tracking_for_public_api
    update_tracking-Keeps =
        go (tracked_items parse access now user_id store order_id w) tracked_items-Checked
      where
        go :
            (r : Result Error (Order × List OrderItem))
            → Ensures Checked r
            → P
                (elim r as (λ _. Outcome) [
                  | err e ↦ (some e, w)
                  | ok (o, items) ↦
                      track parse access now user_id store order_id number provider url w o items
                ]).1
        go (err e) h = hs
        go (ok (o, items)) h =
            let c : Checked (o, items) = h.at (o, items) refl in track-Keeps o items c.0 c.1
