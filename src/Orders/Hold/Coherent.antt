-- ===== src/Orders/Hold/Coherent.antt =====
-- A hold and a release keep the header status in step with the items.
use new_sopet_backend.Prelude.{
  ℕ, refl, not, ◌||◌, Option, some, List, [], ◌∷◌, Bool-cases, Option-cases, inl, inr, ◌==◌, count,
}
use new_sopet_backend.Prelude.Result.{Result, ok, err, Ensures, Ensures-ok, Ensures-throw_if}
use new_sopet_backend.Orders.Tracking.{Error}
use new_sopet_backend.Orders.Fulfillment.{Order, World, update_items}
use new_sopet_backend.Orders.Fulfillment.Coherent.{
  IsCoherent, AllCoherent, save_in-All, find-IsCoherent, has_item-update_items, derived-Coherent,
}
use new_sopet_backend.Orders.Hold.{
  is_eligible_order, to_hold, hold_item, find_order, held_order, apply_hold_to,
  apply_hold_for_order, to_restore, release_item, restored_order, restore_to, HoldResult, touched,
  apply_hold_loop, apply_hold_for_store, restore_hold_loop, restore_hold_for_store,
  restore_hold_for_order,
}

held_order-IsCoherent :
    (store_id now : ℕ) (o : Order) → IsCoherent o → IsCoherent (held_order store_id now o)
unfolding held_order
held_order-IsCoherent store_id now o h =
    derived-Coherent o.status (update_items (to_hold store_id) (hold_item now) o.items)
      (has_item-update_items (to_hold store_id) (hold_item now) o.items h.has_item)

restored_order-IsCoherent :
    (store_id : ℕ) (o : Order) → IsCoherent o → IsCoherent (restored_order store_id o)
unfolding restored_order
restored_order-IsCoherent store_id o h =
    derived-Coherent o.status (update_items (to_restore store_id) release_item o.items)
      (has_item-update_items (to_restore store_id) release_item o.items h.has_item)

apply_hold_to-AllCoherent :
    (store_id now : ℕ) (o : Order) (w : World)
    → IsCoherent o
    → AllCoherent w
    → AllCoherent (apply_hold_to store_id now o w).0
unfolding apply_hold_to
apply_hold_to-AllCoherent store_id now o w h hs =
    elim (Bool-cases (not (is_eligible_order o.status) || count (to_hold store_id) o.items == 0)) [
      | inl skip ↦ rw (skip, apply_hold_to) hs
      | inr go ↦
          rw (go, apply_hold_to)
            (save_in-All (held_order store_id now o) w.orders
              (held_order-IsCoherent store_id now o h) hs)
    ]

apply_hold_for_order-AllCoherent :
    (store_id now order_id : ℕ) (w : World)
    → AllCoherent w
    → AllCoherent (apply_hold_for_order store_id now order_id w).0
unfolding apply_hold_for_order
apply_hold_for_order-AllCoherent store_id now order_id w hs =
    elim (Option-cases (find_order order_id w)) [
      | inl missing ↦ rw (missing, apply_hold_for_order) hs
      | inr (o, found) ↦
          rw (found, apply_hold_for_order)
            (apply_hold_to-AllCoherent store_id now o w (find-IsCoherent _ w.orders hs found) hs)
    ]

abbrev StepCoherent : World × ℕ → Type 0
StepCoherent s = AllCoherent s.0

restore_to-AllCoherent :
    (store_id : ℕ) (o : Order) (w : World)
    → IsCoherent o
    → AllCoherent w
    → Ensures StepCoherent (restore_to store_id o w)
unfolding restore_to
restore_to-AllCoherent store_id o w h hs = Ensures-throw_if StepCoherent _ _ _ λ complete.
    elim (Bool-cases (count (to_restore store_id) o.items == 0)) [
      | inl skip ↦ rw skip (Ensures-ok StepCoherent (w, 0) hs)
      | inr go ↦ rw go (
          Ensures-ok StepCoherent _ (
            save_in-All (restored_order store_id o) w.orders
              (restored_order-IsCoherent store_id o h) hs))
    ]

restore_hold_for_order-AllCoherent :
    (store_id order_id : ℕ) (w : World)
    → AllCoherent w
    → Ensures StepCoherent (restore_hold_for_order store_id order_id w)
unfolding restore_hold_for_order
restore_hold_for_order-AllCoherent store_id order_id w hs =
    elim (Option-cases (find_order order_id w)) [
      | inl missing ↦ rw (missing, restore_hold_for_order) (Ensures-ok StepCoherent (w, 0) hs)
      | inr (o, found) ↦
          rw (found, restore_hold_for_order)
            (restore_to-AllCoherent store_id o w (find-IsCoherent _ w.orders hs found) hs)
    ]

apply_hold_loop-AllCoherent :
    (store_id now : ℕ) (ids : List ℕ) (r : HoldResult)
    → AllCoherent r.world
    → AllCoherent (apply_hold_loop store_id now ids r).world
unfolding apply_hold_loop
apply_hold_loop-AllCoherent store_id now [] r hs = hs
apply_hold_loop-AllCoherent store_id now (id ∷ ids) r hs =
    apply_hold_loop-AllCoherent store_id now ids _
      (apply_hold_for_order-AllCoherent store_id now id r.world hs)

-- Suspending a store keeps the header status of every order in step with its items.
pub apply_hold_for_store-AllCoherent :
    (store_id now : ℕ) (w : World)
    → AllCoherent w
    → AllCoherent (apply_hold_for_store store_id now w).world
unfolding apply_hold_for_store
apply_hold_for_store-AllCoherent store_id now w hs = apply_hold_loop-AllCoherent store_id now _ _ hs

restore_hold_loop-AllCoherent :
    (store_id : ℕ) (ids : List ℕ) (r : HoldResult)
    → AllCoherent r.world
    → AllCoherent (restore_hold_loop store_id ids r).1.world
unfolding restore_hold_loop
restore_hold_loop-AllCoherent store_id [] r hs = hs
restore_hold_loop-AllCoherent store_id (id ∷ ids) r hs =
    go (restore_hold_for_order store_id id r.world)
      (restore_hold_for_order-AllCoherent store_id id r.world hs)
      (λ q k. restore_hold_loop-AllCoherent store_id ids q k)
  where
    go :
        (s : Result Error (World × ℕ))
        → Ensures StepCoherent s
        → ((q : HoldResult)
            → AllCoherent q.world
            → AllCoherent (restore_hold_loop store_id ids q).1.world)
        → AllCoherent
            (elim s as (λ _. Option Error × HoldResult) [
              | err e ↦ (some e, r)
              | ok step ↦ restore_hold_loop store_id ids (touched r step)
            ]).1.world
    go (err e) h rest = hs
    go (ok (w, n)) h rest = rest (touched r (w, n)) (h.at (w, n) refl)

-- Reactivating a store keeps the header status of every order in step with its items, also where the
-- release of one order throws.
pub restore_hold_for_store-AllCoherent :
    (store_id : ℕ) (w : World)
    → AllCoherent w
    → AllCoherent (restore_hold_for_store store_id w).1.world
unfolding restore_hold_for_store
restore_hold_for_store-AllCoherent store_id w hs = restore_hold_loop-AllCoherent store_id _ _ hs
