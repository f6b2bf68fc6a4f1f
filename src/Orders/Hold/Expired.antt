-- ===== src/Orders/Hold/Expired.antt =====
-- The job of modules/orders/store-suspension-hold.service.ts that cancels expired holds clears them.
use new_sopet_backend.Prelude.{
  ℕ, ◌+◌, ◌≡◌, refl, sym, ap, ◌∙◌, subst, true, false, inl, inr, Option, none, some, List, [], ◌∷◌,
  arith, ◌==◌, any, find, find-holds, Bool-cases, Option-cases, ==_iff,
}
use new_sopet_backend.Orders.Status.{pending_payment, same_order, derive_order_status}
use new_sopet_backend.Orders.Rows.{OrderItem, Order, World, statuses, update_items, mark_cancelled}
use new_sopet_backend.Orders.Fulfillment.Kept.{find-save_in_self, find-save_in_ne}
use new_sopet_backend.Orders.Fulfillment.Coherent.{
  IsCoherent, AllCoherent, save_in-All, find-IsCoherent, has_item-update_items, derived-Coherent,
}
use new_sopet_backend.Orders.Hold.{find_order}
use new_sopet_backend.Orders.Hold.Expiry.{
  hold_sla_after_ms, recompute_order_payable_totals, is_expired_hold, has_expired_hold,
  expired_order, expire_order, cancel_expired_held_items_for_order, expired_order_ids,
  cancel_expired_loop, cancel_expired_held_items,
}

module _ (sla now at : ℕ) where
  items_cleared :
      (is : List OrderItem)
      → any
          (is_expired_hold sla now)
          (update_items (is_expired_hold sla now) (mark_cancelled at) is)
        ≡ false
  unfolding update_items
  items_cleared [] = refl
  items_cleared (i ∷ is) = elim (Bool-cases (is_expired_hold sla now i)) [
    | inl due ↦ rw due (items_cleared is)
    | inr kept ↦ rw (kept, kept) (items_cleared is)
  ]

  expired_order-items :
      (o : Order)
      → ((expired_order sla now at o).items
          ≡ update_items (is_expired_hold sla now) (mark_cancelled at) o.items)
        × ((expired_order sla now at o).id ≡ o.id)
        × ((expired_order sla now at o).status
            ≡ derive_order_status o.status
                (statuses (update_items (is_expired_hold sla now) (mark_cancelled at) o.items)))
  unfolding expired_order recompute_order_payable_totals
  expired_order-items o =
      elim (Bool-cases (
        same_order
          (derive_order_status o.status
            (statuses (update_items (is_expired_hold sla now) (mark_cancelled at) o.items)))
          pending_payment)) [
            | inl unpaid ↦ rw unpaid (refl, refl, refl)
            | inr other ↦ rw other (refl, refl, refl)
          ]

  expired_order-cleared :
      (o : Order) → has_expired_hold sla now (expired_order sla now at o) ≡ false
  expired_order-cleared o =
      ap (any (is_expired_hold sla now)) (expired_order-items o).0 ∙ items_cleared o.items

  -- Every order that still has an expired hold is among the ones to come.
  abbrev Listed : List ℕ → World → Type 0
  Listed ids w =
      (id : ℕ) (o : Order)
      → find_order id w ≡ some o
      → has_expired_hold sla now o ≡ true
      → any (λ n. n == id) ids ≡ true

  all_listed :
      (os : List Order) (id : ℕ) (o : Order)
      → find (λ (p : Order). p.id == id) os ≡ some o
      → has_expired_hold sla now o ≡ true
      → any (λ n. n == id) (expired_order_ids sla now os) ≡ true
  all_listed [] id o found due = cc
  all_listed (p ∷ ps) id o found due = elim (Bool-cases (p.id == id)) [
    | inl this ↦
        let same : p ≡ o = ground arith in
        let now_due : has_expired_hold sla now p ≡ true =
          subst (λ (q : Order). has_expired_hold sla now q ≡ true) (sym same) due in
        rw (now_due, this) refl
    | inr other ↦
        let rest = all_listed ps id o (ground arith) due in
        elim (Bool-cases (has_expired_hold sla now p)) [
          | inl also ↦ rw also (ground (arith, rest))
          | inr clean ↦ rw clean rest
        ]
  ]

  saved_id :
      (i : ℕ) (w : World) (q : Order)
      → find_order i w ≡ some q
      → (expired_order sla now at q).id ≡ i
  saved_id i w q known =
      (expired_order-items q).1
      ∙ (==_iff q.id i).0 (find-holds (λ (p : Order). p.id == i) w.orders q known)

  others_stay :
      (i : ℕ) (w : World) (id : ℕ)
      → (i == id) ≡ false
      → find_order id (cancel_expired_held_items_for_order sla now at i w).0 ≡ find_order id w
  unfolding cancel_expired_held_items_for_order expire_order
  others_stay i w id other = elim (Option-cases (find_order i w)) [
    | inl missing ↦ rw (cancel_expired_held_items_for_order, missing) refl
    | inr (q, known) ↦ elim (Bool-cases (has_expired_hold sla now q)) [
      | inr clean ↦ rw (cancel_expired_held_items_for_order, known, expire_order, clean) refl
      | inl due ↦
          let away : ((expired_order sla now at q).id == id) ≡ false =
            ap (λ j. j == id) (saved_id i w q known) ∙ other in
          rw (cancel_expired_held_items_for_order, known, expire_order, due)
            (find-save_in_ne id (expired_order sla now at q) w.orders away)
    ]
  ]

  own_cleared :
      (i : ℕ) (w : World) (o : Order)
      → find_order i (cancel_expired_held_items_for_order sla now at i w).0 ≡ some o
      → has_expired_hold sla now o ≡ false
  unfolding cancel_expired_held_items_for_order expire_order
  own_cleared i w o found = elim (Option-cases (find_order i w)) [
    | inl missing ↦
        let same : find_order i (cancel_expired_held_items_for_order sla now at i w).0 ≡ none =
          rw (cancel_expired_held_items_for_order, missing) missing in
        cc
    | inr (q, known) ↦ elim (Bool-cases (has_expired_hold sla now q)) [
      | inr clean ↦
          let same : find_order i (cancel_expired_held_items_for_order sla now at i w).0 ≡ some q =
            rw (cancel_expired_held_items_for_order, known, expire_order, clean) known in
          let e : q ≡ o = cc in subst (λ (p : Order). has_expired_hold sla now p ≡ false) e clean
      | inl due ↦
          let new = expired_order sla now at q in
          let same : find_order i (cancel_expired_held_items_for_order sla now at i w).0
              ≡ some new =
            rw (cancel_expired_held_items_for_order, known, expire_order, due)
              (find-save_in_self i q new w.orders known (saved_id i w q known)) in
          let e : new ≡ o = cc in
          subst (λ (p : Order). has_expired_hold sla now p ≡ false) e (expired_order-cleared q)
    ]
  ]

  one_less :
      (i : ℕ) (ids : List ℕ) (w : World)
      → Listed (i ∷ ids) w
      → Listed ids (cancel_expired_held_items_for_order sla now at i w).0
  one_less i ids w listed id o found due = elim (Bool-cases (i == id)) [
    | inl own ↦
        let e : id ≡ i = sym ((==_iff i id).0 own) in
        let clean = own_cleared i w o (
          subst (λ j. find_order j (cancel_expired_held_items_for_order sla now at i w).0 ≡ some o)
            e found) in
        cc
    | inr other ↦
        let before = listed id o (sym (others_stay i w id other) ∙ found) due in
        ground (arith, before, other)
  ]

  loop_clears :
      (ids : List ℕ) (w : World) (n id : ℕ) (o : Order)
      → Listed ids w
      → find_order id (cancel_expired_loop sla now at ids (w, n)).0 ≡ some o
      → has_expired_hold sla now o ≡ false
  unfolding cancel_expired_loop
  loop_clears [] w n id o listed found = elim (Bool-cases (has_expired_hold sla now o)) [
    | inr clean ↦ clean
    | inl due ↦ let in_none = listed id o found due in cc
  ]
  loop_clears (i ∷ ids) w n id o listed found =
      loop_clears ids (cancel_expired_held_items_for_order sla now at i w).0
        (n + (cancel_expired_held_items_for_order sla now at i w).1) id o (one_less i ids w listed)
        found

  expired_order-IsCoherent : (o : Order) → IsCoherent o → IsCoherent (expired_order sla now at o)
  expired_order-IsCoherent o h =
      let items = update_items (is_expired_hold sla now) (mark_cancelled at) o.items in
      rw ((expired_order-items o).2, (expired_order-items o).0)
        (derived-Coherent o.status items
          (has_item-update_items (is_expired_hold sla now) (mark_cancelled at) o.items h.has_item))

  expire_one-AllCoherent :
      (i : ℕ) (w : World)
      → AllCoherent w
      → AllCoherent (cancel_expired_held_items_for_order sla now at i w).0
  unfolding cancel_expired_held_items_for_order expire_order
  expire_one-AllCoherent i w hs = elim (Option-cases (find_order i w)) [
    | inl missing ↦ rw (cancel_expired_held_items_for_order, missing) hs
    | inr (q, known) ↦ elim (Bool-cases (has_expired_hold sla now q)) [
      | inr clean ↦ rw (cancel_expired_held_items_for_order, known, expire_order, clean) hs
      | inl due ↦
          rw (cancel_expired_held_items_for_order, known, expire_order, due)
            (save_in-All (expired_order sla now at q) w.orders
              (expired_order-IsCoherent q (find-IsCoherent _ w.orders hs known)) hs)
    ]
  ]

  loop-AllCoherent :
      (ids : List ℕ) (w : World) (n : ℕ)
      → AllCoherent w
      → AllCoherent (cancel_expired_loop sla now at ids (w, n)).0
  unfolding cancel_expired_loop
  loop-AllCoherent [] w n hs = hs
  loop-AllCoherent (i ∷ ids) w n hs = loop-AllCoherent ids _ _ (expire_one-AllCoherent i w hs)

-- The job for expired holds keeps the header status of every order in step with its items.
pub cancel_expired_held_items-AllCoherent :
    (configured : Option ℕ) (now at : ℕ) (w : World)
    → AllCoherent w
    → AllCoherent (cancel_expired_held_items configured now at w).0
unfolding cancel_expired_held_items
cancel_expired_held_items-AllCoherent configured now at w hs =
    loop-AllCoherent (hold_sla_after_ms configured) now at _ w 0 hs

-- After the job for expired holds, no order that is found by its id has an item that had then been on
-- hold for the whole configured time, or for 30 days.
pub cancel_expired_held_items-clears :
    (configured : Option ℕ) (now at : ℕ) (w : World) (id : ℕ) (o : Order)
    → find (λ (p : Order). p.id == id) (cancel_expired_held_items configured now at w).0.orders
      ≡ some o
    → any (is_expired_hold (hold_sla_after_ms configured) now) o.items ≡ false
unfolding cancel_expired_held_items
cancel_expired_held_items-clears configured now at w id o found =
    loop_clears (hold_sla_after_ms configured) now at
      (expired_order_ids (hold_sla_after_ms configured) now w.orders) w 0 id o
      (all_listed (hold_sla_after_ms configured) now at w.orders) found
