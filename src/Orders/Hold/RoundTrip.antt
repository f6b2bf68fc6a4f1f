-- ===== src/Orders/Hold/RoundTrip.antt =====
-- A release gives back what the hold took.
use new_sopet_backend.Prelude.{
  ℕ, All, sym, ap, ◌∙◌, ◌≡◌, ◌⊎◌, refl, true, false, none, List, [], ◌∷◌, arith, if◌then◌else◌,
  Bool-cases, inl, inr,
}
use new_sopet_backend.Orders.Status.{FulfillmentStatus, derive_order_status}
use new_sopet_backend.Orders.Status.Ladder.{header, derive_order_status-header}
use new_sopet_backend.Orders.Fulfillment.{OrderItem, Order, in_store, statuses, update_items}
use new_sopet_backend.Orders.Hold.{
  is_eligible_order, to_hold, hold_item, held_order, to_restore, release_item, restored_order,
}

-- An item that is in no hold of the store, with nothing left of an earlier one where a hold may take it.
abbrev pub IsUnheld : ℕ → OrderItem → Type 0
IsUnheld store_id i =
    (to_restore store_id i ≡ false)
    × ((to_hold store_id i ≡ false)
        ⊎ ((i.previous_fulfillment_status ≡ none) × (i.hold_started_at ≡ none)))

release_item-hold_item :
    (now : ℕ) (i : OrderItem)
    → i.previous_fulfillment_status ≡ none
    → i.hold_started_at ≡ none
    → release_item (hold_item now i) ≡ i
release_item-hold_item now i h k =
    ap (λ p. record i { previous_fulfillment_status = p; hold_started_at = none }) (sym h)
    ∙ ap (λ t. record i { hold_started_at = t }) (sym k)

-- A hold and a release of one item.
restored_item :
    (store_id now : ℕ) (i : OrderItem)
    → IsUnheld store_id i
    → (let j = if to_hold store_id i then hold_item now i else i in
        if to_restore store_id j then release_item j else j)
      ≡ i
restored_item store_id now i h = elim (Bool-cases (to_hold store_id i)) [
  | inr stays ↦ rw stays (rw h.0 refl)
  | inl taken ↦ elim h.1 [
    | inl stays ↦ cc (taken, stays)
    | inr clean ↦
        let here : in_store store_id i ≡ true = ground arith in
        rw taken (rw here (release_item-hold_item now i clean.0 clean.1))
  ]
]

restored_items :
    (store_id now : ℕ) (is : List OrderItem)
    → All (IsUnheld store_id) is
    → update_items
        (to_restore store_id)
        release_item
        (update_items (to_hold store_id) (hold_item now) is)
      ≡ is
unfolding update_items
restored_items store_id now [] h = refl
restored_items store_id now (i ∷ is) h =
    cc (restored_item store_id now i h.0, restored_items store_id now is h.1)

restored_status :
    (store_id now : ℕ) (o : Order)
    → is_eligible_order o.status ≡ true
    → derive_order_status o.status (statuses o.items) ≡ o.status
    → derive_order_status
        (derive_order_status o.status
          (statuses (update_items (to_hold store_id) (hold_item now) o.items)))
        (statuses o.items)
      ≡ o.status
unfolding header
restored_status store_id now o h k =
    let held : List FulfillmentStatus =
      statuses (update_items (to_hold store_id) (hold_item now) o.items) in
    ground (
      arith,
      derive_order_status-header o.status held,
      derive_order_status-header o.status (statuses o.items),
      derive_order_status-header (derive_order_status o.status held) (statuses o.items),
      k,
      h,
    )

-- A hold of an open order followed by the release leaves the items and the header status as they were. The
-- header status agrees with the items, no item of the store is in a hold, and those that the hold
-- takes have no snapshot or start of an earlier one.
pub restored_order-held_order :
    (store_id now : ℕ) (o : Order)
    → is_eligible_order o.status ≡ true
    → derive_order_status o.status (statuses o.items) ≡ o.status
    → All (IsUnheld store_id) o.items
    → ((restored_order store_id (held_order store_id now o)).items ≡ o.items)
      × ((restored_order store_id (held_order store_id now o)).status ≡ o.status)
unfolding restored_order held_order
restored_order-held_order store_id now o h k u =
    let same : update_items (to_restore store_id) release_item
          (update_items (to_hold store_id) (hold_item now) o.items)
        ≡ o.items =
      restored_items store_id now o.items u in
    (same, rw same (restored_status store_id now o h k))
