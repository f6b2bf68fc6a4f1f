-- ===== src/Orders/Fulfillment/Coherent.antt =====
-- The header status of an order always agrees with its items.
use new_sopet_backend.Prelude.{
  ℕ, ◌≡◌, refl, subst, Bool, true, ◌&&◌, inl, inr, Option, some, List, [], ◌∷◌, arith, ◌==◌, find,
  any, All, Option-cases, Bool-cases,
}
use new_sopet_backend.Prelude.Text.{Text}
use new_sopet_backend.Prelude.Result.{ok}
use new_sopet_backend.Orders.Status.{OrderStatus, FulfillmentStatus, derive_order_status}
use new_sopet_backend.Orders.Status.Ladder.{
  header, derive_order_status-header, derive_order_status_twice,
}
use new_sopet_backend.Orders.Fulfillment.{
  OrderItem, Order, World, Actor, load_order, save_in, statuses, update_items, mark_tracked,
  mark_delivered, persist_order_transition,
}

-- A header status that the ladder derives from the items, of which there is one at least.
pub record Coherent (status : OrderStatus) (items : List OrderItem) : Type 0 where
  pub derived : derive_order_status status (statuses items) ≡ status
  pub has_item : any (λ (i : OrderItem). true) items ≡ true

abbrev pub IsCoherent : Order → Type 0
IsCoherent o = Coherent o.status o.items

-- Every order of the table is coherent.
abbrev pub AllCoherent : World → Type 0
AllCoherent w = All IsCoherent w.orders

pub save_in-All :
    (o : Order) (os : List Order) → IsCoherent o → All IsCoherent os → All IsCoherent (save_in o os)
save_in-All o [] h hs = tt
save_in-All o (p ∷ ps) h (hp, hs) = ground (arith, save_in-All o ps h hs)

pub find-IsCoherent :
    (p : Order → Bool) (os : List Order) {o : Order}
    → All IsCoherent os
    → find p os ≡ some o
    → IsCoherent o
find-IsCoherent p [] hs e = cc
find-IsCoherent p (q ∷ os) {o} hs e = elim (Bool-cases (p q)) [
  | inl this ↦ let same : q ≡ o = ground arith in subst IsCoherent same hs.0
  | inr next ↦ let later : find p os ≡ some o = ground arith in find-IsCoherent p os hs.1 later
]

pub load_order-IsCoherent :
    (id : ℕ) (w : World) (o : Order) → AllCoherent w → load_order id w ≡ ok o → IsCoherent o
unfolding load_order
load_order-IsCoherent id w o hs e =
    elim (Option-cases (find (λ (o : Order). o.id == id) w.orders)) [
      | inl missing ↦ cc (rw (missing, load_order) at e)
      | inr (p, found) ↦
          let same : p ≡ o = cc (rw (found, load_order) at e) in
          subst IsCoherent same (find-IsCoherent _ w.orders hs found)
    ]

pub persist-AllCoherent :
    (now : ℕ) (o : Order) (next : OrderStatus) (actor : Actor) (w : World)
    → Coherent next o.items
    → AllCoherent w
    → AllCoherent (persist_order_transition now o next actor w)
unfolding persist_order_transition
persist-AllCoherent now o next actor w h hs = save_in-All _ w.orders h hs

pub has_item-update_items :
    (p : OrderItem → Bool) (f : OrderItem → OrderItem) (items : List OrderItem)
    → any (λ (i : OrderItem). true) items ≡ true
    → any (λ (i : OrderItem). true) (update_items p f items) ≡ true
unfolding update_items
has_item-update_items p f [] h = h
has_item-update_items p f (i ∷ is) h = refl

-- A header that is derived from the items is coherent with them.
pub derived-Coherent :
    (status : OrderStatus) (items : List OrderItem)
    → any (λ (i : OrderItem). true) items ≡ true
    → Coherent (derive_order_status status (statuses items)) items
derived-Coherent status items h = record {
  derived = derive_order_status_twice status (statuses items);
  has_item = h;
}

any-delivered :
    (q : FulfillmentStatus → Bool) (now : ℕ) (items : List OrderItem)
    → any q (statuses (update_items (λ i. true) (mark_delivered now) items))
      ≡ (q FulfillmentStatus.delivered && any (λ (i : OrderItem). true) items)
unfolding update_items
any-delivered q now [] = ground arith
any-delivered q now (i ∷ is) = ground (arith, any-delivered q now is)

pub delivered-Coherent :
    (now : ℕ) (items : List OrderItem)
    → any (λ (i : OrderItem). true) items ≡ true
    → Coherent OrderStatus.delivered (update_items (λ i. true) (mark_delivered now) items)
unfolding header
delivered-Coherent now items h = record {
  derived = rw derive_order_status-header (simp (any-delivered, h));
  has_item = has_item-update_items (λ i. true) (mark_delivered now) items h;
}

pub cancelled-Coherent :
    (items : List OrderItem)
    → any (λ (i : OrderItem). true) items ≡ true
    → Coherent OrderStatus.cancelled items
unfolding derive_order_status
cancelled-Coherent items h = record { derived = refl; has_item = h }

pub statuses-tracked :
    (p : OrderItem → Bool) (now : ℕ) (n v : Text) (u : Option Text) (items : List OrderItem)
    → statuses (update_items p (mark_tracked now n v u) items) ≡ statuses items
unfolding update_items
statuses-tracked p now n v u [] = refl
statuses-tracked p now n v u (i ∷ is) = ground (arith, statuses-tracked p now n v u is)
