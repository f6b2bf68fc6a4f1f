-- ===== src/Orders/Fulfillment/Kept.antt =====
-- What a handler does to the items of an order: held items stay, the others move forward.
use new_sopet_backend.Prelude.{
  ℕ, ◌≤◌, ◌≡◌, ◌⊎◌, ◌∙◌, refl, subst, sym, Bool, true, false, inl, inr, none, some, List, [], ◌∷◌,
  arith, ◌==◌, find, every, keep, All, Bool-cases, Option-cases, ==_iff,
}
use new_sopet_backend.Prelude.Result.{ok}
use new_sopet_backend.Orders.Status.{FulfillmentStatus}
use new_sopet_backend.Orders.Fulfillment.{
  OrderItem, Order, World, load_order, save_in, statuses, update_items, in_store, is_held,
}

-- How far an item has come. A held item has not started to move again.
abbrev pub rank : FulfillmentStatus → ℕ
rank FulfillmentStatus.pending = 0
rank FulfillmentStatus.processing = 1
rank FulfillmentStatus.on_hold = 0
rank FulfillmentStatus.shipped = 2
rank FulfillmentStatus.delivered = 3
rank FulfillmentStatus.cancelled = 4

-- The item `j` that `i` became.
pub record Kept (i j : OrderItem) : Type 0 where
  pub same_id : j.id ≡ i.id
  pub same_store : j.store_id ≡ i.store_id
  pub same_variant : j.variant_id ≡ i.variant_id
  pub same_quantity : j.quantity ≡ i.quantity
  pub forward : rank i.fulfillment_status ≤ rank j.fulfillment_status
  pub unheld_or_same : (is_held i ≡ false) ⊎ (j ≡ i)

-- The same for every item of two lists.
abbrev pub AllKept : List OrderItem → List OrderItem → Type 0
AllKept [] [] = Unit
AllKept (i ∷ is) (j ∷ js) = Kept i j × AllKept is js
AllKept _ _ = ⊥

pub Kept-refl : (i : OrderItem) → Kept i i
Kept-refl i = record {
  same_id = refl;
  same_store = refl;
  same_variant = refl;
  same_quantity = refl;
  forward = omega arith;
  unheld_or_same = inr refl;
}

Kept-trans : (i j k : OrderItem) → Kept i j → Kept j k → Kept i k
Kept-trans i j k p q = record {
  same_id = cc (p.same_id, q.same_id);
  same_store = cc (p.same_store, q.same_store);
  same_variant = cc (p.same_variant, q.same_variant);
  same_quantity = cc (p.same_quantity, q.same_quantity);
  forward = omega (arith, p.forward, q.forward);
  unheld_or_same = elim p.unheld_or_same [
    | inl free ↦ inl free
    | inr same ↦ elim q.unheld_or_same [
      | inl free ↦ inl (rw (sym same) free)
      | inr again ↦ inr (again ∙ same)
    ]
  ];
}

pub AllKept-refl : (is : List OrderItem) → AllKept is is
AllKept-refl [] = tt
AllKept-refl (i ∷ is) = (Kept-refl i, AllKept-refl is)

pub AllKept-trans : (is js ks : List OrderItem) → AllKept is js → AllKept js ks → AllKept is ks
AllKept-trans [] [] ks p q = q
AllKept-trans [] (j ∷ js) ks p q = absurd p
AllKept-trans (i ∷ is) [] ks p q = absurd p
AllKept-trans (i ∷ is) (j ∷ js) [] p q = absurd q
AllKept-trans (i ∷ is) (j ∷ js) (k ∷ ks) p q =
    (Kept-trans i j k p.0 q.0, AllKept-trans is js ks p.1 q.1)

-- An update of some items, each of which it keeps.
pub update_items-AllKept :
    (p : OrderItem → Bool) (f : OrderItem → OrderItem) (is : List OrderItem)
    → All (λ i. p i ≡ true → Kept i (f i)) is
    → AllKept is (update_items p f is)
unfolding update_items
update_items-AllKept p f [] h = tt
update_items-AllKept p f (i ∷ is) h = (
  elim (Bool-cases (p i)) [ inl this ↦ rw this (h.0 this) | inr other ↦ rw other (Kept-refl i) ],
  update_items-AllKept p f is h.1,
)

-- A test that every item of a store passes, told of each item of the order.
pub All-store :
    (store : ℕ) (t : FulfillmentStatus → Bool) (P : OrderItem → Type 0) (is : List OrderItem)
    → ((i : OrderItem) → t i.fulfillment_status ≡ true → P i)
    → every t (statuses (keep (in_store store) is)) ≡ true
    → All (λ i. in_store store i ≡ true → P i) is
All-store store t P [] f h = tt
All-store store t P (i ∷ is) f h = elim (Bool-cases (in_store store i)) [
  | inl this ↦ (λ _. f i (ground arith), All-store store t P is f (ground arith))
  | inr other ↦ (λ q. cc, All-store store t P is f (ground arith))
]

-- A test that every item passes.
pub All-every :
    (t : OrderItem → Bool) (P : OrderItem → Type 0) (is : List OrderItem)
    → ((i : OrderItem) → t i ≡ true → P i)
    → every t is ≡ true
    → All (λ i. true ≡ true → P i) is
All-every t P [] f h = tt
All-every t P (i ∷ is) f h = (λ _. f i (ground arith), All-every t P is f (ground arith))

-- A handler keeps every order of the table: it is still there, with its items kept.
pub record WorldKept (w w' : World) : Type 0 where
  pub at :
      (id : ℕ) (o : Order)
      → load_order id w ≡ ok o
      → (o' : Order) × (load_order id w' ≡ ok o') × AllKept o.items o'.items

pub WorldKept-refl : (w : World) → WorldKept w w
WorldKept-refl w = record { at = λ id o h. (o, h, AllKept-refl o.items) }

pub WorldKept-trans : (u v w : World) → WorldKept u v → WorldKept v w → WorldKept u w
WorldKept-trans u v w p q = record {
  at = λ id o h.
      let (o', h', k) = p.at id o h in
      let (o'', h'', l) = q.at id o' h' in (o'', h'', AllKept-trans o.items o'.items o''.items k l);
}

pub find-save_in_self :
    (id : ℕ) (o saved : Order) (os : List Order)
    → find (λ (p : Order). p.id == id) os ≡ some o
    → saved.id ≡ id
    → find (λ (p : Order). p.id == id) (save_in saved os) ≡ some saved
find-save_in_self id o saved [] h e = cc
find-save_in_self id o saved (p ∷ ps) h e = ground (arith, find-save_in_self id o saved ps)

pub find-save_in_ne :
    (id : ℕ) (saved : Order) (os : List Order)
    → (saved.id == id) ≡ false
    → find (λ (p : Order). p.id == id) (save_in saved os) ≡ find (λ (p : Order). p.id == id) os
find-save_in_ne id saved [] h = refl
find-save_in_ne id saved (p ∷ ps) h = ground (arith, find-save_in_ne id saved ps)

find-save_in-none :
    (id : ℕ) (saved : Order) (os : List Order)
    → find (λ (p : Order). p.id == id) os ≡ none
    → find (λ (p : Order). p.id == id) (save_in saved os) ≡ none
find-save_in-none id saved [] h = refl
find-save_in-none id saved (p ∷ ps) h = ground (arith, find-save_in-none id saved ps)

-- A write leaves the row of an id as it was, or is that row.
pub find-save_in_cases :
    (id : ℕ) (saved : Order) (os : List Order)
    → (find (λ (p : Order). p.id == id) (save_in saved os) ≡ find (λ (p : Order). p.id == id) os)
      ⊎ ((saved.id ≡ id) × (find (λ (p : Order). p.id == id) (save_in saved os) ≡ some saved))
find-save_in_cases id saved os = elim (Bool-cases (saved.id == id)) [
  | inr other ↦ inl (find-save_in_ne id saved os other)
  | inl this ↦ elim (Option-cases (find (λ (p : Order). p.id == id) os)) [
    | inl missing ↦ inl (rw missing (find-save_in-none id saved os missing))
    | inr (o, found) ↦
        let same : saved.id ≡ id = (==_iff saved.id id).0 this in
        inr (same, find-save_in_self id o saved os found same)
  ]
]

pub load_order-find :
    (id : ℕ) (w : World) (o : Order)
    → load_order id w ≡ ok o
    → find (λ (p : Order). p.id == id) w.orders ≡ some o
unfolding load_order
load_order-find id w o h = ground arith

pub find-load_order :
    (id : ℕ) (w : World) (o : Order)
    → find (λ (p : Order). p.id == id) w.orders ≡ some o
    → load_order id w ≡ ok o
unfolding load_order
find-load_order id w o h = rw (h, load_order)

pub find-test :
    (id : ℕ) (os : List Order) (o : Order)
    → find (λ (p : Order). p.id == id) os ≡ some o
    → o.id ≡ id
find-test id [] o h = cc
find-test id (p ∷ ps) o h = elim (Bool-cases (p.id == id)) [
  | inl this ↦ let same : p ≡ o = ground arith in ground arith
  | inr next ↦ find-test id ps o (ground arith)
]

-- The write of an order that was loaded under its id.
pub save_in-WorldKept :
    (order_id : ℕ) (o saved : Order) (w w' : World)
    → load_order order_id w ≡ ok o
    → saved.id ≡ o.id
    → AllKept o.items saved.items
    → w'.orders ≡ save_in saved w.orders
    → WorldKept w w'
save_in-WorldKept order_id o saved w w' loaded e k q = record {
  at = λ id p h. elim (Bool-cases (saved.id == id)) [
    | inl this ↦
        let q1 : o.id ≡ order_id =
          find-test order_id w.orders o (load_order-find order_id w o loaded) in
        let q2 : saved.id ≡ id = (==_iff saved.id id).0 this in
        let q3 : id ≡ order_id = omega (arith, q1, q2, e) in
        let q4 : o ≡ p = cc (loaded, rw q3 at h) in
        (
          saved,
          find-load_order id w' saved
              (rw (q, find-save_in_self id p saved w.orders (load_order-find id w p h) q2) refl),
          subst (λ (x : Order). AllKept x.items saved.items) q4 k,
        )
    | inr other ↦ (
      p,
      find-load_order id w' p
          (rw (q, find-save_in_ne id saved w.orders other) (load_order-find id w p h)),
      AllKept-refl p.items,
    )
  ];
}
