-- ===== src/Inventory/Once.antt =====
-- A restore happens once: it can be repeated without effect, and records each return once.
use new_sopet_backend.Prelude.{
  ℕ, ◌+◌, ◌≤◌, ◌≡◌, refl, Bool, true, false, ◌&&◌, ◌⊎◌, inl, inr, none, List, [], ◌∷◌, ◌++◌, arith,
  ◌==◌, if◌then◌else◌, Bool-cases, Option-cases, All, count,
}
use new_sopet_backend.Inventory.{
  Variant, Item, Transaction, Db, find_variant, set_stock, is_return, refers_to, already_restored,
  restore_variant, restore_item, restore_loop, restore_stock_for_items,
}
use new_sopet_backend.Inventory.Restore.{find_variant-stock, already_restored-return}

-- A restore of this item has nothing left to do.
abbrev Settled : ℕ → Db → Item → Type 0
Settled o db i =
    (already_restored o i.variant_id db.transactions ≡ true)
    ⊎ (find_variant i.variant_id db.variants ≡ none)

restore_item_of_Settled :
    (o : ℕ) (i : Item) (db : Db) (b : Bool) → Settled o db i → restore_item o i (db, b) ≡ (db, b)
unfolding restore_item
restore_item_of_Settled o i db b (inl old) = rw (old, restore_item)
restore_item_of_Settled o i db b (inr missing) =
    elim (Bool-cases (already_restored o i.variant_id db.transactions)) [
      | inl old ↦ rw (old, restore_item)
      | inr new ↦ rw (new, missing, restore_item)
    ]

find_variant-set_stock :
    (j id n : ℕ) (vs : List Variant)
    → find_variant j vs ≡ none
    → find_variant j (set_stock id n vs) ≡ none
unfolding find_variant set_stock
find_variant-set_stock j id n [] h = refl
find_variant-set_stock j id n (v ∷ vs) h = ground (arith, find_variant-set_stock j id n vs)

Settled-restore_item :
    (o : ℕ) (i k : Item) (db : Db) (b : Bool)
    → Settled o db k
    → Settled o (restore_item o i (db, b)).0 k
unfolding restore_item
Settled-restore_item o i k db b h =
    elim (Bool-cases (already_restored o i.variant_id db.transactions)) [
      | inl old ↦ rw (old, restore_item) h
      | inr new ↦ elim (Option-cases (find_variant i.variant_id db.variants)) [
        | inl missing ↦ rw (new, missing, restore_item) h
        | inr (v, found) ↦
            rw (new, found, restore_item)
              (elim h [
                | inl old ↦ inl (rw (already_restored-return o k.variant_id i v db) (ground arith))
                | inr gone ↦ inr (
                    unfold restore_variant in
                    find_variant-set_stock k.variant_id v.id (v.stock_quantity + i.quantity)
                      db.variants gone)
              ])
      ]
    ]

restore_item-Settled :
    (o : ℕ) (i : Item) (db : Db) (b : Bool) → Settled o (restore_item o i (db, b)).0 i
unfolding restore_item
restore_item-Settled o i db b =
    elim (Bool-cases (already_restored o i.variant_id db.transactions)) [
      | inl old ↦ rw (old, restore_item) (inl old)
      | inr new ↦ elim (Option-cases (find_variant i.variant_id db.variants)) [
        | inl missing ↦ rw (new, missing, restore_item) (inr missing)
        | inr (v, found) ↦
            rw (new, found, restore_item)
              (inl (
                rw (already_restored-return o i.variant_id i v db)
                  (ground (arith, find_variant-stock i.variant_id db.variants found))))
      ]
    ]

All-Settled :
    (o : ℕ) (i : Item) (db : Db) (b : Bool) (ks : List Item)
    → All (Settled o db) ks
    → All (Settled o (restore_item o i (db, b)).0) ks
All-Settled o i db b [] h = tt
All-Settled o i db b (k ∷ ks) h = (Settled-restore_item o i k db b h.0, All-Settled o i db b ks h.1)

restore_loop-Settled :
    (o : ℕ) (k : Item) (items : List Item) (db : Db) (b : Bool)
    → Settled o db k
    → Settled o (restore_loop o items (db, b)).0 k
unfolding restore_loop
restore_loop-Settled o k [] db b h = h
restore_loop-Settled o k (i ∷ items) db b h =
    let (db', b') = restore_item o i (db, b) in
    restore_loop-Settled o k items db' b' (Settled-restore_item o i k db b h)

restore_loop-All-Settled :
    (o : ℕ) (items : List Item) (db : Db) (b : Bool)
    → All (Settled o (restore_loop o items (db, b)).0) items
unfolding restore_loop
restore_loop-All-Settled o [] db b = tt
restore_loop-All-Settled o (i ∷ items) db b =
    let (db', b') = restore_item o i (db, b) in
    (
      restore_loop-Settled o i items db' b' (restore_item-Settled o i db b),
      restore_loop-All-Settled o items db' b',
    )

restore_loop_of_Settled :
    (o : ℕ) (items : List Item) (db : Db) (b : Bool)
    → All (Settled o db) items
    → restore_loop o items (db, b) ≡ (db, b)
unfolding restore_loop
restore_loop_of_Settled o [] db b h = refl
restore_loop_of_Settled o (i ∷ items) db b h =
    rw (restore_item_of_Settled o i db b h.0) (restore_loop_of_Settled o items db b h.1)

-- Restoring the same items of an order again changes nothing and reports that nothing was restored.
pub restore_stock_for_items_twice :
    (o : ℕ) (items : List Item) (db : Db)
    → let after = (restore_stock_for_items o items db).0 in
      restore_stock_for_items o items after ≡ (after, false)
unfolding restore_stock_for_items
restore_stock_for_items_twice o [] db = refl
restore_stock_for_items_twice o (i ∷ items) db =
    restore_loop_of_Settled o (i ∷ items) (restore_loop o (i ∷ items) (db, false)).0 false
      (restore_loop-All-Settled o (i ∷ items) db false)

-- How many returns of a variant are recorded for an order.
unfoldable pub returns_of : ℕ → ℕ → List Transaction → ℕ
unfolding is_return refers_to
returns_of o j =
    count (λ (t : Transaction). refers_to o t.reference && (t.variant_id == j && is_return t.type))

-- No order has two returns of one variant.
pub record ReturnsOnce (db : Db) : Type 0 where
  pub once : (o j : ℕ) → returns_of o j db.transactions ≤ 1

returns_of-new :
    (o j : ℕ) (ts : List Transaction) → already_restored o j ts ≡ false → returns_of o j ts ≡ 0
unfolding returns_of already_restored
returns_of-new o j [] h = refl
returns_of-new o j (t ∷ ts) h = ground (arith, returns_of-new o j ts)

returns_of-append :
    (o j : ℕ) (ts : List Transaction) (t : Transaction)
    → returns_of o j (ts ++ t ∷ []) ≡ returns_of o j ts + returns_of o j (t ∷ [])
unfolding returns_of
returns_of-append o j [] t = ground arith
returns_of-append o j (u ∷ ts) t = ground (arith, returns_of-append o j ts t)

returns_of-restore_variant :
    (o p j : ℕ) (i : Item) (v : Variant) (db : Db)
    → returns_of p j (restore_variant o i v db).transactions
      ≡ returns_of p j db.transactions + (if o == p && v.id == j then 1 else 0)
unfolding restore_variant
returns_of-restore_variant o p j i v db = rw returns_of-append (unfold returns_of in ground arith)

-- A new return, for an order and a variant that have none.
restore_variant-once :
    (o p j : ℕ) (i : Item) (v : Variant) (db : Db)
    → ReturnsOnce db
    → already_restored o i.variant_id db.transactions ≡ false
    → v.id ≡ i.variant_id
    → returns_of p j (restore_variant o i v db).transactions ≤ 1
restore_variant-once o p j i v db h new same =
    rw (returns_of-restore_variant o p j i v db)
      (ground (arith, h.once p j, returns_of-new o i.variant_id db.transactions new))

restore_item-ReturnsOnce :
    (o : ℕ) (i : Item) (db : Db) (b : Bool)
    → ReturnsOnce db
    → ReturnsOnce (restore_item o i (db, b)).0
unfolding restore_item
restore_item-ReturnsOnce o i db b h =
    elim (Bool-cases (already_restored o i.variant_id db.transactions)) [
      | inl old ↦ rw (old, restore_item) h
      | inr new ↦ elim (Option-cases (find_variant i.variant_id db.variants)) [
        | inl missing ↦ rw (new, missing, restore_item) h
        | inr (v, found) ↦
            rw (new, found, restore_item)
              (record {
                once = λ p j.
                    restore_variant-once o p j i v db h new
                      (find_variant-stock i.variant_id db.variants found).0;
              })
      ]
    ]

restore_loop-ReturnsOnce :
    (o : ℕ) (items : List Item) (db : Db) (b : Bool)
    → ReturnsOnce db
    → ReturnsOnce (restore_loop o items (db, b)).0
unfolding restore_loop
restore_loop-ReturnsOnce o [] db b h = h
restore_loop-ReturnsOnce o (i ∷ items) db b h =
    let (db', b') = restore_item o i (db, b) in
    restore_loop-ReturnsOnce o items db' b' (restore_item-ReturnsOnce o i db b h)

-- A restore keeps it so that no order has two returns of one variant.
pub restore_stock_for_items-ReturnsOnce :
    (o : ℕ) (items : List Item) (db : Db)
    → ReturnsOnce db
    → ReturnsOnce (restore_stock_for_items o items db).0
unfolding restore_stock_for_items
restore_stock_for_items-ReturnsOnce o [] db h = h
restore_stock_for_items-ReturnsOnce o (i ∷ items) db h =
    restore_loop-ReturnsOnce o (i ∷ items) db false h
