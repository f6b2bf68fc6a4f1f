-- ===== src/Inventory/Restore.antt =====
-- What a restore does to the stock of every variant.
use new_sopet_backend.Prelude.{
  ℕ, ◌+◌, ◌≡◌, refl, ◌∙◌, Bool, false, ◌||◌, inl, inr, Option, none, some, List, [], ◌∷◌, ◌++◌,
  arith, ◌==◌, if◌then◌else◌, Bool-cases, Option-cases,
}
use new_sopet_backend.Inventory.{
  Variant, Item, Transaction, Db, find_variant, set_stock, already_restored, restore_variant,
  restore_item, restore_loop, restore_stock_for_items,
}

-- The stock of a variant, if there is such a row.
unfoldable pub stock_of : ℕ → List Variant → Option ℕ
stock_of id [] = none
stock_of id (v ∷ vs) = if v.id == id then some v.stock_quantity else stock_of id vs

unfoldable pub add_stock : ℕ → Option ℕ → Option ℕ
add_stock n none = none
add_stock n (some s) = some (s + n)

pub find_variant-stock :
    (id : ℕ) (vs : List Variant) {v : Variant}
    → find_variant id vs ≡ some v
    → (v.id ≡ id) × (stock_of id vs ≡ some v.stock_quantity)
unfolding find_variant stock_of
find_variant-stock id [] h = cc
find_variant-stock id (w ∷ vs) {v} h = ground (arith, find_variant-stock id vs {v = v})

pub find_variant-none :
    (id : ℕ) (vs : List Variant) → find_variant id vs ≡ none → stock_of id vs ≡ none
unfolding find_variant stock_of
find_variant-none id [] h = refl
find_variant-none id (w ∷ vs) h = ground (arith, find_variant-none id vs)

unfoldable pub set_to : ℕ → Option ℕ → Option ℕ
set_to n none = none
set_to n (some s) = some n

pub stock_of-set_stock :
    (j id n : ℕ) (vs : List Variant)
    → stock_of j (set_stock id n vs) ≡ (if id == j then set_to n (stock_of j vs) else stock_of j vs)
unfolding stock_of set_stock set_to
stock_of-set_stock j id n [] = ground arith
stock_of-set_stock j id n (v ∷ vs) = ground (arith, stock_of-set_stock j id n vs)

pub already_restored-append :
    (o j : ℕ) (ts : List Transaction) (t : Transaction)
    → already_restored o j (ts ++ t ∷ [])
      ≡ (already_restored o j ts || already_restored o j (t ∷ []))
unfolding already_restored
already_restored-append o j [] t = refl
already_restored-append o j (u ∷ ts) t = ground (arith, already_restored-append o j ts t)

-- The quantity of the first item of a variant.
unfoldable pub first_quantity : ℕ → List Item → ℕ
first_quantity j [] = 0
first_quantity j (i ∷ is) = if i.variant_id == j then i.quantity else first_quantity j is

-- What a variant is still owed by a restore of these items for an order.
unfoldable pub due : ℕ → ℕ → List Item → List Transaction → ℕ
due o j items ts = if already_restored o j ts then 0 else first_quantity j items

pub already_restored-return :
    (o j : ℕ) (item : Item) (v : Variant) (db : Db)
    → already_restored o j (restore_variant o item v db).transactions
      ≡ (already_restored o j db.transactions || v.id == j)
unfolding restore_variant
already_restored-return o j item v db =
    rw already_restored-append (unfold already_restored in ground arith)

-- A round pays what it pays out of what is due.
restore_item-due :
    (o j : ℕ) (item : Item) (items : List Item) (db : Db) (b : Bool)
    → let after = (restore_item o item (db, b)).0 in
      add_stock (due o j items after.transactions) (stock_of j after.variants)
      ≡ add_stock (due o j (item ∷ items) db.transactions) (stock_of j db.variants)
unfolding restore_item due first_quantity add_stock
restore_item-due o j item items db b =
    elim (Bool-cases (already_restored o item.variant_id db.transactions)) [
      | inl old ↦ rw (old, restore_item) (ground arith)
      | inr new ↦ elim (Option-cases (find_variant item.variant_id db.variants)) [
        | inl missing ↦
            rw (new, missing, restore_item)
              (ground (arith, find_variant-none item.variant_id db.variants missing))
        | inr (v, found) ↦
            let (same, stock) = find_variant-stock item.variant_id db.variants found in
            let new_stock : ℕ = v.stock_quantity + item.quantity in
            rw (new, found, restore_item, already_restored-return o j item v db)
              (unfold restore_variant set_to in
                ground (arith, same, stock, new, stock_of-set_stock j v.id new_stock db.variants))
      ]
    ]

pub add_stock-zero : (s : Option ℕ) → add_stock 0 s ≡ s
unfolding add_stock
add_stock-zero none = refl
add_stock-zero (some s) = ground arith

due-nil : (o j : ℕ) (ts : List Transaction) → due o j [] ts ≡ 0
unfolding due first_quantity
due-nil o j ts = ground arith

restore_loop-stock :
    (o j : ℕ) (items : List Item) (db : Db) (b : Bool)
    → stock_of j (restore_loop o items (db, b)).0.variants
      ≡ add_stock (due o j items db.transactions) (stock_of j db.variants)
unfolding restore_loop
restore_loop-stock o j [] db b = rw (due-nil, add_stock-zero)
restore_loop-stock o j (i ∷ items) db b =
    let (db', b') = restore_item o i (db, b) in
    restore_loop-stock o j items db' b' ∙ restore_item-due o j i items db b

-- A restore adds to the stock of every variant the quantity of the first of the items that has it,
-- unless a RETURN for the order was recorded before. It adds nothing to other variants.
pub restore_stock_for_items-stock :
    (o j : ℕ) (items : List Item) (db : Db)
    → stock_of j (restore_stock_for_items o items db).0.variants
      ≡ add_stock (due o j items db.transactions) (stock_of j db.variants)
unfolding restore_stock_for_items
restore_stock_for_items-stock o j [] db = rw (due-nil, add_stock-zero)
restore_stock_for_items-stock o j (i ∷ items) db = restore_loop-stock o j (i ∷ items) db false
