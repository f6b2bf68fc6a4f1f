-- ===== src/Inventory.antt =====
-- modules/inventory/inventory.service.ts, and the stock loop of `create` in
-- modules/orders/orders.service.ts: stock is deducted when an order is placed and returned when it
-- is cancelled, and every change leaves an inventory transaction.
-- Ids are opaque, so they are numbers; the tables are lists in insertion order. The lock of the
-- variant row makes the steps of one transaction atomic.
pub mod Restore
pub mod Once
pub mod Reserve
mod Tests
use new_sopet_backend.Prelude.{
  ℕ, ◌+◌, ◌-◌, ◌≡◌, Bool, true, false, ◌&&◌, not, ◌||◌, Option, none, some, List, [], ◌∷◌, ◌++◌,
  ◌==◌, ltb, if◌then◌else◌, any, keep, find,
}
use new_sopet_backend.Prelude.Int.{ℤ, pos, sub_ℕ}
use new_sopet_backend.Prelude.Result.{Result, ok, err}

pub data TransactionType : Type 0 where
  purchase sale adjustment return damaged : TransactionType

-- What a transaction refers to. The services here write only `'order'`.
pub data Reference : Type 0 where
  order : ℕ → Reference
  other : Reference

pub record Transaction : Type 0 where
  pub variant_id : ℕ
  pub type : TransactionType
  pub quantity_change : ℤ
  pub quantity_after : ℕ
  pub reference : Reference

pub record Variant : Type 0 where
  pub id : ℕ
  pub stock_quantity : ℕ
  pub is_retired : Bool
  pub product_store : Option ℕ  -- the store of its product, if the product row exists

pub record Item : Type 0 where
  pub id : ℕ
  pub order_id : ℕ
  pub variant_id : ℕ
  pub quantity : ℕ

pub record Db : Type 0 where
  pub items : List Item
  pub variants : List Variant
  pub transactions : List Transaction

-- `manager.findOne(ProductVariant, { where: { id } })`
unfoldable pub find_variant : ℕ → List Variant → Option Variant
find_variant id vs = find (λ (v : Variant). v.id == id) vs

-- `manager.update(ProductVariant, id, { stockQuantity })`
unfoldable pub set_stock : ℕ → ℕ → List Variant → List Variant
set_stock id stock [] = []
set_stock id stock (v ∷ vs) =
    let rest = set_stock id stock vs in
    if v.id == id then record v { stock_quantity = stock } ∷ rest else v ∷ rest

unfoldable pub is_return : TransactionType → Bool
is_return return = true
is_return _ = false

unfoldable pub refers_to : ℕ → Reference → Bool
refers_to order_id (order id) = id == order_id
refers_to order_id other = false

-- The `exists` query: a RETURN of this variant for this order.
unfoldable pub already_restored : ℕ → ℕ → List Transaction → Bool
unfolding is_return refers_to
already_restored order_id variant_id ts =
    any
      (λ (t : Transaction).
        refers_to order_id t.reference && (t.variant_id == variant_id && is_return t.type))
      ts

-- The body of the loop, from the variant that was found on.
unfoldable pub restore_variant : ℕ → Item → Variant → Db → Db
restore_variant order_id item variant db =
    let new_stock = variant.stock_quantity + item.quantity in
    record db {
      variants = set_stock variant.id new_stock db.variants;
      transactions =
          db.transactions
          ++ record {
            variant_id = variant.id;
            type = return;
            quantity_change = pos item.quantity;
            quantity_after = new_stock;
            reference = order order_id;
          }
            ∷ [];
    }

-- One round of the loop of `restoreStockForItems`: the new state and `restoredAny`.
unfoldable pub restore_item : ℕ → Item → Db × Bool → Db × Bool
restore_item order_id item (db, restored_any) =
    if already_restored order_id item.variant_id db.transactions
    then (db, restored_any)
    else elim (find_variant item.variant_id db.variants) [
      | none ↦ (db, restored_any)
      | some variant ↦ (restore_variant order_id item variant db, true)
    ]

unfoldable pub restore_loop : ℕ → List Item → Db × Bool → Db × Bool
restore_loop order_id [] s = s
restore_loop order_id (item ∷ items) s = restore_loop order_id items (restore_item order_id item s)

-- `restoreStockForItems`; with no items the loop does not run, as its early return says.
unfoldable pub restore_stock_for_items : ℕ → List Item → Db → Db × Bool
restore_stock_for_items order_id [] db = (db, false)
restore_stock_for_items order_id (item ∷ items) db =
    restore_loop order_id (item ∷ items) (db, false)

unfoldable pub restore_order_stock : ℕ → Db → Db × Bool
restore_order_stock order_id db =
    restore_stock_for_items order_id (keep (λ (i : Item). i.order_id == order_id) db.items) db

unfoldable pub restore_item_stock : ℕ → List ℕ → Db → Db × Bool
restore_item_stock order_id [] db = (db, false)
restore_item_stock order_id (id ∷ ids) db =
    restore_stock_for_items order_id
      (keep (λ (i : Item). i.order_id == order_id && any (λ n. i.id == n) (id ∷ ids)) db.items) db

-- The errors of the stock loop of `create`.
pub data ReserveError : Type 0 where
  variant_not_found price_changed insufficient_stock : ReserveError

-- A priced line of the checkout, with the prices that the customer saw, in satang.
pub record PricedLine : Type 0 where
  pub variant_id : ℕ
  pub quantity : ℕ
  pub catalog_unit : ℕ
  pub unit_price : ℕ

-- The live catalog and unit price of a variant, from the pricing service.
abbrev pub LivePrices : Type 0
LivePrices = ℕ → ℕ × ℕ

-- What the loop writes once its checks have passed.
unfoldable pub deduct_stock : ℕ → PricedLine → Variant → Db → Db
deduct_stock order_id line variant db =
    let new_stock = variant.stock_quantity - line.quantity in
    record db {
      variants = set_stock variant.id new_stock db.variants;
      transactions =
          db.transactions
          ++ record {
            variant_id = variant.id;
            type = sale;
            quantity_change = sub_ℕ 0 line.quantity;
            quantity_after = new_stock;
            reference = order order_id;
          }
            ∷ [];
    }

-- The checks and writes for a variant that was found and is not retired. Prices are whole satang,
-- so a difference of more than 0.009 baht is any difference.
unfoldable pub reserve_variant : LivePrices → ℕ → PricedLine → Variant → Db → Result ReserveError Db
reserve_variant live order_id line variant db = elim variant.product_store [
  | none ↦ err variant_not_found
  | some store ↦
      let (live_catalog, live_unit) = live variant.id in
      if not (live_catalog == line.catalog_unit) || not (live_unit == line.unit_price)
      then err price_changed
      else if ltb variant.stock_quantity line.quantity
      then err insufficient_stock
      else ok (deduct_stock order_id line variant db)
]

unfoldable pub reserve_line : LivePrices → ℕ → PricedLine → Db → Result ReserveError Db
reserve_line live order_id line db = elim (find_variant line.variant_id db.variants) [
  | none ↦ err variant_not_found
  | some variant ↦
      if variant.is_retired
      then err variant_not_found
      else reserve_variant live order_id line variant db
]

-- The loop; a throw rolls the transaction back, so the caller keeps the state that it had.
unfoldable pub reserve_lines : LivePrices → ℕ → List PricedLine → Db → Result ReserveError Db
reserve_lines live order_id [] db = ok db
reserve_lines live order_id (line ∷ lines) db = elim (reserve_line live order_id line db) [
  | err e ↦ err e
  | ok db' ↦ reserve_lines live order_id lines db'
]
