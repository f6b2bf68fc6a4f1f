-- ===== src/Inventory/Tests.antt =====
-- Runs of the stock services, and their theorems at concrete orders.
use new_sopet_backend.Prelude.{ℕ, ◌-◌, ◌≡◌, refl, true, false, some, List, [], ◌∷◌, arith}
use new_sopet_backend.Prelude.Result.{ok, err}
use new_sopet_backend.Inventory.{
  Variant, Item, PricedLine, Db, LivePrices, insufficient_stock, find_variant, set_stock,
  already_restored, restore_item, restore_variant, restore_loop, deduct_stock, reserve_variant,
  reserve_line, reserve_lines, restore_stock_for_items, restore_order_stock, restore_item_stock,
}
use new_sopet_backend.Inventory.Restore.{
  stock_of, add_stock, first_quantity, due, restore_stock_for_items-stock,
}
use new_sopet_backend.Inventory.Once.{ReturnsOnce, returns_of, restore_stock_for_items_twice}
use new_sopet_backend.Inventory.Reserve.{
  items_of, ordered, reserve_lines-stock, restore-reserve_lines, restore-reserve_lines-Distinct,
}

abbrev variant : ℕ → ℕ → Variant
variant id stock = record {
  id = id;
  stock_quantity = stock;
  is_retired = false;
  product_store = some 1;
}

abbrev shelf : Db
shelf = record { items = []; variants = variant 1 10 ∷ variant 2 5 ∷ []; transactions = [] }

abbrev live : LivePrices
live v = (100, 90)

abbrev line : ℕ → ℕ → PricedLine
line v q = record { variant_id = v; quantity = q; catalog_unit = 100; unit_price = 90 }

-- Two lines of variant 1 and one of variant 2.
abbrev repeated : List PricedLine
repeated = line 1 3 ∷ line 2 1 ∷ line 1 2 ∷ []

abbrev separate : List PricedLine
separate = line 1 3 ∷ line 2 1 ∷ []

-- The states after placing these orders.
placed : List PricedLine → Db
unfolding reserve_lines reserve_line reserve_variant find_variant deduct_stock set_stock
placed ls = elim (reserve_lines live 7 ls shelf) [ ok db ↦ db | err e ↦ shelf ]

too_much : reserve_lines live 7 (line 2 6 ∷ []) shelf ≡ err insufficient_stock
unfolding reserve_lines reserve_line reserve_variant find_variant
too_much = refl

repeated_order_loses_stock :
    stock_of 1 (restore_stock_for_items 7 (items_of 7 repeated) (placed repeated)).0.variants
    ≡ some 8
unfolding placed restore_stock_for_items restore_loop restore_item restore_variant find_variant
    set_stock already_restored items_of stock_of
repeated_order_loses_stock = refl

by_item_ids :
    let item : ℕ → ℕ → Item =
      λ i v. record { id = i; order_id = 7; variant_id = v; quantity = 1 } in
    let db = record shelf { items = item 1 1 ∷ item 2 2 ∷ [] } in
    (stock_of 2 (restore_item_stock 7 (2 ∷ []) db).0.variants ≡ some 6)
    × (stock_of 1 (restore_item_stock 7 (2 ∷ []) db).0.variants ≡ some 10)
    × ((restore_item_stock 7 [] db).1 ≡ false)
    × ((restore_order_stock 7 db).1 ≡ true)
unfolding restore_order_stock restore_item_stock restore_stock_for_items restore_loop restore_item
    restore_variant find_variant set_stock already_restored stock_of
by_item_ids = (refl, refl, refl, refl)

restore_stock_for_items-stock_example :
    stock_of 1 (restore_stock_for_items 7 (items_of 7 separate) shelf).0.variants
    ≡ add_stock (due 7 1 (items_of 7 separate) []) (stock_of 1 shelf.variants)
restore_stock_for_items-stock_example =
    restore_stock_for_items-stock 7 1 (items_of 7 separate) shelf

restore_stock_for_items_twice_example :
    let after = (restore_stock_for_items 7 (items_of 7 separate) shelf).0 in
    restore_stock_for_items 7 (items_of 7 separate) after ≡ (after, false)
restore_stock_for_items_twice_example = restore_stock_for_items_twice 7 (items_of 7 separate) shelf

shelf-ReturnsOnce : ReturnsOnce shelf
unfolding returns_of
shelf-ReturnsOnce = record { once = λ o j. omega arith }

reserve_lines-stock_example :
    (stock_of 1 shelf.variants
      ≡ add_stock (ordered 1 repeated) (stock_of 1 (placed repeated).variants))
    × ((p : ℕ)
        → already_restored p 1 (placed repeated).transactions
          ≡ already_restored p 1 shelf.transactions)
unfolding placed
reserve_lines-stock_example = reserve_lines-stock live 7 1 repeated shelf (placed repeated) refl

restore-reserve_lines_example :
    stock_of 1 shelf.variants
    ≡ add_stock
        (ordered 1 repeated - first_quantity 1 (items_of 7 repeated))
        (stock_of 1 (restore_stock_for_items 7 (items_of 7 repeated) (placed repeated)).0.variants)
unfolding placed already_restored
restore-reserve_lines_example =
    restore-reserve_lines live 7 1 repeated shelf (placed repeated) refl refl

restore-reserve_lines-Distinct_example :
    stock_of 1 (restore_stock_for_items 7 (items_of 7 separate) (placed separate)).0.variants
    ≡ stock_of 1 shelf.variants
unfolding placed already_restored ordered
restore-reserve_lines-Distinct_example =
    restore-reserve_lines-Distinct live 7 1 separate shelf (placed separate) refl (refl, (refl, tt))
      refl
