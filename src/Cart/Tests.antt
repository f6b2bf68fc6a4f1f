-- ===== src/Cart/Tests.antt =====
-- A customer's cart over some requests, and a guest's cart that is merged into it.
use new_sopet_backend.Prelude.{◌≡◌, ◌==◌, refl, false, none, some, List, [], ◌∷◌}
use new_sopet_backend.Cart.{
  Cart, Catalog, CartTables, customer, resolve_cart, delete_rows, set_quantity,
  purge_unavailable_items, cap_row, cap_rows, get_resolved, get_cart,
}
use new_sopet_backend.Cart.Requests.{
  refuse_item, put_line, add_item_to, update_item_of, delete_items, remove_items_of, merge_lines,
  merge_resolved, merge_guest_cart, answer,
}
use new_sopet_backend.Cart.Basket.{
  basket, settled, Change, look, more, reset, drop, run, replay, Reads,
}
use new_sopet_backend.Cart.Basket.Refines.{run-Reads}
use new_sopet_backend.Cart.Basket.Merge.{plus, merge_guest_cart_lem}

-- The variant 2 is retired, and there are 3 of the others.
abbrev catalog : Catalog
catalog v = some record { stock_quantity = 3; is_retired = v == 2; is_suspended = false }

abbrev cart : Cart
cart = record { id = 10; customer_id = some 9; session_id = none }

abbrev guest : Cart
guest = record { id = 11; customer_id = none; session_id = some 5 }

abbrev start : CartTables
start = record {
  carts = cart ∷ guest ∷ [];
  items =
      record { id = 1; cart_id = 10; variant_id = 1; quantity = 2 }
      ∷ record { id = 2; cart_id = 10; variant_id = 2; quantity = 1 }
      ∷ record { id = 3; cart_id = 11; variant_id = 1; quantity = 4 }
      ∷ record { id = 4; cart_id = 11; variant_id = 3; quantity = 1 }
      ∷ [];
  next_id = 12;
}

start-Reads : Reads (customer 9) cart start (basket 10 start.items)
start-Reads = record {
  found = refl;
  distinct = (refl, refl, (refl, refl, (refl, refl, (refl, refl, tt))));
  holds = λ v. refl;
}

abbrev changes : List Change
changes = more 1 1 ∷ more 1 1 ∷ reset 3 5 ∷ more 4 2 ∷ drop 1 ∷ look ∷ []

runs :
    (run catalog (customer 9) 10 changes start).items
    ≡ record { id = 3; cart_id = 11; variant_id = 1; quantity = 4 }
      ∷ record { id = 4; cart_id = 11; variant_id = 3; quantity = 1 }
      ∷ record { id = 12; cart_id = 10; variant_id = 4; quantity = 2 }
      ∷ []
unfolding run answer add_item_to update_item_of remove_items_of delete_items resolve_cart
    refuse_item put_line get_cart get_resolved purge_unavailable_items delete_rows set_quantity
    cap_rows cap_row
runs = refl

run-Reads_example :
    Reads
      (customer 9)
      cart
      (run catalog (customer 9) 10 changes start)
      (replay catalog changes (basket 10 start.items))
run-Reads_example =
    run-Reads catalog (customer 9) cart changes start (basket 10 start.items) start-Reads

merges :
    (merge_guest_cart catalog 9 5 start).0.items
    ≡ record { id = 1; cart_id = 10; variant_id = 1; quantity = 3 }
      ∷ record { id = 12; cart_id = 10; variant_id = 3; quantity = 1 }
      ∷ []
unfolding merge_guest_cart merge_resolved merge_lines put_line resolve_cart get_cart get_resolved
    purge_unavailable_items delete_rows set_quantity cap_rows cap_row
merges = refl

merge_guest_cart_lem_example :
    Reads
      (customer 9)
      cart
      (merge_guest_cart catalog 9 5 start).0
      (λ v. settled (catalog v) (plus (basket 10 start.items v) (basket 11 start.items v)))
merge_guest_cart_lem_example =
    merge_guest_cart_lem catalog 9 5 cart guest start (basket 10 start.items) start-Reads refl refl
