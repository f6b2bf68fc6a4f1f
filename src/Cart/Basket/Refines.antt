-- ===== src/Cart/Basket/Refines.antt =====
-- The requests on a cart are the changes of its basket.
use new_sopet_backend.Prelude.{
  ℕ, ◌+◌, ◌≡◌, ◌⊎◌, refl, sym, ap, ◌∙◌, true, false, Option, none, some, List, [], ◌∷◌, ◌==◌, leb,
  ltb, inl, inr, arith, Bool-cases, Option-cases, ==_iff,
}
use new_sopet_backend.Cart.{
  Cart, CartItem, CartError, variant_not_found, store_suspended, insufficient_stock, CatalogVariant,
  Catalog, CartTables, CartOwner, delete_rows, get_cart,
}
use new_sopet_backend.Cart.Requests.{
  delete_items, add_item_to, update_item_of, remove_items_of, quantity_or_zero, refuse_item,
  capped_to, answer,
}
use new_sopet_backend.Cart.Lines.{row}
use new_sopet_backend.Cart.Purge.{row-holds}
use new_sopet_backend.Cart.Basket.{
  Basket, quantity_of, settled, put, Change, look, more, reset, drop, or_zero, set_to, is_refused,
  change, request, run, replay, Reads,
}
use new_sopet_backend.Cart.Basket.Writes.{
  resolved, get_cart-Reads, row-own, set_quantity-Reads, keep-Reads, put_line-Reads,
}

module _ (catalog : Catalog) (who : CartOwner) (cart : Cart) where
  refused_line :
      (x : Option CatalogVariant) (n : ℕ)
      → ((e : CartError) × (refuse_item x n ≡ some e) × (is_refused x n ≡ true))
        ⊎ ((refuse_item x n ≡ none) × (is_refused x n ≡ false))
  unfolding refuse_item
  refused_line none n = inl (variant_not_found, refl, refl)
  refused_line (some x) n = elim (Bool-cases x.is_retired) [
    | inl old ↦ inl (variant_not_found, ground arith, ground arith)
    | inr sold ↦ elim (Bool-cases x.is_suspended) [
      | inl off ↦ inl (store_suspended, ground arith, ground arith)
      | inr on_ ↦ elim (Bool-cases (ltb x.stock_quantity n)) [
        | inl short ↦ inl (insufficient_stock, ground arith, ground arith)
        | inr enough ↦ inr (ground arith, ground arith)
      ]
    ]
  ]

  quantity-or_zero : (o : Option CartItem) → quantity_or_zero o ≡ or_zero (quantity_of o)
  quantity-or_zero none = refl
  quantity-or_zero (some i) = refl

  look-Reads :
      (t : CartTables) (b : Basket)
      → Reads who cart t b
      → Reads who cart (get_cart catalog who t).0 (change catalog look b)
  unfolding change
  look-Reads t b h = get_cart-Reads catalog who cart t b h

  add_item-Reads :
      (t : CartTables) (b : Basket) (v n : ℕ)
      → Reads who cart t b
      → Reads who cart (add_item_to catalog v n who (t, cart)).0 (change catalog (more v n) b)
  unfolding add_item_to change
  add_item-Reads t b v n h =
      let before : quantity_or_zero (row cart.id v t.items) ≡ or_zero (b v) =
        quantity-or_zero (row cart.id v t.items) ∙ ap or_zero (h.holds v) in
      elim (refused_line (catalog v) (or_zero (b v) + n)) [
        | inl (e, why, refused) ↦ rw (before, add_item_to, why, refused, change) h
        | inr (why, allowed) ↦
            rw (before, add_item_to, why, allowed, change)
              (get_cart-Reads catalog who cart _ _ (put_line-Reads catalog who cart t b v n h))
      ]

  update_item-Reads :
      (t : CartTables) (b : Basket) (v n : ℕ) (r : CartItem)
      → Reads who cart t b
      → row cart.id v t.items ≡ some r
      → Reads who cart
          (update_item_of catalog r.id n who (t, cart)).0
          (change catalog (reset v n) b)
  unfolding update_item_of change delete_rows
  update_item-Reads t b v n r h there =
      let own = row-own catalog who cart t.next_id v t.items r h.distinct there in
      let q : some r.quantity ≡ b v = rw there at (h.holds v) in
      let same : r.variant_id ≡ v = ground (arith, row-holds cart.id v t.items r there) in
      elim (Bool-cases (leb n 0)) [
        | inl gone ↦
            let none_left : set_to (catalog v) n (b v) ≡ none = rw (sym q) (ground arith) in
            rw (own, update_item_of, change, none_left, gone)
              (get_cart-Reads catalog who cart _ _
                (keep-Reads catalog who cart t b _ v r h there λ w s found. ground arith))
        | inr stays ↦
            let capped : set_to (catalog v) n (b v) ≡ some (capped_to (catalog v) n) =
              rw (sym q) (ground arith) in
            rw (own, update_item_of, change, capped, stays, same)
              (get_cart-Reads catalog who cart _ _
                (set_quantity-Reads catalog who cart t b v (capped_to (catalog v) n) r h there))
      ]

  remove_item-Reads :
      (t : CartTables) (b : Basket) (v : ℕ) (r : CartItem)
      → Reads who cart t b
      → row cart.id v t.items ≡ some r
      → Reads who cart
          (remove_items_of catalog (r.id ∷ []) who (t, cart)).0
          (change catalog (drop v) b)
  unfolding remove_items_of change delete_items
  remove_item-Reads t b v r h there = get_cart-Reads catalog who cart _ _ (
      keep-Reads catalog who cart t b _ v r h there
        λ w s found. ground (arith, row-holds cart.id w t.items s found))

  -- A change of a line that is not there is a look.
  skipped :
      (t : CartTables) (b : Basket) (v : ℕ) (q : Option ℕ)
      → q ≡ b v
      → Reads who cart t b
      → Reads who cart (get_cart catalog who t).0 (λ w. settled (catalog w) (put v q b w))
  skipped t b v q same h = get_cart-Reads catalog who cart t (put v q b) record {
    found = h.found;
    distinct = h.distinct;
    holds = λ w. h.holds w ∙ elim (Bool-cases (w == v)) [
      | inl this ↦ let e : w ≡ v = (==_iff w v).0 this in rw this (ap b e ∙ sym same)
      | inr other ↦ rw other refl
    ];
  }

  -- One change.
  answer-Reads :
      (t : CartTables) (b : Basket) (x : Change)
      → Reads who cart t b
      → Reads who cart (answer catalog who (request cart.id t x) t).0 (change catalog x b)
  unfolding answer change
  answer-Reads t b look h = look-Reads t b h
  answer-Reads t b (more v n) h =
      rw (resolved catalog who cart t h.found) (add_item-Reads t b v n h)
  answer-Reads t b (reset v n) h = elim (Option-cases (row cart.id v t.items)) [
    | inl missing ↦
        let q : none ≡ b v = rw missing at (h.holds v) in
        rw (missing, request)
          (skipped t b v (set_to (catalog v) n (b v)) (ap (set_to (catalog v) n) (sym q) ∙ q) h)
    | inr (r, there) ↦
        rw (there, request, resolved catalog who cart t h.found)
          (update_item-Reads t b v n r h there)
  ]
  answer-Reads t b (drop v) h = elim (Option-cases (row cart.id v t.items)) [
    | inl missing ↦
        let q : none ≡ b v = rw missing at (h.holds v) in
        rw (missing, request) (skipped t b v none q h)
    | inr (r, there) ↦
        rw (there, request, resolved catalog who cart t h.found) (remove_item-Reads t b v r h there)
  ]

-- Whatever the owner of a cart looks up, adds, resets and drops, in any order: the cart in the tables holds
-- what those changes make of its basket, every look also taking out what cannot be bought and capping
-- the rest to the stock.
pub run-Reads :
    (catalog : Catalog) (who : CartOwner) (cart : Cart) (xs : List Change) (t : CartTables)
    (b : Basket)
    → Reads who cart t b
    → Reads who cart (run catalog who cart.id xs t) (replay catalog xs b)
unfolding run replay
run-Reads catalog who cart [] t b h = h
run-Reads catalog who cart (x ∷ xs) t b h =
    run-Reads catalog who cart xs _ _ (answer-Reads catalog who cart t b x h)
