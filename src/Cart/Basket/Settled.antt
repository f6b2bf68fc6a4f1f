-- ===== src/Cart/Basket/Settled.antt =====
-- Reading a cart settles its basket.
use new_sopet_backend.Prelude.{
  ℕ, ◌≡◌, refl, sym, ap, ◌∙◌, Bool, true, not, ◌&&◌, Option, none, some, List, ◌++◌, ◌==◌, keep,
  inl, inr, arith, Bool-cases, Option-cases,
}
use new_sopet_backend.Cart.{
  Cart, CartItem, Catalog, CartTables, cart_lines, is_suspended_store_item, is_retired_variant_item,
  has_id, delete_rows, purge_unavailable_items, cap_rows, capped_line, get_resolved,
}
use new_sopet_backend.Cart.Lines.{row, Distinct, keep_row, row-keep, any-append}
use new_sopet_backend.Cart.Purge.{
  has_id-keep, row-holds, keep-keep, is_unavailable, map_row, cap_by, row-cap_rows, cap_by-keep,
}
use new_sopet_backend.Cart.Basket.{quantity_of, basket, settled}

rows_agree :
    (f g : CartItem → CartItem) (p q : CartItem → Bool) (o : Option CartItem)
    → ((r : CartItem) → o ≡ some r → (p r ≡ q r) × (q r ≡ true → f r ≡ g r))
    → map_row f (keep_row p o) ≡ map_row g (keep_row q o)
rows_agree f g p q none h = refl
rows_agree f g p q (some r) h =
    let (same, agree) = h r refl in
    elim (Bool-cases (q r)) [
      | inl yes_ ↦ rw (same ∙ yes_, yes_) (ap some (agree yes_))
      | inr no_ ↦ rw (same ∙ no_, no_) refl
    ]

module _ (catalog : Catalog) where
  settled_row :
      (v : ℕ) (o : Option CartItem)
      → ((r : CartItem) → o ≡ some r → r.variant_id ≡ v)
      → quantity_of
          (map_row (capped_line catalog) (keep_row (λ i. not (is_unavailable catalog i)) o))
        ≡ settled (catalog v) (quantity_of o)
  settled_row v none h = ground arith
  settled_row v (some r) h = rw (sym (h r refl)) (elim (Option-cases (catalog r.variant_id)) [
    | inl missing ↦ ground (arith, missing)
    | inr (x, there) ↦ ground (arith, there)
  ])

  -- The rows that are deleted, among those of the cart.
  gone_row :
      (c v n : ℕ) (is : List CartItem) (r : CartItem)
      → Distinct n is
      → row c v is ≡ some r
      → has_id
          (keep (is_suspended_store_item catalog) (cart_lines c is)
            ++ keep
                (λ i. not (is_suspended_store_item catalog i) && is_retired_variant_item catalog i)
                (cart_lines c is))
          r
        ≡ is_unavailable catalog r
  gone_row c v n is r d found =
      let own = row-holds c v is r found in
      let s = is_suspended_store_item catalog in
      let u : CartItem → Bool = λ i. not (s i) && is_retired_variant_item catalog i in
      let q : CartItem → Bool = λ i. i.cart_id == c in
      let first : has_id (keep s (cart_lines c is)) r ≡ (q r && s r) =
        ap (λ l. has_id l r) (keep-keep s q is)
        ∙ has_id-keep c v n (λ i. q i && s i) is r d found in
      let second : has_id (keep u (cart_lines c is)) r ≡ (q r && u r) =
        ap (λ l. has_id l r) (keep-keep u q is)
        ∙ has_id-keep c v n (λ i. q i && u i) is r d found in
      any-append (λ j. j.id == r.id) (keep s (cart_lines c is)) (keep u (cart_lines c is))
      ∙ ground (arith, first, second, own)

  row-purge :
      (c v n : ℕ) (is : List CartItem)
      → Distinct n is
      → let (rows, items, warnings) = purge_unavailable_items catalog c is in
        row c v (cap_rows catalog items rows)
        ≡ map_row
            (capped_line catalog)
            (keep_row (λ i. not (is_unavailable catalog i)) (row c v is))
  unfolding purge_unavailable_items delete_rows
  row-purge c v n is d =
      let items = (purge_unavailable_items catalog c is).1 in
      row-cap_rows catalog c v items _
      ∙ (ap (map_row (cap_by catalog items)) (row-keep c v n _ is d)
          ∙ rows_agree (cap_by catalog items) (capped_line catalog) _
              (λ i. not (is_unavailable catalog i)) (row c v is)
              λ r found. (
                ap not (gone_row c v n is r d found),
                λ live.
                    let own = row-holds c v is r found in
                    let s = is_suspended_store_item catalog in
                    let u = is_retired_variant_item catalog in
                    ap (λ l. cap_by catalog l r)
                      (keep-keep (λ i. not (s i) && not (u i)) (λ i. i.cart_id == c) is)
                    ∙ cap_by-keep catalog c v n (λ i. i.cart_id == c && (not (s i) && not (u i))) is
                        r d found (ground arith),
              ))

  -- The lines of the cart after it was read, in terms of those before.
  pub basket-get_resolved :
      (t : CartTables) (cart : Cart) (v : ℕ)
      → Distinct t.next_id t.items
      → basket cart.id (get_resolved catalog t cart).0.items v
        ≡ settled (catalog v) (basket cart.id t.items v)
  unfolding get_resolved
  basket-get_resolved t cart v d =
      ap quantity_of (row-purge cart.id v t.next_id t.items d)
      ∙ settled_row v (row cart.id v t.items)
          λ r found. ground (arith, row-holds cart.id v t.items r found)
