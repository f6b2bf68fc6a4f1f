-- ===== src/Cart/Basket/Writes.antt =====
-- What the writes of a request do to the basket.
use new_sopet_backend.Prelude.{
  ℕ, ◌+◌, ◌≡◌, refl, sym, ap, ◌∙◌, subst, Bool, false, not, Option, none, some, List, [], ◌∷◌, ◌==◌,
  if◌then◌else◌, keep, find, inl, inr, arith, Bool-cases, Option-cases, ==_iff, ==_refl,
}
use new_sopet_backend.Cart.{
  Cart, CartItem, Catalog, CartTables, CartOwner, is_cart_of, resolve_cart, delete_rows,
  set_quantity, purge_unavailable_items, get_resolved, get_cart,
}
use new_sopet_backend.Cart.Requests.{is_line, is_item, put_line}
use new_sopet_backend.Cart.Lines.{
  row-set_quantity, set_row, set_quantity-Distinct, row-append, append-Distinct, or_row, row,
  Distinct, keep_row, row-keep, keep-Distinct,
}
use new_sopet_backend.Cart.Purge.{has_id-none, cap_rows-Distinct}
use new_sopet_backend.Cart.Basket.{Basket, quantity_of, basket, settled, put, or_zero, Reads}
use new_sopet_backend.Cart.Basket.Settled.{basket-get_resolved}

module _ (catalog : Catalog) (who : CartOwner) (cart : Cart) where
  pub resolved :
      (t : CartTables) → find (is_cart_of who) t.carts ≡ some cart → resolve_cart who t ≡ (t, cart)
  unfolding resolve_cart
  resolved t found = rw (found, resolve_cart) refl

  get_resolved-Reads :
      (t : CartTables) (b : Basket)
      → Reads who cart t b
      → Reads who cart (get_resolved catalog t cart).0 (λ v. settled (catalog v) (b v))
  unfolding get_resolved purge_unavailable_items delete_rows
  get_resolved-Reads t b h = record {
    found = h.found;
    distinct =
        cap_rows-Distinct catalog t.next_id _ _ (keep-Distinct t.next_id _ t.items h.distinct);
    holds =
        λ v. basket-get_resolved catalog t cart v h.distinct ∙ ap (settled (catalog v)) (h.holds v);
  }

  pub get_cart-Reads :
      (t : CartTables) (b : Basket)
      → Reads who cart t b
      → Reads who cart (get_cart catalog who t).0 (λ v. settled (catalog v) (b v))
  unfolding get_cart
  get_cart-Reads t b h = rw (resolved t h.found, get_cart) (get_resolved-Reads t b h)

  -- The row of a variant is found by its id.
  pub row-own :
      (n v : ℕ) (is : List CartItem) (r : CartItem)
      → Distinct n is
      → row cart.id v is ≡ some r
      → find (is_item cart.id r.id) is ≡ some r
  row-own n v [] r d h = cc
  row-own n v (i ∷ is) r (fresh, below, d) h = elim (Bool-cases (is_line cart.id v i)) [
    | inl this ↦
        let same : i ≡ r = ground arith in
        subst (λ x. find (is_item cart.id x.id) (i ∷ is) ≡ some x) same
          (ground (arith, ==_refl i.id))
    | inr other ↦
        let later : row cart.id v is ≡ some r = ground arith in
        ground (arith, has_id-none cart.id v i is r fresh later, row-own n v is r d later)
  ]

  -- Rows of two variants have two ids.
  ids-ne :
      (n v w : ℕ) (is : List CartItem) (r s : CartItem)
      → Distinct n is
      → row cart.id v is ≡ some r
      → row cart.id w is ≡ some s
      → (w == v) ≡ false
      → (s.id == r.id) ≡ false
  ids-ne n v w [] r s d hr hs ne = cc
  ids-ne n v w (i ∷ is) r s (fresh, below, d) hr hs ne = elim (Bool-cases (is_line cart.id v i)) [
    | inl this ↦
        let same : i ≡ r = ground arith in
        let later : row cart.id w is ≡ some s = ground arith in
        subst (λ x. (s.id == x.id) ≡ false) same
          (ground (arith, has_id-none cart.id w i is s fresh later))
    | inr other ↦
        let later : row cart.id v is ≡ some r = ground arith in
        elim (Bool-cases (is_line cart.id w i)) [
          | inl that ↦
              let same : i ≡ s = ground arith in
              subst (λ x. (x.id == r.id) ≡ false) same (has_id-none cart.id v i is r fresh later)
          | inr neither ↦
              let latest : row cart.id w is ≡ some s = ground arith in
              ids-ne n v w is r s d later latest ne
        ]
  ]

  rows-id :
      (n v w : ℕ) (is : List CartItem) (r s : CartItem)
      → Distinct n is
      → row cart.id v is ≡ some r
      → row cart.id w is ≡ some s
      → (s.id == r.id) ≡ (w == v)
  rows-id n v w is r s d hr hs = elim (Bool-cases (w == v)) [
    | inr other ↦ ids-ne n v w is r s d hr hs other ∙ sym other
    | inl this ↦
        let e : w ≡ v = (==_iff w v).0 this in
        let same : s ≡ r = cc in rw same (==_refl r.id ∙ sym this)
  ]

  row-ne :
      (v w : ℕ) (is : List CartItem) (r : CartItem)
      → row cart.id v is ≡ some r
      → row cart.id w is ≡ none
      → (w == v) ≡ false
  row-ne v w is r hr hw = elim (Bool-cases (w == v)) [
    | inr other ↦ other
    | inl this ↦ let e : w ≡ v = (==_iff w v).0 this in cc
  ]

  set_row-put :
      (b : Basket) (n m v w : ℕ) (is : List CartItem) (r : CartItem)
      → Distinct m is
      → row cart.id v is ≡ some r
      → basket cart.id is w ≡ b w
      → quantity_of (set_row r.id n (row cart.id w is)) ≡ put v (some n) b w
  set_row-put b n m v w is r d hr holds = elim (Option-cases (row cart.id w is)) [
    | inl missing ↦
        let ne = row-ne v w is r hr missing in
        let q : none ≡ b w = rw missing at holds in ground (arith, ne, missing, q)
    | inr (s, there) ↦
        let e = rows-id m v w is r s d hr there in
        let q : some s.quantity ≡ b w = rw there at holds in ground (arith, e, there, q)
  ]

  -- A new quantity for the line of a variant.
  pub set_quantity-Reads :
      (t : CartTables) (b : Basket) (v n : ℕ) (r : CartItem)
      → Reads who cart t b
      → row cart.id v t.items ≡ some r
      → Reads who cart (record t { items = set_quantity r.id n t.items }) (put v (some n) b)
  set_quantity-Reads t b v n r h hr = record {
    found = h.found;
    distinct = set_quantity-Distinct t.next_id r.id n t.items h.distinct;
    holds = λ w.
        ap quantity_of (row-set_quantity cart.id w r.id n t.items)
        ∙ set_row-put b n t.next_id v w t.items r h.distinct hr (h.holds w);
  }

  keep_row-put :
      (b : Basket) (p : CartItem → Bool) (m v w : ℕ) (is : List CartItem) (r : CartItem)
      → Distinct m is
      → row cart.id v is ≡ some r
      → ((s : CartItem) → row cart.id w is ≡ some s → p s ≡ not (s.id == r.id))
      → basket cart.id is w ≡ b w
      → quantity_of (keep_row p (row cart.id w is)) ≡ put v none b w
  keep_row-put b p m v w is r d hr h holds = elim (Option-cases (row cart.id w is)) [
    | inl missing ↦
        let ne = row-ne v w is r hr missing in
        let q : none ≡ b w = rw missing at holds in ground (arith, ne, missing, q)
    | inr (s, there) ↦
        let e = rows-id m v w is r s d hr there in
        let k = h s there in
        let q : some s.quantity ≡ b w = rw there at holds in ground (arith, e, k, there, q)
  ]

  -- The deletion of the line of a variant, however its row is told.
  pub keep-Reads :
      (t : CartTables) (b : Basket) (p : CartItem → Bool) (v : ℕ) (r : CartItem)
      → Reads who cart t b
      → row cart.id v t.items ≡ some r
      → ((w : ℕ) (s : CartItem) → row cart.id w t.items ≡ some s → p s ≡ not (s.id == r.id))
      → Reads who cart (record t { items = keep p t.items }) (put v none b)
  keep-Reads t b p v r h hr k = record {
    found = h.found;
    distinct = keep-Distinct t.next_id p t.items h.distinct;
    holds = λ w.
        ap quantity_of (row-keep cart.id w t.next_id p t.items h.distinct)
        ∙ keep_row-put b p t.next_id v w t.items r h.distinct hr (k w) (h.holds w);
  }

  -- The line of a variant grows, or is made.
  pub put_line-Reads :
      (t : CartTables) (b : Basket) (v n : ℕ)
      → Reads who cart t b
      → Reads who cart (put_line cart.id v n t) (put v (some (or_zero (b v) + n)) b)
  unfolding put_line
  put_line-Reads t b v n h = elim (Option-cases (row cart.id v t.items)) [
    | inr (r, there) ↦
        let q : some r.quantity ≡ b v = rw there at (h.holds v) in
        let total : r.quantity + n ≡ or_zero (b v) + n = ap (λ m. or_zero m + n) q in
        rw (there, put_line, sym total) (set_quantity-Reads t b v (r.quantity + n) r h there)
    | inl missing ↦
        let q : none ≡ b v = rw missing at (h.holds v) in
        let zero_ : or_zero (b v) + n ≡ n = ground (arith, q) in
        let new : CartItem = record {
          id = t.next_id;
          cart_id = cart.id;
          variant_id = v;
          quantity = n;
        } in
        rw (missing, put_line, zero_)
          record {
            found = h.found;
            distinct = append-Distinct t.next_id t.items new refl missing h.distinct;
            holds = λ w.
                ap quantity_of (row-append cart.id w t.items new)
                ∙ appended w (row cart.id w t.items) (h.holds w) q;
          }
  ]
    where
      appended :
          (w : ℕ) (o : Option CartItem)
          → quantity_of o ≡ b w
          → none ≡ b v
          → quantity_of (
              or_row o (
                if is_line cart.id w
                  record { id = t.next_id; cart_id = cart.id; variant_id = v; quantity = n }
                then some record { id = t.next_id; cart_id = cart.id; variant_id = v; quantity = n }
                else none))
            ≡ put v (some n) b w
      appended w none holds q = ground (arith, ==_refl cart.id)
      appended w (some i) holds q = elim (Bool-cases (w == v)) [
        | inr other ↦ ground arith
        | inl this ↦ let e : w ≡ v = (==_iff w v).0 this in cc
      ]
