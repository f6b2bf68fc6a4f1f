-- ===== src/Cart/Basket/Merge.antt =====
-- A guest's cart at login: the customer gets its lines on top of their own.
use new_sopet_backend.Prelude.{
  ℕ, ◌+◌, ◌≡◌, refl, sym, ap, ◌∙◌, subst, Bool, true, false, not, Option, none, some, List, [], ◌∷◌,
  ◌==◌, length, keep, find, inl, inr, arith, Bool-cases, ==_iff, ==_refl,
}
use new_sopet_backend.Cart.{
  Cart, CartItem, Catalog, CartTables, CartOwner, customer, session, is_cart_of, cart_lines,
}
use new_sopet_backend.Cart.Requests.{merge_lines, merge_resolved, merge_guest_cart}
use new_sopet_backend.Cart.Lines.{row, row-clash, Distinct, keep_row, row-keep, keep-Distinct}
use new_sopet_backend.Cart.Purge.{row-holds}
use new_sopet_backend.Cart.Basket.{Basket, quantity_of, basket, settled, put, or_zero, Reads}
use new_sopet_backend.Cart.Basket.Writes.{resolved, get_cart-Reads, put_line-Reads}

-- A quantity with what comes on top of it.
abbrev pub plus : Option ℕ → Option ℕ → Option ℕ
plus o none = o
plus o (some q) = some (or_zero o + q)

abbrev merged : List CartItem → Basket → Basket
merged [] b = b
merged (g ∷ gs) b = merged gs (put g.variant_id (some (or_zero (b g.variant_id) + g.quantity)) b)

merged-lines :
    (c n v : ℕ) (is : List CartItem) (b : Basket)
    → Distinct n is
    → merged (cart_lines c is) b v ≡ plus (b v) (basket c is v)
merged-lines c n v [] b d = ground arith
merged-lines c n v (i ∷ is) b (fresh, below, d) = elim (Bool-cases (i.cart_id == c)) [
  | inr other ↦
      let same : basket c (i ∷ is) v ≡ basket c is v = ground arith in
      let skip : cart_lines c (i ∷ is) ≡ cart_lines c is = ground arith in
      ap (λ l. merged l b v) skip ∙ (merged-lines c n v is b d ∙ ap (plus (b v)) (sym same))
  | inl own ↦
      let b' : Basket = put i.variant_id (some (or_zero (b i.variant_id) + i.quantity)) b in
      let taken : cart_lines c (i ∷ is) ≡ i ∷ cart_lines c is = ground arith in
      ap (λ l. merged l b v) taken
      ∙ (merged-lines c n v is b' d ∙ elim (Bool-cases (i.variant_id == v)) [
        | inl this ↦
            let e : v ≡ i.variant_id = sym ((==_iff i.variant_id v).0 this) in
            let alone : row c v is ≡ none = row-clash c v i is (ground arith) fresh in
            let hit : row c v (i ∷ is) ≡ some i = ground arith in
            let now : b' v ≡ some (or_zero (b v) + i.quantity) =
              subst (λ w. b' w ≡ some (or_zero (b w) + i.quantity)) (sym e)
                (ground (arith, ==_refl i.variant_id)) in
            ap (λ r. plus (b' v) (quantity_of r)) alone
            ∙ (now ∙ sym (ap (λ r. plus (b v) (quantity_of r)) hit))
        | inr that ↦
            let same : basket c (i ∷ is) v ≡ basket c is v = ground arith in
            let kept : b' v ≡ b v = ground arith in rw (same, kept) refl
      ])
]

merge_lines-Reads :
    (catalog : Catalog) (who : CartOwner) (cart : Cart) (gs : List CartItem) (t : CartTables)
    (b : Basket)
    → Reads who cart t b
    → Reads who cart (merge_lines cart.id gs t) (merged gs b)
unfolding merge_lines
merge_lines-Reads catalog who cart [] t b h = h
merge_lines-Reads catalog who cart (g ∷ gs) t b h =
    merge_lines-Reads catalog who cart gs _ _
      (put_line-Reads catalog who cart t b g.variant_id g.quantity h)

find-keep :
    (p q : Cart → Bool) (cs : List Cart) (cart : Cart)
    → find p cs ≡ some cart
    → q cart ≡ true
    → find p (keep q cs) ≡ some cart
find-keep p q [] cart h k = cc
find-keep p q (c ∷ cs) cart h k = elim (Bool-cases (p c)) [
  | inl this ↦
      let same : c ≡ cart = ground arith in let kept : q c ≡ true = cc (same, k) in ground arith
  | inr next ↦
      let later : find p cs ≡ some cart = ground arith in
      ground (arith, find-keep p q cs cart later k)
]

keep_row-all :
    (p : CartItem → Bool) (o : Option CartItem)
    → ((r : CartItem) → o ≡ some r → p r ≡ true)
    → keep_row p o ≡ o
keep_row-all p none h = refl
keep_row-all p (some r) h = rw (h r refl) refl

merge_resolved-Reads :
    (catalog : Catalog) (who : CartOwner) (cart guest : Cart) (t : CartTables) (b : Basket)
    → (guest.id == cart.id) ≡ false
    → Reads who cart t b
    → Reads who cart (merge_resolved guest cart t) (λ v. plus (b v) (basket guest.id t.items v))
unfolding merge_resolved
merge_resolved-Reads catalog who cart guest t b other h =
    let m = merge_lines-Reads catalog who cart (cart_lines guest.id t.items) t b h in
    let after = merge_lines cart.id (cart_lines guest.id t.items) t in
    let kept : CartItem → Bool = λ i. not (i.cart_id == guest.id) in
    record {
      found = find-keep _ _ after.carts cart m.found (ground arith);
      distinct = keep-Distinct after.next_id kept after.items m.distinct;
      holds = λ v.
          ap quantity_of (
            row-keep cart.id v after.next_id kept after.items m.distinct
            ∙ keep_row-all kept (row cart.id v after.items)
                λ r there. ground (arith, row-holds cart.id v after.items r there))
          ∙ (m.holds v ∙ merged-lines guest.id t.next_id v t.items b h.distinct);
    }

plus-none :
    (c v : ℕ) (is : List CartItem) → (length (cart_lines c is) == 0) ≡ true → row c v is ≡ none
plus-none c v [] h = refl
plus-none c v (i ∷ is) h = ground (arith, plus-none c v is)

-- At login a customer's cart gets the lines of the guest's cart on top of its own, quantity by quantity, and
-- is then read: what cannot be bought goes, and the rest is capped to the stock.
pub merge_guest_cart_lem :
    (catalog : Catalog) (customer_id session_id : ℕ) (cart guest : Cart) (t : CartTables)
    (b : Basket)
    → Reads (customer customer_id) cart t b
    → find (is_cart_of (session session_id)) t.carts ≡ some guest
    → (guest.id == cart.id) ≡ false
    → Reads
        (customer customer_id)
        cart
        (merge_guest_cart catalog customer_id session_id t).0
        (λ v. settled (catalog v) (plus (b v) (basket guest.id t.items v)))
unfolding merge_guest_cart
merge_guest_cart_lem catalog c s cart guest t b h there other =
    elim (Bool-cases (length (cart_lines guest.id t.items) == 0)) [
      | inl empty ↦
          rw (merge_guest_cart, there, empty)
            (get_cart-Reads catalog (customer c) cart t _ record {
              found = h.found;
              distinct = h.distinct;
              holds = λ v.
                  h.holds v
                  ∙ sym (ap (λ r. plus (b v) (quantity_of r)) (plus-none guest.id v t.items empty));
            })
      | inr some_lines ↦
          rw (merge_guest_cart, there, some_lines, resolved catalog (customer c) cart t h.found)
            (get_cart-Reads catalog (customer c) cart _ _
              (merge_resolved-Reads catalog (customer c) cart guest t b other h))
    ]
