-- ===== src/Cart/Basket.antt =====
-- A cart as its owner sees it, from variants to quantities, and the requests of modules/cart/cart.service.ts
-- as changes of it. The owner names a line by the variant; the request has the id of the line.
pub mod Settled
pub mod Writes
pub mod Refines
pub mod Merge
use new_sopet_backend.Prelude.{
  ℕ, suc, ◌+◌, ◌≡◌, ◌≤◌, ◌<◌, refl, sym, ap, ◌∙◌, subst, Bool, true, false, not, ◌&&◌, ◌||◌, Option,
  none, some, List, [], ◌∷◌, ◌++◌, ◌==◌, leb, ltb, if◌then◌else◌, any, keep, find, inl, inr, arith,
  Bool-cases, Option-cases, ==_iff, ==_refl,
}
use new_sopet_backend.Cart.{
  Cart, CartItem, CatalogVariant, Catalog, CartTables, CartOwner, is_cart_of, resolve_cart,
  cart_lines, is_suspended_store_item, is_retired_variant_item, exceeded_stock, has_id, delete_rows,
  set_quantity, purge_unavailable_items, cap_rows, capped_line, get_resolved, get_cart,
}
use new_sopet_backend.Cart.Requests.{
  is_line, refuse_item, capped_to, CartRequest, get, add, update, remove, answer,
}
use new_sopet_backend.Cart.Lines.{row, Distinct, keep_row, row-keep, keep-Distinct, any-append}
use new_sopet_backend.Cart.Purge.{
  has_id-keep, row-holds, keep-keep, is_unavailable, map_row, cap_by, row-cap_rows,
  cap_rows-Distinct, cap_by-keep,
}

abbrev pub Basket : Type 0
Basket = ℕ → Option ℕ

abbrev pub quantity_of : Option CartItem → Option ℕ
quantity_of none = none
quantity_of (some i) = some i.quantity

abbrev pub basket : ℕ → List CartItem → Basket
basket c is v = quantity_of (row c v is)

-- A quantity as it is when the cart is read: a line that cannot be bought is gone, and a quantity is at
-- most the stock, unless there is none.
abbrev pub settled : Option CatalogVariant → Option ℕ → Option ℕ
settled x none = none
settled none (some q) = some q
settled (some x) (some q) =
    if x.is_suspended || x.is_retired
    then none
    else if leb x.stock_quantity 0 || leb q x.stock_quantity
    then some q
    else some x.stock_quantity

abbrev pub put : ℕ → Option ℕ → Basket → Basket
put v q b v' = if v' == v then q else b v'

pub data Change : Type 0 where
  look : Change
  more reset : ℕ → ℕ → Change  -- the variant, the quantity
  drop : ℕ → Change

abbrev pub or_zero : Option ℕ → ℕ
or_zero none = 0
or_zero (some n) = n

abbrev pub set_to : Option CatalogVariant → ℕ → Option ℕ → Option ℕ
set_to x n none = none
set_to x n (some q) = if leb n 0 then none else some (capped_to x n)

abbrev pub is_refused : Option CatalogVariant → ℕ → Bool
is_refused none n = true
is_refused (some x) n = x.is_retired || x.is_suspended || ltb x.stock_quantity n

-- What a change means.
unfoldable pub change : Catalog → Change → Basket → Basket
change catalog look b v = settled (catalog v) (b v)
change catalog (more w n) b v =
    let total = or_zero (b w) + n in
    if is_refused (catalog w) total then b v else settled (catalog v) (put w (some total) b v)
change catalog (reset w n) b v = settled (catalog v) (put w (set_to (catalog w) n (b w)) b v)
change catalog (drop w) b v = settled (catalog v) (put w none b v)

abbrev pub of_line : Option CartItem → (ℕ → CartRequest) → CartRequest
of_line none r = get
of_line (some i) r = r i.id

-- The request that the owner of the cart sends.
abbrev pub request : ℕ → CartTables → Change → CartRequest
request c t look = get
request c t (more v n) = add v n
request c t (reset v n) = of_line (row c v t.items) (λ id. update id n)
request c t (drop v) = of_line (row c v t.items) remove

unfoldable pub run : Catalog → CartOwner → ℕ → List Change → CartTables → CartTables
run catalog who c [] t = t
run catalog who c (x ∷ xs) t = run catalog who c xs (answer catalog who (request c t x) t).0

unfoldable pub replay : Catalog → List Change → Basket → Basket
replay catalog [] b = b
replay catalog (x ∷ xs) b = replay catalog xs (change catalog x b)

-- The owner's cart is there, the table has its keys, and the basket is what the cart holds.
pub record Reads (who : CartOwner) (cart : Cart) (t : CartTables) (b : Basket) : Type 0 where
  pub found : find (is_cart_of who) t.carts ≡ some cart
  pub distinct : Distinct t.next_id t.items
  pub holds : (v : ℕ) → basket cart.id t.items v ≡ b v
