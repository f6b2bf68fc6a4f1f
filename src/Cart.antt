-- ===== src/Cart.antt =====
-- modules/cart/cart.service.ts: the carts of customers and guests and their lines.
-- Quantities are positive, as modules/cart/cart.inputs.ts demands of an added one; an updated one may be 0,
-- which deletes the line. The catalogue, of which the service reads the variant, its
-- product and its store, is a function. An empty id is an absent one. Saving a line writes its quantity.
pub mod Requests
pub mod Lines
pub mod Purge
pub mod Basket
mod Tests
use new_sopet_backend.Prelude.{
  ℕ, suc, ◌+◌, Bool, true, false, not, ◌&&◌, ◌||◌, Option, none, some, List, [], ◌∷◌, ◌++◌, map,
  ◌==◌, leb, ltb, if◌then◌else◌, any, keep, find, length,
}
use new_sopet_backend.Prelude.Result.{Result, ok, err}

pub record Cart : Type 0 where
  pub id : ℕ
  pub customer_id : Option ℕ
  pub session_id : Option ℕ

pub record CartItem : Type 0 where
  pub id : ℕ
  pub cart_id : ℕ
  pub variant_id : ℕ
  pub quantity : ℕ

pub record CatalogVariant : Type 0 where
  pub stock_quantity : ℕ
  pub is_retired : Bool
  pub is_suspended : Bool  -- the store of its product

abbrev pub Catalog : Type 0
Catalog = ℕ → Option CatalogVariant

-- The two tables, and the id that the next row gets.
pub record CartTables : Type 0 where
  pub carts : List Cart
  pub items : List CartItem
  pub next_id : ℕ

pub data CartError : Type 0 where
  cart_identity_required variant_not_found store_suspended : CartError
  insufficient_stock cart_item_not_found : CartError

pub data CartWarning : Type 0 where
  suspended_store_item_removed retired_variant_removed quantity_capped : ℕ → CartWarning

pub record CartWithWarnings : Type 0 where
  pub cart : Cart
  pub items : List CartItem
  pub warnings : List CartWarning

-- The tables after the request, and its reply.
abbrev pub Reply : Type 0
Reply = CartTables × Result CartError CartWithWarnings

-- `cart.items`
abbrev pub cart_lines : ℕ → List CartItem → List CartItem
cart_lines cart_id is = keep (λ (i : CartItem). i.cart_id == cart_id) is

abbrev pub is_same : Option ℕ → ℕ → Bool
is_same none id = false
is_same (some n) id = n == id

-- `customerId ? { customerId } : { sessionId }`
pub data CartOwner : Type 0 where
  customer session : ℕ → CartOwner

abbrev pub cart_owner : Option ℕ → Option ℕ → Option CartOwner
cart_owner (some c) s = some (customer c)
cart_owner none (some s) = some (session s)
cart_owner none none = none

abbrev pub is_cart_of : CartOwner → Cart → Bool
is_cart_of (customer c) cart = is_same cart.customer_id c
is_cart_of (session s) cart = is_same cart.session_id s

abbrev pub new_cart : ℕ → CartOwner → Cart
new_cart id (customer c) = record { id = id; customer_id = some c; session_id = none }
new_cart id (session s) = record { id = id; customer_id = none; session_id = some s }

unfoldable pub resolve_cart : CartOwner → CartTables → CartTables × Cart
resolve_cart who t = elim (find (is_cart_of who) t.carts) [
  | some cart ↦ (t, cart)
  | none ↦
      let cart = new_cart t.next_id who in
      (record t { carts = t.carts ++ cart ∷ []; next_id = suc t.next_id }, cart)
]

module _ (catalog : Catalog) where
  abbrev pub is_suspended_store_item : CartItem → Bool
  is_suspended_store_item i = elim (catalog i.variant_id) [ none ↦ false | some v ↦ v.is_suspended ]

  abbrev pub is_retired_variant_item : CartItem → Bool
  is_retired_variant_item i = elim (catalog i.variant_id) [ none ↦ false | some v ↦ v.is_retired ]

  -- The stock that a line exceeds, if it is positive.
  abbrev pub exceeded_stock : CartItem → Option ℕ
  exceeded_stock i = elim (catalog i.variant_id) [
    | none ↦ none
    | some v ↦
        if leb v.stock_quantity 0 || leb i.quantity v.stock_quantity
        then none
        else some v.stock_quantity
  ]

-- `delete({ id: In(ids) })`
abbrev pub has_id : List CartItem → CartItem → Bool
has_id rows i = any (λ (j : CartItem). j.id == i.id) rows

unfoldable pub delete_rows : List CartItem → List CartItem → List CartItem
delete_rows rows is = keep (λ i. not (has_id rows i)) is

unfoldable pub set_quantity : ℕ → ℕ → List CartItem → List CartItem
set_quantity id n [] = []
set_quantity id n (i ∷ is) =
    (if i.id == id then record i { quantity = n } else i) ∷ set_quantity id n is

-- `purgeUnavailableItems`: the rows, the lines that are left, and the warnings.
unfoldable pub purge_unavailable_items :
    Catalog → ℕ → List CartItem → List CartItem × List CartItem × List CartWarning
purge_unavailable_items catalog cart_id is =
    let items = cart_lines cart_id is in
    let suspended = keep (is_suspended_store_item catalog) items in
    let retired =
      keep (λ i. not (is_suspended_store_item catalog i) && is_retired_variant_item catalog i)
        items in
    (
      delete_rows (suspended ++ retired) is,
      keep (λ i. not (is_suspended_store_item catalog i) && not (is_retired_variant_item catalog i))
          items,
      map (λ (i : CartItem). suspended_store_item_removed i.variant_id) suspended
          ++ map (λ (i : CartItem). retired_variant_removed i.variant_id) retired,
    )

-- The loop of `capQuantitiesToStock` over the lines.
unfoldable pub cap_row : Option ℕ → ℕ → List CartItem → List CartItem
cap_row none id is = is
cap_row (some stock) id is = set_quantity id stock is

unfoldable pub cap_rows : Catalog → List CartItem → List CartItem → List CartItem
cap_rows catalog [] is = is
cap_rows catalog (q ∷ qs) is = cap_rows catalog qs (cap_row (exceeded_stock catalog q) q.id is)

abbrev pub capped_line : Catalog → CartItem → CartItem
capped_line catalog i = elim (exceeded_stock catalog i) [
  | none ↦ i
  | some stock ↦ record i { quantity = stock }
]

abbrev pub is_capped : Catalog → CartItem → Bool
is_capped catalog i = elim (exceeded_stock catalog i) [ none ↦ false | some stock ↦ true ]

unfoldable pub get_resolved : Catalog → CartTables → Cart → Reply
get_resolved catalog t cart =
    let (rows, items, warnings) = purge_unavailable_items catalog cart.id t.items in
    (
      record t { items = cap_rows catalog items rows },
      ok record {
        cart = cart;
        items = map (capped_line catalog) items;
        warnings =
            warnings
            ++ map (λ (i : CartItem). quantity_capped i.variant_id)
                (keep (is_capped catalog) items);
      },
    )

unfoldable pub get_cart : Catalog → CartOwner → CartTables → Reply
get_cart catalog who t = let (t', cart) = resolve_cart who t in get_resolved catalog t' cart
