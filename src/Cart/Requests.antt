-- ===== src/Cart/Requests.antt =====
-- modules/cart/cart.service.ts: what changes a cart, and the merge of a guest's cart at login.
use new_sopet_backend.Prelude.{
  ℕ, suc, ◌+◌, Bool, not, ◌&&◌, Option, none, some, List, [], ◌∷◌, ◌++◌, ◌==◌, leb, ltb,
  if◌then◌else◌, any, keep, find, length,
}
use new_sopet_backend.Prelude.Result.{err}
use new_sopet_backend.Cart.{
  Cart, CartItem, CatalogVariant, Catalog, CartTables, CartError, cart_identity_required,
  variant_not_found, store_suspended, insufficient_stock, cart_item_not_found, Reply, cart_lines,
  CartOwner, customer, session, cart_owner, is_cart_of, resolve_cart, delete_rows, set_quantity,
  get_cart,
}

abbrev pub is_line : ℕ → ℕ → CartItem → Bool
is_line cart_id variant_id i = i.cart_id == cart_id && i.variant_id == variant_id

abbrev pub quantity_or_zero : Option CartItem → ℕ
quantity_or_zero none = 0
quantity_or_zero (some i) = i.quantity

-- What the transaction of `addItem` refuses.
unfoldable pub refuse_item : Option CatalogVariant → ℕ → Option CartError
refuse_item none total = some variant_not_found
refuse_item (some v) total =
    if v.is_retired
    then some variant_not_found
    else if v.is_suspended
    then some store_suspended
    else if ltb v.stock_quantity total
    then some insufficient_stock
    else none

-- An existing line grows; else there is a new one.
unfoldable pub put_line : ℕ → ℕ → ℕ → CartTables → CartTables
put_line cart_id variant_id quantity t = elim (find (is_line cart_id variant_id) t.items) [
  | some i ↦ record t { items = set_quantity i.id (i.quantity + quantity) t.items }
  | none ↦ record t {
    items =
        t.items
        ++ record {
          id = t.next_id;
          cart_id = cart_id;
          variant_id = variant_id;
          quantity = quantity;
        }
          ∷ [];
    next_id = suc t.next_id;
  }
]

-- A cart that was made for the request stays, also where the item is refused.
unfoldable pub add_item_to : Catalog → ℕ → ℕ → CartOwner → CartTables × Cart → Reply
add_item_to catalog variant_id quantity who (t, cart) =
    let before = quantity_or_zero (find (is_line cart.id variant_id) t.items) in
    elim (refuse_item (catalog variant_id) (before + quantity)) [
      | some e ↦ (t, err e)
      | none ↦ get_cart catalog who (put_line cart.id variant_id quantity t)
    ]

abbrev pub add_item : Catalog → ℕ → ℕ → CartOwner → CartTables → Reply
add_item catalog variant_id quantity who t =
    add_item_to catalog variant_id quantity who (resolve_cart who t)

-- `stock != null && stock > 0 && quantity > stock ? stock : quantity`
abbrev pub capped_to : Option CatalogVariant → ℕ → ℕ
capped_to none n = n
capped_to (some v) n =
    if ltb 0 v.stock_quantity && ltb v.stock_quantity n then v.stock_quantity else n

abbrev pub is_item : ℕ → ℕ → CartItem → Bool
is_item cart_id item_id i = i.id == item_id && i.cart_id == cart_id

unfoldable pub update_item_of : Catalog → ℕ → ℕ → CartOwner → CartTables × Cart → Reply
update_item_of catalog item_id quantity who (t, cart) =
    elim (find (is_item cart.id item_id) t.items) [
      | none ↦ (t, err cart_item_not_found)
      | some i ↦ get_cart catalog who (record t {
        items =
            if leb quantity 0
            then delete_rows (i ∷ []) t.items
            else set_quantity i.id (capped_to (catalog i.variant_id) quantity) t.items;
      })
    ]

abbrev pub update_item : Catalog → ℕ → ℕ → CartOwner → CartTables → Reply
update_item catalog item_id quantity who t =
    update_item_of catalog item_id quantity who (resolve_cart who t)

-- `delete({ id: In(ids), cartId })`
unfoldable pub delete_items : ℕ → List ℕ → List CartItem → List CartItem
delete_items cart_id ids is =
    keep (λ (i : CartItem). not (any (λ n. i.id == n) ids && i.cart_id == cart_id)) is

unfoldable pub remove_items_of : Catalog → List ℕ → CartOwner → CartTables × Cart → Reply
remove_items_of catalog ids who (t, cart) =
    get_cart catalog who (record t { items = delete_items cart.id ids t.items })

abbrev pub remove_items : Catalog → List ℕ → CartOwner → CartTables → Reply
remove_items catalog [] who t = get_cart catalog who t
remove_items catalog (id ∷ ids) who t = remove_items_of catalog (id ∷ ids) who (resolve_cart who t)

abbrev pub remove_item : Catalog → ℕ → CartOwner → CartTables → Reply
remove_item catalog id who t = remove_items_of catalog (id ∷ []) who (resolve_cart who t)

-- The loop of `mergeGuestCart`. The lines of the customer were loaded before it and are not changed by
-- its inserts; the guest's lines have one variant each.
unfoldable pub merge_lines : ℕ → List CartItem → CartTables → CartTables
merge_lines cart_id [] t = t
merge_lines cart_id (g ∷ gs) t = merge_lines cart_id gs (put_line cart_id g.variant_id g.quantity t)

unfoldable pub merge_resolved : Cart → Cart → CartTables → CartTables
merge_resolved guest cart t =
    let merged = merge_lines cart.id (cart_lines guest.id t.items) t in
    record merged {
      items = keep (λ (i : CartItem). not (i.cart_id == guest.id)) merged.items;
      carts = keep (λ (c : Cart). not (c.id == guest.id)) merged.carts;
    }

unfoldable pub merge_guest_cart : Catalog → ℕ → ℕ → CartTables → Reply
merge_guest_cart catalog customer_id session_id t =
    elim (find (is_cart_of (session session_id)) t.carts) [
      | none ↦ get_cart catalog (customer customer_id) t
      | some guest ↦
          let (t', cart) = resolve_cart (customer customer_id) t in
          if length (cart_lines guest.id t.items) == 0
          then get_cart catalog (customer customer_id) t
          else get_cart catalog (customer customer_id) (merge_resolved guest cart t')
    ]

-- The requests as they come, with or without a login; the merge asks for both.
pub data CartRequest : Type 0 where
  get : CartRequest
  add : ℕ → ℕ → CartRequest  -- the variant, the quantity
  update : ℕ → ℕ → CartRequest  -- the item, the quantity
  remove : ℕ → CartRequest
  remove_many : List ℕ → CartRequest

unfoldable pub answer : Catalog → CartOwner → CartRequest → CartTables → Reply
answer catalog who get t = get_cart catalog who t
answer catalog who (add variant_id n) t = add_item catalog variant_id n who t
answer catalog who (update item_id n) t = update_item catalog item_id n who t
answer catalog who (remove item_id) t = remove_item catalog item_id who t
answer catalog who (remove_many ids) t = remove_items catalog ids who t

unfoldable pub serve_cart : Catalog → Option ℕ → Option ℕ → CartRequest → CartTables → Reply
serve_cart catalog customer_id session_id r t = elim (cart_owner customer_id session_id) [
  | none ↦ (t, err cart_identity_required)
  | some who ↦ answer catalog who r t
]
