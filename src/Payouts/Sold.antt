-- ===== src/Payouts/Sold.antt =====
-- modules/payouts/payouts.service.ts: the products and shipping of a store's orders that a rail pays for.
-- The joins of the queries are written out on the rows.
use new_sopet_backend.Prelude.{
  ℕ, ◌+◌, ◌-◌, ◌*◌, min, Bool, true, false, not, ◌&&◌, ◌||◌, none, some, List, [], ◌∷◌, map, ◌==◌,
  leb, ltb, if◌then◌else◌, any, keep, find, sum_by,
}
use new_sopet_backend.Commission.{OrderShare}
use new_sopet_backend.Orders.Status.{OrderStatus, same_order}
use new_sopet_backend.Orders.Rows.{OrderItem, Order, OrderStoreShipping, in_store, is_held}
use new_sopet_backend.Payouts.{
  PayoutSettlementRail, Sales, Settings, SoldOrder, StorePromotionUsage, is_method_of,
}

-- The conditions on an order that the three queries share.
unfoldable pub is_sold_order : PayoutSettlementRail → SoldOrder → Bool
is_sold_order rail s =
    (same_order s.order.status OrderStatus.paid || same_order s.order.status OrderStatus.delivered)
    && is_method_of rail s.order.payment_method
    && not (same_order s.order.status OrderStatus.on_hold)
    && not s.is_vendor_import

abbrev pub is_sold_item : ℕ → OrderItem → Bool
is_sold_item store_id i = in_store store_id i && not (is_held i)

-- `applyPaidAtCutoff`
pub data CutoffBucket : Type 0 where
  pre post : CutoffBucket

abbrev pub is_in_bucket : CutoffBucket → ℕ → Order → Bool
is_in_bucket post go_live o = elim o.paid_at [ none ↦ false | some t ↦ leb go_live t ]
is_in_bucket pre go_live o = elim o.paid_at [ none ↦ true | some t ↦ ltb t go_live ]

abbrev pub product_of : ℕ → Order → ℕ
product_of store_id o =
    sum_by (λ (i : OrderItem). i.subtotal * 100) (keep (is_sold_item store_id) o.items)

unfoldable pub sum_eligible_item_subtotal : (Order → Bool) → ℕ → PayoutSettlementRail → Sales → ℕ
sum_eligible_item_subtotal bucket store_id rail sales =
    sum_by (λ (s : SoldOrder). product_of store_id s.order)
      (keep (λ s. is_sold_order rail s && bucket s.order) sales.orders)

-- The join of a usage with its order.
abbrev pub is_eligible_usage :
    (Order → Bool) → ℕ → PayoutSettlementRail → List SoldOrder → StorePromotionUsage → Bool
is_eligible_usage bucket store_id rail orders u =
    u.store_id == store_id
    && any (λ s. s.order.id == u.order_id && (is_sold_order rail s && bucket s.order)) orders

unfoldable pub sum_store_promotion_discounts : (Order → Bool) → ℕ → PayoutSettlementRail → Sales → ℕ
sum_store_promotion_discounts bucket store_id rail sales =
    sum_by (λ (u : StorePromotionUsage). u.discount_amount)
      (keep (is_eligible_usage bucket store_id rail sales.orders) sales.usages)

abbrev pub net_product : (Order → Bool) → ℕ → PayoutSettlementRail → Sales → ℕ
net_product bucket store_id rail sales =
    sum_eligible_item_subtotal bucket store_id rail sales
    - sum_store_promotion_discounts bucket store_id rail sales

-- The products before and after the commission went live.
unfoldable pub calculate_eligible_product_buckets :
    Settings → ℕ → PayoutSettlementRail → Sales → ℕ × ℕ
calculate_eligible_product_buckets c store_id rail sales = elim c.go_live_at [
  | none ↦ (0, net_product (λ o. true) store_id rail sales)
  | some t ↦ (
    net_product (is_in_bucket pre t) store_id rail sales,
    net_product (is_in_bucket post t) store_id rail sales,
  )
]

abbrev pub shipping_fee_of : ℕ → List OrderStoreShipping → ℕ
shipping_fee_of store_id rows =
    elim (find (λ (r : OrderStoreShipping). r.store_id == store_id) rows) [
      | none ↦ 0
      | some r ↦ r.shipping_fee * 100
    ]

unfoldable pub order_slice : ℕ → Order → OrderShare
order_slice store_id o = record {
  product = product_of store_id o;
  shipping =
      min (shipping_fee_of store_id o.store_shippings)
        (o.total * 100 + o.discount_amount * 100 - product_of store_id o);
}

-- By `paid_at`, nulls first, then `created_at`, then `id`.
abbrev pub comes_before : Order → Order → Bool
comes_before o p = elim o.paid_at [
  | none ↦ elim p.paid_at [ none ↦ then_by_creation | some t ↦ true ]
  | some s ↦ elim p.paid_at [ none ↦ false | some t ↦ if s == t then then_by_creation else ltb s t ]
]
  where
    then_by_creation : Bool
    then_by_creation =
        if o.created_at == p.created_at then leb o.id p.id else ltb o.created_at p.created_at

abbrev pub insert_order : Order → List Order → List Order
insert_order o [] = o ∷ []
insert_order o (p ∷ ps) =
    let rest = insert_order o ps in if comes_before o p then o ∷ p ∷ ps else p ∷ rest

abbrev pub sort_orders : List Order → List Order
sort_orders [] = []
sort_orders (o ∷ os) = insert_order o (sort_orders os)

unfoldable pub list_eligible_order_slices : ℕ → PayoutSettlementRail → Sales → List OrderShare
list_eligible_order_slices store_id rail sales = map (order_slice store_id) (
    sort_orders (
      map (λ (s : SoldOrder). s.order)
        (keep (λ (s : SoldOrder). is_sold_order rail s && any (is_sold_item store_id) s.order.items)
          sales.orders)))
