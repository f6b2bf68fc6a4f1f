-- ===== src/Commission/Shipping.antt =====
-- Which orders' shipping is still owed: those whose product the paid amount does not cover.
use new_sopet_backend.Prelude.{
  ℕ, ◌+◌, ◌-◌, ◌≤◌, ◌≡◌, refl, ap, ◌∙◌, ◌&&◌, List, [], ◌∷◌, arith, ltb, if◌then◌else◌,
}
use new_sopet_backend.Commission.{
  OrderShare, to_satang, from_satang, lifetime_product, uncovered_shipping,
  unpaid_shipping_for_remaining_product,
}

-- The shipping of the orders that hold product and reach beyond `paid`, where `before` is the
-- product of the orders that stand before them.
unfoldable pub shipping_beyond : ℕ → ℕ → List OrderShare → ℕ
shipping_beyond paid before [] = 0
shipping_beyond paid before (o ∷ os) =
    let after = before + to_satang o.product in
    let rest = shipping_beyond paid after os in
    if ltb 0 (to_satang o.product) && ltb paid after then to_satang o.shipping + rest else rest

uncovered_shipping_lem :
    (os : List OrderShare) (paid before cover ship : ℕ)
    → cover ≡ paid - before
    → uncovered_shipping os cover ship ≡ ship + shipping_beyond paid before os
unfolding uncovered_shipping shipping_beyond
uncovered_shipping_lem [] paid before cover ship h = omega arith
uncovered_shipping_lem (o ∷ os) paid before cover ship h =
    let p : ℕ = to_satang o.product in
    ground (
      arith,
      uncovered_shipping_lem os paid (before + p) (cover - p) ship,
      uncovered_shipping_lem os paid (before + p) 0 (ship + to_satang o.shipping),
    )

-- With the oldest orders counted as paid first, the shipping still owed is that of exactly the
-- orders that hold product and end beyond the paid part of the lifetime product.
pub unpaid_shipping_lem :
    (orders : List OrderShare) (unpaid : ℕ)
    → unpaid_shipping_for_remaining_product orders unpaid
      ≡ from_satang (shipping_beyond (lifetime_product orders - to_satang unpaid) 0 orders)
unfolding unpaid_shipping_for_remaining_product
unpaid_shipping_lem orders unpaid =
    let paid : ℕ = lifetime_product orders - to_satang unpaid in
    ap from_satang (uncovered_shipping_lem orders paid 0 paid 0 (omega arith) ∙ omega arith)

shipping_beyond-none :
    (os : List OrderShare) (paid before : ℕ)
    → before + lifetime_product os ≤ paid
    → shipping_beyond paid before os ≡ 0
unfolding shipping_beyond lifetime_product
shipping_beyond-none [] paid before h = refl
shipping_beyond-none (o ∷ os) paid before h =
    ground (arith, shipping_beyond-none os paid (before + to_satang o.product))

-- Once all product is paid out, no shipping is left over.
pub unpaid_shipping-zero :
    (orders : List OrderShare) (unpaid : ℕ)
    → to_satang unpaid ≡ 0
    → unpaid_shipping_for_remaining_product orders unpaid ≡ 0
unfolding from_satang
unpaid_shipping-zero orders unpaid h =
    rw
      (
        unpaid_shipping_lem orders unpaid,
        shipping_beyond-none orders (lifetime_product orders - to_satang unpaid) 0 (omega arith),
      )
      (omega arith)
