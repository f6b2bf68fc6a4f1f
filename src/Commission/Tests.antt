-- ===== src/Commission/Tests.antt =====
-- Runs of the commission arithmetic, and its theorems at concrete payouts.
use new_sopet_backend.Prelude.{◌-◌, ◌≡◌, refl, min, none, some, List, [], ◌∷◌, arith, sum_by}
use new_sopet_backend.Prelude.Int.{pos}
use new_sopet_backend.Commission.{
  UnpaidBuckets, PriorPayout, OrderShare, breakdown, commission_satang, to_satang, from_satang,
  from_satang_ℤ, consume_to_amount, consume_prior_payouts, consume_loop, consume_payout,
  has_snapshot, take_post_net, largest_post_product, bisect, net_fits,
  unpaid_shipping_for_remaining_product, uncovered_shipping, lifetime_product,
}
use new_sopet_backend.Commission.Bisect.{IsLargest, largest_post_product-IsLargest}
use new_sopet_backend.Commission.Payable.{payable, consume_to_amount-net}
use new_sopet_backend.Commission.Prior.{paid_product, paid_shipping, consume_prior_payouts_lem}
use new_sopet_backend.Commission.Shipping.{shipping_beyond, unpaid_shipping_lem}

-- 100.00, 333.33 and 50.00 baht at 7 per cent.
abbrev owed : UnpaidBuckets
owed = record { unpaid_pre = 1000000; unpaid_post = 3333300; unpaid_ship = 500000 }

partial_payout : (consume_to_amount owed 2000000 7).net ≡ pos 2000000
unfolding consume_to_amount take_post_net largest_post_product bisect net_fits breakdown
    commission_satang to_satang from_satang from_satang_ℤ
partial_payout = refl

largest_post_product-IsLargest_example :
    IsLargest 7 10000 33333 (largest_post_product 33333 10000 7)
largest_post_product-IsLargest_example = largest_post_product-IsLargest 7 10000 (omega arith) 33333

consume_to_amount-net_example :
    (consume_to_amount owed 2000000 7).net
    ≡ pos (from_satang (min (to_satang 2000000) (payable owed 7)))
consume_to_amount-net_example = consume_to_amount-net 7 (omega arith) owed 2000000

abbrev plain_payout : PriorPayout
plain_payout = record {
  amount = 1500000;
  product_sold = none;
  shipping_fees = none;
  commission_amount = none;
  commission_rate = none;
}

abbrev snapshot_payout : PriorPayout
snapshot_payout = record {
  amount = 900000;
  product_sold = some 800000;
  shipping_fees = some 200000;
  commission_amount = some 100000;
  commission_rate = some 10;
}

abbrev payouts : List PriorPayout
payouts = plain_payout ∷ snapshot_payout ∷ []

prior_run :
    consume_prior_payouts 1000000 3333300 500000 payouts
    ≡ record { unpaid_pre = 0; unpaid_post = 2033300; unpaid_ship = 300000 }
unfolding consume_prior_payouts consume_loop consume_payout has_snapshot to_satang from_satang
prior_run = refl

consume_prior_payouts_lem_example :
    let left = consume_prior_payouts 1000000 3333300 500000 payouts in
    let product = sum_by paid_product payouts in
    (left.unpaid_pre ≡ from_satang (to_satang 1000000 - product))
    × (left.unpaid_post ≡ from_satang (to_satang 3333300 - (product - to_satang 1000000)))
    × (left.unpaid_ship ≡ from_satang (to_satang 500000 - sum_by paid_shipping payouts))
consume_prior_payouts_lem_example = consume_prior_payouts_lem 1000000 3333300 500000 payouts

abbrev orders : List OrderShare
orders =
    record { product = 500000; shipping = 500000 }
    ∷ record { product = 700000; shipping = 400000 }
    ∷ []

shipping_run : unpaid_shipping_for_remaining_product orders 700000 ≡ 400000
unfolding unpaid_shipping_for_remaining_product uncovered_shipping lifetime_product to_satang
    from_satang
shipping_run = refl

unpaid_shipping_lem_example :
    unpaid_shipping_for_remaining_product orders 700000
    ≡ from_satang (shipping_beyond (lifetime_product orders - to_satang 700000) 0 orders)
unpaid_shipping_lem_example = unpaid_shipping_lem orders 700000
