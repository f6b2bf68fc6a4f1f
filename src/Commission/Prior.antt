-- ===== src/Commission/Prior.antt =====
-- What `consumePriorPayouts` leaves of the buckets, in closed form.
use new_sopet_backend.Prelude.{
  ℕ, ◌+◌, ◌-◌, ◌≡◌, ap, none, some, List, [], ◌∷◌, arith, inl, inr, Option-cases, sum_by,
}
use new_sopet_backend.Commission.{
  UnpaidBuckets, PriorPayout, to_satang, from_satang, has_snapshot, consume_payout, consume_loop,
  consume_prior_payouts,
}

-- The product and the shipping that a payout has paid, in satang.
unfoldable pub paid_product : PriorPayout → ℕ
paid_product p = elim (has_snapshot p) [
  | some (sold, _) ↦ to_satang sold
  | none ↦ to_satang p.amount
]

unfoldable pub paid_shipping : PriorPayout → ℕ
paid_shipping p = elim (has_snapshot p) [ some (_, fees) ↦ to_satang fees | none ↦ 0 ]

-- The buckets `b` after `product` and `shipping` are taken, the oldest product first.
record Taken (b : UnpaidBuckets) (product shipping : ℕ) (left : UnpaidBuckets) : Type 0 where
  pre : left.unpaid_pre ≡ b.unpaid_pre - product
  post : left.unpaid_post ≡ b.unpaid_post - (product - b.unpaid_pre)
  ship : left.unpaid_ship ≡ b.unpaid_ship - shipping

consume_payout-Taken :
    (b : UnpaidBuckets) (p : PriorPayout)
    → Taken b (paid_product p) (paid_shipping p) (consume_payout b p)
unfolding consume_payout paid_product paid_shipping
consume_payout-Taken b p = elim (Option-cases (has_snapshot p)) [
  | inl plain ↦
      rw (plain, consume_payout, paid_product, paid_shipping)
        (record { pre = omega arith; post = omega arith; ship = omega arith })
  | inr (_, snapshot) ↦
      rw (snapshot, consume_payout, paid_product, paid_shipping)
        (record { pre = omega arith; post = omega arith; ship = omega arith })
]

Taken-trans :
    (a b c : UnpaidBuckets) (p s q t : ℕ)
    → Taken a p s b
    → Taken b q t c
    → Taken a (p + q) (s + t) c
Taken-trans a b c p s q t h k = record {
  pre = omega (arith, h.pre, k.pre);
  post = omega (arith, h.pre, h.post, k.post);
  ship = omega (arith, h.ship, k.ship);
}

consume_loop-Taken :
    (b : UnpaidBuckets) (ps : List PriorPayout)
    → Taken b (sum_by paid_product ps) (sum_by paid_shipping ps) (consume_loop b ps)
unfolding consume_loop
consume_loop-Taken b [] = record { pre = omega arith; post = omega arith; ship = omega arith }
consume_loop-Taken b (p ∷ ps) =
    Taken-trans b (consume_payout b p) (consume_loop (consume_payout b p) ps) (paid_product p)
      (paid_shipping p) (sum_by paid_product ps) (sum_by paid_shipping ps)
      (consume_payout-Taken b p) (consume_loop-Taken (consume_payout b p) ps)

-- Prior payouts are taken from the product before the commission cutoff first, then from the
-- product after it; shipping only from shipping. Each bucket stops at zero.
pub consume_prior_payouts_lem :
    (pre post ship : ℕ) (payouts : List PriorPayout)
    → let left = consume_prior_payouts pre post ship payouts in
      let product = sum_by paid_product payouts in
      (left.unpaid_pre ≡ from_satang (to_satang pre - product))
      × (left.unpaid_post ≡ from_satang (to_satang post - (product - to_satang pre)))
      × (left.unpaid_ship ≡ from_satang (to_satang ship - sum_by paid_shipping payouts))
unfolding consume_prior_payouts
consume_prior_payouts_lem pre post ship payouts =
    let start : UnpaidBuckets = record {
      unpaid_pre = to_satang pre;
      unpaid_post = to_satang post;
      unpaid_ship = to_satang ship;
    } in
    let t : Taken start (sum_by paid_product payouts) (sum_by paid_shipping payouts)
        (consume_loop start payouts) =
      consume_loop-Taken start payouts in
    (ap from_satang t.pre, ap from_satang t.post, ap from_satang t.ship)
