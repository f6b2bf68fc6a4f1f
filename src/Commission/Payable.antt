-- ===== src/Commission/Payable.antt =====
-- `consumeToAmount` pays out exactly the amount asked for, up to what the buckets net.
use native.Mathlib.Decide.{dec_le}
use new_sopet_backend.Prelude.{
  ℕ, ◌+◌, ◌-◌, ◌≤◌, ◌<◌, ◌≡◌, ap, inl, inr, min, Bool-cases, leb, leb→lt, arith,
}
use new_sopet_backend.Prelude.Int.{pos}
use new_sopet_backend.Commission.{
  UnpaidBuckets, commission_satang, to_satang, from_satang, from_satang_ℤ, breakdown,
  finalize_breakdown, largest_post_product, take_post_net, consume_to_amount,
}
use new_sopet_backend.Commission.Rate.{commission-le, commission_mono, commission_le_of_le}
use new_sopet_backend.Commission.Bisect.{IsLargest, largest_post_product-IsLargest}

-- What is left to pay of the buckets, in satang, after the commission.
abbrev pub payable : UnpaidBuckets → ℕ → ℕ
payable unpaid rate =
    to_satang unpaid.unpaid_pre
    + (to_satang unpaid.unpaid_post - commission_satang (to_satang unpaid.unpaid_post) rate)
    + to_satang unpaid.unpaid_ship

absorb_ship-zero : (ship rest : ℕ) → min (ship - min ship rest) (rest - min ship rest) ≡ 0
absorb_ship-zero ship rest = omega arith

absorb_pre-zero :
    (pre net amount rest x : ℕ)
    → rest ≡ amount - min pre amount - net
    → x ≤ rest
    → min (pre - min pre amount) x ≡ 0
absorb_pre-zero pre net amount rest x r h = omega arith

poured :
    (pre ship net amount got rest : ℕ)
    → got ≡ min (amount - min pre amount) net
    → rest ≡ amount - min pre amount - net
    → min pre amount + 0 + got + (min ship rest + 0) ≡ min amount (pre + net + ship)
poured pre ship net amount got rest g r = omega arith

-- The amount runs through the buckets in turn, and what is absorbed at the end is nothing.
waterfall :
    (pre ship net amount got rest : ℕ)
    → got ≡ min (amount - min pre amount) net
    → rest ≡ amount - min pre amount - net
    → let take_ship = min ship rest in
      let absorb_ship = min (ship - take_ship) (rest - take_ship) in
      let absorb_pre = min (pre - min pre amount) (rest - take_ship - absorb_ship) in
      min pre amount + absorb_pre + got + (take_ship + absorb_ship) ≡ min amount (pre + net + ship)
waterfall pre ship net amount got rest g r =
    rw
      (
        absorb_ship-zero ship rest,
        absorb_pre-zero pre net amount rest (rest - min ship rest - 0) r (omega arith),
      )
      (poured pre ship net amount got rest g r)

waterfall_whole :
    (pre ship net amount rest : ℕ)
    → rest ≡ amount - min pre amount - net
    → pre + net + ship ≤ amount
    → let take_ship = min ship rest in
      let absorb_ship = min (ship - take_ship) (rest - take_ship) in
      let absorb_pre = min (pre - min pre amount) (rest - take_ship - absorb_ship) in
      (min pre amount + absorb_pre ≡ pre) × (take_ship + absorb_ship ≡ ship)
waterfall_whole pre ship net amount rest r h = (omega arith, omega arith)

module _ (rate : ℕ) (rate_le : rate ≤ 100) where
  net-breakdown :
      (pre post ship : ℕ)
      → (breakdown pre post ship rate).net
        ≡ pos (from_satang (pre + (post - commission_satang post rate) + ship))
  unfolding breakdown from_satang from_satang_ℤ
  net-breakdown pre post ship = ground (arith, commission-le post rate rate_le)

  pub finalize_breakdown-net :
      (unpaid : UnpaidBuckets)
      → (finalize_breakdown unpaid rate).net ≡ pos (from_satang (payable unpaid rate))
  unfolding finalize_breakdown
  finalize_breakdown-net unpaid =
      net-breakdown (to_satang unpaid.unpaid_pre) (to_satang unpaid.unpaid_post)
        (to_satang unpaid.unpaid_ship)

  module _ (post remaining : ℕ) (short : remaining + commission_satang post rate < post) where
    below_post : (take : ℕ) → IsLargest rate remaining post take → take < post
    below_post take l = elim (dec_le post take) [
      | no n ↦ omega arith
      | yes p ↦
          let e : take ≡ post = omega (arith, l.within) in
          let f : post ≤ remaining + commission_satang post rate = rw e at l.fits in
          absurd (omega arith)
    ]

    -- Some amount nets exactly `remaining`, and the bisection finds one.
    largest_post_product-net :
        let take = largest_post_product post remaining rate in
        (take - commission_satang take rate ≡ remaining) × (take ≤ post)
    largest_post_product-net =
        let take : ℕ = largest_post_product post remaining rate in
        let l : IsLargest rate remaining post take =
          largest_post_product-IsLargest rate remaining rate_le post in
        let next : remaining + commission_satang (take + 1) rate < take + 1 =
          l.last (take + 1) (omega arith) (omega (arith, below_post take l)) in
        (
          omega (arith, l.fits, next, commission_mono take 1 rate, commission-le take rate rate_le),
          l.within,
        )

  -- The post-commission bucket gives its share of `remaining`, and the rest goes on.
  take_post_net_lem :
      (post remaining : ℕ)
      → let (take, rest) = take_post_net post remaining rate in
        (take - commission_satang take rate ≡ min remaining (post - commission_satang post rate))
        × (rest ≡ remaining - (post - commission_satang post rate))
        × (take ≤ post)
        × (post - commission_satang post rate ≤ remaining → take ≡ post)
  unfolding take_post_net
  take_post_net_lem post remaining =
      elim (Bool-cases (leb post (remaining + commission_satang post rate))) [
        | inl all ↦ rw all (ground (arith, commission-le post rate rate_le))
        | inr part ↦ rw part (
            let (net, within) = largest_post_product-net post remaining (leb→lt _ _ part) in
            let take : ℕ = largest_post_product post remaining rate in
            let more : remaining < post - commission_satang post rate =
              omega (arith, leb→lt _ _ part, commission-le post rate rate_le) in
            let rest : remaining + commission_satang take rate - take
                ≡ remaining - (post - commission_satang post rate) =
              omega (arith, net, commission-le take rate rate_le) in
            (omega arith, rest, within, λ h. absurd (omega arith)))
      ]

  module _ (unpaid : UnpaidBuckets) (amount : ℕ) where
    -- Paying out of the buckets nets the amount asked for, or all that they hold if that is less.
    -- Rates are whole percentages up to 100.
    pub consume_to_amount-net :
        (consume_to_amount unpaid amount rate).net
        ≡ pos (from_satang (min (to_satang amount) (payable unpaid rate)))
    unfolding consume_to_amount
    consume_to_amount-net =
        let pre : ℕ = to_satang unpaid.unpaid_pre in
        let post : ℕ = to_satang unpaid.unpaid_post in
        let (got, rest, _, _) =
          take_post_net_lem post (to_satang amount - min pre (to_satang amount)) in
        rw net-breakdown (
          ap (λ n. pos (from_satang n))
            (waterfall pre (to_satang unpaid.unpaid_ship) (post - commission_satang post rate)
              (to_satang amount) _ _ got rest))

    -- An amount of all that is payable, or more, takes every bucket whole: the payout is the one
    -- that `finalizeBreakdown` shows.
    pub consume_to_amount-eq-finalize_breakdown :
        payable unpaid rate ≤ to_satang amount
        → consume_to_amount unpaid amount rate ≡ finalize_breakdown unpaid rate
    unfolding consume_to_amount finalize_breakdown
    consume_to_amount-eq-finalize_breakdown h =
        let pre : ℕ = to_satang unpaid.unpaid_pre in
        let post : ℕ = to_satang unpaid.unpaid_post in
        let (got, rest, _, all) =
          take_post_net_lem post (to_satang amount - min pre (to_satang amount)) in
        let whole =
          waterfall_whole pre (to_satang unpaid.unpaid_ship) (post - commission_satang post rate)
            (to_satang amount) _ rest h in
        rw (all (omega arith), whole.0, whole.1)

    -- A payout sells no product and pays no shipping beyond the buckets, and charges the commission
    -- of at most the post-commission product.
    pub consume_to_amount-within :
        let paid = consume_to_amount unpaid amount rate in
        (paid.product_sold ≤ (finalize_breakdown unpaid rate).product_sold)
        × (paid.shipping_fees ≤ (finalize_breakdown unpaid rate).shipping_fees)
        × (paid.commission_amount ≤ (finalize_breakdown unpaid rate).commission_amount)
    unfolding consume_to_amount finalize_breakdown breakdown from_satang
    consume_to_amount-within =
        let pre : ℕ = to_satang unpaid.unpaid_pre in
        let post : ℕ = to_satang unpaid.unpaid_post in
        let (_, _, within, _) =
          take_post_net_lem post (to_satang amount - min pre (to_satang amount)) in
        (omega arith, omega arith, omega (arith, commission_le_of_le _ post rate within))
