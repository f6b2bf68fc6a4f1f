-- ===== src/Commission.antt =====
-- modules/payouts/payout-commission.calculator.ts: the commission arithmetic of vendor payouts.
-- A baht amount is a number of 1/10000 baht, so that the rounding of `toSatang` is visible.
pub mod Rate
pub mod Bisect
pub mod Payable
pub mod Prior
pub mod Shipping
mod Tests
use new_sopet_backend.Prelude.{
  ℕ, zero, suc, ◌+◌, ◌-◌, ◌*◌, ◌/◌, min, Bool, Option, none, some, List, [], ◌∷◌, leb, ltb,
  if◌then◌else◌,
}
use new_sopet_backend.Prelude.Int.{ℤ, pos, negsuc, sub_ℕ}

pub record UnpaidBuckets : Type 0 where
  pub unpaid_pre : ℕ
  pub unpaid_post : ℕ
  pub unpaid_ship : ℕ

pub record PriorPayout : Type 0 where
  pub amount : ℕ
  pub product_sold : Option ℕ
  pub shipping_fees : Option ℕ
  pub commission_amount : Option ℕ
  pub commission_rate : Option ℕ

pub record Breakdown : Type 0 where
  pub product_sold : ℕ
  pub shipping_fees : ℕ
  pub commission_amount : ℕ
  pub commission_rate : ℕ
  pub net : ℤ

unfoldable pub effective_rate : Option ℕ → ℕ → ℕ
effective_rate none default = default
effective_rate (some stored) default = stored

-- `Math.floor((postProductSatang * ratePercent + 50) / 100)`
unfoldable pub commission_satang : ℕ → ℕ → ℕ
commission_satang post rate = (post * rate + 50) / 100

-- `Math.floor(thb * 100 + 0.5)`
unfoldable pub to_satang : ℕ → ℕ
to_satang thb = (thb + 50) / 100

unfoldable pub from_satang : ℕ → ℕ
from_satang satang = satang * 100

-- `fromSatang` of a difference, which may be negative.
unfoldable pub from_satang_ℤ : ℤ → ℤ
from_satang_ℤ (pos n) = pos (n * 100)
from_satang_ℤ (negsuc n) = negsuc (n * 100 + 99)

-- The type guard `hasSnapshot`: the two fields that its caller goes on to read.
has_snapshot_of : Option ℕ → Option ℕ → Option ℕ → Option ℕ → Option (ℕ × ℕ)
has_snapshot_of (some sold) (some fees) (some commission) (some rate) = some (sold, fees)
has_snapshot_of _ _ _ _ = none

unfoldable pub has_snapshot : PriorPayout → Option (ℕ × ℕ)
unfolding has_snapshot_of
has_snapshot p =
    has_snapshot_of p.product_sold p.shipping_fees p.commission_amount p.commission_rate

-- The two branches of the loop body, on the buckets in satang.
take_product : ℕ → UnpaidBuckets → UnpaidBuckets
take_product take b =
    let from_pre = min b.unpaid_pre take in
    record b {
      unpaid_pre = b.unpaid_pre - from_pre;
      unpaid_post = b.unpaid_post - min b.unpaid_post (take - from_pre);
    }

take_shipping : ℕ → UnpaidBuckets → UnpaidBuckets
take_shipping take b = record b { unpaid_ship = b.unpaid_ship - min b.unpaid_ship take }

unfoldable pub consume_payout : UnpaidBuckets → PriorPayout → UnpaidBuckets
unfolding take_product take_shipping
consume_payout b p = elim (has_snapshot p) [
  | some (sold, fees) ↦ take_shipping (to_satang fees) (take_product (to_satang sold) b)
  | none ↦ take_product (to_satang p.amount) b
]

unfoldable pub consume_loop : UnpaidBuckets → List PriorPayout → UnpaidBuckets
consume_loop b [] = b
consume_loop b (p ∷ ps) = consume_loop (consume_payout b p) ps

-- `pre`, `post` and `ship` are the fields of the parameter `buckets`.
unfoldable pub consume_prior_payouts : ℕ → ℕ → ℕ → List PriorPayout → UnpaidBuckets
consume_prior_payouts pre post ship payouts =
    let start : UnpaidBuckets = record {
      unpaid_pre = to_satang pre;
      unpaid_post = to_satang post;
      unpaid_ship = to_satang ship;
    } in
    let left = consume_loop start payouts in
    record {
      unpaid_pre = from_satang left.unpaid_pre;
      unpaid_post = from_satang left.unpaid_post;
      unpaid_ship = from_satang left.unpaid_ship;
    }

pub record OrderShare : Type 0 where
  pub product : ℕ
  pub shipping : ℕ

unfoldable pub lifetime_product : List OrderShare → ℕ
lifetime_product [] = 0
lifetime_product (o ∷ os) = to_satang o.product + lifetime_product os

-- The loop over the orders, with its variables `cover` and `ship`.
unfoldable pub uncovered_shipping : List OrderShare → ℕ → ℕ → ℕ
uncovered_shipping [] cover ship = ship
uncovered_shipping (o ∷ os) cover ship =
    let covered = leb (to_satang o.product) cover in
    uncovered_shipping os (if covered then cover - to_satang o.product else 0)
      (if covered then ship else ship + to_satang o.shipping)

-- Truncated `-` is `Math.max(0, …)`.
unfoldable pub unpaid_shipping_for_remaining_product : List OrderShare → ℕ → ℕ
unpaid_shipping_for_remaining_product orders unpaid_product =
    from_satang (uncovered_shipping orders (lifetime_product orders - to_satang unpaid_product) 0)

-- What `finalizeBreakdown` and `consumeToAmount` return.
unfoldable pub breakdown : ℕ → ℕ → ℕ → ℕ → Breakdown
breakdown pre post ship rate =
    let commission = commission_satang post rate in
    record {
      product_sold = from_satang (pre + post);
      shipping_fees = from_satang ship;
      commission_amount = from_satang commission;
      commission_rate = rate;
      net = from_satang_ℤ (sub_ℕ (pre + post + ship) commission);
    }

unfoldable pub finalize_breakdown : UnpaidBuckets → ℕ → Breakdown
finalize_breakdown unpaid rate =
    breakdown (to_satang unpaid.unpaid_pre) (to_satang unpaid.unpaid_post)
      (to_satang unpaid.unpaid_ship) rate

-- `mid - commissionSatang(mid, rate) <= remaining`, also where the difference is negative.
unfoldable pub net_fits : ℕ → ℕ → ℕ → Bool
net_fits rate remaining mid = leb mid (remaining + commission_satang mid rate)

-- The bisection on fuel. `top` is `hi + 1`, since `hi = mid - 1` may fall to -1.
unfoldable pub bisect : ℕ → ℕ → ℕ → ℕ → ℕ → ℕ → ℕ
bisect zero rate remaining lo top best = best
bisect (suc fuel) rate remaining lo top best =
    let mid = (lo + (top - 1)) / 2 in
    let fits = net_fits rate remaining mid in
    let next =
      bisect fuel rate remaining (if fits then mid + 1 else lo) (if fits then top else mid)
        (if fits then mid else best) in
    if ltb lo top then next else best

-- Each round shrinks the interval `lo … top`, so its first length is enough fuel.
unfoldable pub largest_post_product : ℕ → ℕ → ℕ → ℕ
largest_post_product unpaid_post remaining rate =
    bisect (unpaid_post + 2) rate remaining 0 (unpaid_post + 1) 0

-- The post-commission bucket of `consumeToAmount`: what is taken, and what then remains.
unfoldable pub take_post_net : ℕ → ℕ → ℕ → ℕ × ℕ
take_post_net unpaid_post remaining rate =
    if leb unpaid_post (remaining + commission_satang unpaid_post rate)
    then (unpaid_post, remaining + commission_satang unpaid_post rate - unpaid_post)
    else (let take = largest_post_product unpaid_post remaining rate in
        (take, remaining + commission_satang take rate - take))

unfoldable pub consume_to_amount : UnpaidBuckets → ℕ → ℕ → Breakdown
consume_to_amount unpaid amount rate =
    let unpaid_pre = to_satang unpaid.unpaid_pre in
    let unpaid_post = to_satang unpaid.unpaid_post in
    let unpaid_ship = to_satang unpaid.unpaid_ship in
    let take_pre = min unpaid_pre (to_satang amount) in
    let (take_post, rest) = take_post_net unpaid_post (to_satang amount - take_pre) rate in
    let take_ship = min unpaid_ship rest in
    let rest' = rest - take_ship in
    let absorb_ship = min (unpaid_ship - take_ship) rest' in
    let absorb_pre = min (unpaid_pre - take_pre) (rest' - absorb_ship) in
    breakdown (take_pre + absorb_pre) take_post (take_ship + absorb_ship) rate
