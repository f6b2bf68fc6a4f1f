-- ===== src/Payouts/Owed.antt =====
-- modules/payouts/payouts.service.ts: what a store is owed on each settlement rail.
use new_sopet_backend.Prelude.{ℕ, ◌+◌, Bool, ◌&&◌, List, map, ◌==◌, keep, sum_by}
use new_sopet_backend.Prelude.Int.{ℤ, pos, negsuc}
use new_sopet_backend.Commission.{
  UnpaidBuckets, PriorPayout, Breakdown, effective_rate, consume_prior_payouts,
  unpaid_shipping_for_remaining_product, finalize_breakdown,
}
use new_sopet_backend.Payouts.{
  Payout, PayoutSettlementRail, Sales, Settings, Store, is_paid_out_status, is_pending_payout,
  is_rail,
}
use new_sopet_backend.Payouts.Sold.{calculate_eligible_product_buckets, list_eligible_order_slices}

abbrev pub is_prior : ℕ → PayoutSettlementRail → Payout → Bool
is_prior store_id rail p =
    p.store_id == store_id && is_rail p.settlement_rail rail && is_paid_out_status p.status

-- The rows are in the order of their creation.
unfoldable pub load_prior_payouts_for_consume :
    ℕ → PayoutSettlementRail → List Payout → List PriorPayout
load_prior_payouts_for_consume store_id rail ps =
    map
      (λ (p : Payout). record {
        amount = p.amount;
        product_sold = p.product_sold;
        shipping_fees = p.shipping_fees;
        commission_amount = p.commission_amount;
        commission_rate = p.commission_rate;
      })
      (keep (is_prior store_id rail) ps)

-- The buckets that are still unpaid.
unfoldable pub unpaid_buckets :
    Settings → ℕ → PayoutSettlementRail → Sales → List Payout → UnpaidBuckets
unpaid_buckets c store_id rail sales ps =
    let (pre_product, post_product) = calculate_eligible_product_buckets c store_id rail sales in
    let left =
      consume_prior_payouts pre_product post_product 0
        (load_prior_payouts_for_consume store_id rail ps) in
    record left {
      unpaid_ship =
          unpaid_shipping_for_remaining_product (list_eligible_order_slices store_id rail sales)
            (left.unpaid_pre + left.unpaid_post);
    }

unfoldable pub compute_unpaid_breakdown :
    Settings → Store → PayoutSettlementRail → Sales → List Payout → Breakdown
compute_unpaid_breakdown c store rail sales ps =
    finalize_breakdown (unpaid_buckets c store.id rail sales ps)
      (effective_rate store.commission_rate c.default_rate_percent)

-- `Math.max(0, net)`
abbrev pub at_least_zero : ℤ → ℕ
at_least_zero (pos n) = n
at_least_zero (negsuc n) = 0

abbrev pub available_balance : Settings → Store → PayoutSettlementRail → Sales → List Payout → ℕ
available_balance c store rail sales ps =
    at_least_zero (compute_unpaid_breakdown c store rail sales ps).net

unfoldable pub calculate_pending_payout_amount : ℕ → PayoutSettlementRail → List Payout → ℕ
calculate_pending_payout_amount store_id rail ps =
    sum_by (λ (p : Payout). p.amount) (keep (is_pending_payout store_id rail) ps)

unfoldable pub calculate_total_paid_out : ℕ → PayoutSettlementRail → List Payout → ℕ
calculate_total_paid_out store_id rail ps =
    sum_by (λ (p : Payout). p.amount) (keep (is_prior store_id rail) ps)
