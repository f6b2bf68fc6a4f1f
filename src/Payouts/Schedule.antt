-- ===== src/Payouts/Schedule.antt =====
-- modules/payouts/payouts.service.ts and payout-scheduler.service.ts: the summary of a store's rails, and
-- the payouts that the scheduler makes by it. What the calendar says of the moment is a parameter.
use new_sopet_backend.Prelude.{
  ℕ, ◌+◌, Bool, true, false, not, ◌&&◌, ◌||◌, none, some, List, [], ◌∷◌, ◌==◌, leb, ltb,
  if◌then◌else◌, any,
}
use new_sopet_backend.Commission.{Breakdown}
use new_sopet_backend.Payouts.{
  PayoutSettlementRail, omise, manual, Payout, PayoutSchedule, daily, weekly, biweekly, monthly,
  by_hand, Store, Sales, Settings,
}
use new_sopet_backend.Payouts.Sold.{calculate_eligible_product_buckets}
use new_sopet_backend.Payouts.Owed.{
  compute_unpaid_breakdown, at_least_zero, calculate_pending_payout_amount,
  calculate_total_paid_out,
}
use new_sopet_backend.Payouts.Requests.{is_orphan, create_omise_payout}
use new_sopet_backend.Payouts.Insert.{Omise, PayoutTables, find_store}

pub record RailSummary : Type 0 where
  pub gross_revenue : ℕ
  pub total_paid_out : ℕ
  pub available_balance : ℕ
  pub breakdown : Breakdown
  pub pending_payout_amount : ℕ
  pub can_request_payout : Bool

abbrev pub gross : ℕ × ℕ → ℕ
gross (pre_product, post_product) = pre_product + post_product

unfoldable pub build_rail_summary :
    Settings → Store → PayoutSettlementRail → Sales → List Payout → RailSummary
build_rail_summary c store rail sales ps =
    let unpaid = compute_unpaid_breakdown c store rail sales ps in
    let pending_amount = calculate_pending_payout_amount store.id rail ps in
    let balance = at_least_zero unpaid.net in
    let free = not (ltb 0 pending_amount) && (leb c.min_payout_amount balance && ltb 0 balance) in
    record {
      gross_revenue = gross (calculate_eligible_product_buckets c store.id rail sales);
      total_paid_out = calculate_total_paid_out store.id rail ps;
      available_balance = balance;
      breakdown = unpaid;
      pending_payout_amount = pending_amount;
      can_request_payout = elim rail [
        | omise ↦ any (is_orphan store.id) ps || free
        | manual ↦ free
      ];
    }

-- `getPayoutSummary`, of a store that there is.
abbrev pub get_payout_summary : Settings → Store → Sales → List Payout → RailSummary × RailSummary
get_payout_summary c store sales ps =
    (build_rail_summary c store omise sales ps, build_rail_summary c store manual sales ps)

-- `now.getDay()` and `now.getDate()`
pub record Today : Type 0 where
  pub day : ℕ
  pub date : ℕ

unfoldable pub is_due : PayoutSchedule → Today → Bool
is_due daily now = true
is_due weekly now = now.day == 1
is_due biweekly now = now.date == 1 || now.date == 15
is_due monthly now = now.date == 1
is_due by_hand now = false

abbrev pub is_scheduled : Today → Store → Bool
is_scheduled now s = s.is_approved && not s.payout_schedule_paused && is_due s.payout_schedule now

-- The two `continue` of the loop by the summary.
unfoldable pub is_payable : Settings → RailSummary → Bool
is_payable c summary =
    not (ltb summary.available_balance c.min_payout_amount)
    && not (ltb 0 summary.pending_payout_amount)

-- One round of the loop; an exception of it is logged.
unfoldable pub run_scheduled_one :
    Settings → Sales → Omise → Today → Store → PayoutTables → PayoutTables
run_scheduled_one c sales g now s t =
    if not (is_scheduled now s) then t else elim (find_store s.id t) [
      | none ↦ t
      | some store ↦
          let summary = (get_payout_summary c store sales t.payouts).0 in
          if is_payable c summary
          then (create_omise_payout c sales g s.id summary.available_balance t).0
          else t
    ]

unfoldable pub run_scheduled_loop :
    Settings → Sales → Omise → Today → List Store → PayoutTables → PayoutTables
run_scheduled_loop c sales g now [] t = t
run_scheduled_loop c sales g now (s ∷ ss) t =
    run_scheduled_loop c sales g now ss (run_scheduled_one c sales g now s t)

unfoldable pub run_scheduled_payouts :
    Settings → Sales → Omise → Today → PayoutTables → PayoutTables
run_scheduled_payouts c sales g now t = run_scheduled_loop c sales g now t.stores t
