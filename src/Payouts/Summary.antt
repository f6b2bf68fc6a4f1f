-- ===== src/Payouts/Summary.antt =====
-- `canRequestPayout` of modules/payouts/payouts.service.ts beside the manual request that it announces.
use new_sopet_backend.Prelude.{
  ℕ, suc, ◌+◌, ◌≡◌, ◌≤◌, refl, ap, sym, ◌∙◌, true, false, inl, inr, none, some, List, [], ◌∷◌, ◌++◌,
  arith, ltb, any, keep, sum_by, All, Bool-cases, Option-cases,
}
use new_sopet_backend.Prelude.Result.{ok, err}
use new_sopet_backend.Commission.{to_satang, from_satang}
use new_sopet_backend.Commission.Rate.{to_satang-from_satang}
use new_sopet_backend.Payouts.{
  PayoutSettlementRail, manual, Payout, Store, Sales, Settings, is_pending_payout,
}
use new_sopet_backend.Payouts.Owed.{available_balance, calculate_pending_payout_amount}
use new_sopet_backend.Payouts.Insert.{PayoutError, PayoutTables, find_store, rate_of}
use new_sopet_backend.Payouts.Requests.{refuse_request, request_manual_payout}
use new_sopet_backend.Payouts.Schedule.{build_rail_summary}
use new_sopet_backend.Payouts.Amount.{IsPaid, available_balance-payable, create_pending-succeeds}

-- No open payout of nothing, so that a pending amount of 0 means that none is open.
abbrev pub AllPositive : List Payout → Type 0
AllPositive = All (λ (p : Payout). 1 ≤ p.amount)

none_pending :
    (id : ℕ) (rail : PayoutSettlementRail) (ps : List Payout)
    → AllPositive ps
    → ltb 0 (calculate_pending_payout_amount id rail ps) ≡ false
    → any (is_pending_payout id rail) ps ≡ false
unfolding calculate_pending_payout_amount
none_pending id rail [] all h = refl
none_pending id rail (p ∷ ps) (one, all) h = elim (Bool-cases (is_pending_payout id rail p)) [
  | inl this ↦
      let some_amount : sum_by (λ (q : Payout). q.amount)
            (keep (is_pending_payout id rail) (p ∷ ps))
          ≡ p.amount + sum_by (λ (q : Payout). q.amount) (keep (is_pending_payout id rail) ps) =
        rw this refl in
      absurd (ground (arith, some_amount, one))
  | inr next ↦
      let same : sum_by (λ (q : Payout). q.amount) (keep (is_pending_payout id rail) (p ∷ ps))
          ≡ sum_by (λ (q : Payout). q.amount) (keep (is_pending_payout id rail) ps) =
        rw next refl in
      rw next (none_pending id rail ps all (ap (ltb 0) (sym same) ∙ h))
]

clash : true ≡ false → ⊥
clash h = cc

whole_balance :
    (balance k : ℕ) → balance ≡ from_satang k → from_satang (to_satang balance) ≡ balance
whole_balance balance k e =
    ap (λ b. from_satang (to_satang b)) e ∙ (ap from_satang (to_satang-from_satang k) ∙ sym e)

module _ (c : Settings) (s : Store) (sales : Sales) (ps : List Payout) where
  -- What the flag says of the checks of the request.
  can_request :
      (build_rail_summary c s manual sales ps).can_request_payout ≡ true
      → (refuse_request c sales s manual ps ≡ none)
        × (ltb 0 (calculate_pending_payout_amount s.id manual ps) ≡ false)
        × (ltb 0 (available_balance c s manual sales ps) ≡ true)
  unfolding build_rail_summary refuse_request
  can_request h = (ground arith, ground arith, ground arith)

  cannot_request :
      (build_rail_summary c s manual sales ps).can_request_payout ≡ false
      → (e : PayoutError) × (refuse_request c sales s manual ps ≡ some e)
  unfolding build_rail_summary refuse_request
  cannot_request h = elim (Option-cases (refuse_request c sales s manual ps)) [
    | inr refused ↦ refused
    | inl passes ↦
        let yes : (build_rail_summary c s manual sales ps).can_request_payout ≡ true =
          ground arith in
        absurd (clash (sym yes ∙ h))
  ]

-- For a store that there is, at a rate below half, and with no payout of nothing: where the summary says that
-- a manual payout can be requested, the request makes a new pending payout of the whole balance that the
-- summary shows; where it says that none can, the request fails and changes nothing.
pub request_manual_payout-can_request :
    (c : Settings) (sales : Sales) (store_id : ℕ) (s : Store) (t : PayoutTables)
    → find_store store_id t ≡ some s
    → rate_of c s ≤ 49
    → AllPositive t.payouts
    → let summary = build_rail_summary c s manual sales t.payouts in
      (summary.can_request_payout ≡ true
        → (p : Payout) × (request_manual_payout c sales store_id t
            ≡ (record t { payouts = t.payouts ++ p ∷ []; next_id = suc t.next_id }, ok p))
          × (p.amount ≡ summary.available_balance)
          × IsPaid t.next_id s manual summary.available_balance summary.available_balance p)
      × (summary.can_request_payout ≡ false
          → (e : PayoutError) × (request_manual_payout c sales store_id t ≡ (t, err e)))
unfolding build_rail_summary request_manual_payout
request_manual_payout-can_request c sales store_id s t known low all = (
  λ yes.
      let (passes, idle, some_balance) = can_request c s sales t.payouts yes in
      let free = none_pending s.id manual t.payouts all idle in
      let (p, made, paid) =
        create_pending-succeeds c sales t.next_id s manual none t.payouts low free some_balance
          (omega arith) in
      (
        p,
        rw (request_manual_payout, known, passes, made) refl,
        paid.amount
            ∙ whole_balance (available_balance c s manual sales t.payouts) _
                (available_balance-payable c s manual sales t.payouts (omega (arith, low))),
        paid,
      ),
  λ no_way.
      let (e, fails) = cannot_request c s sales t.payouts no_way in
      (e, rw (request_manual_payout, known, fails) refl),
)
