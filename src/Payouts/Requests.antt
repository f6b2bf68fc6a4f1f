-- ===== src/Payouts/Requests.antt =====
-- modules/payouts/payouts.service.ts: the requests of a store or an admin for a payout, and its transfer.
use new_sopet_backend.Prelude.{
  ℕ, suc, Bool, true, false, not, ◌&&◌, Option, none, some, List, [], ◌∷◌, ◌++◌, ◌==◌, ltb,
  if◌then◌else◌, find,
}
use new_sopet_backend.Prelude.Result.{Result, ok, err, ◌>>◌, throw_if}
use new_sopet_backend.Commission.{to_satang}
use new_sopet_backend.Payouts.{
  PayoutStatus, pending, processing, completed, PayoutSettlementRail, omise, manual, Payout, Store,
  Sales, Settings, is_rail,
}
use new_sopet_backend.Payouts.Owed.{available_balance, calculate_pending_payout_amount}
use new_sopet_backend.Payouts.Insert.{
  Answer, Omise, OmiseTransfer, PayoutError, PayoutTables, create_pending, find_store,
  insufficient_balance, invalid_payout_amount, omise_not_configured, omise_recipient_not_connected,
  omise_recipient_not_ready, omise_transfer_failed, or_all, payout_already_pending,
  payout_below_minimum, save_payout, save_store, store_not_found,
}

unfoldable pub refresh_store_recipient_status : Omise → Store → Store
refresh_store_recipient_status g s = elim s.omise_recipient_id [
  | none ↦ s
  | some r ↦ if not g.has_credentials then s else elim (g.get_recipient r) [
    | none ↦ s
    | some is_active ↦ record s { is_recipient_active = is_active }
  ]
]

unfoldable pub assert_recipient_ready_for_transfer : Store → Result PayoutError ℕ
assert_recipient_ready_for_transfer s = elim s.omise_recipient_id [
  | none ↦ err omise_recipient_not_connected
  | some r ↦ do throw_if (not s.is_recipient_active) omise_recipient_not_ready; ok r
]

-- The payout as `applyOmiseTransfer` leaves it, `none` where it throws.
unfoldable pub after_transfer : Payout → Option OmiseTransfer → Option Payout
after_transfer p none = none
after_transfer p (some transfer) = some (record p {
  transfer_reference = some transfer.id;
  status = if transfer.paid then completed else processing;
})

abbrev pub apply_omise_transfer : Omise → ℕ → Payout → Option Payout
apply_omise_transfer g recipient p =
    after_transfer p (g.create_transfer recipient (to_satang p.net_amount))

-- The new row, and its transfer; where that throws, the row stays pending.
unfoldable pub transfer_new : Omise → Store → Payout → PayoutTables → Answer
transfer_new g s p t =
    let with_row = record t { payouts = t.payouts ++ p ∷ []; next_id = suc t.next_id } in
    if not g.has_credentials
    then (with_row, ok p)
    else elim (assert_recipient_ready_for_transfer s) [
      | err e ↦ (with_row, ok p)
      | ok recipient ↦ elim (apply_omise_transfer g recipient p) [
        | none ↦ (with_row, err omise_transfer_failed)
        | some q ↦ (record t { payouts = t.payouts ++ q ∷ []; next_id = suc t.next_id }, ok q)
      ]
    ]

abbrev pub is_not_ready : Result PayoutError ℕ → Option PayoutError
is_not_ready (ok r) = none
is_not_ready (err e) = some e

unfoldable pub refuse_transfer : Omise → Store → Option PayoutError
refuse_transfer g s =
    if g.has_credentials then is_not_ready (assert_recipient_ready_for_transfer s) else none

unfoldable pub create_for_store : Settings → Sales → Omise → Store → ℕ → PayoutTables → Answer
create_for_store c sales g s amount t = elim (refuse_transfer g s) [
  | some e ↦ (t, err e)
  | none ↦ elim (create_pending c sales t.next_id s omise (some amount) t.payouts) [
    | err e ↦ (t, err e)
    | ok p ↦ transfer_new g s p t
  ]
]

unfoldable pub create_omise_payout : Settings → Sales → Omise → ℕ → ℕ → PayoutTables → Answer
create_omise_payout c sales g store_id amount t = elim (find_store store_id t) [
  | none ↦ (t, err store_not_found)
  | some store ↦
      let s = refresh_store_recipient_status g store in
      create_for_store c sales g s amount (record t { stores = save_store s t.stores })
]

abbrev pub is_null_reference : Payout → Bool
is_null_reference p = elim p.transfer_reference [ none ↦ true | some r ↦ false ]

abbrev pub is_pending_status : PayoutStatus → Bool
is_pending_status pending = true
is_pending_status _ = false

abbrev pub is_orphan : ℕ → Payout → Bool
is_orphan store_id p =
    p.store_id == store_id
    && is_rail p.settlement_rail omise
    && is_pending_status p.status
    && is_null_reference p

-- A claimed orphan, and its transfer; where that throws, it is pending again.
unfoldable pub transfer_orphan : Omise → ℕ → Payout → PayoutTables → Answer
transfer_orphan g recipient p t = elim (apply_omise_transfer g recipient p) [
  | none ↦ (
    record t { payouts = save_payout (record p { status = pending }) t.payouts },
    err omise_transfer_failed,
  )
  | some q ↦ (record t { payouts = save_payout q t.payouts }, ok q)
]

unfoldable pub submit_for_store : Omise → Store → Payout → PayoutTables → Answer
submit_for_store g s p t =
    if not g.has_credentials
    then (t, err omise_not_configured)
    else elim (assert_recipient_ready_for_transfer s) [
      | err e ↦ (t, err e)
      | ok recipient ↦
          let claimed = record p { status = processing } in
          transfer_orphan g recipient claimed (record t { payouts = save_payout claimed t.payouts })
    ]

-- The claim always wins, since no other request runs in between.
unfoldable pub submit_payout_to_omise : Omise → Payout → PayoutTables → Answer
submit_payout_to_omise g p t = elim (find_store p.store_id t) [
  | none ↦ (t, err store_not_found)
  | some store ↦
      let s = refresh_store_recipient_status g store in
      submit_for_store g s p (record t { stores = save_store s t.stores })
]

-- The checks on a summary that `requestPayout` and `requestManualPayout` share.
unfoldable pub refuse_request :
    Settings → Sales → Store → PayoutSettlementRail → List Payout → Option PayoutError
refuse_request c sales s rail ps =
    if ltb 0 (calculate_pending_payout_amount s.id rail ps)
    then some payout_already_pending
    else if available_balance c s rail sales ps == 0
    then some insufficient_balance
    else if ltb (available_balance c s rail sales ps) c.min_payout_amount
    then some payout_below_minimum
    else none

unfoldable pub request_payout : Settings → Sales → Omise → ℕ → PayoutTables → Answer
request_payout c sales g store_id t = elim (find (is_orphan store_id) t.payouts) [
  | some orphan ↦ submit_payout_to_omise g orphan t
  | none ↦ elim (find_store store_id t) [
    | none ↦ (t, err store_not_found)
    | some s ↦ elim (refuse_request c sales s omise t.payouts) [
      | some e ↦ (t, err e)
      | none ↦
          create_omise_payout c sales g store_id (available_balance c s omise sales t.payouts) t
    ]
  ]
]

-- The checks of `triggerPayout`, with the amount and `bypassMinimum`.
unfoldable pub refuse_trigger : Settings → ℕ → ℕ → Bool → Option PayoutError
refuse_trigger c balance amount bypass =
    if amount == 0
    then some invalid_payout_amount
    else if ltb balance amount
    then some insufficient_balance
    else if not bypass && ltb amount c.min_payout_amount
    then some payout_below_minimum
    else none

unfoldable pub trigger_payout :
    Settings → Sales → Omise → ℕ → Option ℕ → Bool → PayoutTables → Answer
trigger_payout c sales g store_id amount bypass t = elim (find (is_orphan store_id) t.payouts) [
  | some orphan ↦ submit_payout_to_omise g orphan t
  | none ↦ elim (find_store store_id t) [
    | none ↦ (t, err store_not_found)
    | some s ↦
        let balance = available_balance c s omise sales t.payouts in
        elim (refuse_trigger c balance (or_all amount balance) bypass) [
          | some e ↦ (t, err e)
          | none ↦ create_omise_payout c sales g store_id (or_all amount balance) t
        ]
  ]
]

unfoldable pub request_manual_payout : Settings → Sales → ℕ → PayoutTables → Answer
request_manual_payout c sales store_id t = elim (find_store store_id t) [
  | none ↦ (t, err store_not_found)
  | some s ↦ elim (refuse_request c sales s manual t.payouts) [
    | some e ↦ (t, err e)
    | none ↦ elim (create_pending c sales t.next_id s manual none t.payouts) [
      | err e ↦ (t, err e)
      | ok p ↦ (record t { payouts = t.payouts ++ p ∷ []; next_id = suc t.next_id }, ok p)
    ]
  ]
]
