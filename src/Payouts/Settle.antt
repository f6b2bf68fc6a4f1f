-- ===== src/Payouts/Settle.antt =====
-- modules/payouts/payouts.service.ts: an admin settles or rejects a manual payout, the gateway reports
-- on a transfer, and all requests on the payouts as they come.
use new_sopet_backend.Prelude.{
  ℕ, Bool, true, false, not, ◌&&◌, ◌||◌, Option, none, some, List, [], ◌∷◌, ◌==◌, if◌then◌else◌,
  find,
}
use new_sopet_backend.Prelude.Result.{Result, ok, err, ◌>>◌, throw_if}
use new_sopet_backend.Payouts.{
  PayoutStatus, completed, failed, processing, manual, Payout, Sales, Settings, is_rail,
  is_open_status,
}
use new_sopet_backend.Payouts.Requests.{
  is_pending_status, request_payout, trigger_payout, request_manual_payout,
}
use new_sopet_backend.Payouts.Insert.{
  PayoutError, store_not_found, payout_not_pending, payout_mismatch, payout_not_found,
  payout_wrong_rail, no_pending_manual_payout, OmiseTransfer, Omise, PayoutTables, Answer,
  find_store, save_payout,
}
use new_sopet_backend.Payouts.Schedule.{Today, run_scheduled_payouts}

abbrev pub is_pending_manual : ℕ → Payout → Bool
is_pending_manual store_id p =
    p.store_id == store_id && is_rail p.settlement_rail manual && is_pending_status p.status

unfoldable pub check_pending_manual : ℕ → Option Payout → Result PayoutError Payout
check_pending_manual store_id none = err payout_not_found
check_pending_manual store_id (some p) = do
  throw_if (not (p.store_id == store_id)) payout_mismatch
  throw_if (not (is_rail p.settlement_rail manual)) payout_wrong_rail
  throw_if (not (is_pending_status p.status)) payout_not_pending
  ok p

abbrev pub oldest : Option Payout → Result PayoutError Payout
oldest none = err no_pending_manual_payout
oldest (some p) = ok p

-- With an id, or else the oldest; the rows are in the order of their creation. The checks under the lock
-- see the same row.
unfoldable pub resolve_pending_manual_payout :
    ℕ → Option ℕ → List Payout → Result PayoutError Payout
resolve_pending_manual_payout store_id none ps = oldest (find (is_pending_manual store_id) ps)
resolve_pending_manual_payout store_id (some id) ps =
    check_pending_manual store_id (find (λ (p : Payout). p.id == id) ps)

-- `settleManualPayout` ends the payout as completed and `rejectManualPayout` as failed.
unfoldable pub close_manual_payout : PayoutStatus → ℕ → Option ℕ → PayoutTables → Answer
close_manual_payout status store_id id t = elim (find_store store_id t) [
  | none ↦ (t, err store_not_found)
  | some s ↦ elim (resolve_pending_manual_payout store_id id t.payouts) [
    | err e ↦ (t, err e)
    | ok p ↦
        let closed = record p { status = status } in
        (record t { payouts = save_payout closed t.payouts }, ok closed)
  ]
]

abbrev pub settle_manual_payout : ℕ → Option ℕ → PayoutTables → Answer
settle_manual_payout = close_manual_payout completed

abbrev pub reject_manual_payout : ℕ → Option ℕ → PayoutTables → Answer
reject_manual_payout = close_manual_payout failed

pub data TransferKey : Type 0 where
  pay fail send other : TransferKey

-- A `transfer.*` event; an absent flag is false.
pub record TransferEvent : Type 0 where
  pub key : TransferKey
  pub is_transfer : Bool  -- `object === 'transfer'`
  pub id : ℕ
  pub paid : Bool
  pub has_failed : Bool

abbrev pub is_pay : TransferKey → Bool
is_pay pay = true
is_pay _ = false

abbrev pub is_fail_key : TransferKey → Bool
is_fail_key fail = true
is_fail_key _ = false

abbrev pub is_send : TransferKey → Bool
is_send send = true
is_send _ = false

-- The transfer as the gateway knows it (`none` without credentials) beside what the event says.
abbrev pub is_paid_transfer : TransferEvent → Option OmiseTransfer → Bool
is_paid_transfer e none = e.paid
is_paid_transfer e (some x) = x.paid

abbrev pub is_failed_transfer : TransferEvent → Option OmiseTransfer → Bool
is_failed_transfer e none = is_fail_key e.key || e.has_failed
is_failed_transfer e (some x) = is_fail_key e.key || (x.has_failed || e.has_failed)

abbrev pub is_sent_transfer : TransferEvent → Option OmiseTransfer → Bool
is_sent_transfer e none = is_send e.key
is_sent_transfer e (some x) = is_send e.key || x.sent

unfoldable pub next_status : TransferEvent → Option OmiseTransfer → PayoutStatus → PayoutStatus
next_status e x old =
    if is_pay e.key || is_paid_transfer e x
    then completed
    else if is_failed_transfer e x
    then failed
    else if is_sent_transfer e x
    then processing
    else old

abbrev pub is_transfer_of : ℕ → Payout → Bool
is_transfer_of id p = elim p.transfer_reference [ none ↦ false | some r ↦ r == id ]

-- The answer of `getTransfer`; the outer `none` is its exception.
abbrev pub known_transfer : Omise → ℕ → Option (Option OmiseTransfer)
known_transfer g id =
    if not g.has_credentials
    then some none
    else elim (g.get_transfer id) [ none ↦ none | some x ↦ some (some x) ]

unfoldable pub update_transfer : Omise → TransferEvent → Payout → PayoutTables → PayoutTables
update_transfer g e p t =
    if not (is_open_status p.status) then t else elim (known_transfer g e.id) [
      | none ↦ t
      | some x ↦ record t {
        payouts = save_payout (record p { status = next_status e x p.status }) t.payouts;
      }
    ]

unfoldable pub handle_omise_transfer_webhook : Omise → TransferEvent → PayoutTables → PayoutTables
handle_omise_transfer_webhook g e t =
    if not e.is_transfer
    then t
    else elim (find (is_transfer_of e.id) t.payouts) [ none ↦ t | some p ↦ update_transfer g e p t ]

-- Each with the sales as they are by then.
pub data PayoutEvent : Type 0 where
  requested : Sales → ℕ → PayoutEvent  -- the store
  triggered : Sales → ℕ → Option ℕ → Bool → PayoutEvent
  requested_manual : Sales → ℕ → PayoutEvent
  settled rejected : ℕ → Option ℕ → PayoutEvent
  transfer_event : TransferEvent → PayoutEvent
  scheduled_run : Sales → Today → PayoutEvent

unfoldable pub answer_event : Settings → Omise → PayoutEvent → PayoutTables → PayoutTables
answer_event c g (requested sales store_id) t = (request_payout c sales g store_id t).0
answer_event c g (triggered sales store_id amount bypass) t =
    (trigger_payout c sales g store_id amount bypass t).0
answer_event c g (requested_manual sales store_id) t = (request_manual_payout c sales store_id t).0
answer_event c g (settled store_id id) t = (settle_manual_payout store_id id t).0
answer_event c g (rejected store_id id) t = (reject_manual_payout store_id id t).0
answer_event c g (transfer_event e) t = handle_omise_transfer_webhook g e t
answer_event c g (scheduled_run sales now) t = run_scheduled_payouts c sales g now t

-- The gateway answers each event anew.
unfoldable pub answer_all : Settings → List (Omise × PayoutEvent) → PayoutTables → PayoutTables
answer_all c [] t = t
answer_all c ((g, e) ∷ es) t = answer_all c es (answer_event c g e t)
