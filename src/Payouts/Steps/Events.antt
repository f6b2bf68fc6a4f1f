-- ===== src/Payouts/Steps/Events.antt =====
-- Every request, settlement and webhook of modules/payouts/payouts.service.ts as steps of the tables.
use new_sopet_backend.Prelude.{
  ℕ, ◌≡◌, refl, Bool, true, inl, inr, Option, none, some, List, [], ◌∷◌, arith, ◌==◌, find,
  find-holds, Bool-cases, Option-cases,
}
use new_sopet_backend.Prelude.Result.{
  Ensures, Ensures-ok, Ensures-err, Ensures-throw_if, Result-cases,
}
use new_sopet_backend.Payouts.{
  PayoutStatus, omise, Store, Sales, completed, failed, Payout, Settings, is_open_status,
}
use new_sopet_backend.Payouts.Requests.{is_pending_status}
use new_sopet_backend.Payouts.Insert.{Omise, PayoutTables, find_store, save_payout}
use new_sopet_backend.Payouts.Schedule.{
  Today, build_rail_summary, is_scheduled, is_payable, run_scheduled_one, run_scheduled_loop,
  run_scheduled_payouts,
}
use new_sopet_backend.Payouts.Settle.{
  check_pending_manual, oldest, is_pending_manual, resolve_pending_manual_payout,
  close_manual_payout, TransferEvent, next_status, is_transfer_of, known_transfer, update_transfer,
  handle_omise_transfer_webhook, PayoutEvent, requested, triggered, requested_manual, settled,
  rejected, transfer_event, scheduled_run, answer_event,
}
use new_sopet_backend.Payouts.Steps.{Step, kept, saved, Steps, halt, further, once}
use new_sopet_backend.Payouts.Steps.Requests.{
  is_pending_status-open, create_omise_payout-Step, request_payout-Step, trigger_payout-Step,
  request_manual_payout-Step,
}

-- A row of the table that waits for its settlement.
pub record Waits (ps : List Payout) (p : Payout) : Type 0 where
  pub test : Payout → Bool
  pub found : find test ps ≡ some p
  pub waits : is_pending_status p.status ≡ true

check_pending_manual-Waits :
    (store_id : ℕ) (test : Payout → Bool) (ps : List Payout) (o : Option Payout)
    → find test ps ≡ o
    → Ensures (Waits ps) (check_pending_manual store_id o)
unfolding check_pending_manual
check_pending_manual-Waits store_id test ps none e = Ensures-err _ _
check_pending_manual-Waits store_id test ps (some p) e = Ensures-throw_if _ _ _ _ λ a.
    Ensures-throw_if _ _ _ _ λ b.
      Ensures-throw_if _ _ _ _
        λ open_. Ensures-ok _ _ (record { test = test; found = e; waits = ground arith })

oldest-Waits :
    (store_id : ℕ) (ps : List Payout) (o : Option Payout)
    → find (is_pending_manual store_id) ps ≡ o
    → Ensures (Waits ps) (oldest o)
oldest-Waits store_id ps none e = Ensures-err _ _
oldest-Waits store_id ps (some p) e =
    let here = find-holds (is_pending_manual store_id) ps p e in
    Ensures-ok _ _
      (record { test = is_pending_manual store_id; found = e; waits = ground (arith, here) })

resolve_pending_manual_payout-Waits :
    (store_id : ℕ) (id : Option ℕ) (ps : List Payout)
    → Ensures (Waits ps) (resolve_pending_manual_payout store_id id ps)
unfolding resolve_pending_manual_payout
resolve_pending_manual_payout-Waits store_id none ps = oldest-Waits store_id ps _ refl
resolve_pending_manual_payout-Waits store_id (some id) ps =
    check_pending_manual-Waits store_id (λ (p : Payout). p.id == id) ps _ refl

-- A write of the status of an open row.
save_status-Step :
    (t : PayoutTables) (test : Payout → Bool) (p : Payout) (status : PayoutStatus)
    → find test t.payouts ≡ some p
    → is_open_status p.status ≡ true
    → Step t (record t { payouts = save_payout (record p { status = status }) t.payouts })
save_status-Step t test p status found o =
    saved t t.stores test p (record p { status = status }) found o
      (record { id = refl; store = refl; rail = refl })

close_manual_payout-Step :
    (status : PayoutStatus) (store_id : ℕ) (id : Option ℕ) (t : PayoutTables)
    → Step t (close_manual_payout status store_id id t).0
unfolding close_manual_payout
close_manual_payout-Step status store_id id t = elim (Option-cases (find_store store_id t)) [
  | inl fails ↦ rw (close_manual_payout, fails) (kept t t.stores)
  | inr (s, known) ↦ elim (Result-cases (resolve_pending_manual_payout store_id id t.payouts)) [
    | inl (e, fails) ↦ rw (close_manual_payout, known, fails) (kept t t.stores)
    | inr (p, waits) ↦
        let w = (resolve_pending_manual_payout-Waits store_id id t.payouts).at p waits in
        rw (close_manual_payout, known, waits)
          (save_status-Step t w.test p status w.found (is_pending_status-open p.status w.waits))
  ]
]

update_transfer-Step :
    (g : Omise) (e : TransferEvent) (test : Payout → Bool) (p : Payout) (t : PayoutTables)
    → find test t.payouts ≡ some p
    → Step t (update_transfer g e p t)
unfolding update_transfer
update_transfer-Step g e test p t found = elim (Bool-cases (is_open_status p.status)) [
  | inr closed ↦ rw (update_transfer, closed) (kept t t.stores)
  | inl o ↦ elim (Option-cases (known_transfer g e.id)) [
    | inl fails ↦ rw (update_transfer, o, fails) (kept t t.stores)
    | inr (x, known) ↦
        rw (update_transfer, o, known)
          (save_status-Step t test p (next_status e x p.status) found o)
  ]
]

handle_omise_transfer_webhook-Step :
    (g : Omise) (e : TransferEvent) (t : PayoutTables)
    → Step t (handle_omise_transfer_webhook g e t)
unfolding handle_omise_transfer_webhook
handle_omise_transfer_webhook-Step g e t = elim (Bool-cases e.is_transfer) [
  | inr other ↦ rw (handle_omise_transfer_webhook, other) (kept t t.stores)
  | inl ours ↦ elim (Option-cases (find (is_transfer_of e.id) t.payouts)) [
    | inl fails ↦ rw (handle_omise_transfer_webhook, ours, fails) (kept t t.stores)
    | inr (p, found) ↦
        rw (handle_omise_transfer_webhook, ours, found)
          (update_transfer-Step g e (is_transfer_of e.id) p t found)
  ]
]

run_scheduled_one-Step :
    (c : Settings) (sales : Sales) (g : Omise) (now : Today) (s : Store) (t : PayoutTables)
    → Step t (run_scheduled_one c sales g now s t)
unfolding run_scheduled_one
run_scheduled_one-Step c sales g now s t = elim (Bool-cases (is_scheduled now s)) [
  | inr idle ↦ rw (run_scheduled_one, idle) (kept t t.stores)
  | inl due ↦ elim (Option-cases (find_store s.id t)) [
    | inl fails ↦ rw (run_scheduled_one, due, fails) (kept t t.stores)
    | inr (store, known) ↦
        let summary = build_rail_summary c store omise sales t.payouts in
        elim (Bool-cases (is_payable c summary)) [
          | inr short ↦ rw (run_scheduled_one, due, known, short) (kept t t.stores)
          | inl pays ↦
              rw (run_scheduled_one, due, known, pays)
                (create_omise_payout-Step c sales g s.id summary.available_balance t)
        ]
  ]
]

run_scheduled_loop-Steps :
    (c : Settings) (sales : Sales) (g : Omise) (now : Today) (ss : List Store) (t : PayoutTables)
    → Steps t (run_scheduled_loop c sales g now ss t)
unfolding run_scheduled_loop
run_scheduled_loop-Steps c sales g now [] t = halt t
run_scheduled_loop-Steps c sales g now (s ∷ ss) t =
    further t _ _ (run_scheduled_one-Step c sales g now s t)
      (run_scheduled_loop-Steps c sales g now ss _)

pub answer_event-Steps :
    (c : Settings) (g : Omise) (e : PayoutEvent) (t : PayoutTables) → Steps t (answer_event c g e t)
unfolding answer_event run_scheduled_payouts
answer_event-Steps c g (requested sales s) t = once t _ (request_payout-Step c sales g s t)
answer_event-Steps c g (triggered sales s a b) t = once t _ (trigger_payout-Step c sales g s a b t)
answer_event-Steps c g (requested_manual sales s) t =
    once t _ (request_manual_payout-Step c sales s t)
answer_event-Steps c g (settled s id) t = once t _ (close_manual_payout-Step completed s id t)
answer_event-Steps c g (rejected s id) t = once t _ (close_manual_payout-Step failed s id t)
answer_event-Steps c g (transfer_event e) t = once t _ (handle_omise_transfer_webhook-Step g e t)
answer_event-Steps c g (scheduled_run sales now) t =
    run_scheduled_loop-Steps c sales g now t.stores t
