-- ===== src/Payouts/Steps/Requests.antt =====
-- The requests, settlements and transfers of modules/payouts/payouts.service.ts as steps of the tables.
use new_sopet_backend.Prelude.{
  ℕ, ◌≡◌, refl, sym, ◌∙◌, Bool, true, false, inl, inr, Option, none, some, List, arith,
  if◌then◌else◌, any, find, find-holds, subst, Bool-cases, Option-cases,
}
use new_sopet_backend.Prelude.Result.{Ensures, Ensures-ok, Ensures-throw_if, Result-cases}
use new_sopet_backend.Commission.{to_satang}
use new_sopet_backend.Payouts.{
  PayoutStatus, pending, processing, completed, failed, PayoutSettlementRail, omise, manual, Payout,
  Store, Sales, Settings, is_open_status, is_pending_payout,
}
use new_sopet_backend.Payouts.Owed.{available_balance}
use new_sopet_backend.Payouts.Requests.{
  is_orphan, is_pending_status, apply_omise_transfer, transfer_new, create_for_store,
  create_omise_payout, transfer_orphan, submit_for_store, submit_payout_to_omise, request_payout,
  trigger_payout, request_manual_payout, refresh_store_recipient_status,
  assert_recipient_ready_for_transfer, refuse_transfer, after_transfer, refuse_request,
  refuse_trigger,
}
use new_sopet_backend.Payouts.Insert.{
  Omise, OmiseTransfer, PayoutTables, find_store, save_payout, save_store, insert_snapshot_payout,
  create_pending, or_all,
}
use new_sopet_backend.Payouts.Steps.{Moved, IsNew, Step, kept, added, saved, save_payout_again}

create_pending-IsNew :
    (c : Settings) (sales : Sales) (n : ℕ) (s : Store) (rail : PayoutSettlementRail)
    (amount : Option ℕ) (ps : List Payout)
    → Ensures (IsNew n ps) (create_pending c sales n s rail amount ps)
unfolding create_pending insert_snapshot_payout
create_pending-IsNew c sales n s rail amount ps = Ensures-throw_if _ _ _ _ λ free.
    Ensures-throw_if _ _ _ _
      λ a. Ensures-throw_if _ _ _ _ λ b. Ensures-throw_if _ _ _ _ λ d. Ensures-ok _ _ (refl, free)

after_transfer-Moved :
    (p q : Payout) (x : Option OmiseTransfer) → after_transfer p x ≡ some q → Moved p q
unfolding after_transfer
after_transfer-Moved p q none e = cc
after_transfer-Moved p q (some x) e =
    let same : record p {
      transfer_reference = some x.id;
      status = if x.paid then completed else processing;
    }
        ≡ q =
      cc in
    subst (λ y. Moved p y) same (record { id = refl; store = refl; rail = refl })

Moved-IsNew : (n : ℕ) (ps : List Payout) (p q : Payout) → Moved p q → IsNew n ps p → IsNew n ps q
Moved-IsNew n ps p q m (e, free) = (
  m.id ∙ e,
  subst (λ j. any (is_pending_payout j q.settlement_rail) ps ≡ false) (sym m.store)
      (subst (λ r. any (is_pending_payout p.store_id r) ps ≡ false) (sym m.rail) free),
)

transfer_new-Step :
    (g : Omise) (s : Store) (p : Payout) (t : PayoutTables) (ss : List Store)
    → IsNew t.next_id t.payouts p
    → Step t (transfer_new g s p (record t { stores = ss })).0
unfolding transfer_new
transfer_new-Step g s p t ss new = elim (Bool-cases g.has_credentials) [
  | inr off ↦ rw off (added t ss p new)
  | inl on ↦ elim (Result-cases (assert_recipient_ready_for_transfer s)) [
    | inl (e, fails) ↦ rw (on, fails) (added t ss p new)
    | inr (r, known) ↦ elim (Option-cases (apply_omise_transfer g r p)) [
      | inl none_back ↦ rw (on, known, none_back) (added t ss p new)
      | inr (q, back) ↦
          rw (on, known, back)
            (added t ss q (
              Moved-IsNew t.next_id t.payouts p q
                (after_transfer-Moved p q (g.create_transfer r (to_satang p.net_amount)) back) new))
    ]
  ]
]

create_for_store-Step :
    (c : Settings) (sales : Sales) (g : Omise) (s : Store) (amount : ℕ) (t : PayoutTables)
    (ss : List Store)
    → Step t (create_for_store c sales g s amount (record t { stores = ss })).0
unfolding create_for_store
create_for_store-Step c sales g s amount t ss = elim (Option-cases (refuse_transfer g s)) [
  | inr (e, fails) ↦ rw (create_for_store, fails) (kept t ss)
  | inl ready ↦
      elim (Result-cases (create_pending c sales t.next_id s omise (some amount) t.payouts)) [
        | inl (e, fails) ↦ rw (create_for_store, ready, fails) (kept t ss)
        | inr (p, made) ↦
            rw (create_for_store, ready, made)
              (transfer_new-Step g s p t ss (
                (create_pending-IsNew c sales t.next_id s omise (some amount) t.payouts).at p made))
      ]
]

pub create_omise_payout-Step :
    (c : Settings) (sales : Sales) (g : Omise) (store_id amount : ℕ) (t : PayoutTables)
    → Step t (create_omise_payout c sales g store_id amount t).0
unfolding create_omise_payout
create_omise_payout-Step c sales g store_id amount t = elim (Option-cases (find_store store_id t)) [
  | inl fails ↦ rw (create_omise_payout, fails) (kept t t.stores)
  | inr (store, found) ↦
      let s = refresh_store_recipient_status g store in
      rw (create_omise_payout, found)
        (create_for_store-Step c sales g s amount t (save_store s t.stores))
]

transfer_orphan-Step :
    (g : Omise) (r : ℕ) (p : Payout) (test : Payout → Bool) (t : PayoutTables) (ss : List Store)
    → find test t.payouts ≡ some p
    → is_open_status p.status ≡ true
    → Step t
        (transfer_orphan g r
          (record p { status = processing })
          (record t {
            stores = ss;
            payouts = save_payout (record p { status = processing }) t.payouts;
          })).0
unfolding transfer_orphan
transfer_orphan-Step g r p test t ss found o =
    let claimed = record p { status = processing } in
    let back_to = record p { status = pending } in
    elim (Option-cases (apply_omise_transfer g r claimed)) [
      | inl fails ↦
          rw (transfer_orphan, fails, save_payout_again claimed back_to t.payouts refl)
            (saved t ss test p back_to found o (record { id = refl; store = refl; rail = refl }))
      | inr (q, back) ↦
          let m =
            after_transfer-Moved claimed q (g.create_transfer r (to_satang p.net_amount)) back in
          rw (transfer_orphan, back, save_payout_again claimed q t.payouts (sym m.id))
            (saved t ss test p q found o (record { id = m.id; store = m.store; rail = m.rail }))
    ]

pub is_pending_status-open :
    (s : PayoutStatus) → is_pending_status s ≡ true → is_open_status s ≡ true
is_pending_status-open pending h = refl
is_pending_status-open processing h = cc
is_pending_status-open completed h = cc
is_pending_status-open failed h = cc

submit_for_store-Step :
    (g : Omise) (s : Store) (p : Payout) (test : Payout → Bool) (t : PayoutTables) (ss : List Store)
    → find test t.payouts ≡ some p
    → is_open_status p.status ≡ true
    → Step t (submit_for_store g s p (record t { stores = ss })).0
unfolding submit_for_store
submit_for_store-Step g s p test t ss found o = elim (Bool-cases g.has_credentials) [
  | inr off ↦ rw (submit_for_store, off) (kept t ss)
  | inl on ↦ elim (Result-cases (assert_recipient_ready_for_transfer s)) [
    | inl (e, fails) ↦ rw (submit_for_store, on, fails) (kept t ss)
    | inr (r, known) ↦
        rw (submit_for_store, on, known) (transfer_orphan-Step g r p test t ss found o)
  ]
]

submit_payout_to_omise-Step :
    (g : Omise) (store_id : ℕ) (p : Payout) (t : PayoutTables)
    → find (is_orphan store_id) t.payouts ≡ some p
    → Step t (submit_payout_to_omise g p t).0
unfolding submit_payout_to_omise
submit_payout_to_omise-Step g store_id p t found =
    let orphan : is_orphan store_id p ≡ true = find-holds (is_orphan store_id) t.payouts p found in
    let waits : is_pending_status p.status ≡ true = ground arith in
    elim (Option-cases (find_store p.store_id t)) [
      | inl fails ↦ rw (submit_payout_to_omise, fails) (kept t t.stores)
      | inr (store, known) ↦
          rw (submit_payout_to_omise, known)
            (submit_for_store-Step g (refresh_store_recipient_status g store) p (is_orphan store_id)
              t (save_store (refresh_store_recipient_status g store) t.stores) found
              (is_pending_status-open p.status waits))
    ]

pub request_payout-Step :
    (c : Settings) (sales : Sales) (g : Omise) (store_id : ℕ) (t : PayoutTables)
    → Step t (request_payout c sales g store_id t).0
unfolding request_payout
request_payout-Step c sales g store_id t =
    elim (Option-cases (find (is_orphan store_id) t.payouts)) [
      | inr (p, found) ↦
          rw (request_payout, found) (submit_payout_to_omise-Step g store_id p t found)
      | inl alone ↦ elim (Option-cases (find_store store_id t)) [
        | inl fails ↦ rw (request_payout, alone, fails) (kept t t.stores)
        | inr (s, known) ↦ elim (Option-cases (refuse_request c sales s omise t.payouts)) [
          | inr (e, fails) ↦ rw (request_payout, alone, known, fails) (kept t t.stores)
          | inl passes ↦
              rw (request_payout, alone, known, passes)
                (create_omise_payout-Step c sales g store_id
                  (available_balance c s omise sales t.payouts) t)
        ]
      ]
    ]

pub trigger_payout-Step :
    (c : Settings) (sales : Sales) (g : Omise) (store_id : ℕ) (amount : Option ℕ) (bypass : Bool)
    (t : PayoutTables)
    → Step t (trigger_payout c sales g store_id amount bypass t).0
unfolding trigger_payout
trigger_payout-Step c sales g store_id amount bypass t =
    elim (Option-cases (find (is_orphan store_id) t.payouts)) [
      | inr (p, found) ↦
          rw (trigger_payout, found) (submit_payout_to_omise-Step g store_id p t found)
      | inl alone ↦ elim (Option-cases (find_store store_id t)) [
        | inl fails ↦ rw (trigger_payout, alone, fails) (kept t t.stores)
        | inr (s, known) ↦
            let balance = available_balance c s omise sales t.payouts in
            elim (Option-cases (refuse_trigger c balance (or_all amount balance) bypass)) [
              | inr (e, fails) ↦ rw (trigger_payout, alone, known, fails) (kept t t.stores)
              | inl passes ↦
                  rw (trigger_payout, alone, known, passes)
                    (create_omise_payout-Step c sales g store_id (or_all amount balance) t)
            ]
      ]
    ]

pub request_manual_payout-Step :
    (c : Settings) (sales : Sales) (store_id : ℕ) (t : PayoutTables)
    → Step t (request_manual_payout c sales store_id t).0
unfolding request_manual_payout
request_manual_payout-Step c sales store_id t = elim (Option-cases (find_store store_id t)) [
  | inl fails ↦ rw (request_manual_payout, fails) (kept t t.stores)
  | inr (s, known) ↦ elim (Option-cases (refuse_request c sales s manual t.payouts)) [
    | inr (e, fails) ↦ rw (request_manual_payout, known, fails) (kept t t.stores)
    | inl passes ↦ elim (Result-cases (create_pending c sales t.next_id s manual none t.payouts)) [
      | inl (e, fails) ↦ rw (request_manual_payout, known, passes, fails) (kept t t.stores)
      | inr (p, made) ↦
          rw (request_manual_payout, known, passes, made)
            (added t t.stores p
              ((create_pending-IsNew c sales t.next_id s manual none t.payouts).at p made))
    ]
  ]
]
