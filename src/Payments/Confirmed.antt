-- ===== src/Payments/Confirmed.antt =====
-- When a webhook makes an order paid.
use new_sopet_backend.Prelude.{
  find-holds, ℕ, ◌≡◌, ◌⊎◌, refl, sym, ap, subst, ◌∙◌, true, false, ◌&&◌, ◌||◌, inl, inr, Option,
  none, some, arith, ◌==◌, find, Bool-cases, Option-cases, ==_iff,
}
use mathlib.Core.Option.{some-injective}
use new_sopet_backend.Orders.Status.{OrderStatus, same_order, is_terminal_order}
use new_sopet_backend.Orders.Fulfillment.{Order, Payment, World, save_in}
use new_sopet_backend.Orders.Rows.{PaymentReference, charge, bank_transfer_by}
use new_sopet_backend.Orders.Fulfillment.Kept.{find-save_in_cases}
use new_sopet_backend.Payments.{Config, is_charge, is_paid, latest_payment}
use new_sopet_backend.Payments.Tables.{UniqueIds, find-UniqueIds}
use new_sopet_backend.Payments.Webhook.{
  EventKey, charge_complete, ChargeStatus, successful, Payload, OmiseCharge, FetchCharge,
  is_complete, is_fail, is_successful, is_failed_charge, is_amount, is_ignored, confirmed,
  is_of_charge, mark_order_paid, fail_charge, settle, handle_charge, handle_charge_event,
  handle_webhook,
}

-- The gateway has confirmed the charge of this order, over its whole total, and its newest payment was
-- not paid.
pub record PaidBy (c : Config) (fetch : FetchCharge) (e : Payload) (w : World) (o o' : Order)
    : Type 0 where
  pub payment : Payment
  pub newest : latest_payment o.id w.payments ≡ some payment
  pub unsettled : is_paid payment.status ≡ false
  pub charge_id : ℕ
  pub complete : e.key ≡ charge_complete
  pub has_key : c.has_secret_key ≡ true
  pub answer : fetch charge_id ≡ some record { status = successful; amount = some o.total }
  pub reference : o.payment_reference ≡ some (charge charge_id)
  pub not_paid : same_order o.status OrderStatus.paid ≡ false
  pub live : is_terminal_order o.status ≡ false
  pub status : o'.status ≡ OrderStatus.paid

is_charge-eq :
    (id : ℕ) (o : Order)
    → is_charge id o.payment_reference ≡ true
    → o.payment_reference ≡ some (charge id)
is_charge-eq id o h = go o.payment_reference h
  where
    go : (r : Option PaymentReference) → is_charge id r ≡ true → r ≡ some (charge id)
    go none k = cc
    go (some (charge n)) k = ap (λ m. some (charge m)) ((==_iff n id).0 k)
    go (some (bank_transfer_by n)) k = cc

is_complete-eq : (k : EventKey) → is_complete k ≡ true → k ≡ charge_complete
is_complete-eq k h = ground arith

is_successful-eq : (s : ChargeStatus) → is_successful s ≡ true → s ≡ successful
is_successful-eq s h = ground arith

is_amount-eq : (n : ℕ) (a : Option ℕ) → is_amount n a ≡ true → a ≡ some n
is_amount-eq n none h = cc
is_amount-eq n (some m) h = ap some ((==_iff m n).0 h)

-- An answer with an amount is the gateway's.
confirmed-amount :
    (c : Config) (fetch : FetchCharge) (n total : ℕ) (status : ChargeStatus) (a : OmiseCharge)
    → confirmed c fetch n status ≡ some a
    → a.amount ≡ some total
    → (c.has_secret_key ≡ true) × (fetch n ≡ some a)
confirmed-amount c fetch n total status a known amount = elim (Bool-cases c.has_secret_key) [
  | inl key ↦ (key, rw key at known)
  | inr no_key ↦
      let bare : some record { status = status; amount = none } ≡ some a = rw no_key at known in
      let blank : none ≡ a.amount = ap (λ (x : OmiseCharge). x.amount) (some-injective _ a bare) in
      cc
]

-- The order after the webhook: with its old status, or paid by the gateway's word.
record Outcome (c : Config) (fetch : FetchCharge) (e : Payload) (id : ℕ) (o : Order) (w w' : World)
    : Type 0 where
  after : Order
  is : find (λ (p : Order). p.id == id) w'.orders ≡ some after
  how : (after.status ≡ o.status) ⊎ PaidBy c fetch e w o after

module _ (c : Config) (fetch : FetchCharge) (e : Payload) (id : ℕ) (o : Order) (w : World)
    (found : find (λ (p : Order). p.id == id) w.orders ≡ some o) where
  unchanged : Outcome c fetch e id o w w
  unchanged = record { after = o; is = found; how = inl refl }

  -- The write of a row that was in the table under its id.
  write-Outcome :
      (q saved : Order) (w' : World)
      → w'.orders ≡ save_in saved w.orders
      → find (λ (p : Order). p.id == q.id) w.orders ≡ some q
      → saved.id ≡ q.id
      → (q ≡ o → (saved.status ≡ o.status) ⊎ PaidBy c fetch e w o saved)
      → Outcome c fetch e id o w w'
  write-Outcome q saved w' h mine own how = elim (find-save_in_cases id saved w.orders) [
    | inl same ↦ record {
      after = o;
      is = ap (λ os. find (λ (p : Order). p.id == id) os) h ∙ (same ∙ found);
      how = inl refl;
    }
    | inr (hit, is) ↦ record {
      after = saved;
      is = ap (λ os. find (λ (p : Order). p.id == id) os) h ∙ is;
      how = how (
          some-injective q o (
            sym mine
            ∙ (ap (λ j. find (λ (p : Order). p.id == j) w.orders) (sym own ∙ hit) ∙ found)));
    }
  ]

  settle-Outcome :
      (now : ℕ) (a : OmiseCharge) (q : Order) (p : Payment) (n : ℕ)
      → find (λ (x : Order). x.id == q.id) w.orders ≡ some q
      → (is_complete e.key ≡ true
          → is_successful a.status ≡ true
          → is_amount q.total a.amount ≡ true
          → q ≡ o
          → PaidBy c fetch e w o (record q {
            status = OrderStatus.paid;
            payment_reference = some (charge n);
            paid_at = some now;
          }))
      → Outcome c fetch e id o w (settle now e.key a q p n w)
  unfolding settle mark_order_paid fail_charge
  settle-Outcome now a q p n mine pays =
      elim (Bool-cases (is_complete e.key && is_successful a.status)) [
        | inl good ↦ elim (Bool-cases (is_amount q.total a.amount)) [
          | inr off ↦ rw (good, off) unchanged
          | inl exact ↦
              rw (good, exact)
                (write-Outcome q _ _ refl mine refl
                  λ same. inr (pays (ground arith) (ground arith) exact same))
        ]
        | inr bad ↦ elim (Bool-cases (is_fail e.key || is_failed_charge a.status)) [
          | inr neither ↦ rw (bad, neither) unchanged
          | inl failed ↦ elim (Bool-cases (is_charge n q.payment_reference)) [
            | inr other ↦
                rw (bad, failed, fail_charge, other)
                  record { after = o; is = found; how = inl refl }
            | inl own ↦
                rw (bad, failed, fail_charge, own)
                  (write-Outcome q _ _ refl mine refl
                    λ same. inl (ap (λ (x : Order). x.status) same))
          ]
        ]
      ]

  -- What the early returns leave open, and what the gateway answers.
  module _ (q : Order) (n : ℕ) (mine : find (λ (x : Order). x.id == q.id) w.orders ≡ some q)
      (refers : is_charge n q.payment_reference ≡ true) where
    paid_by :
        (now : ℕ) (a : OmiseCharge) (p : Payment)
        → latest_payment q.id w.payments ≡ some p
        → is_ignored e q p ≡ false
        → confirmed c fetch n e.status ≡ some a
        → is_complete e.key ≡ true
        → is_successful a.status ≡ true
        → is_amount q.total a.amount ≡ true
        → q ≡ o
        → PaidBy c fetch e w o (record q {
          status = OrderStatus.paid;
          payment_reference = some (charge n);
          paid_at = some now;
        })
    paid_by now a p newest heard known complete good exact same =
        let open_ : (same_order q.status OrderStatus.paid ≡ false)
            × (is_paid p.status ≡ false)
            × (is_terminal_order q.status ≡ false) =
          ground (arith, heard, complete) in
        let amount : a.amount ≡ some q.total = is_amount-eq q.total a.amount exact in
        let success : a.status ≡ successful = is_successful-eq a.status good in
        subst
          (λ (x : Order). PaidBy c fetch e w x (record q {
            status = OrderStatus.paid;
            payment_reference = some (charge n);
            paid_at = some now;
          }))
          same
          record {
            payment = p;
            newest = newest;
            unsettled = open_.1;
            charge_id = n;
            complete = is_complete-eq e.key complete;
            has_key = (confirmed-amount c fetch n q.total e.status a known amount).0;
            answer =
                (confirmed-amount c fetch n q.total e.status a known amount).1
                ∙ ap some (
                    ap (λ s. record { status = s; amount = a.amount }) success
                    ∙ ap (λ m. record { status = successful; amount = m }) amount);
            reference = is_charge-eq n q refers;
            not_paid = open_.0;
            live = open_.2;
            status = refl;
          }

    handle_charge-Outcome :
        (now : ℕ) (p : Payment)
        → latest_payment q.id w.payments ≡ some p
        → Outcome c fetch e id o w (handle_charge c fetch now e n q p w)
    unfolding handle_charge
    handle_charge-Outcome now p newest = elim (Bool-cases (is_ignored e q p)) [
      | inl skip ↦ rw (skip, handle_charge) unchanged
      | inr heard ↦ elim (Option-cases (confirmed c fetch n e.status)) [
        | inl unknown ↦ rw (heard, unknown, handle_charge) unchanged
        | inr (a, known) ↦
            rw (heard, known, handle_charge)
              (settle-Outcome now a q p n mine (paid_by now a p newest heard known))
      ]
    ]

  module _ (unique : UniqueIds w.orders) where
    handle_charge_event-Outcome :
        (now n : ℕ) → Outcome c fetch e id o w (handle_charge_event c fetch now e n w)
    unfolding handle_charge_event
    handle_charge_event-Outcome now n =
        elim (Option-cases (find (λ (x : Order). is_charge n x.payment_reference) w.orders)) [
          | inl missing ↦ rw (missing, handle_charge_event) unchanged
          | inr (q, at_) ↦ elim (Option-cases (latest_payment q.id w.payments)) [
            | inl unpaid ↦ rw (at_, unpaid, handle_charge_event) unchanged
            | inr (p, newest) ↦
                rw (at_, newest, handle_charge_event)
                  (handle_charge-Outcome q n (find-UniqueIds _ w.orders q unique at_)
                    (find-holds _ w.orders q at_) now p newest)
          ]
        ]

    handle_webhook-Outcome : (now : ℕ) → Outcome c fetch e id o w (handle_webhook c fetch now e w)
    unfolding handle_webhook
    handle_webhook-Outcome now = elim (Bool-cases (is_of_charge e.key)) [
      | inr other ↦ rw (other, handle_webhook) unchanged
      | inl ours ↦ rw (ours, handle_webhook) (go e.charge_id)
    ]
      where
        go :
            (m : Option ℕ)
            → Outcome c fetch e id o w (elim m as (λ _. World) [
              | none ↦ w
              | some n ↦ handle_charge_event c fetch now e n w
            ])
        go none = unchanged
        go (some n) = handle_charge_event-Outcome now n

-- A webhook leaves the status of every order as it was, but for an order whose status is none of `paid`,
-- `cancelled` and `refunded`, whose newest payment is not paid, and whose charge the gateway itself reports as
-- successful over the order's whole total: that one gets the status `paid`, also where the order had
-- gone on to be processed, shipped or delivered.
pub handle_webhook-PaidBy :
    (c : Config) (fetch : FetchCharge) (now : ℕ) (e : Payload) (w : World) (id : ℕ) (o : Order)
    → UniqueIds w.orders
    → find (λ (p : Order). p.id == id) w.orders ≡ some o
    → (o' : Order) × (find (λ (p : Order). p.id == id) (handle_webhook c fetch now e w).orders
        ≡ some o')
      × ((o'.status ≡ o.status) ⊎ PaidBy c fetch e w o o')
handle_webhook-PaidBy c fetch now e w id o unique found =
    let r = handle_webhook-Outcome c fetch e id o w found unique now in (r.after, r.is, r.how)
