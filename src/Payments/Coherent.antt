-- ===== src/Payments/Coherent.antt =====
-- A confirmed bank transfer keeps the header status in step with the items.
use new_sopet_backend.Prelude.{
  ℕ, ◌≡◌, refl, ap, sym, subst, ◌∙◌, Bool, true, false, leb, inl, inr, find, any, ◌==◌, Option,
  none, some, List, [], ◌∷◌, arith, Bool-cases, Option-cases, ==_refl, ==_iff, ◌⊎◌,
}
use mathlib.Core.Option.{some-injective}
use new_sopet_backend.Prelude.Result.{
  ok, ◌>>=◌, throw_if, Ensures, Ensures-ok, Ensures-bind, Ensures-throw_if,
}
use new_sopet_backend.Orders.Status.{OrderStatus, pending_payment, same_order, derive_order_status}
use new_sopet_backend.Orders.Fulfillment.{Order, PaymentStatus, Payment, World, statuses, or_now}
use new_sopet_backend.Payments.{is_paid, save_payment, newer, latest_payment}
use new_sopet_backend.Orders.Queue.{is_bank_transfer}
use new_sopet_backend.Orders.Rows.{bank_transfer_by}
use new_sopet_backend.Orders.Fulfillment.Coherent.{
  AllCoherent, save_in-All, find-IsCoherent, derived-Coherent,
}
use new_sopet_backend.Orders.Fulfillment.Kept.{find-test, find-save_in_self}
use new_sopet_backend.Payments.Access.{order_by_id}
use new_sopet_backend.Payments.Transfer.{
  find_confirmable, confirm_transfer, confirm_bank_transfer_paid,
}
use new_sopet_backend.Payments.Final.Runs.{order_by_id-find}

-- The time of the payment is kept, or is that of the confirmation.
abbrev pub PaidAt : ℕ → Option ℕ → Option ℕ → Type 0
PaidAt now none after = after ≡ some now
PaidAt now (some t) after = after ≡ some t

abbrev pub is_row : ℕ → Payment → Bool
is_row id p = p.id == id

-- The order waited for a bank transfer; now it is paid by the admin's word, with the status that its items
-- give, and every order is still in step with its items. The newest payment of the order, which was not
-- paid, is paid, and the others are as they were.
pub record TransferConfirmed (now admin order_id : ℕ) (w w' : World) : Type 0 where
  pub payment : Payment
  pub newest : latest_payment order_id w.payments ≡ some payment
  pub by_transfer : is_bank_transfer payment.payment_method ≡ true
  pub was_unpaid : is_paid payment.status ≡ false
  pub now_paid :
      find (is_row payment.id) w'.payments ≡ some (record payment { status = PaymentStatus.paid })
  pub others :
      (id : ℕ)
      → (payment.id == id) ≡ false
      → find (is_row id) w'.payments ≡ find (is_row id) w.payments
  pub before : Order
  pub after : Order
  pub was : find (λ (o : Order). o.id == order_id) w.orders ≡ some before
  pub is : find (λ (o : Order). o.id == order_id) w'.orders ≡ some after
  pub method : is_bank_transfer before.payment_method ≡ true
  pub waiting : same_order before.status pending_payment ≡ true
  pub status : after.status ≡ derive_order_status OrderStatus.paid (statuses before.items)
  pub items : after.items ≡ before.items
  pub paid_at : PaidAt now before.paid_at after.paid_at
  pub reference : after.payment_reference ≡ some (bank_transfer_by admin)
  pub coherent : AllCoherent w'

PaidAt-or_now : (now : ℕ) (t : Option ℕ) → PaidAt now t (or_now t now)
PaidAt-or_now now none = refl
PaidAt-or_now now (some t) = refl

newer-cases : (p : Payment) (o : Option Payment) → (newer p o ≡ p) ⊎ (o ≡ some (newer p o))
newer-cases p none = inl refl
newer-cases p (some q) = elim (Bool-cases (leb p.created_at q.created_at)) [
  | inl later ↦ inr (rw later refl)
  | inr first ↦ inl (rw first refl)
]

newest-any :
    (order_id : ℕ) (ps : List Payment) (p : Payment)
    → latest_payment order_id ps ≡ some p
    → any (is_row p.id) ps ≡ true
newest-any order_id [] p h = cc
newest-any order_id (q ∷ qs) p h = elim (Bool-cases (q.order_id == order_id)) [
  | inr other ↦ let rest = newest-any order_id qs p (rw other at h) in ground (arith, rest)
  | inl own ↦
      let top : newer q (latest_payment order_id qs) ≡ p = some-injective _ _ (rw own at h) in
      elim (newer-cases q (latest_payment order_id qs)) [
        | inl this ↦
            let same : q.id ≡ p.id = ap (λ (x : Payment). x.id) (sym this ∙ top) in
            let hit : (q.id == p.id) ≡ true = (==_iff q.id p.id).1 same in rw hit refl
        | inr next ↦
            let rest = newest-any order_id qs p (next ∙ ap (λ x. some x) top) in
            ground (arith, rest)
      ]
]

save_payment-own :
    (p : Payment) (ps : List Payment)
    → any (is_row p.id) ps ≡ true
    → find (is_row p.id) (save_payment p ps) ≡ some p
save_payment-own p [] h = cc
save_payment-own p (q ∷ qs) h = ground (arith, save_payment-own p qs, ==_refl p.id)

save_payment-others :
    (id : ℕ) (p : Payment) (ps : List Payment)
    → (p.id == id) ≡ false
    → find (is_row id) (save_payment p ps) ≡ find (is_row id) ps
save_payment-others id p [] h = refl
save_payment-others id p (q ∷ qs) h = ground (arith, save_payment-others id p qs h)

find_confirmable-newest :
    (order_id : ℕ) (w : World) (p : Payment)
    → find_confirmable order_id w ≡ ok p
    → (latest_payment order_id w.payments ≡ some p)
      × (is_bank_transfer p.payment_method ≡ true)
      × (is_paid p.status ≡ false)
unfolding find_confirmable ◌>>=◌ throw_if
find_confirmable-newest order_id w p h = elim (Option-cases (latest_payment order_id w.payments)) [
  | inl missing ↦ cc (rw (missing, find_confirmable) at h)
  | inr (q, known) ↦ elim (Bool-cases (is_paid q.status)) [
    | inl paid ↦ cc (rw (known, paid, find_confirmable) at h)
    | inr unpaid ↦ elim (Bool-cases (is_bank_transfer q.payment_method)) [
      | inr other ↦ cc (rw (known, unpaid, other, find_confirmable) at h)
      | inl transfer ↦
          let same : q ≡ p = cc (rw (known, unpaid, transfer, find_confirmable) at h) in
          (
            known ∙ ap (λ x. some x) same,
            subst (λ (x : Payment). is_bank_transfer x.payment_method ≡ true) same transfer,
            subst (λ (x : Payment). is_paid x.status ≡ false) same unpaid,
          )
    ]
  ]
]

confirm_transfer-Confirmed :
    (now admin order_id : ℕ) (w : World) (o : Order) (p : Payment)
    → AllCoherent w
    → order_by_id order_id w ≡ ok o
    → is_bank_transfer o.payment_method ≡ true
    → same_order o.status pending_payment ≡ true
    → find_confirmable order_id w ≡ ok p
    → TransferConfirmed now admin order_id w (confirm_transfer now admin o p w)
unfolding confirm_transfer
confirm_transfer-Confirmed now admin order_id w o p hs loaded method waiting confirmable =
    let found = order_by_id-find order_id w o loaded in
    let h = find-IsCoherent _ w.orders hs found in
    let (newest, by_transfer, unpaid) = find_confirmable-newest order_id w p confirmable in
    let paid = record p { status = PaymentStatus.paid } in
    record {
      payment = p;
      newest = newest;
      by_transfer = by_transfer;
      was_unpaid = unpaid;
      now_paid = save_payment-own paid w.payments (newest-any order_id w.payments p newest);
      others = λ id other. save_payment-others id paid w.payments other;
      before = o;
      after = _;
      was = found;
      is = find-save_in_self order_id o _ w.orders found (find-test order_id w.orders o found);
      method = method;
      waiting = waiting;
      status = refl;
      items = refl;
      paid_at = PaidAt-or_now now o.paid_at;
      reference = refl;
      coherent = save_in-All _ w.orders (derived-Coherent OrderStatus.paid o.items h.has_item) hs;
    }

confirm_bank_transfer_paid-Confirmed :
    (now admin order_id : ℕ) (w : World)
    → AllCoherent w
    → Ensures
        (TransferConfirmed now admin order_id w)
        (confirm_bank_transfer_paid now admin order_id w)
unfolding confirm_bank_transfer_paid
confirm_bank_transfer_paid-Confirmed now admin order_id w hs =
    let P : World → Type 0 = TransferConfirmed now admin order_id w in
    Ensures-bind P _ _ λ o loaded. Ensures-throw_if P _ _ _ λ method.
      Ensures-throw_if P _ _ _ λ open_. Ensures-bind P _ _ λ p newest. Ensures-ok P _ (
        confirm_transfer-Confirmed now admin order_id w o p hs loaded (ground arith) (ground arith)
          newest)

-- A bank transfer that an admin confirms is of an order that waits for one, and its newest payment is by bank
-- transfer and not paid. This payment is then paid and no other changes; the order has the status that a paid
-- order's items give, the admin as its reference and, unless it had one, the time as that of its payment; and
-- all header statuses stay in step with their items.
pub confirm_bank_transfer_paid_lem :
    (now admin order_id : ℕ) (w w' : World)
    → AllCoherent w
    → confirm_bank_transfer_paid now admin order_id w ≡ ok w'
    → TransferConfirmed now admin order_id w w'
confirm_bank_transfer_paid_lem now admin order_id w w' hs h =
    (confirm_bank_transfer_paid-Confirmed now admin order_id w hs).at w' h
