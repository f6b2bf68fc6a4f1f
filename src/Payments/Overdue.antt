-- ===== src/Payments/Overdue.antt =====
-- What the expiry job leaves: no QR payment that is overdue.
use new_sopet_backend.Prelude.{
  ℕ, ◌≡◌, ◌≤◌, refl, sym, subst, ap, ◌∙◌, Bool, true, false, not, ◌&&◌, ◌||◌, inl, inr, Option,
  none, some, List, [], ◌∷◌, arith, ◌==◌, if◌then◌else◌, count, count-le, count-keep_hit, find, any,
  keep, Bool-cases, Option-cases, ==_refl,
}
use new_sopet_backend.Orders.Status.{is_terminal_order}
use new_sopet_backend.Orders.Fulfillment.{Order, Payment, World, save_in}
use new_sopet_backend.Orders.Fulfillment.Kept.{find-test, find-save_in_cases}
use new_sopet_backend.Payments.{
  Config, is_pending, is_promptpay, is_pending_qr, is_qr_payment_expired, fail, save_payment,
  finalize_expired, refers_to_payment, finalize_expired_payment, expire_one, expire_loop,
  expire_pending_qr_payments,
}

-- The order is there and neither cancelled nor refunded.
abbrev is_open_row : Option Order → Bool
is_open_row none = false
is_open_row (some o) = not (is_terminal_order o.status)

abbrev pub is_open : ℕ → List Order → Bool
is_open id os = is_open_row (find (λ (o : Order). o.id == id) os)

-- A QR payment that waits beyond its time on an open order.
abbrev pub is_overdue : Config → ℕ → (ℕ → Bool) → Payment → Bool
is_overdue c now open_ p = is_pending_qr p && is_qr_payment_expired c p now && open_ p.order_id

-- A write of a failed row takes away what it overwrites.
pub count-save_fail :
    (bad good : Payment → Bool) (q : Payment) (ps : List Payment)
    → bad (fail q) ≡ false
    → count (λ r. bad r && good r) (save_payment (fail q) ps)
      ≤ count (λ r. bad r && (not (q.id == r.id) && good r)) ps
count-save_fail bad good q [] h = omega arith
count-save_fail bad good q (r ∷ rs) h = ground (arith, h, count-save_fail bad good q rs h)

-- Clearing a reference opens and closes nothing.
is_open-clear :
    (id order_id : ℕ) (o : Order) (os : List Order)
    → find (λ (p : Order). p.id == order_id) os ≡ some o
    → is_open id (save_in (record o { payment_reference = none }) os) ≡ is_open id os
is_open-clear id order_id o os found =
    elim (find-save_in_cases id (record o { payment_reference = none }) os) [
      | inl same ↦ ap is_open_row same
      | inr (own, saved) ↦
          let mine : find (λ (p : Order). p.id == id) os ≡ some o =
            subst (λ j. find (λ (p : Order). p.id == j) os ≡ some o)
              (sym (find-test order_id os o found) ∙ own) found in
          ap is_open_row saved ∙ sym (ap is_open_row mine)
    ]

-- What a step does to the open orders and to the payments.
record Expires (q : Payment) (hits : Bool) (w w' : World) : Type 0 where
  keeps_open : (id : ℕ) → is_open id w'.orders ≡ is_open id w.orders
  payments : w'.payments ≡ (if hits then save_payment (fail q) w.payments else w.payments)

finalize_expired-Expires :
    (q : Payment) (o : Order) (w : World)
    → find (λ (p : Order). p.id == q.order_id) w.orders ≡ some o
    → Expires q
        (is_pending q.status && not (is_terminal_order o.status))
        w
        (finalize_expired o q w).0
unfolding finalize_expired
finalize_expired-Expires q o w found =
    elim (Bool-cases (is_terminal_order o.status || not (is_pending q.status))) [
      | inl skip ↦
          rw (skip, finalize_expired) record { keeps_open = λ id. refl; payments = ground arith }
      | inr go ↦ elim (Bool-cases (refers_to_payment o.payment_reference q.omise_charge_id)) [
        | inl own ↦
            rw (go, own, finalize_expired)
              record {
                keeps_open = λ id. is_open-clear id q.order_id o w.orders found;
                payments = ground arith;
              }
        | inr other ↦
            rw (go, other, finalize_expired)
              record { keeps_open = λ id. refl; payments = ground arith }
      ]
    ]

finalize_expired_payment-Expires :
    (q : Payment) (w : World)
    → Expires q
        (is_pending q.status && is_open q.order_id w.orders)
        w
        (finalize_expired_payment q w).0
unfolding finalize_expired_payment
finalize_expired_payment-Expires q w =
    elim (Option-cases (find (λ (o : Order). o.id == q.order_id) w.orders)) [
      | inl missing ↦
          rw (missing, finalize_expired_payment, is_open)
            record { keeps_open = λ id. refl; payments = ground arith }
      | inr (o, found) ↦
          rw (found, finalize_expired_payment, is_open) (finalize_expired-Expires q o w found)
    ]

expire_one-Expires :
    (c : Config) (now : ℕ) (q : Payment) (s : World × ℕ)
    → Expires q
        (is_qr_payment_expired c q now && (is_pending q.status && is_open q.order_id s.0.orders))
        s.0
        (expire_one c now q s).0
unfolding expire_one
expire_one-Expires c now q (w, n) = elim (Bool-cases (is_qr_payment_expired c q now)) [
  | inl expired ↦ rw (expired, expire_one) (finalize_expired_payment-Expires q w)
  | inr live ↦ rw (live, expire_one) record { keeps_open = λ id. refl; payments = refl }
]

abbrev hits : Config → ℕ → (ℕ → Bool) → Payment → Payment → Bool
hits c now open_ r q = q.id == r.id && is_overdue c now open_ q

pub and_narrow : (b e l x : Bool) → b && (not e && not x) ≡ true → b && not (e && l || x) ≡ true
and_narrow b e l x h = ground arith

and_missed :
    (b e x p s t o : Bool)
    → t && (s && o) ≡ false
    → b && not x ≡ true
    → b && not (e && ((p && s) && t && o) || x) ≡ true
and_missed b e x p s t o m h = ground arith

round-count :
    (c : Config) (now : ℕ) (open_ : ℕ → Bool) (q : Payment) (qs : List Payment) (w : World)
    (after : List Payment)
    → after ≡ (
        if is_qr_payment_expired c q now && (is_pending q.status && is_open q.order_id w.orders)
        then save_payment (fail q) w.payments
        else w.payments)
    → is_open q.order_id w.orders ≡ open_ q.order_id
    → count (λ r. is_overdue c now open_ r && not (any (hits c now open_ r) qs)) after
      ≤ count (λ r. is_overdue c now open_ r && not (any (hits c now open_ r) (q ∷ qs))) w.payments
round-count c now open_ q qs w after h same =
    elim (Bool-cases
      (is_qr_payment_expired c q now && (is_pending q.status && is_open q.order_id w.orders))) [
        | inl hit ↦
            let saved : after ≡ save_payment (fail q) w.payments = rw hit at h in
            rw saved (
              omega (
                arith,
                count-save_fail (is_overdue c now open_) (λ r. not (any (hits c now open_ r) qs)) q
                    w.payments (ground arith),
                count-le
                    (λ r.
                      is_overdue c now open_ r
                      && (not (q.id == r.id) && not (any (hits c now open_ r) qs)))
                    (λ r. is_overdue c now open_ r && not (any (hits c now open_ r) (q ∷ qs)))
                    w.payments λ r k. and_narrow _ _ _ _ k,
              ))
        | inr miss ↦
            let saved : after ≡ w.payments = rw miss at h in
            rw saved (
              count-le _ _ w.payments λ r k.
                and_missed _ (q.id == r.id) _ (is_promptpay q.payment_method) (is_pending q.status)
                  (is_qr_payment_expired c q now) (open_ q.order_id) (rw same at miss) k)
      ]

-- After the rounds for `qs`, only what none of them hit is overdue.
expire_loop-count :
    (c : Config) (now : ℕ) (open_ : ℕ → Bool) (qs : List Payment) (s : World × ℕ)
    → ((id : ℕ) → is_open id s.0.orders ≡ open_ id)
    → let after = (expire_loop c now qs s).0 in
      ((id : ℕ) → is_open id after.orders ≡ open_ id)
      × (count (is_overdue c now open_) after.payments
          ≤ count (λ r. is_overdue c now open_ r && not (any (hits c now open_ r) qs)) s.0.payments)
unfolding expire_loop
expire_loop-count c now open_ [] s h = (h, count-le _ _ s.0.payments λ r k. ground arith)
expire_loop-count c now open_ (q ∷ qs) s h =
    let one = expire_one-Expires c now q s in
    let (kept, rest) =
      expire_loop-count c now open_ qs (expire_one c now q s) λ id. one.keeps_open id ∙ h id in
    (kept, omega (arith, rest, round-count c now open_ q qs s.0 _ (one.payments) (h q.order_id)))

-- After the expiry job no QR payment that has run out is still pending, unless its order is cancelled,
-- refunded or missing.
pub expire_pending_qr_payments-none_overdue :
    (c : Config) (now : ℕ) (w : World)
    → let after = (expire_pending_qr_payments c now w).0 in
      count (is_overdue c now (λ id. is_open id after.orders)) after.payments ≡ 0
unfolding expire_pending_qr_payments
expire_pending_qr_payments-none_overdue c now w =
    let open_ : ℕ → Bool = λ id. is_open id w.orders in
    let (kept, bound) =
      expire_loop-count c now open_ (keep is_pending_qr w.payments) (w, 0) λ id. refl in
    let none_left =
      count-keep_hit (is_overdue c now open_) is_pending_qr (hits c now open_) w.payments
        λ r k. (ground arith, ground (arith, ==_refl r.id)) in
    let after = (expire_pending_qr_payments c now w).0 in
    let same =
      count-le (is_overdue c now (λ id. is_open id after.orders)) (is_overdue c now open_)
        after.payments λ r k. rw (sym (kept r.order_id)) k in
    omega (arith, bound, none_left, same)
