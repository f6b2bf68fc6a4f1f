-- ===== src/Payments/Final.antt =====
-- A cancelled or refunded order stays as it is.
pub mod Requests
pub mod Runs
use new_sopet_backend.Prelude.{
  ℕ, ◌≡◌, ◌≢◌, refl, sym, ap, subst, ◌∙◌, Bool, true, false, not, ◌&&◌, ◌||◌, inl, inr, Option,
  none, some, List, [], ◌∷◌, arith, ◌==◌, if◌then◌else◌, find, any, keep, Bool-cases, Option-cases,
  ==_refl, ==_iff,
}
use new_sopet_backend.Prelude.Result.{
  Result, ok, err, Ensures, Ensures-ok, Ensures-err, Ensures-bind, Ensures-throw_if,
}
use mathlib.Core.Option.{some-injective}
use new_sopet_backend.Orders.Status.{OrderStatus, pending_payment, same_order, is_terminal_order}
use new_sopet_backend.Orders.Fulfillment.{Order, Payment, World, save_in}
use new_sopet_backend.Orders.Rows.{charge}
use new_sopet_backend.Orders.Fulfillment.Kept.{find-test, find-save_in_cases}
use new_sopet_backend.Payments.{
  Config, is_charge, latest_payment, is_pending, refers_to_payment, finalize_expired,
  finalize_expired_payment, is_qr_payment_expired, expire_one, expire_loop,
  expire_pending_qr_payments, is_skipped, is_stale, cancel_order_restore_stock_and_fail_payments,
  cancel_stale_one, cancel_stale_loop, cancel_stale_unpaid_orders,
}
use new_sopet_backend.Payments.Tables.{UniqueIds, find-UniqueIds}

any-save_in :
    (n : ℕ) (o : Order) (os : List Order)
    → any (λ (p : Order). p.id == n) (save_in o os) ≡ any (λ (p : Order). p.id == n) os
any-save_in n o [] = refl
any-save_in n o (p ∷ ps) = elim (Bool-cases (p.id == o.id)) [
  | inl own ↦
      let e : p.id ≡ o.id = (==_iff p.id o.id).0 own in ground (arith, e, any-save_in n o ps)
  | inr other ↦ ground (arith, any-save_in n o ps)
]

save_in-UniqueIds : (o : Order) (os : List Order) → UniqueIds os → UniqueIds (save_in o os)
save_in-UniqueIds o [] u = tt
save_in-UniqueIds o (p ∷ ps) u = elim (Bool-cases (p.id == o.id)) [
  | inl own ↦
      let e : p.id ≡ o.id = (==_iff p.id o.id).0 own in
      rw own (
        any-save_in o.id o ps ∙ subst (λ n. any (λ (q : Order). q.id == n) ps ≡ false) e u.0,
        save_in-UniqueIds o ps u.1,
      )
  | inr other ↦ rw other (any-save_in p.id o ps ∙ u.0, save_in-UniqueIds o ps u.1)
]

-- The table has its key, and the order of this id has this status.
pub record Has (id : ℕ) (s : OrderStatus) (w : World) : Type 0 where
  pub unique : UniqueIds w.orders
  pub order : Order
  pub is : find (λ (p : Order). p.id == id) w.orders ≡ some order
  pub status : order.status ≡ s

module _ (id : ℕ) (s : OrderStatus) where
  pub save-Has :
      (saved : Order) (w w' : World)
      → w'.orders ≡ save_in saved w.orders
      → (saved.id ≡ id → saved.status ≡ s)
      → Has id s w
      → Has id s w'
  save-Has saved w w' e keeps h = elim (find-save_in_cases id saved w.orders) [
    | inl same ↦ record {
      unique = subst UniqueIds (sym e) (save_in-UniqueIds saved w.orders h.unique);
      order = h.order;
      is = ap (λ os. find (λ (p : Order). p.id == id) os) e ∙ (same ∙ h.is);
      status = h.status;
    }
    | inr (own, found) ↦ record {
      unique = subst UniqueIds (sym e) (save_in-UniqueIds saved w.orders h.unique);
      order = saved;
      is = ap (λ os. find (λ (p : Order). p.id == id) os) e ∙ found;
      status = keeps own;
    }
  ]

  -- An order that was found in the table, under its id or not, is the one of its id.
  pub found-status :
      (t : Order → Bool) (q : Order) (w : World)
      → Has id s w
      → find t w.orders ≡ some q
      → q.id ≡ id
      → q.status ≡ s
  found-status t q w h found own =
      let mine = find-UniqueIds t w.orders q h.unique found in
      let here : find (λ (p : Order). p.id == id) w.orders ≡ some q =
        subst (λ n. find (λ (p : Order). p.id == n) w.orders ≡ some q) own mine in
      let same : q ≡ h.order = some-injective q h.order (sym here ∙ h.is) in
      ap (λ (o : Order). o.status) same ∙ h.status

  finalize_expired-Has :
      (t : Order → Bool) (o : Order) (p : Payment) (w : World)
      → find t w.orders ≡ some o
      → Has id s w
      → Has id s (finalize_expired o p w).0
  unfolding finalize_expired
  finalize_expired-Has t o p w found h =
      elim (Bool-cases (is_terminal_order o.status || not (is_pending p.status))) [
        | inl skip ↦ rw (skip, finalize_expired) h
        | inr go ↦ elim (Bool-cases (refers_to_payment o.payment_reference p.omise_charge_id)) [
          | inl own ↦
              rw (go, own, finalize_expired)
                (save-Has (record o { payment_reference = none }) w _ refl
                  (found-status t o w h found) h)
          | inr other ↦
              rw (go, other, finalize_expired)
                record { unique = h.unique; order = h.order; is = h.is; status = h.status }
        ]
      ]

  expire_one-Has :
      (c : Config) (now : ℕ) (p : Payment) (x : World × ℕ)
      → Has id s x.0
      → Has id s (expire_one c now p x).0
  unfolding expire_one finalize_expired_payment
  expire_one-Has c now p (w, n) h = elim (Bool-cases (not (is_qr_payment_expired c p now))) [
    | inl live ↦ rw (live, expire_one) h
    | inr expired ↦ elim (Option-cases (find (λ (o : Order). o.id == p.order_id) w.orders)) [
      | inl missing ↦ rw (expire_one, expired, finalize_expired_payment, missing) h
      | inr (o, found) ↦
          rw (expire_one, expired, finalize_expired_payment, found)
            (finalize_expired-Has _ o p w found h)
    ]
  ]

  expire_loop-Has :
      (c : Config) (now : ℕ) (ps : List Payment) (x : World × ℕ)
      → Has id s x.0
      → Has id s (expire_loop c now ps x).0
  unfolding expire_loop
  expire_loop-Has c now [] x h = h
  expire_loop-Has c now (p ∷ ps) x h = expire_loop-Has c now ps _ (expire_one-Has c now p x h)

  pub expire_pending_qr_payments-Has :
      (c : Config) (now : ℕ) (w : World)
      → Has id s w
      → Has id s (expire_pending_qr_payments c now w).0
  unfolding expire_pending_qr_payments
  expire_pending_qr_payments-Has c now w h = expire_loop-Has c now _ (w, 0) h
