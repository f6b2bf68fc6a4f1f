-- ===== src/Payments/Stale/Payments.antt =====
-- What the loop over the pending payments of an order writes.
use new_sopet_backend.Prelude.{
  ℕ, ◌≡◌, ◌≤◌, refl, false, not, ◌&&◌, inl, inr, List, [], ◌∷◌, arith, ◌==◌, if◌then◌else◌, count,
  count-le, count-keep_hit, any, keep, Bool-cases, ==_refl,
}
use new_sopet_backend.Orders.Fulfillment.{Payment}
use new_sopet_backend.Payments.{
  is_pending, is_pending_payment_of, is_paid_of, fail, save_payment, save_failed,
}
use new_sopet_backend.Payments.Overdue.{count-save_fail, and_narrow}
use new_sopet_backend.Payments.OnePending.{count-save_payment}

-- The rows that are written have failed, so the pending ones that are left were not among them.
save_failed-count :
    (id : ℕ) (qs ps : List Payment)
    → count (is_pending_payment_of id) (save_failed qs ps)
      ≤ count
          (λ r.
            is_pending_payment_of id r && not (any (λ q. q.id == r.id && is_pending q.status) qs))
          ps
unfolding save_failed
save_failed-count id [] ps = count-le _ _ ps λ r k. ground arith
save_failed-count id (q ∷ qs) ps = elim (Bool-cases (is_pending q.status)) [
  | inr done ↦
      let saved : (if is_pending q.status then save_payment (fail q) ps else ps) ≡ ps =
        rw done refl in
      rw saved (
        omega (
          arith,
          save_failed-count id qs ps,
          count-le
              (λ r.
                is_pending_payment_of id r
                && not (any (λ x. x.id == r.id && is_pending x.status) qs))
              (λ r.
                is_pending_payment_of id r
                && not (any (λ x. x.id == r.id && is_pending x.status) (q ∷ qs)))
              ps λ r k. ground arith,
        ))
  | inl live ↦
      let saved : (if is_pending q.status then save_payment (fail q) ps else ps)
          ≡ save_payment (fail q) ps =
        rw live refl in
      rw saved (
        omega (
          arith,
          save_failed-count id qs (save_payment (fail q) ps),
          count-save_fail (is_pending_payment_of id)
              (λ r. not (any (λ x. x.id == r.id && is_pending x.status) qs)) q ps (ground arith),
          count-le
              (λ r.
                is_pending_payment_of id r
                && (not (q.id == r.id) && not (any (λ x. x.id == r.id && is_pending x.status) qs)))
              (λ r.
                is_pending_payment_of id r
                && not (any (λ x. x.id == r.id && is_pending x.status) (q ∷ qs)))
              ps λ r k. and_narrow _ _ _ _ k,
        ))
]

-- All pending payments of an order fail.
pub save_failed-none_pending :
    (id : ℕ) (ps : List Payment)
    → count (is_pending_payment_of id) (save_failed (keep (is_pending_payment_of id) ps) ps) ≡ 0
save_failed-none_pending id ps = omega (
  arith,
  save_failed-count id (keep (is_pending_payment_of id) ps) ps,
  count-keep_hit (is_pending_payment_of id) (is_pending_payment_of id)
      (λ r q. q.id == r.id && is_pending q.status) ps λ r k. (k, ground (arith, ==_refl r.id)),
)

pub save_failed-AtMost :
    (id : ℕ) (qs ps : List Payment)
    → count (is_pending_payment_of id) (save_failed qs ps) ≤ count (is_pending_payment_of id) ps
unfolding save_failed
save_failed-AtMost id [] ps = omega arith
save_failed-AtMost id (q ∷ qs) ps = elim (Bool-cases (is_pending q.status)) [
  | inl live ↦ rw live (
      omega (
        arith,
        save_failed-AtMost id qs (save_payment (fail q) ps),
        count-save_payment id (fail q) ps refl,
      ))
  | inr done ↦ rw done (save_failed-AtMost id qs ps)
]

save_payment-unpaid :
    (id : ℕ) (q : Payment) (ps : List Payment)
    → any (is_paid_of id) ps ≡ false
    → any (is_paid_of id) (save_payment (fail q) ps) ≡ false
save_payment-unpaid id q [] h = refl
save_payment-unpaid id q (p ∷ ps) h = ground (arith, save_payment-unpaid id q ps)

pub save_failed-unpaid :
    (id : ℕ) (qs ps : List Payment)
    → any (is_paid_of id) ps ≡ false
    → any (is_paid_of id) (save_failed qs ps) ≡ false
unfolding save_failed
save_failed-unpaid id [] ps h = h
save_failed-unpaid id (q ∷ qs) ps h = elim (Bool-cases (is_pending q.status)) [
  | inl live ↦ rw live (save_failed-unpaid id qs _ (save_payment-unpaid id q ps h))
  | inr done ↦ rw done (save_failed-unpaid id qs ps h)
]
