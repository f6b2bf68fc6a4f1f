-- ===== src/Payouts/Amount.antt =====
-- The amounts of the payouts that modules/payouts/payouts.service.ts creates.
use native.Mathlib.Nat.{mul-le-mul, le_refl}
use new_sopet_backend.Prelude.{
  ℕ, ◌≡◌, ◌≤◌, ◌<◌, ◌+◌, ◌-◌, refl, sym, ap, ◌∙◌, true, false, inl, inr, Option, List, arith, ◌==◌,
  ltb, leb, leb→lt, min, any, Bool-cases, ==_iff,
}
use new_sopet_backend.Prelude.Result.{ok, ◌>>=◌, throw_if, Ensures-ok, Ensures-throw_if}
use new_sopet_backend.Commission.{
  UnpaidBuckets, commission_satang, to_satang, from_satang, take_post_net, largest_post_product,
  breakdown, consume_to_amount,
}
use new_sopet_backend.Commission.Rate.{to_satang-from_satang, commission-zero}
use new_sopet_backend.Commission.Bisect.{largest_post_product-IsLargest}
use new_sopet_backend.Commission.Payable.{payable, consume_to_amount-net, finalize_breakdown-net}
use new_sopet_backend.Payouts.{
  PayoutSettlementRail, Payout, Store, Sales, Settings, pending, is_pending_payout,
}
use new_sopet_backend.Payouts.Owed.{
  unpaid_buckets, compute_unpaid_breakdown, available_balance, at_least_zero,
}
use new_sopet_backend.Payouts.Insert.{
  insert_snapshot_payout, create_pending, commission_formula_holds, or_all, snapshot, rate_of,
}

-- Below half, no amount nets nothing.
free_commission-zero : (x rate : ℕ) → rate ≤ 49 → x ≤ commission_satang x rate → x ≡ 0
unfolding commission_satang
free_commission-zero x rate h k = omega (arith, mul-le-mul (le_refl x) h)

take_post_net-zero : (post rate : ℕ) → rate ≤ 49 → take_post_net post 0 rate ≡ (0, 0)
unfolding take_post_net
take_post_net-zero post rate h = elim (Bool-cases (leb post (0 + commission_satang post rate))) [
  | inl all ↦
      let e : post ≡ 0 = free_commission-zero post rate h (ground arith) in
      rw (e, commission-zero rate) refl
  | inr part ↦
      let l = largest_post_product-IsLargest rate 0 (omega arith) post in
      let e : largest_post_product post 0 rate ≡ 0 =
        free_commission-zero (largest_post_product post 0 rate) rate h (omega (arith, l.fits)) in
      rw (part, e, commission-zero rate) refl
]

-- What the assertion takes for the post-commission product is it.
post_of :
    (pre amount x take : ℕ)
    → (amount < pre → take ≡ 0)
    → min pre amount + min (pre - min pre amount) x + take - pre ≡ take
post_of pre amount x take h = elim (Bool-cases (leb pre amount)) [
  | inl whole ↦ ground arith
  | inr part ↦
      let e : take ≡ 0 = h (leb→lt pre amount part) in rw e (omega (arith, leb→lt pre amount part))
]

-- With a rate below half, the commission of a payout always passes `assertCommissionFormula`.
pub consume_to_amount-formula :
    (unpaid : UnpaidBuckets) (amount rate : ℕ)
    → rate ≤ 49
    → commission_formula_holds (consume_to_amount unpaid amount rate) unpaid rate ≡ true
unfolding commission_formula_holds consume_to_amount breakdown
consume_to_amount-formula unpaid amount rate h =
    let pre : ℕ = to_satang unpaid.unpaid_pre in
    let none_left : to_satang amount < pre
        → (take_post_net (to_satang unpaid.unpaid_post)
            (to_satang amount - min pre (to_satang amount)) rate).0
          ≡ 0 =
      λ less.
        let e : to_satang amount - min pre (to_satang amount) ≡ 0 = omega (arith, less) in
        rw e (ap (λ (x : ℕ × ℕ). x.0) (take_post_net-zero (to_satang unpaid.unpaid_post) rate h)) in
    (==_iff _ _).1 (
      to_satang-from_satang _
      ∙ ap (λ x. commission_satang x rate)
          (sym (
            ap (λ x. x - pre) (to_satang-from_satang _)
            ∙ post_of pre (to_satang amount) _ _ none_left)))

-- What a new payout is: of the amount asked for, to the satang, which is the whole balance where none is
-- named. Less than half a satang is a payout of nothing.
pub record IsPaid (n : ℕ) (s : Store) (rail : PayoutSettlementRail) (asked balance : ℕ) (p : Payout)
    : Type 0 where
  pub row : (p.id ≡ n) × (p.store_id ≡ s.id) × (p.settlement_rail ≡ rail) × (p.status ≡ pending)
  pub amount : p.amount ≡ from_satang (to_satang asked)
  pub net : p.net_amount ≡ p.amount
  pub asked_positive : 1 ≤ asked
  pub asked_within : asked ≤ balance
  pub positive : 50 ≤ asked → 1 ≤ p.amount
  pub within : p.amount ≤ balance

to_satang_mono : (a b : ℕ) → a ≤ b → to_satang a ≤ to_satang b
unfolding to_satang
to_satang_mono a b h = omega (arith, h)

pub available_balance-payable :
    (c : Settings) (s : Store) (rail : PayoutSettlementRail) (sales : Sales) (ps : List Payout)
    → rate_of c s ≤ 100
    → available_balance c s rail sales ps
      ≡ from_satang (payable (unpaid_buckets c s.id rail sales ps) (rate_of c s))
unfolding compute_unpaid_breakdown
available_balance-payable c s rail sales ps h =
    rw (finalize_breakdown-net (rate_of c s) h (unpaid_buckets c s.id rail sales ps)) refl

rounded_positive : (asked : ℕ) → 50 ≤ asked → 1 ≤ from_satang (to_satang asked)
unfolding from_satang to_satang
rounded_positive asked h = omega (arith, h)

rounded_within :
    (asked balance k : ℕ)
    → balance ≡ from_satang k
    → asked ≤ balance
    → from_satang (to_satang asked) ≤ balance
unfolding from_satang to_satang
rounded_within asked balance k e h = omega (arith, e, h)

consumed_amount :
    (unpaid : UnpaidBuckets) (rate asked balance : ℕ)
    → rate ≤ 100
    → balance ≡ from_satang (payable unpaid rate)
    → asked ≤ balance
    → at_least_zero (consume_to_amount unpaid asked rate).net ≡ from_satang (to_satang asked)
consumed_amount unpaid rate asked balance h e within =
    let top : to_satang balance ≡ payable unpaid rate = ap to_satang e ∙ to_satang-from_satang _ in
    let less : to_satang asked ≤ payable unpaid rate =
      omega (arith, top, to_satang_mono asked balance within) in
    rw (consume_to_amount-net rate h unpaid asked) (ap from_satang (omega (arith, less)))

ltb→le : (a b : ℕ) → ltb a b ≡ false → b ≤ a
ltb→le a b h = ground arith

module _ (c : Settings) (sales : Sales) (n : ℕ) (s : Store) (rail : PayoutSettlementRail)
    (amount : Option ℕ) (ps : List Payout) where
  abbrev balance : ℕ
  balance = available_balance c s rail sales ps

  abbrev row : Payout
  row = snapshot n s.id rail (
      consume_to_amount (unpaid_buckets c s.id rail sales ps) (or_all amount balance) (rate_of c s))

  row-IsPaid :
      rate_of c s ≤ 100
      → (or_all amount balance == 0) ≡ false
      → or_all amount balance ≤ balance
      → IsPaid n s rail (or_all amount balance) balance row
  row-IsPaid h positive within =
      let owed = available_balance-payable c s rail sales ps h in
      let exact : row.amount ≡ from_satang (to_satang (or_all amount balance)) =
        consumed_amount (unpaid_buckets c s.id rail sales ps) (rate_of c s) (or_all amount balance)
          balance h owed within in
      record {
        row = (refl, refl, refl, refl);
        amount = exact;
        net = refl;
        asked_positive = ground arith;
        asked_within = within;
        positive = λ half. rw exact (rounded_positive (or_all amount balance) half);
        within = rw exact (
            rounded_within (or_all amount balance) balance
              (payable (unpaid_buckets c s.id rail sales ps) (rate_of c s)) owed within);
      }

  -- A payout that is created, at a rate up to 100, is the new pending row of the store and rail. The amount
  -- asked for is positive and within the balance, and that of the row is it to the satang: within the
  -- balance, and positive where at least half a satang was asked for. Before it the store had no open payout
  -- on the rail.
  pub create_pending-IsPaid :
      (p : Payout)
      → rate_of c s ≤ 100
      → create_pending c sales n s rail amount ps ≡ ok p
      → IsPaid n s rail
          (or_all amount (available_balance c s rail sales ps))
          (available_balance c s rail sales ps)
          p
        × (any (is_pending_payout s.id rail) ps ≡ false)
  unfolding create_pending insert_snapshot_payout
  create_pending-IsPaid p h =
      (Ensures-throw_if
          (λ q.
            IsPaid n s rail (or_all amount balance) balance q
            × (any (is_pending_payout s.id rail) ps ≡ false))
          _ _ _
          λ free. Ensures-throw_if _ _ _ _ λ positive. Ensures-throw_if _ _ _ _ λ within.
            Ensures-throw_if _ _ _ _
              λ formula. Ensures-ok _ _ (row-IsPaid h positive (ltb→le _ _ within), free)).at
        p

  -- At a rate below half, a positive amount within the balance of a store without an open payout on the
  -- rail is always paid, so the check of the commission never refuses it.
  pub create_pending-succeeds :
      rate_of c s ≤ 49
      → any (is_pending_payout s.id rail) ps ≡ false
      → ltb 0 (or_all amount (available_balance c s rail sales ps)) ≡ true
      → or_all amount (available_balance c s rail sales ps) ≤ available_balance c s rail sales ps
      → (p : Payout) × (create_pending c sales n s rail amount ps ≡ ok p)
        × IsPaid n s rail
            (or_all amount (available_balance c s rail sales ps))
            (available_balance c s rail sales ps)
            p
  unfolding create_pending insert_snapshot_payout ◌>>=◌ throw_if
  create_pending-succeeds h free positive within =
      let some_amount : (or_all amount balance == 0) ≡ false = ground arith in
      let enough : ltb balance (or_all amount balance) ≡ false = ground arith in
      (
        row,
        rw
            (
              free,
              some_amount,
              enough,
              consume_to_amount-formula (unpaid_buckets c s.id rail sales ps)
                  (or_all amount balance) (rate_of c s) h,
            )
            refl,
        row-IsPaid (omega (arith, h)) some_amount within,
      )
