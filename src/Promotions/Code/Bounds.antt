-- ===== src/Promotions/Code/Bounds.antt =====
-- What an accepted promotion code may take off.
use new_sopet_backend.Prelude.{
  ℕ, ◌≤◌, ◌≡◌, ◌⊎◌, inl, inr, refl, min, if◌then◌else◌, Option-cases, Option, none, some, arith,
}
use new_sopet_backend.Prelude.Text.{Text}
use new_sopet_backend.Prelude.Result.{
  Result, ok, err, Ensures, Ensures-ok, Ensures-err, Ensures-bind, Ensures-throw_if,
}
use new_sopet_backend.Promotions.Model.{
  Promotion, Tables, Identity, Mode, preview, apply, Options, Reason, ValidateCodeResult,
  PromotionType, percentage, fixed_amount, buy_x_get_y, free_shipping, fixed_shipping_discount,
  percentage_shipping_discount, PromotionScope, platform, store, is_shipping,
}
use new_sopet_backend.Promotions.Gates.{
  Memo, evaluate_customer_usage_limit, evaluate_logged_in_only_gate, evaluate_new_customer_gates,
}
use new_sopet_backend.Promotions.BuyGet.{
  Evaluation, eligibility, insufficient, given, evaluate_buy_x_get_y,
}
use new_sopet_backend.Promotions.Code.{
  resolve_shipping_fee_base, or_zero, lookup, store_fee, Check, stopped, passed, cap, eligible_base,
  resolve_eligibility_failure, soft, unless_reason, limit_reason, limits_and_store, before_gates,
  clamped, insufficient_result, use_evaluation, discount_by_type, discount_result, after_gates,
  go_on, validate_code,
}

-- The amount is no more than a cap, if there is one.
abbrev pub Within : Option ℕ → ℕ → Type 0
Within none amount = Unit
Within (some most) amount = amount ≤ most

-- The fee that the options charge: the one of the store for a code of that store, if it is listed.
abbrev pub fee_charged : PromotionScope → Option ℕ → Options → ℕ
fee_charged store (some id) o = elim (lookup id o.store_shipping_fees) [
  | some fee ↦ fee
  | none ↦ or_zero o.shipping_fee
]
fee_charged _ _ o = or_zero o.shipping_fee

-- What a promotion of a type is taken off: the subtotal of the items, or the fee.
abbrev pub taken_off : PromotionType → ℕ → ℕ → ℕ
taken_off percentage subtotal fee = subtotal
taken_off fixed_amount subtotal fee = subtotal
taken_off buy_x_get_y subtotal fee = subtotal
taken_off free_shipping subtotal fee = fee
taken_off fixed_shipping_discount subtotal fee = fee
taken_off percentage_shipping_discount subtotal fee = fee

fee_charged-eq :
    (p : Promotion) (store_id : Option ℕ) (o : Options)
    → resolve_shipping_fee_base p store_id o ≡ fee_charged p.scope store_id o
unfolding resolve_shipping_fee_base
fee_charged-eq p store_id o = go p.scope store_id
  where
    go :
        (s : PromotionScope) (id : Option ℕ)
        → resolve_shipping_fee_base (record p { scope = s }) id o ≡ fee_charged s id o
    go platform none = refl
    go platform (some id) = refl
    go store none = refl
    go store (some id) = elim (Option-cases (lookup id o.store_shipping_fees)) [
      | inl missing ↦ rw (store_fee, fee_charged, missing) refl
      | inr (fee, listed) ↦ rw (store_fee, fee_charged, listed) refl
    ]

eligible_base-eq :
    (p : Promotion) (subtotal : ℕ) (store_id : Option ℕ) (o : Options)
    → eligible_base p subtotal store_id o
      ≡ taken_off p.type subtotal (fee_charged p.scope store_id o)
unfolding eligible_base
eligible_base-eq p subtotal store_id o = go p.type
  where
    go :
        (t : PromotionType)
        → (if is_shipping t then resolve_shipping_fee_base p store_id o else subtotal)
          ≡ taken_off t subtotal (fee_charged p.scope store_id o)
    go percentage = refl
    go fixed_amount = refl
    go buy_x_get_y = refl
    go free_shipping = fee_charged-eq p store_id o
    go fixed_shipping_discount = fee_charged-eq p store_id o
    go percentage_shipping_discount = fee_charged-eq p store_id o

pub record Honoured (subtotal : ℕ) (store_id : Option ℕ) (o : Options) (r : ValidateCodeResult)
    : Type 0 where
  pub within_base :
      r.discount_amount
      ≤ taken_off r.promotion.type subtotal (fee_charged r.promotion.scope store_id o)
  pub within_cap : Within r.promotion.max_discount_amount r.discount_amount
  pub nothing_if_refused :
      (r.ineligibility_reason ≡ none) ⊎ ((r.discount_amount ≡ 0) × (r.free_units ≡ 0))
  pub refused_in_preview : (o.mode ≡ preview) ⊎ (r.ineligibility_reason ≡ none)

Within-zero : (most : Option ℕ) → Within most 0
Within-zero none = tt
Within-zero (some m) = omega arith

Within-cap : (most : Option ℕ) (amount base : ℕ) → Within most (min (cap most amount) base)
Within-cap none amount base = tt
Within-cap (some m) amount base = omega arith

module _ (subtotal : ℕ) (store_id : Option ℕ) (o : Options) where
  abbrev P : ValidateCodeResult → Type 0
  P = Honoured subtotal store_id o

  clamped-Honoured :
      (p : Promotion) (amount free : ℕ) → P (clamped p amount free subtotal store_id o)
  unfolding clamped
  clamped-Honoured p amount free = record {
    within_base = omega (arith, eligible_base-eq p subtotal store_id o);
    within_cap = Within-cap p.max_discount_amount amount (eligible_base p subtotal store_id o);
    nothing_if_refused = inl refl;
    refused_in_preview = inr refl;
  }

  failure-Honoured :
      (m : Mode) (p : Promotion) (reason : Reason)
      → o.mode ≡ m
      → Ensures P (resolve_eligibility_failure p reason m)
  unfolding resolve_eligibility_failure
  failure-Honoured preview p reason e = Ensures-ok P (soft p reason) (record {
    within_base = omega arith;
    within_cap = Within-zero p.max_discount_amount;
    nothing_if_refused = inr (refl, refl);
    refused_in_preview = inl e;
  })
  failure-Honoured apply p reason e = Ensures-err P reason

  insufficient-Honoured : (m : Mode) (p : Promotion) → o.mode ≡ m → P (insufficient_result p m)
  unfolding insufficient_result
  insufficient-Honoured preview p e = record {
    within_base = omega arith;
    within_cap = Within-zero p.max_discount_amount;
    nothing_if_refused = inr (refl, refl);
    refused_in_preview = inl e;
  }
  insufficient-Honoured apply p e = record {
    within_base = omega arith;
    within_cap = Within-zero p.max_discount_amount;
    nothing_if_refused = inl refl;
    refused_in_preview = inr refl;
  }

  use_evaluation-Honoured :
      (p : Promotion) (e : Evaluation) → Ensures P (use_evaluation p subtotal store_id o e)
  unfolding use_evaluation
  use_evaluation-Honoured p (eligibility reason) = failure-Honoured o.mode p reason refl
  use_evaluation-Honoured p insufficient =
      Ensures-ok P (insufficient_result p o.mode) (insufficient-Honoured o.mode p refl)
  use_evaluation-Honoured p (given free amount) =
      Ensures-ok P (clamped p amount free subtotal store_id o) (clamped-Honoured p amount free)

  discount_by_type-Honoured :
      (type : PromotionType) (p : Promotion)
      → Ensures P (discount_by_type type p subtotal store_id o)
  unfolding discount_by_type
  discount_by_type-Honoured buy_x_get_y p =
      Ensures-bind P (evaluate_buy_x_get_y p o.lines) (use_evaluation p subtotal store_id o)
        (λ e _. use_evaluation-Honoured p e)
  discount_by_type-Honoured _ p = Ensures-ok P _ (clamped-Honoured p _ 0)

  after_gates-Honoured :
      (p : Promotion) (reason : Option Reason)
      → Ensures P (after_gates p reason subtotal store_id o)
  unfolding after_gates discount_result
  after_gates-Honoured p (some reason) = failure-Honoured o.mode p reason refl
  after_gates-Honoured p none = discount_by_type-Honoured p.type p

  -- An early return is honoured too.
  abbrev Q : Check → Type 0
  Q (stopped r) = P r
  Q (passed p) = Unit

  unless_reason-Q :
      (reason : Option Reason) (p : Promotion) (next : Result Reason Check)
      → Ensures Q next
      → Ensures Q (unless_reason reason p o.mode next)
  unfolding unless_reason
  unless_reason-Q none p next h = h
  unless_reason-Q (some reason) p next h =
      Ensures-bind Q (resolve_eligibility_failure p reason o.mode) (λ r. ok (stopped r))
        λ r e. Ensures-ok Q (stopped r) ((failure-Honoured o.mode p reason refl).at r e)

  module _ (t : Tables) (c : Identity) (now : ℕ) where
    limits_and_store-Q :
        (p : Promotion) → Ensures Q (limits_and_store t subtotal store_id c o.mode p)
    unfolding limits_and_store
    limits_and_store-Q p = unless_reason-Q (limit_reason p) p _ (
        unless_reason-Q (evaluate_customer_usage_limit t p c) p _ (
          Ensures-throw_if Q _ _ _ λ _. Ensures-throw_if Q _ _ _ λ _.
            unless_reason-Q (evaluate_logged_in_only_gate p c) p _ (Ensures-ok Q (passed p) tt)))

    before_gates-Q : (code : Text) → Ensures Q (before_gates t code subtotal store_id c o now)
    unfolding before_gates
    before_gates-Q code = Ensures-bind Q _ _ λ p _. Ensures-throw_if Q _ _ _ λ _.
        Ensures-throw_if Q _ _ _ λ _.
          Ensures-throw_if Q _ _ _
            λ _. Ensures-throw_if Q _ _ _ λ _. Ensures-throw_if Q _ _ _ λ _. limits_and_store-Q p

    go_on-Honoured :
        (memo : Option Memo) (r : Result Reason Check)
        → Ensures Q r
        → Ensures P (go_on t subtotal store_id c o now memo r).0
    unfolding go_on
    go_on-Honoured memo (err e) h = Ensures-err P e
    go_on-Honoured memo (ok (stopped r)) h = Ensures-ok P r (h.at (stopped r) refl)
    go_on-Honoured memo (ok (passed p)) h =
        after_gates-Honoured p (evaluate_new_customer_gates t p c now memo).0

    -- An accepted code takes off no more than the subtotal or, for the three shipping types, than the
    -- shipping fee (that of the store for its own code, if it is listed), and no more than its own cap. Where a reason says that it is not
    -- eligible it gives nothing, and only a preview answers so.
    pub validate_code-Honoured :
        (code : Text) (memo : Option Memo) (r : ValidateCodeResult)
        → (validate_code t code subtotal store_id c o now memo).0 ≡ ok r
        → Honoured subtotal store_id o r
    unfolding validate_code
    validate_code-Honoured code memo r h = (go_on-Honoured memo _ (before_gates-Q code)).at r h
