-- ===== src/Promotions/Code.antt =====
-- `validateCode`: the checks of one promotion code in the source's order, and its discount.
pub mod Bounds
use new_sopet_backend.Prelude.{
  ℕ, ◌*◌, ◌/◌, min, Bool, true, false, not, ◌&&◌, ◌||◌, Option, none, some, List, [], ◌∷◌, ◌==◌,
  ltb, leb, if◌then◌else◌, find,
}
use new_sopet_backend.Prelude.Text.{Text, text_eq}
use new_sopet_backend.Prelude.Result.{Result, ok, err, ◌>>=◌, ◌>>◌, throw_if}
use new_sopet_backend.Promotions.Model.{
  PromotionType, percentage, fixed_amount, free_shipping, buy_x_get_y, fixed_shipping_discount,
  percentage_shipping_discount, PromotionScope, platform, store, same_scope, Promotion, Tables,
  Identity, Mode, preview, apply, Options, Reason, invalid_promotion, promotion_scope,
  promotion_store, promotion_not_started, promotion_expired, promotion_limit,
  promotion_min_purchase, insufficient_qty, ValidateCodeResult, is_shipping,
}
use new_sopet_backend.Promotions.Gates.{
  evaluate_customer_usage_limit, evaluate_logged_in_only_gate, evaluate_new_customer_gates, Memo,
  is_id,
}
use new_sopet_backend.Promotions.BuyGet.{
  Evaluation, eligibility, insufficient, given, evaluate_buy_x_get_y,
}

unfoldable pub find_active_code : Tables → Text → Result Reason Promotion
find_active_code t code =
    elim (find (λ (p : Promotion). text_eq p.code code && p.is_active && not p.deleted)
      t.promotions) [ none ↦ err invalid_promotion | some p ↦ ok p ]

abbrev pub or_zero : Option ℕ → ℕ
or_zero none = 0
or_zero (some n) = n

abbrev pub lookup : ℕ → List (ℕ × ℕ) → Option ℕ
lookup key [] = none
lookup key ((k, v) ∷ rest) = let later = lookup key rest in if k == key then some v else later

abbrev pub store_fee : Options → ℕ → ℕ
store_fee o id = elim (lookup id o.store_shipping_fees) [
  | none ↦ or_zero o.shipping_fee
  | some fee ↦ fee
]

unfoldable pub resolve_shipping_fee_base : Promotion → Option ℕ → Options → ℕ
resolve_shipping_fee_base promotion none o = or_zero o.shipping_fee
resolve_shipping_fee_base promotion (some id) o =
    if same_scope promotion.scope store then store_fee o id else or_zero o.shipping_fee

abbrev pub soft : Promotion → Reason → ValidateCodeResult
soft promotion reason = record {
  promotion = promotion;
  discount_amount = 0;
  free_units = 0;
  ineligibility_reason = some reason;
}

unfoldable pub resolve_eligibility_failure :
    Promotion → Reason → Mode → Result Reason ValidateCodeResult
resolve_eligibility_failure promotion reason preview = ok (soft promotion reason)
resolve_eligibility_failure promotion reason apply = err reason

-- The checks before the new customer gates return early, or go on with the promotion.
pub data Check : Type 0 where
  stopped : ValidateCodeResult → Check
  passed : Promotion → Check

-- `if (reason) return this.resolveEligibilityFailure(…)`
unfoldable pub unless_reason :
    Option Reason → Promotion → Mode → Result Reason Check → Result Reason Check
unless_reason none promotion mode next = next
unless_reason (some reason) promotion mode next = do
  r ← resolve_eligibility_failure promotion reason mode
  ok (stopped r)

abbrev pub is_some : Option ℕ → Bool
is_some none = false
is_some (some n) = true

abbrev pub is_after : Option ℕ → ℕ → Bool
is_after none now = false
is_after (some t) now = ltb now t

abbrev pub is_before : Option ℕ → ℕ → Bool
is_before none now = false
is_before (some t) now = ltb t now

abbrev pub differs : Option PromotionScope → PromotionScope → Bool
differs none s = false
differs (some required) s = not (same_scope s required)

-- A limit of 0 is no limit, as it is falsy.
abbrev pub limit_reason : Promotion → Option Reason
limit_reason promotion = elim promotion.usage_limit [
  | none ↦ none
  | some limit ↦
      if not (limit == 0) && leb limit promotion.usage_count then some promotion_limit else none
]

abbrev pub is_other_store : Promotion → Option ℕ → Bool
is_other_store promotion none = false
is_other_store promotion (some id) =
    same_scope promotion.scope store && not (is_id promotion.store_id id)

-- From the usage limit to the gate for members.
unfoldable pub limits_and_store :
    Tables → ℕ → Option ℕ → Identity → Mode → Promotion → Result Reason Check
limits_and_store t subtotal store_id c mode promotion =
    unless_reason (limit_reason promotion) promotion mode (
      unless_reason (evaluate_customer_usage_limit t promotion c) promotion mode (do
        throw_if (is_other_store promotion store_id) promotion_store
        throw_if (is_after promotion.min_purchase_amount subtotal) promotion_min_purchase
        unless_reason (evaluate_logged_in_only_gate promotion c) promotion mode
            (ok (passed promotion))))

unfoldable pub before_gates :
    Tables → Text → ℕ → Option ℕ → Identity → Options → ℕ → Result Reason Check
before_gates t code subtotal store_id c o now = do
  promotion ← find_active_code t code
  throw_if (differs o.required_scope promotion.scope) promotion_scope
  throw_if (same_scope promotion.scope store && not (is_some store_id)) promotion_store
  throw_if (same_scope promotion.scope platform && is_some store_id) promotion_scope
  throw_if (is_after promotion.starts_at now) promotion_not_started
  throw_if (is_before promotion.expires_at now) promotion_expired
  limits_and_store t subtotal store_id c o.mode promotion

-- The discount by type before the caps; a percentage in hundredths, a fixed one in satang.
unfoldable pub raw_discount : PromotionType → ℕ → ℕ → ℕ → ℕ
raw_discount percentage value subtotal fee = subtotal * value / 10000
raw_discount fixed_amount value subtotal fee = value * 10000
raw_discount free_shipping value subtotal fee = fee
raw_discount fixed_shipping_discount value subtotal fee = value * 10000
raw_discount percentage_shipping_discount value subtotal fee = fee * value / 10000
raw_discount buy_x_get_y value subtotal fee = 0

abbrev pub cap : Option ℕ → ℕ → ℕ
cap none amount = amount
cap (some most) amount = min amount most

unfoldable pub eligible_base : Promotion → ℕ → Option ℕ → Options → ℕ
eligible_base promotion subtotal store_id o =
    if is_shipping promotion.type then resolve_shipping_fee_base promotion store_id o else subtotal

unfoldable pub clamped : Promotion → ℕ → ℕ → ℕ → Option ℕ → Options → ValidateCodeResult
clamped promotion amount free_units subtotal store_id o = record {
  promotion = promotion;
  discount_amount =
      min (cap promotion.max_discount_amount amount) (eligible_base promotion subtotal store_id o);
  free_units = free_units;
  ineligibility_reason = none;
}

unfoldable pub insufficient_result : Promotion → Mode → ValidateCodeResult
insufficient_result promotion preview = soft promotion insufficient_qty
insufficient_result promotion apply = record {
  promotion = promotion;
  discount_amount = 0;
  free_units = 0;
  ineligibility_reason = none;
}

unfoldable pub use_evaluation :
    Promotion → ℕ → Option ℕ → Options → Evaluation → Result Reason ValidateCodeResult
use_evaluation promotion subtotal store_id o (eligibility reason) =
    resolve_eligibility_failure promotion reason o.mode
use_evaluation promotion subtotal store_id o insufficient =
    ok (insufficient_result promotion o.mode)
use_evaluation promotion subtotal store_id o (given free_units amount) =
    ok (clamped promotion amount free_units subtotal store_id o)

unfoldable pub discount_by_type :
    PromotionType → Promotion → ℕ → Option ℕ → Options → Result Reason ValidateCodeResult
discount_by_type buy_x_get_y promotion subtotal store_id o =
    evaluate_buy_x_get_y promotion o.lines >>= use_evaluation promotion subtotal store_id o
discount_by_type type promotion subtotal store_id o = ok (
    clamped promotion
      (raw_discount type promotion.discount_value subtotal
        (resolve_shipping_fee_base promotion store_id o))
      0 subtotal store_id o)

unfoldable pub discount_result :
    Promotion → ℕ → Option ℕ → Options → Result Reason ValidateCodeResult
discount_result promotion subtotal store_id o =
    discount_by_type promotion.type promotion subtotal store_id o

-- From the answer of the new customer gates on.
unfoldable pub after_gates :
    Promotion → Option Reason → ℕ → Option ℕ → Options → Result Reason ValidateCodeResult
after_gates promotion (some reason) subtotal store_id o =
    resolve_eligibility_failure promotion reason o.mode
after_gates promotion none subtotal store_id o = discount_result promotion subtotal store_id o

-- With the cache that it leaves.
unfoldable pub go_on :
    Tables
    → ℕ
    → Option ℕ
    → Identity
    → Options
    → ℕ
    → Option Memo
    → Result Reason Check
    → Result Reason ValidateCodeResult × Option Memo
go_on t subtotal store_id c o now memo (err e) = (err e, memo)
go_on t subtotal store_id c o now memo (ok (stopped r)) = (ok r, memo)
go_on t subtotal store_id c o now memo (ok (passed promotion)) =
    let (reason, memo') = evaluate_new_customer_gates t promotion c now memo in
    (after_gates promotion reason subtotal store_id o, memo')

unfoldable pub validate_code :
    Tables
    → Text
    → ℕ
    → Option ℕ
    → Identity
    → Options
    → ℕ
    → Option Memo
    → Result Reason ValidateCodeResult × Option Memo
validate_code t code subtotal store_id c o now memo =
    go_on t subtotal store_id c o now memo (before_gates t code subtotal store_id c o now)
