-- ===== src/Promotions/Batch.antt =====
-- `validatePromotionsBatch`: each target is answered softly, with one memo for the request.
pub mod Alone
use new_sopet_backend.Prelude.{
  ℕ, Bool, true, false, not, ◌&&◌, ◌||◌, Option, none, some, List, [], ◌∷◌, ◌==◌, ltb, leb,
  if◌then◌else◌, find, length,
}
use new_sopet_backend.Prelude.Text.{Text, text_eq, is_empty}
use new_sopet_backend.Prelude.Result.{Result, ok, err}
use new_sopet_backend.Promotions.Model.{
  Promotion, Tables, Identity, CartLine, preview, Options, Reason, invalid_promotion,
  invalid_validate_promotions_input, ValidateCodeResult,
}
use new_sopet_backend.Promotions.Gates.{Memo}
use new_sopet_backend.Promotions.Code.{validate_code}

abbrev pub max_targets : ℕ
max_targets = 20

pub record Target : Type 0 where
  pub id : Option ℕ
  pub code : Option Text

pub record EligibilityItem : Type 0 where
  pub id : Option ℕ
  pub code : Text
  pub name : Option Text
  pub eligible : Bool
  pub ineligibility_reason : Option Reason
  pub discount_amount : ℕ
  pub free_units : ℕ

unfoldable pub soft_ineligible_item : Option ℕ → Text → Option Text → Reason → EligibilityItem
soft_ineligible_item id code name reason = record {
  id = id;
  code = code;
  name = name;
  eligible = false;
  ineligibility_reason = some reason;
  discount_amount = 0;
  free_units = 0;
}

unfoldable pub to_eligibility_item : ValidateCodeResult → EligibilityItem
to_eligibility_item r = elim r.ineligibility_reason [
  | some reason ↦
      soft_ineligible_item (some r.promotion.id) r.promotion.code (some r.promotion.name) reason
  | none ↦ record {
    id = some r.promotion.id;
    code = r.promotion.code;
    name = some r.promotion.name;
    eligible = true;
    ineligibility_reason = none;
    discount_amount = r.discount_amount;
    free_units = r.free_units;
  }
]

-- The text behind `inputCode ?? ''`.
abbrev pub code_or_empty : Option Text → Text
code_or_empty none = []
code_or_empty (some t) = t

-- What the query passes for every target.
pub record Query : Type 0 where
  pub subtotal : ℕ
  pub store_id : Option ℕ
  pub customer : Identity
  pub lines : Option (List CartLine)
  pub shipping_fee : Option ℕ

abbrev pub preview_options : Query → Options
preview_options q = record {
  lines = q.lines;
  mode = preview;
  shipping_fee = q.shipping_fee;
  store_shipping_fees = [];
  required_scope = none;
}

abbrev pub and_memo : Option Memo → Memo → Memo
and_memo none m = m
and_memo (some m') m = m'

-- The answer as an item: every exception of `validateCode` is a `BadRequestException`.
unfoldable pub soften :
    Option ℕ → Text → Option Text → Result Reason ValidateCodeResult → EligibilityItem
soften id code name (ok r) = to_eligibility_item r
soften id code name (err reason) = soft_ineligible_item id code name reason

-- The call of `validateCode`, and what to report if it throws.
unfoldable pub validate_softly :
    Tables → Query → ℕ → Memo → Option ℕ → Text → Option Text → EligibilityItem × Memo
validate_softly t q now memo id code name =
    let (r, memo') =
      validate_code t code q.subtotal q.store_id q.customer (preview_options q) now (some memo) in
    (soften id code name r, and_memo memo' memo)

-- A target with an id that was found.
unfoldable pub evaluate_resolved :
    Tables → Query → ℕ → Memo → Option Text → Promotion → EligibilityItem × Memo
evaluate_resolved t q now memo input_code p =
    if not (is_empty (code_or_empty input_code)) && not (text_eq p.code (code_or_empty input_code))
    then (
      soft_ineligible_item (some p.id) (code_or_empty input_code) (some p.name) invalid_promotion,
      memo,
    )
    else if not p.is_active
    then (soft_ineligible_item (some p.id) p.code (some p.name) invalid_promotion, memo)
    else if is_empty p.code
    then (soft_ineligible_item none [] none invalid_promotion, memo)
    else validate_softly t q now memo (some p.id) p.code (some p.name)

unfoldable pub evaluate_batch_target : Tables → Query → ℕ → Memo → Target → EligibilityItem × Memo
evaluate_batch_target t q now memo target = elim target.id [
  | none ↦
      if is_empty (code_or_empty target.code)
      then (soft_ineligible_item none [] none invalid_promotion, memo)
      else validate_softly t q now memo none (code_or_empty target.code) none
  | some id ↦ elim (find (λ (p : Promotion). p.id == id && not p.deleted) t.promotions) [
    | none ↦ (soft_ineligible_item none (code_or_empty target.code) none invalid_promotion, memo)
    | some p ↦ evaluate_resolved t q now memo target.code p
  ]
]

-- The loop over the targets.
unfoldable pub evaluate_targets : Tables → Query → ℕ → Memo → List Target → List EligibilityItem
evaluate_targets t q now memo [] = []
evaluate_targets t q now memo (target ∷ targets) =
    let (item, memo') = evaluate_batch_target t q now memo target in
    item ∷ evaluate_targets t q now memo' targets

unfoldable pub validate_promotions_batch :
    Tables → Query → ℕ → List Target → Result Reason (List EligibilityItem)
validate_promotions_batch t q now targets =
    if ltb (length targets) 1 || ltb max_targets (length targets)
    then err invalid_validate_promotions_input
    else ok (evaluate_targets t q now [] targets)
