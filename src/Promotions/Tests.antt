-- ===== src/Promotions/Tests.antt =====
-- Runs of the promotion codes, and the theorems at concrete carts.
use new_sopet_backend.Prelude.{
  ℕ, ◌+◌, ◌<◌, arith, ◌*◌, ◌≤◌, ◌≡◌, refl, true, false, Option, none, some, List, [], ◌∷◌, map,
  sum_by, length, ◌==◌, if◌then◌else◌,
}
use new_sopet_backend.Prelude.Int.{pos}
use new_sopet_backend.Prelude.Text.{Text, codes, trim}
use new_sopet_backend.Prelude.Result.{ok, ◌>>=◌, throw_if}
use new_sopet_backend.Promotions.Model.{
  integer, text, object, boolean, no_fields, field, PromotionType, percentage, free_shipping,
  buy_x_get_y, PromotionScope, platform, store, Promotion, Tables, Identity, CartLine, apply,
  Options, ValidateCodeResult,
}
use new_sopet_backend.Promotions.Gates.{
  evaluate_customer_usage_limit, evaluate_logged_in_only_gate, evaluate_new_customer_gates,
}
use new_sopet_backend.Promotions.BuyGet.{
  Rule, UnitSlot, rule_of, exceeds_cap, units_of, insert, sort, insufficient, given, free_units_of,
  price_of, give_cheapest, evaluate_buy_x_get_y,
}
use new_sopet_backend.Promotions.BuyGet.Cheapest.{CheapestOf, give_cheapest_lem}
use new_sopet_backend.Promotions.Code.{
  find_active_code, resolve_shipping_fee_base, unless_reason, limits_and_store, before_gates,
  raw_discount, eligible_base, clamped, use_evaluation, discount_by_type, discount_result,
  after_gates, go_on, validate_code,
}
use new_sopet_backend.Promotions.Code.Bounds.{Honoured, validate_code-Honoured}
use new_sopet_backend.Promotions.Batch.{
  Target, Query, evaluate_batch_target, validate_promotions_batch,
}
use new_sopet_backend.Promotions.Batch.Alone.{validate_promotions_batch_lem}
use new_sopet_backend.Promotions.Stack.{
  initial, absorb_item, absorb, absorb_all, conclude, Stacked, validate_platform_code,
  validate_store_codes, validate_stack, apply_stacked_promotions,
}
use new_sopet_backend.Promotions.Stack.Total.{recorded, apply_stacked_promotions_lem}

abbrev baht : ℕ
baht = 1000000

abbrev a_promotion : ℕ → Text → PromotionType → PromotionScope → Option ℕ → ℕ → Promotion
a_promotion id code type scope store_id value = record {
  id = id;
  code = code;
  name = code;
  description = none;
  type = type;
  scope = scope;
  store_id = store_id;
  discount_value = value;
  min_purchase_amount = none;
  max_discount_amount = some (50 * baht);
  usage_limit = none;
  usage_per_customer = 1;
  usage_count = 0;
  is_active = true;
  auto_apply = false;
  priority = pos 0;
  conditions = no_fields;
  starts_at = none;
  expires_at = none;
  deleted = false;
}

abbrev ten : Promotion
ten = a_promotion 1 (codes "TEN") percentage platform none 1000

abbrev ship : Promotion
ship = a_promotion 2 (codes "SHIP") free_shipping store (some 7) 0

-- Buy two of the product, get one.
abbrev trio : Promotion
trio = record (a_promotion 3 (codes "TRIO") buy_x_get_y store (some 7) 0) {
  conditions =
      field (codes "productId") (text (codes "bone")) (
        field (codes "buyQuantity") (integer 2)
          (field (codes "getQuantity") (integer 1) no_fields));
}

-- For new customers, in their first 30 days.
abbrev welcome : Promotion
welcome = record (a_promotion 4 (codes "NEW") percentage platform none 1000) {
  conditions =
      field (codes "newCustomer")
        (object
          (field (codes "enabled") (boolean true) (field (codes "nDays") (integer 30) no_fields)))
        no_fields;
}

abbrev tables : Tables
tables = record {
  promotions = ten ∷ ship ∷ trio ∷ welcome ∷ [];
  usages = [];
  customers = record { id = 9; created_at = 1000; deleted = false } ∷ [];
  orders = [];
}

abbrev someone : Identity
someone = record { customer_id = some 9; guest_phone = none }

abbrev lines : List CartLine
lines =
    record { product_id = codes "bone"; variant_id = none; quantity = 2; unit_price = 30 * baht }
    ∷ record { product_id = codes "ball"; variant_id = none; quantity = 5; unit_price = 1 * baht }
    ∷ record { product_id = codes "bone"; variant_id = none; quantity = 1; unit_price = 20 * baht }
    ∷ []

abbrev options : Options
options = record {
  lines = some lines;
  mode = apply;
  shipping_fee = some (40 * baht);
  store_shipping_fees = [];
  required_scope = none;
}

abbrev result : Promotion → ℕ → ℕ → ValidateCodeResult
result p amount free = record {
  promotion = p;
  discount_amount = amount;
  free_units = free;
  ineligibility_reason = none;
}

ten_accepted :
    (validate_code tables (codes "TEN") (200 * baht) none someone options 2000 none).0
    ≡ ok (result ten (20 * baht) 0)
unfolding validate_code go_on before_gates limits_and_store find_active_code unless_reason
    evaluate_customer_usage_limit evaluate_logged_in_only_gate evaluate_new_customer_gates
    after_gates discount_result discount_by_type raw_discount clamped eligible_base
    resolve_shipping_fee_base ◌>>=◌ throw_if
ten_accepted = refl

trio_accepted :
    (validate_code tables (codes "TRIO") (85 * baht) (some 7) someone options 2000 none).0
    ≡ ok (result trio (20 * baht) 1)
unfolding validate_code go_on before_gates limits_and_store find_active_code unless_reason
    evaluate_customer_usage_limit evaluate_logged_in_only_gate evaluate_new_customer_gates
    after_gates discount_result discount_by_type raw_discount clamped eligible_base
    resolve_shipping_fee_base evaluate_buy_x_get_y rule_of exceeds_cap units_of give_cheapest
    free_units_of sort insert use_evaluation trim ◌>>=◌ throw_if
trio_accepted = refl

validate_code-Honoured_example : Honoured (85 * baht) (some 7) options (result trio (20 * baht) 1)
validate_code-Honoured_example =
    validate_code-Honoured (85 * baht) (some 7) options tables someone 2000 (codes "TRIO") none
      (result trio (20 * baht) 1) trio_accepted

abbrev stack : List ValidateCodeResult
stack = result ten (20 * baht) 0 ∷ result ship (40 * baht) 0 ∷ result trio (20 * baht) 1 ∷ []

stack_accepted :
    validate_stack tables
      (200 * baht)
      someone
      options
      2000
      ((7, 200 * baht) ∷ [])
      (some (codes "TEN"))
      (codes "SHIP" ∷ codes "TRIO" ∷ [])
    ≡ ok stack
unfolding validate_stack validate_platform_code validate_store_codes validate_code go_on
    before_gates limits_and_store find_active_code unless_reason evaluate_customer_usage_limit
    evaluate_logged_in_only_gate evaluate_new_customer_gates after_gates discount_result
    discount_by_type raw_discount clamped eligible_base resolve_shipping_fee_base
    evaluate_buy_x_get_y rule_of exceeds_cap units_of give_cheapest free_units_of sort insert
    use_evaluation trim ◌>>=◌ throw_if
stack_accepted = refl

apply_stacked_promotions_lem_example :
    (s : Stacked) × (apply_stacked_promotions tables
        (200 * baht)
        someone
        options
        2000
        ((7, 200 * baht) ∷ [])
        (some (codes "TEN"))
        (codes "SHIP" ∷ codes "TRIO" ∷ [])
      ≡ ok s)
    × (s.discount_amount ≡ 80 * baht)
    × (s.free_units ≡ 1)
    × (recorded s.discounts_by_promotion_id ≤ 80 * baht)
apply_stacked_promotions_lem_example =
    apply_stacked_promotions_lem tables (200 * baht) someone options 2000 ((7, 200 * baht) ∷ [])
      (some (codes "TEN")) (codes "SHIP" ∷ codes "TRIO" ∷ []) stack stack_accepted

abbrev query : Query
query = record {
  subtotal = 200 * baht;
  store_id = none;
  customer = someone;
  lines = none;
  shipping_fee = none;
}

abbrev targets : List Target
targets =
    record { id = some 4; code = none }
    ∷ record { id = none; code = some (codes "SHIP") }
    ∷ record { id = some 4; code = none }
    ∷ []

validate_promotions_batch_lem_example :
    validate_promotions_batch tables query 2000 targets
    ≡ ok (map (λ target. (evaluate_batch_target tables query 2000 [] target).0) targets)
validate_promotions_batch_lem_example = validate_promotions_batch_lem tables query 2000 targets

abbrev rule : Rule
rule = record { product_id = codes "bone"; buy_quantity = 2; get_quantity = 1 }

abbrev units : List UnitSlot
units =
    record { unit_price = 30; line_index = 0 }
    ∷ record { unit_price = 20; line_index = 1 }
    ∷ record { unit_price = 25; line_index = 2 }
    ∷ []

give_cheapest_lem_example :
    (groups : ℕ) × (chosen : List UnitSlot) × (left : List UnitSlot) × (groups * 3 ≤ 3)
    × (3 < (groups + 1) * 3)
    × CheapestOf units chosen left
    × (length chosen ≡ groups * 1)
    × (give_cheapest rule units
        ≡ (if groups == 0 then insufficient else given (length chosen) (sum_by price_of chosen)))
give_cheapest_lem_example = give_cheapest_lem rule units (omega arith)

-- Two item promotions of 20 baht on a subtotal of 30: the discount is clamped, what is recorded is not.
over_recorded :
    let stacked =
      conclude (30 * baht) 0 (
        absorb_all apply (result ten (20 * baht) 0 ∷ result trio (20 * baht) 1 ∷ []) (initial 0)) in
    (stacked.discount_amount ≡ 30 * baht) × (recorded stacked.discounts_by_promotion_id ≡ 40 * baht)
unfolding conclude absorb_all absorb absorb_item
over_recorded = (refl, refl)
