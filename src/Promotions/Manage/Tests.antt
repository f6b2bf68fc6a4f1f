-- ===== src/Promotions/Manage/Tests.antt =====
-- The writes of promotions at concrete inputs.
use new_sopet_backend.Prelude.{
  ◌≡◌, ◌<◌, refl, false, sum_by, if◌then◌else◌, Option, none, some, List, [], ◌∷◌, All,
}
use new_sopet_backend.Prelude.Int.{pos}
use new_sopet_backend.Prelude.Text.{Text, codes, trim, text_eq}
use new_sopet_backend.Prelude.Result.{ok, err, ◌>>=◌, throw_if}
use new_sopet_backend.Promotions.Model.{
  Json, integer, text, object, Fields, no_fields, field, percentage, buy_x_get_y, platform,
  Promotion, CartLine, quantity_too_large,
}
use new_sopet_backend.Promotions.BuyGet.{Rule, rule_of, exceeds_cap, evaluate_buy_x_get_y}
use new_sopet_backend.Promotions.Manage.{
  Product, CreateInput, UpdateInput, assert_discount_bounds, assert_valid_date_range,
  parse_conditions, bad_new_customer, normalize_logged_in_only, lacks_rule, check_rule,
  check_product, assert_valid_conditions, create, new_conditions, updated, save_promotion, Command,
  create_promotion, update_promotion, toggle_promotion, run, run_all,
}
use new_sopet_backend.Promotions.Manage.WellFormed.{WellFormed, run_all-WellFormed}
use new_sopet_backend.Promotions.Manage.Evaluated.{evaluate_buy_x_get_y_throws}

abbrev bone_fields : Fields
bone_fields =
    field (codes "productId") (text (codes "bone"))
      (field (codes "buyQuantity") (integer 2) (field (codes "getQuantity") (integer 1) no_fields))

-- A stand-in for `JSON.parse` that knows one text.
abbrev parse : Text → Option Json
parse t = some (object bone_fields)

abbrev products : List Product
products = record { id = codes "bone"; store_id = 7; deleted = false } ∷ []

abbrev an_input : CreateInput
an_input = record {
  code = codes "TEN";
  name = codes "Ten";
  description = none;
  type = percentage;
  discount_value = 1000;
  min_purchase_amount = none;
  max_discount_amount = none;
  usage_limit = none;
  usage_per_customer = none;
  is_active = none;
  auto_apply = none;
  priority = none;
  conditions = none;
  starts_at = some 5;
  expires_at = some 9;
}

abbrev no_change : UpdateInput
no_change = record {
  code = none;
  name = none;
  description = none;
  type = none;
  discount_value = none;
  min_purchase_amount = none;
  max_discount_amount = none;
  usage_limit = none;
  usage_per_customer = none;
  is_active = none;
  auto_apply = none;
  priority = none;
  conditions = none;
  starts_at = none;
  expires_at = none;
}

-- The second and the third call are refused: 250 percent, and an end before the start.
abbrev commands : List Command
commands =
    create_promotion 1 an_input platform none
    ∷ update_promotion 1 (record no_change { discount_value = some 25000 })
    ∷ update_promotion 1 (record no_change { expires_at = some (some 4) })
    ∷ update_promotion 1
        (record no_change { type = some buy_x_get_y; conditions = some (codes "{}") })
    ∷ toggle_promotion 1 false
    ∷ []

abbrev bought : Promotion
bought = record {
  id = 1;
  code = codes "TEN";
  name = codes "Ten";
  description = none;
  type = buy_x_get_y;
  scope = platform;
  store_id = none;
  discount_value = 1000;
  min_purchase_amount = none;
  max_discount_amount = none;
  usage_limit = none;
  usage_per_customer = 1;
  usage_count = 0;
  is_active = false;
  auto_apply = false;
  priority = pos 0;
  conditions = bone_fields;
  starts_at = some 5;
  expires_at = some 9;
  deleted = false;
}

run_all_run : run_all parse (λ t. t) products commands [] ≡ bought ∷ []
unfolding run_all run create updated save_promotion assert_discount_bounds assert_valid_date_range
    parse_conditions new_conditions assert_valid_conditions bad_new_customer
    normalize_logged_in_only check_rule lacks_rule check_product trim ◌>>=◌ throw_if
run_all_run = refl

run_all-WellFormed_example : All WellFormed (run_all parse (λ t. t) products commands [])
run_all-WellFormed_example = run_all-WellFormed parse (λ t. t) products commands [] tt

abbrev too_many : List CartLine
too_many =
    record { product_id = codes "bone"; variant_id = none; quantity = 1000; unit_price = 20 } ∷ []

too_many_thrown : evaluate_buy_x_get_y bought (some too_many) ≡ err quantity_too_large
unfolding evaluate_buy_x_get_y rule_of exceeds_cap trim ◌>>=◌ throw_if
too_many_thrown = refl

bone_accepted :
    assert_valid_conditions products buy_x_get_y platform none bone_fields ≡ ok bone_fields
unfolding assert_valid_conditions bad_new_customer normalize_logged_in_only check_rule lacks_rule
    check_product trim ◌>>=◌ throw_if
bone_accepted = refl

evaluate_buy_x_get_y_throws_example :
    (quantity_too_large ≡ quantity_too_large)
    × (r : Rule) × (rule_of bone_fields ≡ some r)
    × (999
        < sum_by
            (λ (l : CartLine). if text_eq l.product_id r.product_id then l.quantity else 0)
            too_many)
evaluate_buy_x_get_y_throws_example =
    evaluate_buy_x_get_y_throws products platform none bone_fields bought too_many
      quantity_too_large refl bone_accepted too_many_thrown
