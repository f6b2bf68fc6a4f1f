-- ===== src/Promotions/Manage.antt =====
-- Creating and changing promotions: `create`, `update`, `toggle`, `softDelete`, `assertCanManage` and
-- their checks. `JSON.parse` (with `none` for its exception) and `toUpperCase` belong to the JavaScript runtime and
-- are parameters. In an update, `none` is an input field that is undefined; a nullable column is set to
-- null by `some none`.
pub mod WellFormed
pub mod Evaluated
mod Tests
use new_sopet_backend.Prelude.{
  ℕ, Bool, true, false, not, ◌&&◌, ◌||◌, Option, none, some, List, [], ◌∷◌, ◌==◌, ltb, leb,
  if◌then◌else◌, find,
}
use new_sopet_backend.Prelude.Int.{ℤ, pos}
use new_sopet_backend.Prelude.Text.{Text, codes, text_eq, trim, is_empty}
use new_sopet_backend.Prelude.Result.{Result, ok, err, ◌>>=◌, ◌>>◌, throw_if}
use new_sopet_backend.Promotions.Model.{
  Json, undefined, null, boolean, text, integer, object, Fields, no_fields, field, get, is_true,
  positive_integer, plain_object, PromotionType, percentage, percentage_shipping_discount,
  PromotionScope, store, same_scope, Promotion, is_buy_x_get_y, Reason, promotion_not_found,
  forbidden, invalid_discount_value, invalid_promotion_date_range, invalid_conditions,
  invalid_new_customer_conditions, invalid_logged_in_only_conditions, invalid_bxgy_conditions,
  product_not_found, product_store_mismatch,
}
use new_sopet_backend.Promotions.Gates.{is_id}

pub record Product : Type 0 where
  pub id : Text
  pub store_id : ℕ
  pub deleted : Bool

pub record CreateInput : Type 0 where
  pub code : Text
  pub name : Text
  pub description : Option Text
  pub type : PromotionType
  pub discount_value : ℕ
  pub min_purchase_amount : Option ℕ
  pub max_discount_amount : Option ℕ
  pub usage_limit : Option ℕ
  pub usage_per_customer : Option ℕ
  pub is_active : Option Bool
  pub auto_apply : Option Bool
  pub priority : Option ℤ
  pub conditions : Option Text
  pub starts_at : Option ℕ
  pub expires_at : Option ℕ

pub record UpdateInput : Type 0 where
  pub code : Option Text
  pub name : Option Text
  pub description : Option (Option Text)
  pub type : Option PromotionType
  pub discount_value : Option ℕ
  pub min_purchase_amount : Option (Option ℕ)
  pub max_discount_amount : Option (Option ℕ)
  pub usage_limit : Option (Option ℕ)
  pub usage_per_customer : Option ℕ
  pub is_active : Option Bool
  pub auto_apply : Option Bool
  pub priority : Option ℤ
  pub conditions : Option Text
  pub starts_at : Option (Option ℕ)
  pub expires_at : Option (Option ℕ)

abbrev pub is_percentage : PromotionType → Bool
is_percentage percentage = true
is_percentage percentage_shipping_discount = true
is_percentage _ = false

-- 100 percent, in hundredths.
unfoldable pub assert_discount_bounds : PromotionType → ℕ → Result Reason (Unit {0})
assert_discount_bounds type value =
    throw_if (is_percentage type && ltb 10000 value) invalid_discount_value

abbrev pub is_inverted : Option ℕ → Option ℕ → Bool
is_inverted (some starts) (some expires) = leb expires starts
is_inverted _ _ = false

unfoldable pub assert_valid_date_range : Option ℕ → Option ℕ → Result Reason (Unit {0})
assert_valid_date_range starts_at expires_at =
    throw_if (is_inverted starts_at expires_at) invalid_promotion_date_range

abbrev pub as_object : Option Json → Result Reason Fields
as_object (some (object fields)) = ok fields
as_object _ = err invalid_conditions

-- An absent or empty text gives no conditions.
unfoldable pub parse_conditions : (Text → Option Json) → Option Text → Result Reason Fields
parse_conditions json_parse none = ok no_fields
parse_conditions json_parse (some t) = if is_empty t then ok no_fields else as_object (json_parse t)

-- `record[key] = value` and `delete record[key]`
unfoldable pub put : Text → Json → Fields → Fields
put key value no_fields = field key value no_fields
put key value (field k v rest) =
    let later = put key value rest in if text_eq k key then field k value rest else field k v later

unfoldable pub remove : Text → Fields → Fields
remove key no_fields = no_fields
remove key (field k v rest) =
    let later = remove key rest in if text_eq k key then later else field k v later

abbrev pub is_none : Option ℕ → Bool
is_none none = true
is_none (some n) = false

-- Whether `newCustomer` is refused.
unfoldable pub bad_new_customer : Json → Bool
bad_new_customer undefined = false
bad_new_customer null = false
bad_new_customer (object fields) =
    is_true (get (codes "enabled") fields)
    && is_none (positive_integer (get (codes "nDays") fields))
bad_new_customer _ = true

-- The conditions with `loggedInOnly` reduced to `{ enabled: true }`, or removed.
unfoldable pub normalize_logged_in_only : Json → Fields → Result Reason Fields
normalize_logged_in_only undefined conditions = ok conditions
normalize_logged_in_only (object fields) conditions =
    if is_true (get (codes "enabled") fields)
    then ok (
        put (codes "loggedInOnly") (object (field (codes "enabled") (boolean true) no_fields))
          conditions)
    else ok (remove (codes "loggedInOnly") conditions)
normalize_logged_in_only _ conditions = err invalid_logged_in_only_conditions

abbrev pub not_of_store : Option ℕ → ℕ → Bool
not_of_store none product_store = false
not_of_store (some id) product_store = not (product_store == id)

-- The tests of `assertValidConditions` on the rule.
abbrev pub is_no_text : Json → Bool
is_no_text (text t) = is_empty (trim t)
is_no_text _ = true

abbrev pub is_no_count : Json → Bool
is_no_count (integer n) = ltb n 1
is_no_count _ = true

unfoldable pub lacks_rule : Fields → Bool
lacks_rule conditions =
    is_no_text (get (codes "productId") conditions)
    || is_no_count (get (codes "buyQuantity") conditions)
    || is_no_count (get (codes "getQuantity") conditions)

abbrev pub text_of : Json → Text
text_of (text t) = t
text_of _ = []

unfoldable pub check_product :
    List Product → PromotionScope → Option ℕ → Text → Result Reason (Unit {0})
check_product products scope store_id product_id =
    elim (find (λ (p : Product). text_eq p.id product_id && not p.deleted) products) [
      | none ↦ err product_not_found
      | some p ↦
          throw_if (same_scope scope store && not_of_store store_id p.store_id)
            product_store_mismatch
    ]

unfoldable pub check_rule :
    List Product → PromotionType → PromotionScope → Option ℕ → Fields → Result Reason (Unit {0})
check_rule products type scope store_id conditions =
    if not (is_buy_x_get_y type)
    then ok tt
    else if lacks_rule conditions
    then err invalid_bxgy_conditions
    else check_product products scope store_id (text_of (get (codes "productId") conditions))

-- Returns the conditions, which the source changes in place.
unfoldable pub assert_valid_conditions :
    List Product → PromotionType → PromotionScope → Option ℕ → Fields → Result Reason Fields
assert_valid_conditions products type scope store_id conditions = do
  throw_if (bad_new_customer (get (codes "newCustomer") conditions)) invalid_new_customer_conditions
  normal ← normalize_logged_in_only (get (codes "loggedInOnly") conditions) conditions
  check_rule products type scope store_id normal
  ok normal

-- `value ?? fallback`, and `if (value !== undefined) field = value`.
abbrev pub default_to {ℓ} : {A : Type ℓ} → A → Option A → A
default_to fallback none = fallback
default_to fallback (some a) = a

abbrev pub given? {ℓ} : {A : Type ℓ} → Option A → Bool
given? none = false
given? (some a) = true

module _ (json_parse : Text → Option Json) (to_upper_case : Text → Text)
    (products : List Product) where
  -- The row that `create` saves, under the id that the database gives it.
  unfoldable pub create : ℕ → CreateInput → PromotionScope → Option ℕ → Result Reason Promotion
  create new_id input scope store_id = do
    assert_discount_bounds input.type input.discount_value
    assert_valid_date_range input.starts_at input.expires_at
    parsed ← parse_conditions json_parse input.conditions
    conditions ← assert_valid_conditions products input.type scope store_id parsed
    ok record {
      id = new_id;
      code = to_upper_case input.code;
      name = input.name;
      description = input.description;
      type = input.type;
      scope = scope;
      store_id = if same_scope scope store then store_id else none;
      discount_value = input.discount_value;
      min_purchase_amount = input.min_purchase_amount;
      max_discount_amount = input.max_discount_amount;
      usage_limit = input.usage_limit;
      usage_per_customer = default_to 1 input.usage_per_customer;
      usage_count = 0;
      is_active = default_to true input.is_active;
      auto_apply = default_to false input.auto_apply;
      priority = default_to (pos 0) input.priority;
      conditions = conditions;
      starts_at = input.starts_at;
      expires_at = input.expires_at;
      deleted = false;
    }

  unfoldable pub new_conditions : Fields → Option Text → Result Reason Fields
  new_conditions old none = ok old
  new_conditions old (some t) = parse_conditions json_parse (some t)

  -- The promotion that `update` saves in place of one that it found.
  unfoldable pub updated : UpdateInput → Promotion → Result Reason Promotion
  updated input p = do
    let type = default_to p.type input.type
    let value = default_to p.discount_value input.discount_value
    if given? input.type || given? input.discount_value
        then assert_discount_bounds type value
        else ok tt
    parsed ← new_conditions p.conditions input.conditions
    conditions ←
        (if given? input.conditions || given? input.type
          then assert_valid_conditions products type p.scope p.store_id parsed
          else ok parsed)
    let starts_at = default_to p.starts_at input.starts_at
    let expires_at = default_to p.expires_at input.expires_at
    if given? input.starts_at || given? input.expires_at
        then assert_valid_date_range starts_at expires_at
        else ok tt
    ok (record p {
      code = elim input.code [ none ↦ p.code | some c ↦ to_upper_case c ];
      name = default_to p.name input.name;
      description = default_to p.description input.description;
      type = type;
      discount_value = value;
      min_purchase_amount = default_to p.min_purchase_amount input.min_purchase_amount;
      max_discount_amount = default_to p.max_discount_amount input.max_discount_amount;
      usage_limit = default_to p.usage_limit input.usage_limit;
      usage_per_customer = default_to p.usage_per_customer input.usage_per_customer;
      is_active = default_to p.is_active input.is_active;
      auto_apply = default_to p.auto_apply input.auto_apply;
      priority = default_to p.priority input.priority;
      conditions = conditions;
      starts_at = starts_at;
      expires_at = expires_at;
    })

abbrev pub find_one : ℕ → List Promotion → Result Reason Promotion
find_one id ps = elim (find (λ (p : Promotion). p.id == id && not p.deleted) ps) [
  | none ↦ err promotion_not_found
  | some p ↦ ok p
]

-- The write of a row.
unfoldable pub save_promotion : Promotion → List Promotion → List Promotion
save_promotion p [] = []
save_promotion p (q ∷ qs) = (if q.id == p.id then p else q) ∷ save_promotion p qs

unfoldable pub assert_can_manage : Promotion → PromotionScope → Option ℕ → Result Reason (Unit {0})
assert_can_manage p scope none = throw_if (not (same_scope p.scope scope)) forbidden
assert_can_manage p scope (some id) = do
  throw_if (not (same_scope p.scope scope)) forbidden
  throw_if (same_scope scope store && not (is_id p.store_id id)) forbidden

-- The writing calls of the service.
pub data Command : Type 0 where
  create_promotion : ℕ → CreateInput → PromotionScope → Option ℕ → Command
  update_promotion : ℕ → UpdateInput → Command
  toggle_promotion : ℕ → Bool → Command
  soft_delete_promotion : ℕ → Command

module _ (json_parse : Text → Option Json) (to_upper_case : Text → Text)
    (products : List Product) where
  unfoldable pub run : Command → List Promotion → Result Reason (List Promotion)
  run (create_promotion new_id input scope store_id) ps = do
    p ← create json_parse to_upper_case products new_id input scope store_id
    ok (p ∷ ps)
  run (update_promotion id input) ps = do
    p ← find_one id ps
    q ← updated json_parse to_upper_case products input p
    ok (save_promotion q ps)
  run (toggle_promotion id is_active) ps = do
    p ← find_one id ps
    ok (save_promotion (record p { is_active = is_active }) ps)
  run (soft_delete_promotion id) ps = do
    p ← find_one id ps
    ok (save_promotion (record p { deleted = true }) ps)

  -- The rows after a series of calls, whatever each of them answered.
  unfoldable pub run_all : List Command → List Promotion → List Promotion
  run_all [] ps = ps
  run_all (c ∷ cs) ps = run_all cs (elim (run c ps) [ ok qs ↦ qs | err e ↦ ps ])
