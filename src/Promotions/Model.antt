-- ===== src/Promotions/Model.antt =====
-- The rows and values of modules/promotions: promotions with their opaque JSON conditions, the rows
-- that the gates count, carts, and the codes of the exceptions.
-- Amounts of money are in units of 1/1000000 baht, in which a percentage with two decimals of whole
-- satang is exact. An absent identifier or text is `none`; the empty identifier does not occur.
use new_sopet_backend.Prelude.{ℕ, Bool, true, false, Option, none, some, List, leb, if◌then◌else◌}
use new_sopet_backend.Prelude.Int.{ℤ}
use new_sopet_backend.Prelude.Text.{Text, text_eq}
use new_sopet_backend.Orders.Status.{OrderStatus}

pub data PromotionType : Type 0 where
  percentage fixed_amount free_shipping buy_x_get_y : PromotionType
  fixed_shipping_discount percentage_shipping_discount : PromotionType

pub data PromotionScope : Type 0 where
  platform store : PromotionScope

abbrev pub same_scope : PromotionScope → PromotionScope → Bool
same_scope platform platform = true
same_scope store store = true
same_scope _ _ = false

-- A value of the JSON conditions, as the `typeof` tests tell them apart. An integer that is negative,
-- or a number that is no integer, is an `other_number`.
mutual
  pub data Json : Type 0 where
    undefined null other_number array : Json
    boolean : Bool → Json
    integer : ℕ → Json
    text : Text → Json
    object : Fields → Json

  pub data Fields : Type 0 where
    no_fields : Fields
    field : Text → Json → Fields → Fields

-- `record[key]`
abbrev pub get : Text → Fields → Json
get key no_fields = undefined
get key (field k v rest) = let later = get key rest in if text_eq k key then v else later

-- `value === true`
abbrev pub is_true : Json → Bool
is_true (boolean b) = b
is_true _ = false

-- The value of `typeof n === 'number' && Number.isInteger(n) && n >= 1`.
abbrev pub positive_integer : Json → Option ℕ
positive_integer (integer n) = if leb 1 n then some n else none
positive_integer _ = none

-- The fields of a value that is an object, not null and not an array.
abbrev pub plain_object : Json → Option Fields
plain_object (object fields) = some fields
plain_object _ = none

pub record Promotion : Type 0 where
  pub id : ℕ
  pub code : Text
  pub name : Text
  pub description : Option Text
  pub type : PromotionType
  pub scope : PromotionScope
  pub store_id : Option ℕ
  pub discount_value : ℕ  -- in hundredths: of a percent, or of a baht
  pub min_purchase_amount : Option ℕ
  pub max_discount_amount : Option ℕ
  pub usage_limit : Option ℕ
  pub usage_per_customer : ℕ
  pub usage_count : ℕ
  pub is_active : Bool
  pub auto_apply : Bool
  pub priority : ℤ
  pub conditions : Fields
  pub starts_at : Option ℕ
  pub expires_at : Option ℕ
  pub deleted : Bool

pub record Customer : Type 0 where
  pub id : ℕ
  pub created_at : ℕ
  pub deleted : Bool

pub record PlacedOrder : Type 0 where
  pub id : ℕ
  pub customer_id : Option ℕ
  pub guest_phone : Option Text
  pub status : OrderStatus

pub record PromotionUsage : Type 0 where
  pub promotion_id : ℕ
  pub order_id : ℕ

pub record Tables : Type 0 where
  pub promotions : List Promotion
  pub usages : List PromotionUsage
  pub customers : List Customer
  pub orders : List PlacedOrder

pub record Identity : Type 0 where
  pub customer_id : Option ℕ
  pub guest_phone : Option Text

pub record CartLine : Type 0 where
  pub product_id : Text
  pub variant_id : Option Text
  pub quantity : ℕ
  pub unit_price : ℕ

pub data Mode : Type 0 where
  preview apply : Mode

-- The options other than the gate cache.
pub record Options : Type 0 where
  pub lines : Option (List CartLine)
  pub mode : Mode
  pub shipping_fee : Option ℕ
  pub store_shipping_fees : List (ℕ × ℕ)
  pub required_scope : Option PromotionScope

-- The `code` of an exception, or the reason why a promotion is not eligible.
pub data Reason : Type 0 where
  invalid_promotion promotion_scope promotion_store promotion_not_started promotion_expired : Reason
  promotion_limit promotion_customer_limit promotion_min_purchase : Reason
  guest account_age order_history missing_lines insufficient_qty : Reason
  invalid_bxgy_conditions quantity_too_large invalid_validate_promotions_input : Reason
  promotion_not_found forbidden invalid_discount_value invalid_promotion_date_range : Reason
  invalid_conditions invalid_new_customer_conditions : Reason
  invalid_logged_in_only_conditions product_not_found product_store_mismatch : Reason

pub record ValidateCodeResult : Type 0 where
  pub promotion : Promotion
  pub discount_amount : ℕ
  pub free_units : ℕ
  pub ineligibility_reason : Option Reason

abbrev pub is_shipping : PromotionType → Bool
is_shipping free_shipping = true
is_shipping fixed_shipping_discount = true
is_shipping percentage_shipping_discount = true
is_shipping _ = false

abbrev pub is_buy_x_get_y : PromotionType → Bool
is_buy_x_get_y buy_x_get_y = true
is_buy_x_get_y _ = false
