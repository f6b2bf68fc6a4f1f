-- ===== src/Promotions/Stack.antt =====
-- `applyStackedPromotions`: a platform code and store codes together. Its callers pass no gate cache.
-- The source absorbs a result before it validates the next code; no validation reads what was
-- absorbed, and an exception discards it, so here the codes are validated first.
pub mod Total
use new_sopet_backend.Prelude.{
  ℕ, ◌+◌, ◌-◌, min, Bool, true, false, not, ◌&&◌, ◌||◌, Option, none, some, List, [], ◌∷◌, ◌++◌,
  ◌==◌, if◌then◌else◌,
}
use new_sopet_backend.Prelude.Text.{Text, is_empty}
use new_sopet_backend.Prelude.Result.{Result, ok, err, ◌>>=◌, ◌>>◌}
use new_sopet_backend.Promotions.Model.{
  PromotionScope, platform, store, Promotion, Tables, Identity, Mode, preview, apply, Options,
  Reason, ValidateCodeResult, is_shipping, is_buy_x_get_y,
}
use new_sopet_backend.Promotions.Code.{validate_code, find_active_code, or_zero, lookup}

pub record StackState : Type 0 where
  pub promotions : List Promotion
  pub discounts_by_promotion_id : List (ℕ × ℕ)
  pub item_discount_amount : ℕ
  pub shipping_discount_amount : ℕ
  pub remaining_shipping_fee : ℕ
  pub free_units : ℕ

-- `record[id] = amount`
abbrev pub set_discount : ℕ → ℕ → List (ℕ × ℕ) → List (ℕ × ℕ)
set_discount id amount [] = (id, amount) ∷ []
set_discount id amount ((k, v) ∷ rest) =
    let later = set_discount id amount rest in
    if k == id then (id, amount) ∷ rest else (k, v) ∷ later

abbrev pub is_apply : Mode → Bool
is_apply apply = true
is_apply preview = false

abbrev pub is_bxgy_apply_skip : Mode → ValidateCodeResult → Bool
is_bxgy_apply_skip mode r =
    is_apply mode && is_buy_x_get_y r.promotion.type && r.free_units == 0 && r.discount_amount == 0

unfoldable pub absorb_shipping : ValidateCodeResult → StackState → StackState
absorb_shipping r s =
    let applied = min r.discount_amount s.remaining_shipping_fee in
    record s {
      promotions = s.promotions ++ r.promotion ∷ [];
      discounts_by_promotion_id = set_discount r.promotion.id applied s.discounts_by_promotion_id;
      shipping_discount_amount = s.shipping_discount_amount + applied;
      remaining_shipping_fee = s.remaining_shipping_fee - applied;
      free_units = s.free_units + r.free_units;
    }

unfoldable pub absorb_item : ValidateCodeResult → StackState → StackState
absorb_item r s = record s {
  promotions = s.promotions ++ r.promotion ∷ [];
  discounts_by_promotion_id =
      set_discount r.promotion.id r.discount_amount s.discounts_by_promotion_id;
  item_discount_amount = s.item_discount_amount + r.discount_amount;
  free_units = s.free_units + r.free_units;
}

unfoldable pub absorb : Mode → ValidateCodeResult → StackState → StackState
absorb mode r s =
    if is_bxgy_apply_skip mode r
    then s
    else if is_shipping r.promotion.type
    then absorb_shipping r s
    else absorb_item r s

unfoldable pub absorb_all : Mode → List ValidateCodeResult → StackState → StackState
absorb_all mode [] s = s
absorb_all mode (r ∷ rs) s = absorb_all mode rs (absorb mode r s)

abbrev pub initial : ℕ → StackState
initial fee = record {
  promotions = [];
  discounts_by_promotion_id = [];
  item_discount_amount = 0;
  shipping_discount_amount = 0;
  remaining_shipping_fee = fee;
  free_units = 0;
}

pub record Stacked : Type 0 where
  pub promotions : List Promotion
  pub discount_amount : ℕ
  pub discounts_by_promotion_id : List (ℕ × ℕ)
  pub free_units : ℕ

-- The final clamps.
unfoldable pub conclude : ℕ → ℕ → StackState → Stacked
conclude subtotal fee s = record {
  promotions = s.promotions;
  discount_amount = min s.item_discount_amount subtotal + min s.shipping_discount_amount fee;
  discounts_by_promotion_id = s.discounts_by_promotion_id;
  free_units = s.free_units;
}

abbrev pub with_scope : Options → PromotionScope → Options
with_scope o scope = record o { required_scope = some scope }

module _ (t : Tables) (subtotal : ℕ) (c : Identity) (o : Options) (now : ℕ) where
  unfoldable pub validate_platform_code : Option Text → Result Reason (List ValidateCodeResult)
  validate_platform_code none = ok []
  validate_platform_code (some code) = if is_empty code then ok [] else do
    r ← (validate_code t code subtotal none c (with_scope o platform) now none).0
    ok (r ∷ [])

  abbrev store_of : Result Reason Promotion → Option ℕ
  store_of (ok p) = p.store_id
  store_of (err e) = none

  abbrev subtotal_of : Option ℕ → List (ℕ × ℕ) → ℕ
  subtotal_of none store_subtotals = subtotal
  subtotal_of (some id) store_subtotals = or_zero (lookup id store_subtotals)

  unfoldable pub validate_store_codes :
      List (ℕ × ℕ) → List Text → Result Reason (List ValidateCodeResult)
  validate_store_codes store_subtotals [] = ok []
  validate_store_codes store_subtotals (code ∷ codes) = do
    let store_id = store_of (find_active_code t code)
    r ←
        (validate_code t code (subtotal_of store_id store_subtotals) store_id c (with_scope o store)
          now none).0
    rs ← validate_store_codes store_subtotals codes
    ok (r ∷ rs)

  unfoldable pub validate_stack :
      List (ℕ × ℕ) → Option Text → List Text → Result Reason (List ValidateCodeResult)
  validate_stack store_subtotals platform_code store_codes = do
    ps ← validate_platform_code platform_code
    rs ← validate_store_codes store_subtotals store_codes
    ok (ps ++ rs)

  unfoldable pub apply_stacked_promotions :
      List (ℕ × ℕ) → Option Text → List Text → Result Reason Stacked
  apply_stacked_promotions store_subtotals platform_code store_codes = do
    rs ← validate_stack store_subtotals platform_code store_codes
    let fee = or_zero o.shipping_fee
    ok (conclude subtotal fee (absorb_all o.mode rs (initial fee)))
