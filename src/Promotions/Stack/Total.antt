-- ===== src/Promotions/Stack/Total.antt =====
-- What a stack of promotions adds up to.
use new_sopet_backend.Prelude.{
  ℕ, ◌+◌, ◌-◌, ◌≤◌, ◌≡◌, refl, min, Option, List, [], ◌∷◌, if◌then◌else◌, arith, sum_by,
}
use new_sopet_backend.Prelude.Text.{Text}
use new_sopet_backend.Prelude.Result.{ok, ◌>>=◌}
use new_sopet_backend.Promotions.Model.{
  Tables, Identity, Mode, Options, ValidateCodeResult, is_shipping,
}
use new_sopet_backend.Promotions.Code.{or_zero}
use new_sopet_backend.Promotions.Stack.{
  StackState, set_discount, absorb_shipping, absorb_item, absorb, absorb_all, initial, Stacked,
  conclude, validate_stack, apply_stacked_promotions,
}

-- What a result takes off the shipping fee, and off the items.
abbrev pub shipping_of : ValidateCodeResult → ℕ
shipping_of r = if is_shipping r.promotion.type then r.discount_amount else 0

abbrev pub item_of : ValidateCodeResult → ℕ
item_of r = if is_shipping r.promotion.type then 0 else r.discount_amount

abbrev pub free_of : ValidateCodeResult → ℕ
free_of r = r.free_units

-- The amounts that are recorded under the promotions.
abbrev pub recorded : List (ℕ × ℕ) → ℕ
recorded = sum_by (λ (e : ℕ × ℕ). e.1)

-- The discounts of the results are split between a state and a later one.
record Adds (mode : Mode) (rs : List ValidateCodeResult) (s s' : StackState) : Type 0 where
  shipping :
      s'.shipping_discount_amount
      ≡ s.shipping_discount_amount + min (sum_by shipping_of rs) s.remaining_shipping_fee
  item : s'.item_discount_amount ≡ s.item_discount_amount + sum_by item_of rs
  free : s'.free_units ≡ s.free_units + sum_by free_of rs

recorded-set_discount :
    (id amount : ℕ) (ds : List (ℕ × ℕ))
    → recorded (set_discount id amount ds) ≤ recorded ds + amount
recorded-set_discount id amount [] = omega arith
recorded-set_discount id amount ((k, v) ∷ ds) = ground (arith, recorded-set_discount id amount ds)

absorb-shipping :
    (mode : Mode) (r : ValidateCodeResult) (s : StackState)
    → ((absorb mode r s).shipping_discount_amount
        ≡ s.shipping_discount_amount + min (shipping_of r) s.remaining_shipping_fee)
      × ((absorb mode r s).remaining_shipping_fee
          ≡ s.remaining_shipping_fee - min (shipping_of r) s.remaining_shipping_fee)
unfolding absorb absorb_shipping absorb_item
absorb-shipping mode r s = (ground arith, ground arith)

absorb-item :
    (mode : Mode) (r : ValidateCodeResult) (s : StackState)
    → ((absorb mode r s).item_discount_amount ≡ s.item_discount_amount + item_of r)
      × ((absorb mode r s).free_units ≡ s.free_units + r.free_units)
unfolding absorb absorb_shipping absorb_item
absorb-item mode r s = (ground arith, ground arith)

absorb_all-Adds :
    (mode : Mode) (rs : List ValidateCodeResult) (s : StackState)
    → Adds mode rs s (absorb_all mode rs s)
unfolding absorb_all
absorb_all-Adds mode [] s = record {
  shipping = omega arith;
  item = omega arith;
  free = omega arith;
}
absorb_all-Adds mode (r ∷ rs) s =
    let ih : Adds mode rs (absorb mode r s) (absorb_all mode rs (absorb mode r s)) =
      absorb_all-Adds mode rs (absorb mode r s) in
    let (shipping, left) = absorb-shipping mode r s in
    let (item, free) = absorb-item mode r s in
    record {
      shipping = omega (arith, ih.shipping, shipping, left);
      item = omega (arith, ih.item, item);
      free = omega (arith, ih.free, free);
    }

absorb-recorded :
    (mode : Mode) (r : ValidateCodeResult) (s : StackState)
    → recorded s.discounts_by_promotion_id ≤ s.item_discount_amount + s.shipping_discount_amount
    → recorded (absorb mode r s).discounts_by_promotion_id
      ≤ (absorb mode r s).item_discount_amount + (absorb mode r s).shipping_discount_amount
unfolding absorb absorb_shipping absorb_item
absorb-recorded mode r s h = ground (
  arith,
  recorded-set_discount r.promotion.id r.discount_amount s.discounts_by_promotion_id,
  recorded-set_discount r.promotion.id (min r.discount_amount s.remaining_shipping_fee)
      s.discounts_by_promotion_id,
)

absorb_all-recorded :
    (mode : Mode) (rs : List ValidateCodeResult) (s : StackState)
    → recorded s.discounts_by_promotion_id ≤ s.item_discount_amount + s.shipping_discount_amount
    → recorded (absorb_all mode rs s).discounts_by_promotion_id
      ≤ (absorb_all mode rs s).item_discount_amount
        + (absorb_all mode rs s).shipping_discount_amount
unfolding absorb_all
absorb_all-recorded mode [] s h = h
absorb_all-recorded mode (r ∷ rs) s h =
    absorb_all-recorded mode rs (absorb mode r s) (absorb-recorded mode r s h)

module _ (t : Tables) (subtotal : ℕ) (c : Identity) (o : Options) (now : ℕ)
    (store_subtotals : List (ℕ × ℕ)) (platform_code : Option Text) (store_codes : List Text) where
  -- Where all codes are accepted, the stack takes the items' discounts off, up to the subtotal, and the
  -- shipping discounts, up to the shipping fee, and gives the free units of all. What it records
  -- under the promotions is no more than the discounts before the clamps, with shipping counted up to the fee.
  pub apply_stacked_promotions_lem :
      (rs : List ValidateCodeResult)
      → validate_stack t subtotal c o now store_subtotals platform_code store_codes ≡ ok rs
      → (s : Stacked) × (apply_stacked_promotions t subtotal c o now store_subtotals platform_code
            store_codes
          ≡ ok s)
        × (s.discount_amount
            ≡ min (sum_by item_of rs) subtotal
              + min (sum_by shipping_of rs) (or_zero o.shipping_fee))
        × (s.free_units ≡ sum_by free_of rs)
        × (recorded s.discounts_by_promotion_id
            ≤ sum_by item_of rs + min (sum_by shipping_of rs) (or_zero o.shipping_fee))
  unfolding apply_stacked_promotions conclude ◌>>=◌
  apply_stacked_promotions_lem rs h =
      let fee : ℕ = or_zero o.shipping_fee in
      let final : StackState = absorb_all o.mode rs (initial fee) in
      let sums : Adds o.mode rs (initial fee) final = absorb_all-Adds o.mode rs (initial fee) in
      (
        conclude subtotal fee final,
        rw h refl,
        omega (arith, sums.shipping, sums.item),
        omega (arith, sums.free),
        omega (
          arith,
          sums.shipping,
          sums.item,
          absorb_all-recorded o.mode rs (initial fee) (omega arith),
        ),
      )
