-- ===== src/SaleCampaigns.antt =====
-- modules/sale-campaigns/sale-campaign-pricing.ts: which campaign sets the price of a unit, and that
-- price. Amounts are in units of 1/1000000 baht and percentages in hundredths, so that the price of a
-- rounded catalog amount is exact before it is rounded. A campaign's date counts as 0 where it is absent.
pub mod Winner
pub mod Price
mod Tests
use new_sopet_backend.Prelude.{
  ℕ, ◌+◌, ◌-◌, ◌*◌, ◌/◌, Bool, true, false, not, ◌&&◌, ◌||◌, Option, none, some, List, [], ◌∷◌,
  ◌==◌, ltb, leb, if◌then◌else◌, keep, find,
}
use new_sopet_backend.Prelude.Int.{ℤ, eq_ℤ, lt_ℤ}

pub record CampaignItem : Type 0 where
  pub product_id : ℕ
  pub variant_id : Option ℕ
  pub discount_percent : Option ℕ
  pub compare_at_price : Option ℕ
  pub priority : ℤ
  pub campaign_id : Option ℕ
  pub created_at : ℕ

pub record EffectiveUnitPrice : Type 0 where
  pub catalog_unit_price : ℕ
  pub unit_price : ℕ
  pub sale_campaign_id : Option ℕ
  pub sale_discount_percent : Option ℕ
  pub compare_at_price : Option ℕ

-- Half-up to whole satang.
unfoldable pub round_money : ℕ → ℕ
round_money value = (value + 5000) / 10000 * 10000

unfoldable pub compute_sale_unit_price : ℕ → Option ℕ → Option ℕ
compute_sale_unit_price catalog_unit none = none
compute_sale_unit_price catalog_unit (some percent) =
    if ltb percent 100 || ltb 9900 percent || catalog_unit == 0
    then none
    else some (round_money (catalog_unit * (10000 - percent) / 10000))

abbrev pub above : Option ℕ → ℕ → Option ℕ
above none amount = none
above (some price) amount = if ltb amount price then some price else none

abbrev pub or_else : Option ℕ → Option ℕ → Option ℕ
or_else none other = other
or_else (some n) other = some n

unfoldable pub honest_display_compare_at : EffectiveUnitPrice → Option ℕ → Option ℕ
honest_display_compare_at resolved static_compare_at =
    or_else (above resolved.compare_at_price resolved.unit_price) (
      if ltb resolved.unit_price resolved.catalog_unit_price
      then some resolved.catalog_unit_price
      else above static_compare_at resolved.unit_price)

unfoldable pub effective_compare_at : ℕ → Option ℕ → Option ℕ
effective_compare_at catalog_unit campaign_compare_at = above campaign_compare_at catalog_unit

-- The comparison of the sort is not positive: `a` stays in front of `b`.
abbrev pub ranks_before : CampaignItem → CampaignItem → Bool
ranks_before a b =
    if eq_ℤ a.priority b.priority then leb b.created_at a.created_at else lt_ℤ b.priority a.priority

-- The stable sort.
unfoldable pub insert_ranked : CampaignItem → List CampaignItem → List CampaignItem
insert_ranked a [] = a ∷ []
insert_ranked a (b ∷ bs) =
    let rest = insert_ranked a bs in if ranks_before a b then a ∷ b ∷ bs else b ∷ rest

unfoldable pub rank : List CampaignItem → List CampaignItem
rank [] = []
rank (a ∷ bs) = insert_ranked a (rank bs)

abbrev pub of_product : ℕ → CampaignItem → Bool
of_product id i = i.product_id == id

abbrev pub of_variant : ℕ → CampaignItem → Bool
of_variant id i = elim i.variant_id [ none ↦ false | some v ↦ v == id ]

abbrev pub of_no_variant : CampaignItem → Bool
of_no_variant i = elim i.variant_id [ none ↦ true | some v ↦ false ]

abbrev pub first_of : Option CampaignItem → Option CampaignItem → Option CampaignItem
first_of none other = other
first_of (some i) other = some i

unfoldable pub select_winning_campaign_item : List CampaignItem → ℕ → Option ℕ → Option CampaignItem
select_winning_campaign_item items product_id none =
    find of_no_variant (rank (keep (of_product product_id) items))
select_winning_campaign_item items product_id (some variant_id) =
    let ranked = rank (keep (of_product product_id) items) in
    first_of (find (of_variant variant_id) ranked) (find of_no_variant ranked)

abbrev pub default_to : ℕ → Option ℕ → ℕ
default_to fallback none = fallback
default_to fallback (some n) = n

abbrev pub if_some : Option ℕ → Option ℕ → Option ℕ
if_some none value = none
if_some (some n) value = value

unfoldable pub resolve_effective_unit_from_item : ℕ → Option CampaignItem → EffectiveUnitPrice
resolve_effective_unit_from_item catalog_unit none = record {
  catalog_unit_price = round_money catalog_unit;
  unit_price = round_money catalog_unit;
  sale_campaign_id = none;
  sale_discount_percent = none;
  compare_at_price = none;
}
resolve_effective_unit_from_item catalog_unit (some item) =
    let catalog = round_money catalog_unit in
    let sale_unit = compute_sale_unit_price catalog item.discount_percent in
    record {
      catalog_unit_price = catalog;
      unit_price = default_to catalog sale_unit;
      sale_campaign_id = if_some sale_unit item.campaign_id;
      sale_discount_percent = if_some sale_unit item.discount_percent;
      compare_at_price = effective_compare_at catalog item.compare_at_price;
    }
