-- ===== src/SaleCampaigns/Tests.antt =====
-- Runs of the campaign prices, and the theorems at concrete items.
use new_sopet_backend.Prelude.{ℕ, ◌≡◌, refl, Option, none, some, List, [], ◌∷◌}
use new_sopet_backend.SaleCampaigns.{
  CampaignItem, EffectiveUnitPrice, round_money, compute_sale_unit_price, honest_display_compare_at,
  effective_compare_at, insert_ranked, rank, select_winning_campaign_item,
  resolve_effective_unit_from_item,
}
use new_sopet_backend.Prelude.Int.{pos}
use new_sopet_backend.SaleCampaigns.Winner.{IsBest, wanted, select_winning_campaign_item_lem}
use new_sopet_backend.SaleCampaigns.Price.{IsResolved, resolve_effective_unit_from_item-IsResolved}

abbrev an_item : Option ℕ → ℕ → ℕ → CampaignItem
an_item variant_id percent priority = record {
  product_id = 1;
  variant_id = variant_id;
  discount_percent = some percent;
  compare_at_price = none;
  priority = pos priority;
  campaign_id = some priority;
  created_at = 100;
}

abbrev items : List CampaignItem
items = an_item none 1000 5 ∷ an_item (some 2) 2000 1 ∷ an_item (some 2) 3000 3 ∷ []

abbrev price : ℕ → ℕ → Option ℕ → EffectiveUnitPrice
price catalog unit percent = record {
  catalog_unit_price = catalog;
  unit_price = unit;
  sale_campaign_id = some 3;
  sale_discount_percent = percent;
  compare_at_price = none;
}

-- 99.95 baht with 30 percent off is 69.965, which rounds up to 69.97.
runs :
    (select_winning_campaign_item items 1 (some 2) ≡ some (an_item (some 2) 3000 3))
    × (select_winning_campaign_item items 1 (some 4) ≡ some (an_item none 1000 5))
    × (select_winning_campaign_item items 9 none ≡ none)
    × (resolve_effective_unit_from_item 99950000 (some (an_item (some 2) 3000 3))
        ≡ price 99950000 69970000 (some 3000))
    × (honest_display_compare_at (price 99950000 69970000 (some 3000)) none ≡ some 99950000)
unfolding select_winning_campaign_item rank insert_ranked resolve_effective_unit_from_item
    compute_sale_unit_price effective_compare_at round_money honest_display_compare_at
runs = (refl, refl, refl, refl, refl)

select_winning_campaign_item_lem_example :
    IsBest (wanted items 1 (some 2)) items (select_winning_campaign_item items 1 (some 2))
select_winning_campaign_item_lem_example = select_winning_campaign_item_lem items 1 (some 2)

resolve_effective_unit_from_item-IsResolved_example :
    IsResolved 99950000
      (some (an_item (some 2) 3000 3))
      (resolve_effective_unit_from_item 99950000 (some (an_item (some 2) 3000 3)))
resolve_effective_unit_from_item-IsResolved_example =
    resolve_effective_unit_from_item-IsResolved 99950000 (some (an_item (some 2) 3000 3))
