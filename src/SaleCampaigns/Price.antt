-- ===== src/SaleCampaigns/Price.antt =====
-- The price that a campaign item gives, and the struck-out price beside it.
use native.Mathlib.Nat.{mul-le-mul, le_refl}
use new_sopet_backend.Prelude.{
  ℕ, ap, ◌∙◌, true, false, ◌+◌, ◌-◌, ◌*◌, ◌/◌, ◌≤◌, ◌<◌, ◌≡◌, ◌⊎◌, inl, inr, refl, ◌||◌, Option,
  none, some, ◌==◌, ltb, arith, Bool-cases,
}
use new_sopet_backend.SaleCampaigns.{
  CampaignItem, EffectiveUnitPrice, round_money, compute_sale_unit_price, above, or_else,
  honest_display_compare_at, effective_compare_at, resolve_effective_unit_from_item,
}

-- The price is struck out honestly: it is above the price to pay.
abbrev pub IsAbove : ℕ → Option ℕ → Type 0
IsAbove amount none = Unit
IsAbove amount (some price) = amount < price

above-IsAbove : (o : Option ℕ) (amount : ℕ) → IsAbove amount (above o amount)
above-IsAbove none amount = tt
above-IsAbove (some price) amount = elim (Bool-cases (ltb amount price)) [
  | inl more ↦ rw more (ground arith)
  | inr less ↦ rw less tt
]

or_else-IsAbove :
    (amount : ℕ) (o p : Option ℕ)
    → IsAbove amount o
    → IsAbove amount p
    → IsAbove amount (or_else o p)
or_else-IsAbove amount none p h k = k
or_else-IsAbove amount (some n) p h k = h

-- A price that is shown struck out is above the price to pay.
pub honest_display_compare_at-IsAbove :
    (r : EffectiveUnitPrice) (static_compare_at : Option ℕ)
    → IsAbove r.unit_price (honest_display_compare_at r static_compare_at)
unfolding honest_display_compare_at
honest_display_compare_at-IsAbove r static_compare_at =
    or_else-IsAbove r.unit_price (above r.compare_at_price r.unit_price) _
      (above-IsAbove r.compare_at_price r.unit_price)
      (elim (Bool-cases (ltb r.unit_price r.catalog_unit_price)) [
        | inl sale ↦ rw sale (ground arith)
        | inr full ↦ rw full (above-IsAbove static_compare_at r.unit_price)
      ])

-- A price of whole satang after a percentage off: it is the closest of whole satang, half-up.
pub record IsSalePrice (catalog percent price : ℕ) : Type 0 where
  pub at_least_one : 100 ≤ percent
  pub at_most_99 : percent ≤ 9900
  pub not_dearer : price ≤ catalog
  pub not_below : catalog * (10000 - percent) ≤ price * 10000 + 5000 * 10000
  pub not_over : price * 10000 ≤ catalog * (10000 - percent) + 5000 * 10000

sale-IsSalePrice :
    (k percent : ℕ)
    → 100 ≤ percent
    → percent ≤ 9900
    → IsSalePrice (k * 10000) percent (round_money (k * 10000 * (10000 - percent) / 10000))
unfolding round_money
sale-IsSalePrice k percent h l =
    let less : k * (10000 - percent) ≤ k * 10000 = mul-le-mul (le_refl k) (omega arith) in
    record {
      at_least_one = h;
      at_most_99 = l;
      not_dearer = omega (arith, less);
      not_below = omega arith;
      not_over = omega arith;
    }

round_money-IsSalePrice :
    (catalog_unit percent : ℕ)
    → 100 ≤ percent
    → percent ≤ 9900
    → let c = round_money catalog_unit in
      IsSalePrice c percent (round_money (c * (10000 - percent) / 10000))
unfolding round_money
round_money-IsSalePrice catalog_unit percent h l =
    sale-IsSalePrice ((catalog_unit + 5000) / 10000) percent h l

-- Whole satang, the nearest to an amount, half-up.
pub record IsNearest (amount price : ℕ) : Type 0 where
  pub satang : ℕ
  pub whole : price ≡ satang * 10000
  pub not_above : price ≤ amount + 5000
  pub not_below : amount < price + 5000

round_money-IsNearest : (amount : ℕ) → IsNearest amount (round_money amount)
unfolding round_money
round_money-IsNearest amount = record {
  satang = (amount + 5000) / 10000;
  whole = refl;
  not_above = omega arith;
  not_below = omega arith;
}

-- An item takes a percentage off: from 1 to 99, of a price that is not 0.
abbrev pub TakesOff : Option CampaignItem → ℕ → ℕ → Type 0
TakesOff none catalog percent = ⊥
TakesOff (some item) catalog percent =
    (item.discount_percent ≡ some percent) × (100 ≤ percent) × (percent ≤ 9900) × (1 ≤ catalog)

abbrev pub campaign_of : Option CampaignItem → Option ℕ
campaign_of none = none
campaign_of (some item) = item.campaign_id

abbrev pub compare_at_of : Option CampaignItem → Option ℕ
compare_at_of none = none
compare_at_of (some item) = item.compare_at_price

-- What a unit costs beside the amount of the catalog and the campaign item that was selected for it.
pub record IsResolved (catalog_unit : ℕ) (item : Option CampaignItem) (r : EffectiveUnitPrice)
    : Type 0 where
  pub catalog : IsNearest catalog_unit r.catalog_unit_price
  pub on_sale :
      (percent : ℕ)
      → TakesOff item r.catalog_unit_price percent
      → (r.sale_discount_percent ≡ some percent)
        × (r.sale_campaign_id ≡ campaign_of item)
        × IsSalePrice r.catalog_unit_price percent r.unit_price
  pub full_price :
      ((percent : ℕ) × TakesOff item r.catalog_unit_price percent)
      ⊎ ((r.sale_discount_percent ≡ none)
          × (r.sale_campaign_id ≡ none)
          × (r.unit_price ≡ r.catalog_unit_price))
  pub struck_out : IsAbove r.catalog_unit_price r.compare_at_price
  pub shown :
      (price : ℕ)
      → compare_at_of item ≡ some price
      → r.catalog_unit_price < price
      → r.compare_at_price ≡ some price

above-some :
    (o : Option ℕ) (amount price : ℕ)
    → o ≡ some price
    → amount < price
    → above o amount ≡ some price
above-some none amount price e h = cc
above-some (some n) amount price e h =
    let same : n ≡ price = ground arith in
    let more : ltb amount n ≡ true = rw same (ground (arith, h)) in rw more (ap some same)

-- What an item without a percentage, with one out of range, or for a free unit does not take off.
sale_cases :
    (catalog : ℕ) (o : Option ℕ)
    → (compute_sale_unit_price catalog o ≡ none)
      ⊎ ((percent : ℕ) × (o ≡ some percent) × (100 ≤ percent) × (percent ≤ 9900) × (1 ≤ catalog))
unfolding compute_sale_unit_price
sale_cases catalog none = inl refl
sale_cases catalog (some p) = elim (Bool-cases (ltb p 100 || ltb 9900 p || catalog == 0)) [
  | inl off ↦ inl (rw (off, compute_sale_unit_price) refl)
  | inr on ↦ inr (p, refl, ground arith, ground arith, ground arith)
]

sale_price :
    (catalog percent : ℕ)
    → 100 ≤ percent
    → percent ≤ 9900
    → 1 ≤ catalog
    → compute_sale_unit_price catalog (some percent)
      ≡ some (round_money (catalog * (10000 - percent) / 10000))
unfolding compute_sale_unit_price
sale_price catalog p h l some_price =
    let on : (ltb p 100 || ltb 9900 p || catalog == 0) ≡ false = ground (arith, h, l, some_price) in
    rw (on, compute_sale_unit_price) refl

-- The catalog price is the nearest one in whole satang. Where the selected item takes a percentage from 1 to
-- 99 off a price that is not 0, the unit costs the price less it, to the nearest satang and not above the
-- catalog price, and the percentage and the item's campaign are named; otherwise it costs the catalog price
-- and none is named. The item's compare-at price is kept exactly above the catalog price.
pub resolve_effective_unit_from_item-IsResolved :
    (catalog_unit : ℕ) (item : Option CampaignItem)
    → IsResolved catalog_unit item (resolve_effective_unit_from_item catalog_unit item)
unfolding resolve_effective_unit_from_item effective_compare_at
resolve_effective_unit_from_item-IsResolved catalog_unit none = record {
  catalog = round_money-IsNearest catalog_unit;
  on_sale = λ percent t. absurd t;
  full_price = inr (refl, refl, refl);
  struck_out = tt;
  shown = λ price e h. cc;
}
resolve_effective_unit_from_item-IsResolved catalog_unit (some item) = record {
  catalog = round_money-IsNearest catalog_unit;
  on_sale = λ percent t.
      let on : compute_sale_unit_price (round_money catalog_unit) item.discount_percent
          ≡ some (round_money (round_money catalog_unit * (10000 - percent) / 10000)) =
        ap (compute_sale_unit_price (round_money catalog_unit)) t.0
        ∙ sale_price (round_money catalog_unit) percent t.1 t.2 t.3 in
      (rw on t.0, rw on refl, rw on (round_money-IsSalePrice catalog_unit percent t.1 t.2));
  full_price = elim (sale_cases (round_money catalog_unit) item.discount_percent) [
    | inl off ↦ inr (rw off refl, rw off refl, rw off refl)
    | inr (p, t, low, high, some_price) ↦ inl (p, (t, low, high, some_price))
  ];
  struck_out = above-IsAbove item.compare_at_price (round_money catalog_unit);
  shown = λ price e h. above-some item.compare_at_price (round_money catalog_unit) price e h;
}
