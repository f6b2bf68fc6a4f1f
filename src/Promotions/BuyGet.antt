-- ===== src/Promotions/BuyGet.antt =====
-- `evaluateBuyXGetY`: of the units of the product, as many as the rule gives are free, the cheapest
-- first. A quantity is a whole number, as the input validation has it.
pub mod Cheapest
use new_sopet_backend.Prelude.{
  ℕ, ◌+◌, ◌*◌, ◌/◌, Bool, true, false, not, ◌&&◌, ◌||◌, Option, none, some, List, [], ◌∷◌, ◌++◌,
  ◌==◌, ltb, leb, if◌then◌else◌, length, replicate, take, sum_by,
}
use new_sopet_backend.Prelude.Text.{Text, codes, text_eq, trim, is_empty}
use new_sopet_backend.Prelude.Result.{Result, ok, err, ◌>>=◌, ◌>>◌, throw_if}
use new_sopet_backend.Promotions.Model.{
  Json, text, Fields, get, positive_integer, Promotion, CartLine, Reason, missing_lines,
  invalid_bxgy_conditions, quantity_too_large,
}

abbrev pub max_line_quantity : ℕ
max_line_quantity = 999

pub record Rule : Type 0 where
  pub product_id : Text
  pub buy_quantity : ℕ
  pub get_quantity : ℕ

-- The value of `typeof productId === 'string' && productId.trim().length > 0`.
abbrev pub non_blank : Json → Option Text
non_blank (text t) = if is_empty (trim t) then none else some t
non_blank _ = none

-- The conditions as a rule, `none` where one of the tests fails.
unfoldable pub rule_of : Fields → Option Rule
rule_of conditions = elim (non_blank (get (codes "productId") conditions)) [
  | none ↦ none
  | some p ↦ elim (positive_integer (get (codes "buyQuantity") conditions)) [
    | none ↦ none
    | some x ↦ elim (positive_integer (get (codes "getQuantity") conditions)) [
      | none ↦ none
      | some y ↦ some record { product_id = p; buy_quantity = x; get_quantity = y }
    ]
  ]
]

abbrev pub matches_product : Text → CartLine → Bool
matches_product product line = text_eq line.product_id product

-- The loop that caps the quantity before units are made: whether it throws.
unfoldable pub exceeds_cap : Text → ℕ → List CartLine → Bool
exceeds_cap product matching_qty [] = false
exceeds_cap product matching_qty (line ∷ lines) =
    let qty = matching_qty + (if matches_product product line then line.quantity else 0) in
    let rest = exceeds_cap product qty lines in
    (matches_product product line && ltb max_line_quantity qty) || rest

pub record UnitSlot : Type 0 where
  pub unit_price : ℕ
  pub line_index : ℕ

-- The slots of the lines from an index on. The variant in the source's slots breaks no further ties:
-- slots of one line have one variant.
unfoldable pub units_of : Text → ℕ → List CartLine → List UnitSlot
units_of product index [] = []
units_of product index (line ∷ lines) =
    let rest = units_of product (index + 1) lines in
    if matches_product product line
    then replicate line.quantity record { unit_price = line.unit_price; line_index = index } ++ rest
    else rest

-- The comparison of the sort: the price, then the line.
abbrev pub before : UnitSlot → UnitSlot → Bool
before a b =
    if a.unit_price == b.unit_price
    then leb a.line_index b.line_index
    else ltb a.unit_price b.unit_price

unfoldable pub insert : UnitSlot → List UnitSlot → List UnitSlot
insert u [] = u ∷ []
insert u (v ∷ vs) = let rest = insert u vs in if before u v then u ∷ v ∷ vs else v ∷ rest

unfoldable pub sort : List UnitSlot → List UnitSlot
sort [] = []
sort (u ∷ us) = insert u (sort us)

pub data Evaluation : Type 0 where
  eligibility : Reason → Evaluation
  insufficient : Evaluation
  given : ℕ → ℕ → Evaluation  -- the free units and the discount

unfoldable pub free_units_of : Rule → ℕ → ℕ
free_units_of rule q = (q / (rule.buy_quantity + rule.get_quantity)) * rule.get_quantity

abbrev pub price_of : UnitSlot → ℕ
price_of u = u.unit_price

-- From the slots on.
unfoldable pub give_cheapest : Rule → List UnitSlot → Evaluation
give_cheapest rule units =
    let free = free_units_of rule (length units) in
    if free == 0 then insufficient else given free (sum_by price_of (take free (sort units)))

unfoldable pub evaluate_buy_x_get_y : Promotion → Option (List CartLine) → Result Reason Evaluation
evaluate_buy_x_get_y promotion none = ok (eligibility missing_lines)
evaluate_buy_x_get_y promotion (some lines) = elim (rule_of promotion.conditions) [
  | none ↦ err invalid_bxgy_conditions
  | some rule ↦
      throw_if (exceeds_cap rule.product_id 0 lines) quantity_too_large
      >> ok (give_cheapest rule (units_of rule.product_id 0 lines))
]
