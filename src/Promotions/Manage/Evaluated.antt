-- ===== src/Promotions/Manage/Evaluated.antt =====
-- The two copies of the tests on a buy-x-get-y rule in modules/promotions/promotions.service.ts, the one
-- of the writes and the one of the evaluation.
use new_sopet_backend.Prelude.{
  ℕ, ◌+◌, ◌<◌, ◌≡◌, inl, inr, true, Option, some, List, [], ◌∷◌, if◌then◌else◌, sum_by, arith,
  Bool-cases,
}
use new_sopet_backend.Prelude.Text.{Text, text_eq}
use new_sopet_backend.Prelude.Result.{ok, err, ◌>>=◌, throw_if}
use new_sopet_backend.Promotions.Model.{
  Fields, PromotionScope, Promotion, CartLine, is_buy_x_get_y, Reason, quantity_too_large,
}
use new_sopet_backend.Promotions.BuyGet.{
  Rule, rule_of, matches_product, exceeds_cap, evaluate_buy_x_get_y,
}
use new_sopet_backend.Promotions.Manage.{Product, assert_valid_conditions}
use new_sopet_backend.Promotions.Manage.WellFormed.{assert_valid_conditions-HasRule}

abbrev matching : Text → CartLine → ℕ
matching product line = if matches_product product line then line.quantity else 0

exceeds_cap_lem :
    (product : Text) (q : ℕ) (lines : List CartLine)
    → exceeds_cap product q lines ≡ true
    → 999 < q + sum_by (matching product) lines
unfolding exceeds_cap
exceeds_cap_lem product q [] h = cc
exceeds_cap_lem product q (line ∷ lines) h =
    ground (arith, exceeds_cap_lem product (q + matching product line) lines)

-- Conditions that a write accepts for a buy-x-get-y promotion also pass the tests of an evaluation, which
-- are written out apart: the evaluation of a cart then throws only for too large a quantity, and only where
-- the lines of the rule's product have more than 999 units together.
pub evaluate_buy_x_get_y_throws :
    (products : List Product) (scope : PromotionScope) (store_id : Option ℕ) (raw : Fields)
    (p : Promotion) (lines : List CartLine) (e : Reason)
    → is_buy_x_get_y p.type ≡ true
    → assert_valid_conditions products p.type scope store_id raw ≡ ok p.conditions
    → evaluate_buy_x_get_y p (some lines) ≡ err e
    → (e ≡ quantity_too_large)
      × (rule : Rule) × (rule_of p.conditions ≡ some rule)
      × (999
          < sum_by
              (λ (l : CartLine). if text_eq l.product_id rule.product_id then l.quantity else 0)
              lines)
unfolding evaluate_buy_x_get_y ◌>>=◌ throw_if
evaluate_buy_x_get_y_throws products scope store_id raw p lines e b accepted h =
    elim ((assert_valid_conditions-HasRule products p.type scope store_id raw).at p.conditions
      accepted) [
        | inl other ↦ cc
        | inr (rule, found) ↦
            let h' = rw (found, evaluate_buy_x_get_y) at h in
            elim (Bool-cases (exceeds_cap rule.product_id 0 lines)) [
              | inl over ↦
                  let same : e ≡ quantity_too_large = cc (rw over at h') in
                  let more : 999
                      < 0
                        + sum_by
                            (λ (l : CartLine).
                              if text_eq l.product_id rule.product_id then l.quantity else 0)
                            lines =
                    exceeds_cap_lem rule.product_id 0 lines over in
                  (same, rule, found, omega (arith, more))
              | inr fits ↦ cc (rw fits at h')
            ]
      ]
