-- ===== src/Promotions/Manage/WellFormed.antt =====
-- Every promotion that is stored passes the checks of its writes.
use new_sopet_backend.Prelude.{
  ℕ, ◌≡◌, ◌⊎◌, inl, inr, refl, subst, Bool, true, false, not, ◌&&◌, ◌||◌, Option, none, some, List,
  [], ◌∷◌, ◌==◌, ltb, if◌then◌else◌, find, All, arith, Option-cases, Bool-cases,
}
use new_sopet_backend.Prelude.Text.{Text, codes}
use new_sopet_backend.Prelude.Result.{
  Result, ok, err, throw_if, Ensures, Ensures-ok, Ensures-bind, Ensures-throw_if,
}
use new_sopet_backend.Promotions.Model.{
  Json, text, integer, get, positive_integer, Fields, PromotionType, PromotionScope, Promotion,
  is_buy_x_get_y, Reason,
}
use new_sopet_backend.Promotions.BuyGet.{Rule, non_blank, rule_of}
use new_sopet_backend.Promotions.Manage.{
  Product, CreateInput, UpdateInput, is_percentage, assert_discount_bounds, is_inverted,
  assert_valid_date_range, is_no_text, is_no_count, lacks_rule, check_rule, assert_valid_conditions,
  default_to, given?, create, new_conditions, updated, find_one, save_promotion, Command,
  create_promotion, update_promotion, toggle_promotion, soft_delete_promotion, run, run_all,
}

abbrev IsBounded : PromotionType → ℕ → Type 0
IsBounded type value = (is_percentage type && ltb 10000 value) ≡ false

abbrev pub HasRule : PromotionType → Fields → Type 0
HasRule type conditions =
    (is_buy_x_get_y type ≡ false) ⊎ ((rule : Rule) × (rule_of conditions ≡ some rule))

-- A percentage is at most 100, the end is after the start, and a buy-x-get-y promotion has a rule.
pub record WellFormed (p : Promotion) : Type 0 where
  pub bounded : IsBounded p.type p.discount_value
  pub dates : is_inverted p.starts_at p.expires_at ≡ false
  pub has_rule : HasRule p.type p.conditions

assert_discount_bounds_lem :
    (type : PromotionType) (value : ℕ) (u : Unit {0})
    → assert_discount_bounds type value ≡ ok u
    → IsBounded type value
unfolding assert_discount_bounds throw_if
assert_discount_bounds_lem type value u h = ground arith

assert_valid_date_range_lem :
    (starts expires : Option ℕ) (u : Unit {0})
    → assert_valid_date_range starts expires ≡ ok u
    → is_inverted starts expires ≡ false
unfolding assert_valid_date_range throw_if
assert_valid_date_range_lem starts expires u h = ground arith

clash : true ≡ false → ⊥
clash h = cc

counted : (j : Json) → is_no_count j ≡ false → (n : ℕ) × (positive_integer j ≡ some n)
counted (integer n) h = (n, ground arith)
counted _ h = absurd (clash h)

named : (j : Json) → is_no_text j ≡ false → (t : Text) × (non_blank j ≡ some t)
named (text t) h = (t, rw h refl)
named _ h = absurd (clash h)

-- What the tests of a write let through is a rule for the tests of an evaluation.
lacks_rule-rule_of :
    (conditions : Fields)
    → lacks_rule conditions ≡ false
    → (rule : Rule) × (rule_of conditions ≡ some rule)
unfolding lacks_rule rule_of
lacks_rule-rule_of conditions h =
    let (p, is_p) = named (get (codes "productId") conditions) (ground arith) in
    let (x, is_x) = counted (get (codes "buyQuantity") conditions) (ground arith) in
    let (y, is_y) = counted (get (codes "getQuantity") conditions) (ground arith) in
    (
      record { product_id = p; buy_quantity = x; get_quantity = y },
      rw (rule_of, is_p, is_x, is_y)
          (refl {a = some record { product_id = p; buy_quantity = x; get_quantity = y }}),
    )

check_rule-HasRule :
    (products : List Product) (type : PromotionType) (scope : PromotionScope) (store_id : Option ℕ)
    (conditions : Fields) (u : Unit {0})
    → check_rule products type scope store_id conditions ≡ ok u
    → HasRule type conditions
unfolding check_rule
check_rule-HasRule products type scope store_id conditions u h =
    elim (Bool-cases (is_buy_x_get_y type)) [
      | inr other ↦ inl other
      | inl bxgy ↦ elim (Bool-cases (lacks_rule conditions)) [
        | inl missing ↦ cc (rw (missing, bxgy, check_rule) at h)
        | inr complete ↦ inr (lacks_rule-rule_of conditions complete)
      ]
    ]

pub assert_valid_conditions-HasRule :
    (products : List Product) (type : PromotionType) (scope : PromotionScope) (store_id : Option ℕ)
    (conditions : Fields)
    → Ensures (HasRule type) (assert_valid_conditions products type scope store_id conditions)
unfolding assert_valid_conditions
assert_valid_conditions-HasRule products type scope store_id conditions =
    let P : Fields → Type 0 = HasRule type in
    Ensures-throw_if P _ _ _ λ new. Ensures-bind P _ _ λ normal members.
      Ensures-bind P _ _ λ u checked.
        Ensures-ok P normal (check_rule-HasRule products type scope store_id normal u checked)

module _ (json_parse : Text → Option Json) (to_upper_case : Text → Text)
    (products : List Product) where
  create-WellFormed :
      (id : ℕ) (input : CreateInput) (scope : PromotionScope) (store_id : Option ℕ)
      → Ensures WellFormed (create json_parse to_upper_case products id input scope store_id)
  unfolding create
  create-WellFormed id input scope store_id = Ensures-bind WellFormed _ _ λ u bounded.
      Ensures-bind WellFormed _ _ λ v dated. Ensures-bind WellFormed _ _ λ parsed read.
        Ensures-bind WellFormed _ _ λ conditions valid. Ensures-ok WellFormed _ (record {
          bounded = assert_discount_bounds_lem input.type input.discount_value u bounded;
          dates = assert_valid_date_range_lem input.starts_at input.expires_at v dated;
          has_rule =
              (assert_valid_conditions-HasRule products input.type scope store_id parsed).at
                conditions valid;
        })

  still-IsBounded :
      (p : Promotion) (type : Option PromotionType) (value : Option ℕ) (u : Unit {0})
      → WellFormed p
      → (if given? type || given? value
          then assert_discount_bounds (default_to p.type type) (default_to p.discount_value value)
          else ok tt)
        ≡ ok u
      → IsBounded (default_to p.type type) (default_to p.discount_value value)
  still-IsBounded p none none u w h = w.bounded
  still-IsBounded p none (some v) u w h = assert_discount_bounds_lem p.type v u h
  still-IsBounded p (some t) none u w h = assert_discount_bounds_lem t p.discount_value u h
  still-IsBounded p (some t) (some v) u w h = assert_discount_bounds_lem t v u h

  still-dated :
      (p : Promotion) (starts expires : Option (Option ℕ)) (u : Unit {0})
      → WellFormed p
      → (if given? starts || given? expires
          then assert_valid_date_range
              (default_to p.starts_at starts)
              (default_to p.expires_at expires)
          else ok tt)
        ≡ ok u
      → is_inverted (default_to p.starts_at starts) (default_to p.expires_at expires) ≡ false
  still-dated p none none u w h = w.dates
  still-dated p none (some e) u w h = assert_valid_date_range_lem p.starts_at e u h
  still-dated p (some s) none u w h = assert_valid_date_range_lem s p.expires_at u h
  still-dated p (some s) (some e) u w h = assert_valid_date_range_lem s e u h

  still-HasRule :
      (p : Promotion) (type : Option PromotionType) (text : Option Text)
      (parsed conditions : Fields)
      → WellFormed p
      → new_conditions json_parse to_upper_case products p.conditions text ≡ ok parsed
      → (if given? text || given? type
          then assert_valid_conditions products (default_to p.type type) p.scope p.store_id parsed
          else ok parsed)
        ≡ ok conditions
      → HasRule (default_to p.type type) conditions
  unfolding new_conditions
  still-HasRule p none none parsed conditions w r h =
      let same : p.conditions ≡ conditions = cc in subst (HasRule p.type) same w.has_rule
  still-HasRule p type (some t) parsed conditions w r h =
      (assert_valid_conditions-HasRule products (default_to p.type type) p.scope p.store_id
          parsed).at
        conditions h
  still-HasRule p (some ty) none parsed conditions w r h =
      (assert_valid_conditions-HasRule products ty p.scope p.store_id parsed).at conditions h

  updated-WellFormed :
      (input : UpdateInput) (p : Promotion)
      → WellFormed p
      → Ensures WellFormed (updated json_parse to_upper_case products input p)
  unfolding updated
  updated-WellFormed input p w = Ensures-bind WellFormed _ _ λ u bounded.
      Ensures-bind WellFormed _ _ λ parsed read. Ensures-bind WellFormed _ _ λ conditions valid.
        Ensures-bind WellFormed _ _ λ v dated. Ensures-ok WellFormed _ (record {
          bounded = still-IsBounded p input.type input.discount_value u w bounded;
          dates = still-dated p input.starts_at input.expires_at v w dated;
          has_rule = still-HasRule p input.type input.conditions parsed conditions w read valid;
        })

find-WellFormed :
    (test : Promotion → Bool) (ps : List Promotion) (p : Promotion)
    → All WellFormed ps
    → find test ps ≡ some p
    → WellFormed p
find-WellFormed test [] p w h = cc
find-WellFormed test (q ∷ qs) p w h = elim (Bool-cases (test q)) [
  | inl this ↦ let same : q ≡ p = ground arith in subst WellFormed same w.0
  | inr next ↦ find-WellFormed test qs p w.1 (ground arith)
]

find_one-WellFormed :
    (id : ℕ) (ps : List Promotion) (p : Promotion)
    → All WellFormed ps
    → find_one id ps ≡ ok p
    → WellFormed p
find_one-WellFormed id ps p w h =
    elim (Option-cases (find (λ (q : Promotion). q.id == id && not q.deleted) ps)) [
      | inl missing ↦ cc (rw (missing, find_one) at h)
      | inr (q, found) ↦
          let same : q ≡ p = cc (rw (found, find_one) at h) in
          subst WellFormed same (find-WellFormed _ ps q w found)
    ]

save_promotion-All :
    (p : Promotion) (ps : List Promotion)
    → WellFormed p
    → All WellFormed ps
    → All WellFormed (save_promotion p ps)
unfolding save_promotion
save_promotion-All p [] w ws = tt
save_promotion-All p (q ∷ qs) w ws = (
  elim (Bool-cases (q.id == p.id)) [ inl this ↦ rw this w | inr other ↦ rw other ws.0 ],
  save_promotion-All p qs w ws.1,
)

module _ (json_parse : Text → Option Json) (to_upper_case : Text → Text)
    (products : List Product) where
  run-WellFormed :
      (c : Command) (ps : List Promotion)
      → All WellFormed ps
      → Ensures (All WellFormed) (run json_parse to_upper_case products c ps)
  unfolding run
  run-WellFormed (create_promotion id input scope store_id) ps ws =
      Ensures-bind (All WellFormed) _ _ λ p made. Ensures-ok (All WellFormed) _ (
        (create-WellFormed json_parse to_upper_case products id input scope store_id).at p made,
        ws,
      )
  run-WellFormed (update_promotion id input) ps ws = Ensures-bind (All WellFormed) _ _ λ p found.
      Ensures-bind (All WellFormed) _ _ λ q changed. Ensures-ok (All WellFormed) _ (
        save_promotion-All q ps
          ((updated-WellFormed json_parse to_upper_case products input p
              (find_one-WellFormed id ps p ws found)).at
            q changed)
          ws)
  run-WellFormed (toggle_promotion id is_active) ps ws =
      Ensures-bind (All WellFormed) _ _ λ p found.
        let w : WellFormed p = find_one-WellFormed id ps p ws found in
        Ensures-ok (All WellFormed) _ (
          save_promotion-All _ ps
            (record { bounded = w.bounded; dates = w.dates; has_rule = w.has_rule }) ws)
  run-WellFormed (soft_delete_promotion id) ps ws = Ensures-bind (All WellFormed) _ _ λ p found.
      let w : WellFormed p = find_one-WellFormed id ps p ws found in
      Ensures-ok (All WellFormed) _ (
        save_promotion-All _ ps
          (record { bounded = w.bounded; dates = w.dates; has_rule = w.has_rule }) ws)

  -- Where every promotion is well-formed, the same holds after any calls that create, change, toggle
  -- or delete promotions, whether they succeed or throw: percentages are at most 100, an end is
  -- after its start, and every buy-x-get-y promotion has a rule.
  pub run_all-WellFormed :
      (cs : List Command) (ps : List Promotion)
      → All WellFormed ps
      → All WellFormed (run_all json_parse to_upper_case products cs ps)
  unfolding run_all
  run_all-WellFormed [] ps ws = ws
  run_all-WellFormed (c ∷ cs) ps ws =
      run_all-WellFormed cs _
        (go (run json_parse to_upper_case products c ps) (run-WellFormed c ps ws))
    where
      go :
          (r : Result Reason (List Promotion))
          → Ensures (All WellFormed) r
          → All WellFormed (elim r as (λ _. List Promotion) [ ok qs ↦ qs | err e ↦ ps ])
      go (ok qs) h = h.at qs refl
      go (err e) h = ws
