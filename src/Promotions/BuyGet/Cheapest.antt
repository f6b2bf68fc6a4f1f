-- ===== src/Promotions/BuyGet/Cheapest.antt =====
-- What the buy-x-get-y rule gives away.
use native.Mathlib.Nat.{div-mul-le_self, lt-div-mul-add}
use new_sopet_backend.Prelude.{
  ℕ, zero, suc, ◌+◌, ◌*◌, ◌/◌, ◌<◌, ◌≤◌, ◌≡◌, refl, ◌∙◌, inl, inr, List, [], ◌∷◌, ◌==◌,
  if◌then◌else◌, arith, length, take, sum_by, All, Bool-cases,
}
use new_sopet_backend.Promotions.BuyGet.{
  Rule, UnitSlot, before, insert, sort, insufficient, given, free_units_of, price_of, give_cheapest,
}

-- The units that are left after the first ones.
abbrev pub drop : ℕ → List UnitSlot → List UnitSlot
drop zero us = us
drop (suc n) [] = []
drop (suc n) (u ∷ us) = drop n us

abbrev pub NoDearer : List UnitSlot → UnitSlot → Type 0
NoDearer vs u = All (λ (v : UnitSlot). price_of u ≤ price_of v) vs

abbrev Sorted : List UnitSlot → Type 0
Sorted [] = Unit
Sorted (u ∷ us) = NoDearer us u × Sorted us

-- A choice of some of the units: every unit is chosen or left, and none that is chosen is dearer
-- than one that is left.
pub record CheapestOf (units chosen left : List UnitSlot) : Type 0 where
  pub split : (f : UnitSlot → ℕ) → sum_by f chosen + sum_by f left ≡ sum_by f units
  pub no_dearer : All (NoDearer left) chosen

NoDearer-trans :
    (u v : UnitSlot) (ws : List UnitSlot) → price_of u ≤ price_of v → NoDearer ws v → NoDearer ws u
NoDearer-trans u v [] h k = tt
NoDearer-trans u v (w ∷ ws) h k = (omega (arith, h, k.0), NoDearer-trans u v ws h k.1)

insert-All :
    (P : UnitSlot → Type 0) (u : UnitSlot) (vs : List UnitSlot)
    → P u
    → All P vs
    → All P (insert u vs)
unfolding insert
insert-All P u [] h k = (h, tt)
insert-All P u (v ∷ vs) h k = elim (Bool-cases (before u v)) [
  | inl first ↦ rw first (h, k)
  | inr later ↦ rw later (k.0, insert-All P u vs h k.1)
]

insert-Sorted : (u : UnitSlot) (vs : List UnitSlot) → Sorted vs → Sorted (insert u vs)
unfolding insert
insert-Sorted u [] h = (tt, tt)
insert-Sorted u (v ∷ vs) h = elim (Bool-cases (before u v)) [
  | inl first ↦
      let le : price_of u ≤ price_of v = ground arith in
      rw first ((le, NoDearer-trans u v vs le h.0), h)
  | inr later ↦
      let le : price_of v ≤ price_of u = ground arith in
      rw later (insert-All (λ w. price_of v ≤ price_of w) u vs le h.0, insert-Sorted u vs h.1)
]

sort-Sorted : (us : List UnitSlot) → Sorted (sort us)
unfolding sort
sort-Sorted [] = tt
sort-Sorted (u ∷ us) = insert-Sorted u (sort us) (sort-Sorted us)

sum_by-insert :
    (f : UnitSlot → ℕ) (u : UnitSlot) (vs : List UnitSlot)
    → sum_by f (insert u vs) ≡ f u + sum_by f vs
unfolding insert
sum_by-insert f u [] = omega arith
sum_by-insert f u (v ∷ vs) = ground (arith, sum_by-insert f u vs)

sum_by-sort : (f : UnitSlot → ℕ) (us : List UnitSlot) → sum_by f (sort us) ≡ sum_by f us
unfolding sort
sum_by-sort f [] = refl
sum_by-sort f (u ∷ us) = omega (arith, sum_by-insert f u (sort us), sum_by-sort f us)

sum_by-take :
    (f : UnitSlot → ℕ) (n : ℕ) (us : List UnitSlot)
    → sum_by f (take n us) + sum_by f (drop n us) ≡ sum_by f us
sum_by-take f zero us = omega arith
sum_by-take f (suc n) [] = omega arith
sum_by-take f (suc n) (u ∷ us) = omega (arith, sum_by-take f n us)

length-sum_by : (us : List UnitSlot) → length us ≡ sum_by (λ u. 1) us
length-sum_by [] = refl
length-sum_by (u ∷ us) = omega (arith, length-sum_by us)

length-take : (n : ℕ) (us : List UnitSlot) → n ≤ length us → length (take n us) ≡ n
length-take zero us h = refl
length-take (suc n) [] h = omega (arith, h)
length-take (suc n) (u ∷ us) h = omega (arith, length-take n us (omega (arith, h)))

drop-All : (P : UnitSlot → Type 0) (n : ℕ) (us : List UnitSlot) → All P us → All P (drop n us)
drop-All P zero us h = h
drop-All P (suc n) [] h = tt
drop-All P (suc n) (u ∷ us) h = drop-All P n us h.1

take-NoDearer : (n : ℕ) (us : List UnitSlot) → Sorted us → All (NoDearer (drop n us)) (take n us)
take-NoDearer zero us h = tt
take-NoDearer (suc n) [] h = tt
take-NoDearer (suc n) (u ∷ us) h =
    (drop-All (λ v. price_of u ≤ price_of v) n us h.0, take-NoDearer n us h.1)

free_units_of-le : (rule : Rule) (q : ℕ) → free_units_of rule q ≤ q
unfolding free_units_of
free_units_of-le rule q = omega (arith, div-mul-le_self q (rule.buy_quantity + rule.get_quantity))

same_zero : (groups k : ℕ) → 1 ≤ k → (groups * k == 0) ≡ (groups == 0)
same_zero zero k h = ground arith
same_zero (suc n) k h = let some : 1 ≤ suc n * k = omega (arith, h) in ground (arith, some)

module _ (rule : Rule) (units : List UnitSlot) (some_free : 1 ≤ rule.get_quantity) where
  -- Where a rule gives at least one unit: the units split into as many free ones as it gives for all the
  -- whole groups of bought and free units that they fill, and the others, none of the free ones dearer than
  -- another. The discount is the price of the free ones, and with no whole group nothing is given.
  pub give_cheapest_lem :
      (groups : ℕ) × (chosen : List UnitSlot) × (left : List UnitSlot) × (groups
          * (rule.buy_quantity + rule.get_quantity)
        ≤ length units)
      × (length units < (groups + 1) * (rule.buy_quantity + rule.get_quantity))
      × CheapestOf units chosen left
      × (length chosen ≡ groups * rule.get_quantity)
      × (give_cheapest rule units
          ≡ (if groups == 0 then insufficient else given (length chosen) (sum_by price_of chosen)))
  unfolding give_cheapest free_units_of
  give_cheapest_lem =
      let size : ℕ = rule.buy_quantity + rule.get_quantity in
      let groups : ℕ = length units / size in
      let free : ℕ = groups * rule.get_quantity in
      let fits : free ≤ length (sort units) = omega (
        arith,
        free_units_of-le rule (length units),
        length-sum_by units,
        length-sum_by (sort units),
        sum_by-sort (λ u. 1) units,
      ) in
      let taken = length-take free (sort units) fits in
      (
        groups,
        take free (sort units),
        drop free (sort units),
        div-mul-le_self (length units) size,
        omega (arith, lt-div-mul-add {a = length units} {b = size} (omega (arith, some_free))),
        record {
          split = λ f. sum_by-take f free (sort units) ∙ sum_by-sort f units;
          no_dearer = take-NoDearer free (sort units) (sort-Sorted units);
        },
        taken,
        rw (taken, same_zero groups rule.get_quantity some_free) refl,
      )
