-- ===== src/Payments/Tables.antt =====
-- Rows of the table of orders and the ids that they are found by.
use new_sopet_backend.Prelude.{
  find-any, ℕ, ◌≡◌, subst, Bool, true, false, inl, inr, some, List, [], ◌∷◌, arith, ◌==◌, find, any,
  keep, some, Bool-cases, ==_refl, ==_iff,
}
use new_sopet_backend.Orders.Fulfillment.{Order}

-- The primary key of the table of orders.
abbrev pub UniqueIds : List Order → Type 0
UniqueIds [] = Unit
UniqueIds (o ∷ os) = (any (λ (p : Order). p.id == o.id) os ≡ false) × UniqueIds os

-- A row that is found in any way is the row of its id.
pub find-UniqueIds :
    (t : Order → Bool) (os : List Order) (q : Order)
    → UniqueIds os
    → find t os ≡ some q
    → find (λ (p : Order). p.id == q.id) os ≡ some q
find-UniqueIds t [] q u h = cc
find-UniqueIds t (p ∷ ps) q u h = elim (Bool-cases (t p)) [
  | inl this ↦
      let same : p ≡ q = ground arith in
      subst (λ x. find (λ (y : Order). y.id == x.id) (p ∷ ps) ≡ some x) same
        (ground (arith, ==_refl p.id))
  | inr next ↦
      let later : find t ps ≡ some q = ground arith in
      elim (Bool-cases (p.id == q.id)) [
        | inl clash ↦
            let e : p.id ≡ q.id = (==_iff p.id q.id).0 clash in
            let hit : any (λ (y : Order). y.id == p.id) ps ≡ true =
              find-any t _ ps q later (rw e (==_refl q.id)) in
            let fresh = u.0 in cc
        | inr other ↦ ground (arith, find-UniqueIds t ps q u.1 later)
      ]
]

pub find-keep :
    (id : ℕ) (t : Order → Bool) (os : List Order) (o : Order)
    → find (λ (p : Order). p.id == id) os ≡ some o
    → t o ≡ true
    → find (λ (p : Order). p.id == id) (keep t os) ≡ some o
find-keep id t [] o found h = cc
find-keep id t (p ∷ ps) o found h = elim (Bool-cases (p.id == id)) [
  | inl this ↦
      let same : p ≡ o = ground arith in let kept : t p ≡ true = cc (same, h) in ground arith
  | inr next ↦
      let later : find (λ (q : Order). q.id == id) ps ≡ some o = ground arith in
      ground (arith, find-keep id t ps o later h)
]
