-- ===== src/Cart/Lines.antt =====
-- The line of a variant in a cart, under the writes of the service.
use new_sopet_backend.Prelude.{
  ℕ, suc, ◌≡◌, refl, ◌∙◌, Bool, true, false, ◌&&◌, ◌||◌, Option, none, some, List, [], ◌∷◌, ◌++◌,
  ◌==◌, ltb, if◌then◌else◌, any, keep, find, inl, inr, arith, Bool-cases,
}
use new_sopet_backend.Cart.{CartItem, set_quantity}
use new_sopet_backend.Cart.Requests.{is_line}

abbrev pub row : ℕ → ℕ → List CartItem → Option CartItem
row c v is = find (is_line c v) is

-- The primary key and the unique index of the table; the ids are below the next one.
abbrev pub clashes : CartItem → CartItem → Bool
clashes i j = j.id == i.id || j.cart_id == i.cart_id && j.variant_id == i.variant_id

abbrev pub Distinct : ℕ → List CartItem → Type 0
Distinct n [] = Unit
Distinct n (i ∷ is) = (any (clashes i) is ≡ false) × (ltb i.id n ≡ true) × Distinct n is

abbrev pub set_row : ℕ → ℕ → Option CartItem → Option CartItem
set_row id n none = none
set_row id n (some i) = some (if i.id == id then record i { quantity = n } else i)

pub row-set_quantity :
    (c v id n : ℕ) (is : List CartItem) → row c v (set_quantity id n is) ≡ set_row id n (row c v is)
unfolding set_quantity
row-set_quantity c v id n [] = refl
row-set_quantity c v id n (i ∷ is) = ground (arith, row-set_quantity c v id n is)

abbrev pub keep_row : (CartItem → Bool) → Option CartItem → Option CartItem
keep_row p none = none
keep_row p (some i) = if p i then some i else none

pub row-clash :
    (c v : ℕ) (i : CartItem) (is : List CartItem)
    → is_line c v i ≡ true
    → any (clashes i) is ≡ false
    → row c v is ≡ none
row-clash c v i [] h k = refl
row-clash c v i (j ∷ js) h k = ground (arith, row-clash c v i js)

row-keep-none :
    (c v : ℕ) (p : CartItem → Bool) (is : List CartItem)
    → row c v is ≡ none
    → row c v (keep p is) ≡ none
row-keep-none c v p [] h = refl
row-keep-none c v p (i ∷ is) h = ground (arith, row-keep-none c v p is)

pub row-keep :
    (c v n : ℕ) (p : CartItem → Bool) (is : List CartItem)
    → Distinct n is
    → row c v (keep p is) ≡ keep_row p (row c v is)
row-keep c v n p [] d = refl
row-keep c v n p (i ∷ is) (fresh, below, d) = elim (Bool-cases (is_line c v i)) [
  | inl this ↦ let gone = row-keep-none c v p is (row-clash c v i is this fresh) in ground arith
  | inr other ↦ ground (arith, row-keep c v n p is d)
]

abbrev pub or_row : Option CartItem → Option CartItem → Option CartItem
or_row none r = r
or_row (some i) r = some i

pub row-append :
    (c v : ℕ) (is : List CartItem) (i : CartItem)
    → row c v (is ++ i ∷ []) ≡ or_row (row c v is) (if is_line c v i then some i else none)
row-append c v [] i = ground arith
row-append c v (j ∷ js) i = ground (arith, row-append c v js i)

any-set_quantity :
    (i : CartItem) (id n : ℕ) (is : List CartItem)
    → any (clashes i) (set_quantity id n is) ≡ any (clashes i) is
unfolding set_quantity
any-set_quantity i id n [] = refl
any-set_quantity i id n (j ∷ js) = ground (arith, any-set_quantity i id n js)

pub set_quantity-Distinct :
    (m id n : ℕ) (is : List CartItem) → Distinct m is → Distinct m (set_quantity id n is)
unfolding set_quantity
set_quantity-Distinct m id n [] d = tt
set_quantity-Distinct m id n (i ∷ is) (fresh, below, d) = elim (Bool-cases (i.id == id)) [
  | inl this ↦
      rw this (any-set_quantity i id n is ∙ fresh, below, set_quantity-Distinct m id n is d)
  | inr other ↦
      rw other (any-set_quantity i id n is ∙ fresh, below, set_quantity-Distinct m id n is d)
]

pub any-keep :
    (f p : CartItem → Bool) (is : List CartItem) → any f is ≡ false → any f (keep p is) ≡ false
any-keep f p [] h = refl
any-keep f p (i ∷ is) h = ground (arith, any-keep f p is)

pub keep-Distinct :
    (m : ℕ) (p : CartItem → Bool) (is : List CartItem) → Distinct m is → Distinct m (keep p is)
keep-Distinct m p [] d = tt
keep-Distinct m p (i ∷ is) (fresh, below, d) = elim (Bool-cases (p i)) [
  | inl yes_ ↦ rw yes_ (any-keep (clashes i) p is fresh, below, keep-Distinct m p is d)
  | inr no_ ↦ rw no_ (keep-Distinct m p is d)
]

pub any-append :
    (f : CartItem → Bool) (xs ys : List CartItem) → any f (xs ++ ys) ≡ (any f xs || any f ys)
any-append f [] ys = refl
any-append f (x ∷ xs) ys = ground (arith, any-append f xs ys)

-- A new row has the next id and is of a variant that the cart has no line of.
pub append-Distinct :
    (m : ℕ) (is : List CartItem) (i : CartItem)
    → i.id ≡ m
    → row i.cart_id i.variant_id is ≡ none
    → Distinct m is
    → Distinct (suc m) (is ++ i ∷ [])
append-Distinct m [] i own new d = (refl, ground arith, tt)
append-Distinct m (j ∷ js) i own new (fresh, below, d) = (
  any-append (clashes j) js (i ∷ []) ∙ ground arith,
  ground arith,
  append-Distinct m js i own (ground arith) d,
)
