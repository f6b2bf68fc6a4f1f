-- ===== src/Cart/Purge.antt =====
-- What reading a cart does to each of its lines.
use new_sopet_backend.Prelude.{
  ℕ, ◌≡◌, refl, ap, ◌∙◌, subst, Bool, true, false, ◌&&◌, ◌||◌, Option, none, some, List, [], ◌∷◌,
  ◌==◌, if◌then◌else◌, any, keep, inl, inr, arith, Bool-cases, Option-cases, ==_refl,
}
use new_sopet_backend.Cart.{
  CartItem, Catalog, is_suspended_store_item, is_retired_variant_item, exceeded_stock, has_id,
  cap_row, cap_rows, capped_line,
}
use new_sopet_backend.Cart.Requests.{is_line}
use new_sopet_backend.Cart.Lines.{
  row, clashes, Distinct, row-set_quantity, set_quantity-Distinct, any-keep,
}

-- A row is found by its id alone.
pub has_id-none :
    (c v : ℕ) (i : CartItem) (is : List CartItem) (r : CartItem)
    → any (clashes i) is ≡ false
    → row c v is ≡ some r
    → (i.id == r.id) ≡ false
has_id-none c v i [] r fresh found = cc
has_id-none c v i (j ∷ js) r fresh found = elim (Bool-cases (is_line c v j)) [
  | inl this ↦
      let same : j ≡ r = ground arith in
      subst (λ (x : CartItem). (i.id == x.id) ≡ false) same (ground arith)
  | inr other ↦ has_id-none c v i js r (ground arith) (ground arith)
]

any-own_id :
    (i r : CartItem) (is : List CartItem)
    → any (clashes i) is ≡ false
    → r.id ≡ i.id
    → any (λ (j : CartItem). j.id == r.id) is ≡ false
any-own_id i r [] fresh own = refl
any-own_id i r (j ∷ js) fresh own = ground (arith, own, any-own_id i r js)

pub has_id-keep :
    (c v n : ℕ) (p : CartItem → Bool) (is : List CartItem) (r : CartItem)
    → Distinct n is
    → row c v is ≡ some r
    → has_id (keep p is) r ≡ p r
has_id-keep c v n p [] r d found = cc
has_id-keep c v n p (i ∷ is) r (fresh, below, d) found = elim (Bool-cases (is_line c v i)) [
  | inl this ↦
      let same : i ≡ r = ground arith in
      let alone = any-keep (λ (j : CartItem). j.id == i.id) p is (any-own_id i i is fresh refl) in
      subst (λ x. has_id (keep p (i ∷ is)) x ≡ p x) same (ground (arith, ==_refl i.id, alone))
  | inr other ↦
      let later : row c v is ≡ some r = ground arith in
      let ne = has_id-none c v i is r fresh later in
      ground (arith, has_id-keep c v n p is r d later)
]

pub row-holds :
    (c v : ℕ) (is : List CartItem) (r : CartItem) → row c v is ≡ some r → is_line c v r ≡ true
row-holds c v [] r h = cc
row-holds c v (i ∷ is) r h = elim (Bool-cases (is_line c v i)) [
  | inl this ↦ let same : i ≡ r = ground arith in subst (λ x. is_line c v x ≡ true) same this
  | inr other ↦ row-holds c v is r (ground arith)
]

pub keep-keep :
    (p q : CartItem → Bool) (is : List CartItem) → keep p (keep q is) ≡ keep (λ i. q i && p i) is
keep-keep p q [] = refl
keep-keep p q (i ∷ is) = ground (arith, keep-keep p q is)

module _ (catalog : Catalog) where
  abbrev pub is_unavailable : CartItem → Bool
  is_unavailable i = is_suspended_store_item catalog i || is_retired_variant_item catalog i

-- What the loop over `qs` makes of one row.
abbrev cap_one : Option ℕ → ℕ → CartItem → CartItem
cap_one none id x = x
cap_one (some s) id x = if x.id == id then record x { quantity = s } else x

abbrev pub map_row : (CartItem → CartItem) → Option CartItem → Option CartItem
map_row f none = none
map_row f (some i) = some (f i)

row-cap_row :
    (c v : ℕ) (s : Option ℕ) (id : ℕ) (is : List CartItem)
    → row c v (cap_row s id is) ≡ map_row (cap_one s id) (row c v is)
unfolding cap_row
row-cap_row c v none id is = ground arith
row-cap_row c v (some s) id is = row-set_quantity c v id s is ∙ ground arith

cap_row-Distinct :
    (n : ℕ) (s : Option ℕ) (id : ℕ) (is : List CartItem)
    → Distinct n is
    → Distinct n (cap_row s id is)
unfolding cap_row
cap_row-Distinct n none id is d = d
cap_row-Distinct n (some s) id is d = set_quantity-Distinct n id s is d

cap_one-ne : (s : Option ℕ) (id : ℕ) (x : CartItem) → (id == x.id) ≡ false → cap_one s id x ≡ x
cap_one-ne none id x h = refl
cap_one-ne (some s) id x h = ground arith

module _ (catalog : Catalog) where
  abbrev pub cap_by : List CartItem → CartItem → CartItem
  cap_by [] x = x
  cap_by (q ∷ qs) x = cap_by qs (cap_one (exceeded_stock catalog q) q.id x)

  pub row-cap_rows :
      (c v : ℕ) (qs is : List CartItem)
      → row c v (cap_rows catalog qs is) ≡ map_row (cap_by qs) (row c v is)
  unfolding cap_rows
  row-cap_rows c v [] is = ground arith
  row-cap_rows c v (q ∷ qs) is =
      row-cap_rows c v qs _
      ∙ (ap (map_row (cap_by qs)) (row-cap_row c v (exceeded_stock catalog q) q.id is)
          ∙ ground arith)

  pub cap_rows-Distinct :
      (n : ℕ) (qs is : List CartItem) → Distinct n is → Distinct n (cap_rows catalog qs is)
  unfolding cap_rows
  cap_rows-Distinct n [] is d = d
  cap_rows-Distinct n (q ∷ qs) is d =
      cap_rows-Distinct n qs _ (cap_row-Distinct n (exceeded_stock catalog q) q.id is d)

  cap_by-none :
      (qs : List CartItem) (x : CartItem)
      → any (λ (q : CartItem). q.id == x.id) qs ≡ false
      → cap_by qs x ≡ x
  cap_by-none [] x h = refl
  cap_by-none (q ∷ qs) x h =
      ap (cap_by qs) (cap_one-ne (exceeded_stock catalog q) q.id x (ground arith))
      ∙ cap_by-none qs x (ground arith)

  cap_one-own : (x : CartItem) → cap_one (exceeded_stock catalog x) x.id x ≡ capped_line catalog x
  cap_one-own x = elim (Option-cases (exceeded_stock catalog x)) [
    | inl fits ↦ ground (arith, fits)
    | inr (s, over) ↦ ground (arith, over, ==_refl x.id)
  ]

  capped_line-id : (x : CartItem) → (capped_line catalog x).id ≡ x.id
  capped_line-id x = elim (Option-cases (exceeded_stock catalog x)) [
    | inl fits ↦ ground (arith, fits)
    | inr (s, over) ↦ ground (arith, over)
  ]

  -- A row that is among those of the loop is capped once.
  pub cap_by-keep :
      (c v n : ℕ) (p : CartItem → Bool) (is : List CartItem) (r : CartItem)
      → Distinct n is
      → row c v is ≡ some r
      → p r ≡ true
      → cap_by (keep p is) r ≡ capped_line catalog r
  cap_by-keep c v n p [] r d found h = cc
  cap_by-keep c v n p (i ∷ is) r (fresh, below, d) found h = elim (Bool-cases (is_line c v i)) [
    | inl this ↦
        let same : i ≡ r = ground arith in
        let kept : p i ≡ true = cc (same, h) in
        let alone =
          any-keep (λ (j : CartItem). j.id == (capped_line catalog i).id) p is
            (any-own_id i (capped_line catalog i) is fresh (capped_line-id i)) in
        subst (λ x. cap_by (keep p (i ∷ is)) x ≡ capped_line catalog x) same
          (rw kept (
            ap (cap_by (keep p is)) (cap_one-own i)
            ∙ cap_by-none (keep p is) (capped_line catalog i) alone))
    | inr other ↦
        let later : row c v is ≡ some r = ground arith in
        let ne = has_id-none c v i is r fresh later in
        let rest = cap_by-keep c v n p is r d later h in
        elim (Bool-cases (p i)) [
          | inl yes_ ↦
              rw yes_
                (ap (cap_by (keep p is)) (cap_one-ne (exceeded_stock catalog i) i.id r ne) ∙ rest)
          | inr no_ ↦ rw no_ rest
        ]
  ]
