-- ===== src/Inventory/Reserve.antt =====
-- Placing an order deducts what was ordered, and cancelling it returns the stock.
use new_sopet_backend.Prelude.{
  ℕ, ◌+◌, ◌-◌, ◌≤◌, ◌≡◌, refl, sym, ◌∙◌, false, inl, inr, Option, none, some, List, [], ◌∷◌, arith,
  ◌==◌, if◌then◌else◌, Option-cases,
}
use new_sopet_backend.Prelude.Result.{Result, ok, err}
use new_sopet_backend.Inventory.{
  Variant, Item, ReserveError, variant_not_found, PricedLine, Db, LivePrices, find_variant,
  already_restored, deduct_stock, reserve_variant, reserve_line, reserve_lines,
  restore_stock_for_items,
}
use new_sopet_backend.Inventory.Restore.{
  stock_of, add_stock, add_stock-zero, set_to, first_quantity, due, find_variant-stock,
  stock_of-set_stock, already_restored-append, restore_stock_for_items-stock,
}

-- The order lines that `create` writes for the priced lines.
unfoldable pub items_of : ℕ → List PricedLine → List Item
items_of o [] = []
items_of o (l ∷ ls) =
    record { id = 0; order_id = o; variant_id = l.variant_id; quantity = l.quantity }
    ∷ items_of o ls

-- How much of a variant is ordered.
unfoldable pub ordered : ℕ → List PricedLine → ℕ
ordered j [] = 0
ordered j (l ∷ ls) = (if l.variant_id == j then l.quantity else 0) + ordered j ls

-- A line that goes through: its variant was found with enough stock, and the stock is deducted.
record Reserved (o : ℕ) (l : PricedLine) (before after : Db) : Type 0 where
  row : Variant
  found : find_variant l.variant_id before.variants ≡ some row
  enough : l.quantity ≤ row.stock_quantity
  written : after ≡ deduct_stock o l row before

reserve_variant-ok :
    (live : LivePrices) (o : ℕ) (l : PricedLine) (v : Variant) (db : Db) {after : Db}
    → reserve_variant live o l v db ≡ ok after
    → (l.quantity ≤ v.stock_quantity) × (after ≡ deduct_stock o l v db)
unfolding reserve_variant
reserve_variant-ok live o l v db h = ground arith

reserve_line-Reserved :
    (live : LivePrices) (o : ℕ) (l : PricedLine) (db after : Db)
    → reserve_line live o l db ≡ ok after
    → Reserved o l db after
unfolding reserve_line
reserve_line-Reserved live o l db after h =
    elim (Option-cases (find_variant l.variant_id db.variants)) [
      | inl missing ↦ cc (rw (missing, reserve_line) at h)
      | inr (v, found) ↦
          let kept : (if v.is_retired then err variant_not_found else reserve_variant live o l v db)
              ≡ ok after =
            rw (found, reserve_line) at h in
          let (enough, written) = reserve_variant-ok live o l v db {after = after} (ground arith) in
          record { row = v; found = found; enough = enough; written = written }
    ]

add_stock-add_stock : (m n : ℕ) (s : Option ℕ) → add_stock m (add_stock n s) ≡ add_stock (m + n) s
unfolding add_stock
add_stock-add_stock m n none = refl
add_stock-add_stock m n (some s) = ground arith

Reserved-stock :
    (o j : ℕ) (l : PricedLine) (db after : Db)
    → Reserved o l db after
    → stock_of j db.variants
      ≡ add_stock (if l.variant_id == j then l.quantity else 0) (stock_of j after.variants)
Reserved-stock o j l db after r =
    let v : Variant = r.row in
    let (same, stock) = find_variant-stock l.variant_id db.variants r.found in
    let n : ℕ = v.stock_quantity - l.quantity in
    rw r.written (
      unfold deduct_stock set_to add_stock in
      rw (stock_of-set_stock j v.id n db.variants)
        (ground (arith, same, stock, r.enough, add_stock-zero (stock_of j db.variants))))

Reserved-restored :
    (o p j : ℕ) (l : PricedLine) (db after : Db)
    → Reserved o l db after
    → already_restored p j after.transactions ≡ already_restored p j db.transactions
Reserved-restored o p j l db after r =
    rw r.written
      (unfold deduct_stock in rw already_restored-append (unfold already_restored in ground arith))

reserve_lines-cons :
    (live : LivePrices) (o : ℕ) (l : PricedLine) (ls : List PricedLine) (db after : Db)
    → reserve_lines live o (l ∷ ls) db ≡ ok after
    → (mid : Db) × Reserved o l db mid × (reserve_lines live o ls mid ≡ ok after)
unfolding reserve_lines
reserve_lines-cons live o l ls db after h = go (reserve_line live o l db) refl
  where
    go :
        (r : Result ReserveError Db)
        → reserve_line live o l db ≡ r
        → (mid : Db) × Reserved o l db mid × (reserve_lines live o ls mid ≡ ok after)
    go (err e) q = cc (rw (q, reserve_lines) at h)
    go (ok mid) q = (mid, reserve_line-Reserved live o l db mid q, (rw (q, reserve_lines) at h))

-- An order that is placed has taken from every variant exactly the quantity ordered of it, over all
-- its lines, and leaves the returns recorded for every order as they were.
pub reserve_lines-stock :
    (live : LivePrices) (o j : ℕ) (ls : List PricedLine) (db after : Db)
    → reserve_lines live o ls db ≡ ok after
    → (stock_of j db.variants ≡ add_stock (ordered j ls) (stock_of j after.variants))
      × ((p : ℕ) → already_restored p j after.transactions ≡ already_restored p j db.transactions)
unfolding reserve_lines ordered
reserve_lines-stock live o j [] db after h =
    let e : db ≡ after = cc in rw e (rw add_stock-zero, λ p. refl)
reserve_lines-stock live o j (l ∷ ls) db after h =
    let (mid, first, rest) = reserve_lines-cons live o l ls db after h in
    let (stock, marks) = reserve_lines-stock live o j ls mid after rest in
    (
      Reserved-stock o j l db mid first ∙ rw stock (add_stock-add_stock _ _ _),
      λ p. marks p ∙ Reserved-restored o p j l db mid first,
    )

first_quantity-le-ordered :
    (o j : ℕ) (ls : List PricedLine) → first_quantity j (items_of o ls) ≤ ordered j ls
unfolding first_quantity items_of ordered
first_quantity-le-ordered o j [] = omega arith
first_quantity-le-ordered o j (l ∷ ls) = ground (arith, first_quantity-le-ordered o j ls)

-- Placing an order for which no return is recorded and restoring its items gives a variant back
-- the quantity of the first line that orders it: what the later lines of the same variant took
-- stays missing from its stock.
pub restore-reserve_lines :
    (live : LivePrices) (o j : ℕ) (ls : List PricedLine) (db after : Db)
    → already_restored o j db.transactions ≡ false
    → reserve_lines live o ls db ≡ ok after
    → stock_of j db.variants
      ≡ add_stock
          (ordered j ls - first_quantity j (items_of o ls))
          (stock_of j (restore_stock_for_items o (items_of o ls) after).0.variants)
restore-reserve_lines live o j ls db after new h =
    let (stock, marks) = reserve_lines-stock live o j ls db after h in
    let items : List Item = items_of o ls in
    let first : ℕ = first_quantity j items in
    let owed : due o j items after.transactions ≡ first = unfold due in rw (marks o, new) in
    let sum : ordered j ls - first + first ≡ ordered j ls =
      omega (arith, first_quantity-le-ordered o j ls) in
    rw (restore_stock_for_items-stock o j items after, owed, add_stock-add_stock, sum) stock

-- No two lines order the same variant.
abbrev pub Distinct : List PricedLine → Type 0
Distinct [] = Unit
Distinct (l ∷ ls) = (ordered l.variant_id ls ≡ 0) × Distinct ls

first_quantity-eq-ordered :
    (o j : ℕ) (ls : List PricedLine) → Distinct ls → first_quantity j (items_of o ls) ≡ ordered j ls
unfolding first_quantity items_of ordered
first_quantity-eq-ordered o j [] h = refl
first_quantity-eq-ordered o j (l ∷ ls) h = ground (arith, first_quantity-eq-ordered o j ls h.1)

-- Where every variant is ordered on one line, cancelling gives back the whole stock of each.
pub restore-reserve_lines-Distinct :
    (live : LivePrices) (o j : ℕ) (ls : List PricedLine) (db after : Db)
    → already_restored o j db.transactions ≡ false
    → Distinct ls
    → reserve_lines live o ls db ≡ ok after
    → stock_of j (restore_stock_for_items o (items_of o ls) after).0.variants
      ≡ stock_of j db.variants
restore-reserve_lines-Distinct live o j ls db after new d h =
    let none_left : ordered j ls - first_quantity j (items_of o ls) ≡ 0 =
      omega (arith, first_quantity-eq-ordered o j ls d) in
    sym (restore-reserve_lines live o j ls db after new h ∙ rw (none_left, add_stock-zero))
