-- ===== src/Commission/Rate.antt =====
-- How the commission grows with the product amount, at the rates from 0 to 100 that the inputs allow.
use native.Mathlib.Nat.{mul-le-mul, le_refl}
use new_sopet_backend.Prelude.{ℕ, ◌+◌, ◌-◌, ◌≤◌, ◌≡◌, arith}
use new_sopet_backend.Commission.{commission_satang, to_satang, from_satang}

-- What a whole number of satang becomes and back.
pub to_satang-from_satang : (s : ℕ) → to_satang (from_satang s) ≡ s
unfolding to_satang from_satang
to_satang-from_satang s = omega arith

pub commission-zero : (rate : ℕ) → commission_satang 0 rate ≡ 0
unfolding commission_satang
commission-zero rate = omega arith

-- More product never pays less commission.
pub commission_mono : (x d rate : ℕ) → commission_satang x rate ≤ commission_satang (x + d) rate
unfolding commission_satang
commission_mono x d rate = omega arith

pub commission_le_of_le :
    (x y rate : ℕ) → x ≤ y → commission_satang x rate ≤ commission_satang y rate
commission_le_of_le x y rate h =
    let e : x + (y - x) ≡ y = omega arith in rw (← e) (commission_mono x (y - x) rate)

-- Of `d` more satang the commission takes at most `d`.
pub commission-add_le :
    (x d rate : ℕ) → rate ≤ 100 → commission_satang (x + d) rate ≤ commission_satang x rate + d
unfolding commission_satang
commission-add_le x d rate h = omega (arith, mul-le-mul (le_refl d) h)

-- The commission never exceeds the product amount.
pub commission-le : (x rate : ℕ) → rate ≤ 100 → commission_satang x rate ≤ x
unfolding commission_satang
commission-le x rate h = omega (arith, mul-le-mul (le_refl x) h)
