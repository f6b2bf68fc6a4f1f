-- ===== src/Commission/Bisect.antt =====
-- `largestPostProduct` finds the largest amount whose net fits, and always ends.
use native.Mathlib.Decide.{dec_le}
use new_sopet_backend.Prelude.{
  ℕ, zero, suc, ◌+◌, ◌-◌, ◌/◌, ◌≤◌, ◌<◌, ◌≡◌, inl, inr, true, false, Bool-cases, ltb, leb→le,
  leb→lt, arith,
}
use new_sopet_backend.Commission.{commission_satang, net_fits, bisect, largest_post_product}
use new_sopet_backend.Commission.Rate.{commission-add_le}

-- The net of `x` satang, after commission, is at most `remaining`.
abbrev pub Fits : ℕ → ℕ → ℕ → Type 0
Fits rate remaining x = x ≤ remaining + commission_satang x rate

-- `best` is the largest amount up to `limit` whose net fits.
pub record IsLargest (rate remaining limit best : ℕ) : Type 0 where
  pub fits : Fits rate remaining best
  pub within : best ≤ limit
  pub last : (x : ℕ) → best < x → x ≤ limit → remaining + commission_satang x rate < x

-- Between two rounds: all below `lo` is decided by `best`, and nothing from `top` up fits.
record Bracket (rate remaining limit lo top best : ℕ) : Type 0 where
  ordered : lo ≤ top
  within : top ≤ limit + 1
  fits : Fits rate remaining best
  next : lo ≤ best + 1
  below : best < top
  above : (x : ℕ) → top ≤ x → x ≤ limit → remaining + commission_satang x rate < x

net_fits→Fits : (rate remaining x : ℕ) → net_fits rate remaining x ≡ true → Fits rate remaining x
unfolding net_fits
net_fits→Fits rate remaining x h = leb→le _ _ h

net_fits→short :
    (rate remaining x : ℕ)
    → net_fits rate remaining x ≡ false
    → remaining + commission_satang x rate < x
unfolding net_fits
net_fits→short rate remaining x h = leb→lt _ _ h

module _ (rate remaining : ℕ) (rate_le : rate ≤ 100) where
  -- What fits, fits with less product too.
  Fits-down : (x d : ℕ) → Fits rate remaining (x + d) → Fits rate remaining x
  Fits-down x d f = omega (arith, commission-add_le x d rate rate_le)

  not-Fits-up :
      (x y : ℕ)
      → remaining + commission_satang x rate < x
      → x ≤ y
      → remaining + commission_satang y rate < y
  not-Fits-up x y short h =
      let e : x + (y - x) ≡ y = omega arith in
      rw (← e) (omega (arith, commission-add_le x (y - x) rate rate_le))

  module _ (limit lo top best : ℕ) (lt : lo < top)
      (b : Bracket rate remaining limit lo top best) where
    Bracket-Fits :
        let mid = (lo + (top - 1)) / 2 in
        Fits rate remaining mid → Bracket rate remaining limit (mid + 1) top mid
    Bracket-Fits f = record {
      ordered = omega arith;
      within = b.within;
      fits = f;
      next = omega arith;
      below = omega arith;
      above = b.above;
    }

    Bracket-short :
        let mid = (lo + (top - 1)) / 2 in
        remaining + commission_satang mid rate < mid → Bracket rate remaining limit lo mid best
    Bracket-short short =
        let mid : ℕ = (lo + (top - 1)) / 2 in
        record {
          ordered = omega arith;
          within = omega (arith, b.within);
          fits = b.fits;
          next = b.next;
          below = elim (dec_le mid best) [
            | yes p ↦ absurd (omega (arith, b.fits, not-Fits-up mid best short p))
            | no n ↦ omega arith
          ];
          above = λ x h _. not-Fits-up mid x short h;
        }

  bisect-IsLargest :
      (fuel limit lo top best : ℕ)
      → top < fuel + lo
      → Bracket rate remaining limit lo top best
      → IsLargest rate remaining limit (bisect fuel rate remaining lo top best)
  unfolding bisect
  bisect-IsLargest zero limit lo top best h b = absurd (omega (arith, b.ordered))
  bisect-IsLargest (suc fuel) limit lo top best h b =
      let mid : ℕ = (lo + (top - 1)) / 2 in
      elim (Bool-cases (ltb lo top)) [
        | inr done ↦ rw done (record {
          fits = b.fits;
          within = omega (arith, b.within, b.below);
          last = λ x p q. b.above x (ground (arith, b.ordered, b.next)) q;
        })
        | inl more ↦ elim (Bool-cases (net_fits rate remaining mid)) [
          | inl fits ↦
              rw (more, fits)
                (bisect-IsLargest fuel limit (mid + 1) top mid (ground arith) (
                  Bracket-Fits limit lo top best (ground arith) b
                    (net_fits→Fits rate remaining mid fits)))
          | inr short ↦
              rw (more, short)
                (bisect-IsLargest fuel limit lo mid best (ground arith) (
                  Bracket-short limit lo top best (ground arith) b
                    (net_fits→short rate remaining mid short)))
        ]
      ]

  -- The bisection ends within its fuel and returns the largest amount whose net fits.
  pub largest_post_product-IsLargest :
      (limit : ℕ) → IsLargest rate remaining limit (largest_post_product limit remaining rate)
  unfolding largest_post_product
  largest_post_product-IsLargest limit =
      bisect-IsLargest (limit + 2) limit 0 (limit + 1) 0 (omega arith) (record {
        ordered = omega arith;
        within = omega arith;
        fits = omega arith;
        next = omega arith;
        below = omega arith;
        above = λ x p q. absurd (omega arith);
      })
