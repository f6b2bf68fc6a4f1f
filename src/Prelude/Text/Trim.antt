-- ===== src/Prelude/Text/Trim.antt =====
-- `trim` on a text that is trimmed.
use mathlib.Core.Path.{◌≡◌, refl, sym, ap, ◌∙◌}
use mathlib.Core.Bool.{Bool, true, not}
use Prim.Native.Nat.{ℕ}
use mathlib.Core.List.{[], ◌∷◌, ◌++◌, reverse, reverse-cons, reverse-reverse}
use mathlib.Core.Logic.{inl, inr}
use native.Mathlib.Omega.{arith}
use new_sopet_backend.Prelude.Tests.{Bool-cases}
use new_sopet_backend.Prelude.Text.{Text, is_space, trim_start, trim}

-- A text that does not begin with a space, and one that does not end with one.
abbrev starts : Text → Bool
starts [] = true
starts (c ∷ s) = not (is_space c)

abbrev ends : Text → Bool
ends [] = true
ends (c ∷ []) = not (is_space c)
ends (c ∷ d ∷ s) = ends (d ∷ s)

starts-trim_start : (s : Text) → starts (trim_start s) ≡ true
unfolding trim_start
starts-trim_start [] = refl
starts-trim_start (c ∷ s) = elim (Bool-cases (is_space c)) [
  | inl space ↦ rw space (starts-trim_start s)
  | inr other ↦ rw other (ground arith)
]

trim_start-starts : (s : Text) → starts s ≡ true → trim_start s ≡ s
unfolding trim_start
trim_start-starts [] h = refl
trim_start-starts (c ∷ s) h = ground arith

ends-trim_start : (s : Text) → ends s ≡ true → ends (trim_start s) ≡ true
unfolding trim_start
ends-trim_start [] h = refl
ends-trim_start (c ∷ []) h = ground arith
ends-trim_start (c ∷ d ∷ s) h = elim (Bool-cases (is_space c)) [
  | inl space ↦ rw space (ends-trim_start (d ∷ s) h)
  | inr other ↦ rw other h
]

ends-append : (s : Text) (c : ℕ) → ends (s ++ c ∷ []) ≡ not (is_space c)
ends-append [] c = refl
ends-append (a ∷ []) c = refl
ends-append (a ∷ b ∷ s) c = ends-append (b ∷ s) c

-- A list turned round begins with what it ended with.
ends-reverse : (s : Text) → starts s ≡ true → ends (reverse s) ≡ true
ends-reverse [] h = refl
ends-reverse (c ∷ s) h = rw (reverse-cons c s) (ends-append (reverse s) c ∙ h)

starts-append : (s : Text) (d c : ℕ) → starts ((s ++ d ∷ []) ++ c ∷ []) ≡ starts (s ++ d ∷ [])
starts-append [] d c = refl
starts-append (b ∷ s) d c = refl

starts-reverse : (s : Text) → ends s ≡ true → starts (reverse s) ≡ true
starts-reverse [] h = refl
starts-reverse (c ∷ []) h = h
starts-reverse (c ∷ d ∷ s) h =
    ap starts (reverse-cons c (d ∷ s) ∙ ap (λ r. r ++ c ∷ []) (reverse-cons d s))
    ∙ starts-append (reverse s) d c
    ∙ sym (ap starts (reverse-cons d s))
    ∙ starts-reverse (d ∷ s) h

-- Trimming twice is trimming once.
pub trim_twice : (s : Text) → trim (trim s) ≡ trim s
unfolding trim
trim_twice s =
    let u : Text = trim_start s in
    let v : Text = trim_start (reverse u) in
    let head : starts v ≡ true = starts-trim_start (reverse u) in
    let last : ends v ≡ true = ends-trim_start (reverse u) (ends-reverse u (starts-trim_start s)) in
    rw (trim_start-starts (reverse v) (starts-reverse v last))
      (rw (reverse-reverse v) (ap reverse (trim_start-starts v head)))
