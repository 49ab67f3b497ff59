-- ===== src/Metric/Sums.antt =====
-- Sums of integers over the indices below a bound.
use mathlib.Core.Path.{ap₂}
use php_spx.Prelude.{ℕ, zero, suc, ◌<◌, ◌≡◌, ◌≢◌, refl, ap, sym, ◌∙◌, arith, ℕ_discrete}
use php_spx.Prelude.Int.{ℤ, pos, ◌+ℤ◌, int_laws}

unfoldable pub sum_below : ℕ → (ℕ → ℤ) → ℤ
sum_below zero f = pos 0
sum_below (suc n) f = sum_below n f +ℤ f n

pub sum_below_congr :
    (n : ℕ) (f g : ℕ → ℤ) → ((i : ℕ) → i < n → f i ≡ g i) → sum_below n f ≡ sum_below n g
unfolding sum_below
sum_below_congr zero f g h = refl
sum_below_congr (suc n) f g h =
    ap₂ ◌+ℤ◌ (sum_below_congr n f g (λ i p. h i (omega arith))) (h n (omega arith))

swap_last : (a b c : ℤ) → a +ℤ b +ℤ c ≡ a +ℤ c +ℤ b
swap_last a b c = omega int_laws

regroup_last : (a b c : ℤ) → a +ℤ (b +ℤ c) ≡ a +ℤ b +ℤ c
regroup_last a b c = omega int_laws

-- A change of one term below the bound changes the sum by as much.
pub sum_below_change :
    (n k : ℕ) (f g : ℕ → ℤ) (d : ℤ)
    → k < n
    → g k ≡ f k +ℤ d
    → ((i : ℕ) → i ≢ k → g i ≡ f i)
    → sum_below n g ≡ sum_below n f +ℤ d
unfolding sum_below
sum_below_change zero k f g d p e h = absurd (omega arith)
sum_below_change (suc n) k f g d p e h = elim (ℕ_discrete n k) [
  | yes q ↦
      ap₂ ◌+ℤ◌ (sum_below_congr n g f (λ i lt. h i (omega arith)))
        (ap g q ∙ e ∙ ap (λ x. f x +ℤ d) (sym q))
      ∙ regroup_last (sum_below n f) (f n) d
  | no q ↦
      ap₂ ◌+ℤ◌ (sum_below_change n k f g d (omega arith) e h) (h n q)
      ∙ swap_last (sum_below n f) d (f n)
]
