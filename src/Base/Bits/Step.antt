-- ===== src/Base/Bits/Step.antt =====
-- One equation for the lowest digit of each operation, from the digit recursion that it means.
use Prim.Native.Nat.{
  ℕ, zero, suc, ◌+◌, ◌*◌, ◌/◌, ◌%◌, ◌≤◌, ◌<◌, min, max, bit_and, bit_or, bit_xor, digits, differ,
  bit_and-bitwise, bit_or-bitwise, bit_xor-bitwise,
}
use mathlib.Core.Path.{◌≡◌, refl, ap, ◌∙◌}
use native.Mathlib.Omega.{arith}

-- The operation `f` on digits, and `rest` for what it makes of a number against nothing.
module _ (rest : ℕ → ℕ) (f : ℕ → ℕ → ℕ) where
  -- Any two counts that reach the end of the first number give one result.
  enough_digits : (a b k l : ℕ) → a ≤ k → a ≤ l → digits rest f k a b ≡ digits rest f l a b
  enough_digits a b zero zero hk hl = refl
  enough_digits zero b zero (suc l) hk hl = refl
  enough_digits (suc a) b zero (suc l) hk hl = absurd (omega arith)
  enough_digits zero b (suc k) zero hk hl = refl
  enough_digits (suc a) b (suc k) zero hk hl = absurd (omega arith)
  enough_digits zero b (suc k) (suc l) hk hl = refl
  enough_digits (suc a) b (suc k) (suc l) hk hl =
      ap (λ t. t * 2 + f (suc a % 2) (b % 2))
        (enough_digits (suc a / 2) (b / 2) k l (omega arith) (omega arith))

  module _ (base : (b : ℕ) → rest b ≡ rest (b / 2) * 2 + f 0 (b % 2)) where
    lowest_digit :
        (a b : ℕ)
        → digits rest f a a b ≡ digits rest f (a / 2) (a / 2) (b / 2) * 2 + f (a % 2) (b % 2)
    lowest_digit zero b = base b
    lowest_digit (suc a) b =
        ap (λ t. t * 2 + f (suc a % 2) (b % 2))
          (enough_digits (suc a / 2) (b / 2) a (suc a / 2) (omega arith) (omega arith))

differ-parity : (x y : ℕ) → x < 2 → y < 2 → differ x y ≡ (x + y) % 2
differ-parity zero y hx hy = omega arith
differ-parity (suc zero) zero hx hy = refl
differ-parity (suc zero) (suc zero) hx hy = refl
differ-parity (suc zero) (suc (suc y)) hx hy = absurd (omega arith)
differ-parity (suc (suc x)) y hx hy = absurd (omega arith)

pub bit_and_step : (a b : ℕ) → bit_and a b ≡ bit_and (a / 2) (b / 2) * 2 + min (a % 2) (b % 2)
bit_and_step a b = simp bit_and-bitwise (lowest_digit (λ y. 0) min (λ y. omega arith) a b)

pub bit_or_step : (a b : ℕ) → bit_or a b ≡ bit_or (a / 2) (b / 2) * 2 + max (a % 2) (b % 2)
bit_or_step a b = simp bit_or-bitwise (lowest_digit (λ y. y) max (λ y. omega arith) a b)

bit_xor-differ : (a b : ℕ) → bit_xor a b ≡ bit_xor (a / 2) (b / 2) * 2 + differ (a % 2) (b % 2)
bit_xor-differ a b = simp bit_xor-bitwise (lowest_digit (λ y. y) differ (λ y. omega arith) a b)

pub bit_xor_step : (a b : ℕ) → bit_xor a b ≡ bit_xor (a / 2) (b / 2) * 2 + (a % 2 + b % 2) % 2
bit_xor_step a b =
    bit_xor-differ a b
    ∙ ap (λ t. bit_xor (a / 2) (b / 2) * 2 + t)
        (differ-parity (a % 2) (b % 2) (omega arith) (omega arith))
