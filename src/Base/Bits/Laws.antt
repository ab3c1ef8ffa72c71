-- ===== src/Base/Bits/Laws.antt =====
-- The three operations commute with dropping low digits, and stay within a width.
use Prim.Native.Nat.{ℕ, zero, suc, ◌+◌, ◌*◌, ◌/◌, ◌^◌, ◌<◌, bit_and, bit_or, bit_xor}
use mathlib.Core.Path.{◌≡◌, refl, sym, ap, ap₂, ◌∙◌}
use native.Mathlib.Nat.{
  pow-suc, zero-add, suc-add, one-le-pow, div-div-eq-div-mul, div-eq_of_lt, div-one,
  div-lt_iff_lt-mul, mul_comm,
}
use native.Mathlib.Omega.{arith}
use gonidbg.Base.Bits.Step.{bit_and_step, bit_or_step, bit_xor_step}

pub two-pow-pos : (k : ℕ) → 0 < 2 ^ k
two-pow-pos k = one-le-pow k 2 (omega arith)

pub div-pow-suc : (a k : ℕ) → a / 2 ^ suc k ≡ a / 2 / 2 ^ k
div-pow-suc a k =
    ap (λ t. a / t) (pow-suc 2 k ∙ mul_comm (2 ^ k) 2) ∙ sym (div-div-eq-div-mul a 2 (2 ^ k))

-- What a digit-wise operation needs to commute with `/ 2 ^ k`.
module _ (op : ℕ → ℕ → ℕ) (halve : (a b : ℕ) → op a b / 2 ≡ op (a / 2) (b / 2)) where
  op-div : (k a b : ℕ) → op a b / 2 ^ k ≡ op (a / 2 ^ k) (b / 2 ^ k)
  op-div zero a b = div-one _ ∙ sym (ap₂ op (div-one a) (div-one b))
  op-div (suc k) a b =
      div-pow-suc (op a b) k
      ∙ ap (λ t. t / 2 ^ k) (halve a b)
      ∙ op-div k (a / 2) (b / 2)
      ∙ sym (ap₂ op (div-pow-suc a k) (div-pow-suc b k))

  module _ (none : op 0 0 ≡ 0) where
    op-lt : (k a b : ℕ) → a < 2 ^ k → b < 2 ^ k → op a b < 2 ^ k
    op-lt k a b ha hb = omega (arith, (div-lt_iff_lt-mul (two-pow-pos k)).0 small)
      where
        small : op a b / 2 ^ k < 1
        small = rw (op-div k a b, div-eq_of_lt ha, div-eq_of_lt hb, none) (omega arith)

pub bit_and-div : (k a b : ℕ) → bit_and a b / 2 ^ k ≡ bit_and (a / 2 ^ k) (b / 2 ^ k)
bit_and-div = op-div bit_and (λ a b. omega (arith, bit_and_step a b))

pub bit_or-div : (k a b : ℕ) → bit_or a b / 2 ^ k ≡ bit_or (a / 2 ^ k) (b / 2 ^ k)
bit_or-div = op-div bit_or (λ a b. omega (arith, bit_or_step a b))

pub bit_xor-div : (k a b : ℕ) → bit_xor a b / 2 ^ k ≡ bit_xor (a / 2 ^ k) (b / 2 ^ k)
bit_xor-div = op-div bit_xor (λ a b. omega (arith, bit_xor_step a b))

pub bit_and-lt : (k a b : ℕ) → a < 2 ^ k → b < 2 ^ k → bit_and a b < 2 ^ k
bit_and-lt = op-lt bit_and (λ a b. omega (arith, bit_and_step a b)) refl

pub bit_or-lt : (k a b : ℕ) → a < 2 ^ k → b < 2 ^ k → bit_or a b < 2 ^ k
bit_or-lt = op-lt bit_or (λ a b. omega (arith, bit_or_step a b)) refl

pub bit_xor-lt : (k a b : ℕ) → a < 2 ^ k → b < 2 ^ k → bit_xor a b < 2 ^ k
bit_xor-lt = op-lt bit_xor (λ a b. omega (arith, bit_xor_step a b)) refl

pub two-pow-add : (a b : ℕ) → 2 ^ (a + b) ≡ 2 ^ a * 2 ^ b
two-pow-add zero b = ap (λ t. 2 ^ t) (zero-add b) ∙ omega arith
two-pow-add (suc a) b =
    ap (λ t. 2 ^ t) (suc-add a b)
    ∙ pow-suc 2 (a + b)
    ∙ omega
        (arith, ap (λ (t : ℕ). t * 2) (two-pow-add a b), ap (λ (t : ℕ). t * 2 ^ b) (pow-suc 2 a))
