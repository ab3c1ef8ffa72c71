-- ===== src/Base/Bits/Test.antt =====
-- A word as its binary digits: what each operation does to one digit, and that the digits
-- determine the word.
use Prim.Native.Nat.{ℕ, zero, suc, ◌+◌, ◌-◌, ◌*◌, ◌/◌, ◌%◌, ◌^◌, ◌≤◌, ◌<◌, min, max}
use Prim.Native.Nat.{bit_and, bit_or, bit_xor}
use mathlib.Core.Path.{◌≡◌, refl, sym, ap, ap₂, ◌∙◌}
use native.Mathlib.Nat.{pow-suc, div-one, mod-one, zero-div, div-add-mod}
use native.Mathlib.Omega.{arith}
use gonidbg.Base.Bits.Step.{bit_and_step, bit_or_step, bit_xor_step}
use gonidbg.Base.Bits.Laws.{two-pow-pos, div-pow-suc, bit_and-div, bit_or-div, bit_xor-div}

-- Digit `k` of `x`, 0 or 1.
abbrev pub bit : ℕ → ℕ → ℕ
bit x k = x / 2 ^ k % 2

pub bit-bit_and : (a b k : ℕ) → bit (bit_and a b) k ≡ min (bit a k) (bit b k)
bit-bit_and a b k = omega (arith, bit_and-div k a b, bit_and_step (a / 2 ^ k) (b / 2 ^ k))

pub bit-bit_or : (a b k : ℕ) → bit (bit_or a b) k ≡ max (bit a k) (bit b k)
bit-bit_or a b k = omega (arith, bit_or-div k a b, bit_or_step (a / 2 ^ k) (b / 2 ^ k))

pub bit-bit_xor : (a b k : ℕ) → bit (bit_xor a b) k ≡ (bit a k + bit b k) % 2
bit-bit_xor a b k = omega (arith, bit_xor-div k a b, bit_xor_step (a / 2 ^ k) (b / 2 ^ k))

bit-half : (a k : ℕ) → bit (a / 2) k ≡ bit a (suc k)
bit-half a k = ap (λ t. t % 2) (sym (div-pow-suc a k))

ext_below : (m a b : ℕ) → a ≤ m → b ≤ m → ((k : ℕ) → bit a k ≡ bit b k) → a ≡ b
ext_below zero a b ha hb h = omega arith
ext_below (suc m) a b ha hb h =
    let halves =
      ext_below m (a / 2) (b / 2) (omega arith) (omega arith)
        (λ k. bit-half a k ∙ h (suc k) ∙ sym (bit-half b k)) in
    omega (arith, h 0, div-one a, div-one b, halves)

-- Two words with the same digits are the same.
pub bit_ext : (a b : ℕ) → ((k : ℕ) → bit a k ≡ bit b k) → a ≡ b
bit_ext a b h = ext_below (a + b) a b (omega arith) (omega arith) h

pub bit-zero : (k : ℕ) → bit 0 k ≡ 0
bit-zero k = ap (λ t. t % 2) (zero-div (2 ^ k))

pub bit_or-zero : (a : ℕ) → bit_or a 0 ≡ a
bit_or-zero a = bit_ext _ _ (λ k. omega (arith, bit-bit_or a 0 k, bit-zero k))

pub bit_and-zero : (a : ℕ) → bit_and a 0 ≡ 0
bit_and-zero a = bit_ext _ _ (λ k. omega (arith, bit-bit_and a 0 k, bit-zero k))

pub bit_or_comm : (a b : ℕ) → bit_or a b ≡ bit_or b a
bit_or_comm a b = bit_ext _ _ (λ k. omega (arith, bit-bit_or a b k, bit-bit_or b a k))

-- `(q << k) | r` is a sum when `r` fits `k` bits.
pub bit_or_sum : (k q r : ℕ) → r < 2 ^ k → bit_or (q * 2 ^ k) r ≡ q * 2 ^ k + r
bit_or_sum zero q r h = let none : r ≡ 0 = omega arith in rw none (bit_or-zero _ ∙ omega arith)
bit_or_sum (suc k) q r h = omega (
  arith,
  bit_or_step (q * 2 ^ suc k) r,
  halved,
  bit_or_sum k q (r / 2) (omega (arith, pow-suc 2 k)),
)
  where
    doubled : q * 2 ^ suc k ≡ 2 * (q * 2 ^ k)
    doubled = omega (arith, ap (λ (t : ℕ). q * t) (pow-suc 2 k))

    halved :
        (bit_or (q * 2 ^ suc k / 2) (r / 2) ≡ bit_or (q * 2 ^ k) (r / 2))
        × (q * 2 ^ suc k ≡ 2 * (q * 2 ^ k))
    halved = (ap (λ t. bit_or t (r / 2)) (omega (arith, doubled)), doubled)

mask_step : (k a : ℕ) → a % 2 ^ suc k ≡ a / 2 % 2 ^ k * 2 + a % 2
mask_step k a = omega (
  arith,
  pow-suc 2 k,
  div-pow-suc a k,
  div-add-mod a (2 ^ suc k),
  div-add-mod (a / 2) (2 ^ k),
  ap₂ ◌*◌ (pow-suc 2 k) (div-pow-suc a k),
)

-- A mask of `k` low ones keeps the remainder.
pub bit_and_mask : (k a : ℕ) → bit_and a (2 ^ k - 1) ≡ a % 2 ^ k
bit_and_mask zero a = bit_and-zero a ∙ omega arith
bit_and_mask (suc k) a = omega (
  arith,
  bit_and_step a (2 ^ suc k - 1),
  pow-suc 2 k,
  two-pow-pos k,
  ap (λ t. bit_and (a / 2) t) mask_half,
  bit_and_mask k (a / 2),
  mask_step k a,
)
  where
    mask_half : (2 ^ suc k - 1) / 2 ≡ 2 ^ k - 1
    mask_half = omega (arith, pow-suc 2 k, two-pow-pos k)

-- A mask of `k` low ones sets them.
pub bit_or_mask : (k a : ℕ) → bit_or a (2 ^ k - 1) ≡ a / 2 ^ k * 2 ^ k + (2 ^ k - 1)
bit_or_mask zero a = bit_or-zero a ∙ omega arith
bit_or_mask (suc k) a = omega (
  arith,
  bit_or_step a (2 ^ suc k - 1),
  pow-suc 2 k,
  two-pow-pos k,
  ap (λ t. bit_or (a / 2) t) mask_half,
  bit_or_mask k (a / 2),
  div-pow-suc a k,
  ap (λ (t : ℕ). a / 2 ^ suc k * t) (pow-suc 2 k),
  ap (λ (t : ℕ). t * 2 ^ k) (div-pow-suc a k),
)
  where
    mask_half : (2 ^ suc k - 1) / 2 ≡ 2 ^ k - 1
    mask_half = omega (arith, pow-suc 2 k, two-pow-pos k)

-- An operation on digits also commutes with keeping the low ones.
module _ (op f : ℕ → ℕ → ℕ) (none : op 0 0 ≡ 0)
    (step : (a b : ℕ) → op a b ≡ op (a / 2) (b / 2) * 2 + f (a % 2) (b % 2))
    (digit : (a b : ℕ) → f (a % 2) (b % 2) < 2) where
  op-mod : (k a b : ℕ) → op a b % 2 ^ k ≡ op (a % 2 ^ k) (b % 2 ^ k)
  op-mod zero a b = mod-one (op a b) ∙ sym (ap₂ op (mod-one a) (mod-one b) ∙ none)
  op-mod (suc k) a b =
      mask_step k (op a b)
      ∙ ap₂ (λ s t. s % 2 ^ k * 2 + t) (omega (arith, step a b, digit a b))
          (omega (arith, step a b, digit a b))
      ∙ ap (λ t. t * 2 + f (a % 2) (b % 2)) (op-mod k (a / 2) (b / 2))
      ∙ sym (
          step (a % 2 ^ suc k) (b % 2 ^ suc k)
          ∙ ap₂ (λ s t. op s t * 2 + f (a % 2 ^ suc k % 2) (b % 2 ^ suc k % 2)) (half a) (half b)
          ∙ ap₂ (λ s t. op (a / 2 % 2 ^ k) (b / 2 % 2 ^ k) * 2 + f s t) (parity a) (parity b))
    where
      half : (x : ℕ) → x % 2 ^ suc k / 2 ≡ x / 2 % 2 ^ k
      half x = omega (arith, mask_step k x)

      parity : (x : ℕ) → x % 2 ^ suc k % 2 ≡ x % 2
      parity x = omega (arith, mask_step k x)

pub bit_and-mod : (k a b : ℕ) → bit_and a b % 2 ^ k ≡ bit_and (a % 2 ^ k) (b % 2 ^ k)
bit_and-mod = op-mod bit_and min refl bit_and_step (λ a b. omega arith)

pub bit_or-mod : (k a b : ℕ) → bit_or a b % 2 ^ k ≡ bit_or (a % 2 ^ k) (b % 2 ^ k)
bit_or-mod = op-mod bit_or max refl bit_or_step (λ a b. omega arith)

pub bit_xor-mod : (k a b : ℕ) → bit_xor a b % 2 ^ k ≡ bit_xor (a % 2 ^ k) (b % 2 ^ k)
bit_xor-mod = op-mod bit_xor (λ x y. (x + y) % 2) refl bit_xor_step (λ a b. omega arith)
