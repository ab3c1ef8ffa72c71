-- ===== src/Arm64/Words/Laws.antt =====
-- Bounds of the shifts, rotations and counts that internal/arm64 uses.
use native.Mathlib.Nat.{div-le_self, mod-lt}
use gonidbg.Base.{
  ℕ, zero, suc, ◌-◌, ◌*◌, ◌/◌, ◌%◌, ◌^◌, ◌≤◌, ◌<◌, ◌≡◌, ap, ◌∙◌, arith, bit_and, bit_or, not64,
  shl64, shr, sar64, sar32, ror64, ror32,
}
use gonidbg.Base.Bits.{two-pow-pos, two-pow-add, bit_or-lt, bit_and-lt}
use gonidbg.Arm64.Words.{reverse_digits, sext}

pub shr-le : (x k : ℕ) → shr x k ≤ x
shr-le x k = div-le_self x (2 ^ k)

pub sar64-lt : (x k : ℕ) → x < 2 ^ 64 → sar64 x k < 2 ^ 64
sar64-lt x k h = ground (arith, div-le_self x (2 ^ k))

pub sar32-lt : (x k : ℕ) → x < 2 ^ 32 → sar32 x k < 2 ^ 32
sar32-lt x k h = ground (arith, div-le_self x (2 ^ k))

pub ror64-lt : (x k : ℕ) → x < 2 ^ 64 → ror64 x k < 2 ^ 64
ror64-lt x k h = bit_or-lt 64 _ _ (omega (arith, div-le_self x (2 ^ (k % 64)))) (omega arith)

pub ror32-lt : (x k : ℕ) → x < 2 ^ 32 → ror32 x k < 2 ^ 32
ror32-lt x k h = bit_or-lt 32 _ _ (omega (arith, div-le_self x (2 ^ (k % 32)))) (omega arith)

pub sext-lt : (v n : ℕ) → sext v n < 2 ^ 64
unfolding sext
sext-lt v n = sar64-lt (shl64 v (64 - n)) (64 - n) (omega arith)

-- `(x &^ m) | (y & m)` for words.
pub merge-lt :
    (x m y n : ℕ)
    → x < 2 ^ 64
    → m < 2 ^ 64
    → y < 2 ^ 64
    → n < 2 ^ 64
    → bit_or (bit_and x (not64 m)) (bit_and y n) < 2 ^ 64
merge-lt x m y n hx hm hy hn =
    bit_or-lt 64 _ _ (bit_and-lt 64 x (not64 m) hx (omega arith)) (bit_and-lt 64 y n hy hn)

pub reverse_digits-lt : (w n x : ℕ) → reverse_digits w n x < 2 ^ (n * w)
unfolding reverse_digits
reverse_digits-lt w zero x = two-pow-pos (0 * w)
reverse_digits-lt w (suc n) x =
    rw whole (grind (arith, mod-lt x (two-pow-pos w), reverse_digits-lt w n (x / 2 ^ w)))
  where
    whole : 2 ^ (suc n * w) ≡ 2 ^ w * 2 ^ (n * w)
    whole = ap (λ t. 2 ^ t) (omega arith) ∙ two-pow-add w (n * w)
