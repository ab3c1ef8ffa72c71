-- ===== src/Arm64/Words.antt =====
-- The functions of `math/bits` that internal/arm64 calls, and `sext` of internal/arm64/cpu.go.
pub mod Laws
pub mod Counts
use gonidbg.Base.{
  ℕ, zero, suc, ◌+◌, ◌-◌, ◌*◌, ◌/◌, ◌%◌, ◌^◌, ◌==◌, if◌then◌else◌, shl64, sar64, ltb,
}

-- `bits.Len64` and `bits.Len32`: the digits of `x`, of which there are at most `fuel`.
pub bit_len : ℕ → ℕ → ℕ
bit_len zero x = 0
bit_len (suc fuel) x = let rest = suc (bit_len fuel (x / 2)) in if x == 0 then 0 else rest

-- `bits.LeadingZeros64` and `bits.LeadingZeros32`
unfoldable pub leading_zeros64 : ℕ → ℕ
unfolding bit_len
leading_zeros64 x = 64 - bit_len 64 x

unfoldable pub leading_zeros32 : ℕ → ℕ
unfolding bit_len
leading_zeros32 x = 32 - bit_len 32 x

-- The low `n` digits of `x` of `w` bits each, in the opposite order.
pub reverse_digits : ℕ → ℕ → ℕ → ℕ
reverse_digits w zero x = 0
reverse_digits w (suc n) x = x % 2 ^ w * 2 ^ (n * w) + reverse_digits w n (x / 2 ^ w)

-- `bits.Reverse64`, `bits.Reverse32`, `bits.ReverseBytes64`, `bits.ReverseBytes32`
unfoldable pub reverse64 : ℕ → ℕ
unfolding reverse_digits
reverse64 x = reverse_digits 1 64 x

unfoldable pub reverse32 : ℕ → ℕ
unfolding reverse_digits
reverse32 x = reverse_digits 1 32 x

unfoldable pub reverse_bytes64 : ℕ → ℕ
unfolding reverse_digits
reverse_bytes64 x = reverse_digits 8 8 x

unfoldable pub reverse_bytes32 : ℕ → ℕ
unfolding reverse_digits
reverse_bytes32 x = reverse_digits 8 4 x

-- `uint64(int64(v<<(64-bitsN)) >> (64 - bitsN))`
unfoldable pub sext : ℕ → ℕ → ℕ
sext v bits_n = sar64 (shl64 v (64 - bits_n)) (64 - bits_n)
