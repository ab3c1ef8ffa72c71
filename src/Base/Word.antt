-- ===== src/Base/Word.antt =====
-- The fixed-width integers of Go as native numbers: casts, shifts, complements, signed readings.
use Prim.Native.Nat.{ℕ, ◌+◌, ◌-◌, ◌*◌, ◌/◌, ◌%◌, ◌^◌, bit_or}
use gonidbg.Base.Tests.{ltb, if◌then◌else◌}

abbrev pub u8 : ℕ → ℕ
u8 x = x % 2 ^ 8

abbrev pub u16 : ℕ → ℕ
u16 x = x % 2 ^ 16

abbrev pub u32 : ℕ → ℕ
u32 x = x % 2 ^ 32

abbrev pub u64 : ℕ → ℕ
u64 x = x % 2 ^ 64

-- Wrapping `a + b` and `a - b`; `-` on ℕ stops at 0, so the modulus is added first.
abbrev pub add64 : ℕ → ℕ → ℕ
add64 a b = (a + b) % 2 ^ 64

abbrev pub sub64 : ℕ → ℕ → ℕ
sub64 a b = (a + 2 ^ 64 - b) % 2 ^ 64

abbrev pub add32 : ℕ → ℕ → ℕ
add32 a b = (a + b) % 2 ^ 32

abbrev pub sub32 : ℕ → ℕ → ℕ
sub32 a b = (a + 2 ^ 32 - b) % 2 ^ 32

-- `^x` of a word that is in range.
abbrev pub not64 : ℕ → ℕ
not64 x = 2 ^ 64 - 1 - x

abbrev pub not32 : ℕ → ℕ
not32 x = 2 ^ 32 - 1 - x

-- `x >> k` and `x << k`; a count of the width or more shifts everything out, as in Go.
abbrev pub shr : ℕ → ℕ → ℕ
shr x k = x / 2 ^ k

abbrev pub shl64 : ℕ → ℕ → ℕ
shl64 x k = x * 2 ^ k % 2 ^ 64

abbrev pub shl32 : ℕ → ℕ → ℕ
shl32 x k = x * 2 ^ k % 2 ^ 32

-- `int64(x) >> k` read back as a `uint64`: the sign bit is copied in from above.
abbrev pub sar64 : ℕ → ℕ → ℕ
sar64 x k = if ltb x (2 ^ 63) then x / 2 ^ k else not64 (not64 x / 2 ^ k)

abbrev pub sar32 : ℕ → ℕ → ℕ
sar32 x k = if ltb x (2 ^ 31) then x / 2 ^ k else not32 (not32 x / 2 ^ k)

-- `bits.RotateLeft64(x, -k)` and `bits.RotateLeft32(x, -k)`.
abbrev pub ror64 : ℕ → ℕ → ℕ
ror64 x k = bit_or (x / 2 ^ (k % 64)) (shl64 x (64 - k % 64))

abbrev pub ror32 : ℕ → ℕ → ℕ
ror32 x k = bit_or (x / 2 ^ (k % 32)) (shl32 x (32 - k % 32))

-- The bits `lo .. lo + width - 1` of an encoding: `(raw >> lo) & (1 << width - 1)`.
abbrev pub field : ℕ → ℕ → ℕ → ℕ
field raw lo width = raw / 2 ^ lo % 2 ^ width
