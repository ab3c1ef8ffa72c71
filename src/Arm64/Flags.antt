-- ===== src/Arm64/Flags.antt =====
-- internal/arm64/cpu.go: condition codes and the NZCV word.
pub mod Laws
pub mod Compare
pub mod Meaning
use gonidbg.Base.{
  ℕ, zero, suc, ◌+◌, ◌*◌, ◌/◌, ◌%◌, ◌^◌, Bool, true, false, not, ◌&&◌, bit_and, bit_or, bit_xor,
  ltb, ◌==◌, if◌then◌else◌, add64, add32, shr, field,
}
use gonidbg.Arm64.Cpu.{Cpu}

abbrev pub flag_z : ℕ
flag_z = 2 ^ 30

-- `base[i]` of `init`, for the flags of `f`: N=8, Z=4, C=2, V=1.
abbrev pub holds : ℕ → ℕ → Bool
holds f i =
    let n = field f 3 1 == 1 in
    let z = field f 2 1 == 1 in
    let c = field f 1 1 == 1 in
    let v = field f 0 1 == 1 in
    let same = if n then v else not v in
    if i == 0
    then z
    else if i == 1
    then c
    else if i == 2
    then n
    else if i == 3
    then v
    else if i == 4
    then c && not z
    else if i == 5
    then same
    else if i == 6
    then not z && same
    else true

-- One entry of the inner loop of `init`: whether `cc` holds for the flags `f`.
abbrev pub entry : ℕ → ℕ → Bool
entry f cc = let r = holds f (shr cc 1) in if (cc % 2 == 1) && not (cc == 15) then not r else r

-- The outer loop of `init` up to `f = n - 1`, as it builds `condTab[cc]`.
pub cond_tab_below : ℕ → ℕ → ℕ
cond_tab_below zero cc = 0
cond_tab_below (suc f) cc = bit_or (cond_tab_below f cc) (if entry f cc then 2 ^ f else 0)

unfoldable pub cond_tab : ℕ → ℕ
unfolding cond_tab_below
cond_tab cc = cond_tab_below 16 cc

unfoldable pub cond : Cpu → ℕ → Bool
unfolding cond_tab
cond c cc = not (field (shr (cond_tab (field cc 0 4)) (shr c.nzcv 28)) 0 1 == 0)

unfoldable pub carry : Cpu → ℕ
carry c = field c.nzcv 29 1

-- A result with the flags word that goes with it.
pub record Flagged : Type 0 where
  pub value : ℕ
  pub flags : ℕ

-- `bits.Add64` is the sum modulo 2^64 and its carry.
unfoldable pub add_flags64 : ℕ → ℕ → ℕ → Flagged
add_flags64 a b cin =
    let r = (a + b + cin) % 2 ^ 64 in
    let co = (a + b + cin) / 2 ^ 64 in
    let f =
      bit_or (bit_or (shr r 63 * 2 ^ 31) (co * 2 ^ 29))
        (shr (bit_and (bit_xor a r) (bit_xor b r)) 63 * 2 ^ 28) in
    record { value = r; flags = if r == 0 then bit_or f flag_z else f }

unfoldable pub add_flags32 : ℕ → ℕ → ℕ → Flagged
add_flags32 a b cin =
    let r = (a + b + cin) % 2 ^ 32 in
    let co = (a + b + cin) / 2 ^ 32 in
    let f =
      bit_or (bit_or (shr r 31 * 2 ^ 31) (co * 2 ^ 29))
        (shr (bit_and (bit_xor a r) (bit_xor b r)) 31 * 2 ^ 28) in
    record { value = r; flags = if r == 0 then bit_or f flag_z else f }

unfoldable pub logic_flags64 : ℕ → ℕ
logic_flags64 r = let f = shr r 63 * 2 ^ 31 in if r == 0 then bit_or f flag_z else f

unfoldable pub logic_flags32 : ℕ → ℕ
logic_flags32 r = let f = shr r 31 * 2 ^ 31 in if r == 0 then bit_or f flag_z else f
