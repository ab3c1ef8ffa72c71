-- ===== src/Arm64/BitMasks.antt =====
-- `decodeBitMasks` and `replicate` of internal/arm64/decode.go.
pub mod Tables
pub mod Bounds
use gonidbg.Base.{
  ℕ, zero, suc, ◌+◌, ◌-◌, ◌*◌, ◌/◌, ◌%◌, ◌^◌, Bool, true, false, not, ◌&&◌, ◌||◌, Option, none,
  some, bit_and, bit_or, ltb, ◌==◌, if◌then◌else◌, shl64, shr, sub64, not64, not32, u32,
}
use gonidbg.Arm64.Words.{leading_zeros32}

-- The loop of `replicate` from `i`, on fuel.
pub replicate_loop : ℕ → ℕ → ℕ → ℕ → ℕ → ℕ → ℕ
replicate_loop zero v esize m i out = out
replicate_loop (suc fuel) v esize m i out =
    let rest = replicate_loop fuel v esize m (i + esize) (bit_or out (shl64 v i)) in
    if ltb i m then rest else out

-- `i` grows by at least one each round, so `m` rounds are enough.
unfoldable pub replicate : ℕ → ℕ → ℕ → ℕ
unfolding replicate_loop
replicate v esize m = let out = replicate_loop m v esize m 0 0 in if m == 32 then u32 out else out

pub record Masks : Type 0 where
  pub wmask : ℕ
  pub tmask : ℕ

abbrev ones : ℕ → ℕ
ones n = if n == 64 then not64 0 else sub64 (shl64 1 n) 1

-- The masks for elements of `2 ^ l` bits.
unfoldable pub masks_of : ℕ → ℕ → ℕ → ℕ → Masks
masks_of l imms immr m =
    let levels = 2 ^ l - 1 in
    let s = bit_and imms levels in
    let r = bit_and immr levels in
    let d = bit_and ((s + 2 ^ 32 - r) % 2 ^ 32) levels in
    let esize = 2 ^ l in
    let emask = ones esize in
    let welem = ones (s + 1) in
    let telem = ones (d + 1) in
    let rotated =
      if r == 0 then welem else bit_and (bit_or (shr welem r) (shl64 welem (esize - r))) emask in
    record { wmask = replicate rotated esize m; tmask = replicate telem esize m }

-- `none` is the result whose third component is false.
unfoldable pub decode_bit_masks : ℕ → ℕ → ℕ → Bool → ℕ → Option Masks
unfolding leading_zeros32
decode_bit_masks imm_n imms immr immediate m =
    let top = bit_or (imm_n * 2 ^ 6) (bit_and (not32 imms) 63) in
    let len = 32 - leading_zeros32 top in
    let l = len - 1 in
    let levels = 2 ^ l - 1 in
    -- `31 - LeadingZeros32` is `len - 1`, below 1 where `len` is 0 or 1
    if ltb len 2 || ltb m (2 ^ l)
    then none
    else if immediate && (bit_and imms levels == levels)
    then none
    else some (masks_of l imms immr m)
