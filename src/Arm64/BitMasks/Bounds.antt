-- ===== src/Arm64/BitMasks/Bounds.antt =====
-- Bounds of the masks of internal/arm64/decode.go.
use gonidbg.Base.{ℕ, zero, suc, ◌+◌, ◌^◌, ◌<◌, ◌≡◌, Bool, some, arith, bit_or, shl64}
use gonidbg.Base.Bits.{bit_or-lt}
use gonidbg.Arm64.BitMasks.{Masks, replicate_loop, replicate, masks_of, decode_bit_masks}

replicate_loop-lt :
    (fuel v esize m i out : ℕ) → out < 2 ^ 64 → replicate_loop fuel v esize m i out < 2 ^ 64
unfolding replicate_loop
replicate_loop-lt zero v esize m i out h = h
replicate_loop-lt (suc fuel) v esize m i out h = ground (
  arith,
  replicate_loop-lt fuel v esize m (i + esize) (bit_or out (shl64 v i)),
  bit_or-lt 64 out (shl64 v i),
)

pub replicate-lt : (v esize m : ℕ) → replicate v esize m < 2 ^ 64
unfolding replicate
replicate-lt v esize m = ground (arith, replicate_loop-lt m v esize m 0 0)

pub masks_of-lt :
    (l imms immr m : ℕ)
    → ((masks_of l imms immr m).wmask < 2 ^ 64) × ((masks_of l imms immr m).tmask < 2 ^ 64)
unfolding masks_of
masks_of-lt l imms immr m = (replicate-lt _ _ m, replicate-lt _ _ m)

pub decode_bit_masks-lt :
    (n imms immr : ℕ) (immediate : Bool) (m : ℕ) (k : Masks)
    → decode_bit_masks n imms immr immediate m ≡ some k
    → (k.wmask < 2 ^ 64) × (k.tmask < 2 ^ 64)
unfolding decode_bit_masks
decode_bit_masks-lt n imms immr immediate m k e = grind (arith, masks_of-lt)
