-- ===== src/Arm64/BitMasks/Tables.antt =====
-- The masks of internal/arm64/decode.go for UBFM, and what it extracts with them.
use gonidbg.Base.{
  ℕ, ◌+◌, ◌-◌, ◌*◌, ◌^◌, ◌≤◌, ◌<◌, ◌≡◌, refl, arith, ltb, ◌==◌, Bool, true, false, ◌||◌, some,
  bit_and, bit_or, all_below, all_below_pairs, ==→eq, not32, all_below_sound,
}
use gonidbg.Base.Bits.{bit_ext, bit-bit_and}
use gonidbg.Arm64.Words.{leading_zeros32}
use gonidbg.Arm64.BitMasks.{replicate_loop, replicate, masks_of, decode_bit_masks}

-- Where the last digit is not below the first, the two masks leave the low digits alone.
abbrev extracts : ℕ → ℕ → Bool
extracts r s =
    let m = masks_of 6 s r 64 in ltb s r || (bit_and m.wmask m.tmask == 2 ^ (s - r + 1) - 1)

extracts_table : all_below 64 (λ r. all_below 64 (λ s. extracts r s)) ≡ true
unfolding all_below masks_of replicate replicate_loop
extracts_table = refl

width_table :
    all_below 64 (λ s. leading_zeros32 (bit_or (1 * 2 ^ 6) (bit_and (not32 s) 63)) == 25) ≡ true
unfolding all_below leading_zeros32
width_table = refl

-- With N set, the element is the whole 64-bit word.
pub decode_bit_masks-whole :
    (imms immr : ℕ)
    → imms < 64
    → decode_bit_masks 1 imms immr false 64 ≡ some (masks_of 6 imms immr 64)
unfolding decode_bit_masks
decode_bit_masks-whole imms immr h =
    rw
      (==→eq _ _ (
        all_below_sound 64 (λ s. leading_zeros32 (bit_or (1 * 2 ^ 6) (bit_and (not32 s) 63)) == 25)
          imms width_table h))
      refl

pub masks_join :
    (r s : ℕ)
    → r ≤ s
    → s < 64
    → bit_and (masks_of 6 s r 64).wmask (masks_of 6 s r 64).tmask ≡ 2 ^ (s - r + 1) - 1
masks_join r s h1 h2 =
    ground (arith, all_below_pairs 64 64 (λ r s. extracts r s) r s extracts_table (omega arith) h2)

pub bit_and_assoc : (a b c : ℕ) → bit_and (bit_and a b) c ≡ bit_and a (bit_and b c)
bit_and_assoc a b c = bit_ext _ _ (λ k. omega (
  arith,
  bit-bit_and (bit_and a b) c k,
  bit-bit_and a b k,
  bit-bit_and a (bit_and b c) k,
  bit-bit_and b c k,
))
