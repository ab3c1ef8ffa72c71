-- ===== src/Arm64/DpImm/Moves.antt =====
-- MOVZ and MOVK of internal/arm64/decode.go: what they write.
use gonidbg.Base.{
  ℕ, zero, suc, ◌+◌, ◌-◌, ◌*◌, ◌/◌, ◌%◌, ◌^◌, ◌<◌, ◌≡◌, refl, ap, ap₂, ◌∙◌, arith, shl64, not64,
  bit_and, bit_or, some,
}
use native.Mathlib.Nat.{mod-mod, mul-mod_left, mul-div_cancel}
use gonidbg.Base.Bits.{
  bit_and-div, bit_and-mod, bit_or-div, bit_or-mod, bit_and_mask, bit_and-zero, bit_or-zero,
  bit_or_comm, two-pow-pos,
}
use gonidbg.Arm64.Cpu.{xr, xw}
use gonidbg.Arm64.Inst.{of_imm, mov_imm, movk64, zero_inst}
use gonidbg.Arm64.DpImm.Decode.{decode_move_wide, decode_dp_imm}
use gonidbg.Arm64.Step.{decode}

-- What a mask that is clear at the digits `k .. k + 15` and a value for them make of a word.
module _ (k v mask imm : ℕ) (small : imm < 2 ^ 16) (below : mask % 2 ^ k ≡ 2 ^ k - 1)
    (at : mask / 2 ^ k % 2 ^ 16 ≡ 0)
    (above : bit_and (v / 2 ^ k / 2 ^ 16) (mask / 2 ^ k / 2 ^ 16) ≡ v / 2 ^ k / 2 ^ 16) where
  abbrev merged : ℕ
  merged = bit_or (bit_and v mask) (imm * 2 ^ k)

  merged-mod : merged % 2 ^ k ≡ v % 2 ^ k
  merged-mod =
      bit_or-mod k (bit_and v mask) (imm * 2 ^ k)
      ∙ ap₂ bit_or
          (bit_and-mod k v mask
            ∙ ap (λ t. bit_and (v % 2 ^ k) t) below
            ∙ bit_and_mask k (v % 2 ^ k)
            ∙ mod-mod v (2 ^ k))
          (mul-mod_left imm (2 ^ k))
      ∙ bit_or-zero (v % 2 ^ k)

  merged-div : merged / 2 ^ k ≡ bit_or (bit_and (v / 2 ^ k) (mask / 2 ^ k)) imm
  merged-div =
      bit_or-div k (bit_and v mask) (imm * 2 ^ k)
      ∙ ap₂ bit_or (bit_and-div k v mask) (mul-div_cancel imm (two-pow-pos k))

  merged-field : merged / 2 ^ k % 2 ^ 16 ≡ imm
  merged-field =
      ap (λ t. t % 2 ^ 16) merged-div
      ∙ bit_or-mod 16 (bit_and (v / 2 ^ k) (mask / 2 ^ k)) imm
      ∙ ap₂ bit_or
          (bit_and-mod 16 (v / 2 ^ k) (mask / 2 ^ k)
            ∙ ap (λ t. bit_and (v / 2 ^ k % 2 ^ 16) t) at
            ∙ bit_and-zero (v / 2 ^ k % 2 ^ 16))
          (omega arith)
      ∙ bit_or_comm 0 imm
      ∙ bit_or-zero imm

  merged-above : merged / 2 ^ k / 2 ^ 16 ≡ v / 2 ^ k / 2 ^ 16
  merged-above =
      ap (λ t. t / 2 ^ 16) merged-div
      ∙ bit_or-div 16 (bit_and (v / 2 ^ k) (mask / 2 ^ k)) imm
      ∙ ap₂ bit_or (bit_and-div 16 (v / 2 ^ k) (mask / 2 ^ k) ∙ above) (omega arith)
      ∙ bit_or-zero (v / 2 ^ k / 2 ^ 16)

  merged_parts :
      (merged % 2 ^ k ≡ v % 2 ^ k)
      × (merged / 2 ^ k % 2 ^ 16 ≡ imm)
      × (merged / 2 ^ k / 2 ^ 16 ≡ v / 2 ^ k / 2 ^ 16)
  merged_parts = (merged-mod, merged-field, merged-above)

-- `v` with its 16-bit part `hw`, which begins at digit `16 * hw`, replaced by `imm`.
abbrev pub with_part : ℕ → ℕ → ℕ → ℕ
with_part v hw imm =
    v / 2 ^ (16 * hw) / 2 ^ 16 * 2 ^ (16 * hw + 16) + imm * 2 ^ (16 * hw) + v % 2 ^ (16 * hw)

pub movk_value :
    (hw v imm : ℕ)
    → hw < 4
    → v < 2 ^ 64
    → imm < 2 ^ 16
    → bit_or (bit_and v (not64 (shl64 0xffff (16 * hw)))) (shl64 imm (16 * hw)) ≡ with_part v hw imm
movk_value zero v imm h hv hi =
    ap (λ t. bit_or (bit_and v (not64 (shl64 0xffff 0))) t) shifted
    ∙ omega (
      arith,
      merged_parts 0 v (not64 (shl64 0xffff 0)) imm hi refl refl
          (bit_and_mask 48 (v / 2 ^ 0 / 2 ^ 16) ∙ omega arith),
    )
  where
    shifted : shl64 imm 0 ≡ imm * 2 ^ 0
    shifted = omega arith
movk_value (suc zero) v imm h hv hi =
    ap (λ t. bit_or (bit_and v (not64 (shl64 0xffff 16))) t) shifted
    ∙ omega (
      arith,
      merged_parts 16 v (not64 (shl64 0xffff 16)) imm hi refl refl
          (bit_and_mask 32 (v / 2 ^ 16 / 2 ^ 16) ∙ omega arith),
    )
  where
    shifted : shl64 imm 16 ≡ imm * 2 ^ 16
    shifted = omega arith
movk_value (suc (suc zero)) v imm h hv hi =
    ap (λ t. bit_or (bit_and v (not64 (shl64 0xffff 32))) t) shifted
    ∙ omega (
      arith,
      merged_parts 32 v (not64 (shl64 0xffff 32)) imm hi refl refl
          (bit_and_mask 16 (v / 2 ^ 32 / 2 ^ 16) ∙ omega arith),
    )
  where
    shifted : shl64 imm 32 ≡ imm * 2 ^ 32
    shifted = omega arith
movk_value (suc (suc (suc zero))) v imm h hv hi =
    ap (λ t. bit_or (bit_and v (not64 (shl64 0xffff 48))) t) shifted
    ∙ omega (
      arith,
      merged_parts 48 v (not64 (shl64 0xffff 48)) imm hi refl refl
          (bit_and_mask 0 (v / 2 ^ 48 / 2 ^ 16) ∙ omega arith),
    )
  where
    shifted : shl64 imm 48 ≡ imm * 2 ^ 48
    shifted = omega arith
movk_value (suc (suc (suc (suc n)))) v imm h hv hi = absurd (omega arith)

-- The words that an assembler writes for MOVZ at part 0 and for MOVK at part `hw`.
abbrev pub movz_word : ℕ → ℕ → ℕ
movz_word rd imm = 0xd280_0000 + imm * 2 ^ 5 + rd

abbrev pub movk_word : ℕ → ℕ → ℕ → ℕ
movk_word rd hw imm = 0xf280_0000 + hw * 2 ^ 21 + imm * 2 ^ 5 + rd

pub decode-movz :
    (rd imm pc : ℕ)
    → rd < 31
    → imm < 2 ^ 16
    → decode zero_inst (movz_word rd imm) pc
      ≡ some (record zero_inst { rd = rd; imm = imm; fn = some (of_imm mov_imm) })
unfolding decode decode_dp_imm decode_move_wide xw
decode-movz rd imm pc h1 h2 = ground arith

pub decode-movk :
    (rd hw imm pc : ℕ)
    → rd < 31
    → hw < 4
    → imm < 2 ^ 16
    → decode zero_inst (movk_word rd hw imm) pc
      ≡ some (record zero_inst {
        rd = rd;
        rn = rd;
        imm = shl64 imm (16 * hw);
        imm2 = not64 (shl64 0xffff (16 * hw));
        fn = some (of_imm movk64);
      })
unfolding decode decode_dp_imm decode_move_wide xw xr
decode-movk rd hw imm pc h1 h2 h3 = ground arith
