-- ===== src/Arm64/State/Sets.antt =====
-- Which data-processing handlers of internal/arm64 set the flags: those of the mnemonics that end
-- in S, and the conditional comparisons.
use gonidbg.Base.{Bool, true, false}
use gonidbg.Arm64.Inst.{
  ImmOp, ArithOp, CondOp, mov_imm, add_imm64, adds_imm64, sub_imm64, subs_imm64, add_imm32,
  adds_imm32, sub_imm32, subs_imm32, and_imm64, orr_imm64, eor_imm64, ands_imm64, and_imm32,
  orr_imm32, eor_imm32, ands_imm32, movk64, movk32, sbfm64, bfm64, ubfm64, sbfm32, bfm32, ubfm32,
  extr64, extr32, mov_reg64, mov_reg32, and_reg64, bic_reg64, orr_reg64, orn_reg64, eor_reg64,
  eon_reg64, ands_reg64, bics_reg64, and_reg32, bic_reg32, orr_reg32, orn_reg32, eor_reg32,
  eon_reg32, ands_reg32, bics_reg32, add_reg64, adds_reg64, sub_reg64, subs_reg64, add_reg32,
  adds_reg32, sub_reg32, subs_reg32, add_ext64, adds_ext64, sub_ext64, subs_ext64, add_ext32,
  adds_ext32, sub_ext32, subs_ext32, adc64, adcs64, sbc64, sbcs64, adc32, adcs32, sbc32, sbcs32,
  ccmn_reg64, ccmn_imm64, ccmp_reg64, ccmp_imm64, ccmn_reg32, ccmn_imm32, ccmp_reg32, ccmp_imm32,
  csel64, csinc64, csinv64, csneg64, csel32, csinc32, csinv32, csneg32,
}

abbrev pub imm_sets : ImmOp → Bool
imm_sets mov_imm = false
imm_sets add_imm64 = false
imm_sets adds_imm64 = true
imm_sets sub_imm64 = false
imm_sets subs_imm64 = true
imm_sets add_imm32 = false
imm_sets adds_imm32 = true
imm_sets sub_imm32 = false
imm_sets subs_imm32 = true
imm_sets and_imm64 = false
imm_sets orr_imm64 = false
imm_sets eor_imm64 = false
imm_sets ands_imm64 = true
imm_sets and_imm32 = false
imm_sets orr_imm32 = false
imm_sets eor_imm32 = false
imm_sets ands_imm32 = true
imm_sets movk64 = false
imm_sets movk32 = false
imm_sets sbfm64 = false
imm_sets bfm64 = false
imm_sets ubfm64 = false
imm_sets sbfm32 = false
imm_sets bfm32 = false
imm_sets ubfm32 = false
imm_sets extr64 = false
imm_sets extr32 = false

abbrev pub arith_sets : ArithOp → Bool
arith_sets mov_reg64 = false
arith_sets mov_reg32 = false
arith_sets and_reg64 = false
arith_sets bic_reg64 = false
arith_sets orr_reg64 = false
arith_sets orn_reg64 = false
arith_sets eor_reg64 = false
arith_sets eon_reg64 = false
arith_sets ands_reg64 = true
arith_sets bics_reg64 = true
arith_sets and_reg32 = false
arith_sets bic_reg32 = false
arith_sets orr_reg32 = false
arith_sets orn_reg32 = false
arith_sets eor_reg32 = false
arith_sets eon_reg32 = false
arith_sets ands_reg32 = true
arith_sets bics_reg32 = true
arith_sets add_reg64 = false
arith_sets adds_reg64 = true
arith_sets sub_reg64 = false
arith_sets subs_reg64 = true
arith_sets add_reg32 = false
arith_sets adds_reg32 = true
arith_sets sub_reg32 = false
arith_sets subs_reg32 = true
arith_sets add_ext64 = false
arith_sets adds_ext64 = true
arith_sets sub_ext64 = false
arith_sets subs_ext64 = true
arith_sets add_ext32 = false
arith_sets adds_ext32 = true
arith_sets sub_ext32 = false
arith_sets subs_ext32 = true
arith_sets adc64 = false
arith_sets adcs64 = true
arith_sets sbc64 = false
arith_sets sbcs64 = true
arith_sets adc32 = false
arith_sets adcs32 = true
arith_sets sbc32 = false
arith_sets sbcs32 = true

abbrev pub cond_sets : CondOp → Bool
cond_sets ccmn_reg64 = true
cond_sets ccmn_imm64 = true
cond_sets ccmp_reg64 = true
cond_sets ccmp_imm64 = true
cond_sets ccmn_reg32 = true
cond_sets ccmn_imm32 = true
cond_sets ccmp_reg32 = true
cond_sets ccmp_imm32 = true
cond_sets csel64 = false
cond_sets csinc64 = false
cond_sets csinv64 = false
cond_sets csneg64 = false
cond_sets csel32 = false
cond_sets csinc32 = false
cond_sets csinv32 = false
cond_sets csneg32 = false
