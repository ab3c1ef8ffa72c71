-- ===== src/Arm64/State/Imm.antt =====
-- The immediate handlers of internal/arm64/decode.go and the register state.
use gonidbg.Base.{
  ℕ, ◌-◌, ◌^◌, ◌<◌, arith, bit_and, bit_or, not64, not32, u32, ror64, ror32, shl32, shr,
}
use gonidbg.Base.Bits.{bit_and-lt, bit_or-lt, bit_xor-lt}
use gonidbg.Arm64.Cpu.{Cpu}
use gonidbg.Arm64.Inst.{
  Inst, ImmOp, mov_imm, add_imm64, adds_imm64, sub_imm64, subs_imm64, add_imm32, adds_imm32,
  sub_imm32, subs_imm32, and_imm64, orr_imm64, eor_imm64, ands_imm64, and_imm32, orr_imm32,
  eor_imm32, ands_imm32, movk64, movk32, sbfm64, bfm64, ubfm64, sbfm32, bfm32, ubfm32, extr64,
  extr32,
}
use gonidbg.Arm64.DpImm.{exec_imm}
use gonidbg.Arm64.Words.Laws.{shr-le, sar64-lt, sar32-lt, ror64-lt, ror32-lt, merge-lt}
use gonidbg.Arm64.State.{
  IsCpu, IsInst, put-IsCpu, put_flags-IsCpu, put_flagged-IsCpu, add_flags64-IsFlagged,
  add_flags32-IsFlagged, logic_flags64-IsFlags, logic_flags32-IsFlags,
}

module _ {c : Cpu} {i : Inst} (wf : IsCpu c) (ok : IsInst i) where
  and_lt : bit_and (c.r i.rn) i.imm < 2 ^ 64
  and_lt = bit_and-lt 64 _ _ (wf.registers i.rn) ok.imm_fits

  and32_lt : bit_and (u32 (c.r i.rn)) (u32 i.imm) < 2 ^ 32
  and32_lt = bit_and-lt 32 _ _ (omega arith) (omega arith)

  movk_lt : bit_or (bit_and (c.r i.rn) i.imm2) i.imm < 2 ^ 64
  movk_lt = bit_or-lt 64 _ _ (bit_and-lt 64 _ _ (wf.registers i.rn) ok.imm2_fits) ok.imm_fits

  ror_lt : bit_and (ror64 (c.r i.rn) i.amt) i.imm < 2 ^ 64
  ror_lt = bit_and-lt 64 _ _ (ror64-lt _ i.amt (wf.registers i.rn)) ok.imm_fits

  ror32_lt : bit_and (ror32 (u32 (c.r i.rn)) i.amt) i.imm < 2 ^ 64
  ror32_lt =
      bit_and-lt 64 _ _ (omega (arith, ror32-lt (u32 (c.r i.rn)) i.amt (omega arith))) ok.imm_fits

  word_lt : (x : ℕ) → x < 2 ^ 64 → bit_and x 0xffff_ffff < 2 ^ 64
  word_lt x h = bit_and-lt 64 x 0xffff_ffff h (omega arith)

  pub exec_imm-IsCpu : (op : ImmOp) → IsCpu (exec_imm op c i)
  unfolding exec_imm
  exec_imm-IsCpu mov_imm = put-IsCpu wf ok _ ok.imm_fits
  exec_imm-IsCpu add_imm64 = put-IsCpu wf ok _ (omega arith)
  exec_imm-IsCpu sub_imm64 = put-IsCpu wf ok _ (omega arith)
  exec_imm-IsCpu add_imm32 = put-IsCpu wf ok _ (omega arith)
  exec_imm-IsCpu sub_imm32 = put-IsCpu wf ok _ (omega arith)
  exec_imm-IsCpu adds_imm64 =
      let (v, f) =
        add_flags64-IsFlagged (c.r i.rn) i.imm 0 (wf.registers i.rn) ok.imm_fits (omega arith) in
      put_flagged-IsCpu wf ok _ v f
  exec_imm-IsCpu subs_imm64 =
      let (v, f) =
        add_flags64-IsFlagged (c.r i.rn) (not64 i.imm) 1 (wf.registers i.rn) (omega arith)
          (omega arith) in
      put_flagged-IsCpu wf ok _ v f
  exec_imm-IsCpu adds_imm32 =
      let (v, f) =
        add_flags32-IsFlagged (u32 (c.r i.rn)) (u32 i.imm) 0 (omega arith) (omega arith)
          (omega arith) in
      put_flagged-IsCpu wf ok _ (omega arith) f
  exec_imm-IsCpu subs_imm32 =
      let (v, f) =
        add_flags32-IsFlagged (u32 (c.r i.rn)) (not32 (u32 i.imm)) 1 (omega arith) (omega arith)
          (omega arith) in
      put_flagged-IsCpu wf ok _ (omega arith) f
  exec_imm-IsCpu and_imm64 = put-IsCpu wf ok _ and_lt
  exec_imm-IsCpu orr_imm64 = put-IsCpu wf ok _ (bit_or-lt 64 _ _ (wf.registers i.rn) ok.imm_fits)
  exec_imm-IsCpu eor_imm64 = put-IsCpu wf ok _ (bit_xor-lt 64 _ _ (wf.registers i.rn) ok.imm_fits)
  exec_imm-IsCpu and_imm32 = put-IsCpu wf ok _ (omega (arith, and32_lt))
  exec_imm-IsCpu orr_imm32 =
      put-IsCpu wf ok _ (omega (arith, bit_or-lt 32 (u32 (c.r i.rn)) (u32 i.imm)))
  exec_imm-IsCpu eor_imm32 =
      put-IsCpu wf ok _ (omega (arith, bit_xor-lt 32 (u32 (c.r i.rn)) (u32 i.imm)))
  exec_imm-IsCpu ands_imm64 = put_flags-IsCpu wf ok _ _ and_lt (logic_flags64-IsFlags _ and_lt)
  exec_imm-IsCpu ands_imm32 =
      put_flags-IsCpu wf ok _ _ (omega (arith, and32_lt)) (logic_flags32-IsFlags _ and32_lt)
  exec_imm-IsCpu movk64 = put-IsCpu wf ok _ movk_lt
  exec_imm-IsCpu movk32 = put-IsCpu wf ok _ (omega arith)
  exec_imm-IsCpu ubfm64 = put-IsCpu wf ok _ (bit_and-lt 64 _ _ ror_lt ok.imm2_fits)
  exec_imm-IsCpu ubfm32 = put-IsCpu wf ok _ (bit_and-lt 64 _ _ ror32_lt ok.imm2_fits)
  exec_imm-IsCpu sbfm64 =
      put-IsCpu wf ok _
        (merge-lt _ i.imm2 _ i.imm2 (sar64-lt _ 63 (omega arith)) ok.imm2_fits ror_lt ok.imm2_fits)
  exec_imm-IsCpu sbfm32 = put-IsCpu wf ok _ (
      word_lt _ (
        merge-lt _ i.imm2 _ i.imm2
          (omega (arith, sar32-lt (shl32 (u32 (c.r i.rn)) (31 - i.sh)) 31 (omega arith)))
          ok.imm2_fits ror32_lt ok.imm2_fits))
  exec_imm-IsCpu bfm64 = put-IsCpu wf ok _ (
      merge-lt _ i.imm2 _ i.imm2 (wf.registers i.ra) ok.imm2_fits
        (merge-lt _ i.imm _ i.imm (wf.registers i.ra) ok.imm_fits
          (ror64-lt _ i.amt (wf.registers i.rn)) ok.imm_fits)
        ok.imm2_fits)
  exec_imm-IsCpu bfm32 = put-IsCpu wf ok _ (
      word_lt _ (
        merge-lt _ i.imm2 _ i.imm2 (omega arith) ok.imm2_fits
          (merge-lt _ i.imm _ i.imm (omega arith) ok.imm_fits
            (omega (arith, ror32-lt (u32 (c.r i.rn)) i.amt (omega arith))) ok.imm_fits)
          ok.imm2_fits))
  exec_imm-IsCpu extr64 =
      put-IsCpu wf ok _
        (bit_or-lt 64 _ _ (omega (arith, shr-le (c.r i.rm) i.amt, wf.registers i.rm)) (omega arith))
  exec_imm-IsCpu extr32 = put-IsCpu wf ok _ (
      omega (
        arith,
        bit_or-lt 32 (shr (u32 (c.r i.rm)) i.amt) (shl32 (u32 (c.r i.rn)) (32 - i.amt))
            (omega (arith, shr-le (u32 (c.r i.rm)) i.amt)) (omega arith),
      ))
