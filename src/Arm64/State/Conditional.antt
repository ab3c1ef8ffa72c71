-- ===== src/Arm64/State/Conditional.antt =====
-- The conditional handlers of internal/arm64/dpreg.go and the register state.
use gonidbg.Base.{ℕ, ◌^◌, ◌<◌, Bool, true, false, arith, not64, not32, u32}
use gonidbg.Arm64.Cpu.{Cpu}
use gonidbg.Arm64.Inst.{
  Inst, CondOp, ccmn_reg64, ccmn_imm64, ccmp_reg64, ccmp_imm64, ccmn_reg32, ccmn_imm32, ccmp_reg32,
  ccmp_imm32, csel64, csinc64, csinv64, csneg64, csel32, csinc32, csinv32, csneg32,
}
use gonidbg.Arm64.DpReg.Conditional.{ccmp64, ccmp32, exec_cond}
use gonidbg.Arm64.State.{IsCpu, IsInst, put-IsCpu, add_flags64-IsFlagged, add_flags32-IsFlagged}

module _ {c : Cpu} {i : Inst} (wf : IsCpu c) (ok : IsInst i) where
  ccmp64-IsCpu : (b : ℕ) (neg : Bool) → b < 2 ^ 64 → IsCpu (ccmp64 c i b neg)
  unfolding ccmp64
  ccmp64-IsCpu b neg h = record {
    zero_register = wf.zero_register;
    registers = wf.registers;
    flags = ground (
      arith,
      add_flags64-IsFlagged (c.r i.rn) (not64 b) 1 (wf.registers i.rn) (omega arith) (omega arith),
      add_flags64-IsFlagged (c.r i.rn) b 0 (wf.registers i.rn) h (omega arith),
    );
    pc_fits = omega arith;
    fpcr_fits = wf.fpcr_fits;
    fpsr_fits = wf.fpsr_fits;
    tpidr_fits = wf.tpidr_fits;
    tpidrro_fits = wf.tpidrro_fits;
    icount_fits = wf.icount_fits;
  }

  ccmp32-IsCpu : (b : ℕ) (neg : Bool) → b < 2 ^ 32 → IsCpu (ccmp32 c i b neg)
  unfolding ccmp32
  ccmp32-IsCpu b neg h = record {
    zero_register = wf.zero_register;
    registers = wf.registers;
    flags = ground (
      arith,
      add_flags32-IsFlagged (u32 (c.r i.rn)) (not32 b) 1 (omega arith) (omega arith) (omega arith),
      add_flags32-IsFlagged (u32 (c.r i.rn)) b 0 (omega arith) h (omega arith),
    );
    pc_fits = omega arith;
    fpcr_fits = wf.fpcr_fits;
    fpsr_fits = wf.fpsr_fits;
    tpidr_fits = wf.tpidr_fits;
    tpidrro_fits = wf.tpidrro_fits;
    icount_fits = wf.icount_fits;
  }

  rn64 : c.r i.rn < 2 ^ 64
  rn64 = wf.registers i.rn

  rm64 : c.r i.rm < 2 ^ 64
  rm64 = wf.registers i.rm

  pub exec_cond-IsCpu : (op : CondOp) → IsCpu (exec_cond op c i)
  unfolding exec_cond
  exec_cond-IsCpu ccmn_reg64 = ccmp64-IsCpu _ false rm64
  exec_cond-IsCpu ccmn_imm64 = ccmp64-IsCpu _ false ok.imm_fits
  exec_cond-IsCpu ccmp_reg64 = ccmp64-IsCpu _ true rm64
  exec_cond-IsCpu ccmp_imm64 = ccmp64-IsCpu _ true ok.imm_fits
  exec_cond-IsCpu ccmn_reg32 = ccmp32-IsCpu _ false (omega arith)
  exec_cond-IsCpu ccmn_imm32 = ccmp32-IsCpu _ false (omega arith)
  exec_cond-IsCpu ccmp_reg32 = ccmp32-IsCpu _ true (omega arith)
  exec_cond-IsCpu ccmp_imm32 = ccmp32-IsCpu _ true (omega arith)
  exec_cond-IsCpu csel64 = put-IsCpu wf ok _ (ground (arith, rn64, rm64))
  exec_cond-IsCpu csinc64 = put-IsCpu wf ok _ (ground (arith, rn64, rm64))
  exec_cond-IsCpu csinv64 = put-IsCpu wf ok _ (ground (arith, rn64, rm64))
  exec_cond-IsCpu csneg64 = put-IsCpu wf ok _ (ground (arith, rn64, rm64))
  exec_cond-IsCpu csel32 = put-IsCpu wf ok _ (ground (arith, rn64, rm64))
  exec_cond-IsCpu csinc32 = put-IsCpu wf ok _ (ground (arith, rn64, rm64))
  exec_cond-IsCpu csinv32 = put-IsCpu wf ok _ (ground (arith, rn64, rm64))
  exec_cond-IsCpu csneg32 = put-IsCpu wf ok _ (ground (arith, rn64, rm64))
