-- ===== src/Arm64/State/Control.antt =====
-- Branches and system registers of internal/arm64/decode.go and the register state.
use gonidbg.Base.{ℕ, ◌+◌, ◌%◌, ◌^◌, ◌<◌, ◌∙◌, Bool, arith, bit_and, u32, if◌then◌else◌}
use gonidbg.Base.Bits.{bit_and-lt, bit_and-mod, bit_and-zero}
use gonidbg.Arm64.Cpu.{Cpu, r_lr, update}
use gonidbg.Arm64.Inst.{
  Inst, BranchOp, b_always, bl, b_cond, cbz64, cbnz64, cbz32, cbnz32, tbz, tbnz, br, blr, SystemOp,
  nop, clrex, mov_imm2, mrs, msr,
}
use gonidbg.Arm64.Branch.{exec_branch}
use gonidbg.Arm64.System.{exec_system, sysreg}
use gonidbg.Arm64.State.{IsCpu, IsInst, IsFlags, put-IsCpu}

module _ {c : Cpu} {i : Inst} (wf : IsCpu c) (ok : IsInst i) where
  jump-IsCpu : (t : ℕ) → t < 2 ^ 64 → IsCpu (record c { pc = t })
  jump-IsCpu t h = record {
    zero_register = wf.zero_register;
    registers = wf.registers;
    flags = wf.flags;
    pc_fits = h;
    fpcr_fits = wf.fpcr_fits;
    fpsr_fits = wf.fpsr_fits;
    tpidr_fits = wf.tpidr_fits;
    tpidrro_fits = wf.tpidrro_fits;
    icount_fits = wf.icount_fits;
  }

  branch-IsCpu :
      (taken : Bool) → IsCpu (record c { pc = if taken then i.imm else (c.pc + 4) % 2 ^ 64 })
  branch-IsCpu taken = jump-IsCpu _ (ground (arith, ok.imm_fits))

  link-IsCpu :
      (ret t : ℕ) → ret < 2 ^ 64 → t < 2 ^ 64 → IsCpu (record c { r = update c.r r_lr ret; pc = t })
  link-IsCpu ret t hr h = record {
    zero_register = ground (arith, wf);
    registers = λ n. ground (arith, wf.registers n);
    flags = wf.flags;
    pc_fits = h;
    fpcr_fits = wf.fpcr_fits;
    fpsr_fits = wf.fpsr_fits;
    tpidr_fits = wf.tpidr_fits;
    tpidrro_fits = wf.tpidrro_fits;
    icount_fits = wf.icount_fits;
  }

  pub exec_branch-IsCpu : (op : BranchOp) → IsCpu (exec_branch op c i)
  unfolding exec_branch
  exec_branch-IsCpu b_always = jump-IsCpu i.imm ok.imm_fits
  exec_branch-IsCpu bl = link-IsCpu i.imm2 i.imm ok.imm2_fits ok.imm_fits
  exec_branch-IsCpu b_cond = branch-IsCpu _
  exec_branch-IsCpu cbz64 = branch-IsCpu _
  exec_branch-IsCpu cbnz64 = branch-IsCpu _
  exec_branch-IsCpu cbz32 = branch-IsCpu _
  exec_branch-IsCpu cbnz32 = branch-IsCpu _
  exec_branch-IsCpu tbz = branch-IsCpu _
  exec_branch-IsCpu tbnz = branch-IsCpu _
  exec_branch-IsCpu br = jump-IsCpu _ (wf.registers i.rn)
  exec_branch-IsCpu blr = link-IsCpu _ _ (omega arith) (wf.registers i.rn)

  -- A mask of the four top bits leaves a flags word.
  masked-IsFlags : (v : ℕ) → IsFlags (bit_and (u32 v) 0xf000_0000)
  masked-IsFlags v = (
    bit_and-lt 32 _ _ (omega arith) (omega arith),
    bit_and-mod 28 (u32 v) 0xf000_0000 ∙ bit_and-zero (u32 v % 2 ^ 28),
  )

  pub exec_system-IsCpu : (op : SystemOp) → IsCpu (exec_system op c i)
  unfolding exec_system sysreg
  exec_system-IsCpu nop = jump-IsCpu _ (omega arith)
  exec_system-IsCpu clrex = record {
    zero_register = wf.zero_register;
    registers = wf.registers;
    flags = wf.flags;
    pc_fits = omega arith;
    fpcr_fits = wf.fpcr_fits;
    fpsr_fits = wf.fpsr_fits;
    tpidr_fits = wf.tpidr_fits;
    tpidrro_fits = wf.tpidrro_fits;
    icount_fits = wf.icount_fits;
  }
  exec_system-IsCpu mov_imm2 = put-IsCpu wf ok _ ok.imm2_fits
  exec_system-IsCpu mrs = put-IsCpu wf ok _ (ground (arith, wf))
  exec_system-IsCpu msr = record {
    zero_register = ground (arith, wf);
    registers = λ n. ground (arith, wf.registers n);
    flags = ground (arith, wf.flags, masked-IsFlags (c.r i.rn));
    pc_fits = omega arith;
    fpcr_fits = ground (arith, wf.fpcr_fits, bit_and-lt 32 (u32 (c.r i.rn)) 0x07ff_9f00);
    fpsr_fits = ground (arith, wf.fpsr_fits, bit_and-lt 32 (u32 (c.r i.rn)) 0xf800_009f);
    tpidr_fits = ground (arith, wf.tpidr_fits, wf.registers i.rn);
    tpidrro_fits = ground (arith, wf.tpidrro_fits);
    icount_fits = ground (arith, wf.icount_fits);
  }
