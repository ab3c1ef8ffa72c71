-- ===== src/Arm64/DpReg/Conditional.antt =====
-- Handlers of internal/arm64/dpreg.go that test a condition.
use gonidbg.Base.{
  ℕ, Bool, true, false, not, if◌then◌else◌, add64, sub64, add32, sub32, not64, not32, u32, shl32,
}
use gonidbg.Arm64.Cpu.{Cpu, step_pc}
use gonidbg.Arm64.Flags.{cond, add_flags64, add_flags32}
use gonidbg.Arm64.Inst.{
  Inst, CondOp, ccmn_reg64, ccmn_imm64, ccmp_reg64, ccmp_imm64, ccmn_reg32, ccmn_imm32, ccmp_reg32,
  ccmp_imm32, csel64, csinc64, csinv64, csneg64, csel32, csinc32, csinv32, csneg32,
}
use gonidbg.Arm64.DpImm.{put}

-- `amt` holds the flags for a condition that fails.
unfoldable pub ccmp64 : Cpu → Inst → ℕ → Bool → Cpu
ccmp64 c i b neg = step_pc (record c {
  nzcv =
      if not (cond c i.cond)
      then shl32 i.amt 28
      else if neg
      then (add_flags64 (c.r i.rn) (not64 b) 1).flags
      else (add_flags64 (c.r i.rn) b 0).flags;
})

unfoldable pub ccmp32 : Cpu → Inst → ℕ → Bool → Cpu
ccmp32 c i b neg = step_pc (record c {
  nzcv =
      if not (cond c i.cond)
      then shl32 i.amt 28
      else if neg
      then (add_flags32 (u32 (c.r i.rn)) (not32 b) 1).flags
      else (add_flags32 (u32 (c.r i.rn)) b 0).flags;
})

op_ccmp_reg64 : Cpu → Inst → Cpu
op_ccmp_reg64 c i = ccmp64 c i (c.r i.rm) true

op_ccmp_imm64 : Cpu → Inst → Cpu
op_ccmp_imm64 c i = ccmp64 c i i.imm true

op_ccmn_reg64 : Cpu → Inst → Cpu
op_ccmn_reg64 c i = ccmp64 c i (c.r i.rm) false

op_ccmn_imm64 : Cpu → Inst → Cpu
op_ccmn_imm64 c i = ccmp64 c i i.imm false

op_ccmp_reg32 : Cpu → Inst → Cpu
op_ccmp_reg32 c i = ccmp32 c i (u32 (c.r i.rm)) true

op_ccmp_imm32 : Cpu → Inst → Cpu
op_ccmp_imm32 c i = ccmp32 c i (u32 i.imm) true

op_ccmn_reg32 : Cpu → Inst → Cpu
op_ccmn_reg32 c i = ccmp32 c i (u32 (c.r i.rm)) false

op_ccmn_imm32 : Cpu → Inst → Cpu
op_ccmn_imm32 c i = ccmp32 c i (u32 i.imm) false

op_csel64 : Cpu → Inst → Cpu
op_csel64 c i = put c i (if cond c i.cond then (c.r i.rn) else (c.r i.rm))

op_csinc64 : Cpu → Inst → Cpu
op_csinc64 c i = put c i (if cond c i.cond then (c.r i.rn) else add64 (c.r i.rm) 1)

op_csinv64 : Cpu → Inst → Cpu
op_csinv64 c i = put c i (if cond c i.cond then (c.r i.rn) else not64 (c.r i.rm))

op_csneg64 : Cpu → Inst → Cpu
op_csneg64 c i = put c i (if cond c i.cond then (c.r i.rn) else sub64 0 (c.r i.rm))

op_csel32 : Cpu → Inst → Cpu
op_csel32 c i = put c i (if cond c i.cond then (u32 (c.r i.rn)) else (u32 (c.r i.rm)))

op_csinc32 : Cpu → Inst → Cpu
op_csinc32 c i = put c i (if cond c i.cond then (u32 (c.r i.rn)) else add32 (u32 (c.r i.rm)) 1)

op_csinv32 : Cpu → Inst → Cpu
op_csinv32 c i = put c i (if cond c i.cond then (u32 (c.r i.rn)) else not32 (u32 (c.r i.rm)))

op_csneg32 : Cpu → Inst → Cpu
op_csneg32 c i = put c i (if cond c i.cond then (u32 (c.r i.rn)) else sub32 0 (u32 (c.r i.rm)))

-- `in.fn(c, in)` for the handlers of this file.
unfoldable pub exec_cond : CondOp → Cpu → Inst → Cpu
unfolding ccmp64 ccmp32 op_ccmn_reg64 op_ccmn_imm64 op_ccmp_reg64 op_ccmp_imm64 op_ccmn_reg32
    op_ccmn_imm32 op_ccmp_reg32 op_ccmp_imm32 op_csel64 op_csinc64 op_csinv64 op_csneg64 op_csel32
    op_csinc32 op_csinv32 op_csneg32
exec_cond ccmn_reg64 c i = op_ccmn_reg64 c i
exec_cond ccmn_imm64 c i = op_ccmn_imm64 c i
exec_cond ccmp_reg64 c i = op_ccmp_reg64 c i
exec_cond ccmp_imm64 c i = op_ccmp_imm64 c i
exec_cond ccmn_reg32 c i = op_ccmn_reg32 c i
exec_cond ccmn_imm32 c i = op_ccmn_imm32 c i
exec_cond ccmp_reg32 c i = op_ccmp_reg32 c i
exec_cond ccmp_imm32 c i = op_ccmp_imm32 c i
exec_cond csel64 c i = op_csel64 c i
exec_cond csinc64 c i = op_csinc64 c i
exec_cond csinv64 c i = op_csinv64 c i
exec_cond csneg64 c i = op_csneg64 c i
exec_cond csel32 c i = op_csel32 c i
exec_cond csinc32 c i = op_csinc32 c i
exec_cond csinv32 c i = op_csinv32 c i
exec_cond csneg32 c i = op_csneg32 c i
