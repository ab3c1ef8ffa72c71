-- ===== src/Arm64/State/Frame.antt =====
-- What the data-processing handlers of internal/arm64 leave alone.
use gonidbg.Base.{ℕ, ◌≡◌, refl, arith, Bool, true, false, if◌then◌else◌, add64}
use gonidbg.Arm64.Cpu.{Cpu, update, step_pc}
use gonidbg.Arm64.Inst.{
  Inst, ImmOp, ArithOp, CondOp, SourceOp, ccmn_reg64, ccmn_imm64, ccmp_reg64, ccmp_imm64,
  ccmn_reg32, ccmn_imm32, ccmp_reg32, ccmp_imm32, csel64, csinc64, csinv64, csneg64, csel32,
  csinc32, csinv32, csneg32, mov_imm, add_imm64, adds_imm64, sub_imm64, subs_imm64, add_imm32,
  adds_imm32, sub_imm32, subs_imm32, and_imm64, orr_imm64, eor_imm64, ands_imm64, and_imm32,
  orr_imm32, eor_imm32, ands_imm32, movk64, movk32, sbfm64, bfm64, ubfm64, sbfm32, bfm32, ubfm32,
  extr64, extr32, mov_reg64, mov_reg32, and_reg64, bic_reg64, orr_reg64, orn_reg64, eor_reg64,
  eon_reg64, ands_reg64, bics_reg64, and_reg32, bic_reg32, orr_reg32, orn_reg32, eor_reg32,
  eon_reg32, ands_reg32, bics_reg32, add_reg64, adds_reg64, sub_reg64, subs_reg64, add_reg32,
  adds_reg32, sub_reg32, subs_reg32, add_ext64, adds_ext64, sub_ext64, subs_ext64, add_ext32,
  adds_ext32, sub_ext32, subs_ext32, adc64, adcs64, sbc64, sbcs64, adc32, adcs32, sbc32, sbcs32,
  udiv64, udiv32, sdiv64, sdiv32, shift_v64, shift_v32, crc32, crc32c, rbit64, rbit32, rev64, rev32,
  rev32_64, rev16_64, rev16_32, clz64, clz32, cls64, cls32, madd64, madd32, msub64, msub32, smaddl,
  smsubl, umaddl, umsubl, umulh, smulh,
}
use gonidbg.Arm64.State.Sets.{imm_sets, arith_sets, cond_sets}
use gonidbg.Arm64.DpImm.{exec_imm, put, put_flags}
use gonidbg.Arm64.DpReg.Arith.{exec_arith}
use gonidbg.Arm64.DpReg.Conditional.{ccmp64, ccmp32, exec_cond}
use gonidbg.Arm64.DpReg.Sources.{exec_source}

-- From `c` to `after`, nothing is written but the destination register, the program counter, which
-- goes on by one instruction, and the flags, these only where `sets` is true.
pub record IsFrame (c : Cpu) (i : Inst) (sets : Bool) (after : Cpu) : Type 0 where
  pub flags : after.nzcv ≡ (if sets then after.nzcv else c.nzcv)
  pub others : (n : ℕ) → after.r n ≡ update c.r i.rd (after.r i.rd) n
  pub next_pc : after.pc ≡ add64 c.pc 4
  pub vectors : after.v ≡ c.v
  pub control : (after.fpcr ≡ c.fpcr) × (after.fpsr ≡ c.fpsr)
  pub threads : (after.tpidr ≡ c.tpidr) × (after.tpidrro ≡ c.tpidrro)
  pub monitor :
      (after.excl_valid ≡ c.excl_valid)
      × (after.excl_addr ≡ c.excl_addr)
      × (after.excl_val ≡ c.excl_val)
      × (after.excl_val2 ≡ c.excl_val2)
      × (after.excl_size ≡ c.excl_size)
  pub count : after.icount ≡ c.icount

module _ {c : Cpu} {i : Inst} where
  write-IsFrame :
      (sets : Bool) (v f : ℕ)
      → f ≡ (if sets then f else c.nzcv)
      → IsFrame c i sets (put_flags c i v f)
  write-IsFrame sets v f h = record {
    flags = h;
    others = λ n. ground arith;
    next_pc = refl;
    vectors = refl;
    control = (refl, refl);
    threads = (refl, refl);
    monitor = (refl, refl, refl, refl, refl);
    count = refl;
  }

  keeps-IsFrame : (v : ℕ) → IsFrame c i false (put c i v)
  keeps-IsFrame v = write-IsFrame false v c.nzcv refl

  sets-IsFrame : (v f : ℕ) → IsFrame c i true (put_flags c i v f)
  sets-IsFrame v f = write-IsFrame true v f refl

  flags-IsFrame : (f : ℕ) → IsFrame c i true (step_pc (record c { nzcv = f }))
  flags-IsFrame f = record {
    flags = refl;
    others = λ n. ground arith;
    next_pc = refl;
    vectors = refl;
    control = (refl, refl);
    threads = (refl, refl);
    monitor = (refl, refl, refl, refl, refl);
    count = refl;
  }

exec_imm-IsFrame : (c : Cpu) (i : Inst) (op : ImmOp) → IsFrame c i (imm_sets op) (exec_imm op c i)
unfolding exec_imm
exec_imm-IsFrame c i mov_imm = keeps-IsFrame _
exec_imm-IsFrame c i add_imm64 = keeps-IsFrame _
exec_imm-IsFrame c i adds_imm64 = sets-IsFrame _ _
exec_imm-IsFrame c i sub_imm64 = keeps-IsFrame _
exec_imm-IsFrame c i subs_imm64 = sets-IsFrame _ _
exec_imm-IsFrame c i add_imm32 = keeps-IsFrame _
exec_imm-IsFrame c i adds_imm32 = sets-IsFrame _ _
exec_imm-IsFrame c i sub_imm32 = keeps-IsFrame _
exec_imm-IsFrame c i subs_imm32 = sets-IsFrame _ _
exec_imm-IsFrame c i and_imm64 = keeps-IsFrame _
exec_imm-IsFrame c i orr_imm64 = keeps-IsFrame _
exec_imm-IsFrame c i eor_imm64 = keeps-IsFrame _
exec_imm-IsFrame c i ands_imm64 = sets-IsFrame _ _
exec_imm-IsFrame c i and_imm32 = keeps-IsFrame _
exec_imm-IsFrame c i orr_imm32 = keeps-IsFrame _
exec_imm-IsFrame c i eor_imm32 = keeps-IsFrame _
exec_imm-IsFrame c i ands_imm32 = sets-IsFrame _ _
exec_imm-IsFrame c i movk64 = keeps-IsFrame _
exec_imm-IsFrame c i movk32 = keeps-IsFrame _
exec_imm-IsFrame c i sbfm64 = keeps-IsFrame _
exec_imm-IsFrame c i bfm64 = keeps-IsFrame _
exec_imm-IsFrame c i ubfm64 = keeps-IsFrame _
exec_imm-IsFrame c i sbfm32 = keeps-IsFrame _
exec_imm-IsFrame c i bfm32 = keeps-IsFrame _
exec_imm-IsFrame c i ubfm32 = keeps-IsFrame _
exec_imm-IsFrame c i extr64 = keeps-IsFrame _
exec_imm-IsFrame c i extr32 = keeps-IsFrame _

exec_arith-IsFrame :
    (c : Cpu) (i : Inst) (op : ArithOp) → IsFrame c i (arith_sets op) (exec_arith op c i)
unfolding exec_arith
exec_arith-IsFrame c i mov_reg64 = keeps-IsFrame _
exec_arith-IsFrame c i mov_reg32 = keeps-IsFrame _
exec_arith-IsFrame c i and_reg64 = keeps-IsFrame _
exec_arith-IsFrame c i bic_reg64 = keeps-IsFrame _
exec_arith-IsFrame c i orr_reg64 = keeps-IsFrame _
exec_arith-IsFrame c i orn_reg64 = keeps-IsFrame _
exec_arith-IsFrame c i eor_reg64 = keeps-IsFrame _
exec_arith-IsFrame c i eon_reg64 = keeps-IsFrame _
exec_arith-IsFrame c i ands_reg64 = sets-IsFrame _ _
exec_arith-IsFrame c i bics_reg64 = sets-IsFrame _ _
exec_arith-IsFrame c i and_reg32 = keeps-IsFrame _
exec_arith-IsFrame c i bic_reg32 = keeps-IsFrame _
exec_arith-IsFrame c i orr_reg32 = keeps-IsFrame _
exec_arith-IsFrame c i orn_reg32 = keeps-IsFrame _
exec_arith-IsFrame c i eor_reg32 = keeps-IsFrame _
exec_arith-IsFrame c i eon_reg32 = keeps-IsFrame _
exec_arith-IsFrame c i ands_reg32 = sets-IsFrame _ _
exec_arith-IsFrame c i bics_reg32 = sets-IsFrame _ _
exec_arith-IsFrame c i add_reg64 = keeps-IsFrame _
exec_arith-IsFrame c i adds_reg64 = sets-IsFrame _ _
exec_arith-IsFrame c i sub_reg64 = keeps-IsFrame _
exec_arith-IsFrame c i subs_reg64 = sets-IsFrame _ _
exec_arith-IsFrame c i add_reg32 = keeps-IsFrame _
exec_arith-IsFrame c i adds_reg32 = sets-IsFrame _ _
exec_arith-IsFrame c i sub_reg32 = keeps-IsFrame _
exec_arith-IsFrame c i subs_reg32 = sets-IsFrame _ _
exec_arith-IsFrame c i add_ext64 = keeps-IsFrame _
exec_arith-IsFrame c i adds_ext64 = sets-IsFrame _ _
exec_arith-IsFrame c i sub_ext64 = keeps-IsFrame _
exec_arith-IsFrame c i subs_ext64 = sets-IsFrame _ _
exec_arith-IsFrame c i add_ext32 = keeps-IsFrame _
exec_arith-IsFrame c i adds_ext32 = sets-IsFrame _ _
exec_arith-IsFrame c i sub_ext32 = keeps-IsFrame _
exec_arith-IsFrame c i subs_ext32 = sets-IsFrame _ _
exec_arith-IsFrame c i adc64 = keeps-IsFrame _
exec_arith-IsFrame c i adcs64 = sets-IsFrame _ _
exec_arith-IsFrame c i sbc64 = keeps-IsFrame _
exec_arith-IsFrame c i sbcs64 = sets-IsFrame _ _
exec_arith-IsFrame c i adc32 = keeps-IsFrame _
exec_arith-IsFrame c i adcs32 = sets-IsFrame _ _
exec_arith-IsFrame c i sbc32 = keeps-IsFrame _
exec_arith-IsFrame c i sbcs32 = sets-IsFrame _ _

exec_source-IsFrame : (c : Cpu) (i : Inst) (op : SourceOp) → IsFrame c i false (exec_source op c i)
unfolding exec_source
exec_source-IsFrame c i udiv64 = keeps-IsFrame _
exec_source-IsFrame c i udiv32 = keeps-IsFrame _
exec_source-IsFrame c i sdiv64 = keeps-IsFrame _
exec_source-IsFrame c i sdiv32 = keeps-IsFrame _
exec_source-IsFrame c i shift_v64 = keeps-IsFrame _
exec_source-IsFrame c i shift_v32 = keeps-IsFrame _
exec_source-IsFrame c i crc32 = keeps-IsFrame _
exec_source-IsFrame c i crc32c = keeps-IsFrame _
exec_source-IsFrame c i rbit64 = keeps-IsFrame _
exec_source-IsFrame c i rbit32 = keeps-IsFrame _
exec_source-IsFrame c i rev64 = keeps-IsFrame _
exec_source-IsFrame c i rev32 = keeps-IsFrame _
exec_source-IsFrame c i rev32_64 = keeps-IsFrame _
exec_source-IsFrame c i rev16_64 = keeps-IsFrame _
exec_source-IsFrame c i rev16_32 = keeps-IsFrame _
exec_source-IsFrame c i clz64 = keeps-IsFrame _
exec_source-IsFrame c i clz32 = keeps-IsFrame _
exec_source-IsFrame c i cls64 = keeps-IsFrame _
exec_source-IsFrame c i cls32 = keeps-IsFrame _
exec_source-IsFrame c i madd64 = keeps-IsFrame _
exec_source-IsFrame c i madd32 = keeps-IsFrame _
exec_source-IsFrame c i msub64 = keeps-IsFrame _
exec_source-IsFrame c i msub32 = keeps-IsFrame _
exec_source-IsFrame c i smaddl = keeps-IsFrame _
exec_source-IsFrame c i smsubl = keeps-IsFrame _
exec_source-IsFrame c i umaddl = keeps-IsFrame _
exec_source-IsFrame c i umsubl = keeps-IsFrame _
exec_source-IsFrame c i umulh = keeps-IsFrame _
exec_source-IsFrame c i smulh = keeps-IsFrame _

exec_cond-IsFrame :
    (c : Cpu) (i : Inst) (op : CondOp) → IsFrame c i (cond_sets op) (exec_cond op c i)
unfolding exec_cond ccmp64 ccmp32
exec_cond-IsFrame c i ccmn_reg64 = flags-IsFrame _
exec_cond-IsFrame c i ccmn_imm64 = flags-IsFrame _
exec_cond-IsFrame c i ccmp_reg64 = flags-IsFrame _
exec_cond-IsFrame c i ccmp_imm64 = flags-IsFrame _
exec_cond-IsFrame c i ccmn_reg32 = flags-IsFrame _
exec_cond-IsFrame c i ccmn_imm32 = flags-IsFrame _
exec_cond-IsFrame c i ccmp_reg32 = flags-IsFrame _
exec_cond-IsFrame c i ccmp_imm32 = flags-IsFrame _
exec_cond-IsFrame c i csel64 = keeps-IsFrame _
exec_cond-IsFrame c i csinc64 = keeps-IsFrame _
exec_cond-IsFrame c i csinv64 = keeps-IsFrame _
exec_cond-IsFrame c i csneg64 = keeps-IsFrame _
exec_cond-IsFrame c i csel32 = keeps-IsFrame _
exec_cond-IsFrame c i csinc32 = keeps-IsFrame _
exec_cond-IsFrame c i csinv32 = keeps-IsFrame _
exec_cond-IsFrame c i csneg32 = keeps-IsFrame _

-- Every data-processing handler of the integer registers, with an immediate, with shifted or
-- extended operands or with the carry, with a condition, or with one, two or three sources: it
-- writes no register but its destination and goes on by 4 modulo 2^64; it leaves the flags as they
-- were, unless it is one of ADDS, SUBS, ANDS, BICS, ADCS, SBCS, CCMP and CCMN; and it leaves
-- everything else of the register state as it was.
pub exec-IsFrame :
    (c : Cpu) (i : Inst)
    → ((op : ImmOp) → IsFrame c i (imm_sets op) (exec_imm op c i))
      × ((op : ArithOp) → IsFrame c i (arith_sets op) (exec_arith op c i))
      × ((op : CondOp) → IsFrame c i (cond_sets op) (exec_cond op c i))
      × ((op : SourceOp) → IsFrame c i false (exec_source op c i))
exec-IsFrame c i =
    (exec_imm-IsFrame c i, exec_arith-IsFrame c i, exec_cond-IsFrame c i, exec_source-IsFrame c i)
