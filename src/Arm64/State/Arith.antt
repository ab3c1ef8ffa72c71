-- ===== src/Arm64/State/Arith.antt =====
-- The handlers of internal/arm64/dpreg.go with shifted and extended operands, or with the carry,
-- and the register state.
use gonidbg.Base.{ℕ, ◌^◌, ◌<◌, arith, not64, not32, u32}
use gonidbg.Base.Bits.{bit_and-lt, bit_or-lt, bit_xor-lt}
use gonidbg.Arm64.Cpu.{Cpu}
use gonidbg.Arm64.Flags.{carry}
use gonidbg.Arm64.Inst.{
  Inst, ArithOp, mov_reg64, mov_reg32, and_reg64, bic_reg64, orr_reg64, orn_reg64, eor_reg64,
  eon_reg64, ands_reg64, bics_reg64, and_reg32, bic_reg32, orr_reg32, orn_reg32, eor_reg32,
  eon_reg32, ands_reg32, bics_reg32, add_reg64, adds_reg64, sub_reg64, subs_reg64, add_reg32,
  adds_reg32, sub_reg32, subs_reg32, add_ext64, adds_ext64, sub_ext64, subs_ext64, add_ext32,
  adds_ext32, sub_ext32, subs_ext32, adc64, adcs64, sbc64, sbcs64, adc32, adcs32, sbc32, sbcs32,
}
use gonidbg.Arm64.DpReg.Operand.{shift64, shift32, sh_op64, sh_op32, ext_op}
use gonidbg.Arm64.DpReg.Arith.{exec_arith}
use gonidbg.Arm64.Words.Laws.{shr-le, sar64-lt, sar32-lt, ror64-lt, ror32-lt}
use gonidbg.Arm64.State.{
  IsCpu, IsInst, put-IsCpu, put_flags-IsCpu, put_flagged-IsCpu, add_flags64-IsFlagged,
  add_flags32-IsFlagged, logic_flags64-IsFlags, logic_flags32-IsFlags,
}

pub shift64-lt : (sh x n : ℕ) → x < 2 ^ 64 → shift64 sh x n < 2 ^ 64
unfolding shift64
shift64-lt sh x n h = ground (arith, shr-le x n, sar64-lt x n, ror64-lt x n)

pub shift32-lt : (sh x n : ℕ) → x < 2 ^ 32 → shift32 sh x n < 2 ^ 32
unfolding shift32
shift32-lt sh x n h = ground (arith, shr-le x n, sar32-lt x n, ror32-lt x n)

pub carry-lt : (c : Cpu) → carry c < 2
unfolding carry
carry-lt c = omega arith

module _ {c : Cpu} {i : Inst} (wf : IsCpu c) (ok : IsInst i) where
  sh64 : sh_op64 c i < 2 ^ 64
  sh64 = unfold sh_op64 in shift64-lt i.sh (c.r i.rm) i.amt (wf.registers i.rm)

  sh32 : sh_op32 c i < 2 ^ 32
  sh32 = unfold sh_op32 in shift32-lt i.sh (u32 (c.r i.rm)) i.amt (omega arith)

  ext64 : ext_op c i < 2 ^ 64
  ext64 = unfold ext_op in omega arith

  rn64 : c.r i.rn < 2 ^ 64
  rn64 = wf.registers i.rn

  rm64 : c.r i.rm < 2 ^ 64
  rm64 = wf.registers i.rm

  carry_fits : carry c < 2
  carry_fits = carry-lt c

  pub exec_arith-IsCpu : (op : ArithOp) → IsCpu (exec_arith op c i)
  unfolding exec_arith
  exec_arith-IsCpu mov_reg64 = put-IsCpu wf ok _ rm64
  exec_arith-IsCpu mov_reg32 = put-IsCpu wf ok _ (omega arith)
  exec_arith-IsCpu and_reg64 = put-IsCpu wf ok _ (bit_and-lt 64 (c.r i.rn) (sh_op64 c i) rn64 sh64)
  exec_arith-IsCpu bic_reg64 =
      put-IsCpu wf ok _ (bit_and-lt 64 (c.r i.rn) (not64 (sh_op64 c i)) rn64 (omega arith))
  exec_arith-IsCpu orr_reg64 = put-IsCpu wf ok _ (bit_or-lt 64 (c.r i.rn) (sh_op64 c i) rn64 sh64)
  exec_arith-IsCpu orn_reg64 =
      put-IsCpu wf ok _ (bit_or-lt 64 (c.r i.rn) (not64 (sh_op64 c i)) rn64 (omega arith))
  exec_arith-IsCpu eor_reg64 = put-IsCpu wf ok _ (bit_xor-lt 64 (c.r i.rn) (sh_op64 c i) rn64 sh64)
  exec_arith-IsCpu eon_reg64 =
      put-IsCpu wf ok _ (bit_xor-lt 64 (c.r i.rn) (not64 (sh_op64 c i)) rn64 (omega arith))
  exec_arith-IsCpu ands_reg64 =
      let fits = bit_and-lt 64 (c.r i.rn) (sh_op64 c i) rn64 sh64 in
      put_flags-IsCpu wf ok _ _ (omega (arith, fits)) (logic_flags64-IsFlags _ fits)
  exec_arith-IsCpu bics_reg64 =
      let fits = bit_and-lt 64 (c.r i.rn) (not64 (sh_op64 c i)) rn64 (omega arith) in
      put_flags-IsCpu wf ok _ _ (omega (arith, fits)) (logic_flags64-IsFlags _ fits)
  exec_arith-IsCpu and_reg32 =
      put-IsCpu wf ok _
        (omega (arith, bit_and-lt 32 (u32 (c.r i.rn)) (sh_op32 c i) (omega arith) sh32))
  exec_arith-IsCpu bic_reg32 = put-IsCpu wf ok _ (
      omega
        (arith, bit_and-lt 32 (u32 (c.r i.rn)) (not32 (sh_op32 c i)) (omega arith) (omega arith)))
  exec_arith-IsCpu orr_reg32 =
      put-IsCpu wf ok _
        (omega (arith, bit_or-lt 32 (u32 (c.r i.rn)) (sh_op32 c i) (omega arith) sh32))
  exec_arith-IsCpu orn_reg32 = put-IsCpu wf ok _ (
      omega
        (arith, bit_or-lt 32 (u32 (c.r i.rn)) (not32 (sh_op32 c i)) (omega arith) (omega arith)))
  exec_arith-IsCpu eor_reg32 =
      put-IsCpu wf ok _
        (omega (arith, bit_xor-lt 32 (u32 (c.r i.rn)) (sh_op32 c i) (omega arith) sh32))
  exec_arith-IsCpu eon_reg32 = put-IsCpu wf ok _ (
      omega
        (arith, bit_xor-lt 32 (u32 (c.r i.rn)) (not32 (sh_op32 c i)) (omega arith) (omega arith)))
  exec_arith-IsCpu ands_reg32 =
      let fits = bit_and-lt 32 (u32 (c.r i.rn)) (sh_op32 c i) (omega arith) sh32 in
      put_flags-IsCpu wf ok _ _ (omega (arith, fits)) (logic_flags32-IsFlags _ fits)
  exec_arith-IsCpu bics_reg32 =
      let fits = bit_and-lt 32 (u32 (c.r i.rn)) (not32 (sh_op32 c i)) (omega arith) (omega arith) in
      put_flags-IsCpu wf ok _ _ (omega (arith, fits)) (logic_flags32-IsFlags _ fits)
  exec_arith-IsCpu add_reg64 = put-IsCpu wf ok _ (omega arith)
  exec_arith-IsCpu adds_reg64 =
      let (v, f) = add_flags64-IsFlagged (c.r i.rn) (sh_op64 c i) 0 rn64 sh64 (omega arith) in
      put_flagged-IsCpu wf ok _ v f
  exec_arith-IsCpu sub_reg64 = put-IsCpu wf ok _ (omega arith)
  exec_arith-IsCpu subs_reg64 =
      let (v, f) =
        add_flags64-IsFlagged (c.r i.rn) (not64 (sh_op64 c i)) 1 rn64 (omega arith) (omega arith) in
      put_flagged-IsCpu wf ok _ v f
  exec_arith-IsCpu add_reg32 = put-IsCpu wf ok _ (omega arith)
  exec_arith-IsCpu adds_reg32 =
      let (v, f) =
        add_flags32-IsFlagged (u32 (c.r i.rn)) (sh_op32 c i) 0 (omega arith) sh32 (omega arith) in
      put_flagged-IsCpu wf ok _ (omega arith) f
  exec_arith-IsCpu sub_reg32 = put-IsCpu wf ok _ (omega arith)
  exec_arith-IsCpu subs_reg32 =
      let (v, f) =
        add_flags32-IsFlagged (u32 (c.r i.rn)) (not32 (sh_op32 c i)) 1 (omega arith) (omega arith)
          (omega arith) in
      put_flagged-IsCpu wf ok _ (omega arith) f
  exec_arith-IsCpu add_ext64 = put-IsCpu wf ok _ (omega arith)
  exec_arith-IsCpu adds_ext64 =
      let (v, f) = add_flags64-IsFlagged (c.r i.rn) (ext_op c i) 0 rn64 ext64 (omega arith) in
      put_flagged-IsCpu wf ok _ v f
  exec_arith-IsCpu sub_ext64 = put-IsCpu wf ok _ (omega arith)
  exec_arith-IsCpu subs_ext64 =
      let (v, f) =
        add_flags64-IsFlagged (c.r i.rn) (not64 (ext_op c i)) 1 rn64 (omega arith) (omega arith) in
      put_flagged-IsCpu wf ok _ v f
  exec_arith-IsCpu add_ext32 = put-IsCpu wf ok _ (omega arith)
  exec_arith-IsCpu adds_ext32 =
      let (v, f) =
        add_flags32-IsFlagged (u32 (c.r i.rn)) (u32 (ext_op c i)) 0 (omega arith) (omega arith)
          (omega arith) in
      put_flagged-IsCpu wf ok _ (omega arith) f
  exec_arith-IsCpu sub_ext32 = put-IsCpu wf ok _ (omega arith)
  exec_arith-IsCpu subs_ext32 =
      let (v, f) =
        add_flags32-IsFlagged (u32 (c.r i.rn)) (not32 (u32 (ext_op c i))) 1 (omega arith)
          (omega arith) (omega arith) in
      put_flagged-IsCpu wf ok _ (omega arith) f
  exec_arith-IsCpu adc64 = put-IsCpu wf ok _ (omega arith)
  exec_arith-IsCpu adcs64 =
      let (v, f) = add_flags64-IsFlagged (c.r i.rn) (c.r i.rm) (carry c) rn64 rm64 carry_fits in
      put_flagged-IsCpu wf ok _ v f
  exec_arith-IsCpu sbc64 = put-IsCpu wf ok _ (omega arith)
  exec_arith-IsCpu sbcs64 =
      let (v, f) =
        add_flags64-IsFlagged (c.r i.rn) (not64 (c.r i.rm)) (carry c) rn64 (omega arith)
          carry_fits in
      put_flagged-IsCpu wf ok _ v f
  exec_arith-IsCpu adc32 = put-IsCpu wf ok _ (omega arith)
  exec_arith-IsCpu adcs32 =
      let (v, f) =
        add_flags32-IsFlagged (u32 (c.r i.rn)) (u32 (c.r i.rm)) (u32 (carry c)) (omega arith)
          (omega arith) (omega (arith, carry_fits)) in
      put_flagged-IsCpu wf ok _ (omega arith) f
  exec_arith-IsCpu sbc32 = put-IsCpu wf ok _ (omega arith)
  exec_arith-IsCpu sbcs32 =
      let (v, f) =
        add_flags32-IsFlagged (u32 (c.r i.rn)) (not32 (u32 (c.r i.rm))) (u32 (carry c))
          (omega arith) (omega arith) (omega (arith, carry_fits)) in
      put_flagged-IsCpu wf ok _ (omega arith) f
