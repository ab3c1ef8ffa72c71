-- ===== src/Arm64/DpReg/Arith.antt =====
-- Handlers of internal/arm64/dpreg.go with shifted or extended operands, or with the carry.
use gonidbg.Base.{bit_and, bit_or, bit_xor, add64, sub64, add32, sub32, not64, not32, u32}
use gonidbg.Arm64.Cpu.{Cpu}
use gonidbg.Arm64.Flags.{carry, add_flags64, add_flags32, logic_flags64, logic_flags32}
use gonidbg.Arm64.Inst.{
  Inst, ArithOp, mov_reg64, mov_reg32, and_reg64, bic_reg64, orr_reg64, orn_reg64, eor_reg64,
  eon_reg64, ands_reg64, bics_reg64, and_reg32, bic_reg32, orr_reg32, orn_reg32, eor_reg32,
  eon_reg32, ands_reg32, bics_reg32, add_reg64, adds_reg64, sub_reg64, subs_reg64, add_reg32,
  adds_reg32, sub_reg32, subs_reg32, add_ext64, adds_ext64, sub_ext64, subs_ext64, add_ext32,
  adds_ext32, sub_ext32, subs_ext32, adc64, adcs64, sbc64, sbcs64, adc32, adcs32, sbc32, sbcs32,
}
use gonidbg.Arm64.DpImm.{put, put_flags, put_flagged}
use gonidbg.Arm64.DpReg.Operand.{sh_op64, sh_op32, ext_op}

op_mov_reg64 : Cpu → Inst → Cpu
op_mov_reg64 c i = put c i (c.r i.rm)

op_mov_reg32 : Cpu → Inst → Cpu
op_mov_reg32 c i = put c i (u32 (c.r i.rm))

op_and_reg64 : Cpu → Inst → Cpu
op_and_reg64 c i = put c i (bit_and (c.r i.rn) (sh_op64 c i))

-- `x &^ y` is `x & ^y`.
op_bic_reg64 : Cpu → Inst → Cpu
op_bic_reg64 c i = put c i (bit_and (c.r i.rn) (not64 (sh_op64 c i)))

op_orr_reg64 : Cpu → Inst → Cpu
op_orr_reg64 c i = put c i (bit_or (c.r i.rn) (sh_op64 c i))

op_orn_reg64 : Cpu → Inst → Cpu
op_orn_reg64 c i = put c i (bit_or (c.r i.rn) (not64 (sh_op64 c i)))

op_eor_reg64 : Cpu → Inst → Cpu
op_eor_reg64 c i = put c i (bit_xor (c.r i.rn) (sh_op64 c i))

op_eon_reg64 : Cpu → Inst → Cpu
op_eon_reg64 c i = put c i (bit_xor (c.r i.rn) (not64 (sh_op64 c i)))

op_and_reg32 : Cpu → Inst → Cpu
op_and_reg32 c i = put c i (bit_and (u32 (c.r i.rn)) (sh_op32 c i))

op_bic_reg32 : Cpu → Inst → Cpu
op_bic_reg32 c i = put c i (bit_and (u32 (c.r i.rn)) (not32 (sh_op32 c i)))

op_orr_reg32 : Cpu → Inst → Cpu
op_orr_reg32 c i = put c i (bit_or (u32 (c.r i.rn)) (sh_op32 c i))

op_orn_reg32 : Cpu → Inst → Cpu
op_orn_reg32 c i = put c i (bit_or (u32 (c.r i.rn)) (not32 (sh_op32 c i)))

op_eor_reg32 : Cpu → Inst → Cpu
op_eor_reg32 c i = put c i (bit_xor (u32 (c.r i.rn)) (sh_op32 c i))

op_eon_reg32 : Cpu → Inst → Cpu
op_eon_reg32 c i = put c i (bit_xor (u32 (c.r i.rn)) (not32 (sh_op32 c i)))

op_ands_reg64 : Cpu → Inst → Cpu
op_ands_reg64 c i = let r = bit_and (c.r i.rn) (sh_op64 c i) in put_flags c i r (logic_flags64 r)

op_bics_reg64 : Cpu → Inst → Cpu
op_bics_reg64 c i =
    let r = bit_and (c.r i.rn) (not64 (sh_op64 c i)) in put_flags c i r (logic_flags64 r)

op_ands_reg32 : Cpu → Inst → Cpu
op_ands_reg32 c i =
    let r = bit_and (u32 (c.r i.rn)) (sh_op32 c i) in put_flags c i r (logic_flags32 r)

op_bics_reg32 : Cpu → Inst → Cpu
op_bics_reg32 c i =
    let r = bit_and (u32 (c.r i.rn)) (not32 (sh_op32 c i)) in put_flags c i r (logic_flags32 r)

op_add_reg64 : Cpu → Inst → Cpu
op_add_reg64 c i = put c i (add64 (c.r i.rn) (sh_op64 c i))

op_sub_reg64 : Cpu → Inst → Cpu
op_sub_reg64 c i = put c i (sub64 (c.r i.rn) (sh_op64 c i))

op_add_reg32 : Cpu → Inst → Cpu
op_add_reg32 c i = put c i (add32 (u32 (c.r i.rn)) (sh_op32 c i))

op_sub_reg32 : Cpu → Inst → Cpu
op_sub_reg32 c i = put c i (sub32 (u32 (c.r i.rn)) (sh_op32 c i))

op_adds_reg64 : Cpu → Inst → Cpu
op_adds_reg64 c i = put_flagged c i (add_flags64 (c.r i.rn) (sh_op64 c i) 0)

op_subs_reg64 : Cpu → Inst → Cpu
op_subs_reg64 c i = put_flagged c i (add_flags64 (c.r i.rn) (not64 (sh_op64 c i)) 1)

op_adds_reg32 : Cpu → Inst → Cpu
op_adds_reg32 c i = put_flagged c i (add_flags32 (u32 (c.r i.rn)) (sh_op32 c i) 0)

op_subs_reg32 : Cpu → Inst → Cpu
op_subs_reg32 c i = put_flagged c i (add_flags32 (u32 (c.r i.rn)) (not32 (sh_op32 c i)) 1)

op_add_ext64 : Cpu → Inst → Cpu
op_add_ext64 c i = put c i (add64 (c.r i.rn) (ext_op c i))

op_sub_ext64 : Cpu → Inst → Cpu
op_sub_ext64 c i = put c i (sub64 (c.r i.rn) (ext_op c i))

op_add_ext32 : Cpu → Inst → Cpu
op_add_ext32 c i = put c i (u32 (add64 (c.r i.rn) (ext_op c i)))

op_sub_ext32 : Cpu → Inst → Cpu
op_sub_ext32 c i = put c i (u32 (sub64 (c.r i.rn) (ext_op c i)))

op_adds_ext64 : Cpu → Inst → Cpu
op_adds_ext64 c i = put_flagged c i (add_flags64 (c.r i.rn) (ext_op c i) 0)

op_subs_ext64 : Cpu → Inst → Cpu
op_subs_ext64 c i = put_flagged c i (add_flags64 (c.r i.rn) (not64 (ext_op c i)) 1)

op_adds_ext32 : Cpu → Inst → Cpu
op_adds_ext32 c i = put_flagged c i (add_flags32 (u32 (c.r i.rn)) (u32 (ext_op c i)) 0)

op_subs_ext32 : Cpu → Inst → Cpu
op_subs_ext32 c i = put_flagged c i (add_flags32 (u32 (c.r i.rn)) (not32 (u32 (ext_op c i))) 1)

op_adc64 : Cpu → Inst → Cpu
op_adc64 c i = put c i (add64 (add64 (c.r i.rn) (c.r i.rm)) (carry c))

op_sbc64 : Cpu → Inst → Cpu
op_sbc64 c i = put c i (add64 (add64 (c.r i.rn) (not64 (c.r i.rm))) (carry c))

op_adc32 : Cpu → Inst → Cpu
op_adc32 c i = put c i (u32 (add64 (add64 (c.r i.rn) (c.r i.rm)) (carry c)))

op_sbc32 : Cpu → Inst → Cpu
op_sbc32 c i = put c i (u32 (add64 (add64 (c.r i.rn) (not64 (c.r i.rm))) (carry c)))

op_adcs64 : Cpu → Inst → Cpu
op_adcs64 c i = put_flagged c i (add_flags64 (c.r i.rn) (c.r i.rm) (carry c))

op_sbcs64 : Cpu → Inst → Cpu
op_sbcs64 c i = put_flagged c i (add_flags64 (c.r i.rn) (not64 (c.r i.rm)) (carry c))

op_adcs32 : Cpu → Inst → Cpu
op_adcs32 c i = put_flagged c i (add_flags32 (u32 (c.r i.rn)) (u32 (c.r i.rm)) (u32 (carry c)))

op_sbcs32 : Cpu → Inst → Cpu
op_sbcs32 c i =
    put_flagged c i (add_flags32 (u32 (c.r i.rn)) (not32 (u32 (c.r i.rm))) (u32 (carry c)))

-- `in.fn(c, in)` for the handlers of this file.
unfoldable pub exec_arith : ArithOp → Cpu → Inst → Cpu
unfolding op_mov_reg64 op_mov_reg32 op_and_reg64 op_bic_reg64 op_orr_reg64 op_orn_reg64 op_eor_reg64
    op_eon_reg64 op_ands_reg64 op_bics_reg64 op_and_reg32 op_bic_reg32 op_orr_reg32 op_orn_reg32
    op_eor_reg32 op_eon_reg32 op_ands_reg32 op_bics_reg32 op_add_reg64 op_adds_reg64 op_sub_reg64
    op_subs_reg64 op_add_reg32 op_adds_reg32 op_sub_reg32 op_subs_reg32 op_add_ext64 op_adds_ext64
    op_sub_ext64 op_subs_ext64 op_add_ext32 op_adds_ext32 op_sub_ext32 op_subs_ext32 op_adc64
    op_adcs64 op_sbc64 op_sbcs64 op_adc32 op_adcs32 op_sbc32 op_sbcs32
exec_arith mov_reg64 c i = op_mov_reg64 c i
exec_arith mov_reg32 c i = op_mov_reg32 c i
exec_arith and_reg64 c i = op_and_reg64 c i
exec_arith bic_reg64 c i = op_bic_reg64 c i
exec_arith orr_reg64 c i = op_orr_reg64 c i
exec_arith orn_reg64 c i = op_orn_reg64 c i
exec_arith eor_reg64 c i = op_eor_reg64 c i
exec_arith eon_reg64 c i = op_eon_reg64 c i
exec_arith ands_reg64 c i = op_ands_reg64 c i
exec_arith bics_reg64 c i = op_bics_reg64 c i
exec_arith and_reg32 c i = op_and_reg32 c i
exec_arith bic_reg32 c i = op_bic_reg32 c i
exec_arith orr_reg32 c i = op_orr_reg32 c i
exec_arith orn_reg32 c i = op_orn_reg32 c i
exec_arith eor_reg32 c i = op_eor_reg32 c i
exec_arith eon_reg32 c i = op_eon_reg32 c i
exec_arith ands_reg32 c i = op_ands_reg32 c i
exec_arith bics_reg32 c i = op_bics_reg32 c i
exec_arith add_reg64 c i = op_add_reg64 c i
exec_arith adds_reg64 c i = op_adds_reg64 c i
exec_arith sub_reg64 c i = op_sub_reg64 c i
exec_arith subs_reg64 c i = op_subs_reg64 c i
exec_arith add_reg32 c i = op_add_reg32 c i
exec_arith adds_reg32 c i = op_adds_reg32 c i
exec_arith sub_reg32 c i = op_sub_reg32 c i
exec_arith subs_reg32 c i = op_subs_reg32 c i
exec_arith add_ext64 c i = op_add_ext64 c i
exec_arith adds_ext64 c i = op_adds_ext64 c i
exec_arith sub_ext64 c i = op_sub_ext64 c i
exec_arith subs_ext64 c i = op_subs_ext64 c i
exec_arith add_ext32 c i = op_add_ext32 c i
exec_arith adds_ext32 c i = op_adds_ext32 c i
exec_arith sub_ext32 c i = op_sub_ext32 c i
exec_arith subs_ext32 c i = op_subs_ext32 c i
exec_arith adc64 c i = op_adc64 c i
exec_arith adcs64 c i = op_adcs64 c i
exec_arith sbc64 c i = op_sbc64 c i
exec_arith sbcs64 c i = op_sbcs64 c i
exec_arith adc32 c i = op_adc32 c i
exec_arith adcs32 c i = op_adcs32 c i
exec_arith sbc32 c i = op_sbc32 c i
exec_arith sbcs32 c i = op_sbcs32 c i
