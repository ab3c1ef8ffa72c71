-- ===== src/Arm64/DpImm.antt =====
-- internal/arm64/decode.go: data processing with immediates, the decoder and the handlers.
pub mod Decode
pub mod Moves
pub mod Extract
use gonidbg.Base.{
  ℕ, ◌+◌, ◌-◌, ◌*◌, ◌/◌, ◌%◌, ◌^◌, bit_and, bit_or, bit_xor, ltb, ◌==◌, if◌then◌else◌, add64, sub64,
  add32, sub32, not64, not32, shl64, shl32, shr, sar64, sar32, ror64, ror32, u32,
}
use gonidbg.Arm64.Cpu.{Cpu, update, step_pc}
use gonidbg.Arm64.Flags.{add_flags64, add_flags32, logic_flags64, logic_flags32, Flagged}
use gonidbg.Arm64.Inst.{
  Inst, ImmOp, mov_imm, add_imm64, adds_imm64, sub_imm64, subs_imm64, add_imm32, adds_imm32,
  sub_imm32, subs_imm32, and_imm64, orr_imm64, eor_imm64, ands_imm64, and_imm32, orr_imm32,
  eor_imm32, ands_imm32, movk64, movk32, sbfm64, bfm64, ubfm64, sbfm32, bfm32, ubfm32, extr64,
  extr32,
}

-- `c.R[i.rd] = v; c.PC += 4`
abbrev pub put : Cpu → Inst → ℕ → Cpu
put c i val = record c { r = update c.r i.rd val; pc = add64 c.pc 4 }

-- `c.R[i.rd], c.NZCV = v, f; c.PC += 4`
abbrev pub put_flags : Cpu → Inst → ℕ → ℕ → Cpu
put_flags c i val f = record c { r = update c.r i.rd val; nzcv = f; pc = add64 c.pc 4 }

abbrev pub put_flagged : Cpu → Inst → Flagged → Cpu
put_flagged c i p = put_flags c i p.value p.flags

op_mov_imm : Cpu → Inst → Cpu
op_mov_imm c i = put c i i.imm

op_add_imm64 : Cpu → Inst → Cpu
op_add_imm64 c i = put c i (add64 (c.r i.rn) i.imm)

op_sub_imm64 : Cpu → Inst → Cpu
op_sub_imm64 c i = put c i (sub64 (c.r i.rn) i.imm)

op_add_imm32 : Cpu → Inst → Cpu
op_add_imm32 c i = put c i (add32 (u32 (c.r i.rn)) (u32 i.imm))

op_sub_imm32 : Cpu → Inst → Cpu
op_sub_imm32 c i = put c i (sub32 (u32 (c.r i.rn)) (u32 i.imm))

op_adds_imm64 : Cpu → Inst → Cpu
op_adds_imm64 c i = put_flagged c i (add_flags64 (c.r i.rn) i.imm 0)

op_subs_imm64 : Cpu → Inst → Cpu
op_subs_imm64 c i = put_flagged c i (add_flags64 (c.r i.rn) (not64 i.imm) 1)

op_adds_imm32 : Cpu → Inst → Cpu
op_adds_imm32 c i = put_flagged c i (add_flags32 (u32 (c.r i.rn)) (u32 i.imm) 0)

op_subs_imm32 : Cpu → Inst → Cpu
op_subs_imm32 c i = put_flagged c i (add_flags32 (u32 (c.r i.rn)) (not32 (u32 i.imm)) 1)

op_and_imm64 : Cpu → Inst → Cpu
op_and_imm64 c i = put c i (bit_and (c.r i.rn) i.imm)

op_orr_imm64 : Cpu → Inst → Cpu
op_orr_imm64 c i = put c i (bit_or (c.r i.rn) i.imm)

op_eor_imm64 : Cpu → Inst → Cpu
op_eor_imm64 c i = put c i (bit_xor (c.r i.rn) i.imm)

op_and_imm32 : Cpu → Inst → Cpu
op_and_imm32 c i = put c i (bit_and (u32 (c.r i.rn)) (u32 i.imm))

op_orr_imm32 : Cpu → Inst → Cpu
op_orr_imm32 c i = put c i (bit_or (u32 (c.r i.rn)) (u32 i.imm))

op_eor_imm32 : Cpu → Inst → Cpu
op_eor_imm32 c i = put c i (bit_xor (u32 (c.r i.rn)) (u32 i.imm))

op_ands_imm64 : Cpu → Inst → Cpu
op_ands_imm64 c i = let r = bit_and (c.r i.rn) i.imm in put_flags c i r (logic_flags64 r)

op_ands_imm32 : Cpu → Inst → Cpu
op_ands_imm32 c i =
    let r = bit_and (u32 (c.r i.rn)) (u32 i.imm) in put_flags c i r (logic_flags32 r)

op_movk64 : Cpu → Inst → Cpu
op_movk64 c i = put c i (bit_or (bit_and (c.r i.rn) i.imm2) i.imm)

op_movk32 : Cpu → Inst → Cpu
op_movk32 c i = put c i (u32 (bit_or (bit_and (c.r i.rn) i.imm2) i.imm))

-- `imm` is wmask, `imm2` is tmask, `amt` is immr and `sh` is imms. `x &^ m` is `x & ^m`.
op_ubfm64 : Cpu → Inst → Cpu
op_ubfm64 c i = put c i (bit_and (bit_and (ror64 (c.r i.rn) i.amt) i.imm) i.imm2)

op_ubfm32 : Cpu → Inst → Cpu
op_ubfm32 c i = put c i (bit_and (bit_and (ror32 (u32 (c.r i.rn)) i.amt) i.imm) i.imm2)

op_sbfm64 : Cpu → Inst → Cpu
op_sbfm64 c i =
    let src = c.r i.rn in
    let bot = bit_and (ror64 src i.amt) i.imm in
    let top = sar64 (shl64 src (63 - i.sh)) 63 in
    put c i (bit_or (bit_and top (not64 i.imm2)) (bit_and bot i.imm2))

op_sbfm32 : Cpu → Inst → Cpu
op_sbfm32 c i =
    let src = u32 (c.r i.rn) in
    let bot = bit_and (ror32 src i.amt) i.imm in
    let top = sar32 (shl32 src (31 - i.sh)) 31 in
    put c i (bit_and (bit_or (bit_and top (not64 i.imm2)) (bit_and bot i.imm2)) 0xffff_ffff)

op_bfm64 : Cpu → Inst → Cpu
op_bfm64 c i =
    let dst = c.r i.ra in
    let bot = bit_or (bit_and dst (not64 i.imm)) (bit_and (ror64 (c.r i.rn) i.amt) i.imm) in
    put c i (bit_or (bit_and dst (not64 i.imm2)) (bit_and bot i.imm2))

op_bfm32 : Cpu → Inst → Cpu
op_bfm32 c i =
    let dst = u32 (c.r i.ra) in
    let bot = bit_or (bit_and dst (not64 i.imm)) (bit_and (ror32 (u32 (c.r i.rn)) i.amt) i.imm) in
    put c i (bit_and (bit_or (bit_and dst (not64 i.imm2)) (bit_and bot i.imm2)) 0xffff_ffff)

op_extr64 : Cpu → Inst → Cpu
op_extr64 c i = put c i (bit_or (shr (c.r i.rm) i.amt) (shl64 (c.r i.rn) (64 - i.amt)))

op_extr32 : Cpu → Inst → Cpu
op_extr32 c i = put c i (bit_or (shr (u32 (c.r i.rm)) i.amt) (shl32 (u32 (c.r i.rn)) (32 - i.amt)))

-- `in.fn(c, in)` for the handlers of this file.
unfoldable pub exec_imm : ImmOp → Cpu → Inst → Cpu
unfolding op_mov_imm op_add_imm64 op_sub_imm64 op_add_imm32 op_sub_imm32 op_adds_imm64 op_subs_imm64
    op_adds_imm32 op_subs_imm32 op_and_imm64 op_orr_imm64 op_eor_imm64 op_and_imm32 op_orr_imm32
    op_eor_imm32 op_ands_imm64 op_ands_imm32 op_movk64 op_movk32 op_ubfm64 op_ubfm32 op_sbfm64
    op_sbfm32 op_bfm64 op_bfm32 op_extr64 op_extr32
exec_imm mov_imm c i = op_mov_imm c i
exec_imm add_imm64 c i = op_add_imm64 c i
exec_imm adds_imm64 c i = op_adds_imm64 c i
exec_imm sub_imm64 c i = op_sub_imm64 c i
exec_imm subs_imm64 c i = op_subs_imm64 c i
exec_imm add_imm32 c i = op_add_imm32 c i
exec_imm adds_imm32 c i = op_adds_imm32 c i
exec_imm sub_imm32 c i = op_sub_imm32 c i
exec_imm subs_imm32 c i = op_subs_imm32 c i
exec_imm and_imm64 c i = op_and_imm64 c i
exec_imm orr_imm64 c i = op_orr_imm64 c i
exec_imm eor_imm64 c i = op_eor_imm64 c i
exec_imm ands_imm64 c i = op_ands_imm64 c i
exec_imm and_imm32 c i = op_and_imm32 c i
exec_imm orr_imm32 c i = op_orr_imm32 c i
exec_imm eor_imm32 c i = op_eor_imm32 c i
exec_imm ands_imm32 c i = op_ands_imm32 c i
exec_imm movk64 c i = op_movk64 c i
exec_imm movk32 c i = op_movk32 c i
exec_imm sbfm64 c i = op_sbfm64 c i
exec_imm bfm64 c i = op_bfm64 c i
exec_imm ubfm64 c i = op_ubfm64 c i
exec_imm sbfm32 c i = op_sbfm32 c i
exec_imm bfm32 c i = op_bfm32 c i
exec_imm ubfm32 c i = op_ubfm32 c i
exec_imm extr64 c i = op_extr64 c i
exec_imm extr32 c i = op_extr32 c i
