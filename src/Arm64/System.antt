-- ===== src/Arm64/System.antt =====
-- internal/arm64/decode.go: hints, barriers and the system registers.
pub mod Registers
use gonidbg.Base.{
  ℕ, ◌+◌, ◌*◌, ◌/◌, ◌%◌, ◌^◌, Bool, true, false, not, ◌&&◌, ◌||◌, Option, none, some, bit_and,
  bit_or, leb, ◌==◌, if◌then◌else◌, add64, u32, field,
}
use gonidbg.Arm64.Cpu.{Cpu, update, step_pc, xr, xw}
use gonidbg.Arm64.Inst.{
  Inst, Op, of_system, of_trap, SystemOp, nop, clrex, mov_imm2, mrs, msr, dc_zva,
}
use gonidbg.Arm64.DpImm.{put}

-- The encoding op0:op1:CRn:CRm:op2.
unfoldable pub sysreg : ℕ → ℕ → ℕ → ℕ → ℕ → ℕ
sysreg op0 op1 crn crm op2 =
    bit_or (bit_or (bit_or (bit_or (op0 * 2 ^ 14) (op1 * 2 ^ 11)) (crn * 2 ^ 7)) (crm * 2 ^ 3)) op2

abbrev pub reg_nzcv : ℕ
unfolding sysreg
reg_nzcv = sysreg 3 3 4 2 0

abbrev pub reg_fpcr : ℕ
unfolding sysreg
reg_fpcr = sysreg 3 3 4 4 0

abbrev pub reg_fpsr : ℕ
unfolding sysreg
reg_fpsr = sysreg 3 3 4 4 1

abbrev pub reg_tpidr : ℕ
unfolding sysreg
reg_tpidr = sysreg 3 3 13 0 2

abbrev pub reg_tpidrro : ℕ
unfolding sysreg
reg_tpidrro = sysreg 3 3 13 0 3

abbrev pub reg_cntpct : ℕ
unfolding sysreg
reg_cntpct = sysreg 3 3 14 0 1

abbrev pub reg_cntvct : ℕ
unfolding sysreg
reg_cntvct = sysreg 3 3 14 0 2

-- The map `constSysregs` of read-only identification values, with the keys of its source.
unfoldable pub const_sysreg : ℕ → Option ℕ
unfolding sysreg
const_sysreg reg =
    if reg == sysreg 3 3 0 0 1
    then some 0x8444_c004
    else if reg == sysreg 3 3 0 0 7
    then some 4
    else if reg == sysreg 3 3 14 0 0
    then some 62_500_000
    else if reg == sysreg 3 0 0 0 0
    then some 0x410f_d083
    else if reg == sysreg 3 0 0 0 5
    then some 0x8000_0000
    else if reg == sysreg 3 0 0 0 6
    then some 0
    else if reg == sysreg 3 0 4 2 2
    then some 0
    else if reg == sysreg 3 0 0 4 0
    then some 0x2222
    else if reg == sysreg 3 0 0 4 1
    then some 0
    else if reg == sysreg 3 0 0 6 0
    then some 0x0001_1120
    else if reg == sysreg 3 0 0 6 1
    then some 0
    else if reg == sysreg 3 0 0 7 0
    then some 0x1124
    else none

-- The registers that the two switches name.
abbrev is_readable : ℕ → Bool
is_readable reg =
    (reg == reg_nzcv)
    || (reg == reg_fpcr)
    || (reg == reg_fpsr)
    || (reg == reg_tpidr)
    || (reg == reg_tpidrro)
    || (reg == reg_cntpct)
    || (reg == reg_cntvct)

abbrev is_writable : ℕ → Bool
is_writable reg = (reg == reg_nzcv) || (reg == reg_fpcr) || (reg == reg_fpsr) || (reg == reg_tpidr)

-- MRS / MSR (register)
unfoldable pub decode_sysreg : Inst → ℕ → ℕ → ℕ → ℕ → Inst
decode_sysreg i l reg rt rd =
    let j = record i { imm = reg } in
    if l == 1
    then (elim (const_sysreg reg) [
      | some v ↦ record j { rd = rd; imm2 = v; fn = some (of_system mov_imm2) }
      | none ↦
          let k = record j { rd = rd } in
          if is_readable reg then record k { fn = some (of_system mrs) } else k
    ])
    else (let k = record j { rn = rt } in
        if is_writable reg then record k { fn = some (of_system msr) } else k)

unfoldable pub decode_system : Inst → ℕ → Inst
decode_system i raw =
    let l = field raw 21 1 in
    let op0 = field raw 19 2 in
    let op1 = field raw 16 3 in
    let crn = field raw 12 4 in
    let crm = field raw 8 4 in
    let op2 = field raw 5 3 in
    let rt = field raw 0 5 in
    let to_pstate = (l == 0) && (op0 == 0) && (rt == 31) in
    let as_nop = record i { fn = some (of_system nop) } in
    if to_pstate && (crn == 2) && (op1 == 3)
    then as_nop
    else if to_pstate && (crn == 3) && (op1 == 3)
    then (if op2 == 2
        then record i { fn = some (of_system clrex) }
        else if leb 4 op2
        then as_nop
        else i)
    else if to_pstate && (crn == 4)
    then (if (op1 == 3) && ((op2 == 6) || (op2 == 7)) then as_nop else i)
    else if op0 == 1
    then (if l == 1
        then i
        else if (op1 == 3) && (crn == 7) && (crm == 4) && (op2 == 1)
        then record i { rn = xr rt; fn = some (of_trap dc_zva) }
        else as_nop)
    else if leb 2 op0
    then decode_sysreg i l (sysreg op0 op1 crn crm op2) (xr rt) (xw rt)
    else i

op_nop : Cpu → Inst → Cpu
op_nop c i = step_pc c

op_clrex : Cpu → Inst → Cpu
op_clrex c i = step_pc (record c { excl_valid = false })

op_mov_imm2 : Cpu → Inst → Cpu
op_mov_imm2 c i = put c i i.imm2

-- `icount` stands behind both counters.
op_mrs : Cpu → Inst → Cpu
op_mrs c i =
    let reg = u32 i.imm in
    let v : ℕ =
      if reg == reg_nzcv
      then c.nzcv
      else if reg == reg_fpcr
      then c.fpcr
      else if reg == reg_fpsr
      then c.fpsr
      else if reg == reg_tpidr
      then c.tpidr
      else if reg == reg_tpidrro
      then c.tpidrro
      else if (reg == reg_cntpct) || (reg == reg_cntvct)
      then c.icount
      else 0 in
    put c i v

abbrev fpcr_mask : ℕ
fpcr_mask = 0x07ff_9f00

abbrev fpsr_mask : ℕ
fpsr_mask = 0xf800_009f

op_msr : Cpu → Inst → Cpu
op_msr c i =
    let reg = u32 i.imm in
    let v = c.r i.rn in
    step_pc (
      if reg == reg_nzcv
      then record c { nzcv = bit_and (u32 v) 0xf000_0000 }
      else if reg == reg_fpcr
      then record c { fpcr = bit_and (u32 v) fpcr_mask }
      else if reg == reg_fpsr
      then record c { fpsr = bit_and (u32 v) fpsr_mask }
      else if reg == reg_tpidr
      then record c { tpidr = v }
      else c)

-- `in.fn(c, in)` for these handlers.
unfoldable pub exec_system : SystemOp → Cpu → Inst → Cpu
unfolding op_nop op_clrex op_mov_imm2 op_mrs op_msr
exec_system nop c i = op_nop c i
exec_system clrex c i = op_clrex c i
exec_system mov_imm2 c i = op_mov_imm2 c i
exec_system mrs c i = op_mrs c i
exec_system msr c i = op_msr c i
