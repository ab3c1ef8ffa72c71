-- ===== src/Arm64/Branch.antt =====
-- internal/arm64/decode.go: branches, exception generation and the top of the system group.
pub mod Targets
use gonidbg.Base.{
  ℕ, ◌+◌, ◌*◌, ◌/◌, ◌%◌, ◌^◌, Bool, true, false, not, ◌&&◌, ◌||◌, Option, none, some, bit_and,
  bit_or, ◌==◌, if◌then◌else◌, add64, u32, shr, field,
}
use gonidbg.Arm64.Cpu.{Cpu, r_lr, update, step_pc, xr}
use gonidbg.Arm64.Words.{sext}
use gonidbg.Arm64.Flags.{cond}
use gonidbg.Arm64.Inst.{
  Inst, Op, of_branch, of_trap, pick4x2, BranchOp, b_always, bl, b_cond, cbz64, cbnz64, cbz32,
  cbnz32, tbz, tbnz, br, blr, svc, brk, hlt,
}
use gonidbg.Arm64.System.{decode_system}

unfoldable pub decode_exception : Inst → ℕ → Inst
decode_exception i raw =
    let opc = field raw 21 3 in
    let ll = field raw 0 2 in
    if not (field raw 2 3 == 0)
    then i
    else if (opc == 0) && (ll == 1)
    then record i { fn = some (of_trap svc) }
    else if (opc == 1) && (ll == 0)
    then record i { fn = some (of_trap brk) }
    else if (opc == 2) && (ll == 0)
    then record i { fn = some (of_trap hlt) }
    else i

-- BR, BLR and RET, which is BR; the pointer-authenticated forms are refused.
unfoldable pub decode_branch_reg : Inst → ℕ → Inst
decode_branch_reg i raw =
    let opc = field raw 21 4 in
    let j = record i { rn = xr (shr raw 5) } in
    if not (field raw 16 5 == 31) || not (field raw 10 6 == 0) || not (field raw 0 5 == 0)
    then i
    else if opc == 0
    then record j { fn = some (of_branch br) }
    else if opc == 1
    then record j { fn = some (of_branch blr) }
    else if opc == 2
    then record j { fn = some (of_branch br) }
    else j

-- B, BL
unfoldable pub decode_b : Inst → ℕ → ℕ → Inst
decode_b i raw pc =
    let j = record i { imm = add64 pc (sext (field raw 0 26 * 2 ^ 2) 28) } in
    if raw / 2 ^ 31 == 0
    then record j { fn = some (of_branch b_always) }
    else record j { imm2 = add64 pc 4; fn = some (of_branch bl) }

-- CBZ, CBNZ
unfoldable pub decode_cbz : Inst → ℕ → ℕ → Inst
decode_cbz i raw pc = record i {
  imm = add64 pc (sext (field raw 5 19 * 2 ^ 2) 21);
  rn = xr raw;
  fn =
      pick4x2 (raw / 2 ^ 31 == 1) (field raw 24 1) (some (of_branch cbz64))
        (some (of_branch cbnz64)) none none (some (of_branch cbz32)) (some (of_branch cbnz32)) none
        none;
}

-- TBZ, TBNZ
unfoldable pub decode_tbz : Inst → ℕ → ℕ → Inst
decode_tbz i raw pc = record i {
  imm = add64 pc (sext (field raw 5 14 * 2 ^ 2) 16);
  rn = xr raw;
  amt = bit_or (shr raw 31 * 2 ^ 5) (field raw 19 5);
  fn = some (of_branch (if field raw 24 1 == 0 then tbz else tbnz));
}

-- B.cond
unfoldable pub decode_b_cond : Inst → ℕ → ℕ → Inst
decode_b_cond i raw pc = record i {
  imm = add64 pc (sext (field raw 5 19 * 2 ^ 2) 21);
  cond = field raw 0 4;
  fn = some (of_branch b_cond);
}

unfoldable pub decode_branch_sys : Inst → ℕ → ℕ → Inst
unfolding decode_b decode_cbz decode_tbz decode_b_cond decode_exception decode_branch_reg
    decode_system
decode_branch_sys i raw pc =
    if bit_and raw 0x7c00_0000 == 0x1400_0000
    then decode_b i raw pc
    else if bit_and raw 0x7e00_0000 == 0x3400_0000
    then decode_cbz i raw pc
    else if bit_and raw 0x7e00_0000 == 0x3600_0000
    then decode_tbz i raw pc
    else if bit_and raw 0xff00_0010 == 0x5400_0000
    then decode_b_cond i raw pc
    else if bit_and raw 0xff00_0000 == 0xd400_0000
    then decode_exception i raw
    else if bit_and raw 0xfe00_0000 == 0xd600_0000
    then decode_branch_reg i raw
    else if bit_and raw 0xffc0_0000 == 0xd500_0000
    then decode_system i raw
    else i

-- `if taken { c.PC = i.imm } else { c.PC += 4 }`
abbrev branch_if : Bool → Cpu → Inst → Cpu
branch_if taken c i = record c { pc = if taken then i.imm else add64 c.pc 4 }

op_b : Cpu → Inst → Cpu
op_b c i = record c { pc = i.imm }

op_bl : Cpu → Inst → Cpu
op_bl c i = record c { r = update c.r r_lr i.imm2; pc = i.imm }

op_b_cond : Cpu → Inst → Cpu
op_b_cond c i = branch_if (cond c i.cond) c i

op_cbz64 : Cpu → Inst → Cpu
op_cbz64 c i = branch_if (c.r i.rn == 0) c i

op_cbnz64 : Cpu → Inst → Cpu
op_cbnz64 c i = branch_if (not (c.r i.rn == 0)) c i

op_cbz32 : Cpu → Inst → Cpu
op_cbz32 c i = branch_if (u32 (c.r i.rn) == 0) c i

op_cbnz32 : Cpu → Inst → Cpu
op_cbnz32 c i = branch_if (not (u32 (c.r i.rn) == 0)) c i

op_tbz : Cpu → Inst → Cpu
op_tbz c i = branch_if (field (shr (c.r i.rn) i.amt) 0 1 == 0) c i

op_tbnz : Cpu → Inst → Cpu
op_tbnz c i = branch_if (not (field (shr (c.r i.rn) i.amt) 0 1 == 0)) c i

op_br : Cpu → Inst → Cpu
op_br c i = record c { pc = c.r i.rn }

-- The target is read before the link register is written.
op_blr : Cpu → Inst → Cpu
op_blr c i = let t = c.r i.rn in record c { r = update c.r r_lr (add64 c.pc 4); pc = t }

-- `in.fn(c, in)` for the branches.
unfoldable pub exec_branch : BranchOp → Cpu → Inst → Cpu
unfolding op_b op_bl op_b_cond op_cbz64 op_cbnz64 op_cbz32 op_cbnz32 op_tbz op_tbnz op_br op_blr
exec_branch b_always c i = op_b c i
exec_branch bl c i = op_bl c i
exec_branch b_cond c i = op_b_cond c i
exec_branch cbz64 c i = op_cbz64 c i
exec_branch cbnz64 c i = op_cbnz64 c i
exec_branch cbz32 c i = op_cbz32 c i
exec_branch cbnz32 c i = op_cbnz32 c i
exec_branch tbz c i = op_tbz c i
exec_branch tbnz c i = op_tbnz c i
exec_branch br c i = op_br c i
exec_branch blr c i = op_blr c i
