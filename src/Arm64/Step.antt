-- ===== src/Arm64/Step.antt =====
-- One instruction of the run loop of internal/arm64/cpu.go, for the groups of the encoding that
-- are modelled: `decodeAt`, the call of the handler, and the count of retired instructions.
pub mod Invariant
pub mod Programs
pub mod Branches
use gonidbg.Base.{
  ℕ, ◌+◌, ◌/◌, ◌%◌, ◌^◌, Bool, ◌||◌, Option, none, some, ◌==◌, if◌then◌else◌, add64, field,
}
use gonidbg.Arm64.Cpu.{Cpu}
use gonidbg.Arm64.Inst.{
  Inst, Op, of_imm, of_arith, of_cond, of_source, of_branch, of_system, of_trap, of_ldst, zero_inst,
}
use gonidbg.Arm64.DpImm.{exec_imm}
use gonidbg.Arm64.DpImm.Decode.{decode_dp_imm}
use gonidbg.Arm64.DpReg.Arith.{exec_arith}
use gonidbg.Arm64.DpReg.Conditional.{exec_cond}
use gonidbg.Arm64.DpReg.Sources.{exec_source}
use gonidbg.Arm64.DpReg.Decode.{decode_dp_reg}
use gonidbg.Arm64.LdSt.Decode.{decode_ldst}
use gonidbg.Arm64.Branch.{decode_branch_sys, exec_branch}
use gonidbg.Arm64.System.{exec_system}

-- Bits 28:25 of the loads and stores.
abbrev pub is_ldst_group : ℕ → Bool
is_ldst_group raw =
    let op0 = field raw 25 4 in (op0 == 4) || (op0 == 6) || (op0 == 12) || (op0 == 14)

-- `decode` by bits 28:25. `none` stands for the call of `decodeSIMDFP`, which is not modelled; the
-- encodings of no group leave the instruction as it is.
unfoldable pub decode : Inst → ℕ → ℕ → Option Inst
decode i raw pc =
    let op0 = field raw 25 4 in
    if (op0 == 8) || (op0 == 9)
    then some (decode_dp_imm i raw pc)
    else if (op0 == 10) || (op0 == 11)
    then some (decode_branch_sys i raw pc)
    else if is_ldst_group raw
    then some (decode_ldst i raw pc)
    else if (op0 == 5) || (op0 == 13)
    then some (decode_dp_reg i raw)
    else if (op0 == 7) || (op0 == 15)
    then none
    else some i

-- `undefined` is the panic of `opUndef`; `outside` is an instruction that the model leaves out.
pub data Outcome : Type 0 where
  next : Cpu → Outcome
  undefined : ℕ → ℕ → Outcome
  outside : Outcome

-- `in.fn(c, in)`, for the handlers that stay within the register state. Those of loads and stores
-- are in LdSt.
unfoldable pub exec : Op → Cpu → Inst → Option Cpu
exec (of_imm op) c i = some (exec_imm op c i)
exec (of_arith op) c i = some (exec_arith op c i)
exec (of_cond op) c i = some (exec_cond op c i)
exec (of_source op) c i = some (exec_source op c i)
exec (of_branch op) c i = some (exec_branch op c i)
exec (of_system op) c i = some (exec_system op c i)
exec (of_trap op) c i = none
exec (of_ldst op) c i = none

-- `c.icount++`
abbrev retire : Option Cpu → Outcome
retire none = outside
retire (some c) = next (record c { icount = add64 c.icount 1 })

abbrev run_inst : Cpu → ℕ → Inst → Option Op → Outcome
run_inst c raw i none = undefined c.pc raw
run_inst c raw i (some op) = retire (exec op c i)

abbrev pub run_decoded : Cpu → ℕ → Option Inst → Outcome
run_decoded c raw none = outside
run_decoded c raw (some i) = run_inst c raw i i.fn

-- One instruction: `raw`, which the loop has fetched at the program counter.
unfoldable pub step : Cpu → ℕ → Outcome
step c raw = run_decoded c raw (decode zero_inst raw c.pc)
