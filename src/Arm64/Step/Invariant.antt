-- ===== src/Arm64/Step/Invariant.antt =====
-- The register state of internal/arm64 across one instruction: what decoding gives, what is kept.
use gonidbg.Base.{
  ℕ, ◌^◌, ◌<◌, ◌≡◌, refl, sym, arith, true, false, inl, inr, Bool-cases, Option, none, some,
}
use gonidbg.Arm64.LdSt.Decode.{decode_ldst}
use gonidbg.Arm64.LdSt.Group.{is_memory, ldst}
use mathlib.Core.Option.{some-injective}
use mathlib.Core.Path.{subst}
use gonidbg.Arm64.Cpu.{Cpu}
use gonidbg.Arm64.Inst.{
  Inst, Op, of_imm, of_arith, of_cond, of_source, of_branch, of_system, of_trap, of_ldst, zero_inst,
  nop, clrex, mov_imm2, mrs, msr,
}
use gonidbg.Arm64.Step.{
  is_ldst_group, decode, exec, step, Outcome, next, outside, undefined, retire, run_inst,
  run_decoded,
}
use gonidbg.Arm64.System.{exec_system}
use gonidbg.Arm64.State.{IsCpu, IsInst}
use gonidbg.Arm64.State.Imm.{exec_imm-IsCpu}
use gonidbg.Arm64.State.Arith.{exec_arith-IsCpu}
use gonidbg.Arm64.State.Conditional.{exec_cond-IsCpu}
use gonidbg.Arm64.State.Sources.{exec_source-IsCpu}
use gonidbg.Arm64.State.Control.{exec_branch-IsCpu, exec_system-IsCpu}
use gonidbg.Arm64.Slots.{decode_dp_imm-IsInst}
use gonidbg.Arm64.Slots.Reg.{decode_dp_reg-IsInst}
use gonidbg.Arm64.Slots.Control.{decode_branch_sys-IsInst}

zero_inst-IsInst : IsInst zero_inst
zero_inst-IsInst = omega arith

-- Every 32-bit word outside the group of loads and stores and that of SIMD, where `decode` gives no
-- instruction, at an address within 64 bits, gives an instruction whose slots are registers that
-- exist, whose destination is not the zero register, and whose condition, shifts and immediates fit
-- their widths.
pub decode-IsInst :
    (raw pc : ℕ) (i : Inst)
    → raw < 2 ^ 32
    → pc < 2 ^ 64
    → is_ldst_group raw ≡ false
    → decode zero_inst raw pc ≡ some i
    → IsInst i
unfolding decode
decode-IsInst raw pc i small pc_fits outside_group e = ground (
  arith,
  decode_dp_imm-IsInst zero_inst-IsInst raw pc pc_fits,
  decode_branch_sys-IsInst zero_inst-IsInst raw pc small,
  decode_dp_reg-IsInst zero_inst-IsInst raw,
  zero_inst-IsInst,
)

-- A word of the group of loads and stores goes to the decoder of that group.
decode-decode_ldst :
    (raw pc : ℕ)
    → is_ldst_group raw ≡ true
    → decode zero_inst raw pc ≡ some (decode_ldst zero_inst raw pc)
unfolding decode
decode-decode_ldst raw pc h = ground (arith, h)

exec-IsCpu :
    {c : Cpu} {i : Inst}
    → IsCpu c
    → IsInst i
    → (op : Op) (c' : Cpu) → exec op c i ≡ some c'
    → IsCpu c'
unfolding exec
exec-IsCpu wf ok (of_imm op) c' e = subst IsCpu (some-injective _ _ e) (exec_imm-IsCpu wf ok op)
exec-IsCpu wf ok (of_arith op) c' e = subst IsCpu (some-injective _ _ e) (exec_arith-IsCpu wf ok op)
exec-IsCpu wf ok (of_cond op) c' e = subst IsCpu (some-injective _ _ e) (exec_cond-IsCpu wf ok op)
exec-IsCpu wf ok (of_source op) c' e =
    subst IsCpu (some-injective _ _ e) (exec_source-IsCpu wf ok op)
exec-IsCpu wf ok (of_branch op) c' e =
    subst IsCpu (some-injective _ _ e) (exec_branch-IsCpu wf ok op)
exec-IsCpu wf ok (of_system op) c' e =
    subst IsCpu (some-injective _ _ e) (exec_system-IsCpu wf ok op)
exec-IsCpu wf ok (of_trap op) c' e = cc
exec-IsCpu wf ok (of_ldst op) c' e = cc

-- What an outcome has to satisfy: the state that it goes on with, if it does, is well formed.
abbrev pub Keeps : Outcome → Type 0
Keeps (next c) = IsCpu c
Keeps (undefined pc raw) = Unit
Keeps outside = Unit

retire-Keeps : (o : Option Cpu) → ((c : Cpu) → o ≡ some c → IsCpu c) → Keeps (retire o)
retire-Keeps none h = tt
retire-Keeps (some c) h =
    let wf = h c refl in
    record {
      zero_register = wf.zero_register;
      registers = wf.registers;
      flags = wf.flags;
      pc_fits = wf.pc_fits;
      fpcr_fits = wf.fpcr_fits;
      fpsr_fits = wf.fpsr_fits;
      tpidr_fits = wf.tpidr_fits;
      tpidrro_fits = wf.tpidrro_fits;
      icount_fits = omega arith;
    }

run_inst-Keeps :
    {c : Cpu} (raw : ℕ) (i : Inst) (fn : Option Op)
    → IsCpu c
    → IsInst i
    → Keeps (run_inst c raw i fn)
run_inst-Keeps raw i none wf ok = tt
run_inst-Keeps raw i (some op) wf ok = retire-Keeps _ (exec-IsCpu wf ok op)

-- The no-op keeps the state whatever the operands are, and the registers-only model runs no load or
-- store.
run_memory-Keeps :
    {c : Cpu} (raw : ℕ) (i : Inst) (fn : Option Op)
    → IsCpu c
    → is_memory fn ≡ true
    → Keeps (run_inst c raw i fn)
run_memory-Keeps raw i none wf h = tt
run_memory-Keeps raw i (some (of_imm op)) wf h = cc
run_memory-Keeps raw i (some (of_arith op)) wf h = cc
run_memory-Keeps raw i (some (of_cond op)) wf h = cc
run_memory-Keeps raw i (some (of_source op)) wf h = cc
run_memory-Keeps raw i (some (of_branch op)) wf h = cc
run_memory-Keeps raw i (some (of_system nop)) wf h =
    unfold exec exec_system in
    run_inst-Keeps raw zero_inst (some (of_system nop)) wf zero_inst-IsInst
run_memory-Keeps raw i (some (of_system clrex)) wf h = cc
run_memory-Keeps raw i (some (of_system mov_imm2)) wf h = cc
run_memory-Keeps raw i (some (of_system mrs)) wf h = cc
run_memory-Keeps raw i (some (of_system msr)) wf h = cc
run_memory-Keeps raw i (some (of_trap op)) wf h = cc
run_memory-Keeps raw i (some (of_ldst op)) wf h = unfold exec in tt

run_decoded-Keeps :
    {c : Cpu} (raw : ℕ) (o : Option Inst)
    → IsCpu c
    → ((i : Inst) → o ≡ some i → IsInst i)
    → Keeps (run_decoded c raw o)
run_decoded-Keeps raw none wf h = tt
run_decoded-Keeps raw (some i) wf h = run_inst-Keeps raw i i.fn wf (h i refl)

-- Executing any 32-bit word on a well-formed register state leaves a well-formed one, if there
-- is a next state: the zero register still holds 0, the flags word holds nothing but the four
-- flags, and every register and the program counter fit in 64 bits. The outcome has no next
-- state where the word is undefined, a trap, a load or store, or of SIMD and floating point.
pub step-IsCpu : (c : Cpu) (raw : ℕ) → IsCpu c → raw < 2 ^ 32 → Keeps (step c raw)
unfolding step
step-IsCpu c raw wf small = elim (Bool-cases (is_ldst_group raw)) [
  | inl memory ↦
      subst (λ o. Keeps (run_decoded c raw o)) (sym (decode-decode_ldst raw c.pc memory))
        (run_memory-Keeps raw _ _ wf (ldst zero_inst refl raw c.pc))
  | inr other ↦
      run_decoded-Keeps raw (decode zero_inst raw c.pc) wf
        (λ i e. decode-IsInst raw c.pc i small wf.pc_fits other e)
]
