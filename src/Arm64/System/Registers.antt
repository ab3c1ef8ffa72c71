-- ===== src/Arm64/System/Registers.antt =====
-- MRS and MSR of internal/arm64/decode.go: what a saved register restores.
use gonidbg.Base.{ℕ, ◌/◌, ◌%◌, ◌^◌, ◌≡◌, ap, ◌∙◌, arith, bit_and, u32}
use gonidbg.Base.Bits.{bit_and_mask, bit_and-div, bit_and-mod, bit_and-zero}
use gonidbg.Arm64.Cpu.{Cpu}
use gonidbg.Arm64.Inst.{Inst, mrs, msr}
use gonidbg.Arm64.State.{IsCpu, IsFlags}
use gonidbg.Arm64.System.{exec_system, reg_nzcv, sysreg}

flags_mask : (f : ℕ) → IsFlags f → bit_and (u32 f) 0xf000_0000 ≡ f
flags_mask f (small, low) = omega (
  arith,
  bit_and-div 28 (u32 f) 0xf000_0000,
  bit_and-mod 28 (u32 f) 0xf000_0000,
  bit_and_mask 4 (u32 f / 2 ^ 28),
  bit_and-zero (u32 f % 2 ^ 28),
)

mrs-flags : (c : Cpu) (i : Inst) → i.imm ≡ reg_nzcv → (exec_system mrs c i).r i.rd ≡ c.nzcv
unfolding exec_system reg_nzcv sysreg
mrs-flags c i e = rw e (ground arith)

msr-flags :
    (c : Cpu) (i : Inst)
    → i.imm ≡ reg_nzcv
    → (exec_system msr c i).nzcv ≡ bit_and (u32 (c.r i.rn)) 0xf000_0000
unfolding exec_system reg_nzcv sysreg
msr-flags c i e = rw e (ground arith)

-- MRS of the flags of a well-formed register state into a register, then MSR of a register that
-- holds that value, at any later state: the flags are again what they were at the first one.
pub msr-mrs :
    (c later : Cpu) (i j : Inst)
    → IsCpu c
    → i.imm ≡ reg_nzcv
    → j.imm ≡ reg_nzcv
    → later.r j.rn ≡ (exec_system mrs c i).r i.rd
    → (exec_system msr later j).nzcv ≡ c.nzcv
msr-mrs c later i j wf ei ej same =
    msr-flags later j ej
    ∙ ap (λ v. bit_and (u32 v) 0xf000_0000) (same ∙ mrs-flags c i ei)
    ∙ flags_mask c.nzcv wf.flags
