-- ===== src/Arm64/DpReg/Compare.antt =====
-- internal/arm64/dpreg.go and decode.go: CMP, that is SUBS, and the conditions that read its flags.
use gonidbg.Base.{◌^◌, ◌≤◌, ◌<◌, ◌≡◌, ◌↔◌, refl, true, signed64, signed32, ◌≤ℤ◌, ◌<ℤ◌, u32, arith}
use gonidbg.Arm64.Cpu.{Cpu}
use gonidbg.Arm64.Inst.{Inst, subs_reg64, subs_imm32}
use gonidbg.Arm64.Flags.{cond}
use gonidbg.Arm64.Flags.Compare.{cond-compared64, cond-compared32}
use gonidbg.Arm64.DpImm.{exec_imm}
use gonidbg.Arm64.DpReg.Operand.{sh_op64}
use gonidbg.Arm64.DpReg.Arith.{exec_arith}

-- After SUBS of two 64-bit registers, the second one shifted, both within 64 bits: the
-- conditions EQ, HS, HI, GE and GT hold exactly where the first operand is equal to the second,
-- at least it or above it as unsigned numbers, at least it or above it as signed numbers.
pub cond-exec_arith :
    (c : Cpu) (i : Inst)
    → c.r i.rn < 2 ^ 64
    → sh_op64 c i < 2 ^ 64
    → let after = exec_arith subs_reg64 c i in
      let a = c.r i.rn in
      let b = sh_op64 c i in
      ((cond after 0 ≡ true) ↔ (a ≡ b))
      × ((cond after 2 ≡ true) ↔ (b ≤ a))
      × ((cond after 8 ≡ true) ↔ (b < a))
      × ((cond after 10 ≡ true) ↔ (signed64 b ≤ℤ signed64 a))
      × ((cond after 12 ≡ true) ↔ (signed64 b <ℤ signed64 a))
unfolding exec_arith
cond-exec_arith c i ha hb =
    cond-compared64 (exec_arith subs_reg64 c i) (c.r i.rn) (sh_op64 c i) ha hb refl

-- After the 32-bit SUBS of a register and an immediate, EQ, HS, HI, GE and GT hold exactly where
-- the low word of the first is equal to that of the second, at least it or above it as unsigned
-- numbers, at least it or above it as signed numbers.
pub cond-exec_imm :
    (c : Cpu) (i : Inst)
    → let after = exec_imm subs_imm32 c i in
      let a = u32 (c.r i.rn) in
      let b = u32 i.imm in
      ((cond after 0 ≡ true) ↔ (a ≡ b))
      × ((cond after 2 ≡ true) ↔ (b ≤ a))
      × ((cond after 8 ≡ true) ↔ (b < a))
      × ((cond after 10 ≡ true) ↔ (signed32 b ≤ℤ signed32 a))
      × ((cond after 12 ≡ true) ↔ (signed32 b <ℤ signed32 a))
unfolding exec_imm
cond-exec_imm c i =
    cond-compared32 (exec_imm subs_imm32 c i) (u32 (c.r i.rn)) (u32 i.imm) (omega arith)
      (omega arith) refl
