-- ===== src/Arm64/State/Sources.antt =====
-- The one-, two- and three-source handlers of internal/arm64/dpreg.go and the register state.
use native.Mathlib.Nat.{div-le_self}
use gonidbg.Base.{
  ℕ, ◌-◌, ◌^◌, ◌≤◌, ◌<◌, arith, bit_and, bit_or, bit_xor, u32, shl64, shl32, shr, field,
}
use gonidbg.Base.Bits.{bit_and-lt, bit_or-lt}
use gonidbg.Arm64.Cpu.{Cpu}
use gonidbg.Arm64.Inst.{
  Inst, SourceOp, udiv64, udiv32, sdiv64, sdiv32, shift_v64, shift_v32, crc32, crc32c, rbit64,
  rbit32, rev64, rev32, rev32_64, rev16_64, rev16_32, clz64, clz32, cls64, cls32, madd64, madd32,
  msub64, msub32, smaddl, smsubl, umaddl, umsubl, umulh, smulh,
}
use gonidbg.Arm64.Words.{
  leading_zeros64, leading_zeros32, reverse64, reverse32, reverse_bytes64, reverse_bytes32,
}
use gonidbg.Arm64.Words.Laws.{shr-le, reverse_digits-lt}
use gonidbg.Arm64.DpReg.Crc.{crc_update, op_crc32, op_crc32c}
use gonidbg.Arm64.DpReg.Sources.{exec_source, mul_high}
use gonidbg.Arm64.State.{IsCpu, IsInst, put-IsCpu}
use gonidbg.Arm64.State.Arith.{shift64-lt, shift32-lt}

crc_update-lt : (poly acc v n : ℕ) → crc_update poly acc v n < 2 ^ 32
unfolding crc_update
crc_update-lt poly acc v n = omega arith

leading_zeros64-le : (x : ℕ) → leading_zeros64 x ≤ 64
unfolding leading_zeros64
leading_zeros64-le x = omega arith

leading_zeros32-le : (x : ℕ) → leading_zeros32 x ≤ 32
unfolding leading_zeros32
leading_zeros32-le x = omega arith

pub reverse64-lt : (x : ℕ) → reverse64 x < 2 ^ 64
unfolding reverse64
reverse64-lt x = reverse_digits-lt 1 64 x

pub reverse32-lt : (x : ℕ) → reverse32 x < 2 ^ 32
unfolding reverse32
reverse32-lt x = reverse_digits-lt 1 32 x

pub reverse_bytes64-lt : (x : ℕ) → reverse_bytes64 x < 2 ^ 64
unfolding reverse_bytes64
reverse_bytes64-lt x = reverse_digits-lt 8 8 x

pub reverse_bytes32-lt : (x : ℕ) → reverse_bytes32 x < 2 ^ 32
unfolding reverse_bytes32
reverse_bytes32-lt x = reverse_digits-lt 8 4 x

-- Two words shifted past one another.
swapped-lt : (v s : ℕ) → v < 2 ^ 64 → bit_or (shl64 v s) (shr v s) < 2 ^ 64
swapped-lt v s h = bit_or-lt 64 _ _ (omega arith) (omega (arith, shr-le v s))

masked-lt :
    (v m : ℕ)
    → v < 2 ^ 64
    → m < 2 ^ 64
    → bit_or (shl64 (bit_and v m) 8) (bit_and (shr v 8) m) < 2 ^ 64
masked-lt v m h hm =
    bit_or-lt 64 _ _ (omega arith) (bit_and-lt 64 _ _ (omega (arith, shr-le v 8)) hm)

masked32-lt :
    (v m : ℕ)
    → v < 2 ^ 32
    → m < 2 ^ 32
    → bit_or (shl32 (bit_and v m) 8) (bit_and (shr v 8) m) < 2 ^ 32
masked32-lt v m h hm =
    bit_or-lt 32 _ _ (omega arith) (bit_and-lt 32 _ _ (omega (arith, shr-le v 8)) hm)

module _ {c : Cpu} {i : Inst} (wf : IsCpu c) (ok : IsInst i) where
  rn64 : c.r i.rn < 2 ^ 64
  rn64 = wf.registers i.rn

  rm64 : c.r i.rm < 2 ^ 64
  rm64 = wf.registers i.rm

  high_lt : mul_high (c.r i.rn) (c.r i.rm) < 2 ^ 64
  high_lt = grind (arith, rn64, rm64)

  pub exec_source-IsCpu : (op : SourceOp) → IsCpu (exec_source op c i)
  unfolding exec_source
  exec_source-IsCpu udiv64 =
      put-IsCpu wf ok _ (ground (arith, rn64, div-le_self (c.r i.rn) (c.r i.rm)))
  exec_source-IsCpu udiv32 =
      put-IsCpu wf ok _ (ground (arith, div-le_self (u32 (c.r i.rn)) (u32 (c.r i.rm))))
  exec_source-IsCpu sdiv64 = put-IsCpu wf ok _ (ground arith)
  exec_source-IsCpu sdiv32 = put-IsCpu wf ok _ (ground arith)
  exec_source-IsCpu shift_v64 =
      put-IsCpu wf ok _ (shift64-lt i.sh (c.r i.rn) (field (c.r i.rm) 0 6) rn64)
  exec_source-IsCpu shift_v32 =
      put-IsCpu wf ok _
        (omega (arith, shift32-lt i.sh (u32 (c.r i.rn)) (field (c.r i.rm) 0 5) (omega arith)))
  exec_source-IsCpu crc32 = unfold op_crc32 in put-IsCpu wf ok _ (omega (arith, crc_update-lt))
  exec_source-IsCpu crc32c = unfold op_crc32c in put-IsCpu wf ok _ (omega (arith, crc_update-lt))
  exec_source-IsCpu rbit64 = put-IsCpu wf ok _ (reverse64-lt _)
  exec_source-IsCpu rbit32 = put-IsCpu wf ok _ (omega (arith, reverse32-lt (u32 (c.r i.rn))))
  exec_source-IsCpu rev64 = put-IsCpu wf ok _ (reverse_bytes64-lt _)
  exec_source-IsCpu rev32 = put-IsCpu wf ok _ (omega (arith, reverse_bytes32-lt (u32 (c.r i.rn))))
  exec_source-IsCpu rev32_64 = put-IsCpu wf ok _ (swapped-lt _ 32 (reverse_bytes64-lt _))
  exec_source-IsCpu rev16_64 = put-IsCpu wf ok _ (masked-lt _ _ rn64 (omega arith))
  exec_source-IsCpu rev16_32 =
      put-IsCpu wf ok _
        (omega (arith, masked32-lt (u32 (c.r i.rn)) 0x00ff_00ff (omega arith) (omega arith)))
  exec_source-IsCpu clz64 = put-IsCpu wf ok _ (omega (arith, leading_zeros64-le (c.r i.rn)))
  exec_source-IsCpu clz32 = put-IsCpu wf ok _ (omega (arith, leading_zeros32-le (u32 (c.r i.rn))))
  exec_source-IsCpu cls64 = put-IsCpu wf ok _ (
      omega
        (arith, leading_zeros64-le (bit_and (bit_xor (c.r i.rn) (shr (c.r i.rn) 1)) (2 ^ 63 - 1))))
  exec_source-IsCpu cls32 = put-IsCpu wf ok _ (
      omega (
        arith,
        leading_zeros32-le
            (bit_and (bit_xor (u32 (c.r i.rn)) (shr (u32 (c.r i.rn)) 1)) (2 ^ 31 - 1)),
      ))
  exec_source-IsCpu madd64 = put-IsCpu wf ok _ (omega arith)
  exec_source-IsCpu madd32 = put-IsCpu wf ok _ (omega arith)
  exec_source-IsCpu msub64 = put-IsCpu wf ok _ (omega arith)
  exec_source-IsCpu msub32 = put-IsCpu wf ok _ (omega arith)
  exec_source-IsCpu smaddl = put-IsCpu wf ok _ (omega arith)
  exec_source-IsCpu smsubl = put-IsCpu wf ok _ (omega arith)
  exec_source-IsCpu umaddl = put-IsCpu wf ok _ (omega arith)
  exec_source-IsCpu umsubl = put-IsCpu wf ok _ (omega arith)
  exec_source-IsCpu umulh = put-IsCpu wf ok _ high_lt
  exec_source-IsCpu smulh = put-IsCpu wf ok _ (omega arith)
