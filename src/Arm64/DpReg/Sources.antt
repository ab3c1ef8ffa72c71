-- ===== src/Arm64/DpReg/Sources.antt =====
-- Handlers of internal/arm64/dpreg.go with one, two and three sources.
use gonidbg.Base.{
  ℕ, ◌-◌, ◌*◌, ◌/◌, ◌%◌, ◌^◌, bit_and, bit_or, bit_xor, ltb, ◌==◌, if◌then◌else◌, add64, sub64,
  add32, sub32, u32, u64, shl64, shl32, shr, sar64, field,
}
use gonidbg.Arm64.Cpu.{Cpu}
use gonidbg.Arm64.Words.{
  leading_zeros64, leading_zeros32, reverse64, reverse32, reverse_bytes64, reverse_bytes32,
}
use gonidbg.Arm64.Inst.{
  Inst, SourceOp, udiv64, udiv32, sdiv64, sdiv32, shift_v64, shift_v32, crc32, crc32c, rbit64,
  rbit32, rev64, rev32, rev32_64, rev16_64, rev16_32, clz64, clz32, cls64, cls32, madd64, madd32,
  msub64, msub32, smaddl, smsubl, umaddl, umsubl, umulh, smulh,
}
use gonidbg.Arm64.DpImm.{put}
use gonidbg.Arm64.DpReg.Operand.{shift64, shift32, sign_extend}
use gonidbg.Arm64.DpReg.Crc.{op_crc32, op_crc32c}

-- The sign and the magnitude of a `w`-bit word read as a signed number.
abbrev pub is_negative : ℕ → ℕ → ℕ
is_negative w a = if ltb a (2 ^ (w - 1)) then 0 else 1

abbrev pub magnitude : ℕ → ℕ → ℕ
magnitude w a = if ltb a (2 ^ (w - 1)) then a else 2 ^ w - a

-- The high half of `bits.Mul64`.
abbrev pub mul_high : ℕ → ℕ → ℕ
mul_high a b = a * b / 2 ^ 64

op_udiv64 : Cpu → Inst → Cpu
op_udiv64 c i = let d = c.r i.rm in put c i (if d == 0 then 0 else c.r i.rn / d)

op_udiv32 : Cpu → Inst → Cpu
op_udiv32 c i = let d = u32 (c.r i.rm) in put c i (if d == 0 then 0 else u32 (c.r i.rn) / d)

-- `uint64(int64(a) / int64(b))`: the quotient of the magnitudes, negated if the signs differ.
-- The least number over -1 wraps.
abbrev pub div_signed : ℕ → ℕ → ℕ → ℕ
div_signed w a b =
    let q = magnitude w a / magnitude w b in
    if is_negative w a == is_negative w b then q % 2 ^ w else (2 ^ w - q) % 2 ^ w

op_sdiv64 : Cpu → Inst → Cpu
op_sdiv64 c i = let d = c.r i.rm in put c i (if d == 0 then 0 else div_signed 64 (c.r i.rn) d)

op_sdiv32 : Cpu → Inst → Cpu
op_sdiv32 c i =
    let d = u32 (c.r i.rm) in put c i (if d == 0 then 0 else div_signed 32 (u32 (c.r i.rn)) d)

-- `sh` selects the type of shift.
op_shift_v64 : Cpu → Inst → Cpu
op_shift_v64 c i = put c i (shift64 i.sh (c.r i.rn) (field (c.r i.rm) 0 6))

op_shift_v32 : Cpu → Inst → Cpu
op_shift_v32 c i = put c i (shift32 i.sh (u32 (c.r i.rn)) (field (c.r i.rm) 0 5))

op_rbit64 : Cpu → Inst → Cpu
op_rbit64 c i = put c i (reverse64 (c.r i.rn))

op_rbit32 : Cpu → Inst → Cpu
op_rbit32 c i = put c i (reverse32 (u32 (c.r i.rn)))

op_rev64 : Cpu → Inst → Cpu
op_rev64 c i = put c i (reverse_bytes64 (c.r i.rn))

op_rev32 : Cpu → Inst → Cpu
op_rev32 c i = put c i (reverse_bytes32 (u32 (c.r i.rn)))

-- Bytes reversed within each word.
op_rev32_64 : Cpu → Inst → Cpu
op_rev32_64 c i = let v = reverse_bytes64 (c.r i.rn) in put c i (bit_or (shl64 v 32) (shr v 32))

op_rev16_64 : Cpu → Inst → Cpu
op_rev16_64 c i =
    let v = c.r i.rn in
    put c i
      (bit_or (shl64 (bit_and v 0x00ff_00ff_00ff_00ff) 8) (bit_and (shr v 8) 0x00ff_00ff_00ff_00ff))

op_rev16_32 : Cpu → Inst → Cpu
op_rev16_32 c i =
    let v = u32 (c.r i.rn) in
    put c i (bit_or (shl32 (bit_and v 0x00ff_00ff) 8) (bit_and (shr v 8) 0x00ff_00ff))

op_clz64 : Cpu → Inst → Cpu
op_clz64 c i = put c i (leading_zeros64 (c.r i.rn))

op_clz32 : Cpu → Inst → Cpu
op_clz32 c i = put c i (leading_zeros32 (u32 (c.r i.rn)))

-- The mask clears the top bit, so there is a leading zero to take away.
op_cls64 : Cpu → Inst → Cpu
op_cls64 c i =
    let v = c.r i.rn in put c i (leading_zeros64 (bit_and (bit_xor v (shr v 1)) (2 ^ 63 - 1)) - 1)

op_cls32 : Cpu → Inst → Cpu
op_cls32 c i =
    let v = u32 (c.r i.rn) in
    put c i (leading_zeros32 (bit_and (bit_xor v (shr v 1)) (2 ^ 31 - 1)) - 1)

op_madd64 : Cpu → Inst → Cpu
op_madd64 c i = put c i (add64 (c.r i.ra) (u64 (c.r i.rn * c.r i.rm)))

op_msub64 : Cpu → Inst → Cpu
op_msub64 c i = put c i (sub64 (c.r i.ra) (u64 (c.r i.rn * c.r i.rm)))

op_madd32 : Cpu → Inst → Cpu
op_madd32 c i = put c i (add32 (u32 (c.r i.ra)) (u32 (u32 (c.r i.rn) * u32 (c.r i.rm))))

op_msub32 : Cpu → Inst → Cpu
op_msub32 c i = put c i (sub32 (u32 (c.r i.ra)) (u32 (u32 (c.r i.rn) * u32 (c.r i.rm))))

-- `int64` products are modulo 2^64, like those of their bit patterns.
op_smaddl : Cpu → Inst → Cpu
op_smaddl c i =
    put c i (add64 (c.r i.ra) (u64 (sign_extend 32 (c.r i.rn) * sign_extend 32 (c.r i.rm))))

op_smsubl : Cpu → Inst → Cpu
op_smsubl c i =
    put c i (sub64 (c.r i.ra) (u64 (sign_extend 32 (c.r i.rn) * sign_extend 32 (c.r i.rm))))

op_umaddl : Cpu → Inst → Cpu
op_umaddl c i = put c i (add64 (c.r i.ra) (u64 (u32 (c.r i.rn) * u32 (c.r i.rm))))

op_umsubl : Cpu → Inst → Cpu
op_umsubl c i = put c i (sub64 (c.r i.ra) (u64 (u32 (c.r i.rn) * u32 (c.r i.rm))))

op_umulh : Cpu → Inst → Cpu
op_umulh c i = put c i (mul_high (c.r i.rn) (c.r i.rm))

op_smulh : Cpu → Inst → Cpu
op_smulh c i =
    let a = c.r i.rn in
    let b = c.r i.rm in
    put c i (sub64 (sub64 (mul_high a b) (bit_and b (sar64 a 63))) (bit_and a (sar64 b 63)))

-- `in.fn(c, in)` for the handlers of this file.
unfoldable pub exec_source : SourceOp → Cpu → Inst → Cpu
unfolding op_udiv64 op_udiv32 op_sdiv64 op_sdiv32 op_shift_v64 op_shift_v32 op_crc32 op_crc32c
    op_rbit64 op_rbit32 op_rev64 op_rev32 op_rev32_64 op_rev16_64 op_rev16_32 op_clz64 op_clz32
    op_cls64 op_cls32 op_madd64 op_madd32 op_msub64 op_msub32 op_smaddl op_smsubl op_umaddl
    op_umsubl op_umulh op_smulh
exec_source udiv64 c i = op_udiv64 c i
exec_source udiv32 c i = op_udiv32 c i
exec_source sdiv64 c i = op_sdiv64 c i
exec_source sdiv32 c i = op_sdiv32 c i
exec_source shift_v64 c i = op_shift_v64 c i
exec_source shift_v32 c i = op_shift_v32 c i
exec_source crc32 c i = op_crc32 c i
exec_source crc32c c i = op_crc32c c i
exec_source rbit64 c i = op_rbit64 c i
exec_source rbit32 c i = op_rbit32 c i
exec_source rev64 c i = op_rev64 c i
exec_source rev32 c i = op_rev32 c i
exec_source rev32_64 c i = op_rev32_64 c i
exec_source rev16_64 c i = op_rev16_64 c i
exec_source rev16_32 c i = op_rev16_32 c i
exec_source clz64 c i = op_clz64 c i
exec_source clz32 c i = op_clz32 c i
exec_source cls64 c i = op_cls64 c i
exec_source cls32 c i = op_cls32 c i
exec_source madd64 c i = op_madd64 c i
exec_source madd32 c i = op_madd32 c i
exec_source msub64 c i = op_msub64 c i
exec_source msub32 c i = op_msub32 c i
exec_source smaddl c i = op_smaddl c i
exec_source smsubl c i = op_smsubl c i
exec_source umaddl c i = op_umaddl c i
exec_source umsubl c i = op_umsubl c i
exec_source umulh c i = op_umulh c i
exec_source smulh c i = op_smulh c i
