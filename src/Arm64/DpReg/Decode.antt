-- ===== src/Arm64/DpReg/Decode.antt =====
-- `decodeDPReg`, `decodeDP2` and `decodeDP1` of internal/arm64/dpreg.go.
use gonidbg.Base.{
  ℕ, ◌*◌, ◌/◌, ◌^◌, Bool, not, ◌&&◌, ◌||◌, some, bit_or, ltb, leb, ◌==◌, if◌then◌else◌, field,
}
use gonidbg.Arm64.Cpu.{xr, xsp, xw}
use gonidbg.Arm64.Inst.{
  Inst, of_arith, of_cond, of_source, pick4x2, pick, ArithOp, mov_reg64, mov_reg32, and_reg64,
  bic_reg64, orr_reg64, orn_reg64, eor_reg64, eon_reg64, ands_reg64, bics_reg64, and_reg32,
  bic_reg32, orr_reg32, orn_reg32, eor_reg32, eon_reg32, ands_reg32, bics_reg32, add_reg64,
  adds_reg64, sub_reg64, subs_reg64, add_reg32, adds_reg32, sub_reg32, subs_reg32, add_ext64,
  adds_ext64, sub_ext64, subs_ext64, add_ext32, adds_ext32, sub_ext32, subs_ext32, adc64, adcs64,
  sbc64, sbcs64, adc32, adcs32, sbc32, sbcs32, ccmn_reg64, ccmn_imm64, ccmp_reg64, ccmp_imm64,
  ccmn_reg32, ccmn_imm32, ccmp_reg32, ccmp_imm32, csel64, csinc64, csinv64, csneg64, csel32,
  csinc32, csinv32, csneg32, udiv64, udiv32, sdiv64, sdiv32, shift_v64, shift_v32, crc32, crc32c,
  rbit64, rbit32, rev64, rev32, rev32_64, rev16_64, rev16_32, clz64, clz32, cls64, cls32, madd64,
  madd32, msub64, msub32, smaddl, smsubl, umaddl, umsubl, umulh, smulh,
}

-- The three register fields in their usual slots.
abbrev pub with_regs : Inst → ℕ → Inst
with_regs i raw = record i {
  rd = xw (field raw 0 5);
  rn = xr (field raw 5 5);
  rm = xr (field raw 16 5);
}

-- `[8]func{…}[opc]` for the logical operations.
abbrev nth_logical : Bool → ℕ → ArithOp
nth_logical sf opc =
    if opc == 0
    then (if sf then and_reg64 else and_reg32)
    else if opc == 1
    then (if sf then bic_reg64 else bic_reg32)
    else if opc == 2
    then (if sf then orr_reg64 else orr_reg32)
    else if opc == 3
    then (if sf then orn_reg64 else orn_reg32)
    else if opc == 4
    then (if sf then eor_reg64 else eor_reg32)
    else if opc == 5
    then (if sf then eon_reg64 else eon_reg32)
    else if opc == 6
    then (if sf then ands_reg64 else ands_reg32)
    else (if sf then bics_reg64 else bics_reg32)

-- Logical (shifted register); MOV is ORR with XZR and no shift.
unfoldable pub decode_logical : Inst → ℕ → Bool → Inst
decode_logical i raw sf =
    let imm6 = field raw 10 6 in
    let opc = bit_or (field raw 29 2 * 2) (field raw 21 1) in
    let j = record (with_regs i raw) { sh = field raw 22 2; amt = imm6 } in
    if not sf && leb 32 imm6
    then i
    else if (opc == 2) && (field raw 5 5 == 31) && (imm6 == 0)
    then record j { fn = some (of_arith (if sf then mov_reg64 else mov_reg32)) }
    else record j { fn = some (of_arith (nth_logical sf opc)) }

-- Add/sub (shifted register)
unfoldable pub decode_add_shifted : Inst → ℕ → Bool → Inst
decode_add_shifted i raw sf =
    let sh = field raw 22 2 in
    let imm6 = field raw 10 6 in
    if (sh == 3) || (not sf && leb 32 imm6) then i else record (with_regs i raw) {
      sh = sh;
      amt = imm6;
      fn = some (
          of_arith (
            pick4x2 sf (field raw 29 2) add_reg64 adds_reg64 sub_reg64 subs_reg64 add_reg32
              adds_reg32 sub_reg32 subs_reg32));
    }

-- Add/sub (extended register)
unfoldable pub decode_add_extended : Inst → ℕ → Bool → Inst
decode_add_extended i raw sf =
    let imm3 = field raw 10 3 in
    if not (field raw 22 2 == 0) || ltb 4 imm3 then i else record i {
      rn = xsp (field raw 5 5);
      rm = xr (field raw 16 5);
      rd = if field raw 29 1 == 1 then xw (field raw 0 5) else xsp (field raw 0 5);
      sh = field raw 13 3;
      amt = imm3;
      fn = some (
          of_arith (
            pick4x2 sf (field raw 29 2) add_ext64 adds_ext64 sub_ext64 subs_ext64 add_ext32
              adds_ext32 sub_ext32 subs_ext32));
    }

-- ADC/ADCS/SBC/SBCS
unfoldable pub decode_carry : Inst → ℕ → Bool → Inst
decode_carry i raw sf = if not (field raw 10 6 == 0) then i else record (with_regs i raw) {
  fn =
      some (
        of_arith (pick4x2 sf (field raw 29 2) adc64 adcs64 sbc64 sbcs64 adc32 adcs32 sbc32 sbcs32));
}

-- CCMN/CCMP (register / immediate)
unfoldable pub decode_ccmp : Inst → ℕ → Bool → Inst
decode_ccmp i raw sf =
    let sel = bit_or (field raw 30 1 * 2) (field raw 11 1) in
    if not (field raw 29 1 == 1) || not (field raw 10 1 == 0) || not (field raw 4 1 == 0)
    then i
    else record i {
      rn = xr (field raw 5 5);
      cond = field raw 12 4;
      amt = field raw 0 4;
      rm = xr (field raw 16 5);
      imm = field raw 16 5;
      fn = some (
          of_cond (
            pick4x2 sf sel ccmn_reg64 ccmn_imm64 ccmp_reg64 ccmp_imm64 ccmn_reg32 ccmn_imm32
              ccmp_reg32 ccmp_imm32));
    }

-- CSEL/CSINC/CSINV/CSNEG
unfoldable pub decode_csel : Inst → ℕ → Bool → Inst
decode_csel i raw sf =
    let sel = bit_or (field raw 30 1 * 2) (field raw 10 1) in
    if not (field raw 29 1 == 0) || not (field raw 11 1 == 0) then i else record (with_regs i raw) {
      cond = field raw 12 4;
      fn =
          some (
            of_cond (pick4x2 sf sel csel64 csinc64 csinv64 csneg64 csel32 csinc32 csinv32 csneg32));
    }

unfoldable pub decode_dp2 : Inst → ℕ → Bool → Inst
decode_dp2 i raw sf =
    let op = field raw 10 6 in
    let sz = field op 0 2 in
    if op == 2
    then record i { fn = some (of_source (pick sf udiv64 udiv32)) }
    else if op == 3
    then record i { fn = some (of_source (pick sf sdiv64 sdiv32)) }
    else if leb 8 op && leb op 11
    then record i { sh = field op 0 2; fn = some (of_source (pick sf shift_v64 shift_v32)) }
    else if leb 16 op && leb op 23
    then (if (if sf then not (sz == 3) else (sz == 3)) then i else record i {
      sz = 2 ^ sz;
      fn = some (of_source (if field op 2 1 == 0 then crc32 else crc32c));
    })
    else i

unfoldable pub decode_dp1 : Inst → ℕ → Bool → Inst
decode_dp1 i raw sf =
    let op = field raw 10 6 in
    if not (field raw 16 5 == 0)
    then i
    else if op == 0
    then record i { fn = some (of_source (pick sf rbit64 rbit32)) }
    else if op == 1
    then record i { fn = some (of_source (pick sf rev16_64 rev16_32)) }
    else if op == 2
    then record i { fn = some (of_source (pick sf rev32_64 rev32)) }
    else if op == 3
    then (if sf then record i { fn = some (of_source rev64) } else i)
    else if op == 4
    then record i { fn = some (of_source (pick sf clz64 clz32)) }
    else if op == 5
    then record i { fn = some (of_source (pick sf cls64 cls32)) }
    else i

-- Data processing (3 source)
unfoldable pub decode_dp3 : Inst → ℕ → Bool → Inst
decode_dp3 i raw sf =
    let j = record (with_regs i raw) { ra = xr (field raw 10 5) } in
    let op = bit_or (field raw 21 3 * 2) (field raw 15 1) in
    if not (field raw 29 2 == 0)
    then i
    else if op == 0
    then record j { fn = some (of_source (pick sf madd64 madd32)) }
    else if op == 1
    then record j { fn = some (of_source (pick sf msub64 msub32)) }
    else if not sf
    then j
    else if op == 2
    then record j { fn = some (of_source smaddl) }
    else if op == 3
    then record j { fn = some (of_source smsubl) }
    else if op == 4
    then record j { fn = some (of_source smulh) }
    else if op == 10
    then record j { fn = some (of_source umaddl) }
    else if op == 11
    then record j { fn = some (of_source umsubl) }
    else if op == 12
    then record j { fn = some (of_source umulh) }
    else j

unfoldable pub decode_dp_reg : Inst → ℕ → Inst
decode_dp_reg i raw =
    let sf : Bool = raw / 2 ^ 31 == 1 in
    let op2 = field raw 21 4 in
    if field raw 28 1 == 0
    then (if field op2 3 1 == 0
        then decode_logical i raw sf
        else if field op2 0 1 == 0
        then decode_add_shifted i raw sf
        else decode_add_extended i raw sf)
    else if op2 == 0
    then decode_carry i raw sf
    else if op2 == 2
    then decode_ccmp i raw sf
    else if op2 == 4
    then decode_csel i raw sf
    else if op2 == 6
    then (if not (field raw 29 1 == 0)
        then with_regs i raw
        else if field raw 30 1 == 0
        then decode_dp2 (with_regs i raw) raw sf
        else decode_dp1 (with_regs i raw) raw sf)
    else if field op2 3 1 == 1
    then decode_dp3 i raw sf
    else i
