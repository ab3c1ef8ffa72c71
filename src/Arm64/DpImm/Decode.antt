-- ===== src/Arm64/DpImm/Decode.antt =====
-- `decodeDPImm` of internal/arm64/decode.go. An early return leaves the fields that are set by
-- then, with `fn` as it was.
use gonidbg.Base.{
  ℕ, ◌*◌, ◌/◌, ◌^◌, Bool, true, false, not, ◌&&◌, ◌||◌, Option, none, some, bit_and, bit_or, ltb,
  leb, ◌==◌, if◌then◌else◌, add64, not64, shl64, u32, field,
}
use gonidbg.Arm64.Cpu.{xr, xsp, xw}
use gonidbg.Arm64.Words.{sext}
use gonidbg.Arm64.BitMasks.{Masks, decode_bit_masks}
use gonidbg.Arm64.Inst.{
  Inst, of_imm, pick4x2, mov_imm, add_imm64, adds_imm64, sub_imm64, subs_imm64, add_imm32,
  adds_imm32, sub_imm32, subs_imm32, and_imm64, orr_imm64, eor_imm64, ands_imm64, and_imm32,
  orr_imm32, eor_imm32, ands_imm32, movk64, movk32, sbfm64, bfm64, ubfm64, sbfm32, bfm32, ubfm32,
  extr64, extr32,
}

abbrev is_sf : ℕ → Bool
is_sf raw = shr31 == 1
  where
    shr31 : ℕ
    shr31 = raw / 2 ^ 31

abbrev rd : ℕ → ℕ
rd raw = field raw 0 5

abbrev rn : ℕ → ℕ
rn raw = field raw 5 5

-- `if !ok { return }`, and what follows.
unfoldable pub if_masks : Option Masks → Inst → (Masks → Inst) → Inst
if_masks none i next = i
if_masks (some m) i next = next m

-- ADR, ADRP. `pc &^ 0xfff` clears the low twelve bits.
unfoldable pub decode_adr : Inst → ℕ → ℕ → Inst
decode_adr i raw pc =
    let imm = sext (bit_or (field raw 5 19 * 2 ^ 2) (field raw 29 2)) 21 in
    record i {
      rd = xw (rd raw);
      imm =
          if raw / 2 ^ 31 == 0
          then add64 pc imm
          else add64 (bit_and pc (not64 0xfff)) (shl64 imm 12);
      fn = some (of_imm mov_imm);
    }

-- ADD/ADDS/SUB/SUBS (immediate)
unfoldable pub decode_add_imm : Inst → ℕ → Inst
decode_add_imm i raw =
    let imm = field raw 10 12 in
    record i {
      imm = if field raw 22 1 == 1 then shl64 imm 12 else imm;
      rn = xsp (rn raw);
      rd = if field raw 29 1 == 1 then xw (rd raw) else xsp (rd raw);
      fn = some (
          of_imm (
            pick4x2 (is_sf raw) (field raw 29 2) add_imm64 adds_imm64 sub_imm64 subs_imm64 add_imm32
              adds_imm32 sub_imm32 subs_imm32));
    }

-- AND/ORR/EOR/ANDS (immediate)
unfoldable pub decode_logic_imm : Inst → ℕ → Inst
decode_logic_imm i raw =
    let n = field raw 22 1 in
    let sf = is_sf raw in
    let size : ℕ = if sf then 64 else 32 in
    let opc = field raw 29 2 in
    if not sf && (n == 1)
    then i
    else if_masks (decode_bit_masks n (field raw 10 6) (field raw 16 6) true size) i (λ m.
      record i {
        imm = m.wmask;
        rn = xr (rn raw);
        rd = if opc == 3 then xw (rd raw) else xsp (rd raw);
        fn = some (
            of_imm (
              pick4x2 sf opc and_imm64 orr_imm64 eor_imm64 ands_imm64 and_imm32 orr_imm32 eor_imm32
                ands_imm32));
      })

-- MOVN/MOVZ/MOVK
unfoldable pub decode_move_wide : Inst → ℕ → Inst
decode_move_wide i raw =
    let sf = is_sf raw in
    let opc = field raw 29 2 in
    let hw = field raw 21 2 in
    let shift = hw * 16 in
    let imm = shl64 (field raw 5 16) shift in
    let dst = record i { rd = xw (rd raw) } in
    if (opc == 1) || (not sf && leb 2 hw)
    then i
    else if opc == 0
    then record dst { imm = if sf then not64 imm else u32 (not64 imm); fn = some (of_imm mov_imm) }
    else if opc == 2
    then record dst { imm = imm; fn = some (of_imm mov_imm) }
    else if opc == 3
    then record dst {
      rn = xr (rd raw);
      imm = imm;
      imm2 = not64 (shl64 0xffff shift);
      fn = some (of_imm (if sf then movk64 else movk32));
    }
    else dst

-- SBFM/BFM/UBFM
unfoldable pub decode_bitfield : Inst → ℕ → Inst
decode_bitfield i raw =
    let sf = is_sf raw in
    let opc = field raw 29 2 in
    let n = field raw 22 1 in
    let immr = field raw 16 6 in
    let imms = field raw 10 6 in
    let size : ℕ = if sf then 64 else 32 in
    if not sf && (leb 32 immr || leb 32 imms)
    then i
    else if (opc == 3) || (sf && (n == 0)) || (not sf && (n == 1))
    then i
    else if_masks (decode_bit_masks n imms immr false size) i (λ m. record i {
      rd = xw (rd raw);
      rn = xr (rn raw);
      imm = m.wmask;
      imm2 = m.tmask;
      amt = immr;
      sh = imms;
      ra = if opc == 1 then xr (rd raw) else i.ra;
      fn =
          pick4x2 sf opc (some (of_imm sbfm64)) (some (of_imm bfm64)) (some (of_imm ubfm64)) none
            (some (of_imm sbfm32)) (some (of_imm bfm32)) (some (of_imm ubfm32)) none;
    })

-- EXTR
unfoldable pub decode_extr : Inst → ℕ → Inst
decode_extr i raw =
    let sf = is_sf raw in
    let n = field raw 22 1 in
    let imms = field raw 10 6 in
    if not (field raw 29 2 == 0) || not (field raw 21 1 == 0)
    then i
    else if (sf && (n == 0)) || (not sf && ((n == 1) || leb 32 imms))
    then i
    else record i {
      rd = xw (rd raw);
      rn = xr (rn raw);
      rm = xr (field raw 16 5);
      amt = imms;
      fn = some (of_imm (if sf then extr64 else extr32));
    }

unfoldable pub decode_dp_imm : Inst → ℕ → ℕ → Inst
unfolding if_masks decode_adr decode_add_imm decode_logic_imm decode_move_wide decode_bitfield
    decode_extr
decode_dp_imm i raw pc =
    let op = field raw 23 3 in
    if ltb op 2
    then decode_adr i raw pc
    else if op == 2
    then decode_add_imm i raw
    else if op == 4
    then decode_logic_imm i raw
    else if op == 5
    then decode_move_wide i raw
    else if op == 6
    then decode_bitfield i raw
    else if op == 7
    then decode_extr i raw
    else i
