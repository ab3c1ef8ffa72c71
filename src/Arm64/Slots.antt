-- ===== src/Arm64/Slots.antt =====
-- The register slots and operands that the decoder of internal/arm64 yields for immediates.
pub mod Reg
pub mod Control
use gonidbg.Base.{
  ℕ, ◌+◌, ◌-◌, ◌*◌, ◌/◌, ◌%◌, ◌^◌, ◌≤◌, ◌<◌, ◌≡◌, ◌≢◌, refl, arith, Bool, true, false, Option, none,
  some, Option-cases, inl, inr, bit_and, bit_or, field, add64, not64, if◌then◌else◌, ◌==◌, max,
}
use gonidbg.Base.Bits.{bit_and-lt, bit_or-lt}
use gonidbg.Arm64.Cpu.{xr, xsp, xw}
use gonidbg.Arm64.Inst.{Inst, pick4x2}
use gonidbg.Arm64.State.{IsInst}
use gonidbg.Arm64.Words.{sext}
use gonidbg.Arm64.Words.Laws.{sext-lt}
use gonidbg.Arm64.BitMasks.{Masks, decode_bit_masks}
use gonidbg.Arm64.BitMasks.Bounds.{decode_bit_masks-lt}
use gonidbg.Arm64.DpImm.Decode.{
  if_masks, decode_adr, decode_add_imm, decode_logic_imm, decode_move_wide, decode_bitfield,
  decode_extr, decode_dp_imm,
}

-- The slot helpers: a read is below 33, and no write goes to the zero register.
pub xr-slot : (n : ℕ) → xr n ≤ 31
unfolding xr
xr-slot n = omega arith

pub xsp-slot : (n : ℕ) → (xsp n ≤ 32) × (xsp n ≢ 31)
unfolding xsp
xsp-slot n = ground arith

pub xw-slot : (n : ℕ) → (xw n ≤ 33) × (xw n ≢ 31)
unfolding xw
xw-slot n = ground arith

-- Both branches of a test.
pub split_if : {a b : Inst} (t : Bool) → IsInst a → IsInst b → IsInst (if t then a else b)
split_if true ha hb = ha
split_if false ha hb = hb

if_masks-IsInst :
    {i : Inst}
    → IsInst i
    → (o : Option Masks) (next : Masks → Inst) → ((m : Masks) → o ≡ some m → IsInst (next m))
    → IsInst (if_masks o i next)
unfolding if_masks
if_masks-IsInst ok none next h = ok
if_masks-IsInst ok (some m) next h = h m refl

module _ {i : Inst} (ok : IsInst i) (raw pc : ℕ) (pc_fits : pc < 2 ^ 64) where
  decode_adr-IsInst : IsInst (decode_adr i raw pc)
  unfolding decode_adr
  decode_adr-IsInst = ground (arith, xw-slot (field raw 0 5), bit_and-lt 64 pc (not64 0xfff))

  decode_add_imm-IsInst : IsInst (decode_add_imm i raw)
  unfolding decode_add_imm
  decode_add_imm-IsInst =
      ground (arith, xw-slot (field raw 0 5), xsp-slot (field raw 0 5), xsp-slot (field raw 5 5))

  decode_logic_imm-IsInst : IsInst (decode_logic_imm i raw)
  unfolding decode_logic_imm
  decode_logic_imm-IsInst = split_if _ ok (
      if_masks-IsInst ok _ _ λ m e.
        let (w, t) = decode_bit_masks-lt _ _ _ _ _ m e in
        ground (arith, xw-slot (field raw 0 5), xsp-slot (field raw 0 5), xr-slot (field raw 5 5)))

  decode_bitfield-IsInst : IsInst (decode_bitfield i raw)
  unfolding decode_bitfield
  decode_bitfield-IsInst = split_if _ ok (
      split_if _ ok (
        if_masks-IsInst ok _ _ λ m e.
          let (w, t) = decode_bit_masks-lt _ _ _ _ _ m e in
          ground
            (arith, xw-slot (field raw 0 5), xr-slot (field raw 0 5), xr-slot (field raw 5 5))))

  decode_move_wide-IsInst : IsInst (decode_move_wide i raw)
  unfolding decode_move_wide
  decode_move_wide-IsInst = ground (arith, xw-slot (field raw 0 5), xr-slot (field raw 0 5))

  decode_extr-IsInst : IsInst (decode_extr i raw)
  unfolding decode_extr
  decode_extr-IsInst =
      ground (arith, xw-slot (field raw 0 5), xr-slot (field raw 5 5), xr-slot (field raw 16 5))

  -- From an instruction record whose fields fit, every word decodes as a data-processing immediate
  -- to one whose fields fit: no destination is the zero register, and masks and shift counts are in
  -- range. That holds of encodings that are refused, too.
  pub decode_dp_imm-IsInst : IsInst (decode_dp_imm i raw pc)
  unfolding decode_dp_imm
  decode_dp_imm-IsInst = split_if _ decode_adr-IsInst (
      split_if _ decode_add_imm-IsInst (
        split_if _ decode_logic_imm-IsInst (
          split_if _ decode_move_wide-IsInst
            (split_if _ decode_bitfield-IsInst (split_if _ decode_extr-IsInst ok)))))
