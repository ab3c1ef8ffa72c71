-- ===== src/Arm64/Branch/Targets.antt =====
-- Where the branches of internal/arm64/decode.go go.
use gonidbg.Base.{
  ℕ, ◌+◌, ◌-◌, ◌*◌, ◌/◌, ◌%◌, ◌^◌, ◌≤◌, ◌<◌, ◌≡◌, refl, ap, ◌∙◌, arith, ltb, if◌then◌else◌, field,
  bit_and, some,
}
use gonidbg.Base.Bits.{bit_and-div, bit_and-mod, bit_and-zero}
use gonidbg.Arm64.Cpu.{Cpu}
use gonidbg.Arm64.Inst.{Inst, of_branch, b_always, zero_inst}
use gonidbg.Arm64.Words.{sext}
use gonidbg.Arm64.Branch.{
  decode_b, decode_cbz, decode_tbz, decode_b_cond, decode_branch_sys, exec_branch,
}

-- `pc` moved by an offset of `w` bits, a count of instructions that is signed.
abbrev pub displaced : ℕ → ℕ → ℕ → ℕ
displaced w pc off =
    if ltb off (2 ^ (w - 1))
    then (pc + 4 * off) % 2 ^ 64
    else (pc + 2 ^ 64 - 4 * (2 ^ w - off)) % 2 ^ 64

-- At an address within 64 bits, the immediate of B and BL, CBZ and CBNZ, TBZ and TBNZ, and B.cond
-- is the address of the instruction plus four times the offset field, read as a signed number of
-- 26, 19, 14 and 19 bits, modulo 2^64.
pub decode_branch-displaced :
    (i : Inst) (raw pc : ℕ)
    → pc < 2 ^ 64
    → ((decode_b i raw pc).imm ≡ displaced 26 pc (field raw 0 26))
      × ((decode_cbz i raw pc).imm ≡ displaced 19 pc (field raw 5 19))
      × ((decode_tbz i raw pc).imm ≡ displaced 14 pc (field raw 5 14))
      × ((decode_b_cond i raw pc).imm ≡ displaced 19 pc (field raw 5 19))
unfolding decode_b decode_cbz decode_tbz decode_b_cond sext
decode_branch-displaced i raw pc h = (ground arith, ground arith, ground arith, ground arith)

-- The word that an assembler writes for B from `pc` to `target`.
abbrev pub b_word : ℕ → ℕ → ℕ
b_word pc target = 0x1400_0000 + (target + 2 ^ 64 - pc) / 4 % 2 ^ 26

group_bits : (off : ℕ) → off < 2 ^ 26 → bit_and (0x1400_0000 + off) 0x7c00_0000 ≡ 0x1400_0000
group_bits off h = omega (
  arith,
  bit_and-div 26 (0x1400_0000 + off) 0x7c00_0000,
  bit_and-mod 26 (0x1400_0000 + off) 0x7c00_0000,
  high,
  low,
)
  where
    high : bit_and ((0x1400_0000 + off) / 2 ^ 26) (0x7c00_0000 / 2 ^ 26) ≡ 5
    high = ap (λ t. bit_and t 31) top
      where
        top : (0x1400_0000 + off) / 2 ^ 26 ≡ 5
        top = omega arith

    low : bit_and ((0x1400_0000 + off) % 2 ^ 26) (0x7c00_0000 % 2 ^ 26) ≡ 0
    low = bit_and-zero _

decode-b_word :
    (pc target : ℕ)
    → let raw = b_word pc target in
      (decode_branch_sys zero_inst raw pc ≡ decode_b zero_inst raw pc)
      × ((decode_b zero_inst raw pc).fn ≡ some (of_branch b_always))
unfolding decode_branch_sys decode_b
decode-b_word pc target =
    (rw (group_bits ((target + 2 ^ 64 - pc) / 4 % 2 ^ 26) (omega arith)) refl, ground arith)

displaced-b_word :
    (pc target : ℕ)
    → pc < 2 ^ 64
    → target < 2 ^ 64
    → pc % 4 ≡ target % 4
    → target < pc + 2 ^ 27
    → pc ≤ target + 2 ^ 27
    → displaced 26 pc (field (b_word pc target) 0 26) ≡ target
displaced-b_word pc target h1 h2 h3 h4 h5 = ground arith

-- A word that is assembled as B for a target decodes as B and goes there, for an address and a
-- target within 64 bits that agree modulo 4, the target less than 128 MiB above or at most 128
-- MiB below.
pub exec_branch-b_word :
    (c : Cpu) (pc target : ℕ)
    → pc < 2 ^ 64
    → target < 2 ^ 64
    → pc % 4 ≡ target % 4
    → target < pc + 2 ^ 27
    → pc ≤ target + 2 ^ 27
    → let i = decode_branch_sys zero_inst (b_word pc target) pc in
      (i.fn ≡ some (of_branch b_always)) × ((exec_branch b_always c i).pc ≡ target)
unfolding exec_branch
exec_branch-b_word c pc target h1 h2 h3 h4 h5 =
    let is_b = decode-b_word pc target in
    (
      rw is_b.0 is_b.1,
      ap (λ (i : Inst). i.imm) is_b.0
          ∙ (decode_branch-displaced zero_inst (b_word pc target) pc h1).0
          ∙ displaced-b_word pc target h1 h2 h3 h4 h5,
    )
