-- ===== src/Arm64/DpReg/Crc.antt =====
-- The CRC-32 instructions of internal/arm64/dpreg.go over `hash/crc32`, whose tables and update
-- loop are written out.
use gonidbg.Base.{
  ◌≡◌, refl, ℕ, zero, suc, ◌%◌, ◌==◌, if◌then◌else◌, List, [], ◌∷◌, bit_xor, not32, shr, u8, u32,
}
use gonidbg.Arm64.Cpu.{Cpu}
use gonidbg.Arm64.Inst.{Inst}
use gonidbg.Arm64.DpImm.{put}

-- The reversed polynomials `crc32.IEEE` and `crc32.Castagnoli`.
abbrev pub ieee : ℕ
ieee = 0xedb8_8320

abbrev pub castagnoli : ℕ
castagnoli = 0x82f6_3b78

-- One entry of a table of `crc32.MakeTable`: eight rounds from the index.
pub table_entry : ℕ → ℕ → ℕ → ℕ
table_entry poly zero crc = crc
table_entry poly (suc n) crc =
    table_entry poly n (if crc % 2 == 1 then bit_xor (shr crc 1) poly else shr crc 1)

crc_loop : ℕ → ℕ → List ℕ → ℕ
unfolding table_entry
crc_loop poly crc [] = crc
crc_loop poly crc (b ∷ bs) =
    crc_loop poly (bit_xor (table_entry poly 8 (u8 (bit_xor (u8 crc) b))) (shr crc 8)) bs

-- `crc32.Update` inverts on entry and on exit.
crc32_update : ℕ → ℕ → List ℕ → ℕ
unfolding crc_loop
crc32_update poly crc bs = not32 (crc_loop poly (not32 crc) bs)

-- The first `n` bytes of `b`, lowest first.
abbrev le_bytes : ℕ → ℕ → List ℕ
le_bytes zero v = []
le_bytes (suc n) v = u8 v ∷ le_bytes n (shr v 8)

unfoldable pub crc_update : ℕ → ℕ → ℕ → ℕ → ℕ
unfolding crc32_update
crc_update poly acc v n = not32 (crc32_update poly (not32 acc) (le_bytes n v))

unfoldable pub op_crc32 : Cpu → Inst → Cpu
op_crc32 c i = put c i (crc_update ieee (u32 (c.r i.rn)) (c.r i.rm) i.sz)

unfoldable pub op_crc32c : Cpu → Inst → Cpu
op_crc32c c i = put c i (crc_update castagnoli (u32 (c.r i.rn)) (c.r i.rm) i.sz)

-- CRC-32 of the byte 'a' from the state that `crc32.ChecksumIEEE` starts in.
crc_of_a : not32 (crc_update ieee 0xffff_ffff b'a' 1) ≡ 0xe8b7_be43
unfolding crc_update
crc_of_a = refl
