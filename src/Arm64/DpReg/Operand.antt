-- ===== src/Arm64/DpReg/Operand.antt =====
-- The shifted and extended operands of internal/arm64/dpreg.go.
use gonidbg.Base.{
  ℕ, ◌+◌, ◌-◌, ◌%◌, ◌^◌, ltb, ◌==◌, if◌then◌else◌, shl64, shl32, shr, sar64, sar32, ror64, ror32,
  u8, u16, u32, field,
}
use gonidbg.Arm64.Cpu.{Cpu}
use gonidbg.Arm64.Inst.{Inst}

-- The switch on a shift type: LSL, LSR, ASR, ROR.
unfoldable pub shift64 : ℕ → ℕ → ℕ → ℕ
shift64 sh val n =
    if sh == 0
    then shl64 val n
    else if sh == 1
    then shr val n
    else if sh == 2
    then sar64 val n
    else ror64 val n

unfoldable pub shift32 : ℕ → ℕ → ℕ → ℕ
shift32 sh val n =
    if sh == 0
    then shl32 val n
    else if sh == 1
    then shr val n
    else if sh == 2
    then sar32 val n
    else ror32 val n

unfoldable pub sh_op64 : Cpu → Inst → ℕ
unfolding shift64
sh_op64 c i = shift64 i.sh (c.r i.rm) i.amt

unfoldable pub sh_op32 : Cpu → Inst → ℕ
unfolding shift32
sh_op32 c i = shift32 i.sh (u32 (c.r i.rm)) i.amt

-- The low `w` bits of `val`, below 64, as a signed number in 64 bits.
abbrev pub sign_extend : ℕ → ℕ → ℕ
sign_extend w val =
    let low = val % 2 ^ w in if ltb low (2 ^ (w - 1)) then low else low + (2 ^ 64 - 2 ^ w)

unfoldable pub extend : ℕ → ℕ → ℕ
extend val option =
    let k = field option 0 3 in
    if k == 0
    then u8 val
    else if k == 1
    then u16 val
    else if k == 2
    then u32 val
    else if k == 4
    then sign_extend 8 val
    else if k == 5
    then sign_extend 16 val
    else if k == 6
    then sign_extend 32 val
    else val

unfoldable pub ext_op : Cpu → Inst → ℕ
unfolding extend
ext_op c i = shl64 (extend (c.r i.rm) i.sh) i.amt
