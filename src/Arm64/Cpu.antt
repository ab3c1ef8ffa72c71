-- ===== src/Arm64/Cpu.antt =====
-- internal/arm64/cpu.go: the register state of one hardware thread, and its snapshots.
-- The address space `Mem`, the hooks and the stop flag are no part of this record.
pub mod Context
use gonidbg.Base.{ℕ, ◌+◌, ◌^◌, Bool, ◌==◌, if◌then◌else◌, add64, field}

-- Register slots: X0..X30 are 0..30. Reads of register 31 go to `r_zr` or `r_sp`, writes to
-- `r_sink` or `r_sp`.
abbrev pub r_zr : ℕ
r_zr = 31

abbrev pub r_sp : ℕ
r_sp = 32

abbrev pub r_sink : ℕ
r_sink = 33

abbrev pub r_lr : ℕ
r_lr = 30

-- A 128-bit register as its two 64-bit halves, low first.
pub record Vec : Type 0 where
  pub lo : ℕ
  pub hi : ℕ

pub record Cpu : Type 0 where
  pub r : ℕ → ℕ
  pub pc : ℕ
  pub nzcv : ℕ
  pub v : ℕ → Vec
  pub fpcr : ℕ
  pub fpsr : ℕ
  pub tpidr : ℕ
  pub tpidrro : ℕ
  pub excl_addr : ℕ
  pub excl_val : ℕ
  pub excl_val2 : ℕ
  pub excl_size : ℕ
  pub excl_valid : Bool
  pub icount : ℕ

-- An assignment to one slot.
abbrev pub update {ℓ} : {A : Type ℓ} → (ℕ → A) → ℕ → A → ℕ → A
update f k v n = if n == k then v else f n

-- `X` and `SetX`: 31 is SP.
unfoldable pub x : Cpu → ℕ → ℕ
x c n = if n == 31 then c.r r_sp else c.r (field n 0 5)

unfoldable pub set_x : Cpu → ℕ → ℕ → Cpu
set_x c n val = record c {
  r = if n == 31 then update c.r r_sp val else update c.r (field n 0 5) val;
}

-- Decode-time slots: a read, where 31 is XZR; SP-position; a write, where 31 is discarded.
unfoldable pub xr : ℕ → ℕ
xr n = field n 0 5

unfoldable pub xsp : ℕ → ℕ
xsp n = if field n 0 5 == 31 then r_sp else field n 0 5

unfoldable pub xw : ℕ → ℕ
xw n = if field n 0 5 == 31 then r_sink else field n 0 5

-- `c.PC += 4`
abbrev pub step_pc : Cpu → Cpu
step_pc c = record c { pc = add64 c.pc 4 }
