-- ===== src/Arm64/LdSt.antt =====
-- internal/arm64/ldst.go: loads and stores of the registers over the guest memory.
--
-- A handler changes the registers and the memory, or raises a fault and keeps what it changed by
-- then. The hooks are code of the callers and are taken to change the memory only.
pub mod Decode
pub mod Group
pub mod Access
pub mod Pairs
pub mod Exclusive
pub mod Lanes
pub mod Multi
pub mod Hot
pub mod Handlers
pub mod Exec
pub mod Faults
pub mod Agree
pub mod Monitor
mod Tests
use gonidbg.Base.{ℕ}
use gonidbg.Arm64.Cpu.{Cpu}
use gonidbg.Arm64.Mem.{Memory}
use gonidbg.Arm64.Mem.Guest.{Fault, Got, got, fault}

-- Addressing modes, kept in `cond`: base and immediate; the same with the base written back, before
-- or after; base and an extended register.
abbrev pub mode_off : ℕ
mode_off = 0

abbrev pub mode_pre : ℕ
mode_pre = 1

abbrev pub mode_post : ℕ
mode_post = 2

abbrev pub mode_reg : ℕ
mode_reg = 3

-- How an integer load extends, kept in `sh`.
abbrev pub ext_zero : ℕ
ext_zero = 0

abbrev pub ext_sign : ℕ
ext_sign = 1

abbrev pub ext_sign32 : ℕ
ext_sign32 = 2

-- A handler's end.
pub data Ran : Type 0 where
  ran : Cpu → Memory → Ran
  raised : Fault → Cpu → Memory → Ran

-- What follows an access, in a register state.
abbrev pub on_got : {A : Type 0} → Got A → Cpu → (A → Memory → Ran) → Ran
on_got (got a m) c f = f a m
on_got (fault e m) c f = raised e c m

abbrev pub then_ran : Ran → (Cpu → Memory → Ran) → Ran
then_ran (ran c m) f = f c m
then_ran (raised e c m) f = raised e c m
