-- ===== src/Arm64.antt =====
-- internal/arm64: the AArch64 interpreter. `Cpu` holds the state, `Inst` a decoded instruction;
-- each group of the encoding has a module with its part of the decoder and its handlers.
pub mod Cpu
pub mod Inst
pub mod Flags
pub mod Words
pub mod BitMasks
pub mod DpImm
pub mod DpReg
pub mod Branch
pub mod System
pub mod State
pub mod Slots
pub mod Mem
pub mod LdSt
pub mod Step
mod Tests
