-- ===== src/Arm64/DpReg.antt =====
-- internal/arm64/dpreg.go: data processing with register operands. The children hold the decoder
-- and the handlers, by what they do.
pub mod Operand
pub mod Arith
pub mod Conditional
pub mod Sources
pub mod Crc
pub mod Compare
pub mod Wide
pub mod Decode
