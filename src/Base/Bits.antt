-- ===== src/Base/Bits.antt =====
-- Laws of `bit_and`, `bit_or` and `bit_xor` at variables.
mod Step
mod Laws
mod Test
pub use Step.*
pub use Laws.*
pub use Test.*
