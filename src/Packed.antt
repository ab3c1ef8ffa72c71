-- ===== src/Packed.antt =====
-- internal/loader/packed.go: the packed relocation sections. An int64 is kept as its 64-bit
-- pattern; bytes are numbers below 256.
pub mod Sleb
pub mod Groups
pub mod Relr
mod Tests
use gonidbg.Base.{ℕ, List, Option}

pub record Reloc : Type 0 where
  pub offset : ℕ
  pub kind : ℕ
  pub sym : ℕ
  pub addend : ℕ

-- The formatted errors, with what they print, and the end of the fuel of a loop of the model.
pub data PackedError : Type 0 where
  truncated : ℕ → PackedError
  overlong : ℕ → PackedError
  bad_magic : List ℕ → PackedError
  implausible_count : ℕ → PackedError
  bad_group_size : ℕ → PackedError
  out_of_fuel : PackedError

pub data Out {ℓ} (A : Type ℓ) : Type ℓ where
  ok : A → Out A
  err : PackedError → Out A

-- `if err != nil { return nil, err }`, and what follows.
abbrev pub and_then {ℓ κ} : {A : Type ℓ} {B : Type κ} → Out A → (A → Out B) → Out B
and_then (ok a) next = next a
and_then (err e) next = err e

-- The type that a parameter `implicit` has where it may be nil.
abbrev pub Implicit : Type 0
Implicit = Option (ℕ → ℕ)
