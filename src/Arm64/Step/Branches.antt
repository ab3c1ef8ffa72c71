-- ===== src/Arm64/Step/Branches.antt =====
-- What the immediate branches of internal/arm64/decode.go do when they are executed.
use gonidbg.Base.{
  ℕ, ◌+◌, ◌*◌, ◌/◌, ◌%◌, ◌^◌, Bool, not, ◌==◌, if◌then◌else◌, Option, none, some, add64, field,
}
use gonidbg.Arm64.Cpu.{Cpu, update}
use gonidbg.Arm64.Inst.{Inst}
use gonidbg.Arm64.Step.{exec}

-- Running a decoded instruction, where it has a handler that stays within the registers.
abbrev pub run_handler : Cpu → Inst → Option Cpu
run_handler c i = elim i.fn [ none ↦ none | some op ↦ exec op c i ]

-- `c` at the target if the branch is taken, else at the next word.
abbrev pub branched : Bool → Cpu → ℕ → Cpu
branched taken c target = record c { pc = if taken then target else add64 c.pc 4 }

-- Whether the compared register is zero: X with bit 31 of the word, else W.
abbrev pub register_is_zero : Cpu → ℕ → Bool
register_is_zero c raw =
    (if raw / 2 ^ 31 == 1 then c.r (field raw 0 5) else c.r (field raw 0 5) % 2 ^ 32) == 0

-- Whether CBZ, or with bit 24 of the word CBNZ, is taken.
abbrev pub compare_taken : Cpu → ℕ → Bool
compare_taken c raw =
    if field raw 24 1 == 0 then register_is_zero c raw else not (register_is_zero c raw)

-- `c` after B, or with bit 31 of the word after BL, to a target.
abbrev pub linked : Cpu → ℕ → ℕ → Cpu
linked c raw target = record c {
  pc = target;
  r = if raw / 2 ^ 31 == 0 then c.r else update c.r 30 (add64 c.pc 4);
}

-- The digit that TBZ and TBNZ test; bit 31 of the word is the top digit of its number.
abbrev pub tested_digit : Cpu → ℕ → ℕ
tested_digit c raw = c.r (field raw 0 5) / 2 ^ (32 * (raw / 2 ^ 31) + field raw 19 5) % 2
