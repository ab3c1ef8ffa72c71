-- ===== src/Arm64/DpReg/Wide.antt =====
-- internal/arm64/dpreg.go: pairs of handlers that compute on 128-bit numbers.
use gonidbg.Base.{
  ℕ, ◌+◌, ◌-◌, ◌*◌, ◌/◌, ◌%◌, ◌^◌, ◌<◌, ◌≡◌, ◌≢◌, refl, arith, ltb, if◌then◌else◌, not64, sar64,
  sub64, bit_and, Bool-cases, ◌⊎◌, inl, inr,
}
use native.Mathlib.Nat.{mul-le-mul}
use gonidbg.Base.Bits.{bit_and_mask, bit_and-zero}
use gonidbg.Arm64.Cpu.{Cpu, r_zr}
use gonidbg.Arm64.Inst.{Inst, adds_reg64, adc64, subs_reg64, sbc64, madd64, umulh, smulh}
use gonidbg.Arm64.Flags.{carry, add_flags64}
use gonidbg.Arm64.Flags.Laws.{add_flags64_lem}
use gonidbg.Arm64.State.{IsCpu}
use gonidbg.Arm64.DpReg.Operand.{sh_op64}
use gonidbg.Arm64.DpReg.Arith.{exec_arith}
use gonidbg.Arm64.DpReg.Sources.{exec_source, mul_high}

sum_lem :
    (a b cin : ℕ)
    → a < 2 ^ 64
    → b < 2 ^ 64
    → cin < 2
    → ((add_flags64 a b cin).value ≡ (a + b + cin) % 2 ^ 64)
      × ((add_flags64 a b cin).flags / 2 ^ 29 % 2 ≡ (a + b + cin) / 2 ^ 64)
sum_lem a b cin ha hb hc = rw (add_flags64_lem a b cin ha hb hc) (refl, ground arith)

-- On a well-formed register state, ADDS of the low halves, then ADC of the high halves: together
-- they add two 128-bit numbers modulo 2^128. The shifted operand of the first is to fit in 64
-- bits, and its destination is to be none of the registers of the second.
pub adds-adc :
    (c : Cpu) (i j : Inst)
    → IsCpu c
    → sh_op64 c i < 2 ^ 64
    → i.rd ≢ j.rd
    → i.rd ≢ j.rn
    → i.rd ≢ j.rm
    → let after = exec_arith adc64 (exec_arith adds_reg64 c i) j in
      after.r j.rd * 2 ^ 64 + after.r i.rd
      ≡ (c.r j.rn * 2 ^ 64 + c.r i.rn + (c.r j.rm * 2 ^ 64 + sh_op64 c i)) % 2 ^ 128
unfolding exec_arith carry
adds-adc c i j wf hb h1 h2 h3 = ground (
  arith,
  sum_lem (c.r i.rn) (sh_op64 c i) 0 (wf.registers i.rn) hb (omega arith),
  wf.registers i.rn,
  wf.registers j.rn,
  wf.registers j.rm,
)

-- On a well-formed register state, SUBS of the low halves, then SBC of the high halves: together
-- they subtract two 128-bit numbers modulo 2^128. The shifted operand of the first is to fit in
-- 64 bits, and its destination is to be none of the registers of the second.
pub subs-sbc :
    (c : Cpu) (i j : Inst)
    → IsCpu c
    → sh_op64 c i < 2 ^ 64
    → i.rd ≢ j.rd
    → i.rd ≢ j.rn
    → i.rd ≢ j.rm
    → let after = exec_arith sbc64 (exec_arith subs_reg64 c i) j in
      after.r j.rd * 2 ^ 64 + after.r i.rd
      ≡ (c.r j.rn * 2 ^ 64 + c.r i.rn + 2 ^ 128 - (c.r j.rm * 2 ^ 64 + sh_op64 c i)) % 2 ^ 128
unfolding exec_arith carry
subs-sbc c i j wf hb h1 h2 h3 = ground (
  arith,
  sum_lem (c.r i.rn) (not64 (sh_op64 c i)) 1 (wf.registers i.rn) (omega arith) (omega arith),
  wf.registers i.rn,
  wf.registers j.rn,
  wf.registers j.rm,
)

-- A 64-bit word read as a signed number, in 128 bits.
abbrev pub widen : ℕ → ℕ
widen a = if ltb a (2 ^ 63) then a else a + (2 ^ 128 - 2 ^ 64)

product-lt : (a b : ℕ) → a < 2 ^ 64 → b < 2 ^ 64 → a * b < 2 ^ 128
product-lt a b ha hb = omega (
  arith,
  mul-le-mul {n₁ = a} {m₁ = b} {n₂ = 2 ^ 64 - 1} {m₂ = 2 ^ 64 - 1} (omega arith) (omega arith),
)

-- On a well-formed register state, UMULH and MADD of the same two registers, the latter with the
-- zero register as its addend, which is MUL: the two halves of the product.
pub umulh-madd :
    (c : Cpu) (i j : Inst)
    → IsCpu c
    → i.rn ≡ j.rn
    → i.rm ≡ j.rm
    → j.ra ≡ r_zr
    → (exec_source umulh c i).r i.rd * 2 ^ 64 + (exec_source madd64 c j).r j.rd
      ≡ c.r i.rn * c.r i.rm
unfolding exec_source
umulh-madd c i j wf en em zr = rw (← en, ← em, zr, wf.zero_register) (ground arith)

-- A word, and the multiple of 2^64 that its sign adds to it in 128 bits.
abbrev sign_term : ℕ → ℕ → ℕ
sign_term a b = if ltb a (2 ^ 63) then 0 else b

mask_lem : (a b : ℕ) → a < 2 ^ 64 → b < 2 ^ 64 → bit_and b (sar64 a 63) ≡ sign_term a b
mask_lem a b ha hb = ground (arith, bit_and_mask 64 b, bit_and-zero b)

abbrev SignCases : ℕ → Type 0
SignCases a =
    ((widen a ≡ a) × ((b : ℕ) → sign_term a b ≡ 0))
    ⊎ ((widen a ≡ a + (2 ^ 128 - 2 ^ 64)) × ((b : ℕ) → sign_term a b ≡ b))

sign_cases : (a : ℕ) → SignCases a
sign_cases a = elim (Bool-cases (ltb a (2 ^ 63))) [
  | inl low ↦ inl (ground arith, λ b. ground arith)
  | inr high ↦ inr (ground arith, λ b. ground arith)
]

widened :
    (a b : ℕ)
    → a < 2 ^ 64
    → b < 2 ^ 64
    → widen a * widen b % 2 ^ 128
      ≡ (a * b + (2 ^ 128 - 2 ^ 64) * sign_term a b + (2 ^ 128 - 2 ^ 64) * sign_term b a) % 2 ^ 128
widened a b ha hb = go (sign_cases a) (sign_cases b)
  where
    go :
        SignCases a
        → SignCases b
        → widen a * widen b % 2 ^ 128
          ≡ (a * b + (2 ^ 128 - 2 ^ 64) * sign_term a b + (2 ^ 128 - 2 ^ 64) * sign_term b a)
            % 2 ^ 128
    go (inl p) (inl q) = rw (p.0, p.1 b, q.0, q.1 a) (omega arith)
    go (inl p) (inr q) = rw (p.0, p.1 b, q.0, q.1 a) (omega arith)
    go (inr p) (inl q) = rw (p.0, p.1 b, q.0, q.1 a) (omega arith)
    go (inr p) (inr q) = rw (p.0, p.1 b, q.0, q.1 a) (omega arith)

signed_high :
    (a b : ℕ)
    → a < 2 ^ 64
    → b < 2 ^ 64
    → sub64 (sub64 (mul_high a b) (sign_term a b)) (sign_term b a) * 2 ^ 64 + a * b % 2 ^ 64
      ≡ widen a * widen b % 2 ^ 128
signed_high a b ha hb = rw (widened a b ha hb) (ground (arith, product-lt a b ha hb))

-- On a well-formed register state, SMULH writes the high half of the product of two registers as
-- signed numbers, modulo 2^128. The low half is that of the unsigned product.
pub smulh_lem :
    (c : Cpu) (i : Inst)
    → IsCpu c
    → let a = c.r i.rn in
      let b = c.r i.rm in
      (exec_source smulh c i).r i.rd * 2 ^ 64 + a * b % 2 ^ 64 ≡ widen a * widen b % 2 ^ 128
unfolding exec_source
smulh_lem c i wf =
    rw
      (
        mask_lem (c.r i.rn) (c.r i.rm) (wf.registers i.rn) (wf.registers i.rm),
        mask_lem (c.r i.rm) (c.r i.rn) (wf.registers i.rm) (wf.registers i.rn),
      )
      (ground (arith, signed_high (c.r i.rn) (c.r i.rm) (wf.registers i.rn) (wf.registers i.rm)))
