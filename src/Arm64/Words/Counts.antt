-- ===== src/Arm64/Words/Counts.antt =====
-- CLZ of internal/arm64/dpreg.go and the length of a word.
use native.Mathlib.Nat.{pow-suc}
use gonidbg.Base.{
  ℕ, zero, suc, ◌-◌, ◌/◌, ◌^◌, ◌≤◌, ◌<◌, ◌≡◌, refl, ap, arith, ◌==◌, Bool-cases, inl, inr,
}
use gonidbg.Arm64.Cpu.{Cpu}
use gonidbg.Arm64.Inst.{Inst, clz64}
use gonidbg.Arm64.DpReg.Sources.{exec_source}
use gonidbg.Arm64.Words.{bit_len, leading_zeros64}

bit_len-zero : (fuel : ℕ) → bit_len fuel 0 ≡ 0
unfolding bit_len
bit_len-zero zero = refl
bit_len-zero (suc fuel) = refl

-- `k` is the place after the highest one of `x`.
abbrev IsTop : ℕ → ℕ → Type 0
IsTop x k = (0 < k) × (2 ^ (k - 1) ≤ x) × (x < 2 ^ k)

half-IsTop : (x k : ℕ) → IsTop (x / 2) k → IsTop x (suc k)
half-IsTop x zero (h, low, high) = absurd (omega arith)
half-IsTop x (suc k) (h, low, high) =
    let below : suc k - 1 ≡ k = omega arith in
    let here : suc (suc k) - 1 ≡ suc k = omega arith in
    (
      omega arith,
      omega (arith, low, pow-suc 2 k, ap (λ t. 2 ^ t) below, ap (λ t. 2 ^ t) here),
      omega (arith, pow-suc 2 (suc k)),
    )

bit_len-suc : (fuel x : ℕ) → 0 < x → bit_len (suc fuel) x ≡ suc (bit_len fuel (x / 2))
unfolding bit_len
bit_len-suc fuel x h = ground arith

bit_len-IsTop :
    (fuel x : ℕ) → 0 < x → x < 2 ^ fuel → IsTop x (bit_len fuel x) × (bit_len fuel x ≤ fuel)
bit_len-IsTop zero x h small = absurd (omega arith)
bit_len-IsTop (suc fuel) x h small = rw (bit_len-suc fuel x h) (elim (Bool-cases (x / 2 == 0)) [
  | inl none ↦ let one : x ≡ 1 = ground arith in rw (one, bit_len-zero fuel) (refl_top, omega arith)
  | inr more ↦
      let rest = bit_len-IsTop fuel (x / 2) (ground arith) (omega (arith, pow-suc 2 fuel)) in
      (half-IsTop x (bit_len fuel (x / 2)) rest.0, omega (arith, rest.1))
])
  where
    refl_top : IsTop 1 1
    refl_top = omega arith

clz64-value : (c : Cpu) (i : Inst) → (exec_source clz64 c i).r i.rd ≡ leading_zeros64 (c.r i.rn)
unfolding exec_source
clz64-value c i = ground arith

leading_zeros64_lem : (x : ℕ) → leading_zeros64 x ≡ 64 - bit_len 64 x
unfolding leading_zeros64
leading_zeros64_lem x = refl

-- CLZ counts the zeros above the highest one of a 64-bit register that is not 0: the register lies
-- between the two powers of 2 that the count names.
pub clz64_lem :
    (c : Cpu) (i : Inst)
    → c.r i.rn < 2 ^ 64
    → 0 < c.r i.rn
    → let n = (exec_source clz64 c i).r i.rd in
      (n < 64) × (2 ^ (63 - n) ≤ c.r i.rn) × (c.r i.rn < 2 ^ (64 - n))
clz64_lem c i fits some =
    let (top, most) = bit_len-IsTop 64 (c.r i.rn) some fits in
    let k = bit_len 64 (c.r i.rn) in
    let lower : 63 - (64 - k) ≡ k - 1 = omega arith in
    let upper : 64 - (64 - k) ≡ k = omega arith in
    rw (clz64-value c i, leading_zeros64_lem (c.r i.rn))
      (omega arith, rw lower top.1, rw upper top.2)
