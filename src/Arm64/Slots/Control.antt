-- ===== src/Arm64/Slots/Control.antt =====
-- The slots and operands that the branch and system decoder of internal/arm64/decode.go yields.
use gonidbg.Base.{
  ◌==◌, ◌&&◌, ◌||◌, leb, Option, ℕ, ◌*◌, ◌^◌, ◌≤◌, ◌<◌, ◌≡◌, ◌≢◌, arith, some, Option-cases, inl,
  inr, field, shr,
}
use gonidbg.Base.Bits.{bit_or-lt}
use gonidbg.Arm64.Cpu.{xr, xw}
use gonidbg.Arm64.Inst.{Inst, Op, of_system, of_trap, nop, clrex, dc_zva}
use gonidbg.Arm64.State.{IsInst}
use gonidbg.Arm64.Slots.{xr-slot, xw-slot, split_if}
use gonidbg.Arm64.Branch.{
  decode_exception, decode_branch_reg, decode_b, decode_cbz, decode_tbz, decode_b_cond,
  decode_branch_sys,
}
use gonidbg.Arm64.System.{sysreg, const_sysreg, decode_sysreg, decode_system}

const_sysreg-lt : (reg : ℕ) (v : ℕ) → const_sysreg reg ≡ some v → v < 2 ^ 64
unfolding const_sysreg
const_sysreg-lt reg v e = ground arith

sysreg-lt :
    (op0 op1 crn crm op2 : ℕ)
    → op0 < 4
    → op1 < 8
    → crn < 16
    → crm < 16
    → op2 < 8
    → sysreg op0 op1 crn crm op2 < 2 ^ 64
unfolding sysreg
sysreg-lt op0 op1 crn crm op2 h0 h1 h2 h3 h4 =
    bit_or-lt 64 _ _
      (bit_or-lt 64 _ _
        (bit_or-lt 64 _ _ (bit_or-lt 64 _ _ (omega arith) (omega arith)) (omega arith))
        (omega arith))
      (omega arith)

module _ {i : Inst} (ok : IsInst i) (raw pc : ℕ) (raw_fits : raw < 2 ^ 32) where
  decode_exception-IsInst : IsInst (decode_exception i raw)
  unfolding decode_exception
  decode_exception-IsInst = ground arith

  decode_branch_reg-IsInst : IsInst (decode_branch_reg i raw)
  unfolding decode_branch_reg
  decode_branch_reg-IsInst = ground (arith, xr-slot (shr raw 5))

  decode_b-IsInst : IsInst (decode_b i raw pc)
  unfolding decode_b
  decode_b-IsInst = ground arith

  decode_cbz-IsInst : IsInst (decode_cbz i raw pc)
  unfolding decode_cbz
  decode_cbz-IsInst = ground (arith, xr-slot raw)

  decode_tbz-IsInst : IsInst (decode_tbz i raw pc)
  unfolding decode_tbz
  decode_tbz-IsInst = ground (arith, xr-slot raw, bit_or-lt 6 (shr raw 31 * 2 ^ 5) (field raw 19 5))

  decode_b_cond-IsInst : IsInst (decode_b_cond i raw pc)
  unfolding decode_b_cond
  decode_b_cond-IsInst = ground arith

  decode_sysreg-IsInst :
      (l reg rt rd : ℕ)
      → reg < 2 ^ 64
      → rt ≤ 33
      → rd ≤ 33
      → rd ≢ 31
      → IsInst (decode_sysreg i l reg rt rd)
  unfolding decode_sysreg
  decode_sysreg-IsInst l reg rt rd hreg hrt hrd ne = elim (Option-cases (const_sysreg reg)) [
    | inl e ↦ rw (e, decode_sysreg) (ground arith)
    | inr (v, e) ↦ let small = const_sysreg-lt reg v e in rw (e, decode_sysreg) (ground arith)
  ]

  with_fn-IsInst : (f : Option Op) → IsInst (record i { fn = f })
  with_fn-IsInst f = ground arith

  with_rn-IsInst : (f : Option Op) → IsInst (record i { rn = xr (field raw 0 5); fn = f })
  with_rn-IsInst f = ground (arith, xr-slot (field raw 0 5))

  -- The register group, in the last test but one.
  register-IsInst : IsInst (
      decode_sysreg i
        (field raw 21 1)
        (sysreg (field raw 19 2) (field raw 16 3) (field raw 12 4) (field raw 8 4) (field raw 5 3))
        (xr (field raw 0 5))
        (xw (field raw 0 5)))
  register-IsInst =
      let source = xr-slot (field raw 0 5) in
      let dest = xw-slot (field raw 0 5) in
      decode_sysreg-IsInst (field raw 21 1) _ _ _
        (sysreg-lt _ _ _ _ _ (omega arith) (omega arith) (omega arith) (omega arith) (omega arith))
        (omega (arith, source)) dest.0 dest.1

  decode_system-IsInst : IsInst (decode_system i raw)
  unfolding decode_system
  decode_system-IsInst =
      let l = field raw 21 1 in
      let op0 = field raw 19 2 in
      let op1 = field raw 16 3 in
      let crn = field raw 12 4 in
      let crm = field raw 8 4 in
      let op2 = field raw 5 3 in
      let to_pstate = (l == 0) && (op0 == 0) && (field raw 0 5 == 31) in
      let as_nop = with_fn-IsInst (some (of_system nop)) in
      split_if (to_pstate && (crn == 2) && (op1 == 3)) as_nop (
        split_if (to_pstate && (crn == 3) && (op1 == 3))
          (split_if (op2 == 2) (with_fn-IsInst (some (of_system clrex)))
            (split_if (leb 4 op2) as_nop ok))
          (split_if (to_pstate && (crn == 4))
            (split_if ((op1 == 3) && ((op2 == 6) || (op2 == 7))) as_nop ok)
            (split_if (op0 == 1)
              (split_if (l == 1) ok (
                split_if ((op1 == 3) && (crn == 7) && (crm == 4) && (op2 == 1))
                  (with_rn-IsInst (some (of_trap dc_zva))) as_nop))
              (split_if (leb 2 op0) register-IsInst ok))))

  pub decode_branch_sys-IsInst : IsInst (decode_branch_sys i raw pc)
  unfolding decode_branch_sys
  decode_branch_sys-IsInst = split_if _ decode_b-IsInst (
      split_if _ decode_cbz-IsInst (
        split_if _ decode_tbz-IsInst (
          split_if _ decode_b_cond-IsInst (
            split_if _ decode_exception-IsInst
              (split_if _ decode_branch_reg-IsInst (split_if _ decode_system-IsInst ok))))))
