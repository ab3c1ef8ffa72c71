-- ===== src/Arm64/Slots/Reg.antt =====
-- The slots and operands that the register half of the decoder of internal/arm64/dpreg.go yields.
use gonidbg.Base.{ℕ, ◌/◌, ◌^◌, arith, Bool, not, field, ◌==◌}
use gonidbg.Arm64.Inst.{Inst}
use gonidbg.Arm64.State.{IsInst}
use gonidbg.Arm64.Slots.{xr-slot, xsp-slot, xw-slot, split_if}
use gonidbg.Arm64.DpReg.Decode.{
  decode_logical, decode_add_shifted, decode_add_extended, decode_carry, decode_ccmp, decode_csel,
  decode_dp2, decode_dp1, decode_dp3, decode_dp_reg, with_regs,
}

decode_dp2-IsInst : {i : Inst} → IsInst i → (raw : ℕ) (sf : Bool) → IsInst (decode_dp2 i raw sf)
unfolding decode_dp2
decode_dp2-IsInst ok raw sf = ground arith

decode_dp1-IsInst : {i : Inst} → IsInst i → (raw : ℕ) (sf : Bool) → IsInst (decode_dp1 i raw sf)
unfolding decode_dp1
decode_dp1-IsInst ok raw sf = ground arith

module _ {i : Inst} (ok : IsInst i) (raw : ℕ) where
  with_regs-IsInst : IsInst (with_regs i raw)
  with_regs-IsInst =
      ground (arith, xw-slot (field raw 0 5), xr-slot (field raw 5 5), xr-slot (field raw 16 5))

  module _ (sf : Bool) where
    decode_logical-IsInst : IsInst (decode_logical i raw sf)
    unfolding decode_logical
    decode_logical-IsInst = ground (arith, with_regs-IsInst)

    decode_add_shifted-IsInst : IsInst (decode_add_shifted i raw sf)
    unfolding decode_add_shifted
    decode_add_shifted-IsInst = (ground (arith, with_regs-IsInst))

    decode_add_extended-IsInst : IsInst (decode_add_extended i raw sf)
    unfolding decode_add_extended
    decode_add_extended-IsInst =
        (ground (
          arith,
          xw-slot (field raw 0 5),
          xsp-slot (field raw 0 5),
          xsp-slot (field raw 5 5),
          xr-slot (field raw 16 5),
        ))

    decode_carry-IsInst : IsInst (decode_carry i raw sf)
    unfolding decode_carry
    decode_carry-IsInst = (ground (arith, with_regs-IsInst))

    decode_ccmp-IsInst : IsInst (decode_ccmp i raw sf)
    unfolding decode_ccmp
    decode_ccmp-IsInst = (ground (arith, xr-slot (field raw 5 5), xr-slot (field raw 16 5)))

    decode_csel-IsInst : IsInst (decode_csel i raw sf)
    unfolding decode_csel
    decode_csel-IsInst = (ground (arith, with_regs-IsInst))

    decode_dp3-IsInst : IsInst (decode_dp3 i raw sf)
    unfolding decode_dp3
    decode_dp3-IsInst = ground (arith, with_regs-IsInst, xr-slot (field raw 10 5))

  pub decode_dp_reg-IsInst : IsInst (decode_dp_reg i raw)
  unfolding decode_dp_reg
  decode_dp_reg-IsInst =
      split_if (field raw 28 1 == 0)
        (split_if (field op2 3 1 == 0) (decode_logical-IsInst sf) (
          split_if (field op2 0 1 == 0) (decode_add_shifted-IsInst sf)
            (decode_add_extended-IsInst sf)))
        (split_if (op2 == 0) (decode_carry-IsInst sf) (
          split_if (op2 == 2) (decode_ccmp-IsInst sf) (
            split_if (op2 == 4) (decode_csel-IsInst sf) (
              split_if (op2 == 6)
                (split_if (not (field raw 29 1 == 0)) with_regs-IsInst (
                  split_if (field raw 30 1 == 0) (decode_dp2-IsInst with_regs-IsInst raw sf)
                    (decode_dp1-IsInst with_regs-IsInst raw sf)))
                (split_if (field op2 3 1 == 1) (decode_dp3-IsInst sf) ok)))))
    where
      sf : Bool
      sf = raw / 2 ^ 31 == 1

      op2 : ℕ
      op2 = field raw 21 4
