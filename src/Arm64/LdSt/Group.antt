-- ===== src/Arm64/LdSt/Group.antt =====
-- Which handlers the decoders of internal/arm64/ldst.go pick.
use gonidbg.Base.{
  ℕ, ◌≡◌, arith, Bool, true, false, ◌==◌, Option, none, some, Option-cases, inl, inr, field,
}
use gonidbg.Arm64.Inst.{
  Inst, Op, of_imm, of_arith, of_cond, of_source, of_branch, of_system, of_trap, of_ldst, nop,
  clrex, mov_imm2, mrs, msr,
}
use gonidbg.Arm64.LdSt.Decode.{
  ldst_kind, set_ldst, decode_reg_form, decode_unsigned_imm, decode_literal, decode_pair,
  decode_exclusive, decode_atomic, decode_simd_multi, decode_ldst, multi_shape,
}

-- A load or a store, the no-op that a prefetch is, or no handler.
abbrev pub is_memory : Option Op → Bool
is_memory none = true
is_memory (some (of_imm op)) = false
is_memory (some (of_arith op)) = false
is_memory (some (of_cond op)) = false
is_memory (some (of_source op)) = false
is_memory (some (of_branch op)) = false
is_memory (some (of_system nop)) = true
is_memory (some (of_system clrex)) = false
is_memory (some (of_system mov_imm2)) = false
is_memory (some (of_system mrs)) = false
is_memory (some (of_system msr)) = false
is_memory (some (of_trap op)) = false
is_memory (some (of_ldst op)) = true

module _ (i : Inst) (start : i.fn ≡ none) (raw : ℕ) where
  exclusive : is_memory (decode_exclusive i raw).fn ≡ true
  unfolding decode_exclusive
  exclusive = ground (arith, start)

  literal : (pc : ℕ) → is_memory (decode_literal i raw pc).fn ≡ true
  unfolding decode_literal
  literal pc = ground (arith, start)

  pair : is_memory (decode_pair i raw).fn ≡ true
  unfolding decode_pair
  pair = ground (arith, start)

  atomic : is_memory (decode_atomic i raw).fn ≡ true
  unfolding decode_atomic
  atomic = ground (arith, start)

  reg_form : is_memory (decode_reg_form i raw).fn ≡ true
  unfolding decode_reg_form set_ldst
  reg_form =
      elim (Option-cases (ldst_kind (field raw 30 2) (field raw 22 2) (field raw 26 1 == 1))) [
        | inl e ↦ ground (arith, start, e)
        | inr (k, e) ↦ ground (arith, start, e)
      ]

  unsigned_imm : is_memory (decode_unsigned_imm i raw).fn ≡ true
  unfolding decode_unsigned_imm set_ldst
  unsigned_imm =
      elim (Option-cases (ldst_kind (field raw 30 2) (field raw 22 2) (field raw 26 1 == 1))) [
        | inl e ↦ ground (arith, start, e)
        | inr (k, e) ↦ ground (arith, start, e)
      ]

  simd_multi : is_memory (decode_simd_multi i raw).fn ≡ true
  unfolding decode_simd_multi
  simd_multi = elim (Option-cases (multi_shape (field raw 12 4))) [
    | inl e ↦ ground (arith, start, e)
    | inr (s, e) ↦ ground (arith, start, e)
  ]

  pub ldst : (pc : ℕ) → is_memory (decode_ldst i raw pc).fn ≡ true
  unfolding decode_ldst
  ldst pc =
      ground (arith, start, exclusive, literal pc, pair, atomic, reg_form, unsigned_imm, simd_multi)
