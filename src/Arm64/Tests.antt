-- ===== src/Arm64/Tests.antt =====
-- Runs of internal/arm64 from a small register state.
use gonidbg.Base.{
  ◌+◌, ◌-◌, ◌*◌, ◌/◌, ◌%◌, ◌^◌, ◌≤◌, ◌<◌, ◌≡◌, ◌↔◌, refl, arith, some, true, false, if◌then◌else◌,
  ◌==◌, signed64, ◌≤ℤ◌, ◌<ℤ◌,
}
use gonidbg.Arm64.Cpu.{Cpu, xr, xw}
use gonidbg.Arm64.Cpu.Context.{
  save_context, restore_context, restore_context-save_context, is_architectural,
}
use gonidbg.Arm64.Inst.{
  Inst, of_branch, of_cond, csinc64, zero_inst, pick4x2, pick, subs_reg64, adds_reg64, adc64, sbc64,
  umulh, smulh, madd64, b_always, mrs, msr, clz64, ImmOp, ArithOp, CondOp, SourceOp,
}
use gonidbg.Arm64.Flags.{cond, add_flags64}
use gonidbg.Arm64.Flags.Meaning.{meaning, cond-meaning}
use gonidbg.Arm64.Flags.Laws.{nzcv_word, digit, overflow, add_flags64_lem}
use gonidbg.Arm64.DpImm.{exec_imm}
use gonidbg.Arm64.DpImm.Extract.{ubfm_word, step-ubfm_word}
use gonidbg.Arm64.DpReg.Operand.{sh_op64}
use gonidbg.Arm64.DpReg.Arith.{exec_arith}
use gonidbg.Arm64.DpReg.Sources.{exec_source}
use gonidbg.Arm64.DpReg.Decode.{decode_dp_reg, decode_csel}
use gonidbg.Arm64.DpReg.Compare.{cond-exec_arith}
use gonidbg.Arm64.DpReg.Wide.{adds-adc, subs-sbc, umulh-madd, smulh_lem, widen}
use gonidbg.Arm64.Branch.{decode_branch_sys, exec_branch}
use gonidbg.Arm64.Branch.Targets.{b_word, exec_branch-b_word}
use gonidbg.Arm64.System.{exec_system, reg_nzcv}
use gonidbg.Arm64.System.Registers.{msr-mrs}
use gonidbg.Arm64.Words.Counts.{clz64_lem}
use gonidbg.Arm64.State.{IsCpu, IsInst}
use gonidbg.Arm64.State.Frame.{IsFrame, exec-IsFrame}
use gonidbg.Arm64.State.Sets.{imm_sets, arith_sets, cond_sets}
use gonidbg.Arm64.DpReg.Conditional.{exec_cond}
use gonidbg.Arm64.Step.{decode, step, next}
use gonidbg.Arm64.Step.Invariant.{Keeps, step-IsCpu, decode-IsInst}
use gonidbg.Arm64.Step.Programs.{wrote, run_words, loaded, load_words, run_words-moves}

-- X1 and X2 hold the extreme words, X3 a small one, and the flags are N and C.
abbrev start : Cpu
start = record {
  r = λ n.
      if n == 1 then 2 ^ 63 else if n == 2 then 2 ^ 64 - 1 else if n == 3 then 0x1234_5678 else 0;
  pc = 0x1000;
  nzcv = 0xa000_0000;
  v = λ n. record { lo = 0; hi = 0 };
  fpcr = 0;
  fpsr = 0;
  tpidr = 0;
  tpidrro = 0;
  excl_addr = 0;
  excl_val = 0;
  excl_val2 = 0;
  excl_size = 0;
  excl_valid = false;
  icount = 0;
}

start-IsCpu : IsCpu start
start-IsCpu = record {
  zero_register = refl;
  registers = λ n. ground arith;
  flags = (omega arith, refl);
  pc_fits = omega arith;
  fpcr_fits = omega arith;
  fpsr_fits = omega arith;
  tpidr_fits = omega arith;
  tpidrro_fits = omega arith;
  icount_fits = omega arith;
}

-- `X4 = X1 op X2`, `X5 = X2 op X3`, without a shift.
abbrev low_half : Inst
low_half = record zero_inst { rd = 4; rn = 1; rm = 2; ra = 31 }

abbrev high_half : Inst
high_half = record zero_inst { rd = 5; rn = 2; rm = 3 }

low_operand : sh_op64 start low_half < 2 ^ 64
unfolding sh_op64
low_operand = omega arith

-- ADD X0, X1, #8, then RET.
step-IsCpu_example : Keeps (step start 0x9100_2020)
step-IsCpu_example = step-IsCpu start 0x9100_2020 start-IsCpu (omega arith)

run_words-moves_example :
    run_words (load_words 7 0x0123_4567_89ab_cdef) (next start)
    ≡ next (loaded start 7 0x0123_4567_89ab_cdef 4)
run_words-moves_example = run_words-moves start 7 0x0123_4567_89ab_cdef (omega arith) (omega arith)

step-ubfm_word_example :
    step start (ubfm_word 0 3 8 15) ≡ next (wrote start 0 (0x1234_5678 / 2 ^ 8 % 2 ^ (15 - 8 + 1)))
step-ubfm_word_example =
    step-ubfm_word start 0 3 8 15 (omega arith) (omega arith) (omega arith) (omega arith)

cond-exec_arith_example :
    let after = exec_arith subs_reg64 start low_half in
    let a = start.r 1 in
    let b = sh_op64 start low_half in
    ((cond after 0 ≡ true) ↔ (a ≡ b))
    × ((cond after 2 ≡ true) ↔ (b ≤ a))
    × ((cond after 8 ≡ true) ↔ (b < a))
    × ((cond after 10 ≡ true) ↔ (signed64 b ≤ℤ signed64 a))
    × ((cond after 12 ≡ true) ↔ (signed64 b <ℤ signed64 a))
cond-exec_arith_example = cond-exec_arith start low_half (omega arith) low_operand

adds-adc_example :
    let after = exec_arith adc64 (exec_arith adds_reg64 start low_half) high_half in
    after.r 5 * 2 ^ 64 + after.r 4
    ≡ (start.r 2 * 2 ^ 64 + start.r 1 + (start.r 3 * 2 ^ 64 + sh_op64 start low_half)) % 2 ^ 128
adds-adc_example =
    adds-adc start low_half high_half start-IsCpu low_operand (omega arith) (omega arith)
      (omega arith)

subs-sbc_example :
    let after = exec_arith sbc64 (exec_arith subs_reg64 start low_half) high_half in
    after.r 5 * 2 ^ 64 + after.r 4
    ≡ (start.r 2 * 2 ^ 64 + start.r 1 + 2 ^ 128 - (start.r 3 * 2 ^ 64 + sh_op64 start low_half))
      % 2 ^ 128
subs-sbc_example =
    subs-sbc start low_half high_half start-IsCpu low_operand (omega arith) (omega arith)
      (omega arith)

umulh-madd_example :
    (exec_source umulh start low_half).r 4 * 2 ^ 64 + (exec_source madd64 start low_half).r 4
    ≡ start.r 1 * start.r 2
umulh-madd_example = umulh-madd start low_half low_half start-IsCpu refl refl refl

smulh_lem_example :
    (exec_source smulh start low_half).r 4 * 2 ^ 64 + start.r 1 * start.r 2 % 2 ^ 64
    ≡ widen (start.r 1) * widen (start.r 2) % 2 ^ 128
smulh_lem_example = smulh_lem start low_half start-IsCpu

exec_branch-b_word_example :
    let i = decode_branch_sys zero_inst (b_word 0x1000 0x0f00) 0x1000 in
    (i.fn ≡ some (of_branch b_always)) × ((exec_branch b_always start i).pc ≡ 0x0f00)
exec_branch-b_word_example =
    exec_branch-b_word start 0x1000 0x0f00 (omega arith) (omega arith) refl (omega arith)
      (omega arith)

add_flags64_lem_example :
    let a = 2 ^ 63 in
    let r = (a + a + 1) % 2 ^ 64 in
    add_flags64 a a 1 ≡ record {
      value = r;
      flags =
          nzcv_word
            (r / 2 ^ 63)
            (digit (r == 0))
            ((a + a + 1) / 2 ^ 64)
            (overflow (a / 2 ^ 63) (a / 2 ^ 63) (r / 2 ^ 63));
    }
add_flags64_lem_example =
    add_flags64_lem (2 ^ 63) (2 ^ 63) 1 (omega arith) (omega arith) (omega arith)

cond-meaning_example : cond start 10 ≡ meaning 1 0 1 0 10
cond-meaning_example =
    cond-meaning start 10 1 0 1 0 (omega arith) (omega arith) (omega arith) (omega arith) refl
      (omega arith)

exec-IsFrame_example :
    ((op : ImmOp) → IsFrame start low_half (imm_sets op) (exec_imm op start low_half))
    × ((op : ArithOp) → IsFrame start low_half (arith_sets op) (exec_arith op start low_half))
    × ((op : CondOp) → IsFrame start low_half (cond_sets op) (exec_cond op start low_half))
    × ((op : SourceOp) → IsFrame start low_half false (exec_source op start low_half))
exec-IsFrame_example = exec-IsFrame start low_half

-- CSET X9, NE, as CSINC.
abbrev cset : Inst
cset = record zero_inst { fn = some (of_cond csinc64); rd = 9; rn = 31; rm = 31; cond = 0 }

cset_decodes : decode zero_inst 0x9a9f_07e9 0x1000 ≡ some cset
unfolding decode decode_dp_reg decode_csel xr xw pick4x2 pick
cset_decodes = refl

decode-IsInst_example : IsInst cset
decode-IsInst_example =
    decode-IsInst 0x9a9f_07e9 0x1000 cset (omega arith) (omega arith) refl cset_decodes

restore_context-save_context_example :
    let back = restore_context (record start { pc = 0; nzcv = 0 }) (save_context start) in
    (back.r 2 ≡ (if is_architectural 2 then start.r 2 else start.r 2))
    × (back ≡ record start { r = back.r })
restore_context-save_context_example =
    restore_context-save_context start (record start { pc = 0; nzcv = 0 }) 2

abbrev read_flags : Inst
read_flags = record zero_inst { rd = 9; rn = 9; imm = reg_nzcv }

msr-mrs_example :
    (exec_system msr (record (exec_system mrs start read_flags) { nzcv = 0 }) read_flags).nzcv
    ≡ start.nzcv
msr-mrs_example =
    msr-mrs start (record (exec_system mrs start read_flags) { nzcv = 0 }) read_flags read_flags
      start-IsCpu refl refl refl

clz64_lem_example :
    let i = record zero_inst { rd = 0; rn = 3 } in
    let n = (exec_source clz64 start i).r 0 in
    (n < 64) × (2 ^ (63 - n) ≤ 0x1234_5678) × (0x1234_5678 < 2 ^ (64 - n))
clz64_lem_example =
    clz64_lem start (record zero_inst { rd = 0; rn = 3 }) (omega arith) (omega arith)
