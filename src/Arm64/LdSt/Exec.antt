-- ===== src/Arm64/LdSt/Exec.antt =====
-- The call of a handler of internal/arm64/ldst.go, as internal/arm64/cpu.go makes it.
use gonidbg.Arm64.Cpu.{Cpu}
use gonidbg.Arm64.Inst.{
  Inst, LdStOp, load_off, load_wb, load_reg, store_off, store_wb, store_reg, v_load_off, v_load_wb,
  v_load_reg, v_store_off, v_store_wb, v_store_reg, load_pair, store_pair, v_load_pair,
  v_store_pair, ldxr, ldxp, stxr, stxp, cas, swp, ld_atomic, simd_load_multi, simd_store_multi,
  ldr64_off, ldr32_off, ldrb64_off, str64_off, str32_off, strb64_off, ldr64_reg, ldr32_reg,
  ldrb64_reg, str64_reg, str32_reg, strb64_reg, ldp64_off, stp64_off,
}
use gonidbg.Arm64.Mem.{Memory}
use gonidbg.Arm64.Mem.Guest.{HookCode}
use gonidbg.Arm64.LdSt.{Ran}
use gonidbg.Arm64.LdSt.Access.{ld_int, st_int, v_load, v_store, at_off, at_wb, at_reg}
use gonidbg.Arm64.LdSt.Handlers.{
  op_load_off, op_load_wb, op_load_reg, op_store_off, op_store_wb, op_store_reg, op_v_load_off,
  op_v_load_wb, op_v_load_reg, op_v_store_off, op_v_store_wb, op_v_store_reg, op_ldr64_off,
  op_ldr32_off, op_ldrb64_off, op_str64_off, op_str32_off, op_strb64_off, op_ldr64_reg,
  op_ldr32_reg, op_ldrb64_reg, op_str64_reg, op_str32_reg, op_strb64_reg,
}
use gonidbg.Arm64.LdSt.Pairs.{load_pair_op, store_pair_op, v_load_pair_op, v_store_pair_op}
use gonidbg.Arm64.LdSt.Exclusive.{ldxr_op, ldxp_op, stxr_op, stxp_op, cas_op, swp_op, ld_atomic_op}
use gonidbg.Arm64.LdSt.Multi.{simd_load_multi_op, simd_store_multi_op}
use gonidbg.Arm64.LdSt.Hot.{
  hot_load, hot_load_byte, hot_store64, hot_store32, hot_store_byte, ldp64_off_op, stp64_off_op,
}

-- `in.fn(c, in)` for the handlers of ldst.go.
unfoldable pub exec_ldst : HookCode → LdStOp → Cpu → Inst → Memory → Ran
unfolding ld_int st_int v_load v_store at_off at_wb at_reg load_pair_op store_pair_op v_load_pair_op
    v_store_pair_op ldxr_op ldxp_op stxr_op stxp_op cas_op swp_op ld_atomic_op simd_load_multi_op
    simd_store_multi_op hot_load hot_load_byte hot_store64 hot_store32 hot_store_byte ldp64_off_op
    stp64_off_op
exec_ldst code load_off c i m = op_load_off code c i m
exec_ldst code load_wb c i m = op_load_wb code c i m
exec_ldst code load_reg c i m = op_load_reg code c i m
exec_ldst code store_off c i m = op_store_off code c i m
exec_ldst code store_wb c i m = op_store_wb code c i m
exec_ldst code store_reg c i m = op_store_reg code c i m
exec_ldst code v_load_off c i m = op_v_load_off code c i m
exec_ldst code v_load_wb c i m = op_v_load_wb code c i m
exec_ldst code v_load_reg c i m = op_v_load_reg code c i m
exec_ldst code v_store_off c i m = op_v_store_off code c i m
exec_ldst code v_store_wb c i m = op_v_store_wb code c i m
exec_ldst code v_store_reg c i m = op_v_store_reg code c i m
exec_ldst code load_pair c i m = load_pair_op code c i m
exec_ldst code store_pair c i m = store_pair_op code c i m
exec_ldst code v_load_pair c i m = v_load_pair_op code c i m
exec_ldst code v_store_pair c i m = v_store_pair_op code c i m
exec_ldst code ldxr c i m = ldxr_op code c i m
exec_ldst code ldxp c i m = ldxp_op code c i m
exec_ldst code stxr c i m = stxr_op code c i m
exec_ldst code stxp c i m = stxp_op code c i m
exec_ldst code cas c i m = cas_op code c i m
exec_ldst code swp c i m = swp_op code c i m
exec_ldst code ld_atomic c i m = ld_atomic_op code c i m
exec_ldst code simd_load_multi c i m = simd_load_multi_op code c i m
exec_ldst code simd_store_multi c i m = simd_store_multi_op code c i m
exec_ldst code ldr64_off c i m = op_ldr64_off code c i m
exec_ldst code ldr32_off c i m = op_ldr32_off code c i m
exec_ldst code ldrb64_off c i m = op_ldrb64_off code c i m
exec_ldst code str64_off c i m = op_str64_off code c i m
exec_ldst code str32_off c i m = op_str32_off code c i m
exec_ldst code strb64_off c i m = op_strb64_off code c i m
exec_ldst code ldr64_reg c i m = op_ldr64_reg code c i m
exec_ldst code ldr32_reg c i m = op_ldr32_reg code c i m
exec_ldst code ldrb64_reg c i m = op_ldrb64_reg code c i m
exec_ldst code str64_reg c i m = op_str64_reg code c i m
exec_ldst code str32_reg c i m = op_str32_reg code c i m
exec_ldst code strb64_reg c i m = op_strb64_reg code c i m
exec_ldst code ldp64_off c i m = ldp64_off_op code c i m
exec_ldst code stp64_off c i m = stp64_off_op code c i m
