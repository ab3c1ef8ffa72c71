-- ===== src/Arm64/LdSt/Handlers.antt =====
-- The handlers of internal/arm64/ldst.go for single registers: the generic ones for each addressing
-- mode, and the specialised ones.
use gonidbg.Arm64.Cpu.{Cpu}
use gonidbg.Arm64.Inst.{Inst}
use gonidbg.Arm64.Mem.{Memory}
use gonidbg.Arm64.Mem.Guest.{HookCode}
use gonidbg.Arm64.LdSt.{Ran}
use gonidbg.Arm64.LdSt.Access.{
  addr_off, addr_reg, ld_int, st_int, v_load, v_store, at_off, at_wb, at_reg,
}
use gonidbg.Arm64.LdSt.Hot.{hot_load, hot_load_byte, hot_store64, hot_store32, hot_store_byte}

module _ (code : HookCode) where
  abbrev pub op_load_off : Cpu → Inst → Memory → Ran
  op_load_off c i m = at_off (ld_int code) c i m

  abbrev pub op_load_wb : Cpu → Inst → Memory → Ran
  op_load_wb c i m = at_wb (ld_int code) c i m

  abbrev pub op_load_reg : Cpu → Inst → Memory → Ran
  op_load_reg c i m = at_reg (ld_int code) c i m

  abbrev pub op_store_off : Cpu → Inst → Memory → Ran
  op_store_off c i m = at_off (st_int code) c i m

  abbrev pub op_store_wb : Cpu → Inst → Memory → Ran
  op_store_wb c i m = at_wb (st_int code) c i m

  abbrev pub op_store_reg : Cpu → Inst → Memory → Ran
  op_store_reg c i m = at_reg (st_int code) c i m

  abbrev pub op_v_load_off : Cpu → Inst → Memory → Ran
  op_v_load_off c i m = at_off (v_load code) c i m

  abbrev pub op_v_load_wb : Cpu → Inst → Memory → Ran
  op_v_load_wb c i m = at_wb (v_load code) c i m

  abbrev pub op_v_load_reg : Cpu → Inst → Memory → Ran
  op_v_load_reg c i m = at_reg (v_load code) c i m

  abbrev pub op_v_store_off : Cpu → Inst → Memory → Ran
  op_v_store_off c i m = at_off (v_store code) c i m

  abbrev pub op_v_store_wb : Cpu → Inst → Memory → Ran
  op_v_store_wb c i m = at_wb (v_store code) c i m

  abbrev pub op_v_store_reg : Cpu → Inst → Memory → Ran
  op_v_store_reg c i m = at_reg (v_store code) c i m

  abbrev pub op_ldr64_off : Cpu → Inst → Memory → Ran
  op_ldr64_off c i m = hot_load code 8 c i (addr_off c i) m

  abbrev pub op_ldr32_off : Cpu → Inst → Memory → Ran
  op_ldr32_off c i m = hot_load code 4 c i (addr_off c i) m

  abbrev pub op_ldrb64_off : Cpu → Inst → Memory → Ran
  op_ldrb64_off c i m = hot_load_byte code c i (addr_off c i) m

  abbrev pub op_str64_off : Cpu → Inst → Memory → Ran
  op_str64_off c i m = hot_store64 code c i (addr_off c i) m

  abbrev pub op_str32_off : Cpu → Inst → Memory → Ran
  op_str32_off c i m = hot_store32 code c i (addr_off c i) m

  abbrev pub op_strb64_off : Cpu → Inst → Memory → Ran
  op_strb64_off c i m = hot_store_byte code c i (addr_off c i) m

  abbrev pub op_ldr64_reg : Cpu → Inst → Memory → Ran
  op_ldr64_reg c i m = hot_load code 8 c i (addr_reg c i) m

  abbrev pub op_ldr32_reg : Cpu → Inst → Memory → Ran
  op_ldr32_reg c i m = hot_load code 4 c i (addr_reg c i) m

  abbrev pub op_ldrb64_reg : Cpu → Inst → Memory → Ran
  op_ldrb64_reg c i m = hot_load_byte code c i (addr_reg c i) m

  abbrev pub op_str64_reg : Cpu → Inst → Memory → Ran
  op_str64_reg c i m = hot_store64 code c i (addr_reg c i) m

  abbrev pub op_str32_reg : Cpu → Inst → Memory → Ran
  op_str32_reg c i m = hot_store32 code c i (addr_reg c i) m

  abbrev pub op_strb64_reg : Cpu → Inst → Memory → Ran
  op_strb64_reg c i m = hot_store_byte code c i (addr_reg c i) m
