-- ===== src/Arm64/LdSt/Tests.antt =====
-- Tests and witnesses for the loads and stores of internal/arm64/ldst.go, on one page at 0x1000.
use gonidbg.Base.{◌≡◌, ◌==◌, refl, arith, true, false, if◌then◌else◌, ◌&&◌}
use gonidbg.Arm64.Cpu.{Cpu}
use gonidbg.Arm64.Inst.{Inst, zero_inst, load_off, load_wb, load_reg, load_pair, ldp64_off}
use gonidbg.Arm64.Mem.{Memory}
use gonidbg.Arm64.Mem.Table.{walk, put_l1, put_l2}
use gonidbg.Arm64.Mem.Tlb.{init, flush_tlb}
use gonidbg.Arm64.Mem.Range.{map_pages, first_mapped}
use gonidbg.Arm64.Mem.Range.Keep.{map_pages-IsCoherent}
use gonidbg.Arm64.Mem.Hooks.{init-IsCoherent}
use gonidbg.Arm64.Mem.Coherent.{IsCoherent}
use gonidbg.Arm64.Mem.Guest.{
  HookCode, guest_page, resolve, call_invalid, read_slow, call_mem_hooks, fill_rtlb,
}
use gonidbg.Arm64.Mem.Guest.Lanes.{load_n, le_load}
use gonidbg.Arm64.Mem.Guest.Access.{read64, read_n, write_n}
use gonidbg.Arm64.LdSt.{Ran, on_got}
use gonidbg.Arm64.LdSt.Access.{addr_for}
use gonidbg.Arm64.LdSt.Pairs.{load_pair_op}
use gonidbg.Arm64.LdSt.Exclusive.{ldxr_op, stxr_op}
use gonidbg.Arm64.LdSt.Decode.{by_mode, ldst_op}
use gonidbg.Arm64.LdSt.Hot.{ldp64_off_op, ldp64_miss}
use gonidbg.Arm64.LdSt.Exec.{exec_ldst}
use gonidbg.Arm64.LdSt.Faults.{after_fault, IsUntouched, exec_ldst-IsUntouched}
use gonidbg.Arm64.LdSt.Agree.{exec_ldst-ldst_op}
use gonidbg.Arm64.LdSt.Monitor.{clear, reports, cpu_of, memory_of, ldxr-stxr}

abbrev idle : HookCode
idle = record { mem_hook = λ fn a n v m. m; invalid_hook = λ fn k a n v m. (false, m) }

unfoldable one_page : Memory
one_page = map_pages 3 1 1 init

one_page-IsCoherent : IsCoherent one_page
unfolding one_page first_mapped init walk flush_tlb
one_page-IsCoherent = map_pages-IsCoherent 3 1 1 init init-IsCoherent (omega arith) refl

-- X0 points to the last eight bytes of the page.
abbrev start : Cpu
start = record {
  r = λ n. if n == 0 then 8184 else 0;
  pc = 64;
  nzcv = 0;
  v = λ n. record { lo = 0; hi = 0 };
  fpcr = 0;
  fpsr = 0;
  tpidr = 0;
  tpidrro = 0;
  excl_addr = 0;
  excl_val = 0;
  excl_val2 = 0;
  excl_size = 0;
  excl_valid = false;
  icount = 0;
}

-- LDP X0, X1, [X0]
abbrev pair_inst : Inst
pair_inst = record zero_inst { ra = 1; sz = 8 }

-- The page after the pair's first half is not mapped. The specialised handler has assigned X0 when
-- the second read faults; the generic one has not.
ldp64_off_faults : (after_fault start (exec_ldst idle ldp64_off start pair_inst one_page)).r 0 ≡ 0
unfolding exec_ldst ldp64_off_op ldp64_miss guest_page resolve call_invalid read64 read_slow
    call_mem_hooks fill_rtlb load_n le_load one_page map_pages init flush_tlb walk put_l1 put_l2
ldp64_off_faults = refl

load_pair_faults :
    (after_fault start (exec_ldst idle load_pair start pair_inst one_page)).r 0 ≡ 8184
unfolding exec_ldst load_pair_op guest_page resolve call_invalid read_n read64 read_slow
    call_mem_hooks fill_rtlb load_n le_load one_page map_pages init flush_tlb walk put_l1 put_l2
    addr_for
load_pair_faults = refl

-- LDR X2, [X0, #8], past the end of the page.
abbrev load_inst : Inst
load_inst = record zero_inst { rd = 2; sz = 8; imm = 8 }

exec_ldst-IsUntouched_example :
    IsUntouched start (exec_ldst idle load_wb start (record load_inst { cond = 1 }) one_page)
exec_ldst-IsUntouched_example =
    exec_ldst-IsUntouched idle load_wb start (record load_inst { cond = 1 }) one_page refl

exec_ldst-ldst_op_example :
    exec_ldst idle (ldst_op load_inst false true) start load_inst one_page
    ≡ exec_ldst idle (by_mode 0 load_off load_wb load_reg) start load_inst one_page
unfolding one_page map_pages init flush_tlb
exec_ldst-ldst_op_example =
    exec_ldst-ldst_op idle start one_page load_inst one_page-IsCoherent refl refl

-- The parts of an end.
-- LDXR X2, [X0], then STXR W3, X4, [X0].
abbrev exclusive : Inst
exclusive = record zero_inst { rd = 2; sz = 8 }

abbrev store_exclusive : Inst
store_exclusive = record zero_inst { rd = 4; ra = 3; sz = 8 }

abbrev loaded : Ran
loaded = ldxr_op idle start exclusive one_page

ldxr-stxr_example :
    let d = cpu_of loaded in
    let n = memory_of loaded in
    let stored = stxr_op idle d store_exclusive n in
    (stored ≡ (
      if (d.r 0 == 8184) && (8 == 8)
      then on_got
          (write_n idle d.pc (d.r 0) 8 (d.r 4) n)
          (clear d)
          (λ u l. reports d store_exclusive 0 l)
      else reports d store_exclusive 1 n))
    × (stxr_op idle (cpu_of stored) store_exclusive (memory_of stored)
        ≡ reports (cpu_of stored) store_exclusive 1 (memory_of stored))
unfolding ldxr_op guest_page resolve call_invalid read_n read64 read_slow call_mem_hooks fill_rtlb
    load_n le_load one_page map_pages init flush_tlb walk put_l1 put_l2
ldxr-stxr_example =
    ldxr-stxr idle start (cpu_of loaded) exclusive store_exclusive store_exclusive one_page
      (memory_of loaded) refl
