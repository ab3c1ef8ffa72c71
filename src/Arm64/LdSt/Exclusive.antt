-- ===== src/Arm64/LdSt/Exclusive.antt =====
-- Exclusives and atomics of internal/arm64/ldst.go. The decoder reaches no atomic, since `featLSE`
-- is false.
use gonidbg.Base.{
  ℕ, ◌-◌, ◌*◌, ◌%◌, ◌^◌, Bool, true, false, ◌&&◌, ltb, leb, ◌==◌, if◌then◌else◌, bit_and, bit_or,
  bit_xor, add64, not64,
}
use gonidbg.Arm64.Cpu.{Cpu}
use gonidbg.Arm64.Inst.{Inst}
use gonidbg.Arm64.Words.{sext}
use gonidbg.Arm64.Mem.{Memory}
use gonidbg.Arm64.Mem.Guest.{HookCode, mem_read, guest_page}
use gonidbg.Arm64.Mem.Guest.Access.{read_n, write_n, check_write}
use gonidbg.Arm64.LdSt.{Ran, on_got}
use gonidbg.Arm64.LdSt.Access.{set_r, done}
use gonidbg.Arm64.LdSt.Pairs.{read_two, write_two}

unfoldable pub mask : ℕ → ℕ
mask n = if leb 64 n then 2 ^ 64 - 1 else 2 ^ n - 1

-- What a load-exclusive remembers.
abbrev pub monitor : Cpu → ℕ → ℕ → ℕ → ℕ → Cpu
monitor c addr v1 v2 size = record c {
  excl_addr = addr;
  excl_val = v1;
  excl_val2 = v2;
  excl_size = size;
  excl_valid = true;
}

-- `exclusiveOK`: whether a store-exclusive succeeds, and the state without the monitor.
unfoldable pub exclusive_ok : Cpu → ℕ → ℕ → Bool × Cpu
exclusive_ok c addr size = (
  c.excl_valid && (c.excl_addr == addr) && (c.excl_size == size),
  record c { excl_valid = false },
)

-- `int64(a) < int64(b)`
abbrev pub slt64 : ℕ → ℕ → Bool
slt64 a b = ltb (add64 a (2 ^ 63)) (add64 b (2 ^ 63))

-- What `opLdAtomic` writes, by its operation.
unfoldable pub atomic_value : ℕ → ℕ → ℕ → ℕ → ℕ
unfolding mask
atomic_value sh n old s =
    if sh == 0
    then add64 old s
    else if sh == 1
    then bit_and old (not64 s)
    else if sh == 2
    then bit_xor old s
    else if sh == 3
    then bit_or old s
    else if sh == 4
    then (if slt64 (sext old n) (sext s n) then s else old)
    else if sh == 5
    then (if slt64 (sext s n) (sext old n) then s else old)
    else if sh == 6
    then (if ltb old (bit_and s (mask n)) then s else old)
    else if ltb (bit_and s (mask n)) old
    then s
    else old

module _ (code : HookCode) where
  unfoldable pub ldxr_op : Cpu → Inst → Memory → Ran
  ldxr_op c i m =
      let addr = c.r i.rn in
      on_got (read_n code c.pc addr i.sz m) c
        (λ v m. done (monitor (set_r c i.rd v) addr v c.excl_val2 i.sz) m)

  unfoldable pub ldxp_op : Cpu → Inst → Memory → Ran
  ldxp_op c i m =
      let addr = c.r i.rn in
      let n = i.sz in
      on_got (guest_page code c.pc mem_read addr (2 * n) 0 m) c (λ p m.
        on_got (read_two code c.pc addr n m) c
          (λ (v1, v2) m. done (monitor (set_r (set_r c i.rd v1) i.rm v2) addr v1 v2 (2 * n)) m))

  -- A store-exclusive that fails makes no access.
  unfoldable pub stxr_op : Cpu → Inst → Memory → Ran
  unfolding exclusive_ok
  stxr_op c i m =
      let addr = c.r i.rn in
      let (ok, c) = exclusive_ok c addr i.sz in
      if ok
      then on_got (write_n code c.pc addr i.sz (c.r i.rd) m) c (λ u m. done (set_r c i.ra 0) m)
      else done (set_r c i.ra 1) m

  unfoldable pub stxp_op : Cpu → Inst → Memory → Ran
  unfolding exclusive_ok
  stxp_op c i m =
      let addr = c.r i.rn in
      let n = i.sz in
      let (ok, c) = exclusive_ok c addr (2 * n) in
      if ok
      then on_got (check_write code c.pc addr (2 * n) m) c (λ u m.
        on_got (write_two code c.pc addr n (c.r i.rd) (c.r i.rm) m) c
          (λ u m. done (set_r c i.ra 0) m))
      else done (set_r c i.ra 1) m

  -- The end of `opCas` on a match.
  unfoldable pub cas_store : ℕ → Cpu → Inst → ℕ → Memory → Ran
  cas_store old c i addr m =
      on_got (write_n code c.pc addr i.sz (c.r i.rd) m) c (λ u m. done (set_r c i.ra old) m)

  unfoldable pub cas_op : Cpu → Inst → Memory → Ran
  cas_op c i m =
      let addr = c.r i.rn in
      let expected = if ltb i.sz 8 then c.r i.rm % 2 ^ (8 * i.sz) else c.r i.rm in
      on_got (read_n code c.pc addr i.sz m) c
        (λ old m. if old == expected then cas_store old c i addr m else done (set_r c i.ra old) m)

  unfoldable pub swp_op : Cpu → Inst → Memory → Ran
  swp_op c i m =
      let addr = c.r i.rn in
      on_got (read_n code c.pc addr i.sz m) c (λ old m.
        on_got (write_n code c.pc addr i.sz (c.r i.rm) m) c (λ u m. done (set_r c i.rd old) m))

  unfoldable pub ld_atomic_op : Cpu → Inst → Memory → Ran
  unfolding atomic_value
  ld_atomic_op c i m =
      let addr = c.r i.rn in
      on_got (read_n code c.pc addr i.sz m) c (λ old m.
        let v = atomic_value i.sh (i.sz * 8) old (c.r i.rm) in
        on_got (write_n code c.pc addr i.sz v m) c (λ u m. done (set_r c i.rd old) m))
