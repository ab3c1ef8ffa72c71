-- ===== src/Arm64/LdSt/Faults.antt =====
-- What a fault leaves of the registers in internal/arm64/ldst.go.
use gonidbg.Base.{
  ℕ, ◌≡◌, refl, Bool, true, false, ◌==◌, ◌&&◌, leb, ltb, field, add64, if◌then◌else◌, ◌-◌, ◌%◌, ◌^◌,
  ◌+◌, ◌*◌,
}
use gonidbg.Arm64.Cpu.{Cpu}
use gonidbg.Arm64.Inst.{
  Inst, LdStOp, load_off, load_wb, load_reg, store_off, store_wb, store_reg, v_load_off, v_load_wb,
  v_load_reg, v_store_off, v_store_wb, v_store_reg, load_pair, store_pair, v_load_pair,
  v_store_pair, ldxr, ldxp, stxr, stxp, cas, swp, ld_atomic, simd_load_multi, simd_store_multi,
  ldr64_off, ldr32_off, ldrb64_off, str64_off, str32_off, strb64_off, ldr64_reg, ldr32_reg,
  ldrb64_reg, str64_reg, str32_reg, strb64_reg, ldp64_off, stp64_off,
}
use gonidbg.Arm64.Mem.{Memory}
use gonidbg.Arm64.Mem.Guest.{HookCode, mem_read, guest_page, Got, got, fault, store_array}
use gonidbg.Arm64.Mem.Guest.Access.{hit, entry_data, read64, write64, read_n, check_write}
use gonidbg.Arm64.LdSt.{Ran, ran, raised, on_got, then_ran}
use gonidbg.Arm64.LdSt.Access.{
  ld_int, st_int, addr_for, v_load, v_load_full, v_load_low, v_store, v_store_full, v_store_low,
  set_r, done, addr_off, at_off, at_wb, at_reg,
}
use gonidbg.Arm64.LdSt.Pairs.{load_pair_op, store_pair_op, v_store_pair_op}
use gonidbg.Arm64.LdSt.Exclusive.{ldxr_op, ldxp_op, cas_op, cas_store, swp_op, ld_atomic_op}
use gonidbg.Arm64.LdSt.Multi.{simd_load_multi_op, simd_store_multi_op}
use gonidbg.Arm64.LdSt.Hot.{
  hot_load, hot_load_byte, hot_store64, hot_store32, hot_store_byte, stp64_off_op, stp64_miss,
}
use gonidbg.Arm64.LdSt.Exec.{exec_ldst}

-- The registers after a fault, or `c` where there is none.
abbrev pub after_fault : Cpu → Ran → Cpu
after_fault c (ran d m) = c
after_fault c (raised e d m) = d

-- An end that is no fault, or a fault with the registers of before.
pub record IsUntouched (c : Cpu) (r : Ran) : Type 0 where
  pub kept : after_fault c r ≡ c

fine : (c d : Cpu) (m : Memory) → IsUntouched c (ran d m)
fine c d m = record { kept = refl }

on_got-IsUntouched :
    {A : Type 0} (g : Got A) (c : Cpu) (f : A → Memory → Ran)
    → ((a : A) (m : Memory) → IsUntouched c (f a m))
    → IsUntouched c (on_got g c f)
on_got-IsUntouched (got a m) c f h = h a m
on_got-IsUntouched (fault e m) c f h = record { kept = refl }

-- What does not fault keeps the promise.
then_ran-IsUntouched :
    (c : Cpu) (r : Ran) (f : Cpu → Memory → Ran)
    → IsUntouched c r
    → ((d : Cpu) (m : Memory) → IsUntouched c (f d m))
    → IsUntouched c (then_ran r f)
then_ran-IsUntouched c (ran d m) f h g = g d m
then_ran-IsUntouched c (raised e d m) f h g = h

if-IsUntouched :
    (c : Cpu) (b : Bool) (x y : Ran)
    → IsUntouched c x
    → IsUntouched c y
    → IsUntouched c (if b then x else y)
if-IsUntouched c true x y h g = h
if-IsUntouched c false x y h g = g

module _ (code : HookCode) (c : Cpu) (i : Inst) where
  ld_int-IsUntouched : (a : ℕ) (m : Memory) → IsUntouched c (ld_int code c i a m)
  unfolding ld_int
  ld_int-IsUntouched a m = on_got-IsUntouched _ c _ (λ v n. fine c _ n)

  st_int-IsUntouched : (a : ℕ) (m : Memory) → IsUntouched c (st_int code c i a m)
  unfolding st_int
  st_int-IsUntouched a m = on_got-IsUntouched _ c _ (λ v n. fine c _ n)

  v_load-IsUntouched : (a : ℕ) (m : Memory) → IsUntouched c (v_load code c i a m)
  unfolding v_load v_load_full v_load_low
  v_load-IsUntouched a m =
      if-IsUntouched c (i.sz == 16) (v_load_full code c i a m) (v_load_low code c i a m)
        (on_got-IsUntouched (guest_page code c.pc mem_read a 16 0 m) c _ (λ p n.
          on_got-IsUntouched (read64 code c.pc a n) c _
            (λ lo n. on_got-IsUntouched (read64 code c.pc (add64 a 8) n) c _ (λ hi n. fine c _ n))))
        (on_got-IsUntouched _ c _ (λ v n. fine c _ n))

  v_store-IsUntouched : (a : ℕ) (m : Memory) → IsUntouched c (v_store code c i a m)
  unfolding v_store v_store_full v_store_low
  v_store-IsUntouched a m =
      if-IsUntouched c (i.sz == 16) (v_store_full code c i a m) (v_store_low code c i a m)
        (on_got-IsUntouched (check_write code c.pc a 16 m) c _ (λ p n.
          on_got-IsUntouched (write64 code c.pc a (c.v i.rd).lo n) c _ (λ lo n.
            on_got-IsUntouched (write64 code c.pc (add64 a 8) (c.v i.rd).hi n) c _
              (λ hi n. fine c _ n))))
        (on_got-IsUntouched _ c _ (λ v n. fine c _ n))

  -- The three addressing modes over an access.
  module _ (access : Cpu → Inst → ℕ → Memory → Ran)
      (keeps : (a : ℕ) (m : Memory) → IsUntouched c (access c i a m)) (m : Memory) where
    off-IsUntouched : IsUntouched c (at_off access c i m)
    unfolding at_off
    off-IsUntouched = then_ran-IsUntouched c _ _ (keeps _ m) (λ d n. fine c _ n)

    wb-IsUntouched : IsUntouched c (at_wb access c i m)
    unfolding at_wb
    wb-IsUntouched = then_ran-IsUntouched c _ _ (keeps _ m) (λ d n. fine c _ n)

    reg-IsUntouched : IsUntouched c (at_reg access c i m)
    unfolding at_reg
    reg-IsUntouched = then_ran-IsUntouched c _ _ (keeps _ m) (λ d n. fine c _ n)

-- The handlers that assign no register before their last access: all but two pairs, which assign
-- the first of two registers on the way, and the store-exclusives, which clear the monitor.
abbrev pub is_late : LdStOp → Bool
is_late ldp64_off = false
is_late v_load_pair = false
is_late stxr = false
is_late stxp = false
is_late op = true

-- A load or store other than the two early pairs and the store-exclusives that ends with a fault
-- has changed no register, neither its destinations nor a base that is to be written back: the
-- instruction can be run again.
pub exec_ldst-IsUntouched :
    (code : HookCode) (op : LdStOp) (c : Cpu) (i : Inst) (m : Memory)
    → is_late op ≡ true
    → IsUntouched c (exec_ldst code op c i m)
unfolding exec_ldst load_pair_op store_pair_op v_store_pair_op ldxr_op ldxp_op cas_op swp_op
    ld_atomic_op simd_load_multi_op simd_store_multi_op hot_load hot_load_byte hot_store64
    hot_store32 hot_store_byte stp64_off_op stp64_miss cas_store
exec_ldst-IsUntouched code load_off c i m h =
    off-IsUntouched code c i (ld_int code) (ld_int-IsUntouched code c i) m
exec_ldst-IsUntouched code load_wb c i m h =
    wb-IsUntouched code c i (ld_int code) (ld_int-IsUntouched code c i) m
exec_ldst-IsUntouched code load_reg c i m h =
    reg-IsUntouched code c i (ld_int code) (ld_int-IsUntouched code c i) m
exec_ldst-IsUntouched code store_off c i m h =
    off-IsUntouched code c i (st_int code) (st_int-IsUntouched code c i) m
exec_ldst-IsUntouched code store_wb c i m h =
    wb-IsUntouched code c i (st_int code) (st_int-IsUntouched code c i) m
exec_ldst-IsUntouched code store_reg c i m h =
    reg-IsUntouched code c i (st_int code) (st_int-IsUntouched code c i) m
exec_ldst-IsUntouched code v_load_off c i m h =
    off-IsUntouched code c i (v_load code) (v_load-IsUntouched code c i) m
exec_ldst-IsUntouched code v_load_wb c i m h =
    wb-IsUntouched code c i (v_load code) (v_load-IsUntouched code c i) m
exec_ldst-IsUntouched code v_load_reg c i m h =
    reg-IsUntouched code c i (v_load code) (v_load-IsUntouched code c i) m
exec_ldst-IsUntouched code v_store_off c i m h =
    off-IsUntouched code c i (v_store code) (v_store-IsUntouched code c i) m
exec_ldst-IsUntouched code v_store_wb c i m h =
    wb-IsUntouched code c i (v_store code) (v_store-IsUntouched code c i) m
exec_ldst-IsUntouched code v_store_reg c i m h =
    reg-IsUntouched code c i (v_store code) (v_store-IsUntouched code c i) m
exec_ldst-IsUntouched code load_pair c i m h =
    on_got-IsUntouched (guest_page code c.pc mem_read (addr_for c i) (2 * i.sz) 0 m) c _
      (λ p n. on_got-IsUntouched _ c _ (λ v n. fine c _ n))
exec_ldst-IsUntouched code store_pair c i m h =
    on_got-IsUntouched (check_write code c.pc (addr_for c i) (2 * i.sz) m) c _
      (λ p n. on_got-IsUntouched _ c _ (λ v n. fine c _ n))
exec_ldst-IsUntouched code v_store_pair c i m h =
    on_got-IsUntouched (check_write code c.pc (addr_for c i) (2 * i.sz) m) c _
      (λ p n. on_got-IsUntouched _ c _ (λ v n. fine c _ n))
exec_ldst-IsUntouched code v_load_pair c i m h = cc
exec_ldst-IsUntouched code ldxr c i m h = on_got-IsUntouched _ c _ (λ v n. fine c _ n)
exec_ldst-IsUntouched code ldxp c i m h =
    on_got-IsUntouched (guest_page code c.pc mem_read (c.r i.rn) (2 * i.sz) 0 m) c _
      (λ p n. on_got-IsUntouched _ c _ (λ v n. fine c _ n))
exec_ldst-IsUntouched code stxr c i m h = cc
exec_ldst-IsUntouched code stxp c i m h = cc
exec_ldst-IsUntouched code cas c i m h = on_got-IsUntouched _ c _ (λ old n.
    if-IsUntouched c (old == (if ltb i.sz 8 then c.r i.rm % 2 ^ (8 * i.sz) else c.r i.rm))
      (cas_store code old c i (c.r i.rn) n) (done (set_r c i.ra old) n)
      (on_got-IsUntouched _ c _ (λ u n. fine c _ n)) (fine c _ n))
exec_ldst-IsUntouched code swp c i m h =
    on_got-IsUntouched (read_n code c.pc (c.r i.rn) i.sz m) c _
      (λ p n. on_got-IsUntouched _ c _ (λ v n. fine c _ n))
exec_ldst-IsUntouched code ld_atomic c i m h =
    on_got-IsUntouched (read_n code c.pc (c.r i.rn) i.sz m) c _
      (λ p n. on_got-IsUntouched _ c _ (λ v n. fine c _ n))
exec_ldst-IsUntouched code simd_load_multi c i m h =
    on_got-IsUntouched (guest_page code c.pc mem_read (c.r i.rn) (i.sh * i.amt) 0 m) c _
      (λ p n. on_got-IsUntouched _ c _ (λ v n. fine c _ n))
exec_ldst-IsUntouched code simd_store_multi c i m h =
    on_got-IsUntouched (check_write code c.pc (c.r i.rn) (i.sh * i.amt) m) c _
      (λ p n. on_got-IsUntouched _ c _ (λ v n. fine c _ n))
exec_ldst-IsUntouched code ldr64_off c i m h = on_got-IsUntouched _ c _ (λ v n. fine c _ n)
exec_ldst-IsUntouched code ldr32_off c i m h = on_got-IsUntouched _ c _ (λ v n. fine c _ n)
exec_ldst-IsUntouched code ldrb64_off c i m h = on_got-IsUntouched _ c _ (λ v n. fine c _ n)
exec_ldst-IsUntouched code str64_off c i m h = on_got-IsUntouched _ c _ (λ v n. fine c _ n)
exec_ldst-IsUntouched code str32_off c i m h = on_got-IsUntouched _ c _ (λ v n. fine c _ n)
exec_ldst-IsUntouched code strb64_off c i m h = on_got-IsUntouched _ c _ (λ v n. fine c _ n)
exec_ldst-IsUntouched code ldr64_reg c i m h = on_got-IsUntouched _ c _ (λ v n. fine c _ n)
exec_ldst-IsUntouched code ldr32_reg c i m h = on_got-IsUntouched _ c _ (λ v n. fine c _ n)
exec_ldst-IsUntouched code ldrb64_reg c i m h = on_got-IsUntouched _ c _ (λ v n. fine c _ n)
exec_ldst-IsUntouched code str64_reg c i m h = on_got-IsUntouched _ c _ (λ v n. fine c _ n)
exec_ldst-IsUntouched code str32_reg c i m h = on_got-IsUntouched _ c _ (λ v n. fine c _ n)
exec_ldst-IsUntouched code strb64_reg c i m h = on_got-IsUntouched _ c _ (λ v n. fine c _ n)
exec_ldst-IsUntouched code ldp64_off c i m h = cc
exec_ldst-IsUntouched code stp64_off c i m h =
    let a = addr_off c i in
    let off = field a 0 12 in
    let d = entry_data m.wtlb a in
    if-IsUntouched c (hit m.wtlb a && leb off (4096 - 16))
      (done c (store_array d (off + 8) 8 (c.r i.ra) (store_array d off 8 (c.r i.rd) m)))
      (stp64_miss code c i a m) (fine c _ _)
      (on_got-IsUntouched (check_write code c.pc a 16 m) c _ (λ p n.
        on_got-IsUntouched (write64 code c.pc a (c.r i.rd) n) c _ (λ u n.
          on_got-IsUntouched (write64 code c.pc (add64 a 8) (c.r i.ra) n) c _ (λ u n. fine c _ n))))
