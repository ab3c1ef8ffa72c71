-- ===== src/Arm64/LdSt/Monitor.antt =====
-- The exclusive monitor of internal/arm64/ldst.go.
use gonidbg.Base.{ℕ, ◌≡◌, refl, arith, Bool, true, false, ◌&&◌, ◌==◌, if◌then◌else◌}
use gonidbg.Arm64.Cpu.{Cpu}
use gonidbg.Arm64.Inst.{Inst}
use gonidbg.Arm64.Mem.{Memory}
use gonidbg.Arm64.Mem.Guest.{HookCode, Got, got, fault}
use gonidbg.Arm64.Mem.Guest.Access.{read_n, write_n}
use gonidbg.Arm64.LdSt.{Ran, ran, raised, on_got}
use gonidbg.Arm64.LdSt.Access.{set_r, done}
use gonidbg.Arm64.LdSt.Exclusive.{monitor, exclusive_ok, ldxr_op, stxr_op}

-- A state without the monitor.
abbrev pub clear : Cpu → Cpu
clear c = record c { excl_valid = false }

-- The end of a store-exclusive that reports `x` and leaves no monitor.
abbrev pub reports : Cpu → Inst → ℕ → Memory → Ran
reports c j x m = done (set_r (clear c) j.ra x) m

-- The registers and the memory where a handler ends, with a fault or without.
abbrev pub cpu_of : Ran → Cpu
cpu_of (ran c m) = c
cpu_of (raised e c m) = c

abbrev pub memory_of : Ran → Memory
memory_of (ran c m) = m
memory_of (raised e c m) = m

-- Whether the monitor of `d` is for these bytes.
abbrev watches : Cpu → ℕ → ℕ → Bool
watches d addr size = d.excl_valid && (d.excl_addr == addr) && (d.excl_size == size)

-- What the monitor says after a load-exclusive that ends.
watches-monitor :
    (r : Got ℕ) (c d : Cpu) (rd addr size addr2 size2 : ℕ) (m : Memory)
    → on_got r c (λ v n. done (monitor (set_r c rd v) addr v c.excl_val2 size) n) ≡ ran d m
    → watches d addr2 size2 ≡ (addr2 == addr) && (size2 == size)
watches-monitor (got v n) c d rd addr size addr2 size2 m e = ground (arith, e)
watches-monitor (fault f n) c d rd addr size addr2 size2 m e = cc

-- A store-exclusive takes the monitor away, however it ends.
stxr-clears :
    (code : HookCode) (d : Cpu) (j : Inst) (n : Memory)
    → (cpu_of (stxr_op code d j n)).excl_valid ≡ false
unfolding stxr_op exclusive_ok
stxr-clears code d j n =
    go (watches d (d.r j.rn) j.sz) (write_n code d.pc (d.r j.rn) j.sz (d.r j.rd) n)
  where
    go :
        (granted : Bool) (w : Got Unit)
        → (cpu_of (
            if granted
            then on_got w (clear d) (λ u l. done (set_r (clear d) j.ra 0) l)
            else done (set_r (clear d) j.ra 1) n)).excl_valid
          ≡ false
    go true (got u l) = refl
    go true (fault f l) = refl
    go false w = refl

-- Without the monitor a store-exclusive fails.
stxr-refused :
    (code : HookCode) (e : Cpu) (k : Inst) (l : Memory)
    → e.excl_valid ≡ false
    → stxr_op code e k l ≡ reports e k 1 l
unfolding stxr_op exclusive_ok
stxr-refused code e k l h = rw h refl

-- After a load-exclusive that ends, a store-exclusive is granted exactly when it names the address
-- and the size of the load: then it writes, and reports 0 when the write ends; else it touches no
-- memory and reports 1. However it ends, also with a fault of the write, the next store-exclusive,
-- of any size and to any address, touches no memory and reports 1.
pub ldxr-stxr :
    (code : HookCode) (c d : Cpu) (i j k : Inst) (m n : Memory)
    → ldxr_op code c i m ≡ ran d n
    → let stored = stxr_op code d j n in
      (stored ≡ (
        if (d.r j.rn == c.r i.rn) && (j.sz == i.sz)
        then on_got
            (write_n code d.pc (d.r j.rn) j.sz (d.r j.rd) n)
            (clear d)
            (λ u l. reports d j 0 l)
        else reports d j 1 n))
      × (stxr_op code (cpu_of stored) k (memory_of stored)
          ≡ reports (cpu_of stored) k 1 (memory_of stored))
ldxr-stxr code c d i j k m n e = (granted, stxr-refused code _ k _ (stxr-clears code d j n))
  where
    on : watches d (d.r j.rn) j.sz ≡ (d.r j.rn == c.r i.rn) && (j.sz == i.sz)
    on =
        unfold ldxr_op in
        watches-monitor (read_n code c.pc (c.r i.rn) i.sz m) c d i.rd (c.r i.rn) i.sz (d.r j.rn)
          j.sz n e

    granted : stxr_op code d j n ≡ (
        if (d.r j.rn == c.r i.rn) && (j.sz == i.sz)
        then on_got
            (write_n code d.pc (d.r j.rn) j.sz (d.r j.rd) n)
            (clear d)
            (λ u l. reports d j 0 l)
        else reports d j 1 n)
    granted = unfold stxr_op exclusive_ok in rw on refl
