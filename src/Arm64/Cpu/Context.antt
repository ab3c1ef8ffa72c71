-- ===== src/Arm64/Cpu/Context.antt =====
-- `SaveContext` and `RestoreContext` of internal/arm64/cpu.go.
use gonidbg.Base.{ℕ, ◌≡◌, refl, arith, Bool, ltb, ◌||◌, ◌==◌, if◌then◌else◌}
use gonidbg.Arm64.Cpu.{Cpu, Vec, r_sp, update}

-- `R [33]uint64`: X0..X30, an unused slot, SP.
pub record Context : Type 0 where
  pub r : ℕ → ℕ
  pub pc : ℕ
  pub nzcv : ℕ
  pub v : ℕ → Vec
  pub fpcr : ℕ
  pub fpsr : ℕ
  pub tpidr : ℕ
  pub tpidrro : ℕ
  pub excl_addr : ℕ
  pub excl_val : ℕ
  pub excl_val2 : ℕ
  pub excl_size : ℕ
  pub excl_valid : Bool
  pub icount : ℕ

unfoldable pub save_context : Cpu → Context
save_context c = record {
  r = λ n. if ltb n 33 then c.r n else 0;
  pc = c.pc;
  nzcv = c.nzcv;
  v = c.v;
  fpcr = c.fpcr;
  fpsr = c.fpsr;
  tpidr = c.tpidr;
  tpidrro = c.tpidrro;
  excl_addr = c.excl_addr;
  excl_val = c.excl_val;
  excl_val2 = c.excl_val2;
  excl_size = c.excl_size;
  excl_valid = c.excl_valid;
  icount = c.icount;
}

unfoldable pub restore_context : Cpu → Context → Cpu
restore_context c x = record {
  r = update (λ n. if ltb n 31 then x.r n else c.r n) r_sp (x.r r_sp);
  pc = x.pc;
  nzcv = x.nzcv;
  v = x.v;
  fpcr = x.fpcr;
  fpsr = x.fpsr;
  tpidr = x.tpidr;
  tpidrro = x.tpidrro;
  excl_addr = x.excl_addr;
  excl_val = x.excl_val;
  excl_val2 = x.excl_val2;
  excl_size = x.excl_size;
  excl_valid = x.excl_valid;
  icount = x.icount;
}

-- The slots that a program can name other than the zero register: X0..X30 and SP.
abbrev pub is_architectural : ℕ → Bool
is_architectural n = ltb n 31 || (n == r_sp)

-- Restoring a snapshot, on whatever the CPU has become, brings back X0..X30, SP and every other
-- field of the state, and leaves the zero register, the sink and the slots above as they are.
pub restore_context-save_context :
    (c d : Cpu) (n : ℕ)
    → let back = restore_context d (save_context c) in
      (back.r n ≡ (if is_architectural n then c.r n else d.r n)) × (back ≡ record c { r = back.r })
unfolding restore_context save_context
restore_context-save_context c d n = (ground arith, refl)
