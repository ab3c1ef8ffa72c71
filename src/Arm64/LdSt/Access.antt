-- ===== src/Arm64/LdSt/Access.antt =====
-- The handlers of single registers in internal/arm64/ldst.go.
use gonidbg.Base.{ℕ, ◌*◌, ◌==◌, if◌then◌else◌, add64, shl64, u32}
use gonidbg.Arm64.Cpu.{Cpu, Vec, update, step_pc}
use gonidbg.Arm64.Inst.{Inst}
use gonidbg.Arm64.Words.{sext}
use gonidbg.Arm64.DpReg.Operand.{extend}
use gonidbg.Arm64.Mem.{Memory}
use gonidbg.Arm64.Mem.Guest.{HookCode, mem_read, guest_page}
use gonidbg.Arm64.Mem.Guest.Access.{read64, write64, read_n, write_n, check_write}
use gonidbg.Arm64.LdSt.{Ran, ran, on_got, then_ran, mode_pre, mode_post, ext_sign, ext_sign32}

-- `c.R[n] = v` and `c.V[n] = v`
abbrev pub set_r : Cpu → ℕ → ℕ → Cpu
set_r c n v = record c { r = update c.r n v }

abbrev pub set_v : Cpu → ℕ → Vec → Cpu
set_v c n w = record c { v = update c.v n w }

-- The addresses of the three modes.
abbrev pub addr_off : Cpu → Inst → ℕ
addr_off c i = add64 (c.r i.rn) i.imm

unfoldable pub addr_for : Cpu → Inst → ℕ
addr_for c i = if i.cond == mode_post then c.r i.rn else add64 (c.r i.rn) i.imm

abbrev pub addr_reg : Cpu → Inst → ℕ
addr_reg c i = add64 (c.r i.rn) (shl64 (extend (c.r i.rm) i.ra) i.amt)

unfoldable pub writeback : Cpu → Inst → ℕ → Cpu
writeback c i addr =
    if i.cond == mode_pre
    then set_r c i.rn addr
    else if i.cond == mode_post
    then set_r c i.rn (add64 addr i.imm)
    else c

-- `c.PC += 4`, at the end of a handler.
abbrev pub done : Cpu → Memory → Ran
done c m = ran (step_pc c) m

-- The value of a load, extended.
unfoldable pub extended : Inst → ℕ → ℕ
extended i v =
    if i.sh == ext_sign
    then sext v (i.sz * 8)
    else if i.sh == ext_sign32
    then u32 (sext v (i.sz * 8))
    else v

module _ (code : HookCode) where
  unfoldable pub ld_int : Cpu → Inst → ℕ → Memory → Ran
  unfolding extended
  ld_int c i addr m =
      on_got (read_n code c.pc addr i.sz m) c (λ v m. ran (set_r c i.rd (extended i v)) m)

  unfoldable pub st_int : Cpu → Inst → ℕ → Memory → Ran
  st_int c i addr m = on_got (write_n code c.pc addr i.sz (c.r i.rd) m) c (λ u m. ran c m)

  -- The two ways of `vLoad`: a full vector asks for its first page before it reads two halves.
  unfoldable pub v_load_full : Cpu → Inst → ℕ → Memory → Ran
  v_load_full c i addr m = on_got (guest_page code c.pc mem_read addr 16 0 m) c (λ p m.
      on_got (read64 code c.pc addr m) c (λ lo m.
        on_got (read64 code c.pc (add64 addr 8) m) c
          (λ hi m. ran (set_v c i.rd (record { lo = lo; hi = hi })) m)))

  unfoldable pub v_load_low : Cpu → Inst → ℕ → Memory → Ran
  v_load_low c i addr m =
      on_got (read_n code c.pc addr i.sz m) c
        (λ v m. ran (set_v c i.rd (record { lo = v; hi = 0 })) m)

  unfoldable pub v_load : Cpu → Inst → ℕ → Memory → Ran
  v_load c i addr m = if i.sz == 16 then v_load_full c i addr m else v_load_low c i addr m

  -- The two ways of `vStore`.
  unfoldable pub v_store_full : Cpu → Inst → ℕ → Memory → Ran
  v_store_full c i addr m = on_got (check_write code c.pc addr 16 m) c (λ u m.
      on_got (write64 code c.pc addr (c.v i.rd).lo m) c
        (λ u m. on_got (write64 code c.pc (add64 addr 8) (c.v i.rd).hi m) c (λ u m. ran c m)))

  unfoldable pub v_store_low : Cpu → Inst → ℕ → Memory → Ran
  v_store_low c i addr m = on_got (write_n code c.pc addr i.sz (c.v i.rd).lo m) c (λ u m. ran c m)

  unfoldable pub v_store : Cpu → Inst → ℕ → Memory → Ran
  v_store c i addr m = if i.sz == 16 then v_store_full c i addr m else v_store_low c i addr m

-- `opLoadOff` to `opVStoreReg`: the access of a kind at the address of a mode. The base is
-- written back after the access.
module _ (access : Cpu → Inst → ℕ → Memory → Ran) where
  unfoldable pub at_off : Cpu → Inst → Memory → Ran
  at_off c i m = then_ran (access c i (addr_off c i) m) done

  unfoldable pub at_wb : Cpu → Inst → Memory → Ran
  unfolding addr_for writeback
  at_wb c i m =
      let addr = addr_for c i in then_ran (access c i addr m) (λ c m. done (writeback c i addr) m)

  unfoldable pub at_reg : Cpu → Inst → Memory → Ran
  at_reg c i m = then_ran (access c i (addr_reg c i) m) done
