-- ===== src/Arm64/LdSt/Pairs.antt =====
-- The handlers of pairs in internal/arm64/ldst.go.
use gonidbg.Base.{ℕ, ◌*◌, ◌==◌, if◌then◌else◌, add64}
use gonidbg.Arm64.Cpu.{Cpu, Vec}
use gonidbg.Arm64.Inst.{Inst}
use gonidbg.Arm64.Words.{sext}
use gonidbg.Arm64.Mem.{Memory}
use gonidbg.Arm64.Mem.Guest.{HookCode, Got, mem_read, then_got, got, guest_page}
use gonidbg.Arm64.Mem.Guest.Access.{read64, write64, read_n, write_n, check_write}
use gonidbg.Arm64.LdSt.{Ran, on_got, ext_sign}
use gonidbg.Arm64.LdSt.Access.{set_r, set_v, addr_for, writeback, done}

module _ (code : HookCode) where
  -- Two reads of `n` bytes, and two writes, one after the other.
  abbrev pub read_two : ℕ → ℕ → ℕ → Memory → Got (ℕ × ℕ)
  read_two pc addr n m =
      then_got (read_n code pc addr n m)
        (λ v1 m. then_got (read_n code pc (add64 addr n) n m) (λ v2 m. got (v1, v2) m))

  abbrev pub write_two : ℕ → ℕ → ℕ → ℕ → ℕ → Memory → Got Unit
  write_two pc addr n v1 v2 m =
      then_got (write_n code pc addr n v1 m) (λ u m. write_n code pc (add64 addr n) n v2 m)

  unfoldable pub load_pair_op : Cpu → Inst → Memory → Ran
  unfolding addr_for writeback
  load_pair_op c i m =
      let addr = addr_for c i in
      let n = i.sz in
      let extend = λ (v : ℕ). if i.sh == ext_sign then sext v (n * 8) else v in
      on_got (guest_page code c.pc mem_read addr (2 * n) 0 m) c (λ p m.
        on_got (read_two c.pc addr n m) c (λ (v1, v2) m.
          done (writeback (set_r (set_r c i.rd (extend v1)) i.ra (extend v2)) i addr) m))

  unfoldable pub store_pair_op : Cpu → Inst → Memory → Ran
  unfolding addr_for writeback
  store_pair_op c i m =
      let addr = addr_for c i in
      on_got (check_write code c.pc addr (2 * i.sz) m) c (λ u m.
        on_got (write_two c.pc addr i.sz (c.r i.rd) (c.r i.ra) m) c
          (λ u m. done (writeback c i addr) m))

  -- A full register of a vector pair, as two halves.
  abbrev read_vec : ℕ → ℕ → Memory → Got Vec
  read_vec pc addr m = then_got (read64 code pc addr m) (λ lo m.
      then_got (read64 code pc (add64 addr 8) m) (λ hi m. got (record { lo = lo; hi = hi }) m))

  abbrev write_vec : ℕ → ℕ → Vec → Memory → Got Unit
  write_vec pc addr w m =
      then_got (write64 code pc addr w.lo m) (λ u m. write64 code pc (add64 addr 8) w.hi m)

  -- The first register is assigned before the second is read.
  unfoldable pub v_load_pair_op : Cpu → Inst → Memory → Ran
  unfolding addr_for writeback
  v_load_pair_op c i m =
      let addr = addr_for c i in
      let n = i.sz in
      on_got (guest_page code c.pc mem_read addr (2 * n) 0 m) c (λ p m.
        if n == 16
        then on_got (read_vec c.pc addr m) c (λ w1 m.
          let c = set_v c i.rd w1 in
          on_got (read_vec c.pc (add64 addr 16) m) c
            (λ w2 m. done (writeback (set_v c i.ra w2) i addr) m))
        else on_got (read_n code c.pc addr n m) c (λ v1 m.
          let c = set_v c i.rd (record { lo = v1; hi = 0 }) in
          on_got (read_n code c.pc (add64 addr n) n m) c
            (λ v2 m. done (writeback (set_v c i.ra (record { lo = v2; hi = 0 })) i addr) m)))

  unfoldable pub v_store_pair_op : Cpu → Inst → Memory → Ran
  unfolding addr_for writeback
  v_store_pair_op c i m =
      let addr = addr_for c i in
      let n = i.sz in
      on_got (check_write code c.pc addr (2 * n) m) c (λ u m.
        on_got
          (if n == 16
            then then_got (write_vec c.pc addr (c.v i.rd) m)
                (λ u m. write_vec c.pc (add64 addr 16) (c.v i.ra) m)
            else write_two c.pc addr n (c.v i.rd).lo (c.v i.ra).lo m)
          c (λ u m. done (writeback c i addr) m))
