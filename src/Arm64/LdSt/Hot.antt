-- ===== src/Arm64/LdSt/Hot.antt =====
-- The specialised hot paths of internal/arm64/ldst.go, with the TLB inline.
use gonidbg.Base.{ℕ, ◌+◌, ◌-◌, ◌&&◌, leb, if◌then◌else◌, add64, field, u8, u32}
use gonidbg.Arm64.Cpu.{Cpu}
use gonidbg.Arm64.Inst.{Inst}
use gonidbg.Arm64.Mem.{Memory}
use gonidbg.Arm64.Mem.Guest.{HookCode, mem_read, guest_page, read_slow, write_slow, store_array}
use gonidbg.Arm64.Mem.Guest.Lanes.{load_n}
use gonidbg.Arm64.Mem.Guest.Access.{
  hit, fits, entry_data, fast_load, fast_store, read64, write64, check_write,
}
use gonidbg.Arm64.LdSt.{Ran, on_got}
use gonidbg.Arm64.LdSt.Access.{set_r, addr_off, done}

module _ (code : HookCode) where
  -- The inline loads and stores at an address; a byte always fits its page.
  unfoldable pub hot_load : ℕ → Cpu → Inst → ℕ → Memory → Ran
  hot_load size c i a m =
      on_got
        (if hit m.rtlb a && fits a size then fast_load a size m else read_slow code c.pc a size m) c
        (λ v m. done (set_r c i.rd v) m)

  unfoldable pub hot_load_byte : Cpu → Inst → ℕ → Memory → Ran
  hot_load_byte c i a m =
      on_got (if hit m.rtlb a then fast_load a 1 m else read_slow code c.pc a 1 m) c
        (λ v m. done (set_r c i.rd v) m)

  unfoldable pub hot_store64 : Cpu → Inst → ℕ → Memory → Ran
  hot_store64 c i a m =
      let v = c.r i.rd in
      on_got (if hit m.wtlb a && fits a 8 then fast_store a 8 v m else write_slow code c.pc a 8 v m)
        c (λ u m. done c m)

  unfoldable pub hot_store32 : Cpu → Inst → ℕ → Memory → Ran
  hot_store32 c i a m =
      let v = c.r i.rd in
      on_got
        (if hit m.wtlb a && fits a 4
          then fast_store a 4 (u32 v) m
          else write_slow code c.pc a 4 v m)
        c (λ u m. done c m)

  unfoldable pub hot_store_byte : Cpu → Inst → ℕ → Memory → Ran
  hot_store_byte c i a m =
      let v = c.r i.rd in
      on_got (if hit m.wtlb a then fast_store a 1 (u8 v) m else write_slow code c.pc a 1 v m) c
        (λ u m. done c m)

  -- On a miss the first register is assigned before the second is read.
  unfoldable pub ldp64_miss : Cpu → Inst → ℕ → Memory → Ran
  ldp64_miss c i a m = on_got (guest_page code c.pc mem_read a 16 0 m) c (λ p m.
      on_got (read64 code c.pc a m) c (λ v1 m.
        let c = set_r c i.rd v1 in
        on_got (read64 code c.pc (add64 a 8) m) c (λ v2 m. done (set_r c i.ra v2) m)))

  unfoldable pub ldp64_off_op : Cpu → Inst → Memory → Ran
  ldp64_off_op c i m =
      let a = addr_off c i in
      let off = field a 0 12 in
      let b = m.arrays (entry_data m.rtlb a) in
      if hit m.rtlb a && leb off (4096 - 16)
      then done (set_r (set_r c i.rd (load_n b off 8)) i.ra (load_n b (off + 8) 8)) m
      else ldp64_miss c i a m

  unfoldable pub stp64_miss : Cpu → Inst → ℕ → Memory → Ran
  stp64_miss c i a m = on_got (check_write code c.pc a 16 m) c (λ u m.
      on_got (write64 code c.pc a (c.r i.rd) m) c
        (λ u m. on_got (write64 code c.pc (add64 a 8) (c.r i.ra) m) c (λ u m. done c m)))

  unfoldable pub stp64_off_op : Cpu → Inst → Memory → Ran
  stp64_off_op c i m =
      let a = addr_off c i in
      let off = field a 0 12 in
      let d = entry_data m.wtlb a in
      if hit m.wtlb a && leb off (4096 - 16)
      then done c (store_array d (off + 8) 8 (c.r i.ra) (store_array d off 8 (c.r i.rd) m))
      else stp64_miss c i a m
