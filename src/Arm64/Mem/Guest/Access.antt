-- ===== src/Arm64/Mem/Guest/Access.antt =====
-- The fast paths of internal/arm64/mem.go, `Read8` to `Write64`, `ReadN`, `WriteN`, `checkWrite`.
use gonidbg.Base.{
  ℕ, ◌-◌, Bool, ◌&&◌, leb, ◌==◌, if◌then◌else◌, add64, sub64, shr, field, u8, u16, u32,
}
use gonidbg.Arm64.Mem.{Memory, TlbEntry}
use gonidbg.Arm64.Mem.Tlb.{tlb_slot}
use gonidbg.Arm64.Mem.Guest.{
  Got, got, then_got, HookCode, mem_write, guest_page, read_slow, write_slow, store_array,
}
use gonidbg.Arm64.Mem.Guest.Lanes.{load_n}

-- Whether the entry of a TLB is for the page of `a`.
abbrev pub hit : (ℕ → TlbEntry) → ℕ → Bool
hit tlb a = (tlb (tlb_slot (shr a 12))).vpn == shr a 12

-- Whether `size` bytes from `a` on stay in the page.
abbrev pub fits : ℕ → ℕ → Bool
fits a size = leb (field a 0 12) (4096 - size)

-- The array that the entry for `a` points to.
abbrev pub entry_data : (ℕ → TlbEntry) → ℕ → ℕ
entry_data tlb a = (tlb (tlb_slot (shr a 12))).contents

-- The load and the store on a hit.
abbrev pub fast_load : ℕ → ℕ → Memory → Got ℕ
fast_load a size m = got (load_n (m.arrays (entry_data m.rtlb a)) (field a 0 12) size) m

abbrev pub fast_store : ℕ → ℕ → ℕ → Memory → Got Unit
fast_store a size v m = got tt (store_array (entry_data m.wtlb a) (field a 0 12) size v m)

module _ (code : HookCode) (pc : ℕ) where
  unfoldable pub read8 : ℕ → Memory → Got ℕ
  read8 a m =
      if hit m.rtlb a
      then fast_load a 1 m
      else then_got (read_slow code pc a 1 m) (λ v m. got (u8 v) m)

  unfoldable pub read16 : ℕ → Memory → Got ℕ
  read16 a m =
      if hit m.rtlb a && fits a 2
      then fast_load a 2 m
      else then_got (read_slow code pc a 2 m) (λ v m. got (u16 v) m)

  unfoldable pub read32 : ℕ → Memory → Got ℕ
  read32 a m =
      if hit m.rtlb a && fits a 4
      then fast_load a 4 m
      else then_got (read_slow code pc a 4 m) (λ v m. got (u32 v) m)

  unfoldable pub read64 : ℕ → Memory → Got ℕ
  read64 a m = if hit m.rtlb a && fits a 8 then fast_load a 8 m else read_slow code pc a 8 m

  unfoldable pub write8 : ℕ → ℕ → Memory → Got Unit
  write8 a v m = if hit m.wtlb a then fast_store a 1 v m else write_slow code pc a 1 v m

  unfoldable pub write16 : ℕ → ℕ → Memory → Got Unit
  write16 a v m =
      if hit m.wtlb a && fits a 2 then fast_store a 2 v m else write_slow code pc a 2 v m

  unfoldable pub write32 : ℕ → ℕ → Memory → Got Unit
  write32 a v m =
      if hit m.wtlb a && fits a 4 then fast_store a 4 v m else write_slow code pc a 4 v m

  unfoldable pub write64 : ℕ → ℕ → Memory → Got Unit
  write64 a v m =
      if hit m.wtlb a && fits a 8 then fast_store a 8 v m else write_slow code pc a 8 v m

  -- `ReadN` and `WriteN`.
  unfoldable pub read_n : ℕ → ℕ → Memory → Got ℕ
  unfolding read8 read16 read32 read64
  read_n a size m =
      if size == 1
      then read8 a m
      else if size == 2
      then read16 a m
      else if size == 4
      then read32 a m
      else read64 a m

  unfoldable pub write_n : ℕ → ℕ → ℕ → Memory → Got Unit
  unfolding write8 write16 write32 write64
  write_n a size v m =
      if size == 1
      then write8 a (u8 v) m
      else if size == 2
      then write16 a (u16 v) m
      else if size == 4
      then write32 a (u32 v) m
      else write64 a v m

  unfoldable pub check_write : ℕ → ℕ → Memory → Got Unit
  check_write addr size m = then_got (guest_page code pc mem_write addr size 0 m) (λ p m.
      let last = sub64 (add64 addr size) 1 in
      if shr last 12 == shr addr 12
      then got tt m
      else then_got (guest_page code pc mem_write last size 0 m) (λ q m. got tt m))
