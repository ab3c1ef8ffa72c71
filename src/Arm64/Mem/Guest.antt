-- ===== src/Arm64/Mem/Guest.antt =====
-- Guest accesses of internal/arm64/mem.go: `guestPage`, the slow paths, the fast paths on a TLB hit.
pub mod Lanes
pub mod Access
use gonidbg.Base.{
  ℕ, zero, suc, ◌+◌, ◌-◌, ◌*◌, ◌/◌, ◌%◌, ◌^◌, Bool, true, false, not, ◌&&◌, ◌||◌, ltb, leb, ◌==◌,
  if◌then◌else◌, bit_and, bit_or, add64, shr, field, u8, u16, u32, List, [], ◌∷◌, Option, none,
  some,
}
use gonidbg.Arm64.Cpu.{update}
use gonidbg.Arm64.Mem.{Memory, Page, TlbEntry, MemHook, no_vpn, prot_read, prot_write, prot_exec}
use gonidbg.Arm64.Mem.Table.{lookup}
use gonidbg.Arm64.Mem.Tlb.{tlb_slot, page_data, writable}
use gonidbg.Arm64.Mem.Guest.Lanes.{load_n, store_n}

-- `MemRead`, `MemWrite` and `MemFetch`.
pub data Kind : Type 0 where
  mem_read mem_write mem_fetch : Kind

-- The kinds of an access that cannot proceed: `MemReadUnmapped`, `MemReadProt` and so on.
pub data FaultKind : Type 0 where
  unmapped protected : Kind → FaultKind

pub record Fault : Type 0 where
  pub kind : FaultKind
  pub addr : ℕ
  pub size : ℕ
  pub pc : ℕ

-- A guest access ends with a value or panics with a fault; what was changed stays changed.
pub data Got (A : Type 0) : Type 0 where
  got : A → Memory → Got A
  fault : Fault → Memory → Got A

abbrev pub then_got : {A B : Type 0} → Got A → (A → Memory → Got B) → Got B
then_got (got a m) f = f a m
then_got (fault e m) f = fault e m

-- The code of the hooks, which belongs to the callers: what hook number `fn` does to the memory.
pub record HookCode : Type 0 where
  pub mem_hook : ℕ → ℕ → ℕ → ℕ → Memory → Memory
  pub invalid_hook : ℕ → FaultKind → ℕ → ℕ → ℕ → Memory → Bool × Memory

abbrev pub need : Kind → ℕ
need mem_read = prot_read
need mem_write = prot_write
need mem_fetch = prot_exec

-- One round of `guestPage`: the page, or the kind of the fault.
pub data Resolved : Type 0 where
  page : Page → Resolved
  bad : FaultKind → Resolved

unfoldable pub resolve : Memory → Kind → ℕ → Resolved
resolve m kind addr = elim (lookup m (shr addr 12)) [
  | none ↦ bad (unmapped kind)
  | some p ↦ if bit_and p.prot (need kind) == 0 then bad (protected kind) else page p
]

-- The second round of `guestPage`, which is not tried again.
abbrev pub last_round : Fault → Memory → Resolved → Got Page
last_round f m (page p) = got p m
last_round f m (bad k) = fault (record f { kind = k }) m

abbrev pub hook_covers : ℕ → MemHook → Bool
hook_covers vpn h =
    let lo = vpn * 2 ^ 12 % 2 ^ 64 in
    ltb h.end h.begin || (leb h.begin (add64 lo 4095) && leb lo h.end)

unfoldable pub hooks_cover_page : List MemHook → ℕ → Bool
hooks_cover_page [] vpn = false
hooks_cover_page (h ∷ hs) vpn = hook_covers vpn h || hooks_cover_page hs vpn

abbrev pub is_empty : List MemHook → Bool
is_empty [] = true
is_empty (h ∷ hs) = false

-- A byte of a read across pages. A page that is gone by now reads as zero.
abbrev pub across_byte : Memory → ℕ → ℕ
across_byte m a = elim (lookup m (shr a 12)) [
  | none ↦ 0
  | some p ↦ elim p.contents [ none ↦ 0 | some d ↦ m.arrays d (field a 0 12) ]
]

-- The bytes `k .. k + n - 1` of such a read, or'ed into `acc`.
unfoldable pub read_across : Memory → ℕ → ℕ → ℕ → ℕ → ℕ
read_across m addr zero k acc = acc
read_across m addr (suc n) k acc =
    read_across m addr n (k + 1) (bit_or acc (across_byte m (add64 addr k) * 2 ^ (8 * k) % 2 ^ 64))

unfoldable pub fill_rtlb : ℕ → Page → Memory → Memory
fill_rtlb vpn p m = record m {
  rtlb = update m.rtlb (tlb_slot vpn) (record { vpn = vpn; contents = page_data p });
}

-- `(addr | pageMask) + 1`
abbrev pub next_page : ℕ → ℕ
next_page addr = add64 (bit_or addr 4095) 1

-- One array written at `off`.
abbrev pub store_array : ℕ → ℕ → ℕ → ℕ → Memory → Memory
store_array d off size v m = record m {
  arrays = update m.arrays d (store_n (m.arrays d) off size v);
}

-- A store to the array that `writable` gives.
abbrev pub put : ℕ → Page → ℕ → ℕ → ℕ → Memory → Memory
put vpn p off size v m = let (d, m) = writable m vpn p in store_array d off size v m

-- A byte of a write across pages. One whose page is gone is dropped.
abbrev pub put_found : Option Page → ℕ → ℕ → Memory → Memory
put_found none a byte m = m
put_found (some p) a byte m = put (shr a 12) p (field a 0 12) 1 byte m

-- The bytes `k .. k + n - 1` of such a write.
unfoldable pub write_across : ℕ → ℕ → ℕ → ℕ → Memory → Memory
write_across addr v zero k m = m
write_across addr v (suc n) k m =
    let a = add64 addr k in
    write_across addr v n (k + 1) (put_found (lookup m (shr a 12)) a (u8 (v / 2 ^ (8 * k))) m)

unfoldable pub fill_wtlb : ℕ → ℕ → Memory → Memory
fill_wtlb vpn d m = record m {
  wtlb = update m.wtlb (tlb_slot vpn) (record { vpn = vpn; contents = d });
}

-- The end of a write within a page.
unfoldable pub write_page : Bool → ℕ → ℕ → ℕ → Page → Memory → Memory
unfolding fill_wtlb
write_page hooked addr size v p m =
    let vpn = shr addr 12 in
    let (d, m) = writable m vpn p in
    store_array d (field addr 0 12) size v (if hooked then m else fill_wtlb vpn d m)

module _ (code : HookCode) (pc : ℕ) where
  -- Every hook is asked; whether one says that it handled the fault.
  unfoldable pub call_invalid : List ℕ → FaultKind → ℕ → ℕ → ℕ → Memory → Bool × Memory
  call_invalid [] kind addr size val m = (false, m)
  call_invalid (h ∷ hs) kind addr size val m =
      let (handled, m) = code.invalid_hook h kind addr size val m in
      let (later, m) = call_invalid hs kind addr size val m in (handled || later, m)

  -- The first round of `guestPage`.
  abbrev pub first_round : Kind → ℕ → ℕ → ℕ → Memory → Resolved → Got Page
  first_round kind addr size val m (page p) = got p m
  first_round kind addr size val m (bad fk) =
      let (handled, m) = call_invalid m.invalid fk addr size val m in
      let refused : Fault = record { kind = fk; addr = addr; size = size; pc = pc } in
      if handled then last_round refused m (resolve m kind addr) else fault refused m

  unfoldable pub guest_page : Kind → ℕ → ℕ → ℕ → Memory → Got Page
  unfolding call_invalid
  guest_page kind addr size val m = first_round kind addr size val m (resolve m kind addr)

  unfoldable pub call_mem_hooks : List MemHook → ℕ → ℕ → ℕ → Memory → Memory
  call_mem_hooks [] addr size val m = m
  call_mem_hooks (h ∷ hs) addr size val m =
      let fires = ltb h.end h.begin || (leb h.begin addr && leb addr h.end) in
      call_mem_hooks hs addr size val (if fires then code.mem_hook h.fn addr size val m else m)

  unfoldable pub read_slow : ℕ → ℕ → Memory → Got ℕ
  unfolding guest_page fill_rtlb
  read_slow addr size m =
      let off = field addr 0 12 in
      let vpn = shr addr 12 in
      if leb off (4096 - size)
      then then_got (guest_page mem_read addr size 0 m) (λ p m.
        if not (is_empty m.rhooks) && hooks_cover_page m.rhooks vpn
        then then_got (guest_page mem_read addr size 0 (call_mem_hooks m.rhooks addr size 0 m))
            (λ p m. got (load_n (m.arrays (page_data p)) off size) m)
        else got (load_n (m.arrays (page_data p)) off size) (fill_rtlb vpn p m))
      else then_got (guest_page mem_read addr size 0 m) (λ p m.
        then_got (guest_page mem_read (next_page addr) size 0 m) (λ q m.
          let m = call_mem_hooks m.rhooks addr size 0 m in got (read_across m addr size 0 0) m))

  unfoldable pub write_slow : ℕ → ℕ → ℕ → Memory → Got Unit
  unfolding guest_page write_page
  write_slow addr size v m =
      let vpn = shr addr 12 in
      if leb (field addr 0 12) (4096 - size)
      then then_got (guest_page mem_write addr size v m) (λ p m.
        if not (is_empty m.whooks) && hooks_cover_page m.whooks vpn
        then then_got (guest_page mem_write addr size v (call_mem_hooks m.whooks addr size v m))
            (λ p m. got tt (write_page true addr size v p m))
        else got tt (write_page false addr size v p m))
      else then_got (guest_page mem_write addr size v m) (λ p m.
        then_got (guest_page mem_write (next_page addr) size v m)
          (λ q m. got tt (write_across addr v size 0 (call_mem_hooks m.whooks addr size v m))))
