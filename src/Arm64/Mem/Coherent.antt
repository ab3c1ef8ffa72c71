-- ===== src/Arm64/Mem/Coherent.antt =====
-- The invariant of the caches of internal/arm64/mem.go.
pub mod Steps
pub mod Caches
pub mod Writable
pub mod Put
use gonidbg.Base.{
  ℕ, ◌+◌, ◌-◌, ◌*◌, ◌/◌, ◌%◌, ◌^◌, ◌<◌, ◌≡◌, ◌≢◌, Bool, true, false, not, ◌&&◌, ◌||◌, ltb, ◌==◌,
  bit_and, field, Option, none, some,
}
use gonidbg.Arm64.Mem.{Memory, Page, no_vpn, prot_read, prot_write, prot_exec, zero_page}
use gonidbg.Arm64.Mem.Table.{lookup}
use gonidbg.Arm64.Mem.Tlb.{tlb_slot, ctlb_slot, page_data}
use gonidbg.Arm64.Mem.Guest.{hooks_cover_page}

abbrev pub allows : Page → ℕ → Bool
allows p need = not (bit_and p.prot need == 0)

-- Whether a cache may serve reads of the page from array `d`.
abbrev pub serves_read : Option Page → ℕ → Bool
serves_read none d = false
serves_read (some p) d = allows p prot_read && (page_data p == d)

-- Whether it may serve writes: the array is the page's own, and no instruction of it is decoded.
abbrev pub serves_write : Option Page → ℕ → Bool
serves_write none d = false
serves_write (some p) d =
    allows p prot_write
    && elim p.contents [ none ↦ false | some b ↦ b == d ]
    && elim p.code [ none ↦ true | some c ↦ false ]

-- Whether it may serve the code page `code`.
abbrev pub serves_code : Option Page → Option ℕ → Bool
serves_code none code = false
serves_code (some p) none = false
serves_code (some p) (some c) = allows p prot_exec && elim p.code [ none ↦ false | some d ↦ d == c ]

-- The array that stands behind a page number; `zero_page` also where nothing is mapped.
abbrev pub data_of : Option Page → ℕ
data_of none = zero_page
data_of (some p) = page_data p

-- Whether the page's array, if it has one, is none of `zeroPage` and the arrays still to come.
abbrev pub in_heap : ℕ → Option Page → Bool
in_heap fresh none = true
in_heap fresh (some p) = elim p.contents [ none ↦ true | some d ↦ ltb 0 d && ltb d fresh ]

-- Every page has an array of its own, or none; arrays hold bytes.
pub record IsOwned (m : Memory) : Type 0 where
  pub zeros : (i : ℕ) → m.arrays zero_page i ≡ 0
  pub narrow : (d i : ℕ) → ltb (m.arrays d i) (2 ^ 8) ≡ true
  pub room : ltb 0 m.fresh ≡ true
  pub bounded : (v : ℕ) → in_heap m.fresh (lookup m v) ≡ true
  pub apart :
      (v w : ℕ)
      → ((data_of (lookup m v) == 0)
          || not (data_of (lookup m v) == data_of (lookup m w))
          || (w == v))
        ≡ true

-- Each entry of a cache is empty, or stands in the slot of its page and says what the table says;
-- and no entry of a TLB hides a page from a hook.
pub record IsCached (m : Memory) : Type 0 where
  pub reads :
      (k : ℕ)
      → (((m.rtlb k).vpn == no_vpn)
          || (serves_read (lookup m (m.rtlb k).vpn) (m.rtlb k).contents
              && (tlb_slot (m.rtlb k).vpn == k)
              && not (hooks_cover_page m.rhooks (m.rtlb k).vpn)))
        ≡ true
  pub writes :
      (k : ℕ)
      → (((m.wtlb k).vpn == no_vpn)
          || (serves_write (lookup m (m.wtlb k).vpn) (m.wtlb k).contents
              && (tlb_slot (m.wtlb k).vpn == k)
              && not (hooks_cover_page m.whooks (m.wtlb k).vpn)))
        ≡ true
  pub codes :
      (k : ℕ)
      → (((m.ctlb k).vpn == no_vpn)
          || (serves_code (lookup m (m.ctlb k).vpn) (m.ctlb k).code
              && (ctlb_slot (m.ctlb k).vpn == k)))
        ≡ true
  pub executing :
      ((m.fetch_vpn == no_vpn) || serves_code (lookup m m.fetch_vpn) m.fetch_code) ≡ true

pub record IsCoherent (m : Memory) : Type 0 where
  pub owned : IsOwned m
  pub cached : IsCached m
