-- ===== src/Arm64/Mem/Lawful/Accesses.antt =====
-- Reads and writes of internal/arm64/mem.go with hooks: each keeps the caches coherent.
use gonidbg.Base.{
  ℕ, zero, suc, ◌+◌, ◌-◌, ◌*◌, ◌/◌, ◌^◌, ◌<◌, ◌≡◌, refl, arith, Bool, true, false, not, ◌&&◌, ltb,
  leb, ◌==◌, field, shr, add64, u8, u16, u32, if◌then◌else◌, Option, none, some, Option-cases, inl,
  inr,
}
use gonidbg.Arm64.Mem.{Memory, Page, prot_read, prot_write}
use gonidbg.Arm64.Mem.Table.{lookup}
use gonidbg.Arm64.Mem.Tlb.{page_data, tlb_slot}
use gonidbg.Arm64.Mem.Guest.{
  mem_read, mem_write, Got, got, fault, then_got, HookCode, guest_page, call_mem_hooks,
  hooks_cover_page, is_empty, next_page, read_slow, write_slow, fill_rtlb, write_page, write_across,
  put_found,
}
use gonidbg.Arm64.Mem.Guest.Lanes.{load_n}
use gonidbg.Arm64.Mem.Guest.Access.{
  hit, fits, entry_data, fast_store, read8, read16, read32, read64, read_n, write8, write16,
  write32, write64, write_n,
}
use gonidbg.Arm64.Mem.Coherent.{allows, IsCoherent}
use gonidbg.Arm64.Mem.Coherent.Caches.{fill_rtlb-IsCoherent, store_array-IsCoherent}
use gonidbg.Arm64.Mem.Coherent.Put.{put-IsCoherent, put_cached-IsCoherent}
use gonidbg.Arm64.Mem.View.{memory_after}
use gonidbg.Arm64.Mem.Lawful.{
  IsLawful, IsKept, then_page, if_IsKept, uncovered, call_mem_hooks-IsCoherent,
  guest_page-IsSettled,
}

module _ (code : HookCode) (pc : ℕ) (law : IsLawful code) where
  -- The ways through `readSlow`.
  read_within : ℕ → ℕ → Page → Memory → Got ℕ
  read_within addr size p m =
      if not (is_empty m.rhooks) && hooks_cover_page m.rhooks (shr addr 12)
      then then_got
          (guest_page code pc mem_read addr size 0 (call_mem_hooks code pc m.rhooks addr size 0 m))
          (λ p m. got (load_n (m.arrays (page_data p)) (field addr 0 12) size) m)
      else got (load_n (m.arrays (page_data p)) (field addr 0 12) size)
          (fill_rtlb (shr addr 12) p m)

  read_within-IsKept :
      (a size : ℕ) (p : Page) (m : Memory)
      → IsCoherent m
      → lookup m (shr a 12) ≡ some p
      → allows p prot_read ≡ true
      → IsKept (read_within a size p m)
  unfolding read_within
  read_within-IsKept a size p m co here may =
      if_IsKept (not (is_empty m.rhooks) && hooks_cover_page m.rhooks (shr a 12)) _ _
        (λ hooked.
          then_page mem_read a _ _
            (guest_page-IsSettled code pc law mem_read a size 0
              (call_mem_hooks code pc m.rhooks a size 0 m)
              (call_mem_hooks-IsCoherent code pc law m.rhooks a size 0 m co))
            (λ p m co here may. record { kept = co }))
        (λ plain. record {
          kept =
              fill_rtlb-IsCoherent m (shr a 12) p co here may (uncovered m.rhooks (shr a 12) plain);
        })

  read_slow-IsKept : (a size : ℕ) (m : Memory) → IsCoherent m → IsKept (read_slow code pc a size m)
  unfolding read_slow read_within
  read_slow-IsKept a size m co =
      if_IsKept (leb (field a 0 12) (4096 - size)) _ _
        (λ e.
          then_page mem_read a _ _ (guest_page-IsSettled code pc law mem_read a size 0 m co)
            (λ p m co here may. read_within-IsKept a size p m co here may))
        (λ e.
          then_page mem_read a _ _ (guest_page-IsSettled code pc law mem_read a size 0 m co)
            (λ p m co here may.
              then_page mem_read (next_page a) _ _
                (guest_page-IsSettled code pc law mem_read (next_page a) size 0 m co)
                (λ q m co here may. record {
                  kept = call_mem_hooks-IsCoherent code pc law m.rhooks a size 0 m co;
                })))

  -- The ways through `writeSlow`.
  write_page-IsKept :
      (hooked : Bool) (a size v : ℕ) (p : Page) (m : Memory)
      → IsCoherent m
      → lookup m (shr a 12) ≡ some p
      → allows p prot_write ≡ true
      → (hooked ≡ false → hooks_cover_page m.whooks (shr a 12) ≡ false)
      → IsCoherent (write_page hooked a size v p m)
  unfolding write_page
  write_page-IsKept true a size v p m co here may quiet =
      put-IsCoherent m co (shr a 12) p here (field a 0 12) size v
  write_page-IsKept false a size v p m co here may quiet =
      put_cached-IsCoherent m co (shr a 12) p here (field a 0 12) size v may (quiet refl)

  write_within : ℕ → ℕ → ℕ → Page → Memory → Got Unit
  write_within addr size v p m =
      if not (is_empty m.whooks) && hooks_cover_page m.whooks (shr addr 12)
      then then_got
          (guest_page code pc mem_write addr size v (call_mem_hooks code pc m.whooks addr size v m))
          (λ p m. got tt (write_page true addr size v p m))
      else got tt (write_page false addr size v p m)

  write_within-IsKept :
      (a size v : ℕ) (p : Page) (m : Memory)
      → IsCoherent m
      → lookup m (shr a 12) ≡ some p
      → allows p prot_write ≡ true
      → IsKept (write_within a size v p m)
  unfolding write_within
  write_within-IsKept a size v p m co here may =
      if_IsKept (not (is_empty m.whooks) && hooks_cover_page m.whooks (shr a 12)) _ _
        (λ hooked.
          then_page mem_write a _ _
            (guest_page-IsSettled code pc law mem_write a size v
              (call_mem_hooks code pc m.whooks a size v m)
              (call_mem_hooks-IsCoherent code pc law m.whooks a size v m co))
            (λ p m co here may. record {
              kept =
                  write_page-IsKept true a size v p m co here may (λ e. absurd (ground (arith, e)));
            }))
        (λ plain. record {
          kept =
              write_page-IsKept false a size v p m co here may
                (λ e. uncovered m.whooks (shr a 12) plain);
        })

  put_found-IsCoherent :
      (o : Option Page) (a byte : ℕ) (m : Memory)
      → IsCoherent m
      → lookup m (shr a 12) ≡ o
      → IsCoherent (put_found o a byte m)
  put_found-IsCoherent none a byte m co e = co
  put_found-IsCoherent (some p) a byte m co e =
      put-IsCoherent m co (shr a 12) p e (field a 0 12) 1 byte

  write_across-IsCoherent :
      (n a v k : ℕ) (m : Memory) → IsCoherent m → IsCoherent (write_across a v n k m)
  unfolding write_across
  write_across-IsCoherent zero a v k m co = co
  write_across-IsCoherent (suc n) a v k m co = write_across-IsCoherent n a v (k + 1) _ (
      put_found-IsCoherent (lookup m (shr (add64 a k) 12)) (add64 a k) (u8 (v / 2 ^ (8 * k))) m co
        refl)

  write_slow-IsKept :
      (a size v : ℕ) (m : Memory) → IsCoherent m → IsKept (write_slow code pc a size v m)
  unfolding write_slow write_within
  write_slow-IsKept a size v m co =
      if_IsKept (leb (field a 0 12) (4096 - size)) _ _
        (λ e.
          then_page mem_write a _ _ (guest_page-IsSettled code pc law mem_write a size v m co)
            (λ p m co here may. write_within-IsKept a size v p m co here may))
        (λ e.
          then_page mem_write a _ _ (guest_page-IsSettled code pc law mem_write a size v m co)
            (λ p m co here may.
              then_page mem_write (next_page a) _ _
                (guest_page-IsSettled code pc law mem_write (next_page a) size v m co)
                (λ q m co here may. record {
                  kept =
                      write_across-IsCoherent size a v 0 _
                        (call_mem_hooks-IsCoherent code pc law m.whooks a size v m co);
                })))

  -- The fast paths.
  cut-IsKept : (k : ℕ → ℕ) (r : Got ℕ) → IsKept r → IsKept (then_got r (λ v m. got (k v) m))
  cut-IsKept k (got v m) h = record { kept = h.kept }
  cut-IsKept k (fault e m) h = record { kept = h.kept }

  hit_array :
      (m : Memory) (a : ℕ)
      → IsCoherent m
      → a < 2 ^ 64
      → hit m.wtlb a ≡ true
      → ltb 0 (entry_data m.wtlb a) ≡ true
  hit_array m a co ha found = elim (Option-cases (lookup m (shr a 12))) [
    | inl e ↦ ground (arith, e, found, ha, co.cached.writes (tlb_slot (shr a 12)))
    | inr (p, e) ↦ elim (Option-cases p.contents) [
      | inl f ↦ ground (arith, e, f, found, ha, co.cached.writes (tlb_slot (shr a 12)))
      | inr (d, f) ↦ ground (
        arith,
        e,
        f,
        found,
        ha,
        co.cached.writes (tlb_slot (shr a 12)),
        co.owned.bounded (shr a 12),
      )
    ]
  ]

  fast_store-IsKept :
      (a size v : ℕ) (m : Memory)
      → IsCoherent m
      → a < 2 ^ 64
      → hit m.wtlb a ≡ true
      → IsKept (fast_store a size v m)
  fast_store-IsKept a size v m co ha found = record {
    kept =
        store_array-IsCoherent m (entry_data m.wtlb a) (field a 0 12) size v co
          (hit_array m a co ha found);
  }

  read_n-IsKept : (a size : ℕ) (m : Memory) → IsCoherent m → IsKept (read_n code pc a size m)
  unfolding read_n read8 read16 read32 read64
  read_n-IsKept a size m co =
      if_IsKept (size == 1) _ _
        (λ e.
          if_IsKept (hit m.rtlb a) _ _ (λ f. record { kept = co })
            (λ f. cut-IsKept u8 _ (read_slow-IsKept a 1 m co)))
        (λ e.
          if_IsKept (size == 2) _ _
            (λ e.
              if_IsKept (hit m.rtlb a && fits a 2) _ _ (λ f. record { kept = co })
                (λ f. cut-IsKept u16 _ (read_slow-IsKept a 2 m co)))
            (λ e.
              if_IsKept (size == 4) _ _
                (λ e.
                  if_IsKept (hit m.rtlb a && fits a 4) _ _ (λ f. record { kept = co })
                    (λ f. cut-IsKept u32 _ (read_slow-IsKept a 4 m co)))
                (λ e.
                  if_IsKept (hit m.rtlb a && fits a 8) _ _ (λ f. record { kept = co })
                    (λ f. read_slow-IsKept a 8 m co))))

  -- A hit stores to the page's own array.
  write_at :
      (c : Bool) (a size v : ℕ) (m : Memory)
      → IsCoherent m
      → a < 2 ^ 64
      → (c ≡ true → hit m.wtlb a ≡ true)
      → (w : ℕ) → IsKept (if c then fast_store a size v m else write_slow code pc a size w m)
  write_at true a size v m co ha found w = fast_store-IsKept a size v m co ha (found refl)
  write_at false a size v m co ha found w = write_slow-IsKept a size w m co

  write_n-IsKept :
      (a size v : ℕ) (m : Memory) → IsCoherent m → a < 2 ^ 64 → IsKept (write_n code pc a size v m)
  unfolding write_n write8 write16 write32 write64
  write_n-IsKept a size v m co ha =
      if_IsKept (size == 1) _ _ (λ e. write_at (hit m.wtlb a) a 1 (u8 v) m co ha (λ f. f) (u8 v))
        (λ e.
          if_IsKept (size == 2) _ _
            (λ e.
              write_at (hit m.wtlb a && fits a 2) a 2 (u16 v) m co ha (λ f. ground (arith, f))
                (u16 v))
            (λ e.
              if_IsKept (size == 4) _ _
                (λ e.
                  write_at (hit m.wtlb a && fits a 4) a 4 (u32 v) m co ha (λ f. ground (arith, f))
                    (u32 v))
                (λ e.
                  write_at (hit m.wtlb a && fits a 8) a 8 v m co ha (λ f. ground (arith, f)) v)))

-- With hooks whose code keeps the caches coherent, and whatever the hooks do beyond that, a read
-- and a write of any size keep them coherent, also when they end with a fault.
pub access-IsCoherent :
    (code : HookCode) (pc a size v : ℕ) (m : Memory)
    → IsLawful code
    → IsCoherent m
    → a < 2 ^ 64
    → IsCoherent (memory_after (read_n code pc a size m))
      × IsCoherent (memory_after (write_n code pc a size v m))
access-IsCoherent code pc a size v m law co ha = (
  (read_n-IsKept code pc law a size m co).kept,
  (write_n-IsKept code pc law a size v m co ha).kept,
)
