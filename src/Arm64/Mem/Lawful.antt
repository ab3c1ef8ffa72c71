-- ===== src/Arm64/Mem/Lawful.antt =====
-- Guest accesses of internal/arm64/mem.go with hooks, whose code keeps the invariant of the caches.
pub mod Accesses
use gonidbg.Base.{
  ℕ, zero, suc, ◌+◌, ◌-◌, ◌*◌, ◌/◌, ◌%◌, ◌^◌, ◌≤◌, ◌<◌, ◌≡◌, refl, arith, Bool, true, false, not,
  ◌&&◌, ◌||◌, ltb, leb, ◌==◌, bit_and, field, shr, add64, u8, u16, u32, if◌then◌else◌, Option, none,
  some, Option-cases, Bool-cases, inl, inr, List, [], ◌∷◌, ap, ◌∙◌,
}
use gonidbg.Arm64.Mem.{Memory, Page, MemHook, prot_read, prot_write}
use gonidbg.Arm64.Mem.Table.{lookup}
use gonidbg.Arm64.Mem.Tlb.{page_data, writable, tlb_slot}
use gonidbg.Arm64.Mem.Guest.{
  Kind, mem_read, mem_write, FaultKind, unmapped, protected, Fault, Got, got, fault, then_got,
  HookCode, need, Resolved, page, bad, resolve, last_round, first_round, guest_page, call_invalid,
  call_mem_hooks, hooks_cover_page, is_empty, next_page, read_across, read_slow, write_slow,
  fill_rtlb, fill_wtlb, write_page, write_across, put_found, store_array,
}
use gonidbg.Arm64.Mem.Guest.Lanes.{load_n}
use gonidbg.Arm64.Mem.Guest.Access.{
  hit, fits, entry_data, fast_load, fast_store, read8, read16, read32, read64, read_n, write8,
  write16, write32, write64, write_n,
}
use gonidbg.Arm64.Mem.Coherent.{allows, IsCoherent}
use gonidbg.Arm64.Mem.Coherent.Caches.{fill_rtlb-IsCoherent, store_array-IsCoherent}
use gonidbg.Arm64.Mem.Coherent.Put.{put-IsCoherent, put_cached-IsCoherent}
use gonidbg.Arm64.Mem.View.{memory_after}

-- What is asked of the code of the hooks.
pub record IsLawful (code : HookCode) : Type 0 where
  pub mem_keeps :
      (fn a size v : ℕ) (m : Memory) → IsCoherent m → IsCoherent (code.mem_hook fn a size v m)
  pub invalid_keeps :
      (fn : ℕ) (k : FaultKind) (a size v : ℕ) (m : Memory)
      → IsCoherent m
      → IsCoherent (code.invalid_hook fn k a size v m).1

-- A page that is found stands in the table and grants the access.
pub data IsSettled (kind : Kind) (a : ℕ) : Got Page → Type 0 where
  settled :
      (p : Page) (m : Memory)
      → IsCoherent m
      → lookup m (shr a 12) ≡ some p
      → allows p (need kind) ≡ true
      → IsSettled kind a (got p m)
  failed : (e : Fault) (m : Memory) → IsCoherent m → IsSettled kind a (fault e m)

-- The ends of an access that keep the invariant.
pub record IsKept {A : Type 0} (r : Got A) : Type 0 where
  pub kept : IsCoherent (memory_after r)

resolve-page :
    (kind : Kind) (a : ℕ) (m : Memory) (p : Page)
    → resolve m kind a ≡ page p
    → (lookup m (shr a 12) ≡ some p) × (allows p (need kind) ≡ true)
unfolding resolve
resolve-page kind a m p e = elim (Option-cases (lookup m (shr a 12))) [
  | inl none_there ↦ (ground (arith, none_there, e), ground (arith, none_there, e))
  | inr (q, there) ↦ (ground (arith, there, e), ground (arith, there, e))
]

last_round-IsSettled :
    (kind : Kind) (a : ℕ) (m : Memory) (f : Fault) (r : Resolved)
    → IsCoherent m
    → resolve m kind a ≡ r
    → IsSettled kind a (last_round f m r)
last_round-IsSettled kind a m f (page p) co e =
    let (here, may) = resolve-page kind a m p e in settled p m co here may
last_round-IsSettled kind a m f (bad k) co e = failed _ m co

-- What follows a page that was found.
pub then_page :
    {A : Type 0} (kind : Kind) (a : ℕ) (r : Got Page) (f : Page → Memory → Got A)
    → IsSettled kind a r
    → ((p : Page) (m : Memory)
        → IsCoherent m
        → lookup m (shr a 12) ≡ some p
        → allows p (need kind) ≡ true
        → IsKept (f p m))
    → IsKept (then_got r f)
then_page kind a _ f (settled p m co here may) h = h p m co here may
then_page kind a _ f (failed e m co) h = record { kept = co }

pub if_IsKept :
    {A : Type 0} (b : Bool) (x y : Got A)
    → (b ≡ true → IsKept x)
    → (b ≡ false → IsKept y)
    → IsKept (if b then x else y)
if_IsKept true x y h g = h refl
if_IsKept false x y h g = g refl

pub uncovered :
    (hs : List MemHook) (vpn : ℕ)
    → (not (is_empty hs) && hooks_cover_page hs vpn) ≡ false
    → hooks_cover_page hs vpn ≡ false
unfolding hooks_cover_page
uncovered [] vpn e = refl
uncovered (h ∷ hs) vpn e = e

module _ (code : HookCode) (pc : ℕ) (law : IsLawful code) where
  call_invalid-IsCoherent :
      (hs : List ℕ) (k : FaultKind) (a size v : ℕ) (m : Memory)
      → IsCoherent m
      → IsCoherent (call_invalid code pc hs k a size v m).1
  unfolding call_invalid
  call_invalid-IsCoherent [] k a size v m co = co
  call_invalid-IsCoherent (h ∷ hs) k a size v m co =
      call_invalid-IsCoherent hs k a size v (code.invalid_hook h k a size v m).1
        (law.invalid_keeps h k a size v m co)

  pub call_mem_hooks-IsCoherent :
      (hs : List MemHook) (a size v : ℕ) (m : Memory)
      → IsCoherent m
      → IsCoherent (call_mem_hooks code pc hs a size v m)
  unfolding call_mem_hooks
  call_mem_hooks-IsCoherent [] a size v m co = co
  call_mem_hooks-IsCoherent (h ∷ hs) a size v m co =
      elim (Bool-cases (ltb h.end h.begin || (leb h.begin a && leb a h.end))) [
        | inl e ↦ rw e (
            call_mem_hooks-IsCoherent hs a size v (code.mem_hook h.fn a size v m)
              (law.mem_keeps h.fn a size v m co))
        | inr e ↦ rw e (call_mem_hooks-IsCoherent hs a size v m co)
      ]

  handled-IsSettled :
      (b : Bool) (kind : Kind) (a : ℕ) (f : Fault) (m : Memory)
      → IsCoherent m
      → IsSettled kind a (if b then last_round f m (resolve m kind a) else fault f m)
  handled-IsSettled true kind a f m co = last_round-IsSettled kind a m f (resolve m kind a) co refl
  handled-IsSettled false kind a f m co = failed f m co

  first_round-IsSettled :
      (kind : Kind) (a size v : ℕ) (m : Memory) (r : Resolved)
      → IsCoherent m
      → resolve m kind a ≡ r
      → IsSettled kind a (first_round code pc kind a size v m r)
  first_round-IsSettled kind a size v m (page p) co e =
      let (here, may) = resolve-page kind a m p e in settled p m co here may
  first_round-IsSettled kind a size v m (bad k) co e =
      handled-IsSettled (call_invalid code pc m.invalid k a size v m).0 kind a _
        (call_invalid code pc m.invalid k a size v m).1
        (call_invalid-IsCoherent m.invalid k a size v m co)

  pub guest_page-IsSettled :
      (kind : Kind) (a size v : ℕ) (m : Memory)
      → IsCoherent m
      → IsSettled kind a (guest_page code pc kind a size v m)
  unfolding guest_page
  guest_page-IsSettled kind a size v m co =
      first_round-IsSettled kind a size v m (resolve m kind a) co refl
