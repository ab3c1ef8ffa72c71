-- ===== src/Arm64/Mem/Writes.antt =====
-- The writes of internal/arm64/mem.go against a flat memory.
pub mod Across
pub mod Slow
pub mod Sizes
use gonidbg.Base.{
  ℕ, zero, suc, ◌+◌, ◌-◌, ◌*◌, ◌/◌, ◌%◌, ◌^◌, ◌≤◌, ◌<◌, ◌≡◌, refl, arith, Bool, true, false, not,
  ◌&&◌, ◌||◌, ltb, leb, ◌==◌, bit_and, field, shr, add64, sub64, u8, if◌then◌else◌, Option, none,
  some, Option-cases, Bool-cases, inl, inr, ==→eq, ap, ◌∙◌, sym, List, [],
}
use gonidbg.Arm64.Mem.{Memory, Page, prot_write}
use gonidbg.Arm64.Mem.Table.{lookup}
use gonidbg.Arm64.Mem.Tlb.{tlb_slot, writable}
use gonidbg.Arm64.Mem.Guest.{
  mem_write, FaultKind, unmapped, protected, Fault, Got, got, fault, then_got, HookCode, need,
  guest_page, call_mem_hooks, hooks_cover_page, is_empty, next_page, write_across, write_page,
  write_slow, store_array, put, put_found, fill_wtlb,
}
use gonidbg.Arm64.Mem.Guest.Lanes.{store_n, width, is_size}
use gonidbg.Arm64.Mem.Guest.Access.{hit, fits, entry_data, fast_store}
use gonidbg.Arm64.Mem.Coherent.{allows, data_of, serves_write, IsCoherent}
use gonidbg.Arm64.Mem.Coherent.Caches.{store_array-IsCoherent}
use gonidbg.Arm64.Mem.Coherent.Put.{
  byte_put, put-IsCoherent, put_cached-IsCoherent, prot-put, byte-put,
}
use gonidbg.Arm64.Mem.View.{
  Flat, view, byte_at, prot_of, denied, after_page, refusal, Answer, answer, refused, answer_of,
  memory_after,
}
use gonidbg.Arm64.Mem.Reads.{Finds, granted, denies, finds, next_page-after}

-- A flat memory after the bytes `k .. k + n - 1` of `v` are written from `a` on.
abbrev pub written : (ℕ → ℕ) → ℕ → ℕ → ℕ → ℕ → ℕ → ℕ
written f a v k n x =
    if leb k (sub64 x a) && ltb (sub64 x a) (k + n) then v / 2 ^ (8 * sub64 x a) % 2 ^ 8 else f x

abbrev pub flat_write : ℕ → Flat → ℕ → ℕ → Answer Unit
flat_write pc f a size = elim (refusal pc f mem_write a size) [
  | some e ↦ refused e
  | none ↦ answer tt
]

abbrev pub bytes_written : ℕ → Flat → ℕ → ℕ → ℕ → ℕ → ℕ
bytes_written pc f a size v = elim (refusal pc f mem_write a size) [
  | some e ↦ f.bytes
  | none ↦ written f.bytes a v 0 size
]

-- A write that answers as the flat memory does, that changes the bytes as it says and nothing else.
pub record IsWrite (pc : ℕ) (m : Memory) (a size v : ℕ) (r : Got Unit) : Type 0 where
  pub result : answer_of r ≡ flat_write pc (view m) a size
  pub coherent : IsCoherent (memory_after r)
  pub hooks :
      ((memory_after r).rhooks ≡ m.rhooks)
      × ((memory_after r).whooks ≡ m.whooks)
      × ((memory_after r).invalid ≡ m.invalid)
  pub prots : (x : ℕ) → (view (memory_after r)).prots x ≡ (view m).prots x
  pub bytes :
      (x : ℕ) → x < 2 ^ 64 → byte_at (memory_after r) x ≡ bytes_written pc (view m) a size v x
