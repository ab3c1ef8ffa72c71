-- ===== src/Arm64/Mem/Writes/Sizes.antt =====
-- `WriteN` of internal/arm64/mem.go against a flat memory.
use gonidbg.Base.{
  ℕ, zero, suc, ◌*◌, ◌/◌, ◌%◌, ◌^◌, ◌<◌, ◌≡◌, refl, arith, Bool, true, false, ◌&&◌, sub64, ltb,
  if◌then◌else◌, u8, u16, u32, [], Option-cases, inl, inr, ◌∙◌, sym, Bool-cases,
}
use gonidbg.Arm64.Mem.{Memory}
use gonidbg.Arm64.Mem.Guest.{mem_write, Got, HookCode, write_slow}
use gonidbg.Arm64.Mem.Guest.Lanes.{is_size, by_size}
use gonidbg.Arm64.Mem.Guest.Access.{
  hit, fits, fast_store, write8, write16, write32, write64, write_n,
}
use gonidbg.Arm64.Mem.Coherent.{IsCoherent}
use gonidbg.Arm64.Mem.View.{view, byte_at, refusal}
use gonidbg.Arm64.Mem.Writes.{written, bytes_written, IsWrite}
use gonidbg.Arm64.Mem.Writes.Slow.{fast_store-IsWrite, write_slow-IsWrite}

either_path :
    (pc : ℕ) (m : Memory) (a size v : ℕ) (c : Bool) (x y : Got Unit)
    → (c ≡ true → IsWrite pc m a size v x)
    → IsWrite pc m a size v y
    → IsWrite pc m a size v (if c then x else y)
either_path pc m a size v true x y h g = h refl
either_path pc m a size v false x y h g = g

-- A value that agrees on the bytes that are written makes the same write.
low_bytes :
    (pc : ℕ) (m : Memory) (a size v w : ℕ) (r : Got Unit)
    → ((i : ℕ) → i < size → w / 2 ^ (8 * i) % 2 ^ 8 ≡ v / 2 ^ (8 * i) % 2 ^ 8)
    → IsWrite pc m a size w r
    → IsWrite pc m a size v r
low_bytes pc m a size v w r agree h = record {
  result = h.result;
  coherent = h.coherent;
  hooks = h.hooks;
  prots = h.prots;
  bytes = λ x hx. h.bytes x hx ∙ same x;
}
  where
    bytes_same : (x : ℕ) → written (byte_at m) a w 0 size x ≡ written (byte_at m) a v 0 size x
    bytes_same x = elim (Bool-cases (ltb (sub64 x a) size)) [
      | inl e ↦ ground (arith, e, agree (sub64 x a) (ground (arith, e)))
      | inr e ↦ ground (arith, e)
    ]

    same : (x : ℕ) → bytes_written pc (view m) a size w x ≡ bytes_written pc (view m) a size v x
    same x = elim (Option-cases (refusal pc (view m) mem_write a size)) [
      | inl e ↦ ground (arith, e, bytes_same x)
      | inr (f, e) ↦ ground (arith, e)
    ]

-- The casts of `WriteN` keep the bytes that are written.
cut8 : (v i : ℕ) → i < 1 → u8 v / 2 ^ (8 * i) % 2 ^ 8 ≡ v / 2 ^ (8 * i) % 2 ^ 8
cut8 v zero h = omega arith
cut8 v (suc i) h = absurd (omega arith)

cut16 : (v i : ℕ) → i < 2 → u16 v / 2 ^ (8 * i) % 2 ^ 8 ≡ v / 2 ^ (8 * i) % 2 ^ 8
cut16 v zero h = omega arith
cut16 v (suc zero) h = omega arith
cut16 v (suc (suc i)) h = absurd (omega arith)

cut32 : (v i : ℕ) → i < 4 → u32 v / 2 ^ (8 * i) % 2 ^ 8 ≡ v / 2 ^ (8 * i) % 2 ^ 8
cut32 v zero h = omega arith
cut32 v (suc zero) h = omega arith
cut32 v (suc (suc zero)) h = omega arith
cut32 v (suc (suc (suc zero))) h = omega arith
cut32 v (suc (suc (suc (suc i)))) h = absurd (omega arith)

module _ (code : HookCode) (pc : ℕ) (m : Memory) (co : IsCoherent m) (silent : m.invalid ≡ [])
    (free : m.whooks ≡ []) (a : ℕ) (in_range : a < 2 ^ 64) (v : ℕ) where
  stored :
      (size w : ℕ)
      → is_size size ≡ true
      → ((i : ℕ) → i < size → w / 2 ^ (8 * i) % 2 ^ 8 ≡ v / 2 ^ (8 * i) % 2 ^ 8)
      → IsWrite pc m a size v (
          if hit m.wtlb a && fits a size
          then fast_store a size w m
          else write_slow code pc a size w m)
  stored size w sized agree = low_bytes pc m a size v w _ agree (
      either_path pc m a size w (hit m.wtlb a && fits a size) _ _
        (λ e.
          fast_store-IsWrite code pc m co silent free a in_range size sized w (ground (arith, e))
            (ground (arith, e)))
        (write_slow-IsWrite code pc m co silent free a in_range size sized w))

  write8-IsWrite : IsWrite pc m a 1 v (write8 code pc a (u8 v) m)
  unfolding write8
  write8-IsWrite =
      let any : (hit m.wtlb a && fits a 1) ≡ hit m.wtlb a = ground arith in
      rw (sym any) (stored 1 (u8 v) refl (cut8 v))

  write16-IsWrite : IsWrite pc m a 2 v (write16 code pc a (u16 v) m)
  unfolding write16
  write16-IsWrite = stored 2 (u16 v) refl (cut16 v)

  write32-IsWrite : IsWrite pc m a 4 v (write32 code pc a (u32 v) m)
  unfolding write32
  write32-IsWrite = stored 4 (u32 v) refl (cut32 v)

  write64-IsWrite : IsWrite pc m a 8 v (write64 code pc a v m)
  unfolding write64
  write64-IsWrite = stored 8 v refl (λ i h. refl)

-- On coherent caches, without hooks, a write of 1, 2, 4 or 8 bytes does what it does to a flat
-- memory: when its first page and the page it runs into are mapped and writable, it puts the bytes
-- of the value there, lowest first, and leaves every other byte; else it changes no byte and gives
-- the fault of the first page that is not. No permission changes and the caches stay coherent, on
-- a hit and on a miss of the TLB.
pub write_n-IsWrite :
    (code : HookCode) (pc : ℕ) (m : Memory) (a size v : ℕ)
    → IsCoherent m
    → m.invalid ≡ []
    → m.whooks ≡ []
    → a < 2 ^ 64
    → is_size size ≡ true
    → IsWrite pc m a size v (write_n code pc a size v m)
unfolding write_n
write_n-IsWrite code pc m a size v co silent free ha =
    by_size (λ n. IsWrite pc m a n v (write_n code pc a n v m))
      (write8-IsWrite code pc m co silent free a ha v)
      (write16-IsWrite code pc m co silent free a ha v)
      (write32-IsWrite code pc m co silent free a ha v)
      (write64-IsWrite code pc m co silent free a ha v) size
