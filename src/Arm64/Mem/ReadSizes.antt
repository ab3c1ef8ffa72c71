-- ===== src/Arm64/Mem/ReadSizes.antt =====
-- `ReadN` of internal/arm64/mem.go against a flat memory.
use gonidbg.Base.{
  ℕ, ◌^◌, ◌<◌, ◌≡◌, refl, arith, Bool, true, false, ◌&&◌, field, shr, add64, u8, u16, u32,
  if◌then◌else◌, [],
}
use gonidbg.Arm64.Mem.{Memory}
use gonidbg.Arm64.Mem.Table.{lookup}
use gonidbg.Arm64.Mem.Guest.{Got, HookCode, read_slow}
use gonidbg.Arm64.Mem.Guest.Lanes.{is_size, by_size}
use gonidbg.Arm64.Mem.Guest.Access.{hit, fits, fast_load, read8, read16, read32, read64, read_n}
use gonidbg.Arm64.Mem.Coherent.{data_of, IsCoherent}
use gonidbg.Arm64.Mem.View.{byte_at, word_at}
use gonidbg.Arm64.Mem.Reads.{IsRead, trimmed, fast_load-IsRead, read_slow-IsRead}

either_path :
    (pc : ℕ) (m : Memory) (a size : ℕ) (c : Bool) (x y : Got ℕ)
    → (c ≡ true → IsRead pc m a size x)
    → IsRead pc m a size y
    → IsRead pc m a size (if c then x else y)
either_path pc m a size true x y h g = h refl
either_path pc m a size false x y h g = g

module _ (code : HookCode) (pc : ℕ) (m : Memory) (co : IsCoherent m) (silent : m.invalid ≡ [])
    (free : m.rhooks ≡ []) (a : ℕ) (in_range : a < 2 ^ 64) where
  byte_small : (i : ℕ) → byte_at m (add64 a i) < 2 ^ 8
  byte_small i =
      ground
        (arith, co.owned.narrow (data_of (lookup m (shr (add64 a i) 12))) (field (add64 a i) 0 12))

  slow : (size : ℕ) → is_size size ≡ true → IsRead pc m a size (read_slow code pc a size m)
  slow = read_slow-IsRead code pc m co silent free a in_range

  fast :
      (size : ℕ)
      → is_size size ≡ true
      → hit m.rtlb a && fits a size ≡ true
      → IsRead pc m a size (fast_load a size m)
  fast size sized e =
      fast_load-IsRead code pc m co silent free a in_range size sized (ground (arith, e))
        (ground (arith, e))

  pub narrow8 : u8 (word_at (byte_at m) a 0 1) ≡ word_at (byte_at m) a 0 1
  unfolding word_at
  narrow8 = omega (arith, byte_small 0)

  pub narrow16 : u16 (word_at (byte_at m) a 0 2) ≡ word_at (byte_at m) a 0 2
  unfolding word_at
  narrow16 = omega (arith, byte_small 0, byte_small 1)

  pub narrow32 : u32 (word_at (byte_at m) a 0 4) ≡ word_at (byte_at m) a 0 4
  unfolding word_at
  narrow32 = omega (arith, byte_small 0, byte_small 1, byte_small 2, byte_small 3)

  read8-IsRead : IsRead pc m a 1 (read8 code pc a m)
  unfolding read8
  read8-IsRead =
      either_path pc m a 1 (hit m.rtlb a) _ _ (λ found. fast 1 refl (ground (arith, found)))
        (trimmed pc m a 1 u8 narrow8 _ (slow 1 refl))

  read16-IsRead : IsRead pc m a 2 (read16 code pc a m)
  unfolding read16
  read16-IsRead =
      either_path pc m a 2 (hit m.rtlb a && fits a 2) _ _ (fast 2 refl)
        (trimmed pc m a 2 u16 narrow16 _ (slow 2 refl))

  read32-IsRead : IsRead pc m a 4 (read32 code pc a m)
  unfolding read32
  read32-IsRead =
      either_path pc m a 4 (hit m.rtlb a && fits a 4) _ _ (fast 4 refl)
        (trimmed pc m a 4 u32 narrow32 _ (slow 4 refl))

  read64-IsRead : IsRead pc m a 8 (read64 code pc a m)
  unfolding read64
  read64-IsRead = either_path pc m a 8 (hit m.rtlb a && fits a 8) _ _ (fast 8 refl) (slow 8 refl)

-- On coherent caches, without hooks, a read of 1, 2, 4 or 8 bytes gives what a flat memory gives:
-- the little-endian number of its bytes when its first page and the page it runs into are mapped
-- and readable, else the fault of the first that is not. What a guest sees, and the coherence of
-- the caches, stay as they were, on a hit and on a miss of the TLB.
pub read_n-IsRead :
    (code : HookCode) (pc : ℕ) (m : Memory) (a size : ℕ)
    → IsCoherent m
    → m.invalid ≡ []
    → m.rhooks ≡ []
    → a < 2 ^ 64
    → is_size size ≡ true
    → IsRead pc m a size (read_n code pc a size m)
unfolding read_n
read_n-IsRead code pc m a size co silent free ha =
    by_size (λ n. IsRead pc m a n (read_n code pc a n m))
      (read8-IsRead code pc m co silent free a ha) (read16-IsRead code pc m co silent free a ha)
      (read32-IsRead code pc m co silent free a ha) (read64-IsRead code pc m co silent free a ha)
      size
