-- ===== src/Arm64/Mem/RoundTrip.antt =====
-- A write of internal/arm64/mem.go followed by a read.
use gonidbg.Base.{ℕ, ◌*◌, ◌/◌, ◌%◌, ◌^◌, ◌≤◌, ◌<◌, ◌≡◌, arith, true, sub64, add64, [], none, ◌∙◌}
use gonidbg.Arm64.Mem.{Memory}
use gonidbg.Arm64.Mem.Guest.{mem_read, mem_write, Got, got, fault, then_got, HookCode}
use gonidbg.Arm64.Mem.Guest.Lanes.{is_size, by_size}
use gonidbg.Arm64.Mem.Guest.Access.{read_n, write_n}
use gonidbg.Arm64.Mem.Coherent.{IsCoherent}
use gonidbg.Arm64.Mem.View.{
  Flat, view, byte_at, word_at, after_page, refusal, answer, answer_of, flat_read,
}
use gonidbg.Arm64.Mem.ReadSizes.{read_n-IsRead}
use gonidbg.Arm64.Mem.Writes.{written, IsWrite}
use gonidbg.Arm64.Mem.Writes.Sizes.{write_n-IsWrite}

module _ (f g : ℕ → ℕ) (a v : ℕ) (ha : a < 2 ^ 64) where
  abbrev Holds : ℕ → Type 0
  Holds size = (x : ℕ) → x < 2 ^ 64 → g x ≡ written f a v 0 size x

  byte-written :
      (size i : ℕ) → Holds size → i < size → size ≤ 8 → g (add64 a i) ≡ v / 2 ^ (8 * i) % 2 ^ 8
  byte-written size i h hi hs =
      let distance : sub64 (add64 a i) a ≡ i = omega arith in
      ground (arith, h (add64 a i) (omega arith), distance)

  word8 : Holds 1 → word_at g a 0 1 ≡ v % 2 ^ 8
  unfolding word_at
  word8 h = omega (arith, byte-written 1 0 h (omega arith) (omega arith))

  word16 : Holds 2 → word_at g a 0 2 ≡ v % 2 ^ 16
  unfolding word_at
  word16 h = omega (
    arith,
    byte-written 2 0 h (omega arith) (omega arith),
    byte-written 2 1 h (omega arith) (omega arith),
  )

  word32 : Holds 4 → word_at g a 0 4 ≡ v % 2 ^ 32
  unfolding word_at
  word32 h =
      let byte : (i : ℕ) → i < 4 → g (add64 a i) ≡ v / 2 ^ (8 * i) % 2 ^ 8 =
        λ i hi. byte-written 4 i h hi (omega arith) in
      omega (
        arith,
        byte 0 (omega arith),
        byte 1 (omega arith),
        byte 2 (omega arith),
        byte 3 (omega arith),
      )

  word64 : Holds 8 → word_at g a 0 8 ≡ v % 2 ^ 64
  unfolding word_at
  word64 h =
      let byte : (i : ℕ) → i < 8 → g (add64 a i) ≡ v / 2 ^ (8 * i) % 2 ^ 8 =
        λ i hi. byte-written 8 i h hi (omega arith) in
      omega (
        arith,
        byte 0 (omega arith),
        byte 1 (omega arith),
        byte 2 (omega arith),
        byte 3 (omega arith),
        byte 4 (omega arith),
        byte 5 (omega arith),
        byte 6 (omega arith),
        byte 7 (omega arith),
      )

  -- The bytes of a word that was just written are its value.
  word-written :
      (size : ℕ) → is_size size ≡ true → Holds size → word_at g a 0 size ≡ v % 2 ^ (8 * size)
  word-written =
      by_size (λ n. Holds n → word_at g a 0 n ≡ v % 2 ^ (8 * n)) word8 word16 word32 word64

-- What may be read is not changed by a write.
refusal-same :
    (pc : ℕ) (f g : Flat) (a size : ℕ)
    → ((x : ℕ) → g.prots x ≡ f.prots x)
    → refusal pc g mem_read a size ≡ refusal pc f mem_read a size
refusal-same pc f g a size h = ground (arith, h a, h (after_page a))

-- On coherent caches, without hooks, where a write of 1, 2, 4 or 8 bytes and a read of them are
-- both granted, the read after the write gives the value that was written, cut to its width, also
-- across a page boundary.
pub write_n-read_n :
    (code : HookCode) (pc : ℕ) (m : Memory) (a size v : ℕ)
    → IsCoherent m
    → m.invalid ≡ []
    → m.rhooks ≡ []
    → m.whooks ≡ []
    → a < 2 ^ 64
    → is_size size ≡ true
    → refusal pc (view m) mem_write a size ≡ none
    → refusal pc (view m) mem_read a size ≡ none
    → answer_of (then_got (write_n code pc a size v m) (λ u n. read_n code pc a size n))
      ≡ answer (v % 2 ^ (8 * size))
write_n-read_n code pc m a size v co silent rfree wfree ha sized may_write may_read =
    after (write_n code pc a size v m) (write_n-IsWrite code pc m a size v co silent wfree ha sized)
  where
    reads :
        (n : Memory)
        → IsWrite pc m a size v (got tt n)
        → flat_read pc (view n) a size ≡ answer (v % 2 ^ (8 * size))
    reads n h =
        let same = refusal-same pc (view m) (view n) a size h.prots in
        let bytes : (x : ℕ) → x < 2 ^ 64 → byte_at n x ≡ written (byte_at m) a v 0 size x =
          λ x hx. h.bytes x hx ∙ ground (arith, may_write) in
        ground (arith, same, may_read, word-written (byte_at m) (byte_at n) a v ha size sized bytes)

    after :
        (r : Got Unit)
        → IsWrite pc m a size v r
        → answer_of (then_got r (λ u n. read_n code pc a size n)) ≡ answer (v % 2 ^ (8 * size))
    after (got tt n) h =
        (read_n-IsRead code pc n a size h.coherent (h.hooks.2 ∙ silent) (h.hooks.0 ∙ rfree) ha
          sized).result
        ∙ reads n h
    after (fault e n) h = ground (arith, h.result, may_write)
