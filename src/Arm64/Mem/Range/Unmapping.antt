-- ===== src/Arm64/Mem/Range/Unmapping.antt =====
-- `Unmap` and `Protect` of internal/arm64/mem.go: their steps.
use Prim.Native.String.{String}
use gonidbg.Base.{
  ℕ, ◌+◌, ◌*◌, ◌/◌, ◌^◌, ◌<◌, ◌≡◌, refl, arith, Bool, true, false, not, ◌||◌, ltb, leb, ◌==◌, field,
  shr, if◌then◌else◌, Option, none, some, Option-cases, Bool-cases, inl, inr,
}
use gonidbg.Arm64.Mem.{Memory}
use gonidbg.Arm64.Mem.Tlb.{flush_tlb}
use gonidbg.Arm64.Mem.Range.{
  not_aligned, out_of_space, page_not_mapped, mapped, ok, err, first_unmapped, unmap_pages,
  protect_pages, check_mapped, unmap, protect,
}
use gonidbg.Arm64.Mem.Coherent.{IsCoherent}
use gonidbg.Arm64.Mem.Coherent.Steps.{flush_tlb-IsCoherent}
use gonidbg.Arm64.Mem.Range.Keep.{unmap_pages-IsOwned, protect_pages-IsOwned}
use gonidbg.Arm64.Mem.Range.Pages.{
  lookup-unmap_pages, lookup-protect_pages, arrays-unmap_pages, arrays-protect_pages,
  first_unmapped_sound, first_unmapped-found,
}
use gonidbg.Arm64.Mem.Range.Exact.{
  is_range, range_vpns-is_range, range_vpns-fails, IsStep, refuses, first, count, among-page,
}

-- The ways through `checkMapped`.
check_mapped-fails :
    (m : Memory) (op : String) (addr size : ℕ)
    → addr < 2 ^ 64
    → size < 2 ^ 64
    → is_range addr size ≡ false
    → check_mapped m op addr size
      ≡ err (
          if (size == 0) || not (field addr 0 12 == 0) || not (field size 0 12 == 0)
          then not_aligned op addr size
          else out_of_space op addr size)
unfolding check_mapped
check_mapped-fails m op addr size ha hs h = ground (arith, range_vpns-fails op addr size ha hs h)

check_mapped-gap :
    (m : Memory) (op : String) (addr size v : ℕ)
    → addr < 2 ^ 64
    → size < 2 ^ 64
    → is_range addr size ≡ true
    → first_unmapped m (count addr size) (first addr) ≡ some v
    → check_mapped m op addr size ≡ err (page_not_mapped op addr size (v * 2 ^ 12))
unfolding check_mapped
check_mapped-gap m op addr size v ha hs h e =
    ground (arith, range_vpns-is_range op addr size ha hs h, e)

check_mapped-passes :
    (m : Memory) (op : String) (addr size : ℕ)
    → addr < 2 ^ 64
    → size < 2 ^ 64
    → is_range addr size ≡ true
    → first_unmapped m (count addr size) (first addr) ≡ none
    → check_mapped m op addr size ≡ ok (first addr, (addr + size) / 2 ^ 12)
unfolding check_mapped
check_mapped-passes m op addr size ha hs h e =
    ground (arith, range_vpns-is_range op addr size ha hs h, e)

-- A page that is missing is what an error names.
gap-IsStep :
    (m : Memory) (op : String) (addr size v : ℕ) (p : Option ℕ) (keeps legal : Bool)
    → IsCoherent m
    → is_range addr size ≡ true
    → first_unmapped m (count addr size) (first addr) ≡ some v
    → IsStep m addr size p keeps legal
        (λ a. not (mapped m a))
        (err (page_not_mapped op addr size (v * 2 ^ 12)))
gap-IsStep m op addr size v p keeps legal co h found =
    let page_number : shr (v * 2 ^ 12) 12 ≡ v = omega arith in
    refuses m addr size p keeps legal (λ a. not (mapped m a))
      (page_not_mapped op addr size (v * 2 ^ 12)) co
      (ground (
        arith,
        h,
        page_number,
        among-page addr size (v * 2 ^ 12) h,
        first_unmapped-found m (count addr size) (first addr) v found,
      ))

module _ (m : Memory) (addr size : ℕ) (co : IsCoherent m) (ha : addr < 2 ^ 64)
    (hs : size < 2 ^ 64) where
  unmapped-IsStep :
      is_range addr size ≡ true
      → first_unmapped m (count addr size) (first addr) ≡ none
      → IsStep m addr size none false true
          (λ a. not (mapped m a))
          (ok (flush_tlb (unmap_pages (count addr size) (first addr) m)))
  unfolding flush_tlb
  unmapped-IsStep h full = record {
    coherent =
        flush_tlb-IsCoherent _
          (unmap_pages-IsOwned (count addr size) (first addr) m co.owned (ground (arith, h)));
    prots = λ a. ground (
      arith,
      among-page addr size a h,
      lookup-unmap_pages (count addr size) (first addr) m (shr a 12) (ground (arith, h)),
    );
    bytes = λ a. ground (
      arith,
      among-page addr size a h,
      co.owned.zeros (field a 0 12),
      arrays-unmap_pages (count addr size) (first addr) m,
      lookup-unmap_pages (count addr size) (first addr) m (shr a 12) (ground (arith, h)),
    );
    before = λ a. ground (
      arith,
      among-page addr size a h,
      first_unmapped_sound m (count addr size) (first addr) (shr a 12) full,
    );
    valid = ground (arith, h);
    reason = refl;
  }

  unmapping-IsStep : IsStep m addr size none false true (λ a. not (mapped m a)) (unmap m addr size)
  unfolding unmap
  unmapping-IsStep = elim (Bool-cases (is_range addr size)) [
    | inr h ↦
        rw (check_mapped-fails m "unmap" addr size ha hs h)
          (refuses m addr size none false true (λ a. not (mapped m a)) _ co (ground (arith, h)))
    | inl h ↦ elim (Option-cases (first_unmapped m (count addr size) (first addr))) [
      | inl e ↦ rw (check_mapped-passes m "unmap" addr size ha hs h e) (unmapped-IsStep h e)
      | inr (v, e) ↦
          rw (check_mapped-gap m "unmap" addr size v ha hs h e)
            (gap-IsStep m "unmap" addr size v none false true co h e)
    ]
  ]

  module _ (prot : ℕ) where
    protected-IsStep :
        is_range addr size ≡ true
        → leb 8 prot ≡ false
        → first_unmapped m (count addr size) (first addr) ≡ none
        → IsStep m addr size
            (some prot)
            true
            (ltb prot 8)
            (λ a. not (mapped m a))
            (ok (flush_tlb (protect_pages prot (count addr size) (first addr) m)))
    unfolding flush_tlb
    protected-IsStep h low full = record {
      coherent = flush_tlb-IsCoherent _ (
          protect_pages-IsOwned prot (count addr size) (first addr) m co.owned (ground (arith, h)));
      prots = λ a. ground (
        arith,
        among-page addr size a h,
        first_unmapped_sound m (count addr size) (first addr) (shr a 12) full,
        lookup-protect_pages prot (count addr size) (first addr) m (shr a 12) (ground (arith, h)),
      );
      bytes = λ a. ground (
        arith,
        arrays-protect_pages prot (count addr size) (first addr) m,
        lookup-protect_pages prot (count addr size) (first addr) m (shr a 12) (ground (arith, h)),
      );
      before = λ a. ground (
        arith,
        among-page addr size a h,
        first_unmapped_sound m (count addr size) (first addr) (shr a 12) full,
      );
      valid = ground (arith, h, low);
      reason = refl;
    }

    protecting-IsStep :
        IsStep m addr size
          (some prot)
          true
          (ltb prot 8)
          (λ a. not (mapped m a))
          (protect m addr size prot)
    unfolding protect
    protecting-IsStep = elim (Bool-cases (leb 8 prot)) [
      | inl high ↦ rw high (
          refuses m addr size (some prot) true (ltb prot 8) (λ a. not (mapped m a)) _ co
            (ground (arith, high)))
      | inr low ↦ rw low (elim (Bool-cases (is_range addr size)) [
        | inr h ↦ rw (check_mapped-fails m "protect" addr size ha hs h) (
            refuses m addr size (some prot) true (ltb prot 8) (λ a. not (mapped m a)) _ co
              (ground (arith, h)))
        | inl h ↦ elim (Option-cases (first_unmapped m (count addr size) (first addr))) [
          | inl e ↦
              rw (check_mapped-passes m "protect" addr size ha hs h e) (protected-IsStep h low e)
          | inr (v, e) ↦
              rw (check_mapped-gap m "protect" addr size v ha hs h e)
                (gap-IsStep m "protect" addr size v (some prot) true (ltb prot 8) co h e)
        ]
      ])
    ]

-- On coherent caches, for an address and a size of 64 bits, `Unmap` succeeds exactly when the
-- range is a nonempty one of whole pages below 2 ^ 48 and every address of it is mapped, and else
-- names a page that is not. Nothing of the range is mapped then, nothing else changes for the
-- guest, and the caches are coherent.
pub unmap-IsStep :
    (m : Memory) (addr size : ℕ)
    → IsCoherent m
    → addr < 2 ^ 64
    → size < 2 ^ 64
    → IsStep m addr size none false true (λ a. not (mapped m a)) (unmap m addr size)
unmap-IsStep = unmapping-IsStep

-- On coherent caches, for an address and a size of 64 bits, `Protect` succeeds exactly when the
-- permissions are below 8, the range is a nonempty one of whole pages below 2 ^ 48 and every
-- address of it is mapped, and else names a page that is not. The range has the permissions then;
-- no byte and no other permission changes, and the caches are coherent.
pub protect-IsStep :
    (m : Memory) (addr size prot : ℕ)
    → IsCoherent m
    → addr < 2 ^ 64
    → size < 2 ^ 64
    → IsStep m addr size
        (some prot)
        true
        (ltb prot 8)
        (λ a. not (mapped m a))
        (protect m addr size prot)
protect-IsStep m addr size prot co ha hs = protecting-IsStep m addr size co ha hs prot
