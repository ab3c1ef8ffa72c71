-- ===== src/Arm64/Mem/Range/Mapping.antt =====
-- `Map` of internal/arm64/mem.go: its step.
use gonidbg.Base.{
  ℕ, ◌*◌, ◌^◌, ◌<◌, ◌≡◌, refl, arith, true, false, not, ◌||◌, ltb, leb, ◌==◌, field, shr,
  if◌then◌else◌, none, some, Option-cases, Bool-cases, inl, inr,
}
use gonidbg.Arm64.Mem.{Memory}
use gonidbg.Arm64.Mem.Range.{
  MemError, not_aligned, out_of_space, bad_prot, overlaps_page, mapped, ok, err, first_mapped,
  map_pages, map,
}
use gonidbg.Arm64.Mem.Coherent.{IsCoherent}
use gonidbg.Arm64.Mem.Range.Keep.{map_pages-IsCoherent}
use gonidbg.Arm64.Mem.Range.Pages.{
  lookup-map_pages, arrays-map_pages, first_mapped_sound, first_mapped-found,
}
use gonidbg.Arm64.Mem.Range.Exact.{
  is_range, range_vpns-is_range, range_vpns-fails, IsStep, refuses, first, count, among-page,
}

module _ (m : Memory) (addr size prot : ℕ) (co : IsCoherent m) (ha : addr < 2 ^ 64)
    (hs : size < 2 ^ 64) where
  mapped-IsStep :
      is_range addr size ≡ true
      → leb 8 prot ≡ false
      → first_mapped m (count addr size) (first addr) ≡ none
      → IsStep m addr size
          (some prot)
          false
          (ltb prot 8)
          (mapped m)
          (ok (map_pages prot (count addr size) (first addr) m))
  mapped-IsStep h low free = record {
    coherent =
        map_pages-IsCoherent prot (count addr size) (first addr) m co (ground (arith, h)) free;
    prots = λ a. ground (
      arith,
      among-page addr size a h,
      lookup-map_pages prot (count addr size) (first addr) m (shr a 12) (ground (arith, h)),
    );
    bytes = λ a. ground (
      arith,
      among-page addr size a h,
      co.owned.zeros (field a 0 12),
      arrays-map_pages prot (count addr size) (first addr) m,
      lookup-map_pages prot (count addr size) (first addr) m (shr a 12) (ground (arith, h)),
    );
    before = λ a. ground (
      arith,
      among-page addr size a h,
      first_mapped_sound m (count addr size) (first addr) (shr a 12) free,
    );
    valid = ground (arith, h, low);
    reason = refl;
  }

  bad_range :
      (e : MemError)
      → is_range addr size ≡ false
      → IsStep m addr size (some prot) false (ltb prot 8) (mapped m) (err e)
  bad_range e h =
      refuses m addr size (some prot) false (ltb prot 8) (mapped m) e co (ground (arith, h))

  bad_permissions :
      leb 8 prot ≡ true
      → IsStep m addr size
          (some prot)
          false
          (ltb prot 8)
          (mapped m)
          (err (bad_prot "map" addr prot))
  bad_permissions h =
      refuses m addr size (some prot) false (ltb prot 8) (mapped m) (bad_prot "map" addr prot) co
        (ground (arith, h))

  in_the_way :
      (v : ℕ)
      → is_range addr size ≡ true
      → first_mapped m (count addr size) (first addr) ≡ some v
      → IsStep m addr size
          (some prot)
          false
          (ltb prot 8)
          (mapped m)
          (err (overlaps_page addr size (v * 2 ^ 12)))
  in_the_way v h found =
      let page_number : shr (v * 2 ^ 12) 12 ≡ v = omega arith in
      refuses m addr size (some prot) false (ltb prot 8) (mapped m)
        (overlaps_page addr size (v * 2 ^ 12)) co
        (ground (
          arith,
          h,
          page_number,
          among-page addr size (v * 2 ^ 12) h,
          first_mapped-found m (count addr size) (first addr) v found,
        ))

  -- The ways through `Map`.
  map_fails :
      is_range addr size ≡ false
      → map m addr size prot
        ≡ err (
            if (size == 0) || not (field addr 0 12 == 0) || not (field size 0 12 == 0)
            then not_aligned "map" addr size
            else out_of_space "map" addr size)
  unfolding map
  map_fails h = ground (arith, range_vpns-fails "map" addr size ha hs h)

  map_refuses :
      is_range addr size ≡ true
      → leb 8 prot ≡ true
      → map m addr size prot ≡ err (bad_prot "map" addr prot)
  unfolding map
  map_refuses h high = ground (arith, range_vpns-is_range "map" addr size ha hs h, high)

  map_overlaps :
      (v : ℕ)
      → is_range addr size ≡ true
      → leb 8 prot ≡ false
      → first_mapped m (count addr size) (first addr) ≡ some v
      → map m addr size prot ≡ err (overlaps_page addr size (v * 2 ^ 12))
  unfolding map
  map_overlaps v h low e = ground (arith, range_vpns-is_range "map" addr size ha hs h, low, e)

  map_works :
      is_range addr size ≡ true
      → leb 8 prot ≡ false
      → first_mapped m (count addr size) (first addr) ≡ none
      → map m addr size prot ≡ ok (map_pages prot (count addr size) (first addr) m)
  unfolding map
  map_works h low e = ground (arith, range_vpns-is_range "map" addr size ha hs h, low, e)

  mapping-IsStep :
      IsStep m addr size (some prot) false (ltb prot 8) (mapped m) (map m addr size prot)
  mapping-IsStep = elim (Bool-cases (is_range addr size)) [
    | inr h ↦ rw (map_fails h) (bad_range _ h)
    | inl h ↦ elim (Bool-cases (leb 8 prot)) [
      | inl high ↦ rw (map_refuses h high) (bad_permissions high)
      | inr low ↦ elim (Option-cases (first_mapped m (count addr size) (first addr))) [
        | inl e ↦ rw (map_works h low e) (mapped-IsStep h low e)
        | inr (v, e) ↦ rw (map_overlaps v h low e) (in_the_way v h e)
      ]
    ]
  ]

-- On coherent caches, for an address and a size of 64 bits, `Map` succeeds exactly when the range
-- is a nonempty one of whole pages below 2 ^ 48, the permissions are below 8 and no address of the
-- range is mapped, and else names a page that is. It gives the range the permissions and zeros and
-- changes nothing else for the guest; the caches stay coherent.
pub map-IsStep :
    (m : Memory) (addr size prot : ℕ)
    → IsCoherent m
    → addr < 2 ^ 64
    → size < 2 ^ 64
    → IsStep m addr size (some prot) false (ltb prot 8) (mapped m) (map m addr size prot)
map-IsStep m addr size prot co ha hs = mapping-IsStep m addr size prot co ha hs
