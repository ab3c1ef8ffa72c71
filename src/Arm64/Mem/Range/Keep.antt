-- ===== src/Arm64/Mem/Range/Keep.antt =====
-- `Map`, `Unmap` and `Protect` of internal/arm64/mem.go and the coherence of the caches.
use gonidbg.Base.{
  ℕ, zero, suc, ◌+◌, ◌^◌, ◌≤◌, ◌<◌, ◌≡◌, refl, arith, true, ◌||◌, ◌==◌, Option, none, some, ◌∙◌,
}
use gonidbg.Arm64.Mem.{Memory, Page}
use gonidbg.Arm64.Mem.Table.{lookup, set_page, lookup-set_page}
use gonidbg.Arm64.Mem.Range.{
  first_mapped, new_page, map_pages, unmap_pages, protect_page, protect_pages,
}
use gonidbg.Arm64.Mem.Coherent.{data_of, in_heap, IsOwned, IsCached, IsCoherent}

-- A page may be replaced by one that has the same array or none.
set_page-IsOwned :
    (m : Memory) (v : ℕ) (q : Option Page)
    → IsOwned m
    → v < 2 ^ 36
    → in_heap m.fresh q ≡ true
    → ((data_of q == 0) || (data_of q == data_of (lookup m v))) ≡ true
    → IsOwned (set_page m v q)
set_page-IsOwned m v q o hv heap same = record {
  zeros = o.zeros;
  narrow = o.narrow;
  room = o.room;
  bounded = λ w. ground (arith, lookup-set_page m v w q hv, heap, o.bounded w);
  apart = λ u w. ground (
    arith,
    lookup-set_page m v u q hv,
    lookup-set_page m v w q hv,
    same,
    o.apart u w,
    o.apart v w,
    o.apart u v,
  );
}

pub unmap_pages-IsOwned :
    (n v : ℕ) (m : Memory) → IsOwned m → v + n ≤ 2 ^ 36 → IsOwned (unmap_pages n v m)
unfolding unmap_pages
unmap_pages-IsOwned zero v m o h = o
unmap_pages-IsOwned (suc n) v m o h =
    unmap_pages-IsOwned n (v + 1) (set_page m v none)
      (set_page-IsOwned m v none o (omega arith) refl refl) (omega arith)

protect_page-IsOwned :
    (prot v : ℕ) (m : Memory) → IsOwned m → v < 2 ^ 36 → IsOwned (protect_page prot v m)
protect_page-IsOwned prot v m o h = found (lookup m v) refl
  where
    found :
        (q : Option Page)
        → lookup m v ≡ q
        → IsOwned (elim q [ none ↦ m | some p ↦ set_page m v (some (record p { prot = prot })) ])
    found none e = o
    found (some p) e =
        set_page-IsOwned m v (some (record p { prot = prot })) o h (ground (arith, e, o.bounded v))
          (ground (arith, e))

pub protect_pages-IsOwned :
    (prot n v : ℕ) (m : Memory) → IsOwned m → v + n ≤ 2 ^ 36 → IsOwned (protect_pages prot n v m)
unfolding protect_pages
protect_pages-IsOwned prot zero v m o h = o
protect_pages-IsOwned prot (suc n) v m o h =
    protect_pages-IsOwned prot n (v + 1) (protect_page prot v m)
      (protect_page-IsOwned prot v m o (omega arith)) (omega arith)

-- No cache has an entry for a page that is not mapped.
set_page-IsCached :
    (m : Memory) (v : ℕ) (q : Option Page)
    → IsCached m
    → v < 2 ^ 36
    → lookup m v ≡ none
    → IsCached (set_page m v q)
set_page-IsCached m v q c hv free = record {
  reads = λ k. ground (arith, free, lookup-set_page m v (m.rtlb k).vpn q hv, c.reads k);
  writes = λ k. ground (arith, free, lookup-set_page m v (m.wtlb k).vpn q hv, c.writes k);
  codes = λ k. ground (arith, free, lookup-set_page m v (m.ctlb k).vpn q hv, c.codes k);
  executing = ground (arith, free, lookup-set_page m v m.fetch_vpn q hv, c.executing);
}

first_mapped-set_page :
    (m : Memory) (v : ℕ) (q : Option Page) (n u : ℕ)
    → v < 2 ^ 36
    → v < u
    → first_mapped (set_page m v q) n u ≡ first_mapped m n u
unfolding first_mapped
first_mapped-set_page m v q zero u hv h = refl
first_mapped-set_page m v q (suc n) u hv h =
    ground
      (arith, lookup-set_page m v u q hv, first_mapped-set_page m v q n (u + 1) hv (omega arith))

first_free :
    (m : Memory) (n v : ℕ)
    → first_mapped m (suc n) v ≡ none
    → (lookup m v ≡ none) × (first_mapped m n (v + 1) ≡ none)
unfolding first_mapped
first_free m n v h = (ground (arith, h), ground (arith, h))

pub map_pages-IsCoherent :
    (prot n v : ℕ) (m : Memory)
    → IsCoherent m
    → v + n ≤ 2 ^ 36
    → first_mapped m n v ≡ none
    → IsCoherent (map_pages prot n v m)
unfolding map_pages
map_pages-IsCoherent prot zero v m co h free = co
map_pages-IsCoherent prot (suc n) v m co h free =
    let (here, later) = first_free m n v free in
    map_pages-IsCoherent prot n (v + 1) (set_page m v (some (new_page prot)))
      (record {
        owned = set_page-IsOwned m v (some (new_page prot)) co.owned (omega arith) refl refl;
        cached = set_page-IsCached m v (some (new_page prot)) co.cached (omega arith) here;
      })
      (omega arith)
      (first_mapped-set_page m v (some (new_page prot)) n (v + 1) (omega arith) (omega arith)
        ∙ later)
