-- ===== src/Space/Munmap.antt =====
-- `Munmap` of internal/memory/memory.go: releasing a range, splitting the regions that it cuts.
use gonidbg.Base.{
  ℕ, ◌+◌, ◌-◌, ◌%◌, ◌^◌, ◌≤◌, ◌<◌, ◌≡◌, refl, ◌∙◌, none, some, List, [], ◌∷◌, ◌++◌, arith,
  if◌then◌else◌, add64,
}
use gonidbg.Space.{Region, Space, cut, cut_all, munmap}
use gonidbg.Space.Page.{page_down, page_up, page_down_lem, page_up_lem}
use gonidbg.Space.Chain.{IsRegion, Chain, IsValid, Chain-weaken, sort_regions-Chain}
use gonidbg.Space.View.{within, view, view_below}

module _ (a stop : ℕ) (whole : (a % 4096 ≡ 0) × (stop % 4096 ≡ 0)) (order : a ≤ stop) where
  -- The pieces of one region, followed by a chain that starts above the region.
  cut-Chain :
      (lo : ℕ) (r : Region) (rest : List Region)
      → IsRegion r
      → lo ≤ r.addr
      → Chain (r.addr + r.size) rest
      → Chain lo (cut a stop r ++ rest)
  unfolding cut
  cut-Chain lo r rest good h c = ground (
    arith,
    Chain-weaken lo (r.addr + r.size) rest (omega arith) c,
    Chain-weaken a (r.addr + r.size) rest,
  )

  cut_all-Chain : (lo : ℕ) (rs : List Region) → Chain lo rs → Chain lo (cut_all a stop rs)
  unfolding cut_all
  cut_all-Chain lo [] c = tt
  cut_all-Chain lo (r ∷ rs) c =
      cut-Chain lo r (cut_all a stop rs) c.0 c.1 (cut_all-Chain (r.addr + r.size) rs c.2)

  cut-view :
      (r : Region) (rest : List Region) (b : ℕ)
      → IsRegion r
      → view (cut a stop r ++ rest) b ≡ (
          if within r.addr r.size b
          then (if within a (stop - a) b then view rest b else some (r.prot, r.desc))
          else view rest b)
  unfolding cut
  cut-view r rest b good = ground arith

  cut_all-view :
      (lo : ℕ) (rs : List Region) (b : ℕ)
      → Chain lo rs
      → view (cut_all a stop rs) b ≡ (if within a (stop - a) b then none else view rs b)
  unfolding cut_all
  cut_all-view lo [] b c = ground arith
  cut_all-view lo (r ∷ rs) b c = ground (
    arith,
    cut-view r (cut_all a stop rs) b c.0,
    cut_all-view (r.addr + r.size) rs b c.2,
    view_below (r.addr + r.size) rs b c.2,
  )

-- On a well-formed table, for an address and a size whose rounding and whose sum do not wrap,
-- `Munmap` keeps the table well formed, unmaps every byte of the page-rounded range, and changes
-- what is mapped at no other byte and not the mmap cursor.
pub munmap-view :
    (s : Space) (addr size b : ℕ)
    → IsValid s
    → addr < 2 ^ 64
    → size + 4096 ≤ 2 ^ 64
    → page_down addr + page_up size < 2 ^ 64
    → IsValid (munmap s addr size)
      × (view (munmap s addr size).regions b
          ≡ (if within (page_down addr) (page_up size) b then none else view s.regions b))
      × ((munmap s addr size).mmap_top ≡ s.mmap_top)
munmap-view s addr size b v small_addr small_size fits =
    (rw table chain, rw table (bytes ∙ rw length_of), unfold munmap in refl)
  where
    a : ℕ
    a = page_down addr

    stop : ℕ
    stop = add64 a (page_up size)

    length_of : stop - a ≡ page_up size
    length_of = omega arith

    whole : (a % 4096 ≡ 0) × (stop % 4096 ≡ 0)
    whole = omega (arith, page_down_lem addr small_addr, page_up_lem size small_size)

    chain : Chain 0 (cut_all a stop s.regions)
    chain = cut_all-Chain a stop whole (omega arith) 0 s.regions v

    bytes :
        view (cut_all a stop s.regions) b
        ≡ (if within a (stop - a) b then none else view s.regions b)
    bytes = cut_all-view a stop whole (omega arith) 0 s.regions b v

    table : (munmap s addr size).regions ≡ cut_all a stop s.regions
    table = unfold munmap in sort_regions-Chain 0 _ chain
