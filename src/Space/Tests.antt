-- ===== src/Space/Tests.antt =====
-- Runs of internal/memory/memory.go on a small table.
use gonidbg.Base.{
  ◌+◌, ◌*◌, ◌/◌, ◌^◌, ◌<◌, ◌≡◌, ◌↔◌, refl, arith, none, some, [], ◌∷◌, if◌then◌else◌,
}
use gonidbg.Space.{
  Space, Region, ok, map, mmap, munmap, protect, find, insert, sort_regions, first_overlap,
  protect_all, any_inside,
}
use gonidbg.Space.Page.{page_down, page_up, page_up_lem}
use gonidbg.Space.Chain.{IsValid}
use gonidbg.Space.View.{within, view, region_at}
use gonidbg.Space.Find.{find-region_at}
use gonidbg.Space.Map.{Free, map-Free, map-view, mmap-view}
use gonidbg.Space.Munmap.{munmap-view}
use gonidbg.Space.Protect.{Covered, protect-Covered, reprotected, protect-region_at}

abbrev code : Region
code = record { addr = 0x1000; size = 0x2000; prot = 5; desc = "libc.so" }

abbrev heap : Region
heap = record { addr = 0x4000; size = 0x3000; prot = 3; desc = "mmap" }

abbrev gap : Region
gap = record { addr = 0x3000; size = 0x1000; prot = 1; desc = "gap" }

abbrev table : Space
table = record { regions = code ∷ heap ∷ []; mmap_top = 0x4000_0000 }

table-IsValid : IsValid table
table-IsValid = (omega arith, omega arith, (omega arith, omega arith, tt))

abbrev filled : Space
filled = record table { regions = code ∷ gap ∷ heap ∷ [] }

map_fills : map table 0x3000 0x800 1 "gap" ≡ ok filled
unfolding map insert sort_regions first_overlap page_down page_up
map_fills = refl

gap_pages : (page_down 0x3000 ≡ 0x3000) × (page_up 0x800 ≡ 0x1000)
unfolding page_down page_up
gap_pages = (refl, refl)

gap_range : page_down 0x3000 + page_up 0x800 < 2 ^ 64
gap_range = omega (arith, gap_pages)

mmap_pages : page_up 0x1800 ≡ 0x2000
unfolding page_down page_up
mmap_pages = refl

mmap-Free : Free 0x4000_0000 (page_up 0x1800) table.regions
mmap-Free = (omega (arith, mmap_pages), λ b h. ground (arith, mmap_pages))

abbrev protected : Space
protected = record table { regions = code ∷ record heap { prot = 1 } ∷ [] }

protect_heap : protect table 0x2000 0x6000 1 ≡ ok protected
unfolding protect protect_all any_inside page_down page_up
protect_heap = refl

find-region_at_example : find table 0x5123 ≡ region_at table.regions 0x5123
find-region_at_example = find-region_at table 0x5123 table-IsValid

map-Free_example :
    ((s' : Space) × (map table 0x3000 0x800 1 "gap" ≡ ok s'))
    ↔ Free (page_down 0x3000) (page_up 0x800) table.regions
map-Free_example = map-Free table 0x3000 0x800 1 "gap" table-IsValid gap_range

map-view_example :
    IsValid filled
    × (view filled.regions 0x3800 ≡ (
        if within (page_down 0x3000) (page_up 0x800) 0x3800
        then some (1, "gap")
        else view table.regions 0x3800))
    × (filled.mmap_top ≡ table.mmap_top)
map-view_example =
    map-view table 0x3000 0x800 1 "gap" table-IsValid gap_range filled 0x3800 (omega arith)
      (omega arith) map_fills

mmap-view_example :
    let (s', addr) = mmap table 0x1800 3 "mmap" in
    IsValid s'
    × (addr ≡ 0x4000_0000)
    × (s'.mmap_top ≡ addr + page_up 0x1800)
    × (view s'.regions 0x4000_1fff ≡ (
        if within addr (page_up 0x1800) 0x4000_1fff
        then some (3, "mmap")
        else view table.regions 0x4000_1fff))
mmap-view_example =
    mmap-view table 0x1800 3 "mmap" 0x4000_1fff table-IsValid refl (omega arith)
      (omega (arith, mmap_pages)) mmap-Free

munmap_pages : page_down 0x2000 + page_up 0x3000 < 2 ^ 64
unfolding page_down page_up
munmap_pages = omega arith

munmap-view_example :
    IsValid (munmap table 0x2000 0x3000)
    × (view (munmap table 0x2000 0x3000).regions 0x5000 ≡ (
        if within (page_down 0x2000) (page_up 0x3000) 0x5000
        then none
        else view table.regions 0x5000))
    × ((munmap table 0x2000 0x3000).mmap_top ≡ table.mmap_top)
munmap-view_example =
    munmap-view table 0x2000 0x3000 0x5000 table-IsValid (omega arith) (omega arith) munmap_pages

protect_pages : page_down 0x2000 + page_up 0x6000 < 2 ^ 64
unfolding page_down page_up
protect_pages = omega arith

protect-Covered_example :
    ((s' : Space) × (protect table 0x2000 0x6000 1 ≡ ok s'))
    ↔ Covered (page_down 0x2000) (page_up 0x6000) table.regions
protect-Covered_example = protect-Covered table 0x2000 0x6000 1 table-IsValid protect_pages

protect-region_at_example :
    IsValid protected
    × (region_at protected.regions 0x4800 ≡ elim (region_at table.regions 0x4800) [
      | none ↦ none
      | some r ↦ some (reprotected (page_down 0x2000) (page_up 0x6000) 1 r)
    ])
    × (protected.mmap_top ≡ table.mmap_top)
protect-region_at_example =
    protect-region_at table protected 0x2000 0x6000 1 0x4800 table-IsValid protect_pages
      protect_heap

page_up_lem_example : page_up 0x1801 ≡ (0x1801 + 4095) / 4096 * 4096
page_up_lem_example = page_up_lem 0x1801 (omega arith)

-- A fixed mapping above the cursor, as `mmap` with MAP_FIXED makes it, and the next `Mmap`: the new
-- block covers the fixed one.
abbrev fixed : Region
fixed = record { addr = 0x4000_1000; size = 0x1000; prot = 3; desc = "mmap-fixed" }

abbrev block : Region
block = record { addr = 0x4000_0000; size = 0x2000; prot = 3; desc = "mmap" }

mmap_over_fixed :
    (mmap (record { regions = fixed ∷ []; mmap_top = 0x4000_0000 }) 0x2000 3 "mmap").0.regions
    ≡ block ∷ fixed ∷ []
unfolding mmap insert sort_regions page_up page_down
mmap_over_fixed = refl

mmap_over_fixed-IsValid :
    ¬ IsValid (record { regions = block ∷ fixed ∷ []; mmap_top = 0x4000_2000 })
mmap_over_fixed-IsValid (good, low, rest) = absurd (omega arith)
