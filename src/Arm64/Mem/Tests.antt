-- ===== src/Arm64/Mem/Tests.antt =====
-- Tests and witnesses for the memory of internal/arm64/mem.go: two pages mapped at 0x1000.
use gonidbg.Base.{[], ◌≡◌, refl, arith, true, false, not, ltb, none, some}
use gonidbg.Arm64.Mem.{Memory, MemHook}
use gonidbg.Arm64.Mem.Table.{walk, put_l1, put_l2, lookup, set_page, lookup-set_page}
use gonidbg.Arm64.Mem.Tlb.{init, flush_tlb}
use gonidbg.Arm64.Mem.Range.{
  range_vpns, first_mapped, map_pages, map, unmap, protect, mapped, new_page,
}
use gonidbg.Arm64.Mem.Range.Keep.{map_pages-IsCoherent}
use gonidbg.Arm64.Mem.Range.Exact.{IsStep}
use gonidbg.Arm64.Mem.Range.Mapping.{map-IsStep}
use gonidbg.Arm64.Mem.Range.Unmapping.{unmap-IsStep, protect-IsStep}
use gonidbg.Arm64.Mem.Guest.{HookCode, then_got, resolve, guest_page, read_slow, fill_rtlb}
use gonidbg.Arm64.Mem.Guest.Access.{read32, read_n, write_n}
use gonidbg.Arm64.Mem.Coherent.{IsCoherent}
use gonidbg.Arm64.Mem.View.{answer, answer_of}
use gonidbg.Arm64.Mem.Reads.{IsRead}
use gonidbg.Arm64.Mem.ReadSizes.{read_n-IsRead}
use gonidbg.Arm64.Mem.Writes.{IsWrite}
use gonidbg.Arm64.Mem.Writes.Sizes.{write_n-IsWrite}
use gonidbg.Arm64.Mem.RoundTrip.{write_n-read_n}
use gonidbg.Arm64.Mem.Host.{add_read_hook, add_write_hook}
use gonidbg.Arm64.Mem.Hooks.{init-IsCoherent}
use gonidbg.Arm64.Mem.Lawful.{IsLawful}
use gonidbg.Arm64.Mem.Range.Exact.{result_memory}
use gonidbg.Arm64.Mem.View.{memory_after}
use gonidbg.Arm64.Mem.Reachable.{
  Reaches, does_map, does_read, does_write, does_watch_reads, at_init, after, Reaches-IsCoherent,
}
use gonidbg.Arm64.Mem.Hooked.{then_load, hooks_ran, read_n-hooked}

-- Hooks that do nothing.
abbrev idle : HookCode
idle = record { mem_hook = λ fn a n v m. m; invalid_hook = λ fn k a n v m. (false, m) }

unfoldable two_pages : Memory
two_pages = map_pages 3 2 1 init

two_pages-IsCoherent : IsCoherent two_pages
unfolding two_pages first_mapped init walk flush_tlb
two_pages-IsCoherent = map_pages-IsCoherent 3 2 1 init init-IsCoherent (omega arith) refl

lookup-set_page_example : lookup (set_page init 7 (some (new_page 3))) 7 ≡ some (new_page 3)
lookup-set_page_example = lookup-set_page init 7 7 (some (new_page 3)) (omega arith)

map-IsStep_example :
    IsStep init 4096 8192 (some 3) false (ltb 3 8) (mapped init) (map init 4096 8192 3)
map-IsStep_example = map-IsStep init 4096 8192 3 init-IsCoherent (omega arith) (omega arith)

unmap-IsStep_example :
    IsStep two_pages 4096 4096 none false true
      (λ a. not (mapped two_pages a))
      (unmap two_pages 4096 4096)
unmap-IsStep_example =
    unmap-IsStep two_pages 4096 4096 two_pages-IsCoherent (omega arith) (omega arith)

protect-IsStep_example :
    IsStep two_pages 4096 4096
      (some 1)
      true
      (ltb 1 8)
      (λ a. not (mapped two_pages a))
      (protect two_pages 4096 4096 1)
protect-IsStep_example =
    protect-IsStep two_pages 4096 4096 1 two_pages-IsCoherent (omega arith) (omega arith)

read_n-IsRead_example : IsRead 64 two_pages 8190 4 (read_n idle 64 8190 4 two_pages)
unfolding two_pages map_pages init flush_tlb
read_n-IsRead_example =
    read_n-IsRead idle 64 two_pages 8190 4 two_pages-IsCoherent refl refl (omega arith) refl

write_n-IsWrite_example :
    IsWrite 64 two_pages 8190 4 305419896 (write_n idle 64 8190 4 305419896 two_pages)
unfolding two_pages map_pages init flush_tlb
write_n-IsWrite_example =
    write_n-IsWrite idle 64 two_pages 8190 4 305419896 two_pages-IsCoherent refl refl (omega arith)
      refl

write_n-read_n_example :
    answer_of
      (then_got (write_n idle 64 8190 4 305419896 two_pages) (λ u n. read_n idle 64 8190 4 n))
    ≡ answer 305419896
unfolding two_pages map_pages init flush_tlb walk put_l1 put_l2
write_n-read_n_example =
    write_n-read_n idle 64 two_pages 8190 4 305419896 two_pages-IsCoherent refl refl refl
      (omega arith) refl refl refl

abbrev watch : MemHook
watch = record { begin = 4096; end = 4103; fn = 0 }

idle-IsLawful : IsLawful idle
idle-IsLawful = record { mem_keeps = λ fn a n v m co. co; invalid_keeps = λ fn k a n v m co. co }

-- Two pages are mapped and written.
abbrev mapped_first : Memory
mapped_first = result_memory init (map init 4096 8192 3)

abbrev written_then : Memory
written_then = memory_after (write_n idle 64 8190 4 305419896 mapped_first)

Reaches-IsCoherent_example : IsCoherent written_then
Reaches-IsCoherent_example = Reaches-IsCoherent idle written_then idle-IsLawful (
    after mapped_first written_then
      (after init mapped_first at_init (does_map 4096 8192 3 init (omega arith) (omega arith)))
      (does_write 64 8190 4 305419896 mapped_first (omega arith)))

-- The pages are mapped, one is read, so that the TLB holds it, and then the hook is registered.
abbrev read_then : Memory
read_then = memory_after (read_n idle 64 4100 4 mapped_first)

read_then-Reaches : Reaches idle read_then
read_then-Reaches =
    after mapped_first read_then
      (after init mapped_first at_init (does_map 4096 8192 3 init (omega arith) (omega arith)))
      (does_read 64 4100 4 mapped_first (omega arith))

abbrev read_watched : Memory
read_watched = add_read_hook read_then watch

abbrev write_watched : Memory
write_watched = add_write_hook read_then watch

read_n-hooked_example :
    read_n idle 64 4100 4 read_watched
    ≡ then_load idle 64 4100 4 (hooks_ran idle 64 [] watch [] 4100 4 0 read_watched)
unfolding map range_vpns first_mapped map_pages init flush_tlb walk put_l1 put_l2 add_read_hook
    resolve read_n read32 read_slow guest_page fill_rtlb
read_n-hooked_example =
    read_n-hooked idle 64 read_watched [] [] watch (new_page 3) 4100 4 idle-IsLawful
      (after read_then read_watched read_then-Reaches (does_watch_reads watch read_then)) refl refl
      (omega arith) refl refl refl
