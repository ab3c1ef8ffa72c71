-- ===== src/Arm64/Mem/Range.antt =====
-- `Map`, `Unmap`, `Protect` and `Mapped` of internal/arm64/mem.go.
pub mod Keep
pub mod Pages
pub mod Exact
pub mod Mapping
pub mod Unmapping
use Prim.Native.String.{String}
use gonidbg.Base.{
  ℕ, zero, suc, ◌+◌, ◌-◌, ◌*◌, ◌/◌, ◌%◌, ◌^◌, Bool, true, false, not, ◌||◌, ltb, leb, ◌==◌,
  if◌then◌else◌, add64, sub64, shr, field, Option, none, some,
}
use gonidbg.Arm64.Mem.{Memory, Page}
use gonidbg.Arm64.Mem.Table.{lookup, set_page}
use gonidbg.Arm64.Mem.Tlb.{flush_tlb}

-- The formatted errors, with what they print.
pub data MemError : Type 0 where
  not_aligned : String → ℕ → ℕ → MemError
  out_of_space : String → ℕ → ℕ → MemError
  bad_prot : String → ℕ → ℕ → MemError
  overlaps_page : ℕ → ℕ → ℕ → MemError
  page_not_mapped : String → ℕ → ℕ → ℕ → MemError
  wraps : String → ℕ → ℕ → MemError
  unmapped_at : String → ℕ → ℕ → ℕ → MemError

pub data Checked (A : Type 0) : Type 0 where
  ok : A → Checked A
  err : MemError → Checked A

abbrev pub then_ok : {A B : Type 0} → Checked A → (A → Checked B) → Checked B
then_ok (ok a) f = f a
then_ok (err e) f = err e

unfoldable pub range_vpns : String → ℕ → ℕ → Checked (ℕ × ℕ)
range_vpns op addr size =
    let end = add64 addr size in
    if (size == 0) || not (field addr 0 12 == 0) || not (field size 0 12 == 0)
    then err (not_aligned op addr size)
    else if ltb end addr || not (shr (sub64 end 1) 48 == 0)
    then err (out_of_space op addr size)
    else ok (shr addr 12, shr end 12)

-- The first of `n` pages from `v` on that is mapped, and that is not.
unfoldable pub first_mapped : Memory → ℕ → ℕ → Option ℕ
first_mapped m zero v = none
first_mapped m (suc n) v =
    let rest = first_mapped m n (v + 1) in elim (lookup m v) [ none ↦ rest | some p ↦ some v ]

unfoldable pub first_unmapped : Memory → ℕ → ℕ → Option ℕ
first_unmapped m zero v = none
first_unmapped m (suc n) v =
    let rest = first_unmapped m n (v + 1) in elim (lookup m v) [ none ↦ some v | some p ↦ rest ]

abbrev pub new_page : ℕ → Page
new_page prot = record { contents = none; prot = prot; code = none }

-- The loops that write to `n` pages from `v` on.
unfoldable pub map_pages : ℕ → ℕ → ℕ → Memory → Memory
map_pages prot zero v m = m
map_pages prot (suc n) v m = map_pages prot n (v + 1) (set_page m v (some (new_page prot)))

unfoldable pub unmap_pages : ℕ → ℕ → Memory → Memory
unmap_pages zero v m = m
unmap_pages (suc n) v m = unmap_pages n (v + 1) (set_page m v none)

-- All pages are mapped here: where Go would dereference nil, nothing is done.
abbrev pub protect_page : ℕ → ℕ → Memory → Memory
protect_page prot v m = elim (lookup m v) [
  | none ↦ m
  | some p ↦ set_page m v (some (record p { prot = prot }))
]

unfoldable pub protect_pages : ℕ → ℕ → ℕ → Memory → Memory
protect_pages prot zero v m = m
protect_pages prot (suc n) v m = protect_pages prot n (v + 1) (protect_page prot v m)

unfoldable pub map : Memory → ℕ → ℕ → ℕ → Checked Memory
unfolding range_vpns
map m addr size prot = then_ok (range_vpns "map" addr size) (λ (lo, hi).
    if leb 8 prot then err (bad_prot "map" addr prot) else (elim (first_mapped m (hi - lo) lo) [
      | some v ↦ err (overlaps_page addr size (v * 2 ^ 12))
      | none ↦ ok (map_pages prot (hi - lo) lo m)
    ]))

unfoldable pub check_mapped : Memory → String → ℕ → ℕ → Checked (ℕ × ℕ)
unfolding range_vpns
check_mapped m op addr size = then_ok (range_vpns op addr size) (λ (lo, hi).
    elim (first_unmapped m (hi - lo) lo) [
      | some v ↦ err (page_not_mapped op addr size (v * 2 ^ 12))
      | none ↦ ok (lo, hi)
    ])

unfoldable pub unmap : Memory → ℕ → ℕ → Checked Memory
unfolding check_mapped
unmap m addr size =
    then_ok (check_mapped m "unmap" addr size)
      (λ (lo, hi). ok (flush_tlb (unmap_pages (hi - lo) lo m)))

unfoldable pub protect : Memory → ℕ → ℕ → ℕ → Checked Memory
unfolding check_mapped
protect m addr size prot =
    if leb 8 prot
    then err (bad_prot "protect" addr prot)
    else then_ok (check_mapped m "protect" addr size)
        (λ (lo, hi). ok (flush_tlb (protect_pages prot (hi - lo) lo m)))

abbrev pub mapped : Memory → ℕ → Bool
mapped m addr = elim (lookup m (shr addr 12)) [ none ↦ false | some p ↦ true ]
