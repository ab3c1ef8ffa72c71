-- ===== src/Space.antt =====
-- internal/memory/memory.go: the page-granular allocator of the guest address space.
-- A method that mutates `*Space` returns the new record.
mod Page
pub mod Search
pub mod Chain
pub mod View
pub mod Find
pub mod Map
pub mod Munmap
pub mod Protect
mod Tests
use Prim.Native.String.{String}
use gonidbg.Base.{
  ℕ, zero, suc, ◌+◌, ◌-◌, ◌*◌, ◌^◌, ◌/◌, Bool, true, false, ◌&&◌, ◌||◌, Option, none, some, List,
  [], ◌∷◌, ◌++◌, ltb, leb, ◌==◌, if◌then◌else◌, length, get_elem?, add64, sub64, bit_and, not64,
}
use Page.{page_down, page_up}
use Search.{sort_search}

abbrev pub mmap_base : ℕ
mmap_base = 0x40000000

pub record Region : Type 0 where
  pub addr : ℕ
  pub size : ℕ
  pub prot : ℕ
  pub desc : String

-- The sum wraps.
abbrev pub end : Region → ℕ
end r = add64 r.addr r.size

pub record Space : Type 0 where
  pub regions : List Region
  pub mmap_top : ℕ

unfoldable pub new_space : Space
new_space = record { regions = []; mmap_top = mmap_base }

-- The formatted errors, with what they print.
pub data SpaceError : Type 0 where
  zero_size : ℕ → SpaceError
  overlaps : ℕ → ℕ → Region → SpaceError
  covers_no_region : ℕ → ℕ → SpaceError

pub data Result {ℓ} (A : Type ℓ) : Type ℓ where
  ok : A → Result A
  err : SpaceError → Result A

-- `sort.Slice` by address. It leaves the order of equal addresses open; here they keep theirs.
abbrev pub insert_by_addr : Region → List Region → List Region
insert_by_addr r [] = r ∷ []
insert_by_addr r (x ∷ xs) =
    let rest = insert_by_addr r xs in if ltb x.addr r.addr then x ∷ rest else r ∷ x ∷ xs

unfoldable pub sort_regions : List Region → List Region
sort_regions [] = []
sort_regions (r ∷ rs) = insert_by_addr r (sort_regions rs)

unfoldable pub insert : Space → Region → Space
insert s r = record s { regions = sort_regions (s.regions ++ r ∷ []) }

-- The first region that overlaps `[addr, addr + size)`, as the loop of `Map` finds it.
unfoldable pub first_overlap : ℕ → ℕ → List Region → Option Region
first_overlap addr size [] = none
first_overlap addr size (r ∷ rs) =
    if ltb addr (end r) && ltb r.addr (add64 addr size) then some r else first_overlap addr size rs

unfoldable pub map : Space → ℕ → ℕ → ℕ → String → Result Space
map s addr size prot desc =
    let a = page_down addr in
    let n = page_up size in
    if n == 0 then err (zero_size a) else (elim (first_overlap a n s.regions) [
      | some r ↦ err (overlaps a n r)
      | none ↦ ok (insert s (record { addr = a; size = n; prot = prot; desc = desc }))
    ])

unfoldable pub mmap : Space → ℕ → ℕ → String → Space × ℕ
mmap s size prot desc =
    let n = page_up size in
    let addr = s.mmap_top in
    (
      insert (record s { mmap_top = add64 s.mmap_top n })
          (record { addr = addr; size = n; prot = prot; desc = desc }),
      addr,
    )

-- What the loop of `Munmap` appends to `out` for one region.
unfoldable pub cut : ℕ → ℕ → Region → List Region
cut addr stop r =
    if leb (end r) addr || leb stop r.addr
    then r ∷ []
    else ((if ltb r.addr addr then record r { size = sub64 addr r.addr } ∷ [] else [])
        ++ (if ltb stop (end r)
            then record r { addr = stop; size = sub64 (end r) stop } ∷ []
            else []))

unfoldable pub cut_all : ℕ → ℕ → List Region → List Region
cut_all addr stop [] = []
cut_all addr stop (r ∷ rs) = cut addr stop r ++ cut_all addr stop rs

unfoldable pub munmap : Space → ℕ → ℕ → Space
munmap s addr size =
    let a = page_down addr in
    record s { regions = sort_regions (cut_all a (add64 a (page_up size)) s.regions) }

abbrev pub inside : ℕ → ℕ → Region → Bool
inside a stop r = leb a r.addr && leb (end r) stop

unfoldable pub protect_all : ℕ → ℕ → ℕ → List Region → List Region
protect_all a stop prot [] = []
protect_all a stop prot (r ∷ rs) =
    (if inside a stop r then record r { prot = prot } else r) ∷ protect_all a stop prot rs

unfoldable pub any_inside : ℕ → ℕ → List Region → Bool
any_inside a stop [] = false
any_inside a stop (r ∷ rs) = inside a stop r || any_inside a stop rs

unfoldable pub protect : Space → ℕ → ℕ → ℕ → Result Space
protect s addr size prot =
    let a = page_down addr in
    let stop = add64 a (page_up size) in
    if any_inside a stop s.regions
    then ok (record s { regions = protect_all a stop prot s.regions })
    else err (covers_no_region a size)

-- Whether region `i` ends above `a`; `sort.Search` asks below the length only.
abbrev pub ends_above : ℕ → List Region → ℕ → Bool
ends_above a rs i = elim (get_elem? rs i) [ none ↦ false | some r ↦ ltb a (end r) ]

unfoldable pub find : Space → ℕ → Option Region
find s a = elim (get_elem? s.regions (sort_search (length s.regions) (ends_above a s.regions))) [
  | none ↦ none
  | some r ↦ if leb r.addr a then some r else none
]

unfoldable pub set_layout : List Region → ℕ → Space
set_layout regions mmap_top = record { regions = sort_regions regions; mmap_top = mmap_top }
