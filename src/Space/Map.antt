-- ===== src/Space/Map.antt =====
-- `Map` and `Mmap` of internal/memory/memory.go: reserving ranges.
use Prim.Native.String.{String}
use mathlib.Core.Logic.{◌↔◌}
use gonidbg.Base.{
  ℕ, ◌+◌, ◌%◌, ◌^◌, ◌≤◌, ◌<◌, ◌≡◌, refl, ◌≢◌, inl, inr, none, some, List, [], ◌∷◌, arith, All, ltb,
  Bool-cases, Option-cases, if◌then◌else◌, true, add64, ◌&&◌, max,
}
use gonidbg.Space.{Region, Space, ok, end, insert, first_overlap, map, mmap}
use gonidbg.Space.Page.{page_down, page_up, page_down_lem, page_up_lem}
use gonidbg.Space.Chain.{IsRegion, Chain, IsValid, Apart, sort_regions-append, insert_by_addr-Chain}
use gonidbg.Space.View.{within, view, view-insert_by_addr}

-- `Map` finds no overlap exactly when the range is apart from every region.
first_overlap-Apart :
    (lo a n : ℕ) (rs : List Region)
    → Chain lo rs
    → 0 < n
    → a + n < 2 ^ 64
    → first_overlap a n rs ≡ none
    → All (Apart a n) rs
unfolding first_overlap
first_overlap-Apart lo a n [] c pos fits e = tt
first_overlap-Apart lo a n (r ∷ rs) c pos fits e =
    (ground arith, first_overlap-Apart (r.addr + r.size) a n rs c.2 pos fits (ground arith))

-- Inserting a region that is apart from the others keeps the table well formed, and adds the
-- region's bytes to the view.
insert_lem :
    (s : Space) (r : Region) (b : ℕ)
    → IsValid s
    → IsRegion r
    → All (Apart r.addr r.size) s.regions
    → IsValid (insert s r)
      × (view (insert s r).regions b
          ≡ (if within r.addr r.size b then some (r.prot, r.desc) else view s.regions b))
unfolding insert
insert_lem s r b v good apart = rw (sort_regions-append 0 r s.regions good v apart) (
  insert_by_addr-Chain 0 r s.regions good (omega arith) v apart,
  view-insert_by_addr 0 r s.regions b v apart,
)

Apart-view :
    (a n b : ℕ) (rs : List Region) → All (Apart a n) rs → within a n b ≡ true → view rs b ≡ none
Apart-view a n b [] apart h = refl
Apart-view a n b (r ∷ rs) apart h = ground (arith, Apart-view a n b rs apart.1 h)

-- An overlap is witnessed by a byte of the range that is mapped.
first_overlap-hit :
    (lo a n : ℕ) (rs : List Region) (hit : Region)
    → Chain lo rs
    → 0 < n
    → a + n < 2 ^ 64
    → first_overlap a n rs ≡ some hit
    → (b : ℕ) × (within a n b ≡ true) × (view rs b ≢ none)
unfolding first_overlap
first_overlap-hit lo a n [] hit c pos fits e = cc
first_overlap-hit lo a n (r ∷ rs) hit c pos fits e =
    elim (Bool-cases (ltb a (end r) && ltb r.addr (add64 a n))) [
      | inl here ↦ (max a r.addr, ground arith, ground arith)
      | inr there ↦
          let (b, w, mapped) =
            first_overlap-hit (r.addr + r.size) a n rs hit c.2 pos fits (rw there at e) in
          (b, w, ground arith)
    ]

-- The region that `Map` adds.
abbrev reserved : ℕ → ℕ → ℕ → String → Region
reserved addr size prot desc = record {
  addr = page_down addr;
  size = page_up size;
  prot = prot;
  desc = desc;
}

-- The pages of `[addr, addr + size)`, none of which is mapped.
abbrev pub Free : ℕ → ℕ → List Region → Type 0
Free a n rs = (0 < n) × ((b : ℕ) → within a n b ≡ true → view rs b ≡ none)

Free-clear :
    (s : Space) (a n : ℕ)
    → IsValid s
    → a + n < 2 ^ 64
    → Free a n s.regions
    → first_overlap a n s.regions ≡ none
Free-clear s a n v fits free = elim (Option-cases (first_overlap a n s.regions)) [
  | inl clear ↦ clear
  | inr (r, hit) ↦
      let (b, w, mapped) = first_overlap-hit 0 a n s.regions r v free.0 fits hit in
      absurd (mapped (free.1 b w))
]

module _ (s : Space) (addr size prot : ℕ) (desc : String) (valid : IsValid s)
    (in_range : page_down addr + page_up size < 2 ^ 64) where
  -- On a well-formed table, for a page-rounded range that does not wrap, `Map` succeeds exactly
  -- when the range is not empty and none of its bytes is mapped.
  pub map-Free :
      ((s' : Space) × (map s addr size prot desc ≡ ok s'))
      ↔ Free (page_down addr) (page_up size) s.regions
  unfolding map
  map-Free = (there, back)
    where
      there :
          (s' : Space) × (map s addr size prot desc ≡ ok s')
          → Free (page_down addr) (page_up size) s.regions
      there (s', e) =
          elim (Option-cases (first_overlap (page_down addr) (page_up size) s.regions)) [
            | inl clear ↦
                let pos : 0 < page_up size = ground arith in
                (
                  pos,
                  λ b.
                      Apart-view (page_down addr) (page_up size) b s.regions
                        (first_overlap-Apart 0 _ _ s.regions valid pos in_range clear),
                )
            | inr (r, hit) ↦ ground arith
          ]

      back :
          Free (page_down addr) (page_up size) s.regions
          → (s' : Space) × (map s addr size prot desc ≡ ok s')
      back free =
          let clear = Free-clear s (page_down addr) (page_up size) valid in_range free in
          (insert s (reserved addr size prot desc), ground (arith, clear))

  -- On a well-formed table, for an address and a size whose rounding and whose sum do not wrap,
  -- a `Map` that succeeds keeps the table well formed, gives every byte of the page-rounded
  -- range the requested protection and description, and changes no other byte and not the mmap
  -- cursor.
  pub map-view :
      (s' : Space) (b : ℕ)
      → addr < 2 ^ 64
      → size + 4096 ≤ 2 ^ 64
      → map s addr size prot desc ≡ ok s'
      → IsValid s'
        × (view s'.regions b ≡ (
            if within (page_down addr) (page_up size) b
            then some (prot, desc)
            else view s.regions b))
        × (s'.mmap_top ≡ s.mmap_top)
  map-view s' b small_addr small_size e = rw (← same) (added.0, added.1, unfold insert in refl)
    where
      free : Free (page_down addr) (page_up size) s.regions
      free = map-Free.0 (s', e)

      clear : first_overlap (page_down addr) (page_up size) s.regions ≡ none
      clear = Free-clear s (page_down addr) (page_up size) valid in_range free

      same : insert s (reserved addr size prot desc) ≡ s'
      same = unfold map in ground (arith, clear)

      added :
          IsValid (insert s (reserved addr size prot desc))
          × (view (insert s (reserved addr size prot desc)).regions b ≡ (
              if within (page_down addr) (page_up size) b
              then some (prot, desc)
              else view s.regions b))
      added =
          insert_lem s (reserved addr size prot desc) b valid
            (omega (arith, free.0, page_down_lem addr small_addr, page_up_lem size small_size))
            (first_overlap-Apart 0 _ _ s.regions valid free.0 in_range clear)

-- `Mmap` hands out the cursor and moves it past the pages. On a well-formed table with the
-- cursor at a page, for a size whose rounding and whose sum with the cursor do not wrap, when
-- the pages above the cursor are free and not none, the table stays well formed and just those
-- pages are added.
pub mmap-view :
    (s : Space) (size prot : ℕ) (desc : String) (b : ℕ)
    → IsValid s
    → s.mmap_top % 4096 ≡ 0
    → size + 4096 ≤ 2 ^ 64
    → s.mmap_top + page_up size < 2 ^ 64
    → Free s.mmap_top (page_up size) s.regions
    → let (s', addr) = mmap s size prot desc in
      IsValid s'
      × (addr ≡ s.mmap_top)
      × (s'.mmap_top ≡ addr + page_up size)
      × (view s'.regions b
          ≡ (if within addr (page_up size) b then some (prot, desc) else view s.regions b))
unfolding mmap
mmap-view s size prot desc b v aligned small fits free =
    let (valid, bytes) =
      insert_lem moved block b v (omega (arith, free.0, page_up_lem size small)) (
        first_overlap-Apart 0 _ _ s.regions v free.0 fits
          (Free-clear s s.mmap_top (page_up size) v fits free)) in
    (valid, refl, unfold insert in omega arith, bytes)
  where
    moved : Space
    moved = record s { mmap_top = add64 s.mmap_top (page_up size) }

    block : Region
    block = record { addr = s.mmap_top; size = page_up size; prot = prot; desc = desc }
