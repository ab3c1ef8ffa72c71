-- ===== src/Space/View.antt =====
-- The abstract view of the table of internal/memory/memory.go: what is mapped at each byte.
use Prim.Native.String.{String}
use gonidbg.Base.{
  ℕ, ◌+◌, ◌<◌, ◌≡◌, refl, Bool, ◌&&◌, Option, none, some, List, [], ◌∷◌, ◌++◌, arith, All, ltb, leb,
  if◌then◌else◌,
}
use gonidbg.Space.{Region, insert_by_addr}
use gonidbg.Space.Chain.{Chain, Apart}

-- Whether `[addr, addr + size)` holds the byte `b`.
abbrev pub within : ℕ → ℕ → ℕ → Bool
within addr size b = leb addr b && ltb b (addr + size)

-- The first region that holds `b`.
abbrev pub region_at : List Region → ℕ → Option Region
region_at [] b = none
region_at (r ∷ rs) b = if within r.addr r.size b then some r else region_at rs b

-- Its protection and description: what a table says of `b`, however it is cut into regions.
abbrev pub view : List Region → ℕ → Option (ℕ × String)
view [] b = none
view (r ∷ rs) b = if within r.addr r.size b then some (r.prot, r.desc) else view rs b

pub view_below : (lo : ℕ) (rs : List Region) (b : ℕ) → Chain lo rs → b < lo → view rs b ≡ none
view_below lo [] b c h = refl
view_below lo (r ∷ rs) b c h = ground (arith, view_below (r.addr + r.size) rs b c.2 (omega arith))

pub region_at_below :
    (lo : ℕ) (rs : List Region) (b : ℕ) → Chain lo rs → b < lo → region_at rs b ≡ none
region_at_below lo [] b c h = refl
region_at_below lo (r ∷ rs) b c h =
    ground (arith, region_at_below (r.addr + r.size) rs b c.2 (omega arith))

-- Inserting a region that is apart from the others adds its bytes.
pub view-insert_by_addr :
    (lo : ℕ) (r : Region) (rs : List Region) (b : ℕ)
    → Chain lo rs
    → All (Apart r.addr r.size) rs
    → view (insert_by_addr r rs) b
      ≡ (if within r.addr r.size b then some (r.prot, r.desc) else view rs b)
view-insert_by_addr lo r [] b c apart = refl
view-insert_by_addr lo r (x ∷ xs) b c apart =
    ground (arith, view-insert_by_addr (x.addr + x.size) r xs b c.2 apart.1)

pub view-append :
    (xs ys : List Region) (b : ℕ)
    → view (xs ++ ys) b ≡ elim (view xs b) [ none ↦ view ys b | some p ↦ some p ]
view-append [] ys b = refl
view-append (x ∷ xs) ys b = ground (arith, view-append xs ys b)
