-- ===== src/Space/Protect.antt =====
-- `Protect` of internal/memory/memory.go: changing the protection of whole regions.
use gonidbg.Base.{
  ℕ, ◌+◌, ◌-◌, ◌^◌, ◌<◌, ◌≡◌, Bool, ◌&&◌, refl, inl, inr, none, ◌↔◌, some, List, [], ◌∷◌, arith,
  Bool-cases, if◌then◌else◌, true, add64,
}
use gonidbg.Space.{Region, Space, ok, inside, any_inside, protect_all, protect}
use gonidbg.Space.Page.{page_down, page_up}
use gonidbg.Space.Chain.{IsRegion, Chain, IsValid}
use gonidbg.Space.View.{within, region_at, region_at_below}

-- Whether the bytes of `r` lie in `[a, a + n)`: its first and its last byte do.
abbrev pub covers : ℕ → ℕ → Region → Bool
covers a n r = within a n r.addr && within a n (r.addr + r.size - 1)

-- `r` with the new protection if the range covers it.
abbrev pub reprotected : ℕ → ℕ → ℕ → Region → Region
reprotected a n prot r = if covers a n r then record r { prot = prot } else r

-- A region of the table, by a byte that it holds, that the range covers.
abbrev pub Covered : ℕ → ℕ → List Region → Type 0
Covered a n rs =
    (b : ℕ) × record { r : Region; at : region_at rs b ≡ some r; covered : covers a n r ≡ true }

protect_all-Chain :
    (a stop prot lo : ℕ) (rs : List Region) → Chain lo rs → Chain lo (protect_all a stop prot rs)
unfolding protect_all
protect_all-Chain a stop prot lo [] c = tt
protect_all-Chain a stop prot lo (r ∷ rs) c =
    ground (arith, protect_all-Chain a stop prot (r.addr + r.size) rs c.2)

module _ (a n : ℕ) (fits : a + n < 2 ^ 64) where
  -- The comparisons of `Protect` find the regions whose bytes lie in the range.
  inside-covers : (r : Region) → IsRegion r → inside a (add64 a n) r ≡ covers a n r
  inside-covers r good = ground arith

  protect_all-region_at :
      (prot lo b : ℕ) (rs : List Region)
      → Chain lo rs
      → region_at (protect_all a (add64 a n) prot rs) b
        ≡ elim (region_at rs b) [ none ↦ none | some r ↦ some (reprotected a n prot r) ]
  unfolding protect_all
  protect_all-region_at prot lo b [] c = refl
  protect_all-region_at prot lo b (r ∷ rs) c =
      ground (arith, inside-covers r c.0, protect_all-region_at prot (r.addr + r.size) b rs c.2)

  any_inside-Covered :
      (lo : ℕ) (rs : List Region)
      → Chain lo rs
      → any_inside a (add64 a n) rs ≡ true
      → Covered a n rs
  unfolding any_inside
  any_inside-Covered lo [] c h = cc
  any_inside-Covered lo (r ∷ rs) c h = elim (Bool-cases (covers a n r)) [
    | inl found_here ↦ (r.addr, record { r = r; at = ground arith; covered = found_here })
    | inr elsewhere ↦
        let (b, found) =
          any_inside-Covered (r.addr + r.size) rs c.2 (ground (arith, inside-covers r c.0)) in
        (
          b,
          record {
            r = found.r;
            at = ground (arith, found.at, region_at_below (r.addr + r.size) rs b c.2);
            covered = found.covered;
          },
        )
  ]

  Covered-any_inside :
      (lo b : ℕ) (rs : List Region) (r : Region)
      → Chain lo rs
      → region_at rs b ≡ some r
      → covers a n r ≡ true
      → any_inside a (add64 a n) rs ≡ true
  unfolding any_inside
  Covered-any_inside lo b [] r c at h = cc
  Covered-any_inside lo b (x ∷ xs) r c at h =
      ground (arith, inside-covers x c.0, Covered-any_inside (x.addr + x.size) b xs r c.2)

-- On a well-formed table, for a page-rounded range that does not wrap, `Protect` succeeds exactly
-- when the first and the last byte of some region of the table lie in the range.
pub protect-Covered :
    (s : Space) (addr size prot : ℕ)
    → IsValid s
    → page_down addr + page_up size < 2 ^ 64
    → ((s' : Space) × (protect s addr size prot ≡ ok s'))
      ↔ Covered (page_down addr) (page_up size) s.regions
unfolding protect
protect-Covered s addr size prot v fits = (
  λ (s', e). any_inside-Covered _ _ fits 0 s.regions v (ground arith),
  λ (b, found). (
    record s {
      regions = protect_all (page_down addr) (add64 (page_down addr) (page_up size)) prot s.regions;
    },
    ground (arith, Covered-any_inside _ _ fits 0 b s.regions found.r v found.at found.covered),
  ),
)

-- On a well-formed table, for a page-rounded range that does not wrap, a `Protect` that succeeds
-- keeps the table well formed and the mmap cursor. The region at each byte has the new protection
-- if its first and its last byte lie in the range; else it is as it was, also where the range cuts
-- through it.
pub protect-region_at :
    (s s' : Space) (addr size prot b : ℕ)
    → IsValid s
    → page_down addr + page_up size < 2 ^ 64
    → protect s addr size prot ≡ ok s'
    → IsValid s'
      × (region_at s'.regions b ≡ elim (region_at s.regions b) [
        | none ↦ none
        | some r ↦ some (reprotected (page_down addr) (page_up size) prot r)
      ])
      × (s'.mmap_top ≡ s.mmap_top)
unfolding protect
protect-region_at s s' addr size prot b v fits e = rw (← same) (
  protect_all-Chain _ _ prot 0 s.regions v,
  protect_all-region_at _ _ fits prot 0 b s.regions v,
  refl,
)
  where
    same :
        record s {
          regions =
              protect_all (page_down addr) (add64 (page_down addr) (page_up size)) prot s.regions;
        }
        ≡ s'
    same = ground arith
