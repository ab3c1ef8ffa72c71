-- ===== src/Space/Chain.antt =====
-- The well-formedness of the region table of internal/memory/memory.go: regions of whole pages,
-- sorted by address, that do not overlap. And what sorting does to such a table.
use gonidbg.Base.{
  ℕ, ◌+◌, ◌%◌, ◌^◌, ◌≤◌, ◌<◌, ◌≡◌, refl, ap, ◌∙◌, ◌⊎◌, inl, inr, List, [], ◌∷◌, ◌++◌, arith, All,
  ltb, Bool-cases,
}
use gonidbg.Space.{Region, Space, insert_by_addr, sort_regions}

abbrev pub IsRegion : Region → Type 0
IsRegion r = (0 < r.size) × (r.addr % 4096 ≡ 0) × (r.size % 4096 ≡ 0) × (r.addr + r.size < 2 ^ 64)

-- The regions lie above `lo`, each above the one before it.
abbrev pub Chain : ℕ → List Region → Type 0
Chain lo [] = Unit {0}
Chain lo (r ∷ rs) = IsRegion r × (lo ≤ r.addr) × Chain (r.addr + r.size) rs

abbrev pub IsValid : Space → Type 0
IsValid s = Chain 0 s.regions

-- `r` and `[addr, addr + size)` share no byte.
abbrev pub Apart : ℕ → ℕ → Region → Type 0
Apart addr size r = (addr + size ≤ r.addr) ⊎ (r.addr + r.size ≤ addr)

pub Chain-weaken : (lo hi : ℕ) (rs : List Region) → lo ≤ hi → Chain hi rs → Chain lo rs
Chain-weaken lo hi [] h c = tt
Chain-weaken lo hi (r ∷ rs) h c = (c.0, omega arith, c.2)

-- A region that starts before a chain stays at its head.
pub insert_by_addr-front :
    (r : Region) (rs : List Region) (lo : ℕ)
    → r.addr ≤ lo
    → Chain lo rs
    → insert_by_addr r rs ≡ r ∷ rs
insert_by_addr-front r [] lo h c = refl
insert_by_addr-front r (x ∷ xs) lo h c = ground arith

-- Sorting leaves a sorted table alone.
pub sort_regions-Chain : (lo : ℕ) (rs : List Region) → Chain lo rs → sort_regions rs ≡ rs
unfolding sort_regions
sort_regions-Chain lo [] c = refl
sort_regions-Chain lo (r ∷ rs) c =
    ap (insert_by_addr r) (sort_regions-Chain (r.addr + r.size) rs c.2)
    ∙ insert_by_addr-front r rs (r.addr + r.size) (omega arith) c.2

pub insert_by_addr-Chain :
    (lo : ℕ) (r : Region) (rs : List Region)
    → IsRegion r
    → lo ≤ r.addr
    → Chain lo rs
    → All (Apart r.addr r.size) rs
    → Chain lo (insert_by_addr r rs)
insert_by_addr-Chain lo r [] ok h c apart = (ok, h, tt)
insert_by_addr-Chain lo r (x ∷ xs) ok h c apart = elim (Bool-cases (ltb x.addr r.addr)) [
  | inl after ↦
      rw after (c.0, c.1, insert_by_addr-Chain (x.addr + x.size) r xs ok (ground arith) c.2 apart.1)
  | inr before ↦ rw before (ok, h, (c.0, ground arith, c.2))
]

-- Appending and sorting, as `insert` does, is inserting in order.
pub sort_regions-append :
    (lo : ℕ) (r : Region) (rs : List Region)
    → IsRegion r
    → Chain lo rs
    → All (Apart r.addr r.size) rs
    → sort_regions (rs ++ r ∷ []) ≡ insert_by_addr r rs
unfolding sort_regions
sort_regions-append lo r [] ok c apart = refl
sort_regions-append lo r (x ∷ xs) ok c apart =
    ap (insert_by_addr x) (sort_regions-append (x.addr + x.size) r xs ok c.2 apart.1) ∙ swap
  where
    swap : insert_by_addr x (insert_by_addr r xs) ≡ insert_by_addr r (x ∷ xs)
    swap = elim (Bool-cases (ltb x.addr r.addr)) [
      | inl after ↦ rw after (
          insert_by_addr-front x (insert_by_addr r xs) (x.addr + x.size) (omega arith)
            (insert_by_addr-Chain (x.addr + x.size) r xs ok (ground arith) c.2 apart.1))
      | inr before ↦
          ap (insert_by_addr x) (insert_by_addr-front r xs (x.addr + x.size) (ground arith) c.2)
          ∙ ground (arith, insert_by_addr-front x xs (x.addr + x.size) (omega arith) c.2)
    ]
