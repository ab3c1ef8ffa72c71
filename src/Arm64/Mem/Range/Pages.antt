-- ===== src/Arm64/Mem/Range/Pages.antt =====
-- `Map`, `Unmap` and `Protect` of internal/arm64/mem.go: what their loops leave in the table.
use gonidbg.Base.{
  ℕ, zero, suc, ◌+◌, ◌^◌, ◌≤◌, ◌<◌, ◌≡◌, refl, arith, Bool, true, false, not, ◌&&◌, ltb, leb, ◌==◌,
  if◌then◌else◌, Option, none, some, Option-cases, inl, inr, ◌∙◌,
}
use gonidbg.Arm64.Mem.{Memory, Page}
use gonidbg.Arm64.Mem.Table.{lookup, set_page, lookup-set_page}
use gonidbg.Arm64.Mem.Range.{
  first_mapped, first_unmapped, new_page, map_pages, unmap_pages, protect_page, protect_pages,
}

-- What the loops leave in the table.
abbrev pub among : ℕ → ℕ → ℕ → Bool
among v n w = leb v w && ltb w (v + n)

pub lookup-map_pages :
    (prot n v : ℕ) (m : Memory) (w : ℕ)
    → v + n ≤ 2 ^ 36
    → lookup (map_pages prot n v m) w ≡ (if among v n w then some (new_page prot) else lookup m w)
unfolding map_pages
lookup-map_pages prot zero v m w h = ground arith
lookup-map_pages prot (suc n) v m w h = ground (
  arith,
  lookup-map_pages prot n (v + 1) (set_page m v (some (new_page prot))) w (omega arith),
  lookup-set_page m v w (some (new_page prot)) (omega arith),
)

pub lookup-unmap_pages :
    (n v : ℕ) (m : Memory) (w : ℕ)
    → v + n ≤ 2 ^ 36
    → lookup (unmap_pages n v m) w ≡ (if among v n w then none else lookup m w)
unfolding unmap_pages
lookup-unmap_pages zero v m w h = ground arith
lookup-unmap_pages (suc n) v m w h = ground (
  arith,
  lookup-unmap_pages n (v + 1) (set_page m v none) w (omega arith),
  lookup-set_page m v w none (omega arith),
)

abbrev pub is_there : Option Page → Bool
is_there none = false
is_there (some p) = true

-- A page with other permissions.
abbrev pub with_prot : ℕ → Option Page → Option Page
with_prot prot none = none
with_prot prot (some p) = some (record p { prot = prot })

lookup-protect_page :
    (prot v : ℕ) (m : Memory) (w : ℕ)
    → v < 2 ^ 36
    → lookup (protect_page prot v m) w
      ≡ (if w == v then with_prot prot (lookup m v) else lookup m w)
lookup-protect_page prot v m w h = elim (Option-cases (lookup m v)) [
  | inl e ↦ ground (arith, e)
  | inr (p, e) ↦ ground (arith, e, lookup-set_page m v w (some (record p { prot = prot })) h)
]

pub lookup-protect_pages :
    (prot n v : ℕ) (m : Memory) (w : ℕ)
    → v + n ≤ 2 ^ 36
    → lookup (protect_pages prot n v m) w
      ≡ (if among v n w then with_prot prot (lookup m w) else lookup m w)
unfolding protect_pages
lookup-protect_pages prot zero v m w h = ground arith
lookup-protect_pages prot (suc n) v m w h = ground (
  arith,
  lookup-protect_pages prot n (v + 1) (protect_page prot v m) w (omega arith),
  lookup-protect_page prot v m w (omega arith),
)

-- The loops over the arrays and counters touch nothing else.
pub arrays-map_pages : (prot n v : ℕ) (m : Memory) → (map_pages prot n v m).arrays ≡ m.arrays
unfolding map_pages
arrays-map_pages prot zero v m = refl
arrays-map_pages prot (suc n) v m =
    arrays-map_pages prot n (v + 1) (set_page m v (some (new_page prot)))

pub arrays-unmap_pages : (n v : ℕ) (m : Memory) → (unmap_pages n v m).arrays ≡ m.arrays
unfolding unmap_pages
arrays-unmap_pages zero v m = refl
arrays-unmap_pages (suc n) v m = arrays-unmap_pages n (v + 1) (set_page m v none)

pub arrays-protect_pages :
    (prot n v : ℕ) (m : Memory) → (protect_pages prot n v m).arrays ≡ m.arrays
unfolding protect_pages
arrays-protect_pages prot zero v m = refl
arrays-protect_pages prot (suc n) v m = elim (Option-cases (lookup m v)) [
  | inl e ↦ arrays-protect_pages prot n (v + 1) (protect_page prot v m) ∙ ground (arith, e)
  | inr (p, e) ↦ arrays-protect_pages prot n (v + 1) (protect_page prot v m) ∙ ground (arith, e)
]

-- The first page that is found is mapped; none is found where none is.
pub first_mapped_sound :
    (m : Memory) (n v w : ℕ)
    → first_mapped m n v ≡ none
    → (among v n w && is_there (lookup m w)) ≡ false
unfolding first_mapped
first_mapped_sound m zero v w h = ground arith
first_mapped_sound m (suc n) v w h = elim (Option-cases (lookup m v)) [
  | inl e ↦ ground (arith, e, h, first_mapped_sound m n (v + 1) w (ground (arith, e, h)))
  | inr (p, e) ↦ ground (arith, e, h)
]

pub first_mapped-found :
    (m : Memory) (n v u : ℕ)
    → first_mapped m n v ≡ some u
    → (among v n u && is_there (lookup m u)) ≡ true
unfolding first_mapped
first_mapped-found m zero v u h = ground (arith, h)
first_mapped-found m (suc n) v u h = elim (Option-cases (lookup m v)) [
  | inl e ↦ ground (arith, e, first_mapped-found m n (v + 1) u (ground (arith, e, h)))
  | inr (p, e) ↦ let same : v ≡ u = ground (arith, e, h) in ground (arith, e, same)
]

pub first_unmapped_sound :
    (m : Memory) (n v w : ℕ)
    → first_unmapped m n v ≡ none
    → (among v n w && not (is_there (lookup m w))) ≡ false
unfolding first_unmapped
first_unmapped_sound m zero v w h = ground arith
first_unmapped_sound m (suc n) v w h = elim (Option-cases (lookup m v)) [
  | inr (p, e) ↦ ground (arith, e, first_unmapped_sound m n (v + 1) w (ground (arith, e, h)))
  | inl e ↦ ground (arith, e, h)
]

pub first_unmapped-found :
    (m : Memory) (n v u : ℕ)
    → first_unmapped m n v ≡ some u
    → (among v n u && not (is_there (lookup m u))) ≡ true
unfolding first_unmapped
first_unmapped-found m zero v u h = ground (arith, h)
first_unmapped-found m (suc n) v u h = elim (Option-cases (lookup m v)) [
  | inr (p, e) ↦ ground (arith, e, first_unmapped-found m n (v + 1) u (ground (arith, e, h)))
  | inl e ↦ let same : v ≡ u = ground (arith, e, h) in ground (arith, e, same)
]
