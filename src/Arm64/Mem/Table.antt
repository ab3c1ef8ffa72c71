-- ===== src/Arm64/Mem/Table.antt =====
-- The page table of internal/arm64/mem.go: `lookup` and `setPage` on three levels.
use gonidbg.Base.{
  ℕ, ◌^◌, ◌<◌, ◌≡◌, arith, ◌==◌, if◌then◌else◌, field, shr, Option, none, some, Option-cases, inl,
  inr, Bool-cases, ◌&&◌, ltb, ◌≤◌,
}
use gonidbg.Arm64.Cpu.{update}
use gonidbg.Arm64.Mem.{Memory, Page, L2}

-- A slot of a table that may be nil.
abbrev pub slot {ℓ} : {A : Type ℓ} → Option (ℕ → Option A) → ℕ → Option A
slot none k = none
slot (some t) k = t k

unfoldable pub walk : (ℕ → Option L2) → ℕ → Option Page
walk l1 vpn =
    if shr vpn 36 == 0
    then slot (slot (l1 (shr vpn 24)) (field vpn 12 12)) (field vpn 0 12)
    else none

abbrev pub lookup : Memory → ℕ → Option Page
lookup m vpn = walk m.l1 vpn

-- The second half of `setPage`: the level-3 table is made only for a page.
unfoldable pub put_l2 : L2 → ℕ → Option Page → L2
put_l2 l2 vpn p =
    let at = field vpn 12 12 in
    elim (l2 at) [
      | some l3 ↦ update l2 at (some (update l3 (field vpn 0 12) p))
      | none ↦ elim p [
        | none ↦ l2
        | some q ↦ update l2 at (some (update (λ k. none) (field vpn 0 12) (some q)))
      ]
    ]

unfoldable pub put_l1 : (ℕ → Option L2) → ℕ → Option Page → ℕ → Option L2
unfolding put_l2
put_l1 l1 vpn p =
    let at = shr vpn 24 in
    elim (l1 at) [
      | some l2 ↦ update l1 at (some (put_l2 l2 vpn p))
      | none ↦ elim p [ none ↦ l1 | some q ↦ update l1 at (some (put_l2 (λ k. none) vpn (some q))) ]
    ]

abbrev pub set_page : Memory → ℕ → Option Page → Memory
set_page m vpn p = record m { l1 = put_l1 m.l1 vpn p }

-- What `put_l2` does to a slot.
put_l2-slot :
    (l2 : L2) (v w : ℕ) (p : Option Page)
    → slot (put_l2 l2 v p (field w 12 12)) (field w 0 12) ≡ (
        if (field w 12 12 == field v 12 12) && (field w 0 12 == field v 0 12)
        then p
        else slot (l2 (field w 12 12)) (field w 0 12))
unfolding put_l2
put_l2-slot l2 v w none = elim (Option-cases (l2 (field v 12 12))) [
  | inl e ↦ ground (arith, e)
  | inr (t, e) ↦ ground (arith, e)
]
put_l2-slot l2 v w (some q) = elim (Option-cases (l2 (field v 12 12))) [
  | inl e ↦ ground (arith, e)
  | inr (t, e) ↦ ground (arith, e)
]

-- A page number is its three indices.
indices :
    (v w : ℕ)
    → v < 2 ^ 36
    → w < 2 ^ 36
    → (w == v)
      ≡ (shr w 24 == shr v 24) && (field w 12 12 == field v 12 12) && (field w 0 12 == field v 0 12)
indices v w hv hw = ground arith

walk-put_l1 :
    (l1 : ℕ → Option L2) (v w : ℕ) (p : Option Page)
    → v < 2 ^ 36
    → w < 2 ^ 36
    → walk (put_l1 l1 v p) w ≡ (if w == v then p else walk l1 w)
unfolding walk put_l1
walk-put_l1 l1 v w none hv hw = elim (Option-cases (l1 (shr v 24))) [
  | inl e ↦ ground (arith, e)
  | inr (t, e) ↦ ground (arith, e, put_l2-slot t v w none, indices v w hv hw)
]
walk-put_l1 l1 v w (some q) hv hw = elim (Option-cases (l1 (shr v 24))) [
  | inl e ↦ ground (arith, e, put_l2-slot (λ k. none) v w (some q), indices v w hv hw)
  | inr (t, e) ↦ ground (arith, e, put_l2-slot t v w (some q), indices v w hv hw)
]

walk-beyond : (l1 : ℕ → Option L2) (w : ℕ) → 2 ^ 36 ≤ w → walk l1 w ≡ none
unfolding walk
walk-beyond l1 w h = ground arith

-- For a page number of the 48-bit address space, the table finds what was put there, and at every
-- other page number, also beyond, what it found before.
pub lookup-set_page :
    (m : Memory) (v w : ℕ) (p : Option Page)
    → v < 2 ^ 36
    → lookup (set_page m v p) w ≡ (if w == v then p else lookup m w)
lookup-set_page m v w p hv = elim (Bool-cases (ltb w (2 ^ 36))) [
  | inl near ↦ walk-put_l1 m.l1 v w p hv (ground arith)
  | inr far ↦
      ground
        (arith, walk-beyond m.l1 w (ground arith), walk-beyond (put_l1 m.l1 v p) w (ground arith))
]

-- Nothing is mapped beyond the 48-bit address space.
pub lookup-beyond : (m : Memory) (v : ℕ) (p : Page) → lookup m v ≡ some p → v < 2 ^ 36
unfolding walk
lookup-beyond m v p e = ground arith
