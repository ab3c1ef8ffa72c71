-- ===== src/Arm64/Mem/Coherent/Writable.antt =====
-- `writable` of internal/arm64/mem.go: what it does to a page, to the bytes and to the caches.
use gonidbg.Base.{
  ℕ, ◌≡◌, refl, arith, ◌==◌, if◌then◌else◌, Option, none, some, Option-cases, inl, inr, ap, ◌∙◌,
}
use gonidbg.Arm64.Mem.{Memory, Page}
use gonidbg.Arm64.Mem.Table.{lookup, lookup-set_page, lookup-beyond}
use gonidbg.Arm64.Mem.Tlb.{page_data, drop_code, allocate, drop_decoded, writable}
use gonidbg.Arm64.Mem.Coherent.{data_of, IsCoherent}
use gonidbg.Arm64.Mem.Coherent.Steps.{drop_code-IsCoherent}
use gonidbg.Arm64.Mem.Coherent.Caches.{
  lookup-allocate, allocate-IsCoherent, arrays-allocate, hooks-allocate,
}

-- A page as `writable` leaves it.
abbrev pub written_page : Page → ℕ → Page
written_page p d = record { contents = some d; prot = p.prot; code = none }

drop_decoded-IsCoherent :
    (m : Memory) (vpn : ℕ) (q : Page) (o : Option ℕ)
    → IsCoherent m
    → lookup m vpn ≡ some q
    → IsCoherent (drop_decoded m vpn q o)
drop_decoded-IsCoherent m vpn q none co here = co
drop_decoded-IsCoherent m vpn q (some c) co here = drop_code-IsCoherent m co vpn q here

lookup-drop_decoded :
    (m : Memory) (vpn w : ℕ) (q : Page) (o : Option ℕ)
    → q.code ≡ o
    → lookup m vpn ≡ some q
    → lookup (drop_decoded m vpn q o) w
      ≡ (if w == vpn then some (record q { code = none }) else lookup m w)
unfolding drop_code
lookup-drop_decoded m vpn w q none e here = ground (arith, e, here)
lookup-drop_decoded m vpn w q (some c) e here = ground (
  arith,
  here,
  lookup-beyond m vpn q here,
  lookup-set_page m vpn w (some (record q { code = none })),
)

data-drop_decoded :
    (m : Memory) (vpn w : ℕ) (q : Page) (o : Option ℕ)
    → lookup m vpn ≡ some q
    → data_of (lookup (drop_decoded m vpn q o) w) ≡ data_of (lookup m w)
unfolding drop_code
data-drop_decoded m vpn w q none here = refl
data-drop_decoded m vpn w q (some c) here = ground (
  arith,
  here,
  lookup-beyond m vpn q here,
  lookup-set_page m vpn w (some (record q { code = none })),
)

-- What dropping decoded code leaves alone.
arrays-drop_decoded :
    (m : Memory) (vpn : ℕ) (q : Page) (o : Option ℕ)
    → ((drop_decoded m vpn q o).arrays ≡ m.arrays)
      × ((drop_decoded m vpn q o).rhooks ≡ m.rhooks)
      × ((drop_decoded m vpn q o).whooks ≡ m.whooks)
      × ((drop_decoded m vpn q o).invalid ≡ m.invalid)
unfolding drop_code
arrays-drop_decoded m vpn q none = (refl, refl, refl, refl)
arrays-drop_decoded m vpn q (some c) = (refl, refl, refl, refl)

module _ (m : Memory) (co : IsCoherent m) (vpn : ℕ) (p : Page) (here : lookup m vpn ≡ some p) where
  allocated : lookup (allocate m vpn p).1 vpn ≡ some (allocate m vpn p).0
  allocated = ground (arith, lookup-allocate m co vpn p here vpn)

  allocated_page :
      (record (allocate m vpn p).0 { code = none })
      ≡ written_page p (page_data (allocate m vpn p).0)
  unfolding allocate
  allocated_page = elim (Option-cases p.contents) [
    | inl e ↦ ground (arith, e)
    | inr (d, e) ↦ ground (arith, e)
  ]

  pub writable-IsCoherent : IsCoherent (writable m vpn p).1
  unfolding writable
  writable-IsCoherent =
      drop_decoded-IsCoherent (allocate m vpn p).1 vpn (allocate m vpn p).0
        (allocate m vpn p).0.code (allocate-IsCoherent m co vpn p here) allocated

  -- The array is the page's own if it has one, else a new one.
  pub lookup-writable :
      (w : ℕ)
      → lookup (writable m vpn p).1 w
        ≡ (if w == vpn then some (written_page p (writable m vpn p).0) else lookup m w)
  unfolding writable
  lookup-writable w = ground (
    arith,
    allocated_page,
    lookup-drop_decoded (allocate m vpn p).1 vpn w (allocate m vpn p).0 (allocate m vpn p).0.code
        refl allocated,
    lookup-allocate m co vpn p here w,
  )

  -- No byte changes.
  pub arrays-writable :
      (w i : ℕ)
      → (writable m vpn p).1.arrays (data_of (lookup (writable m vpn p).1 w)) i
        ≡ m.arrays (data_of (lookup m w)) i
  unfolding writable
  arrays-writable w i =
      let (q, n) = allocate m vpn p in
      let kept = arrays-drop_decoded n vpn q q.code in
      ap (λ a. a (data_of (lookup (writable m vpn p).1 w)) i) (kept.0)
      ∙ ap (λ d. (allocate m vpn p).1.arrays d i)
          (data-drop_decoded (allocate m vpn p).1 vpn w (allocate m vpn p).0
            (allocate m vpn p).0.code allocated)
      ∙ arrays-allocate m co vpn p here w i

  pub hooks-writable :
      ((writable m vpn p).1.rhooks ≡ m.rhooks)
      × ((writable m vpn p).1.whooks ≡ m.whooks)
      × ((writable m vpn p).1.invalid ≡ m.invalid)
  unfolding writable
  hooks-writable =
      let (q, n) = allocate m vpn p in
      let kept = arrays-drop_decoded n vpn q q.code in
      let before = hooks-allocate m co vpn p here in
      (kept.1 ∙ before.0, kept.2 ∙ before.1, kept.3 ∙ before.2)
