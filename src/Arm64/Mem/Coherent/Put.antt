-- ===== src/Arm64/Mem/Coherent/Put.antt =====
-- A store behind `writable` of internal/arm64/mem.go: what it changes for the guest.
use gonidbg.Base.{
  ℕ, ◌+◌, ◌-◌, ◌*◌, ◌/◌, ◌%◌, ◌^◌, ◌≡◌, arith, true, false, ◌&&◌, ltb, leb, ◌==◌, field, shr,
  if◌then◌else◌, some,
}
use gonidbg.Arm64.Mem.{Memory, Page, prot_write}
use gonidbg.Arm64.Mem.Table.{lookup}
use gonidbg.Arm64.Mem.Tlb.{writable}
use gonidbg.Arm64.Mem.Guest.{store_array, put, fill_wtlb, hooks_cover_page}
use gonidbg.Arm64.Mem.Guest.Lanes.{store_n, width}
use gonidbg.Arm64.Mem.Coherent.{allows, IsCoherent}
use gonidbg.Arm64.Mem.Coherent.Caches.{store_array-IsCoherent, fill_wtlb-IsCoherent}
use gonidbg.Arm64.Mem.Coherent.Writable.{
  writable-IsCoherent, lookup-writable, arrays-writable, hooks-writable,
}
use gonidbg.Arm64.Mem.View.{byte_at, prot_of}

-- The byte `x` after a store of `size` bytes of `v` from offset `off` of page `vpn` on.
abbrev pub byte_put : (ℕ → ℕ) → ℕ → ℕ → ℕ → ℕ → ℕ → ℕ
byte_put f vpn off size v x =
    if (shr x 12 == vpn) && leb off (field x 0 12) && ltb (field x 0 12) (off + width size)
    then v / 2 ^ (8 * (field x 0 12 - off)) % 2 ^ 8
    else f x

module _ (m : Memory) (co : IsCoherent m) (vpn : ℕ) (p : Page) (here : lookup m vpn ≡ some p) where
  fresh_array : ltb 0 (writable m vpn p).0 ≡ true
  fresh_array = ground (
    arith,
    lookup-writable m co vpn p here vpn,
    (writable-IsCoherent m co vpn p here).owned.bounded vpn,
  )

  pub put-IsCoherent : (off size v : ℕ) → IsCoherent (put vpn p off size v m)
  put-IsCoherent off size v =
      store_array-IsCoherent (writable m vpn p).1 (writable m vpn p).0 off size v
        (writable-IsCoherent m co vpn p here) fresh_array

  pub put_cached-IsCoherent :
      (off size v : ℕ)
      → allows p prot_write ≡ true
      → hooks_cover_page m.whooks vpn ≡ false
      → IsCoherent (
          store_array
            (writable m vpn p).0
            off
            size
            v
            (fill_wtlb vpn (writable m vpn p).0 (writable m vpn p).1))
  put_cached-IsCoherent off size v may quiet =
      store_array-IsCoherent _ (writable m vpn p).0 off size v
        (fill_wtlb-IsCoherent (writable m vpn p).1 vpn (writable m vpn p).0
          (writable-IsCoherent m co vpn p here)
          (ground (arith, may, lookup-writable m co vpn p here vpn))
          (rw ((hooks-writable m co vpn p here).1) quiet))
        fresh_array

  pub prot-put :
      (off size v w : ℕ) → prot_of (lookup (put vpn p off size v m) w) ≡ prot_of (lookup m w)
  prot-put off size v w = ground (arith, here, lookup-writable m co vpn p here w)

  pub byte-put :
      (off size v x : ℕ)
      → byte_at (put vpn p off size v m) x ≡ byte_put (byte_at m) vpn off size v x
  unfolding store_n
  byte-put off size v x = ground (
    arith,
    here,
    fresh_array,
    lookup-writable m co vpn p here (shr x 12),
    lookup-writable m co vpn p here vpn,
    arrays-writable m co vpn p here (shr x 12) (field x 0 12),
    (writable-IsCoherent m co vpn p here).owned.apart vpn (shr x 12),
  )
