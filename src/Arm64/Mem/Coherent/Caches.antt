-- ===== src/Arm64/Mem/Coherent/Caches.antt =====
-- The steps of internal/arm64/mem.go that fill an entry of a TLB or write to an array, and the
-- invariant of the caches.
use gonidbg.Base.{
  ℕ, ◌^◌, ◌≡◌, arith, true, false, ltb, ◌==◌, if◌then◌else◌, some, Option-cases, inl, inr,
}
use gonidbg.Arm64.Mem.{Memory, Page, prot_read}
use gonidbg.Arm64.Mem.Table.{lookup, lookup-set_page, lookup-beyond}
use gonidbg.Arm64.Mem.Tlb.{allocate}
use gonidbg.Arm64.Mem.Guest.{hooks_cover_page, fill_rtlb, fill_wtlb, store_array}
use gonidbg.Arm64.Mem.Guest.Lanes.{store_n}
use gonidbg.Arm64.Mem.Coherent.{allows, serves_write, data_of, IsOwned, IsCached, IsCoherent}

pub fill_rtlb-IsCoherent :
    (m : Memory) (vpn : ℕ) (p : Page)
    → IsCoherent m
    → lookup m vpn ≡ some p
    → allows p prot_read ≡ true
    → hooks_cover_page m.rhooks vpn ≡ false
    → IsCoherent (fill_rtlb vpn p m)
unfolding fill_rtlb
fill_rtlb-IsCoherent m vpn p co here may quiet = record {
  owned = record {
    zeros = co.owned.zeros;
    narrow = co.owned.narrow;
    room = co.owned.room;
    bounded = co.owned.bounded;
    apart = co.owned.apart;
  };
  cached = record {
    reads = λ k. ground (arith, here, may, quiet, co.cached.reads k);
    writes = co.cached.writes;
    codes = co.cached.codes;
    executing = co.cached.executing;
  };
}

pub fill_wtlb-IsCoherent :
    (m : Memory) (vpn d : ℕ)
    → IsCoherent m
    → serves_write (lookup m vpn) d ≡ true
    → hooks_cover_page m.whooks vpn ≡ false
    → IsCoherent (fill_wtlb vpn d m)
unfolding fill_wtlb
fill_wtlb-IsCoherent m vpn d co may quiet = record {
  owned = record {
    zeros = co.owned.zeros;
    narrow = co.owned.narrow;
    room = co.owned.room;
    bounded = co.owned.bounded;
    apart = co.owned.apart;
  };
  cached = record {
    reads = co.cached.reads;
    writes = λ k. ground (arith, may, quiet, co.cached.writes k);
    codes = co.cached.codes;
    executing = co.cached.executing;
  };
}

store_n-narrow :
    (b : ℕ → ℕ) (off size v i : ℕ)
    → ((j : ℕ) → ltb (b j) (2 ^ 8) ≡ true)
    → ltb (store_n b off size v i) (2 ^ 8) ≡ true
unfolding store_n
store_n-narrow b off size v i h = ground (arith, h i)

pub store_array-IsCoherent :
    (m : Memory) (d off size v : ℕ)
    → IsCoherent m
    → ltb 0 d ≡ true
    → IsCoherent (store_array d off size v m)
store_array-IsCoherent m d off size v co h = record {
  owned = record {
    zeros = λ i. ground (arith, h, co.owned.zeros i);
    narrow = λ b i. ground (
      arith,
      co.owned.narrow b i,
      store_n-narrow (m.arrays d) off size v i (λ j. co.owned.narrow d j),
    );
    room = co.owned.room;
    bounded = co.owned.bounded;
    apart = co.owned.apart;
  };
  cached = record {
    reads = co.cached.reads;
    writes = co.cached.writes;
    codes = co.cached.codes;
    executing = co.cached.executing;
  };
}

module _ (m : Memory) (co : IsCoherent m) (vpn : ℕ) (p : Page) (here : lookup m vpn ≡ some p) where
  -- What stands behind a page number after `allocate`.
  pub lookup-allocate :
      (w : ℕ)
      → lookup (allocate m vpn p).1 w ≡ (if w == vpn then some (allocate m vpn p).0 else lookup m w)
  unfolding allocate
  lookup-allocate w = elim (Option-cases p.contents) [
    | inr (d, e) ↦ ground (arith, e, here)
    | inl e ↦ ground (
      arith,
      e,
      here,
      lookup-beyond m vpn p here,
      lookup-set_page m vpn w (some (record p { contents = some m.fresh })),
    )
  ]

  allocate-IsOwned : IsOwned (allocate m vpn p).1
  unfolding allocate
  allocate-IsOwned = elim (Option-cases p.contents) [
    | inr (d, e) ↦ record {
      zeros = λ i. ground (arith, e, co.owned.zeros i);
      narrow = λ b i. ground (arith, e, co.owned.narrow b i);
      room = ground (arith, e, co.owned.room);
      bounded = λ v. ground (arith, e, co.owned.bounded v);
      apart = λ v w. ground (arith, e, co.owned.apart v w);
    }
    | inl e ↦ record {
      zeros = λ i. ground (arith, e, co.owned.zeros i, co.owned.room);
      narrow = λ b i. ground (arith, e, co.owned.narrow b i);
      room = ground (arith, e, co.owned.room);
      bounded = λ v. ground (
        arith,
        e,
        here,
        lookup-beyond m vpn p here,
        lookup-set_page m vpn v (some (record p { contents = some m.fresh })),
        co.owned.bounded v,
        co.owned.room,
      );
      apart = λ v w. ground (
        arith,
        e,
        here,
        lookup-beyond m vpn p here,
        lookup-set_page m vpn v (some (record p { contents = some m.fresh })),
        lookup-set_page m vpn w (some (record p { contents = some m.fresh })),
        co.owned.apart v w,
        co.owned.bounded v,
        co.owned.bounded w,
      );
    }
  ]

  allocate-IsCached : IsCached (allocate m vpn p).1
  unfolding allocate
  allocate-IsCached = elim (Option-cases p.contents) [
    | inr (d, e) ↦ record {
      reads = λ k. ground (arith, e, co.cached.reads k);
      writes = λ k. ground (arith, e, co.cached.writes k);
      codes = λ k. ground (arith, e, co.cached.codes k);
      executing = ground (arith, e, co.cached.executing);
    }
    | inl e ↦ record {
      reads = λ k. ground (
        arith,
        e,
        here,
        lookup-beyond m vpn p here,
        lookup-set_page m vpn (m.rtlb k).vpn (some (record p { contents = some m.fresh })),
        co.cached.reads k,
      );
      writes = λ k. ground (
        arith,
        e,
        here,
        lookup-beyond m vpn p here,
        lookup-set_page m vpn (m.wtlb k).vpn (some (record p { contents = some m.fresh })),
        co.cached.writes k,
      );
      codes = λ k. ground (
        arith,
        e,
        here,
        lookup-beyond m vpn p here,
        lookup-set_page m vpn (m.ctlb k).vpn (some (record p { contents = some m.fresh })),
        co.cached.codes k,
      );
      executing = ground (
        arith,
        e,
        here,
        lookup-beyond m vpn p here,
        lookup-set_page m vpn m.fetch_vpn (some (record p { contents = some m.fresh })),
        co.cached.executing,
      );
    }
  ]

  pub allocate-IsCoherent : IsCoherent (allocate m vpn p).1
  allocate-IsCoherent = record { owned = allocate-IsOwned; cached = allocate-IsCached }

  -- A new array holds the zeros that the page read as before.
  pub arrays-allocate :
      (w i : ℕ)
      → (allocate m vpn p).1.arrays (data_of (lookup (allocate m vpn p).1 w)) i
        ≡ m.arrays (data_of (lookup m w)) i
  unfolding allocate
  arrays-allocate w i = elim (Option-cases p.contents) [
    | inl e ↦ ground (
      arith,
      e,
      here,
      lookup-beyond m vpn p here,
      lookup-set_page m vpn w (some (record p { contents = some m.fresh })),
      co.owned.zeros i,
      co.owned.bounded w,
      co.owned.room,
    )
    | inr (d, e) ↦ ground (arith, e)
  ]

  pub hooks-allocate :
      ((allocate m vpn p).1.rhooks ≡ m.rhooks)
      × ((allocate m vpn p).1.whooks ≡ m.whooks)
      × ((allocate m vpn p).1.invalid ≡ m.invalid)
  unfolding allocate
  hooks-allocate = elim (Option-cases p.contents) [
    | inl e ↦ (ground (arith, e), ground (arith, e), ground (arith, e))
    | inr (d, e) ↦ (ground (arith, e), ground (arith, e), ground (arith, e))
  ]
