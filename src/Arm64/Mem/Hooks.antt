-- ===== src/Arm64/Mem/Hooks.antt =====
-- The hooks of internal/arm64/mem.go and the caches: what a registration and `DropCode` keep.
use gonidbg.Base.{
  ℕ, ◌≡◌, refl, arith, field, shr, [], ◌∷◌, ◌++◌, Option, Option-cases, inl, inr, none, some,
}
use gonidbg.Arm64.Mem.{Memory, Page, MemHook}
use gonidbg.Arm64.Mem.Table.{lookup, walk}
use gonidbg.Arm64.Mem.Tlb.{init, zero_memory}
use gonidbg.Arm64.Mem.Host.{drop_all_code, add_read_hook, add_write_hook}
use gonidbg.Arm64.Mem.Coherent.{IsCoherent}
use gonidbg.Arm64.Mem.Coherent.Steps.{flush_tlb-IsCoherent}

lookup-zero_memory : (v : ℕ) → lookup zero_memory v ≡ none
unfolding walk
lookup-zero_memory v = ground arith

pub init-IsCoherent : IsCoherent init
unfolding init
init-IsCoherent = flush_tlb-IsCoherent zero_memory (record {
  zeros = λ i. refl;
  narrow = λ d i. refl;
  room = refl;
  bounded = λ v. ground (arith, lookup-zero_memory v);
  apart = λ v w. ground (arith, lookup-zero_memory v);
})

pub add_read_hook-IsCoherent :
    (m : Memory) (h : MemHook) → IsCoherent m → IsCoherent (add_read_hook m h)
unfolding add_read_hook
add_read_hook-IsCoherent m h co =
    flush_tlb-IsCoherent (record m { rhooks = m.rhooks ++ h ∷ [] })
      (record {
        zeros = co.owned.zeros;
        narrow = co.owned.narrow;
        room = co.owned.room;
        bounded = co.owned.bounded;
        apart = co.owned.apart;
      })

pub add_write_hook-IsCoherent :
    (m : Memory) (h : MemHook) → IsCoherent m → IsCoherent (add_write_hook m h)
unfolding add_write_hook
add_write_hook-IsCoherent m h co =
    flush_tlb-IsCoherent (record m { whooks = m.whooks ++ h ∷ [] })
      (record {
        zeros = co.owned.zeros;
        narrow = co.owned.narrow;
        room = co.owned.room;
        bounded = co.owned.bounded;
        apart = co.owned.apart;
      })

-- What `DropCode` leaves of a page.
abbrev without_code : Option Page → Option Page
without_code none = none
without_code (some p) = some (record p { code = none })

lookup-drop_all_code : (m : Memory) (v : ℕ) → lookup (drop_all_code m) v ≡ without_code (lookup m v)
unfolding drop_all_code walk
lookup-drop_all_code m v = elim (Option-cases (m.l1 (shr v 24))) [
  | inl e ↦ ground (arith, e)
  | inr (l2, e) ↦ elim (Option-cases (l2 (field v 12 12))) [
    | inl e2 ↦ ground (arith, e, e2)
    | inr (l3, e2) ↦ elim (Option-cases (l3 (field v 0 12))) [
      | inl e3 ↦ ground (arith, e, e2, e3)
      | inr (p, e3) ↦ ground (arith, e, e2, e3)
    ]
  ]
]

pub drop_all_code-IsCoherent : (m : Memory) → IsCoherent m → IsCoherent (drop_all_code m)
unfolding drop_all_code
drop_all_code-IsCoherent m co = record {
  owned = record {
    zeros = co.owned.zeros;
    narrow = co.owned.narrow;
    room = co.owned.room;
    bounded = λ v. ground (arith, lookup-drop_all_code m v, co.owned.bounded v);
    apart = λ v w.
        ground (arith, lookup-drop_all_code m v, lookup-drop_all_code m w, co.owned.apart v w);
  };
  cached = record {
    reads = λ k. ground (arith, lookup-drop_all_code m (m.rtlb k).vpn, co.cached.reads k);
    writes = λ k. ground (arith, lookup-drop_all_code m (m.wtlb k).vpn, co.cached.writes k);
    codes = λ k. refl;
    executing = refl;
  };
}
